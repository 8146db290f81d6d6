-- ===== src/Server/TimerQueue/Arm.antt =====
-- `arm` and `cancel` of server/timer_queue.h on the deadlines.
use tetris_multiplayer_rl.Common.Assoc.{
  find, find-erase_other, find-insert_other, find-erase, find-insert, erase, insert, ==_refl,
}
use tetris_multiplayer_rl.Server.TimerQueue.Deadlines.{
  deadline_in_same, deadline_in-stale, deadline_in_gone, IsValid, deadline_in-live, IsSorted,
  deadline, deadline_in-away, deadline_in, is_live_known,
}
use tetris_multiplayer_rl.Server.TimerQueue.{TimerQueue, Entry, push, cancel, arm}
use tetris_multiplayer_rl.Common.{
  ltb, ◌==◌, ==_iff, Bool-cases, All, u64, ℕ, ◌+◌, ◌^◌, ◌≤◌, ◌<◌, ◌≡◌, refl, ap, ◌∙◌, inl, inr,
  false, none, some, List, [], ◌∷◌, arith,
}

module _ {κ} (P : Entry → Type κ) where
  push-All : (e : Entry) (heap : List Entry) → P e → All P heap → All P (push e heap)
  unfolding push
  push-All e [] p h = (p, tt)
  push-All e (x ∷ heap) p (q, h) = elim (Bool-cases (ltb e.when x.when)) [
    | inl before ↦ rw before (p, (q, h))
    | inr after ↦ rw after (q, push-All e heap p h)
  ]

later :
    (w v : ℕ) (heap : List Entry) → w ≤ v → All (λ x. v ≤ x.when) heap → All (λ x. w ≤ x.when) heap
later w v [] h all = tt
later w v (x ∷ heap) h (p, all) = (omega arith, later w v heap h all)

push-IsSorted : (e : Entry) (heap : List Entry) → IsSorted heap → IsSorted (push e heap)
unfolding push
push-IsSorted e [] h = (tt, tt)
push-IsSorted e (x ∷ heap) (p, h) = elim (Bool-cases (ltb e.when x.when)) [
  | inl before ↦
      let le : e.when ≤ x.when = ground (arith, before) in
      rw before ((le, later e.when x.when heap le p), (p, h))
  | inr after ↦
      let le : x.when ≤ e.when = ground (arith, after) in
      rw after (push-All (λ y. x.when ≤ y.when) e heap le p, push-IsSorted e heap h)
]

deadline_in-cons :
    (x : Entry) (h1 h2 : List Entry) (live : List (ℕ × ℕ)) (token : ℕ)
    → deadline_in h1 live token ≡ deadline_in h2 live token
    → deadline_in (x ∷ h1) live token ≡ deadline_in (x ∷ h2) live token
unfolding deadline_in
deadline_in-cons x h1 h2 live token p = rw p refl

-- An entry of another token does not show.
deadline_in-push_other :
    (e : Entry) (heap : List Entry) (live : List (ℕ × ℕ)) (token : ℕ)
    → (e.token == token) ≡ false
    → deadline_in (push e heap) live token ≡ deadline_in heap live token
unfolding push
deadline_in-push_other e [] live token h = deadline_in-away e [] live token h
deadline_in-push_other e (x ∷ heap) live token h = elim (Bool-cases (ltb e.when x.when)) [
  | inl before ↦ rw before (deadline_in-away e (x ∷ heap) live token h)
  | inr after ↦
      let rest = deadline_in-push_other e heap live token h in
      rw after (deadline_in-cons x (push e heap) heap live token rest)
]

-- The entry of the live generation shows, since the others of its token are stale.
deadline_in-push :
    (e : Entry) (heap : List Entry) (live : List (ℕ × ℕ))
    → find e.token live ≡ some e.seq
    → All (λ x. x.seq < e.seq) heap
    → deadline_in (push e heap) live e.token ≡ some e.when
unfolding push
deadline_in-push e [] live h all =
    deadline_in-live e [] live e.token (==_refl e.token)
      (is_live_known live e e.seq h ∙ ==_refl e.seq)
deadline_in-push e (x ∷ heap) live h (p, all) = elim (Bool-cases (ltb e.when x.when)) [
  | inl before ↦ rw before (
      deadline_in-live e (x ∷ heap) live e.token (==_refl e.token)
        (is_live_known live e e.seq h ∙ ==_refl e.seq))
  | inr after ↦ rw after (elim (Bool-cases (x.token == e.token)) [
    | inl same ↦
        let t : x.token ≡ e.token = (==_iff _ _).0 same in
        let s : (e.seq == x.seq) ≡ false = ground (arith, p) in
        let gen = ap (λ k. find k live) t ∙ h in
        deadline_in-stale x (push e heap) live e.token (is_live_known live x e.seq gen ∙ s)
        ∙ deadline_in-push e heap live h all
    | inr other ↦
        deadline_in-away x (push e heap) live e.token other ∙ deadline_in-push e heap live h all
  ])
]

seqs_below :
    (n m : ℕ) (heap : List Entry) → n ≤ m → All (λ x. x.seq ≤ n) heap → All (λ x. x.seq ≤ m) heap
seqs_below n m [] h all = tt
seqs_below n m (x ∷ heap) h (p, all) = (omega arith, seqs_below n m heap h all)

seqs_before :
    (n m : ℕ) (heap : List Entry) → n < m → All (λ x. x.seq ≤ n) heap → All (λ x. x.seq < m) heap
seqs_before n m [] h all = tt
seqs_before n m (x ∷ heap) h (p, all) = (omega arith, seqs_before n m heap h all)

-- On a valid queue below the last generation of 64 bits `arm` gives the token the new deadline, whatever it had, and
-- leaves the deadlines of the others; the queue stays valid.
pub arm_lem :
    (token when : ℕ) (q : TimerQueue)
    → IsValid q
    → q.next_seq + 1 < 2 ^ 64
    → IsValid (arm token when q)
      × (deadline (arm token when q) token ≡ some when)
      × ((other : ℕ)
          → (token == other) ≡ false
          → deadline (arm token when q) other ≡ deadline q other)
unfolding arm deadline
arm_lem token when q v room =
    let seq = u64 (q.next_seq + 1) in
    let next : seq ≡ q.next_seq + 1 = omega arith in
    let e : Entry = record { when = when; token = token; seq = seq } in
    let live = insert token seq q.live in
    let before : All (λ x. x.seq < seq) q.heap =
      seqs_before q.next_seq seq q.heap (omega (arith, next)) v.past in
    (
      record {
        sorted = push-IsSorted e q.heap v.sorted;
        past =
            push-All (λ x. x.seq ≤ seq) e q.heap (omega arith)
              (seqs_below q.next_seq seq q.heap (omega (arith, next)) v.past);
      },
      deadline_in-push e q.heap live (find-insert token seq q.live) before,
      λ other away.
          deadline_in-push_other e q.heap live other away
          ∙ deadline_in_same q.heap live q.live other
              (find-insert_other token other seq q.live away),
    )

-- On a valid queue `cancel` takes the token's deadline away and leaves the others, and the queue
-- stays valid.
pub cancel_lem :
    (token : ℕ) (q : TimerQueue)
    → IsValid q
    → IsValid (cancel token q)
      × (deadline (cancel token q) token ≡ none)
      × ((other : ℕ)
          → (token == other) ≡ false
          → deadline (cancel token q) other ≡ deadline q other)
unfolding cancel deadline
cancel_lem token q v = (
  record { sorted = v.sorted; past = v.past },
  deadline_in_gone q.heap (erase token q.live) token (find-erase token q.live),
  λ other away.
      deadline_in_same q.heap (erase token q.live) q.live other
        (find-erase_other token other q.live away),
)
