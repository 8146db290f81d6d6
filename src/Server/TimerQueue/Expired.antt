-- ===== src/Server/TimerQueue/Expired.antt =====
-- `expired` of server/timer_queue.h on the deadlines.
use tetris_multiplayer_rl.Common.Assoc.{find, find-erase_other, find-erase, erase}
use tetris_multiplayer_rl.Server.TimerQueue.Deadlines.{
  deadline_in-live, deadline_in-away, deadline_in_same, deadline_in_gone, deadline_in,
  deadline_in-stale, IsSorted, deadline, IsValid,
}
use tetris_multiplayer_rl.Server.TimerQueue.{is_live, expired_loop, Entry, TimerQueue, expired}
use tetris_multiplayer_rl.Common.{
  leb, ◌==◌, if◌then◌else◌, ==_iff, Bool-cases, if_true, if_false, All, ℕ, ◌+◌, ◌≤◌, ◌<◌, ◌≡◌, refl,
  sym, ap, ◌∙◌, inl, inr, true, false, Option, none, some, List, [], ◌∷◌, ◌++◌, arith,
}
use mathlib.Core.List.{append-nil, append_assoc}

unfoldable pub count : ℕ → List ℕ → ℕ
count k [] = 0
count k (x ∷ xs) = (if x == k then 1 else 0) + count k xs

-- How often a token with this deadline fires, and the deadline that it keeps.
unfoldable pub firings : ℕ → Option ℕ → ℕ
firings now none = 0
firings now (some when) = if leb when now then 1 else 0

unfoldable pub remaining : ℕ → Option ℕ → Option ℕ
remaining now none = none
remaining now (some when) = if leb when now then none else some when

-- What the loop leaves behind.
record Fires (now : ℕ) (heap : List Entry) (live : List (ℕ × ℕ)) (out : List ℕ) : Type 0 where
  pub heap_left : List Entry
  pub live_left : List (ℕ × ℕ)
  pub fired : List ℕ
  pub returns : expired_loop now heap live out ≡ (heap_left, live_left, out ++ fired)
  pub sorted : IsSorted heap_left
  pub past : (n : ℕ) → All (λ e. e.seq ≤ n) heap → All (λ e. e.seq ≤ n) heap_left
  pub counts : (token : ℕ) → count token fired ≡ firings now (deadline_in heap live token)
  pub left :
      (token : ℕ)
      → deadline_in heap_left live_left token ≡ remaining now (deadline_in heap live token)

module _ (now : ℕ) (e : Entry) (heap : List Entry) (live : List (ℕ × ℕ)) (out : List ℕ) where
  loop_fire :
      leb e.when now ≡ true
      → is_live live e ≡ true
      → expired_loop now (e ∷ heap) live out
        ≡ expired_loop now heap (erase e.token live) (out ++ e.token ∷ [])
  unfolding expired_loop
  loop_fire h l = rw (h, l) refl

  loop_skip :
      leb e.when now ≡ true
      → is_live live e ≡ false
      → expired_loop now (e ∷ heap) live out ≡ expired_loop now heap live out
  unfolding expired_loop
  loop_skip h l = rw (h, l) refl

  loop_stop : leb e.when now ≡ false → expired_loop now (e ∷ heap) live out ≡ (e ∷ heap, live, out)
  unfolding expired_loop
  loop_stop h = rw h refl

  -- The entry at the front fires.
  fire :
      leb e.when now ≡ true
      → is_live live e ≡ true
      → Fires now heap (erase e.token live) (out ++ e.token ∷ [])
      → Fires now (e ∷ heap) live out
  unfolding count firings remaining
  fire h l f = record {
    heap_left = f.heap_left;
    live_left = f.live_left;
    fired = e.token ∷ f.fired;
    returns =
        loop_fire h l
        ∙ f.returns
        ∙ ap (λ x. (f.heap_left, f.live_left, x)) (append_assoc out (e.token ∷ []) f.fired);
    sorted = f.sorted;
    past = λ n all. f.past n all.1;
    counts = λ token. elim (Bool-cases (e.token == token)) [
      | inl here ↦
          let now_due =
            ap (firings now) (deadline_in-live e heap live token here l) ∙ if_true _ _ h in
          let none_left = f.counts token ∙ ap (firings now) (gone token here) in
          let one = if_true {A = ℕ} 1 0 here in sym (now_due ∙ omega (arith, none_left, one))
      | inr away ↦
          let same = ap (firings now) (other token away) in
          let nought = if_false {A = ℕ} 1 0 away in omega (arith, nought, f.counts token, same)
    ];
    left = λ token. elim (Bool-cases (e.token == token)) [
      | inl here ↦
          f.left token
          ∙ ap (remaining now) (gone token here)
          ∙ sym (ap (remaining now) (deadline_in-live e heap live token here l) ∙ if_true _ _ h)
      | inr away ↦ f.left token ∙ ap (remaining now) (other token away)
    ];
  }
    where
      gone :
          (token : ℕ)
          → (e.token == token) ≡ true
          → deadline_in heap (erase e.token live) token ≡ none
      gone token here =
          let t : e.token ≡ token = (==_iff _ _).0 here in
          deadline_in_gone heap (erase e.token live) token
            (ap (λ k. find k (erase e.token live)) (sym t) ∙ find-erase e.token live)

      other :
          (token : ℕ)
          → (e.token == token) ≡ false
          → deadline_in heap (erase e.token live) token ≡ deadline_in (e ∷ heap) live token
      other token away =
          deadline_in_same heap (erase e.token live) live token
            (find-erase_other e.token token live away)
          ∙ sym (deadline_in-away e heap live token away)

  skip :
      leb e.when now ≡ true
      → is_live live e ≡ false
      → Fires now heap live out
      → Fires now (e ∷ heap) live out
  skip h l f = record {
    heap_left = f.heap_left;
    live_left = f.live_left;
    fired = f.fired;
    returns = loop_skip h l ∙ f.returns;
    sorted = f.sorted;
    past = λ n all. f.past n all.1;
    counts =
        λ token. f.counts token ∙ ap (firings now) (sym (deadline_in-stale e heap live token l));
    left = λ token. f.left token ∙ ap (remaining now) (sym (deadline_in-stale e heap live token l));
  }

-- Where every entry is later, nothing fires and nothing goes.
none_due :
    (now : ℕ) (heap : List Entry) (live : List (ℕ × ℕ)) (token : ℕ)
    → All (λ x. now < x.when) heap
    → (firings now (deadline_in heap live token) ≡ 0)
      × (remaining now (deadline_in heap live token) ≡ deadline_in heap live token)
unfolding firings remaining deadline_in
none_due now [] live token h = (refl, refl)
none_due now (e ∷ heap) live token (p, h) =
    let rest = none_due now heap live token h in
    elim (Bool-cases (e.token == token)) [
      | inr away ↦ rw away rest
      | inl here ↦ rw here (elim (Bool-cases (is_live live e)) [
        | inr stale ↦ rw stale rest
        | inl alive ↦
            let wait : leb e.when now ≡ false = ground (arith, p) in rw alive (rw wait (refl, refl))
      ])
    ]

after :
    (now v : ℕ) (heap : List Entry)
    → now < v
    → All (λ x. v ≤ x.when) heap
    → All (λ x. now < x.when) heap
after now v [] h all = tt
after now v (x ∷ heap) h (p, all) = (omega arith, after now v heap h all)

expired_loop_lem :
    (now : ℕ) (heap : List Entry) (live : List (ℕ × ℕ)) (out : List ℕ)
    → IsSorted heap
    → Fires now heap live out
unfolding count firings remaining deadline_in expired_loop
expired_loop_lem now [] live out s = record {
  heap_left = [];
  live_left = live;
  fired = [];
  returns = ap (λ x. ([], live, x)) (sym (append-nil out));
  sorted = tt;
  past = λ n all. tt;
  counts = λ token. refl;
  left = λ token. refl;
}
expired_loop_lem now (e ∷ heap) live out s = elim (Bool-cases (leb e.when now)) [
  | inl due ↦ elim (Bool-cases (is_live live e)) [
    | inl alive ↦
        fire now e heap live out due alive
          (expired_loop_lem now heap (erase e.token live) (out ++ e.token ∷ []) s.1)
    | inr stale ↦ skip now e heap live out due stale (expired_loop_lem now heap live out s.1)
  ]
  | inr wait ↦
      let first : now < e.when = ground (arith, wait) in
      let all : All (λ x. now < x.when) (e ∷ heap) = (first, after now e.when heap first s.0) in
      record {
        heap_left = e ∷ heap;
        live_left = live;
        fired = [];
        returns =
            loop_stop now e heap live out wait
            ∙ ap (λ x. (e ∷ heap, live, x)) (sym (append-nil out));
        sorted = s;
        past = λ n old. old;
        counts = λ token. sym (none_due now (e ∷ heap) live token all).0;
        left = λ token. sym (none_due now (e ∷ heap) live token all).1;
      }
]

-- On a valid queue `expired` adds each token whose deadline has come once, and no other token, behind
-- those there were; it takes their deadlines away, leaves the others, and the queue stays valid.
pub expired_lem :
    (now : ℕ) (q : TimerQueue) (out : List ℕ)
    → IsValid q
    → (q' : TimerQueue) × (fired : List ℕ) × (expired now q out ≡ (q', out ++ fired))
      × IsValid q'
      × ((token : ℕ)
          → (count token fired ≡ firings now (deadline q token))
            × (deadline q' token ≡ remaining now (deadline q token)))
unfolding expired deadline
expired_lem now q out v =
    let f = expired_loop_lem now q.heap q.live out v.sorted in
    (
      record q { heap = f.heap_left; live = f.live_left },
      f.fired,
      ap (λ x. (record q { heap = x.0; live = x.1 }, x.2)) f.returns,
      record { sorted = f.sorted; past = f.past q.next_seq v.past },
      λ token. (f.counts token, f.left token),
    )
