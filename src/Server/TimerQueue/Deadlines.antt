-- ===== src/Server/TimerQueue/Deadlines.antt =====
-- What server/timer_queue.h promises: one deadline for each token, whatever stale entries the heap
-- still holds.
use tetris_multiplayer_rl.Common.Assoc.{find}
use tetris_multiplayer_rl.Server.TimerQueue.{is_live, Entry, TimerQueue, no_timers}
use tetris_multiplayer_rl.Common.{
  ◌==◌, if◌then◌else◌, ==_iff, Bool-cases, if_true, if_false, All, ℕ, ◌≤◌, ◌≡◌, refl, sym, ap, ◌∙◌,
  inl, inr, true, false, Option, none, some, List, [], ◌∷◌,
}

-- The deadline of a token: the time of its entry of the live generation.
unfoldable pub deadline_in : List Entry → List (ℕ × ℕ) → ℕ → Option ℕ
deadline_in [] live token = none
deadline_in (e ∷ heap) live token =
    let rest = deadline_in heap live token in
    if e.token == token then (if is_live live e then some e.when else rest) else rest

unfoldable pub deadline : TimerQueue → ℕ → Option ℕ
unfolding deadline_in
deadline q token = deadline_in q.heap q.live token

abbrev pub IsSorted : List Entry → Type 0
IsSorted [] = Unit {0}
IsSorted (e ∷ heap) = All (λ x. e.when ≤ x.when) heap × IsSorted heap

-- The heap is in order, and no entry is of a generation to come.
pub record IsValid (q : TimerQueue) : Type 0 where
  pub sorted : IsSorted q.heap
  pub past : All (λ e. e.seq ≤ q.next_seq) q.heap

pub no_timers-IsValid : IsValid no_timers
no_timers-IsValid = record { sorted = tt; past = tt }

-- One entry of the heap: not of the token, stale, or of the live generation.
module _ (e : Entry) (heap : List Entry) (live : List (ℕ × ℕ)) (token : ℕ) where
  pub deadline_in-away :
      (e.token == token) ≡ false → deadline_in (e ∷ heap) live token ≡ deadline_in heap live token
  unfolding deadline_in
  deadline_in-away h = if_false _ _ h

  pub deadline_in-stale :
      is_live live e ≡ false → deadline_in (e ∷ heap) live token ≡ deadline_in heap live token
  unfolding deadline_in
  deadline_in-stale h = elim (Bool-cases (e.token == token)) [
    | inl here ↦ if_true _ _ here ∙ if_false _ _ h
    | inr away ↦ if_false _ _ away
  ]

  pub deadline_in-live :
      (e.token == token) ≡ true
      → is_live live e ≡ true
      → deadline_in (e ∷ heap) live token ≡ some e.when
  unfolding deadline_in
  deadline_in-live h l = if_true _ _ h ∙ if_true _ _ l

pub is_live_same :
    (live live' : List (ℕ × ℕ)) (e : Entry)
    → find e.token live ≡ find e.token live'
    → is_live live e ≡ is_live live' e
unfolding is_live
is_live_same live live' e h = ap (λ o. elim o [ none ↦ false | some seq ↦ seq == e.seq ]) h

pub is_live_gone :
    (live : List (ℕ × ℕ)) (e : Entry) → find e.token live ≡ none → is_live live e ≡ false
unfolding is_live
is_live_gone live e h = ap (λ o. elim o [ none ↦ false | some seq ↦ seq == e.seq ]) h

pub is_live_known :
    (live : List (ℕ × ℕ)) (e : Entry) (seq : ℕ)
    → find e.token live ≡ some seq
    → is_live live e ≡ (seq == e.seq)
unfolding is_live
is_live_known live e seq h = ap (λ o. elim o [ none ↦ false | some seq ↦ seq == e.seq ]) h

-- The deadline of a token depends on its own generation only.
pub deadline_in_same :
    (heap : List Entry) (live live' : List (ℕ × ℕ)) (token : ℕ)
    → find token live ≡ find token live'
    → deadline_in heap live token ≡ deadline_in heap live' token
unfolding deadline_in
deadline_in_same [] live live' token h = refl
deadline_in_same (e ∷ heap) live live' token h = elim (Bool-cases (e.token == token)) [
  | inl here ↦
      let t : e.token ≡ token = (==_iff _ _).0 here in
      let e1 =
        is_live_same live live' e (ap (λ k. find k live) t ∙ h ∙ ap (λ k. find k live') (sym t)) in
      rw (e1, deadline_in_same heap live live' token h) refl
  | inr away ↦
      deadline_in-away e heap live token away
      ∙ deadline_in_same heap live live' token h
      ∙ sym (deadline_in-away e heap live' token away)
]

pub deadline_in_gone :
    (heap : List Entry) (live : List (ℕ × ℕ)) (token : ℕ)
    → find token live ≡ none
    → deadline_in heap live token ≡ none
unfolding deadline_in
deadline_in_gone [] live token h = refl
deadline_in_gone (e ∷ heap) live token h = elim (Bool-cases (e.token == token)) [
  | inl here ↦
      let t : e.token ≡ token = (==_iff _ _).0 here in
      deadline_in-stale e heap live token (is_live_gone live e (ap (λ k. find k live) t ∙ h))
      ∙ deadline_in_gone heap live token h
  | inr away ↦ deadline_in-away e heap live token away ∙ deadline_in_gone heap live token h
]
