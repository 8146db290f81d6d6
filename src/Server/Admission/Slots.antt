-- ===== src/Server/Admission/Slots.antt =====
-- The counters of server/ip_admission.h against the slots that live.
use tetris_multiplayer_rl.Server.Admission.{
  handshake, session, limit_of, table_of, taken, release, acquire, Kind, Admission, Slot,
  with_table, k_max_sessions_per_ip, set_session_limit,
}
use tetris_multiplayer_rl.Common.{
  ◌==◌, if◌then◌else◌, ==_iff, Bool-cases, ◌>>=◌, if_true, if_false, and_false_left,
  and_false_right, both_true, ℕ, zero, suc, ◌+◌, ◌≤◌, ◌≡◌, refl, sym, ap, ◌∙◌, inl, inr, Bool, true,
  false, ◌&&◌, Option, none, some, List, [], ◌∷◌, arith,
}

-- The slots that live, and the counters.
pub record World : Type 0 where
  pub admission : Admission
  pub live : List Slot

-- A connection asks for a slot, or the one at a place in the list goes.
pub data Event : Type 0 where
  asks : ℕ → Kind → Event
  goes : ℕ → Event

unfoldable pub take_out : ℕ → List Slot → Option (Slot × List Slot)
take_out i [] = none
take_out zero (s ∷ live) = some (s, live)
take_out (suc i) (s ∷ live) = take_out i live >>= λ (t, rest). some (t, s ∷ rest)

module _ (unknown : ℕ) where
  unfoldable pub step : Event → World → World
  unfolding acquire release take_out
  step (asks key kind) w =
      let r = acquire unknown key kind w.admission in
      elim r.0 [ none ↦ w | some s ↦ record { admission = r.1; live = s ∷ w.live } ]
  step (goes i) w = elim (take_out i w.live) [
    | none ↦ w
    | some (s, rest) ↦ record { admission = release s w.admission; live = rest }
  ]

  unfoldable pub steps : List Event → World → World
  unfolding step
  steps [] w = w
  steps (e ∷ events) w = steps events (step e w)

-- No connection, and the limit of the command line.
unfoldable pub started : ℕ → World
unfolding set_session_limit
started n = record {
  admission =
      set_session_limit n
        (record { handshakes = []; sessions = []; session_limit = k_max_sessions_per_ip });
  live = [];
}

unfoldable pub same_kind : Kind → Kind → Bool
same_kind handshake handshake = true
same_kind handshake session = false
same_kind session handshake = false
same_kind session session = true

-- Whether the slot counts for this address and kind, and how many of a list do.
unfoldable pub counts : Kind → ℕ → Slot → ℕ
unfolding same_kind
counts kind key s = if (s.key == key) && same_kind s.kind kind then 1 else 0

unfoldable pub count : Kind → ℕ → List Slot → ℕ
unfolding counts
count kind key [] = 0
count kind key (s ∷ live) = counts kind key s + count kind key live

-- Each counter is the number of the slots that live, and no more than the limit.
pub record IsCounted (w : World) : Type 0 where
  pub right :
      (kind : Kind) (key : ℕ) → taken key (table_of kind w.admission) ≡ count kind key w.live
  pub within : (kind : Kind) (key : ℕ) → count kind key w.live ≤ limit_of kind w.admission

-- What a place gives: nothing, or a slot and the others.
unfoldable pub Taken : List Slot → Option (Slot × List Slot) → Type 0
Taken live none = Unit
Taken live (some (s, rest)) =
    (kind : Kind) (key : ℕ) → count kind key live ≡ counts kind key s + count kind key rest

pub take_out-Taken : (i : ℕ) (live : List Slot) → Taken live (take_out i live)
unfolding take_out Taken count
take_out-Taken i [] = tt
take_out-Taken zero (s ∷ live) = λ kind key. refl
take_out-Taken (suc i) (s ∷ live) = behind (take_out i live) (take_out-Taken i live)
  where
    behind :
        (o : Option (Slot × List Slot))
        → Taken live o
        → Taken (s ∷ live) (o >>= λ (t, rest). some (t, s ∷ rest))
    behind none h = tt
    behind (some (t, rest)) h = λ kind key. omega (arith, h kind key)

-- A counter changed by `f`, and no other.
pub same_kind-eq : (a b : Kind) → same_kind a b ≡ true → a ≡ b
unfolding same_kind
same_kind-eq handshake handshake h = refl
same_kind-eq handshake session h = absurd (ground (arith, h))
same_kind-eq session handshake h = absurd (ground (arith, h))
same_kind-eq session session h = refl

table_of-with_table :
    (kind : Kind) (t : List (ℕ × ℕ)) (a : Admission) → table_of kind (with_table kind t a) ≡ t
unfolding table_of with_table
table_of-with_table handshake t a = refl
table_of-with_table session t a = refl

table_of-other :
    (kind other : Kind) (t : List (ℕ × ℕ)) (a : Admission)
    → same_kind kind other ≡ false
    → table_of other (with_table kind t a) ≡ table_of other a
unfolding table_of with_table same_kind
table_of-other handshake handshake t a h = absurd (ground (arith, h))
table_of-other handshake session t a h = refl
table_of-other session handshake t a h = refl
table_of-other session session t a h = absurd (ground (arith, h))

pub limit_of-with_table :
    (kind other : Kind) (t : List (ℕ × ℕ)) (a : Admission)
    → limit_of other (with_table kind t a) ≡ limit_of other a
unfolding limit_of with_table
limit_of-with_table handshake handshake t a = refl
limit_of-with_table handshake session t a = refl
limit_of-with_table session handshake t a = refl
limit_of-with_table session session t a = refl

module _ (f : ℕ → ℕ) (s : Slot) (a : Admission) (t : List (ℕ × ℕ))
    (here : taken s.key t ≡ f (taken s.key (table_of s.kind a)))
    (away : (k : ℕ) → (s.key == k) ≡ false → taken k t ≡ taken k (table_of s.kind a)) where
  pub changed :
      (kind : Kind) (k : ℕ)
      → taken k (table_of kind (with_table s.kind t a)) ≡ (
          if (s.key == k) && same_kind s.kind kind
          then f (taken k (table_of kind a))
          else taken k (table_of kind a))
  changed kind k = elim (Bool-cases (same_kind s.kind kind)) [
    | inr other ↦
        ap (taken k) (table_of-other s.kind kind t a other)
        ∙ sym (if_false _ _ (and_false_right (s.key == k) other))
    | inl same ↦
        let e = same_kind-eq s.kind kind same in
        let t_is =
          ap (λ x. taken k (table_of x (with_table s.kind t a))) (sym e)
          ∙ ap (taken k) (table_of-with_table s.kind t a) in
        elim (Bool-cases (s.key == k)) [
          | inl key ↦
              let k_is = (==_iff s.key k).0 key in
              t_is
              ∙ ap (λ x. taken x t) (sym k_is)
              ∙ here
              ∙ ap f
                  (ap (λ x. taken x (table_of s.kind a)) k_is ∙ ap (λ x. taken k (table_of x a)) e)
              ∙ sym (if_true _ _ (both_true key same))
          | inr key ↦
              t_is
              ∙ away k key
              ∙ ap (λ x. taken k (table_of x a)) e
              ∙ sym (if_false _ _ (and_false_left (same_kind s.kind kind) key))
        ]
  ]
