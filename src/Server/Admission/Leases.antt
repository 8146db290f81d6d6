-- ===== src/Server/Admission/Leases.antt =====
-- The leases of server/player_session.h: a player that is ranked has one at most.
use tetris_multiplayer_rl.Common.Returns.{if_both}
use tetris_multiplayer_rl.Common.Int.{ℤ, pos, negsuc}
use tetris_multiplayer_rl.Server.Admission.{release_lease, is_active, acquire_lease}
use tetris_multiplayer_rl.Common.{
  ◌==◌, if◌then◌else◌, ==_iff, Bool-cases, if_true, if_false, or_false, or_right, ℕ, ◌+◌, ◌≤◌, ◌≡◌,
  refl, sym, ap, ◌∙◌, inl, inr, Bool, true, false, ◌||◌, Option, none, some, List, [], ◌∷◌, arith,
}

-- The players marked active, and the leases that live.
pub record Leased : Type 0 where
  pub active : List ℕ
  pub live : List ℕ

-- A player asks for a lease, or the last copy of the newest lease of one goes.
pub data Turn : Type 0 where
  asks : ℤ → Turn
  ends : ℕ → Turn

unfoldable pub without : ℕ → List ℕ → List ℕ
without id [] = []
without id (j ∷ live) = let rest = without id live in if j == id then live else j ∷ rest

-- A lease that is not there does not end.
unfoldable pub turn : Turn → Leased → Leased
unfolding acquire_lease release_lease is_active without
turn (asks id) w =
    let r = acquire_lease id w.active in
    elim r.0 [ none ↦ w | some got ↦ record { active = r.1; live = got ∷ w.live } ]
turn (ends id) w =
    if is_active id w.live
    then record { active = release_lease id w.active; live = without id w.live }
    else w

unfoldable pub turns : List Turn → Leased → Leased
unfolding turn
turns [] w = w
turns (t ∷ more) w = turns more (turn t w)

unfoldable pub leases_of : ℕ → List ℕ → ℕ
leases_of id [] = 0
leases_of id (j ∷ live) = (if j == id then 1 else 0) + leases_of id live

-- The leases of each player are one where it is active, and none where it is not.
pub record IsLeased (w : Leased) : Type 0 where
  pub single : (id : ℕ) → leases_of id w.live ≡ (if is_active id w.active then 1 else 0)

is_active-release_lease :
    (id : ℕ) (active : List ℕ) → is_active id (release_lease id active) ≡ false
unfolding is_active release_lease
is_active-release_lease id [] = refl
is_active-release_lease id (j ∷ active) = elim (Bool-cases (j == id)) [
  | inl same ↦ rw same (is_active-release_lease id active)
  | inr other ↦ rw (other, other) (is_active-release_lease id active)
]

is_active-release_other :
    (id k : ℕ) (active : List ℕ)
    → (id == k) ≡ false
    → is_active k (release_lease id active) ≡ is_active k active
unfolding is_active release_lease
is_active-release_other id k [] h = refl
is_active-release_other id k (j ∷ active) h = elim (Bool-cases (j == id)) [
  | inl same ↦
      let away : (j == k) ≡ false = ground (arith, h, same) in
      rw (same, away) (is_active-release_other id k active h)
  | inr other ↦ rw other (ap (λ b. (j == k) || b) (is_active-release_other id k active h))
]

leases_of-without :
    (id k : ℕ) (live : List ℕ)
    → is_active id live ≡ true
    → leases_of k live ≡ (if id == k then 1 else 0) + leases_of k (without id live)
unfolding is_active leases_of without
leases_of-without id k [] h = absurd (ground (arith, h))
leases_of-without id k (j ∷ live) h = elim (Bool-cases (j == id)) [
  | inl same ↦
      let e = (==_iff j id).0 same in
      rw same (ap (λ x. (if x == k then 1 else 0) + leases_of k live) e)
  | inr other ↦
      let later : is_active id live ≡ true = or_right other h in
      let rest = leases_of-without id k live later in
      let sum : (if j == k then 1 else 0) + leases_of k live
          ≡ (if id == k then 1 else 0)
            + ((if j == k then 1 else 0) + leases_of k (without id live)) =
        omega (arith, rest) in
      rw other sum
]

at_most_one : (b : Bool) (n : ℕ) → n ≡ (if b then 1 else 0) → n ≤ 1
at_most_one true n h = omega (arith, h)
at_most_one false n h = omega (arith, h)

module _ (w : Leased) (v : IsLeased w) where
  IsLeased-new :
      (n : ℕ)
      → is_active n w.active ≡ false
      → IsLeased (record { active = n ∷ w.active; live = n ∷ w.live })
  unfolding leases_of is_active
  IsLeased-new n fresh = record {
    single = λ id. elim (Bool-cases (n == id)) [
      | inl same ↦
          let idle : is_active id w.active ≡ false =
            ap (λ x. is_active x w.active) (sym ((==_iff n id).0 same)) ∙ fresh in
          let zero_live = v.single id ∙ if_false 1 0 idle in rw same (omega (arith, zero_live))
      | inr other ↦ rw other (omega (arith, v.single id))
    ];
  }

  IsLeased-gone :
      (n : ℕ)
      → is_active n w.live ≡ true
      → IsLeased (record { active = release_lease n w.active; live = without n w.live })
  IsLeased-gone n there = record {
    single = λ id.
        let parts = leases_of-without n id w.live there in
        elim (Bool-cases (n == id)) [
          | inl same ↦
              let e = (==_iff n id).0 same in
              let off : is_active id (release_lease n w.active) ≡ false =
                ap (λ x. is_active id (release_lease x w.active)) e
                ∙ is_active-release_lease id w.active in
              let one = if_true {A = ℕ} 1 0 same in
              let most = at_most_one (is_active id w.active) (leases_of id w.live) (v.single id) in
              let none_left : leases_of id (without n w.live) ≡ 0 =
                omega (arith, parts, one, most) in
              none_left ∙ sym (if_false 1 0 off)
          | inr other ↦
              let keeps = is_active-release_other n id w.active other in
              let no_change = if_false {A = ℕ} 1 0 other in
              let count : leases_of id (without n w.live) ≡ leases_of id w.live =
                omega (arith, parts, no_change) in
              count ∙ v.single id ∙ ap (λ b. if b then 1 else 0) (sym keeps)
        ];
  }

turn-IsLeased : (t : Turn) (w : Leased) → IsLeased w → IsLeased (turn t w)
unfolding turn acquire_lease
turn-IsLeased (asks (negsuc n)) w v = v
turn-IsLeased (asks (pos n)) w v =
    let P = λ (r : Option ℕ × List ℕ).
      IsLeased (elim r.0 [ none ↦ w | some got ↦ record { active = r.1; live = got ∷ w.live } ]) in
    if_both P ((n == 0) || is_active n w.active) _ _ (λ _. v)
      (λ free. IsLeased-new w v n (or_false {x = n == 0} free).1)
turn-IsLeased (ends id) w v =
    if_both IsLeased (is_active id w.live) _ _ (λ there. IsLeased-gone w v id there) (λ _. v)

-- From the start, whatever players ask for leases and let them go, a player has one lease exactly
-- where it is marked active, and none else.
pub turns-IsLeased : (more : List Turn) (w : Leased) → IsLeased w → IsLeased (turns more w)
unfolding turns
turns-IsLeased [] w v = v
turns-IsLeased (t ∷ more) w v = turns-IsLeased more (turn t w) (turn-IsLeased t w v)
