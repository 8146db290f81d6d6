-- ===== src/Common/Assoc.antt =====
-- A map from numbers to values as a list of its pairs, for the unordered maps of the source.
use tetris_multiplayer_rl.Common.{
  ◌==◌, if◌then◌else◌, Bool-cases, if_true, if_false, ℕ, ◌≡◌, refl, ◌∙◌, inl, inr, true, false,
  Option, none, some, List, [], ◌∷◌, arith,
}

pub ==_refl : (k : ℕ) → (k == k) ≡ true
==_refl k = ground arith

module _ {ℓ} {A : Type ℓ} where
  abbrev pub find : ℕ → List (ℕ × A) → Option A
  find k [] = none
  find k ((j, v) ∷ m) = if j == k then some v else find k m

  abbrev pub erase : ℕ → List (ℕ × A) → List (ℕ × A)
  erase k [] = []
  erase k ((j, v) ∷ m) = let rest = erase k m in if j == k then rest else (j, v) ∷ rest

  abbrev pub insert : ℕ → A → List (ℕ × A) → List (ℕ × A)
  insert k v m = (k, v) ∷ erase k m

module _ {ℓ} {A : Type ℓ} where
  pub find-erase : (k : ℕ) (m : List (ℕ × A)) → find k (erase k m) ≡ none
  find-erase k [] = refl
  find-erase k ((j, v) ∷ m) = elim (Bool-cases (j == k)) [
    | inl same ↦ rw same (find-erase k m)
    | inr other ↦ rw (other, other) (find-erase k m)
  ]

  pub find-erase_other :
      (k i : ℕ) (m : List (ℕ × A)) → (k == i) ≡ false → find i (erase k m) ≡ find i m
  find-erase_other k i [] h = refl
  find-erase_other k i ((j, v) ∷ m) h = elim (Bool-cases (j == k)) [
    | inl same ↦
        let away : (j == i) ≡ false = ground (arith, h, same) in
        rw (same, away) (find-erase_other k i m h)
    | inr other ↦ elim (Bool-cases (j == i)) [
      | inl here ↦ rw (other, here) refl
      | inr away ↦ rw (other, away) (find-erase_other k i m h)
    ]
  ]

  pub find-insert : (k : ℕ) (v : A) (m : List (ℕ × A)) → find k (insert k v m) ≡ some v
  find-insert k v m = if_true _ _ (==_refl k)

  pub find-insert_other :
      (k i : ℕ) (v : A) (m : List (ℕ × A)) → (k == i) ≡ false → find i (insert k v m) ≡ find i m
  find-insert_other k i v m h = if_false _ _ h ∙ find-erase_other k i m h
