-- ===== src/Common/Literals.antt =====
-- That the numbers of a literal list are bytes, by a test that computes.
use tetris_multiplayer_rl.Common.{
  ltb, if◌then◌else◌, ltb→lt, Bool-cases, if_true, if_false, All, IsByte, ℕ, ◌≡◌, sym, ◌∙◌, inl,
  inr, Bool, true, false, List, [], ◌∷◌, arith,
}

abbrev pub all_bytes : List ℕ → Bool
all_bytes [] = true
all_bytes (b ∷ bytes) = if ltb b 256 then all_bytes bytes else false

pub all_bytes_lem : (bytes : List ℕ) → all_bytes bytes ≡ true → All IsByte bytes
all_bytes_lem [] h = tt
all_bytes_lem (b ∷ bytes) h = elim (Bool-cases (ltb b 256)) [
  | inl small ↦ (ltb→lt b 256 small, all_bytes_lem bytes (sym (if_true _ _ small) ∙ h))
  | inr big ↦ absurd (ground (arith, sym (if_false (all_bytes bytes) false big) ∙ h))
]
