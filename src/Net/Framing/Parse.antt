-- ===== src/Net/Framing/Parse.antt =====
-- `parse_frames` of net/framing.cpp ends, reads inside the buffer, and gives what the stream means.
use mathlib.Core.Path.{subst}
use mathlib.Core.List.{append-nil}
use tetris_multiplayer_rl.Net.Framing.Stream.{body, value}
use tetris_multiplayer_rl.Common.Bits.{bit_or_field}
use tetris_multiplayer_rl.Net.Framing.{le_read_u32, le_read_u16, Frame, checksum, read_frame}
use tetris_multiplayer_rl.Common.{
  ◌==◌, if◌then◌else◌, length, get_elem?, take, drop, All, length-drop, All-drop, get_elem?-drop,
  drop-drop, u16, u32, IsByte, bit_or, ℕ, suc, ◌+◌, ◌-◌, ◌*◌, ◌^◌, ◌≤◌, ◌≡◌, refl, sym, ap, ◌∙◌,
  Bool, true, false, some, List, [], ◌∷◌, ◌++◌, arith,
}

-- The two fields of a little-endian number do not overlap.
two_bytes : (a b : ℕ) → IsByte a → IsByte b → u16 (bit_or a (b * 2 ^ 8)) ≡ a + b * 256
two_bytes a b h j = omega (arith, bit_or_field 8 a b h)

four_bytes :
    (a b c d : ℕ)
    → IsByte a
    → IsByte b
    → IsByte c
    → IsByte d
    → u32 (bit_or (bit_or (bit_or a (b * 2 ^ 8)) (c * 2 ^ 16)) (d * 2 ^ 24))
      ≡ a + b * 256 + c * 65536 + d * 16777216
four_bytes a b c d h j k l =
    let e1 = bit_or_field 8 a b h in
    let e2 =
      ap (λ (t : ℕ). bit_or t (c * 2 ^ 16)) e1 ∙ bit_or_field 16 (a + b * 2 ^ 8) c (omega arith) in
    let e3 =
      ap (λ (t : ℕ). bit_or t (d * 2 ^ 24)) e2
      ∙ bit_or_field 24 (a + b * 2 ^ 8 + c * 2 ^ 16) d (omega arith) in
    omega (arith, e3)

-- Reads at the front of what is left from `offset`.
module _ (buf : List ℕ) (offset : ℕ) where
  pub read_at :
      (i : ℕ) (s : List ℕ) → drop offset buf ≡ s → get_elem? buf (offset + i) ≡ get_elem? s i
  read_at i s e = get_elem?-drop offset i buf ∙ ap (λ t. get_elem? t i) e

  pub le_read_u16_lem :
      (lo hi : ℕ) (s : List ℕ)
      → drop offset buf ≡ lo ∷ hi ∷ s
      → IsByte lo
      → IsByte hi
      → le_read_u16 buf offset ≡ some (lo + hi * 256)
  unfolding le_read_u16
  le_read_u16_lem lo hi s e h j =
      let zero_more : offset + 0 ≡ offset = omega arith in
      let first = ap (get_elem? buf) (sym zero_more) ∙ read_at 0 (lo ∷ hi ∷ s) e in
      rw (first, read_at 1 (lo ∷ hi ∷ s) e) (ap some (two_bytes lo hi h j))

  le_read_u32_lem :
      (a b c d : ℕ) (s : List ℕ)
      → drop offset buf ≡ a ∷ b ∷ c ∷ d ∷ s
      → IsByte a
      → IsByte b
      → IsByte c
      → IsByte d
      → le_read_u32 buf offset ≡ some (value (a ∷ b ∷ c ∷ d ∷ []))
  unfolding le_read_u32 value
  le_read_u32_lem a b c d s e h j k l =
      let zero_more : offset + 0 ≡ offset = omega arith in
      let r = a ∷ b ∷ c ∷ d ∷ s in
      let first = ap (get_elem? buf) (sym zero_more) ∙ read_at 0 r e in
      let sum : u32 (bit_or (bit_or (bit_or a (b * 2 ^ 8)) (c * 2 ^ 16)) (d * 2 ^ 24))
          ≡ a + 256 * (b + 256 * (c + 256 * (d + 256 * 0))) =
        omega (arith, four_bytes a b c d h j k l) in
      rw (first, read_at 1 r e, read_at 2 r e, read_at 3 r e) (ap some sum)

four_view :
    (s : List ℕ)
    → 4 ≤ length s
    → (a : ℕ) × (b : ℕ) × (c : ℕ) × (d : ℕ) × (rest : List ℕ) × (s ≡ a ∷ b ∷ c ∷ d ∷ rest)
four_view [] h = absurd (omega arith)
four_view (a ∷ []) h = absurd (omega arith)
four_view (a ∷ b ∷ []) h = absurd (omega arith)
four_view (a ∷ b ∷ c ∷ []) h = absurd (omega arith)
four_view (a ∷ b ∷ c ∷ d ∷ rest) h = (a, b, c, d, rest, refl)

-- The checksum behind the payload.
pub read_value :
    (buf : List ℕ) (offset : ℕ) (s : List ℕ)
    → drop offset buf ≡ s
    → 4 ≤ length s
    → All IsByte s
    → le_read_u32 buf offset ≡ some (value (take 4 s))
read_value buf offset s e h bytes =
    let (a, b, c, d, rest, v) = four_view s h in
    let all : All IsByte (a ∷ b ∷ c ∷ d ∷ rest) = subst (All IsByte) v bytes in
    le_read_u32_lem buf offset a b c d rest (e ∙ v) all.0 all.1.0 all.1.1.0 all.1.1.1.0
    ∙ ap (λ t. some (value (take 4 t))) (sym v)

if_append {ℓ} :
    {A : Type ℓ} (b : Bool) (x : A) (xs : List A)
    → (if b then xs ++ x ∷ [] else xs) ≡ xs ++ (if b then x ∷ [] else [])
if_append true x xs = refl
if_append false x xs = sym (append-nil xs)

pub read_frame_lem :
    (buf : List ℕ) (offset n : ℕ) (out : List Frame) (lo hi t : ℕ) (s : List ℕ)
    → drop offset buf ≡ lo ∷ hi ∷ t ∷ s
    → n + 4 ≤ length s
    → All IsByte s
    → read_frame buf offset (suc n) out ≡ some (out ++ body (suc n) (t ∷ s))
unfolding read_frame body
read_frame_lem buf offset n out lo hi t s e h bytes =
    let payload_at : drop (offset + 2 + 1) buf ≡ s =
      ap (λ p. drop p buf) (omega arith) ∙ sym (drop-drop offset 3 buf) ∙ ap (drop 3) e in
    let back : drop (offset + 2 + suc n) buf ≡ drop n s =
      ap (λ p. drop p buf) (omega arith)
      ∙ sym (drop-drop offset (suc (suc (suc n))) buf)
      ∙ ap (drop (suc (suc (suc n)))) e in
    let chk =
      read_value buf (offset + 2 + suc n) (drop n s) back (omega (arith, length-drop n s))
        (All-drop IsByte n s bytes) in
    let minus : suc n - 1 ≡ n = omega arith in
    rw (read_at buf offset 2 (lo ∷ hi ∷ t ∷ s) e, chk, payload_at, minus)
      (ap some (
        if_append (value (take 4 (drop n s)) == checksum (take n s))
          (record { type = t; payload = take n s }) out))
