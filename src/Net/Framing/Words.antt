-- ===== src/Net/Framing/Words.antt =====
-- `le_read_u64` of net/framing.cpp reads back what `le_write_u64` wrote, wherever it stands.
use tetris_multiplayer_rl.Common.Bits.{bit_or_byte}
use tetris_multiplayer_rl.Net.Framing.RoundTrip.{length-le_bytes, le_bytes-IsByte, value-le_bytes}
use tetris_multiplayer_rl.Net.Framing.Stream.{value}
use tetris_multiplayer_rl.Net.Framing.{le_read_loop, le_read_u64}
use tetris_multiplayer_rl.Common.{
  length, get_elem?, get_or, drop, All, drop-append_length, All-get_or, drop_step, get_elem?-drop,
  get_elem?-append, u64, IsByte, le_bytes, bit_or, ℕ, zero, suc, ◌*◌, ◌^◌, ◌≤◌, ◌<◌, ◌≡◌, refl, ap,
  ◌∙◌, some, List, [], ◌∷◌, ◌++◌, arith,
}

value-drop : (i : ℕ) (s : List ℕ) → value (drop i s) ≤ value s
unfolding value
value-drop zero s = omega arith
value-drop (suc i) [] = omega arith
value-drop (suc i) (b ∷ s) = omega (arith, value-drop i s)

value-drop_byte : (i : ℕ) (s : List ℕ) → value (drop (suc i) s) * 256 ≤ value s
unfolding value
value-drop_byte i [] = omega arith
value-drop_byte i (b ∷ s) = omega (arith, value-drop i s)

-- From the `i` lowest bytes on, with the value of the others read.
module _ (v rest : List ℕ) (s : List ℕ) (h : value s < 2 ^ 64) (bytes : All IsByte s) where
  le_read_loop-written :
      (i : ℕ)
      → i ≤ length s
      → le_read_loop i (v ++ (s ++ rest)) (length v) (value (drop i s)) ≡ some (value s)
  unfolding le_read_loop value
  le_read_loop-written zero k = refl
  le_read_loop-written (suc i) k =
      let b = get_or s i 0 in
      let x = value (drop (suc i) s) in
      let at = get_elem?-drop (length v) i (v ++ (s ++ rest)) in
      let there = ap (λ t. get_elem? t i) (drop-append_length v (s ++ rest)) in
      let read = at ∙ there ∙ get_elem?-append s rest i 0 (omega arith) in
      let low : b < 2 ^ 8 = All-get_or IsByte s i 0 (omega arith) bytes in
      let fits : u64 (x * 2 ^ 8) ≡ x * 2 ^ 8 = omega (arith, value-drop_byte i s) in
      let next = ap value (drop_step s i 0 (omega arith)) in
      let sum : bit_or (u64 (x * 2 ^ 8)) b ≡ value (drop i s) =
        ap (λ (t : ℕ). bit_or t b) fits ∙ omega (arith, bit_or_byte x b low, next) in
      rw (read, sum) (le_read_loop-written i (omega arith))

pub le_read_u64-written :
    (v rest : List ℕ) (x : ℕ)
    → x < 2 ^ 64
    → le_read_u64 (v ++ (le_bytes 8 x ++ rest)) (length v) ≡ some x
unfolding le_read_u64 value
le_read_u64-written v rest x h =
    let s = le_bytes 8 x in
    let all = value-le_bytes 8 x h in
    le_read_loop-written v rest s (omega (arith, all)) (le_bytes-IsByte 8 x) 8
      (omega (arith, length-le_bytes 8 x))
    ∙ ap some all
