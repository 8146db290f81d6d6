-- ===== src/Net/Framing/Reads.antt =====
-- The little-endian reads of net/framing.cpp: inside a buffer they give a number, and where one was
-- written, that number.
use tetris_multiplayer_rl.Net.Framing.Parse.{read_value, le_read_u16_lem}
use tetris_multiplayer_rl.Net.Framing.RoundTrip.{value-le_bytes, le_bytes-IsByte, length-le_bytes}
use tetris_multiplayer_rl.Net.Framing.{le_read_loop, le_read_u64, le_read_u32, le_read_u16}
use tetris_multiplayer_rl.Common.{
  length, get_elem?, All, length-append, drop-append_length, get_elem?-some, All-append, u8, u16,
  u32, u64, IsByte, le_bytes, bit_or, ℕ, zero, suc, ◌+◌, ◌*◌, ◌/◌, ◌^◌, ◌≤◌, ◌<◌, ◌≡◌, refl, ap,
  ◌∙◌, Option, some, List, ◌++◌, arith,
}

abbrev pub Read : Option ℕ → Type 0
Read o = (x : ℕ) × (o ≡ some x)

module _ (v : List ℕ) where
  pub get_elem?-Read : (p : ℕ) → p < length v → Read (get_elem? v p)
  get_elem?-Read p h = get_elem?-some v p h

  pub le_read_u16-Read : (p : ℕ) → p + 2 ≤ length v → Read (le_read_u16 v p)
  unfolding le_read_u16
  le_read_u16-Read p h =
      let a = get_elem?-Read p (omega arith) in
      let b = get_elem?-Read (p + 1) (omega arith) in
      (u16 (bit_or a.0 (b.0 * 2 ^ 8)), rw (a.1, b.1) refl)

  pub le_read_u32-Read : (p : ℕ) → p + 4 ≤ length v → Read (le_read_u32 v p)
  unfolding le_read_u32
  le_read_u32-Read p h =
      let a = get_elem?-Read p (omega arith) in
      let b = get_elem?-Read (p + 1) (omega arith) in
      let c = get_elem?-Read (p + 2) (omega arith) in
      let d = get_elem?-Read (p + 3) (omega arith) in
      (
        u32 (bit_or (bit_or (bit_or a.0 (b.0 * 2 ^ 8)) (c.0 * 2 ^ 16)) (d.0 * 2 ^ 24)),
        rw (a.1, b.1, c.1, d.1) refl,
      )

  le_read_loop-Read : (i p x : ℕ) → p + i ≤ length v → Read (le_read_loop i v p x)
  unfolding le_read_loop
  le_read_loop-Read zero p x h = (x, refl)
  le_read_loop-Read (suc i) p x h =
      let b = get_elem?-Read (p + i) (omega arith) in
      let rest = le_read_loop-Read i p (bit_or (u64 (x * 2 ^ 8)) b.0) (omega arith) in
      (rest.0, rw b.1 rest.1)

  pub le_read_u64-Read : (p : ℕ) → p + 8 ≤ length v → Read (le_read_u64 v p)
  unfolding le_read_u64
  le_read_u64-Read p h = le_read_loop-Read 8 p 0 h

-- A number that was written behind `v`.
module _ (v rest : List ℕ) where
  pub le_read_u32-written :
      (x : ℕ)
      → x < 2 ^ 32
      → All IsByte rest
      → le_read_u32 (v ++ (le_bytes 4 x ++ rest)) (length v) ≡ some x
  le_read_u32-written x h bytes =
      let s = le_bytes 4 x ++ rest in
      let size : 4 ≤ length s =
        omega (arith, length-append (le_bytes 4 x) rest, length-le_bytes 4 x) in
      let all = All-append IsByte (le_bytes 4 x) rest (le_bytes-IsByte 4 x) bytes in
      read_value (v ++ s) (length v) s (drop-append_length v s) size all
      ∙ ap some (value-le_bytes 4 x h)

  pub le_read_u16-written :
      (x : ℕ) → x < 2 ^ 16 → le_read_u16 (v ++ (le_bytes 2 x ++ rest)) (length v) ≡ some x
  le_read_u16-written x h =
      let s = le_bytes 2 x ++ rest in
      le_read_u16_lem (v ++ s) (length v) (u8 x) (u8 (x / 256)) rest (drop-append_length v s)
        (omega arith) (omega arith)
      ∙ ap some (omega (arith, h))
