-- ===== src/Sim/Rng.antt =====
-- core/rng.h: the xorshift64* generator. A generator is its 64-bit state.
pub mod Nonzero
use tetris_multiplayer_rl.Common.{◌==◌, if◌then◌else◌, u32, u64, ℕ, ◌*◌, ◌/◌, ◌%◌, ◌^◌, bit_xor}

abbrev pub default_seed : ℕ
default_seed = 88172645463393265

-- The constructor: a zero seed is replaced.
unfoldable pub seeded : ℕ → ℕ
seeded seed = if seed == 0 then default_seed else seed

-- The three xorshift steps on the state.
unfoldable pub next_state : ℕ → ℕ
next_state x0 =
    let x1 = bit_xor x0 (x0 / 2 ^ 12) in
    let x2 = bit_xor x1 (u64 (x1 * 2 ^ 25)) in bit_xor x2 (x2 / 2 ^ 27)

-- `next()`: the number drawn, and the new state.
unfoldable pub next : ℕ → ℕ × ℕ
unfolding next_state
next state = let x = next_state state in (u64 (x * 2685821657736338717), x)

-- `nextUInt(max)`.
unfoldable pub next_u_int : ℕ → ℕ → ℕ × ℕ
unfolding next
next_u_int max state =
    let (drawn, state') = next state in (u32 (drawn % (if max == 0 then 1 else max)), state')
