-- ===== src/Sim/Hash.antt =====
-- core/hash.h: FNV-1a over bytes, 64 bits wide, and of a value through its bytes.
use tetris_multiplayer_rl.Common.{u64, le_bytes, ℕ, ◌*◌, bit_xor, List, [], ◌∷◌}

abbrev pub base : ℕ
base = 14695981039346656037

-- One round of the loop.
unfoldable pub fnv1a64_step : ℕ → ℕ → ℕ
fnv1a64_step hash b = u64 (bit_xor hash b * 1099511628211)

unfoldable pub fnv1a64 : List ℕ → ℕ → ℕ
fnv1a64 [] seed = seed
fnv1a64 (b ∷ bytes) seed = fnv1a64 bytes (fnv1a64_step seed b)

-- `fnv1a64_value` of an `int` and of a `uint64_t`, on a little-endian machine.
unfoldable pub fnv1a64_int : ℕ → ℕ → ℕ
fnv1a64_int v seed = fnv1a64 (le_bytes 4 v) seed

unfoldable pub fnv1a64_u64 : ℕ → ℕ → ℕ
fnv1a64_u64 v seed = fnv1a64 (le_bytes 8 v) seed
