-- ===== src/Sim/Game/Hashing.antt =====
-- `StateHash` and `StateHashBreakdown` of src/sim_game.cpp. An `int` is hashed by its four bytes.
use tetris_multiplayer_rl.Common.{if◌then◌else◌, length, ℕ, Bool, List, [], ◌∷◌}
use tetris_multiplayer_rl.Common.Int.{to_u32}
use tetris_multiplayer_rl.Sim.Hash.{base, fnv1a64_int, fnv1a64_u64}
use tetris_multiplayer_rl.Sim.Grid.{SimGrid}
use tetris_multiplayer_rl.Sim.Block.{SimBlock}
use tetris_multiplayer_rl.Sim.Game.State.{SimGame}

abbrev pub flag : Bool → ℕ
flag b = if b then 1 else 0

-- The array of the board is hashed as one run of memory, row after row.
unfoldable pub hash_row : List ℕ → ℕ → ℕ
hash_row [] h = h
hash_row (c ∷ cells) h = hash_row cells (fnv1a64_int c h)

unfoldable pub hash_grid : SimGrid → ℕ → ℕ
hash_grid [] h = h
hash_grid (row ∷ grid) h = hash_grid grid (hash_row row h)

unfoldable pub hash_block : SimBlock → ℕ → ℕ
hash_block b h0 =
    let h1 = fnv1a64_int b.id h0 in
    let h2 = fnv1a64_int b.rotation_state h1 in
    let h3 = fnv1a64_int (to_u32 b.row_offset) h2 in fnv1a64_int (to_u32 b.column_offset) h3

unfoldable pub hash_blocks : List SimBlock → ℕ → ℕ
hash_blocks [] h = h
hash_blocks (b ∷ blocks) h = hash_blocks blocks (hash_block b h)

unfoldable pub hash_queue : List SimBlock → ℕ → ℕ
hash_queue queue h = hash_blocks queue (fnv1a64_int (length queue) h)

unfoldable pub hash_score_flags : SimGame → ℕ → ℕ
hash_score_flags g h0 =
    let h1 = fnv1a64_int g.score h0 in
    let h2 = fnv1a64_int (flag g.game_over) h1 in
    let h3 = fnv1a64_int g.gravity_counter_ticks h2 in
    let h4 = fnv1a64_int g.drop_interval_ticks h3 in
    let h5 = fnv1a64_int g.soft_drop_counter_ticks h4 in
    let h6 = fnv1a64_int g.total_lines_cleared h5 in
    let h7 = fnv1a64_int g.level h6 in fnv1a64_int (flag g.last_move_was_rotate) h7

unfoldable pub hash_combat : SimGame → ℕ → ℕ
hash_combat g h0 =
    let h1 = fnv1a64_u64 g.garbage_rng h0 in
    let h2 = fnv1a64_int g.attack_lines_sent h1 in fnv1a64_int g.pending_garbage h2

unfoldable pub state_hash : SimGame → ℕ
state_hash g =
    let h1 = hash_grid g.sim_grid base in
    let h2 = hash_block g.current_block h1 in
    let h3 = hash_queue g.next_blocks h2 in
    let h4 = fnv1a64_u64 g.rng h3 in let h5 = hash_score_flags g h4 in hash_combat g h5

pub record HashBreakdown : Type 0 where
  pub grid : ℕ
  pub current_block : ℕ
  pub next_block : ℕ
  pub rng : ℕ
  pub score_flags : ℕ
  pub combat : ℕ

unfoldable pub state_hash_breakdown : SimGame → HashBreakdown
state_hash_breakdown g = record {
  grid = hash_grid g.sim_grid base;
  current_block = hash_block g.current_block base;
  next_block = hash_queue g.next_blocks base;
  rng = fnv1a64_u64 g.rng base;
  score_flags = hash_score_flags g base;
  combat = hash_combat g base;
}
