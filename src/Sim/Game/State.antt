-- ===== src/Sim/Game/State.antt =====
-- src/sim_game.h and src/sim_game.cpp: the state of a board, the constructor, and the queries and
-- draws that the operations share. `none` is undefined behaviour or an exception of the source: a
-- read or write outside an array, `at` on a missing key, `front` of an empty queue.
use tetris_multiplayer_rl.Common.{
  ◌==◌, if◌then◌else◌, ◌>>=◌, length, get_elem?, u32, ℕ, zero, suc, ◌/◌, bit_xor, Bool, true, false,
  not, ◌&&◌, Option, some, List, [], ◌∷◌, ◌++◌,
}
use tetris_multiplayer_rl.Common.Int.{ℤ, negsuc}
use tetris_multiplayer_rl.Sim.Rng.{seeded, next_u_int}
use tetris_multiplayer_rl.Sim.Grid.{SimGrid, is_cell_outside, is_cell_empty, initialize}
use tetris_multiplayer_rl.Sim.Block.{
  SimBlock, Position, get_cell_positions, sim_i_block, sim_j_block, sim_l_block, sim_o_block,
  sim_s_block, sim_t_block, sim_z_block,
}

pub record SimGame : Type 0 where
  pub game_over : Bool
  pub score : ℕ
  pub rotate_sound_event : Bool
  pub clear_sound_event : Bool
  pub drop_sound_event : Bool
  pub garbage_sound_event : Bool
  pub hard_drop_event : Bool
  pub last_lines_cleared : ℕ
  pub last_t_spin_lines : ℤ
  pub last_garbage_received : ℕ
  pub game_over_event : Bool
  pub total_lines_cleared : ℕ
  pub level : ℕ
  pub sim_grid : SimGrid
  pub blocks : List SimBlock
  pub rng : ℕ
  pub garbage_rng : ℕ
  pub current_block : SimBlock
  pub ghost_block : SimBlock
  pub next_blocks : List SimBlock
  pub gravity_counter_ticks : ℕ
  pub drop_interval_ticks : ℕ
  pub soft_drop_counter_ticks : ℕ
  pub last_move_was_rotate : Bool
  pub attack_lines_sent : ℕ
  pub pending_garbage : ℕ

abbrev pub k_next_preview_count : ℕ
k_next_preview_count = 3

abbrev pub ticks_per_second : ℕ
ticks_per_second = 60

-- `IsBlockOutside`: the loop over the tiles stops at the first one outside.
unfoldable pub any_outside : List Position → Bool
any_outside [] = false
any_outside (item ∷ tiles) =
    if is_cell_outside item.row item.column then true else any_outside tiles

unfoldable pub is_block_outside : SimBlock → Option Bool
is_block_outside b = do tiles ← get_cell_positions b; some (any_outside tiles)

-- `BlockFits`: the loop stops at the first tile on a cell that is not empty.
unfoldable pub all_empty : SimGrid → List Position → Bool
all_empty grid [] = true
all_empty grid (item ∷ tiles) =
    if is_cell_empty grid item.row item.column then all_empty grid tiles else false

unfoldable pub block_fits : SimGrid → SimBlock → Option Bool
block_fits grid b = do tiles ← get_cell_positions b; some (all_empty grid tiles)

-- The test that the moves and loops share: not outside, and fits.
unfoldable pub can_stand : SimGrid → SimBlock → Option Bool
can_stand grid b = do
  outside ← is_block_outside b
  fits ← block_fits grid b
  some (not outside && fits)

unfoldable pub make_ghost_block : SimBlock → SimBlock
make_ghost_block b = record b { id = 8 }

unfoldable pub get_all_blocks : List SimBlock
get_all_blocks =
    sim_i_block ∷ sim_j_block ∷ sim_l_block ∷ sim_o_block ∷ sim_s_block ∷ sim_t_block ∷ sim_z_block
    ∷ []

-- `v.erase(v.begin() + i)`.
unfoldable pub erase_at {ℓ} : {A : Type ℓ} → ℕ → List A → List A
erase_at i [] = []
erase_at zero (x ∷ xs) = xs
erase_at (suc i) (x ∷ xs) = x ∷ erase_at i xs

-- The draw of `GetRandomBlock`, on the bag and the generator.
unfoldable pub refill : List SimBlock → List SimBlock
unfolding get_all_blocks
refill [] = get_all_blocks
refill (b ∷ bag) = b ∷ bag

abbrev pub Draw : Type 0
Draw = record { block : SimBlock; bag : List SimBlock; rng : ℕ }

unfoldable pub get_random_block : List SimBlock → ℕ → Option Draw
get_random_block blocks rng = do
  let bag = refill blocks
  let drawn = next_u_int (u32 (length bag)) rng
  block ← get_elem? bag drawn.0
  some (record { block = block; bag = erase_at drawn.0 bag; rng = drawn.1 })

abbrev pub Queue : Type 0
Queue = record { queue : List SimBlock; bag : List SimBlock; rng : ℕ }

-- The rounds that fill the preview queue.
unfoldable pub fill_queue : ℕ → List SimBlock → List SimBlock → ℕ → Option Queue
fill_queue zero queue bag rng = some (record { queue = queue; bag = bag; rng = rng })
fill_queue (suc n) queue bag rng = do
  d ← get_random_block bag rng
  fill_queue n (queue ++ d.block ∷ []) d.bag d.rng

-- The fields that the constructor sets, from the seed that it uses and its draws.
unfoldable pub fresh_game : ℕ → SimBlock → Queue → SimGame
fresh_game s block q = record {
  game_over = false;
  score = 0;
  rotate_sound_event = false;
  clear_sound_event = false;
  drop_sound_event = false;
  garbage_sound_event = false;
  hard_drop_event = false;
  last_lines_cleared = 0;
  last_t_spin_lines = negsuc 0;
  last_garbage_received = 0;
  game_over_event = false;
  total_lines_cleared = 0;
  level = 1;
  sim_grid = initialize;
  blocks = q.bag;
  rng = q.rng;
  garbage_rng = seeded (bit_xor s 0x9E3779B97F4A7C15);
  current_block = block;
  ghost_block = make_ghost_block block;
  next_blocks = q.queue;
  gravity_counter_ticks = 0;
  drop_interval_ticks = ticks_per_second / 2;
  soft_drop_counter_ticks = 0;
  last_move_was_rotate = false;
  attack_lines_sent = 0;
  pending_garbage = 0;
}

abbrev pub seed_or_default : ℕ → ℕ
seed_or_default seed = if seed == 0 then 0xC0FFEE123456789 else seed

-- The constructor.
unfoldable pub sim_game : ℕ → Option SimGame
unfolding fresh_game
sim_game seed = do
  d ← get_random_block get_all_blocks (seeded (seed_or_default seed))
  q ← fill_queue k_next_preview_count [] d.bag d.rng
  some (fresh_game (seed_or_default seed) d.block q)
