-- ===== src/Sim/Game/Tests.antt =====
-- Runs of the board of src/sim_game.cpp, and its theorems at concrete states.
use tetris_multiplayer_rl.Sim.Game.Faults.{move_block_drop_fault}
use tetris_multiplayer_rl.Common.Int.{pos, negsuc, ◌+ℤ◌, ◌-ℤ◌}
use tetris_multiplayer_rl.Sim.Rng.{next, next_u_int, next_state}
use tetris_multiplayer_rl.Sim.Game.Locking.{lock_block_lem, IsReady, IsCleared}
use tetris_multiplayer_rl.Sim.Block.Laws.{tiles}
use tetris_multiplayer_rl.Sim.Game.Start.{sim_game-IsPlayable, fresh_game-IsReady}
use tetris_multiplayer_rl.Sim.Game.Steps.{tick-IsValid, submit_input-IsValid}
use tetris_multiplayer_rl.Sim.Grid.{
  clear_full_rows, initialize, is_row_full, empty_row, is_cell_outside, is_cell_empty, set_cell,
  clear_row, move_row_down, clear_step, clear_loop,
}
use tetris_multiplayer_rl.Sim.Game.State.{
  refill, any_outside, fresh_game, sim_game, SimGame, Queue, is_block_outside, all_empty,
  block_fits, can_stand, make_ghost_block, get_all_blocks, erase_at, get_random_block,
}
use tetris_multiplayer_rl.Sim.Game.Moves.{
  fall, input_rotate, input_left, input_drop, drop_to_floor, tick, submit_input, move_block_drop,
  has_input, shift_block, move_block_left, move_block_right, move_block_down, drop_expectation,
  rotate_block_impl, soft_drop_now, soft_drop,
}
use tetris_multiplayer_rl.Sim.Game.Lock.{
  lock_block, attack_lines_for, blocked, is_t_spin_lock, t_spin_points, line_points, interval_for,
  update_level, update_score, write_tiles, place_current, spawn_next, clear_lines, take_garbage,
  receive_garbage,
}
use tetris_multiplayer_rl.Sim.Game.Valid.{IsValid, get_all_blocks-IsInside}
use tetris_multiplayer_rl.Sim.Grid.Clear.{clear_full_rows_lem, keep_rows, full_rows}
use tetris_multiplayer_rl.Sim.Game.Safety.{Returns, IsPlayable, ghost-IsBlock}
use tetris_multiplayer_rl.Sim.Block.{
  move, sim_j_block, sim_o_block, rotate, sim_l_block, undo_rotation, SimBlock, get_cell_positions,
}
use tetris_multiplayer_rl.Sim.Game.Fall.{drop_to_floor_lem, Rests, stands, IsInside}
use tetris_multiplayer_rl.Common.{
  ◌>>=◌, replicate, ℕ, ◌<◌, ◌≡◌, refl, ◌↔◌, ◌⊎◌, Bool, true, false, Option, none, some, List, [],
  ◌∷◌, ◌++◌, arith,
}

-- A new game.
abbrev start : SimGame
start = (sim_game-IsPlayable 42).next

start-IsPlayable : IsPlayable start
start-IsPlayable = (sim_game-IsPlayable 42).holds

abbrev well_row : List ℕ
well_row = 1 ∷ 1 ∷ 0 ∷ 1 ∷ 1 ∷ 1 ∷ 1 ∷ 1 ∷ 1 ∷ 1 ∷ []

abbrev floor_row : List ℕ
floor_row = 1 ∷ 1 ∷ 1 ∷ 1 ∷ 1 ∷ 1 ∷ 1 ∷ 1 ∷ 1 ∷ 0 ∷ []

abbrev l_next : Queue
l_next = record {
  queue = sim_l_block ∷ sim_o_block ∷ sim_o_block ∷ [];
  bag = sim_o_block ∷ [];
  rng = 1;
}

-- A J block comes in over a well at column 2, with an L block next.
abbrev well : SimGame
well = record (fresh_game 1 sim_j_block l_next) {
  sim_grid = empty_row ∷ empty_row ∷ well_row ∷ replicate 17 floor_row;
}

abbrev Summary : Type 0
Summary = record { over : Bool; lines : ℕ; id : ℕ; fits : Bool }

abbrev summary : SimGame → Summary
summary g = record {
  over = g.game_over;
  lines = g.last_lines_cleared;
  id = g.current_block.id;
  fits = stands g.sim_grid g.current_block;
}

-- Ticks of input, one mask each; the line names all that they run.
run : List ℕ → SimGame → Option SimGame
unfolding submit_input fresh_game has_input move_block_left move_block_right move_block_down
    shift_block can_stand is_block_outside get_cell_positions move sim_j_block sim_l_block
    sim_o_block block_fits soft_drop soft_drop_now drop_expectation any_outside is_cell_outside ◌+ℤ◌
    ◌-ℤ◌ all_empty is_cell_empty drop_to_floor fall rotate undo_rotation attack_lines_for blocked
    clear_lines is_t_spin_lock line_points t_spin_points lock_block place_current receive_garbage
    spawn_next take_garbage update_level update_score interval_for write_tiles move_block_drop
    rotate_block_impl erase_at get_random_block make_ghost_block refill clear_full_rows clear_loop
    clear_row clear_step is_row_full move_row_down set_cell next next_state next_u_int
run [] g = some g
run (mask ∷ masks) g = submit_input mask g >>= run masks

-- Two steps left, a turn and a hard drop fill the well: a row goes, the overhang of the J block moves
-- down under the L block, and the game goes on.
abbrev overhang : List ℕ
overhang = input_left ∷ input_left ∷ input_rotate ∷ input_drop ∷ []

overhang_blocks :
    (run overhang well >>= λ g. some (summary g))
    ≡ some (record { over = false; lines = 1; id = 1; fits = false })
unfolding run stands tiles
overhang_blocks = refl

-- The next hard drop writes above the board.
overhang_faults : (run overhang well >>= run (input_drop ∷ [])) ≡ none
unfolding run
overhang_faults = refl

-- The state that the run reaches, in short: a filled cell under the L block.
abbrev jammed : SimGame
jammed = record well {
  sim_grid = empty_row ∷ (0 ∷ 0 ∷ 1 ∷ 1 ∷ 0 ∷ 0 ∷ 0 ∷ 0 ∷ 0 ∷ 0 ∷ []) ∷ replicate 18 floor_row;
  current_block = sim_l_block;
}

sim_l_block-IsInside : IsInside sim_l_block
sim_l_block-IsInside = unfold get_all_blocks in get_all_blocks-IsInside.1.1.0

jammed-IsValid : IsValid jammed
unfolding fresh_game
jammed-IsValid = record {
  grid = record { height = refl; widths = omega arith };
  current = sim_l_block-IsInside;
  ghost = ghost-IsBlock sim_j_block j.block;
  queued = refl;
  queue = (sim_l_block-IsInside, (o, (o, tt)));
  bag_size = omega arith;
  bag = (o, tt);
}
  where
    j : IsInside sim_j_block
    j = unfold get_all_blocks in get_all_blocks-IsInside.1.0

    o : IsInside sim_o_block
    o = unfold get_all_blocks in get_all_blocks-IsInside.1.1.1.0

clear_full_rows_lem_example :
    clear_full_rows
      (replicate 10 empty_row ++ replicate 4 (replicate 10 3) ++ replicate 6 floor_row)
    ≡ (replicate 14 empty_row ++ replicate 6 floor_row, 4)
unfolding full_rows keep_rows is_row_full
clear_full_rows_lem_example =
    clear_full_rows_lem
      (replicate 10 empty_row ++ replicate 4 (replicate 10 3) ++ replicate 6 floor_row) refl

sim_game-IsPlayable_example : Returns IsPlayable (sim_game 7)
sim_game-IsPlayable_example = sim_game-IsPlayable 7

submit_input-IsValid_example : Returns IsValid (submit_input 19 start)
unfolding has_input
submit_input-IsValid_example =
    submit_input-IsValid 19 start start-IsPlayable.valid (λ _. (start-IsPlayable.ready, refl))

tick-IsValid_example : Returns IsValid (tick jammed)
tick-IsValid_example = tick-IsValid jammed jammed-IsValid

lock_block_lem_example :
    (h : SimGame) × (lock_block start ≡ some h)
    × IsValid h
    × ((h.last_lines_cleared ≡ 0) ⊎ (0 < h.last_garbage_received) → IsReady h)
    × IsCleared start h
lock_block_lem_example = lock_block_lem start start-IsPlayable.valid

drop_to_floor_lem_example :
    (landed : SimBlock) × (drop_to_floor initialize sim_l_block ≡ some landed)
    × Rests initialize sim_l_block landed
unfolding fresh_game
drop_to_floor_lem_example =
    drop_to_floor_lem initialize sim_l_block sim_l_block-IsInside.block
      (fresh_game-IsReady 1 sim_l_block l_next sim_l_block-IsInside refl)

move_block_drop_fault_example : (move_block_drop jammed ≡ none) ↔ (
    (stands jammed.sim_grid jammed.current_block ≡ false)
    × (any_outside (tiles (move (negsuc 0) (pos 0) jammed.current_block)) ≡ true))
unfolding fresh_game
move_block_drop_fault_example = move_block_drop_fault jammed jammed-IsValid refl
