-- ===== src/Sim/Game/Moves.antt =====
-- The frame-level actions of src/sim_game.cpp: the moves, `SubmitInput`, `Tick` and the hard drop.
use tetris_multiplayer_rl.Common.{
  leb, ◌==◌, if◌then◌else◌, ◌>>=◌, ℕ, zero, suc, ◌+◌, ◌-◌, bit_and, Bool, true, false, not, Option,
  none, some,
}
use tetris_multiplayer_rl.Common.Int.{ℤ, pos, negsuc}
use tetris_multiplayer_rl.Sim.Grid.{SimGrid, k_rows}
use tetris_multiplayer_rl.Sim.Block.{SimBlock, move, rotate, undo_rotation}
use tetris_multiplayer_rl.Sim.Game.State.{SimGame, can_stand, make_ghost_block}
use tetris_multiplayer_rl.Sim.Game.Lock.{lock_block}

-- core/input.h.
abbrev pub input_left : ℕ
input_left = 1

abbrev pub input_right : ℕ
input_right = 2

abbrev pub input_down : ℕ
input_down = 4

abbrev pub input_rotate : ℕ
input_rotate = 8

abbrev pub input_drop : ℕ
input_drop = 16

unfoldable pub has_input : ℕ → ℕ → Bool
has_input mask bit = not (bit_and mask bit == 0)

-- A sideways move: the block moves by `step`, and back by `undo` if it cannot stand there.
unfoldable pub shift_block : ℤ → ℤ → SimGame → Option SimGame
shift_block step undo g = do
  let moved = move (pos 0) step g.current_block
  stands ← can_stand g.sim_grid moved
  some (
      if stands
      then record g {
        current_block = moved;
        ghost_block = make_ghost_block moved;
        last_move_was_rotate = false;
      }
      else record g { current_block = move (pos 0) undo moved })

unfoldable pub move_block_left : SimGame → Option SimGame
unfolding shift_block
move_block_left g = if g.game_over then some g else shift_block (negsuc 0) (pos 1) g

unfoldable pub move_block_right : SimGame → Option SimGame
unfolding shift_block
move_block_right g = if g.game_over then some g else shift_block (pos 1) (negsuc 0) g

unfoldable pub move_block_down : SimGame → Option SimGame
move_block_down g = if g.game_over then some g else (do
  let moved = move (pos 1) (pos 0) g.current_block
  stands ← can_stand g.sim_grid moved
  if stands
      then some (record g { current_block = moved; last_move_was_rotate = false })
      else lock_block (record g { current_block = move (negsuc 0) (pos 0) moved }))

-- `while` the block stands, it moves a row down. Each round stands in a further row, so one round
-- more than there are rows is enough.
unfoldable pub fall : ℕ → SimGrid → SimBlock → Option SimBlock
fall zero grid b = none
fall (suc fuel) grid b =
    let rest = fall fuel grid (move (pos 1) (pos 0) b) in
    can_stand grid b >>= λ stands. if stands then rest else some b

abbrev pub fall_fuel : ℕ
fall_fuel = k_rows + 1

-- The loop, and the step back up after it.
unfoldable pub drop_to_floor : SimGrid → SimBlock → Option SimBlock
drop_to_floor grid b = do fallen ← fall fall_fuel grid b; some (move (negsuc 0) (pos 0) fallen)

unfoldable pub move_block_drop : SimGame → Option SimGame
move_block_drop g = if g.game_over then some g else (do
  landed ← drop_to_floor g.sim_grid g.current_block
  lock_block (record g { current_block = landed; drop_sound_event = true; hard_drop_event = true }))

unfoldable pub drop_expectation : SimGame → Option SimGame
drop_expectation g = if g.game_over then some g else (do
  landed ← drop_to_floor g.sim_grid g.ghost_block
  some (record g { ghost_block = landed }))

unfoldable pub rotate_block_impl : SimGame → Option SimGame
rotate_block_impl g = if g.game_over then some g else (do
  let turned = rotate g.current_block
  stands ← can_stand g.sim_grid turned
  some (
      if stands
      then record g {
        current_block = turned;
        ghost_block = make_ghost_block turned;
        last_move_was_rotate = true;
        rotate_sound_event = true;
      }
      else record g { current_block = undo_rotation turned }))

abbrev pub k_soft_drop_interval_ticks : ℕ
k_soft_drop_interval_ticks = 3

unfoldable pub soft_drop_now : SimGame → Option SimGame
soft_drop_now g = do
  h ← move_block_down g
  some (record h { soft_drop_counter_ticks = k_soft_drop_interval_ticks })

-- A held DOWN key moves the block on the first tick and on every fourth one after it.
unfoldable pub soft_drop : Bool → SimGame → Option SimGame
soft_drop held g =
    if held
    then (if g.soft_drop_counter_ticks == 0
        then soft_drop_now g
        else some (record g { soft_drop_counter_ticks = g.soft_drop_counter_ticks - 1 }))
    else some (record g { soft_drop_counter_ticks = 0 })

abbrev pub when : Bool → (SimGame → Option SimGame) → SimGame → Option SimGame
when b action g = if b then action g else some g

unfoldable pub submit_input : ℕ → SimGame → Option SimGame
submit_input mask g = if g.game_over then some g else (do
  g1 ← when (has_input mask input_left) move_block_left g
  g2 ← when (has_input mask input_right) move_block_right g1
  g3 ← soft_drop (has_input mask input_down) g2
  g4 ← when (has_input mask input_rotate) rotate_block_impl g3
  g5 ← when (has_input mask input_drop) move_block_drop g4
  drop_expectation g5)

unfoldable pub tick : SimGame → Option SimGame
tick g =
    let ticks = g.gravity_counter_ticks + 1 in
    if g.game_over
    then some g
    else if leb g.drop_interval_ticks ticks
    then move_block_down (record g { gravity_counter_ticks = 0 })
    else some (record g { gravity_counter_ticks = ticks })

unfoldable pub add_pending_garbage : ℕ → SimGame → SimGame
add_pending_garbage rows g = record g { pending_garbage = g.pending_garbage + rows }
