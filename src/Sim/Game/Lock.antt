-- ===== src/Sim/Game/Lock.antt =====
-- `LockBlock` of src/sim_game.cpp and what it calls: the T-spin test, scores and levels, attacks,
-- the garbage rows.
use tetris_multiplayer_rl.Common.{
  ltb, leb, ◌==◌, if◌then◌else◌, ◌>>=◌, get_elem?, set, drop, ℕ, zero, suc, ◌+◌, ◌-◌, ◌*◌, ◌/◌,
  Bool, true, false, not, ◌&&◌, ◌||◌, Option, some, List, [], ◌∷◌, ◌++◌,
}
use tetris_multiplayer_rl.Common.Int.{ℤ, pos, negsuc, ◌+ℤ◌, ◌-ℤ◌}
use tetris_multiplayer_rl.Sim.Rng.{next_u_int}
use tetris_multiplayer_rl.Sim.Grid.{
  SimGrid, is_cell_outside, is_cell_empty, set_cell, row_at, clear_full_rows, k_rows, k_cols,
}
use tetris_multiplayer_rl.Sim.Block.{Position, get_cell_positions}
use tetris_multiplayer_rl.Sim.Game.State.{SimGame, block_fits, make_ghost_block, get_random_block}

unfoldable pub attack_lines_for : ℕ → Bool → ℕ
attack_lines_for rows t_spin =
    if t_spin
    then (if rows == 1 then 2 else if rows == 2 then 4 else if rows == 3 then 6 else 0)
    else if rows == 2
    then 1
    else if rows == 3
    then 2
    else if rows == 4
    then 4
    else 0

-- One corner of the T-spin test counts if it is outside or not empty.
unfoldable pub blocked : SimGrid → ℤ → ℤ → ℕ
blocked grid row col = if is_cell_outside row col || not (is_cell_empty grid row col) then 1 else 0

unfoldable pub is_t_spin_lock : SimGame → Bool
is_t_spin_lock g =
    if not (g.current_block.id == 6) || not g.last_move_was_rotate
    then false
    else let pivot_row = g.current_block.row_offset +ℤ pos 1 in
      let pivot_col = g.current_block.column_offset +ℤ pos 1 in
      leb 3 (
        blocked g.sim_grid (pivot_row -ℤ pos 1) (pivot_col -ℤ pos 1)
        + blocked g.sim_grid (pivot_row -ℤ pos 1) (pivot_col +ℤ pos 1)
        + blocked g.sim_grid (pivot_row +ℤ pos 1) (pivot_col -ℤ pos 1)
        + blocked g.sim_grid (pivot_row +ℤ pos 1) (pivot_col +ℤ pos 1))

-- The base points of `UpdateScore`.
unfoldable pub t_spin_points : ℕ → ℕ
t_spin_points n =
    if n == 0
    then 400
    else if n == 1
    then 800
    else if n == 2
    then 1200
    else if n == 3
    then 1600
    else 0

unfoldable pub line_points : ℕ → ℕ
line_points n =
    if n == 1
    then 100
    else if n == 2
    then 300
    else if n == 3
    then 600
    else if n == 4
    then 1000
    else 0

-- The gravity interval of a level.
unfoldable pub interval_for : ℕ → ℕ
interval_for level =
    let new_interval = 30 - (level - 1) * 27 / 19 in if ltb new_interval 3 then 3 else new_interval

-- The level part of `UpdateScore`.
unfoldable pub update_level : ℕ → SimGame → SimGame
update_level lines_cleared g =
    let total = g.total_lines_cleared + lines_cleared in
    let new_level = total / 10 + 1 in
    if ltb g.level new_level
    then (let level = if ltb 20 new_level then 20 else new_level in
        record g {
          total_lines_cleared = total;
          level = level;
          drop_interval_ticks = interval_for level;
        })
    else record g { total_lines_cleared = total }

unfoldable pub update_score : ℕ → ℕ → Bool → SimGame → SimGame
update_score lines_cleared level_up t_spin g =
    let points = if t_spin then t_spin_points lines_cleared else line_points lines_cleared in
    update_level lines_cleared (record g { score = g.score + points * g.level + level_up * 1000 })

-- The copy loop of `InsertGarbage`, from row `r` on with `n` rounds left.
unfoldable pub shift_up : ℕ → ℕ → ℕ → SimGrid → SimGrid
shift_up zero r rows grid = grid
shift_up (suc n) r rows grid = shift_up n (r + 1) rows (set grid r (row_at grid (r + rows)))

unfoldable pub garbage_row : ℕ → ℕ → ℕ → List ℕ
garbage_row zero c hole = []
garbage_row (suc n) c hole = (if c == hole then 0 else 9) ∷ garbage_row n (c + 1) hole

-- The fill loop, at the `i`-th row from below with `n` rounds left.
unfoldable pub fill_garbage : ℕ → ℕ → ℕ → SimGrid → SimGrid
fill_garbage zero i hole grid = grid
fill_garbage (suc n) i hole grid =
    fill_garbage n (i + 1) hole (set grid (k_rows - 1 - i) (garbage_row k_cols 0 hole))

-- `InsertGarbage`, on the grid and the garbage generator.
unfoldable pub insert_garbage : ℕ → SimGrid → ℕ → SimGrid × ℕ
insert_garbage rows0 grid garbage_rng =
    let rows = if ltb k_rows rows0 then k_rows else rows0 in
    let (hole, rng') = next_u_int k_cols garbage_rng in
    if rows0 == 0
    then (grid, garbage_rng)
    else (fill_garbage rows 0 hole (shift_up (k_rows - rows) 0 rows grid), rng')

-- `LockBlock`, in its four parts. First the tiles are written.
unfoldable pub write_tiles : ℕ → List Position → SimGrid → Option SimGrid
write_tiles id [] grid = some grid
write_tiles id (item ∷ tiles) grid = do
  grid' ← set_cell grid item.row item.column id
  write_tiles id tiles grid'

unfoldable pub place_current : SimGame → Option SimGame
place_current g = do
  tiles ← get_cell_positions g.current_block
  grid ← write_tiles g.current_block.id tiles g.sim_grid
  some (record g { sim_grid = grid })

-- Then the next block comes in, the game is over if it does not fit, and the queue is filled up.
unfoldable pub spawn_next : SimGame → Option SimGame
spawn_next g = do
  next ← get_elem? g.next_blocks 0
  fits ← block_fits g.sim_grid next
  d ← get_random_block g.blocks g.rng
  some (record g {
    current_block = next;
    ghost_block = make_ghost_block next;
    game_over = if fits then g.game_over else true;
    next_blocks = drop 1 g.next_blocks ++ d.block ∷ [];
    blocks = d.bag;
    rng = d.rng;
  })

-- Then the full rows go, with their score and attack.
unfoldable pub clear_lines : Bool → SimGame → SimGame
clear_lines t_spin g =
    let (grid, rows_cleared) = clear_full_rows g.sim_grid in
    let h = record g {
      sim_grid = grid;
      last_lines_cleared = rows_cleared;
      last_t_spin_lines = if t_spin then pos rows_cleared else negsuc 0;
      clear_sound_event = ltb 0 rows_cleared || g.clear_sound_event;
      last_move_was_rotate = false;
    } in
    let scored = update_score rows_cleared 0 t_spin h in
    if ltb 0 rows_cleared || t_spin
    then record scored {
      attack_lines_sent = g.attack_lines_sent + attack_lines_for rows_cleared t_spin;
    }
    else h

-- At last the pending garbage comes in, unless the game is over.
unfoldable pub take_garbage : SimGame → Option SimGame
take_garbage g = do
  let inserted = insert_garbage g.pending_garbage g.sim_grid g.garbage_rng
  fits ← block_fits inserted.0 g.current_block
  some (record g {
    sim_grid = inserted.0;
    garbage_rng = inserted.1;
    pending_garbage = 0;
    game_over = if fits then g.game_over else true;
    last_garbage_received = g.pending_garbage;
    garbage_sound_event = true;
  })

unfoldable pub receive_garbage : SimGame → Option SimGame
receive_garbage g =
    if ltb 0 g.pending_garbage && not g.game_over
    then take_garbage g
    else some (record g { last_garbage_received = 0 })

unfoldable pub lock_block : SimGame → Option SimGame
lock_block g = do
  let t_spin = is_t_spin_lock g
  placed ← place_current g
  spawned ← spawn_next placed
  done ← receive_garbage (clear_lines t_spin spawned)
  some (record done {
    game_over_event = if done.game_over && not g.game_over then true else done.game_over_event;
  })
