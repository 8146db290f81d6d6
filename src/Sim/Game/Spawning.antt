-- ===== src/Sim/Game/Spawning.antt =====
-- The first half of `LockBlock` of src/sim_game.cpp under the invariant: the block is written on the
-- board, and the next one comes in.
use tetris_multiplayer_rl.Common.{
  if◌then◌else◌, Bool-cases, ◌>>=◌, length, get_elem?, set, drop, All, length-append, length-set,
  All-append, ℕ, ◌<◌, ◌≡◌, refl, ◌∙◌, inl, inr, true, false, none, some, List, [], ◌∷◌, ◌++◌, arith,
}
use tetris_multiplayer_rl.Common.Int.{ℤ, pos_part}
use tetris_multiplayer_rl.Sim.Grid.{SimGrid, k_rows, is_cell_outside, row_at, set_cell}
use tetris_multiplayer_rl.Sim.Grid.Shape.{IsGrid, set-IsGrid, row_at-IsRow}
use tetris_multiplayer_rl.Sim.Block.{SimBlock, Position}
use tetris_multiplayer_rl.Sim.Block.Laws.{tiles, get_cell_positions_lem}
use tetris_multiplayer_rl.Sim.Game.State.{
  SimGame, any_outside, all_empty, block_fits, make_ghost_block, get_random_block,
}
use tetris_multiplayer_rl.Sim.Game.Lock.{write_tiles, place_current, spawn_next}
use tetris_multiplayer_rl.Sim.Game.Fall.{stands, block_fits_lem, IsInside}
use tetris_multiplayer_rl.Sim.Game.Valid.{IsValid, get_random_block_lem}

set_cell-IsGrid :
    (grid : SimGrid) (row column : ℤ) (v : ℕ)
    → is_cell_outside row column ≡ false
    → IsGrid grid
    → (grid' : SimGrid) × (set_cell grid row column v ≡ some grid') × IsGrid grid'
unfolding set_cell
set_cell-IsGrid grid row column v h ok =
    let r = pos_part row in
    let low : r < k_rows = unfold is_cell_outside in ground arith in
    let old = row_at grid r in
    (
      set grid r (set old (pos_part column) v),
      rw h,
      set-IsGrid grid r (set old (pos_part column) v)
          (length-set old (pos_part column) v ∙ row_at-IsRow grid r low ok) ok,
    )

-- Tiles on the board are written.
pub write_tiles_inside :
    (id : ℕ) (ts : List Position) (grid : SimGrid)
    → any_outside ts ≡ false
    → IsGrid grid
    → (grid' : SimGrid) × (write_tiles id ts grid ≡ some grid') × IsGrid grid'
unfolding write_tiles any_outside
write_tiles_inside id [] grid h ok = (grid, refl, ok)
write_tiles_inside id (item ∷ ts) grid h ok =
    let here : is_cell_outside item.row item.column ≡ false = ground arith in
    let rest : any_outside ts ≡ false = ground arith in
    let (g1, e1, ok1) = set_cell-IsGrid grid item.row item.column id here ok in
    let (g2, e2, ok2) = write_tiles_inside id ts g1 rest ok1 in (g2, rw (e1, e2), ok2)

-- A tile off the board makes the writes fail.
pub write_tiles_outside :
    (id : ℕ) (ts : List Position) (grid : SimGrid)
    → any_outside ts ≡ true
    → write_tiles id ts grid ≡ none
unfolding write_tiles any_outside set_cell
write_tiles_outside id [] grid h = cc
write_tiles_outside id (item ∷ ts) grid h =
    elim (Bool-cases (is_cell_outside item.row item.column)) [
      | inl out ↦ rw out
      | inr here ↦ rw here (write_tiles_outside id ts _ (rw here at h))
    ]

-- What two states share when only the board, the score and the events differ.
pub record SameBlocks (g h : SimGame) : Type 0 where
  pub current : h.current_block ≡ g.current_block
  pub ghost : h.ghost_block ≡ g.ghost_block
  pub queue : h.next_blocks ≡ g.next_blocks
  pub bag : h.blocks ≡ g.blocks

pub SameBlocks-IsValid :
    {g h : SimGame} → SameBlocks g h → IsGrid h.sim_grid → IsValid g → IsValid h
SameBlocks-IsValid s grid v = record {
  grid = grid;
  current = rw s.current v.current;
  ghost = rw s.ghost v.ghost;
  queued = rw s.queue v.queued;
  queue = rw s.queue v.queue;
  bag_size = rw s.bag v.bag_size;
  bag = rw s.bag v.bag;
}

pub place_current_lem :
    (g : SimGame)
    → IsValid g
    → (h : SimGame) × (place_current g ≡ some h)
      × IsValid h
      × (h.total_lines_cleared ≡ g.total_lines_cleared)
unfolding place_current
place_current_lem g v =
    let (grid, e, ok) =
      write_tiles_inside g.current_block.id (tiles g.current_block) g.sim_grid v.current.inside
        v.grid in
    (
      record g { sim_grid = grid },
      rw (get_cell_positions_lem g.current_block v.current.block, e),
      SameBlocks-IsValid {g = g} (record { current = refl; ghost = refl; queue = refl; bag = refl })
          ok v,
      refl,
    )

pub spawn_next_lem :
    (g : SimGame)
    → IsValid g
    → (h : SimGame) × (spawn_next g ≡ some h)
      × IsValid h
      × (h.total_lines_cleared ≡ g.total_lines_cleared)
      × (h.sim_grid ≡ g.sim_grid)
      × (h.game_over ≡ false → stands h.sim_grid h.current_block ≡ true)
unfolding spawn_next
spawn_next_lem g v = go g.next_blocks v.queued v.queue
  where
    go :
        (queue : List SimBlock)
        → length queue ≡ 3
        → All IsInside queue
        → (h : SimGame) × ((do
          next ← get_elem? queue 0
          fits ← block_fits g.sim_grid next
          d ← get_random_block g.blocks g.rng
          some (record g {
            current_block = next;
            ghost_block = make_ghost_block next;
            game_over = if fits then g.game_over else true;
            next_blocks = drop 1 queue ++ d.block ∷ [];
            blocks = d.bag;
            rng = d.rng;
          }))
            ≡ some h)
          × IsValid h
          × (h.total_lines_cleared ≡ g.total_lines_cleared)
          × (h.sim_grid ≡ g.sim_grid)
          × (h.game_over ≡ false → stands h.sim_grid h.current_block ≡ true)
    go [] e a = absurd (omega arith)
    go (next ∷ queue) e (n, a) =
        let d = get_random_block_lem g.blocks g.rng v.bag_size v.bag in
        let fits = all_empty g.sim_grid (tiles next) in
        (
          record g {
            current_block = next;
            ghost_block = make_ghost_block next;
            game_over = if fits then g.game_over else true;
            next_blocks = queue ++ d.draw.block ∷ [];
            blocks = d.draw.bag;
            rng = d.draw.rng;
          },
          rw (block_fits_lem g.sim_grid next n.block, d.returns),
          record {
            grid = v.grid;
            current = n;
            ghost =
                unfold make_ghost_block in
                record { states = n.block.states; state = n.block.state; tiled = n.block.tiled };
            queued = omega (arith, length-append queue (d.draw.block ∷ []));
            queue = All-append IsInside queue (d.draw.block ∷ []) a (d.block, tt);
            bag_size = d.size;
            bag = d.rest;
          },
          refl,
          refl,
          λ live. unfold stands in rw n.inside (ground arith),
        )
