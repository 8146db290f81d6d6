-- ===== src/Sim/Game/Start.antt =====
-- The constructor of src/sim_game.cpp: for every seed it returns a state with the invariant.
use tetris_multiplayer_rl.Sim.Block.Laws.{tiles}
use tetris_multiplayer_rl.Sim.Game.Locking.{IsReady}
use tetris_multiplayer_rl.Sim.Grid.Shape.{initialize-IsGrid}
use tetris_multiplayer_rl.Common.Int.{pos_part}
use tetris_multiplayer_rl.Sim.Rng.{seeded}
use tetris_multiplayer_rl.Sim.Game.Valid.{get_all_blocks-IsInside, get_random_block_lem, IsValid}
use tetris_multiplayer_rl.Sim.Game.Fall.{stands, IsInside}
use tetris_multiplayer_rl.Sim.Grid.{k_rows, initialize, is_cell_empty, k_cols, empty_row}
use tetris_multiplayer_rl.Sim.Game.Safety.{IsPlayable, Returns}
use tetris_multiplayer_rl.Sim.Block.{Position, SimBlock}
use tetris_multiplayer_rl.Sim.Game.State.{
  k_next_preview_count, sim_game, fill_queue, all_empty, get_all_blocks, any_outside,
  make_ghost_block, Draw, get_random_block, Queue, fresh_game, seed_or_default,
}
use tetris_multiplayer_rl.Common.{
  length, get_or, replicate, All, length-append, All-append, ℕ, zero, suc, ◌+◌, ◌≤◌, ◌≡◌, refl,
  true, false, some, List, [], ◌∷◌, ◌++◌, arith,
}

get_or-replicate {ℓ} : {A : Type ℓ} (n i : ℕ) (a : A) → get_or (replicate n a) i a ≡ a
get_or-replicate zero i a = refl
get_or-replicate (suc n) zero a = refl
get_or-replicate (suc n) (suc i) a = get_or-replicate n i a

empty_at : (n i j : ℕ) → get_or (get_or (replicate n empty_row) i []) j 0 ≡ 0
empty_at zero i j = refl
empty_at (suc n) zero j = get_or-replicate k_cols j 0
empty_at (suc n) (suc i) j = empty_at n i j

-- Tiles on an empty board lie on empty cells.
all_empty-initialize :
    (ts : List Position) → any_outside ts ≡ false → all_empty initialize ts ≡ true
unfolding any_outside all_empty is_cell_empty
all_empty-initialize [] h = refl
all_empty-initialize (item ∷ ts) h =
    ground
      (arith, all_empty-initialize ts, empty_at k_rows (pos_part item.row) (pos_part item.column))

record Filled (n : ℕ) (queue bag : List SimBlock) (rng : ℕ) : Type 0 where
  result : Queue
  returns : fill_queue n queue bag rng ≡ some result
  size : length result.queue ≡ length queue + n
  inside : All IsInside result.queue
  bag_size : length result.bag ≤ 7
  rest : All IsInside result.bag

fill_step :
    (n : ℕ) (queue bag : List SimBlock) (rng : ℕ) (d : Draw) (q : Queue)
    → get_random_block bag rng ≡ some d
    → fill_queue n (queue ++ d.block ∷ []) d.bag d.rng ≡ some q
    → fill_queue (suc n) queue bag rng ≡ some q
unfolding fill_queue
fill_step n queue bag rng d q e f = rw e f

fill_queue_lem :
    (n : ℕ) (queue bag : List SimBlock) (rng : ℕ)
    → All IsInside queue
    → length bag ≤ 7
    → All IsInside bag
    → Filled n queue bag rng
fill_queue_lem zero queue bag rng q s b = record {
  result = record { queue = queue; bag = bag; rng = rng };
  returns = unfold fill_queue in refl;
  size = omega arith;
  inside = q;
  bag_size = s;
  rest = b;
}
fill_queue_lem (suc n) queue bag rng q s b =
    let d = get_random_block_lem bag rng s b in
    let f =
      fill_queue_lem n (queue ++ d.draw.block ∷ []) d.draw.bag d.draw.rng
        (All-append IsInside queue (d.draw.block ∷ []) q (d.block, tt)) d.size d.rest in
    record {
      result = f.result;
      returns = fill_step n queue bag rng d.draw f.result d.returns f.returns;
      size = omega (arith, f.size, length-append queue (d.draw.block ∷ []));
      inside = f.inside;
      bag_size = f.bag_size;
      rest = f.rest;
    }

get_all_blocks_size : length get_all_blocks ≤ 7
unfolding get_all_blocks
get_all_blocks_size = omega arith

-- The first block of a new game stands on the empty board.
pub fresh_game-IsReady :
    (s : ℕ) (b : SimBlock) (q : Queue) → IsInside b → IsReady (fresh_game s b q)
unfolding fresh_game stands
fresh_game-IsReady s b q inside live =
    rw (inside.inside, all_empty-initialize (tiles b) inside.inside)

fresh_game-IsValid :
    (s : ℕ) (b : SimBlock) (q : Queue)
    → IsInside b
    → length q.queue ≡ k_next_preview_count
    → All IsInside q.queue
    → length q.bag ≤ 7
    → All IsInside q.bag
    → IsValid (fresh_game s b q)
unfolding fresh_game make_ghost_block
fresh_game-IsValid s b q inside size queue bag_size bag = record {
  grid = initialize-IsGrid;
  current = inside;
  ghost = record {
    states = inside.block.states;
    state = inside.block.state;
    tiled = inside.block.tiled;
  };
  queued = size;
  queue = queue;
  bag_size = bag_size;
  bag = bag;
}

-- Every seed gives a game with the invariant whose first block stands on free cells.
pub sim_game-IsPlayable : (seed : ℕ) → Returns IsPlayable (sim_game seed)
sim_game-IsPlayable seed =
    let s = seed_or_default seed in
    let d =
      get_random_block_lem get_all_blocks (seeded s) get_all_blocks_size get_all_blocks-IsInside in
    let f = fill_queue_lem k_next_preview_count [] d.draw.bag d.draw.rng tt d.size d.rest in
    record {
      next = fresh_game s d.draw.block f.result;
      returns = unfold sim_game in rw (d.returns, f.returns);
      holds = record {
        valid =
            fresh_game-IsValid s d.draw.block f.result d.block f.size f.inside f.bag_size f.rest;
        ready = fresh_game-IsReady s d.draw.block f.result d.block;
      };
    }
