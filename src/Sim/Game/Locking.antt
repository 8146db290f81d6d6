-- ===== src/Sim/Game/Locking.antt =====
-- `LockBlock` of src/sim_game.cpp under the invariant: the rows that are cleared, the garbage that
-- comes in, and the whole of it, which writes nothing outside the board and throws nothing.
use tetris_multiplayer_rl.Sim.Game.Spawning.{
  spawn_next_lem, place_current_lem, SameBlocks, SameBlocks-IsValid,
}
use tetris_multiplayer_rl.Common.{
  ltb, if◌then◌else◌, Bool-cases, ℕ, ◌+◌, ◌<◌, ◌≡◌, refl, sym, ap, ◌∙◌, ◌⊎◌, inl, inr, Bool, true,
  false, not, ◌&&◌, some, arith,
}
use tetris_multiplayer_rl.Sim.Grid.{clear_full_rows, SimGrid}
use tetris_multiplayer_rl.Sim.Grid.Shape.{clear_full_rows-IsGrid}
use tetris_multiplayer_rl.Sim.Grid.Clear.{clear_full_rows_none, full_rows, clear_full_rows_lem}
use tetris_multiplayer_rl.Sim.Block.Laws.{tiles}
use tetris_multiplayer_rl.Sim.Game.Garbage.{insert_garbage-IsGrid}
use tetris_multiplayer_rl.Sim.Game.State.{SimGame, all_empty}
use tetris_multiplayer_rl.Sim.Game.Lock.{
  update_level, update_score, clear_lines, insert_garbage, take_garbage, receive_garbage,
  is_t_spin_lock, lock_block, place_current,
}
use tetris_multiplayer_rl.Sim.Game.Fall.{stands, block_fits_lem}
use tetris_multiplayer_rl.Sim.Game.Valid.{IsValid}

clear_lines-SameBlocks : (t_spin : Bool) (g : SimGame) → SameBlocks g (clear_lines t_spin g)
unfolding clear_lines update_score update_level
clear_lines-SameBlocks t_spin g = record {
  current = ground arith;
  ghost = ground arith;
  queue = ground arith;
  bag = ground arith;
}

clear_lines-grid :
    (t_spin : Bool) (g : SimGame) → (clear_lines t_spin g).sim_grid ≡ (clear_full_rows g.sim_grid).0
unfolding clear_lines update_score update_level
clear_lines-grid t_spin g = ground arith

clear_lines-live :
    (t_spin : Bool) (g : SimGame)
    → ((clear_lines t_spin g).game_over ≡ g.game_over)
      × ((clear_lines t_spin g).pending_garbage ≡ g.pending_garbage)
      × ((clear_lines t_spin g).last_lines_cleared ≡ (clear_full_rows g.sim_grid).1)
unfolding clear_lines update_score update_level
clear_lines-live t_spin g = (ground arith, ground arith, ground arith)

clear_lines-total :
    (t_spin : Bool) (g : SimGame)
    → (clear_lines t_spin g).total_lines_cleared
      ≡ g.total_lines_cleared + (clear_full_rows g.sim_grid).1
unfolding clear_lines update_score update_level
clear_lines-total t_spin g = ground arith

-- The counter of lines goes up by the rows that are full once the tiles of the block are written.
pub record IsCleared (g h : SimGame) : Type 0 where
  pub written : SimGame
  pub places : place_current g ≡ some written
  pub total : h.total_lines_cleared ≡ g.total_lines_cleared + full_rows written.sim_grid

clear_lines-IsValid : (t_spin : Bool) (g : SimGame) → IsValid g → IsValid (clear_lines t_spin g)
clear_lines-IsValid t_spin g v =
    SameBlocks-IsValid (clear_lines-SameBlocks t_spin g)
      (rw (clear_lines-grid t_spin g) (clear_full_rows-IsGrid g.sim_grid v.grid)) v

-- Whether a state that is not over has its current block on free cells.
abbrev pub IsReady : SimGame → Type 0
IsReady g = g.game_over ≡ false → stands g.sim_grid g.current_block ≡ true

take_garbage_lem :
    (g : SimGame)
    → IsValid g
    → (h : SimGame) × (take_garbage g ≡ some h)
      × IsValid h
      × (h.last_lines_cleared ≡ g.last_lines_cleared)
      × (h.total_lines_cleared ≡ g.total_lines_cleared)
      × IsReady h
unfolding take_garbage
take_garbage_lem g v =
    let grid = (insert_garbage g.pending_garbage g.sim_grid g.garbage_rng).0 in
    let fits = all_empty grid (tiles g.current_block) in
    (
      record g {
        sim_grid = grid;
        garbage_rng = (insert_garbage g.pending_garbage g.sim_grid g.garbage_rng).1;
        pending_garbage = 0;
        game_over = if fits then g.game_over else true;
        last_garbage_received = g.pending_garbage;
        garbage_sound_event = true;
      },
      rw (block_fits_lem grid g.current_block v.current.block),
      SameBlocks-IsValid {g = g} (record { current = refl; ghost = refl; queue = refl; bag = refl })
          (insert_garbage-IsGrid g.pending_garbage g.garbage_rng g.sim_grid v.grid) v,
      refl,
      refl,
      λ live. unfold stands in rw v.current.inside (ground arith),
    )

receive_garbage_lem :
    (g : SimGame)
    → IsValid g
    → (h : SimGame) × (receive_garbage g ≡ some h)
      × IsValid h
      × (h.last_lines_cleared ≡ g.last_lines_cleared)
      × (h.total_lines_cleared ≡ g.total_lines_cleared)
      × (IsReady g ⊎ (0 < h.last_garbage_received) → IsReady h)
unfolding receive_garbage
receive_garbage_lem g v = elim (Bool-cases (ltb 0 g.pending_garbage && not g.game_over)) [
  | inl comes ↦
      let (h, e, valid, lines, total, ready) = take_garbage_lem g v in
      (h, rw (comes, e), valid, lines, total, λ _. ready)
  | inr none_comes ↦
      let h = record g { last_garbage_received = 0 } in
      (
        h,
        rw none_comes,
        SameBlocks-IsValid {g = g}
            (record { current = refl; ghost = refl; queue = refl; bag = refl }) v.grid v,
        refl,
        refl,
        elim [ inl ready ↦ ready | inr some_came ↦ absurd (omega arith) ],
      )
]

-- A block that enters on free cells, over a board from which no row was removed, is still on free
-- cells.
clear_lines-IsReady :
    (t_spin : Bool) (g : SimGame)
    → IsValid g
    → IsReady g
    → (clear_lines t_spin g).last_lines_cleared ≡ 0
    → IsReady (clear_lines t_spin g)
clear_lines-IsReady t_spin g v ready none_cleared live =
    let (over, pending, lines) = clear_lines-live t_spin g in
    let same : (clear_lines t_spin g).sim_grid ≡ g.sim_grid =
      clear_lines-grid t_spin g
      ∙ clear_full_rows_none g.sim_grid v.grid.height (sym lines ∙ none_cleared) in
    let blocks = clear_lines-SameBlocks t_spin g in
    rw (same, blocks.current) (ready (sym over ∙ live))

-- `LockBlock` under the invariant: it returns a state with the invariant, and the next block is on
-- free cells, or the game is over, where no row was removed or garbage came in; and the counter of
-- lines goes up by the rows that are full with the block.
pub lock_block_lem :
    (g : SimGame)
    → IsValid g
    → (h : SimGame) × (lock_block g ≡ some h)
      × IsValid h
      × ((h.last_lines_cleared ≡ 0) ⊎ (0 < h.last_garbage_received) → IsReady h)
      × IsCleared g h
unfolding lock_block
lock_block_lem g v =
    let t_spin = is_t_spin_lock g in
    let (placed, e1, v1, t1) = place_current_lem g v in
    let (spawned, e2, v2, t2, same, r2) = spawn_next_lem placed v1 in
    let cleared = clear_lines t_spin spawned in
    let v3 = clear_lines-IsValid t_spin spawned v2 in
    let (h, e4, v4, lines, t4, r4) = receive_garbage_lem cleared v3 in
    let rows =
      ap (λ (b : SimGrid). (clear_full_rows b).1) same
      ∙ ap (λ (x : SimGrid × ℕ). x.1) (clear_full_rows_lem placed.sim_grid v1.grid.height) in
    (
      record h {
        game_over_event = if h.game_over && not g.game_over then true else h.game_over_event;
      },
      rw (e1, e2, e4),
      SameBlocks-IsValid {g = h} (record { current = refl; ghost = refl; queue = refl; bag = refl })
          v4.grid v4,
      elim [
        | inl none_cleared ↦
            r4 (inl (clear_lines-IsReady t_spin spawned v2 r2 (sym lines ∙ none_cleared)))
        | inr came ↦ r4 (inr came)
      ],
      record {
        written = placed;
        places = e1;
        total = omega (arith, t1, t2, t4, rows, clear_lines-total t_spin spawned);
      },
    )
