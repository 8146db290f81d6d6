-- ===== src/Sim/Game/Faults.antt =====
-- The write outside the board of src/sim_game.cpp. `LockBlock` tests whether the next block fits
-- before it removes the full rows, so rows that move down can come to lie under that block while the
-- game goes on. `MoveBlockDrop` then makes no step down and one step up, and locks the block there.
use tetris_multiplayer_rl.Sim.Game.Spawning.{write_tiles_outside}
use tetris_multiplayer_rl.Sim.Game.Locking.{lock_block_lem}
use tetris_multiplayer_rl.Sim.Game.Moves.{move_block_drop}
use tetris_multiplayer_rl.Common.Int.{pos, negsuc}
use tetris_multiplayer_rl.Sim.Game.Fall.{drop_to_floor_blocked, stands}
use tetris_multiplayer_rl.Sim.Block.Laws.{get_cell_positions_lem, move-IsBlock, tiles, IsBlock}
use tetris_multiplayer_rl.Sim.Game.Safety.{with_block, drop_lem, drop-lock, dropped, Returns}
use tetris_multiplayer_rl.Sim.Game.Valid.{IsValid}
use tetris_multiplayer_rl.Sim.Block.{move, SimBlock}
use tetris_multiplayer_rl.Sim.Game.State.{any_outside, SimGame}
use tetris_multiplayer_rl.Sim.Game.Lock.{place_current, lock_block}
use tetris_multiplayer_rl.Common.{
  Bool-cases, ◌≡◌, refl, sym, ◌∙◌, ◌↔◌, inl, inr, true, false, Option, none,
}

-- A block with a tile off the board cannot be locked: the write is outside the array.
lock_block_outside :
    (g : SimGame)
    → IsBlock g.current_block
    → any_outside (tiles g.current_block) ≡ true
    → lock_block g ≡ none
unfolding lock_block place_current
lock_block_outside g v h = rw (
  get_cell_positions_lem g.current_block v,
  write_tiles_outside g.current_block.id (tiles g.current_block) g.sim_grid h,
)

abbrev above : SimBlock → SimBlock
above b = move (negsuc 0) (pos 0) b

module _ (g : SimGame) (v : IsValid g) (live : g.game_over ≡ false) where
  drop_blocked :
      stands g.sim_grid g.current_block ≡ false
      → move_block_drop g ≡ lock_block (dropped g v (above g.current_block))
  drop_blocked off =
      drop-lock g v (above g.current_block) live
        (drop_to_floor_blocked g.sim_grid g.current_block v.current.block off)

  above-IsBlock : IsBlock (above g.current_block)
  above-IsBlock = move-IsBlock (negsuc 0) (pos 0) g.current_block v.current.block

  some_ne_none : (r : Option SimGame) → Returns IsValid r → r ≡ none → ⊥
  some_ne_none r a e = cc (sym a.returns ∙ e)

  drop_stays :
      any_outside (tiles (above g.current_block)) ≡ false
      → stands g.sim_grid g.current_block ≡ false
      → Returns IsValid (move_block_drop g)
  drop_stays inside off =
      let (h, e, valid, _, _) = lock_block_lem (dropped g v (above g.current_block)) (
        with_block {g = g} _ v (record { block = above-IsBlock; inside = inside }) v.ghost refl refl
          refl) in
      record { next = h; returns = drop_blocked off ∙ e; holds = valid }

-- On a valid state of a running game the hard drop writes outside the board exactly when the current
-- block does not stand on free cells and a tile of it is outside the board one row higher.
pub move_block_drop_fault :
    (g : SimGame)
    → IsValid g
    → g.game_over ≡ false
    → (move_block_drop g ≡ none) ↔ (
        (stands g.sim_grid g.current_block ≡ false)
        × (any_outside (tiles (move (negsuc 0) (pos 0) g.current_block)) ≡ true))
move_block_drop_fault g v live = (forth, back)
  where
    forth :
        move_block_drop g ≡ none
        → (stands g.sim_grid g.current_block ≡ false)
          × (any_outside (tiles (above g.current_block)) ≡ true)
    forth fault = elim (Bool-cases (stands g.sim_grid g.current_block)) [
      | inl on ↦ absurd (some_ne_none g v live _ (drop_lem g v (λ _. on)) fault)
      | inr off ↦ elim (Bool-cases (any_outside (tiles (above g.current_block)))) [
        | inl out ↦ (off, out)
        | inr inside ↦ absurd (some_ne_none g v live _ (drop_stays g v live inside off) fault)
      ]
    ]

    back :
        (stands g.sim_grid g.current_block ≡ false)
          × (any_outside (tiles (above g.current_block)) ≡ true)
        → move_block_drop g ≡ none
    back (off, out) =
        drop_blocked g v live off
        ∙ lock_block_outside (dropped g v (above g.current_block)) (above-IsBlock g v live) out
