-- ===== src/Sim/Game/Placing.antt =====
-- The placement-level actions of src/sim_game.cpp under the invariant: what `ApplyPlacement` does on
-- each branch.
use tetris_multiplayer_rl.Sim.Game.State.{SimGame}
use tetris_multiplayer_rl.Common.Int.{ℤ, pos, pos_part, ◌+ℤ◌, ◌-ℤ◌, ltb_ℤ, leb_ℤ}
use tetris_multiplayer_rl.Sim.Game.Fall.{stands}
use tetris_multiplayer_rl.Sim.Block.{SimBlock}
use tetris_multiplayer_rl.Common.{length, ℕ, ◌+◌, ◌-◌, ◌%◌, ◌≡◌, ◌⊎◌, Bool, true, false, ◌||◌}

-- The rounds of the turning loop that are left.
abbrev turns : ℕ → ℕ → ℕ
turns rot state = (rot + 4 - state) % 4

-- The block turned to the rotation state `rot` and slid to the column `col`.
abbrev pub spot : SimBlock → ℤ → ℕ → SimBlock
spot b col rot = record b {
  rotation_state = rot;
  column_offset = b.column_offset +ℤ (col -ℤ b.column_offset);
}

-- The state that `ApplyPlacement` locks.
abbrev pub placed : SimGame → SimBlock → SimGame
placed g target = record g { current_block = target; last_move_was_rotate = false }

abbrev out_of_range : ℤ → SimGame → Bool
out_of_range rot g = ltb_ℤ rot (pos 0) || leb_ℤ (pos (length g.current_block.cells)) rot

module _ (col rot : ℤ) (g : SimGame) where
  -- Why a placement is refused: the game is over, there is no such rotation, or the block turned and
  -- slid there is not on free cells.
  abbrev pub IsRefused : Type 0
  IsRefused =
      (g.game_over ≡ true)
      ⊎ ((out_of_range rot g ≡ true)
          ⊎ (stands g.sim_grid (spot g.current_block col (pos_part rot)) ≡ false))
