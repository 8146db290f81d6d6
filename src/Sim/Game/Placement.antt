-- ===== src/Sim/Game/Placement.antt =====
-- The placement-level actions of src/sim_game.cpp: `LegalPlacements` and `ApplyPlacement`.
use tetris_multiplayer_rl.Common.{
  ◌==◌, if◌then◌else◌, ◌>>=◌, length, ℕ, zero, suc, ◌+◌, false, ◌||◌, Option, none, some, List, [],
  ◌∷◌, ◌++◌,
}
use tetris_multiplayer_rl.Common.Int.{ℤ, pos, negsuc, pos_part, ◌+ℤ◌, ◌-ℤ◌, ltb_ℤ, leb_ℤ}
use tetris_multiplayer_rl.Sim.Grid.{SimGrid, k_cols}
use tetris_multiplayer_rl.Sim.Block.{SimBlock, rotate}
use tetris_multiplayer_rl.Sim.Game.State.{SimGame, can_stand}
use tetris_multiplayer_rl.Sim.Game.Lock.{lock_block}
use tetris_multiplayer_rl.Sim.Game.Moves.{drop_to_floor}

pub record Placement : Type 0 where
  pub col : ℕ
  pub rot : ℕ

-- `while` the rotation state is not `rot`, the block rotates. There are no more rounds than states.
unfoldable pub rotate_to : ℕ → ℕ → SimBlock → Option SimBlock
rotate_to zero rot b = none
rotate_to (suc fuel) rot b =
    let rest = rotate_to fuel rot (rotate b) in if b.rotation_state == rot then some b else rest

-- The block turned to `rot`, slid to column `col` and dropped; `some none` where it is refused.
unfoldable pub landing : SimGrid → SimBlock → ℤ → ℕ → Option (Option SimBlock)
landing grid b col rot = do
  turned ← rotate_to (length b.cells + 1) rot b
  let delta = col -ℤ turned.column_offset
  let slid = record turned { column_offset = turned.column_offset +ℤ delta }
  stands ← can_stand grid slid
  if stands
      then (do
        landed ← drop_to_floor grid slid
        lands ← can_stand grid landed
        some (if lands then some landed else none))
      else some none

-- The inner loop over the columns, from `col` on with `n` left.
unfoldable pub scan_cols : ℕ → ℕ → ℕ → SimGame → Option (List Placement)
scan_cols zero col rot g = some []
scan_cols (suc n) col rot g = do
  l ← landing g.sim_grid g.current_block (pos col) rot
  rest ← scan_cols n (col + 1) rot g
  some (elim l [ none ↦ rest | some _ ↦ record { col = col; rot = rot } ∷ rest ])

-- The outer loop over the rotations, from `rot` on with `n` left.
unfoldable pub scan_rots : ℕ → ℕ → SimGame → Option (List Placement)
scan_rots zero rot g = some []
scan_rots (suc n) rot g = do
  here ← scan_cols k_cols 0 rot g
  rest ← scan_rots n (rot + 1) g
  some (here ++ rest)

unfoldable pub legal_placements : SimGame → Option (List Placement)
legal_placements g = if g.game_over then some [] else scan_rots (length g.current_block.cells) 0 g

-- The commit of `ApplyPlacement`: the landed block is locked, and the cleared lines are counted.
unfoldable pub commit_placement : SimGame → SimBlock → Option (ℤ × SimGame)
commit_placement g target = do
  h ← lock_block (record g { current_block = target; last_move_was_rotate = false })
  some (pos h.total_lines_cleared -ℤ pos g.total_lines_cleared, h)

-- The result of `ApplyPlacement`, -1 for a placement that is refused, and the new state.
unfoldable pub apply_placement : ℤ → ℤ → SimGame → Option (ℤ × SimGame)
apply_placement col rot g =
    if g.game_over
    then some (negsuc 0, g)
    else if ltb_ℤ rot (pos 0) || leb_ℤ (pos (length g.current_block.cells)) rot
    then some (negsuc 0, g)
    else landing g.sim_grid g.current_block col (pos_part rot)
      >>= elim [ none ↦ some (negsuc 0, g) | some target ↦ commit_placement g target ]
