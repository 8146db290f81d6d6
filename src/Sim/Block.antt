-- ===== src/Sim/Block.antt =====
-- src/position.h, src/sim_block.h and src/sim_blocks.h: a falling block, and the seven factories.
-- The map from a rotation state to its tiles has the keys 0, 1, 2, ... and is a list.
pub mod Laws
use tetris_multiplayer_rl.Common.{
  ◌==◌, if◌then◌else◌, ◌>>=◌, length, get_elem?, ℕ, zero, suc, ◌+◌, ◌-◌, Option, some, List, [],
  ◌∷◌, map,
}
use tetris_multiplayer_rl.Common.Int.{ℤ, pos, ◌+ℤ◌}

pub record Position : Type 0 where
  pub row : ℤ
  pub column : ℤ

pub record SimBlock : Type 0 where
  pub id : ℕ
  pub cells : List (List Position)
  pub rotation_state : ℕ
  pub row_offset : ℤ
  pub column_offset : ℤ

unfoldable pub move : ℤ → ℤ → SimBlock → SimBlock
move rows columns b = record b {
  row_offset = b.row_offset +ℤ rows;
  column_offset = b.column_offset +ℤ columns;
}

abbrev pub moved_tile : ℤ → ℤ → Position → Position
moved_tile rows columns item = record { row = item.row +ℤ rows; column = item.column +ℤ columns }

-- `cells.at` throws where the map has no such key.
unfoldable pub get_cell_positions : SimBlock → Option (List Position)
get_cell_positions b = do
  tiles ← get_elem? b.cells b.rotation_state
  some (map (moved_tile b.row_offset b.column_offset) tiles)

unfoldable pub rotate : SimBlock → SimBlock
rotate b =
    let next = b.rotation_state + 1 in
    record b { rotation_state = if next == length b.cells then 0 else next }

-- The state before 0 is the last one; the source counts down to -1 and tests for it.
abbrev pub undo_state : ℕ → ℕ → ℕ
undo_state size zero = size - 1
undo_state size (suc r) = r

unfoldable pub undo_rotation : SimBlock → SimBlock
undo_rotation b = record b { rotation_state = undo_state (length b.cells) b.rotation_state }

abbrev pub at : ℕ → ℕ → Position
at r c = record { row = pos r; column = pos c }

-- A factory's block before its first move: `SimBlock()` with the id and the table filled in.
abbrev pub shape : ℕ → List (List Position) → SimBlock
shape i table = record {
  id = i;
  cells = table;
  rotation_state = 0;
  row_offset = pos 0;
  column_offset = pos 0;
}

unfoldable pub sim_l_block : SimBlock
unfolding move
sim_l_block = move (pos 0) (pos 3) (
    shape 1 (
      (at 0 2 ∷ at 1 0 ∷ at 1 1 ∷ at 1 2 ∷ [])
      ∷ (at 0 1 ∷ at 1 1 ∷ at 2 1 ∷ at 2 2 ∷ [])
      ∷ (at 1 0 ∷ at 1 1 ∷ at 1 2 ∷ at 2 0 ∷ [])
      ∷ (at 0 0 ∷ at 0 1 ∷ at 1 1 ∷ at 2 1 ∷ [])
      ∷ []))

unfoldable pub sim_j_block : SimBlock
unfolding move
sim_j_block = move (pos 0) (pos 3) (
    shape 2 (
      (at 0 0 ∷ at 1 0 ∷ at 1 1 ∷ at 1 2 ∷ [])
      ∷ (at 0 1 ∷ at 0 2 ∷ at 1 1 ∷ at 2 1 ∷ [])
      ∷ (at 1 0 ∷ at 1 1 ∷ at 1 2 ∷ at 2 2 ∷ [])
      ∷ (at 0 1 ∷ at 1 1 ∷ at 2 0 ∷ at 2 1 ∷ [])
      ∷ []))

unfoldable pub sim_i_block : SimBlock
unfolding move
sim_i_block = move (pos 0) (pos 3) (
    shape 3 (
      (at 1 0 ∷ at 1 1 ∷ at 1 2 ∷ at 1 3 ∷ [])
      ∷ (at 0 2 ∷ at 1 2 ∷ at 2 2 ∷ at 3 2 ∷ [])
      ∷ (at 2 0 ∷ at 2 1 ∷ at 2 2 ∷ at 2 3 ∷ [])
      ∷ (at 0 1 ∷ at 1 1 ∷ at 2 1 ∷ at 3 1 ∷ [])
      ∷ []))

unfoldable pub sim_o_block : SimBlock
unfolding move
sim_o_block = move (pos 0) (pos 4) (
    shape 4 (
      (at 0 0 ∷ at 0 1 ∷ at 1 0 ∷ at 1 1 ∷ [])
      ∷ (at 0 0 ∷ at 0 1 ∷ at 1 0 ∷ at 1 1 ∷ [])
      ∷ (at 0 0 ∷ at 0 1 ∷ at 1 0 ∷ at 1 1 ∷ [])
      ∷ (at 0 0 ∷ at 0 1 ∷ at 1 0 ∷ at 1 1 ∷ [])
      ∷ []))

unfoldable pub sim_s_block : SimBlock
unfolding move
sim_s_block = move (pos 0) (pos 3) (
    shape 5 (
      (at 0 1 ∷ at 0 2 ∷ at 1 0 ∷ at 1 1 ∷ [])
      ∷ (at 0 1 ∷ at 1 1 ∷ at 1 2 ∷ at 2 2 ∷ [])
      ∷ (at 1 1 ∷ at 1 2 ∷ at 2 0 ∷ at 2 1 ∷ [])
      ∷ (at 0 0 ∷ at 1 0 ∷ at 1 1 ∷ at 2 1 ∷ [])
      ∷ []))

unfoldable pub sim_t_block : SimBlock
unfolding move
sim_t_block = move (pos 0) (pos 3) (
    shape 6 (
      (at 0 1 ∷ at 1 0 ∷ at 1 1 ∷ at 1 2 ∷ [])
      ∷ (at 0 1 ∷ at 1 1 ∷ at 1 2 ∷ at 2 1 ∷ [])
      ∷ (at 1 0 ∷ at 1 1 ∷ at 1 2 ∷ at 2 1 ∷ [])
      ∷ (at 0 1 ∷ at 1 0 ∷ at 1 1 ∷ at 2 1 ∷ [])
      ∷ []))

unfoldable pub sim_z_block : SimBlock
unfolding move
sim_z_block = move (pos 0) (pos 3) (
    shape 7 (
      (at 0 0 ∷ at 0 1 ∷ at 1 1 ∷ at 1 2 ∷ [])
      ∷ (at 0 2 ∷ at 1 1 ∷ at 1 2 ∷ at 2 1 ∷ [])
      ∷ (at 1 0 ∷ at 1 1 ∷ at 2 1 ∷ at 2 2 ∷ [])
      ∷ (at 0 1 ∷ at 1 0 ∷ at 1 1 ∷ at 2 0 ∷ [])
      ∷ []))
