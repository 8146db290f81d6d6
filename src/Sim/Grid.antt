-- ===== src/Sim/Grid.antt =====
-- src/sim_grid.h: the board of 20 rows and 10 columns. The array is the list of its rows. A row
-- operation of the source visits each column of the row once, and is one write of the row here.
pub mod Clear
pub mod Shape
use tetris_multiplayer_rl.Common.{
  ltb, ◌==◌, if◌then◌else◌, get_or, set, replicate, ℕ, zero, suc, ◌+◌, Bool, true, false, ◌&&◌,
  ◌||◌, Option, none, some, List, [], ◌∷◌,
}
use tetris_multiplayer_rl.Common.Int.{ℤ, pos, pos_part, ltb_ℤ, leb_ℤ}

abbrev pub k_rows : ℕ
k_rows = 20

abbrev pub k_cols : ℕ
k_cols = 10

abbrev pub SimGrid : Type 0
SimGrid = List (List ℕ)

abbrev pub empty_row : List ℕ
empty_row = replicate k_cols 0

-- `Initialize()`.
abbrev pub initialize : SimGrid
initialize = replicate k_rows empty_row

unfoldable pub is_cell_outside : ℤ → ℤ → Bool
is_cell_outside row column =
    if leb_ℤ (pos 0) row
      && ltb_ℤ row (pos k_rows)
      && leb_ℤ (pos 0) column
      && ltb_ℤ column (pos k_cols)
    then false
    else true

abbrev pub row_at : SimGrid → ℕ → List ℕ
row_at grid row = get_or grid row []

-- `grid[row][column]`, read where the coordinates are inside.
abbrev pub cell : SimGrid → ℤ → ℤ → ℕ
cell grid row column = get_or (row_at grid (pos_part row)) (pos_part column) 0

unfoldable pub is_cell_empty : SimGrid → ℤ → ℤ → Bool
is_cell_empty grid row column =
    if is_cell_outside row column
    then false
    else if cell grid row column == 0 || cell grid row column == 8
    then true
    else false

-- `grid[row][column] = v`; a write outside the array is a fault.
unfoldable pub set_cell : SimGrid → ℤ → ℤ → ℕ → Option SimGrid
set_cell grid row column v =
    if is_cell_outside row column
    then none
    else some (set grid (pos_part row) (set (row_at grid (pos_part row)) (pos_part column) v))

-- `IsRowFull`, on the cells of the row.
unfoldable pub is_row_full : List ℕ → Bool
is_row_full [] = true
is_row_full (c ∷ cells) = if c == 0 then false else is_row_full cells

unfoldable pub clear_row : SimGrid → ℕ → SimGrid
clear_row grid row = set grid row empty_row

unfoldable pub move_row_down : SimGrid → ℕ → ℕ → SimGrid
move_row_down grid row num_rows_down =
    set (set grid (row + num_rows_down) (row_at grid row)) row empty_row

-- One round of the loop of `ClearFullRows`, on the grid and the count `completed`.
unfoldable pub clear_step : ℕ → SimGrid × ℕ → SimGrid × ℕ
clear_step row (grid, completed) =
    if is_row_full (row_at grid row)
    then (clear_row grid row, completed + 1)
    else if ltb 0 completed
    then (move_row_down grid row completed, completed)
    else (grid, completed)

-- The rounds for the rows below `n`, from the last one up.
unfoldable pub clear_loop : ℕ → SimGrid × ℕ → SimGrid × ℕ
clear_loop zero s = s
clear_loop (suc row) s = clear_loop row (clear_step row s)

unfoldable pub clear_full_rows : SimGrid → SimGrid × ℕ
clear_full_rows grid = clear_loop k_rows (grid, 0)
