-- ===== src/Sim/Grid/Shape.antt =====
-- The shape of the board of src/sim_grid.h, 20 rows of 10 cells, under its operations.
use tetris_multiplayer_rl.Common.{
  Bool-cases, length, set, replicate, All, length-append, length-set, length-replicate, All-append,
  All-set, All-replicate, ℕ, zero, suc, ◌<◌, ◌≡◌, refl, ◌∙◌, inl, inr, List, [], ◌∷◌, arith,
}
use tetris_multiplayer_rl.Sim.Grid.{
  SimGrid, k_rows, k_cols, empty_row, initialize, row_at, is_row_full, clear_full_rows,
}
use tetris_multiplayer_rl.Sim.Grid.Clear.{
  keep_rows, full_rows, length-keep_rows, clear_full_rows_lem,
}

abbrev pub IsRow : List ℕ → Type 0
IsRow row = length row ≡ k_cols

pub record IsGrid (grid : SimGrid) : Type 0 where
  pub height : length grid ≡ k_rows
  pub widths : All IsRow grid

pub initialize-IsGrid : IsGrid initialize
initialize-IsGrid = record { height = refl; widths = omega arith }

pub set-IsGrid :
    (grid : SimGrid) (i : ℕ) (row : List ℕ) → IsRow row → IsGrid grid → IsGrid (set grid i row)
set-IsGrid grid i row w v = record {
  height = length-set grid i row ∙ v.height;
  widths = All-set IsRow grid i row w v.widths;
}

keep_rows-All : (grid : SimGrid) → All IsRow grid → All IsRow (keep_rows grid)
unfolding keep_rows
keep_rows-All [] h = h
keep_rows-All (row ∷ grid) (w, h) = elim (Bool-cases (is_row_full row)) [
  | inl e ↦ rw e (keep_rows-All grid h)
  | inr e ↦ rw e (w, keep_rows-All grid h)
]

-- Clearing rows keeps the shape.
pub clear_full_rows-IsGrid : (grid : SimGrid) → IsGrid grid → IsGrid (clear_full_rows grid).0
clear_full_rows-IsGrid grid v = rw (clear_full_rows_lem grid v.height) (record {
  height = omega (
    arith,
    length-append (replicate (full_rows grid) empty_row) (keep_rows grid),
    length-replicate (full_rows grid) empty_row,
    length-keep_rows grid,
    v.height,
  );
  widths =
      All-append IsRow (replicate (full_rows grid) empty_row) (keep_rows grid)
        (All-replicate IsRow (full_rows grid) empty_row refl) (keep_rows-All grid v.widths);
})

pub row_at-IsRow : (grid : SimGrid) (i : ℕ) → i < k_rows → IsGrid grid → IsRow (row_at grid i)
row_at-IsRow grid i h v = go grid i v.widths (rw v.height h)
  where
    go : (g : SimGrid) (i : ℕ) → All IsRow g → i < length g → IsRow (row_at g i)
    go [] i a h = absurd (omega arith)
    go (r ∷ g) zero (w, a) h = w
    go (r ∷ g) (suc i) (w, a) h = go g i a (omega arith)
