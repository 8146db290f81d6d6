-- ===== src/Sim/Grid/Clear.antt =====
-- `ClearFullRows` of src/sim_grid.h against its specification: the in-place loop from the last row
-- up leaves the rows that are not full in their order, under as many empty ones as were removed.
use tetris_multiplayer_rl.Common.{
  if◌then◌else◌, lt→ltb, Bool-cases, length, replicate, get_or-append_length, set-append_length,
  set_gap, snoc_view, ℕ, zero, suc, ◌+◌, ◌≡◌, refl, ap, ◌∙◌, inl, inr, List, [], ◌∷◌, ◌++◌, arith,
}
use tetris_multiplayer_rl.Sim.Grid.{
  SimGrid, empty_row, is_row_full, clear_row, move_row_down, clear_step, clear_loop, k_rows,
  clear_full_rows,
}
use native.Mathlib.Numerals.{add-one}
use mathlib.Core.List.{append_assoc, append-nil}

-- The rows that are not full, and how many are.
unfoldable pub keep_rows : SimGrid → SimGrid
keep_rows [] = []
keep_rows (row ∷ grid) = if is_row_full row then keep_rows grid else row ∷ keep_rows grid

unfoldable pub full_rows : SimGrid → ℕ
full_rows [] = 0
full_rows (row ∷ grid) = (if is_row_full row then 1 else 0) + full_rows grid

keep_rows-append : (xs ys : SimGrid) → keep_rows (xs ++ ys) ≡ keep_rows xs ++ keep_rows ys
unfolding keep_rows
keep_rows-append [] ys = refl
keep_rows-append (x ∷ xs) ys = ground (arith, keep_rows-append xs ys)

full_rows-append : (xs ys : SimGrid) → full_rows (xs ++ ys) ≡ full_rows xs + full_rows ys
unfolding full_rows
full_rows-append [] ys = omega arith
full_rows-append (x ∷ xs) ys = omega (arith, full_rows-append xs ys)

pub length-keep_rows : (grid : SimGrid) → length (keep_rows grid) + full_rows grid ≡ length grid
unfolding keep_rows full_rows
length-keep_rows [] = omega arith
length-keep_rows (row ∷ grid) = ground (arith, length-keep_rows grid)

-- The two writes of the loop, at the last row that is not yet visited: above it stand the rows `ys`,
-- below it the gap of empty rows and the rows kept so far.
clear_row_gap :
    (ys done : SimGrid) (y : List ℕ) (k : ℕ)
    → clear_row (ys ++ y ∷ (replicate k empty_row ++ done)) (length ys)
      ≡ ys ++ (replicate (suc k) empty_row ++ done)
unfolding clear_row
clear_row_gap ys done y k = set-append_length ys (replicate k empty_row ++ done) y empty_row

move_row_down_gap :
    (ys done : SimGrid) (y : List ℕ) (k : ℕ)
    → move_row_down (ys ++ y ∷ (replicate (suc k) empty_row ++ done)) (length ys) (suc k)
      ≡ ys ++ (replicate (suc k) empty_row ++ y ∷ done)
unfolding move_row_down
move_row_down_gap ys done y k = rw (
  get_or-append_length ys (replicate (suc k) empty_row ++ done) y [],
  set_gap ys done y k empty_row y,
  set-append_length ys (replicate k empty_row ++ y ∷ done) y empty_row,
)

-- One round.
clear_step_gap :
    (n : ℕ) (ys done : SimGrid) (y : List ℕ) (k : ℕ)
    → length ys ≡ n
    → clear_step n ((ys ++ y ∷ []) ++ (replicate k empty_row ++ done), k) ≡ (
        if is_row_full y
        then (ys ++ (replicate (suc k) empty_row ++ done), suc k)
        else (ys ++ (replicate k empty_row ++ y ∷ done), k))
unfolding clear_step
clear_step_gap n ys done y zero q =
    rw (← q, append_assoc ys (y ∷ []) done, get_or-append_length ys done y [])
      (elim (Bool-cases (is_row_full y)) [
        | inl e ↦ rw (e, clear_row_gap ys done y 0)
        | inr e ↦ rw e
      ])
clear_step_gap n ys done y (suc k) q =
    rw
      (
        ← q,
        append_assoc ys (y ∷ []) (replicate (suc k) empty_row ++ done),
        get_or-append_length ys (replicate (suc k) empty_row ++ done) y [],
        lt→ltb 0 (suc k) (omega arith),
        add-one,
      )
      (elim (Bool-cases (is_row_full y)) [
        | inl e ↦ rw (e, clear_row_gap ys done y (suc k))
        | inr e ↦ rw (e, move_row_down_gap ys done y k)
      ])

-- The rest of the loop, from any gap.
clear_loop_gap :
    (n : ℕ) (pre done : SimGrid) (k m : ℕ)
    → length pre ≡ n
    → full_rows pre + k ≡ m
    → clear_loop n (pre ++ (replicate k empty_row ++ done), k)
      ≡ (replicate m empty_row ++ (keep_rows pre ++ done), m)
unfolding clear_loop full_rows keep_rows
clear_loop_gap zero [] done k m e f =
    let k≡m : k ≡ m = omega arith in ap (λ (t : ℕ). (replicate t empty_row ++ done, t)) k≡m
clear_loop_gap zero (x ∷ pre) done k m e f = absurd (omega arith)
clear_loop_gap (suc n) pre done k m e f =
    let (ys, y, p, q) = snoc_view pre n e in
    let count = ap full_rows p ∙ full_rows-append ys (y ∷ []) in
    rw (p, clear_step_gap n ys done y k q, keep_rows-append ys (y ∷ []))
      (elim (Bool-cases (is_row_full y)) [
        | inl full ↦
            rw (full, append-nil) (clear_loop_gap n ys done (suc k) m q (ground (arith, count)))
        | inr kept ↦
            rw (kept, append_assoc) (clear_loop_gap n ys (y ∷ done) k m q (ground (arith, count)))
      ])

-- On a board of the right height `ClearFullRows` drops the full rows, keeps the others in their
-- order, puts as many empty rows on top, and returns how many rows it removed.
pub clear_full_rows_lem :
    (grid : SimGrid)
    → length grid ≡ k_rows
    → clear_full_rows grid
      ≡ (replicate (full_rows grid) empty_row ++ keep_rows grid, full_rows grid)
unfolding clear_full_rows
clear_full_rows_lem grid h =
    simp append-nil at (clear_loop_gap k_rows grid [] 0 (full_rows grid) h (omega arith))

keep_rows_none : (grid : SimGrid) → full_rows grid ≡ 0 → keep_rows grid ≡ grid
unfolding keep_rows full_rows
keep_rows_none [] h = refl
keep_rows_none (row ∷ grid) h = ground (arith, keep_rows_none grid)

-- Where no row is removed the board is as before.
pub clear_full_rows_none :
    (grid : SimGrid)
    → length grid ≡ k_rows
    → (clear_full_rows grid).1 ≡ 0
    → (clear_full_rows grid).0 ≡ grid
clear_full_rows_none grid h = rw (clear_full_rows_lem grid h) (λ e. rw e (keep_rows_none grid e))
