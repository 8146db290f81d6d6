-- ===== src/Sim/Game/Garbage.antt =====
-- `InsertGarbage` of src/sim_game.cpp against its specification: the in-place copy and the fill
-- push the board up by the number of rows, over rows of garbage with one hole.
use tetris_multiplayer_rl.Common.{
  ltb, ltb→lt, Bool-cases, suc-==-zero, length, get_or, drop, replicate, length-append,
  length-replicate, length-drop, All-append, All-replicate, All-drop, set-append_length, snoc_view,
  get_or-append_add, drop_step, drop_all, min, ℕ, zero, suc, ◌+◌, ◌-◌, ◌≤◌, ◌<◌, ◌≡◌, refl, sym, ap,
  ◌∙◌, inl, inr, List, [], ◌∷◌, ◌++◌, arith,
}
use tetris_multiplayer_rl.Sim.Grid.{SimGrid, k_rows, k_cols}
use tetris_multiplayer_rl.Sim.Rng.{next_u_int}
use tetris_multiplayer_rl.Sim.Grid.Shape.{IsGrid, IsRow}
use tetris_multiplayer_rl.Sim.Game.Lock.{shift_up, garbage_row, fill_garbage, insert_garbage}
use mathlib.Core.List.{append_assoc, append-nil}
use native.Mathlib.Numerals.{add-one}

-- The copy loop, behind the rows `pre` that are done.
shift_up_step :
    (n r r' : ℕ) (pre suf : SimGrid) (y : List ℕ)
    → length pre ≡ r
    → shift_up (suc n) r (suc r') (pre ++ y ∷ suf)
      ≡ shift_up n (r + 1) (suc r') ((pre ++ get_or suf r' [] ∷ []) ++ suf)
unfolding shift_up
shift_up_step n r r' pre suf y p = rw (
  ← p,
  get_or-append_add pre (y ∷ suf) (suc r') [],
  set-append_length pre suf y (get_or suf r' []),
  append_assoc pre (get_or suf r' [] ∷ []) suf,
)

shift_up_lem :
    (n r r' : ℕ) (pre suf : SimGrid)
    → length pre ≡ r
    → length suf ≡ n + suc r'
    → (junk : SimGrid) × (shift_up n r (suc r') (pre ++ suf) ≡ pre ++ (drop (suc r') suf ++ junk))
      × (length junk ≡ suc r')
shift_up_lem zero r r' pre suf p q =
    (suf, unfold shift_up in rw (drop_all (suc r') suf (omega arith)), omega arith)
shift_up_lem (suc n) r r' pre [] p q = absurd (omega arith)
shift_up_lem (suc n) r r' pre (y ∷ suf) p q =
    let z = get_or suf r' [] in
    let (junk, e, l) =
      shift_up_lem n (r + 1) r' (pre ++ z ∷ []) suf (omega (arith, length-append pre (z ∷ [])))
        (omega arith) in
    (
      junk,
      shift_up_step n r r' pre suf y p
          ∙ (e
              ∙ (append_assoc pre (z ∷ []) (drop (suc r') suf ++ junk)
                  ∙ ap (λ t. pre ++ (t ++ junk)) (sym (drop_step suf r' [] (omega arith))))),
      l,
    )

abbrev garbage_rows : ℕ → ℕ → SimGrid
garbage_rows n hole = replicate n (garbage_row k_cols 0 hole)

-- The fill loop: `i` rows are done, `mid` is to be overwritten.
fill_step :
    (n i hole : ℕ) (pre ys : SimGrid) (y : List ℕ)
    → length pre + suc (length ys) + i ≡ k_rows
    → fill_garbage (suc n) i hole (pre ++ ((ys ++ y ∷ []) ++ garbage_rows i hole))
      ≡ fill_garbage n (i + 1) hole (pre ++ (ys ++ garbage_rows (i + 1) hole))
unfolding fill_garbage
fill_step n i hole pre ys y q =
    let at_end : 19 - i ≡ length (pre ++ ys) = omega (arith, length-append pre ys) in
    let row = garbage_row k_cols 0 hole in
    rw (
      append_assoc ys (y ∷ []) (garbage_rows i hole),
      ← append_assoc pre ys (y ∷ garbage_rows i hole),
      at_end,
      set-append_length (pre ++ ys) (garbage_rows i hole) y row,
      add-one,
      append_assoc pre ys (row ∷ garbage_rows i hole),
    )

fill_garbage_lem :
    (n i hole : ℕ) (pre mid : SimGrid)
    → length mid ≡ n
    → length pre + n + i ≡ k_rows
    → fill_garbage n i hole (pre ++ (mid ++ garbage_rows i hole)) ≡ pre ++ garbage_rows (n + i) hole
fill_garbage_lem zero i hole pre [] p q =
    let e : 0 + i ≡ i = omega arith in rw e (unfold fill_garbage in refl)
fill_garbage_lem zero i hole pre (x ∷ mid) p q = absurd (omega arith)
fill_garbage_lem (suc n) i hole pre mid p q =
    let (ys, y, m, l) = snoc_view mid n p in
    let count : n + (i + 1) ≡ suc n + i = omega arith in
    rw m (fill_step n i hole pre ys y (omega arith))
    ∙ (fill_garbage_lem n (i + 1) hole pre ys l (omega arith)
        ∙ ap (λ t. pre ++ garbage_rows t hole) count)

-- The hole that a batch of garbage draws.
abbrev pub hole_of : ℕ → ℕ
hole_of garbage_rng = (next_u_int k_cols garbage_rng).0

-- What a batch leaves: the board moved up, and at most 20 rows of garbage that share one hole.
abbrev pub pushed_up : ℕ → SimGrid → ℕ → SimGrid
pushed_up rows grid hole = drop rows grid ++ replicate rows (garbage_row k_cols 0 hole)

inserted :
    (r hole : ℕ) (grid : SimGrid)
    → suc r ≤ k_rows
    → length grid ≡ k_rows
    → fill_garbage (suc r) 0 hole (shift_up (k_rows - suc r) 0 (suc r) grid)
      ≡ pushed_up (suc r) grid hole
inserted r hole grid h l =
    let (junk, e, m) = shift_up_lem (k_rows - suc r) 0 r [] grid refl (omega arith) in
    let kept = length-drop (suc r) grid in
    let count : suc r + 0 ≡ suc r = omega arith in
    ap (fill_garbage (suc r) 0 hole) (e ∙ ap (λ t. drop (suc r) grid ++ t) (sym (append-nil junk)))
    ∙ (fill_garbage_lem (suc r) 0 hole (drop (suc r) grid) junk m (omega arith)
        ∙ ap (λ t. drop (suc r) grid ++ garbage_rows t hole) count)

pub insert_garbage_lem :
    (rows garbage_rng : ℕ) (grid : SimGrid)
    → 0 < rows
    → length grid ≡ k_rows
    → insert_garbage rows grid garbage_rng
      ≡ (pushed_up (min rows k_rows) grid (hole_of garbage_rng), (next_u_int k_cols garbage_rng).1)
unfolding insert_garbage
insert_garbage_lem zero garbage_rng grid h l = absurd (omega arith)
insert_garbage_lem (suc r) garbage_rng grid h l = elim (Bool-cases (ltb k_rows (suc r))) [
  | inl big ↦
      let e : min (suc r) k_rows ≡ k_rows = omega (arith, ltb→lt k_rows (suc r) big) in
      rw (suc-==-zero r, big, e, inserted 19 (hole_of garbage_rng) grid (omega arith) l)
  | inr small ↦
      let fits : suc r ≤ k_rows = ground arith in
      let e : min (suc r) k_rows ≡ suc r = omega arith in
      rw (suc-==-zero r, small, e, inserted r (hole_of garbage_rng) grid fits l)
]

length-garbage_row : (n c hole : ℕ) → length (garbage_row n c hole) ≡ n
unfolding garbage_row
length-garbage_row zero c hole = refl
length-garbage_row (suc n) c hole = ap suc (length-garbage_row n (c + 1) hole)

-- Garbage keeps the shape of the board.
pub insert_garbage-IsGrid :
    (rows garbage_rng : ℕ) (grid : SimGrid)
    → IsGrid grid
    → IsGrid (insert_garbage rows grid garbage_rng).0
insert_garbage-IsGrid zero garbage_rng grid v = unfold insert_garbage in v
insert_garbage-IsGrid (suc r) garbage_rng grid v =
    let k = min (suc r) k_rows in
    let hole = hole_of garbage_rng in
    rw (insert_garbage_lem (suc r) garbage_rng grid (omega arith) v.height) (record {
      height = omega (
        arith,
        length-append (drop k grid) (garbage_rows k hole),
        length-drop k grid,
        length-replicate k (garbage_row k_cols 0 hole),
        v.height,
      );
      widths =
          All-append IsRow (drop k grid) (garbage_rows k hole) (All-drop IsRow k grid v.widths)
            (All-replicate IsRow k (garbage_row k_cols 0 hole) (length-garbage_row k_cols 0 hole));
    })
