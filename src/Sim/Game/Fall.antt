-- ===== src/Sim/Game/Fall.antt =====
-- The tests of src/sim_game.cpp on a block that is known to have tiles, and the drop loops of
-- `MoveBlockDrop`, `DropExpectation`, `LegalPlacements` and `ApplyPlacement`: they end, and leave
-- the block on the first obstacle.
use tetris_multiplayer_rl.Common.{
  if◌then◌else◌, Bool-cases, length, get_or, All, ℕ, zero, suc, ◌+◌, ◌≤◌, ◌<◌, ◌≡◌, refl, inl, inr,
  Bool, true, false, not, ◌&&◌, some, List, [], ◌∷◌, map, arith,
}
use tetris_multiplayer_rl.Common.Int.{ℤ, pos, negsuc, ◌+ℤ◌}
use tetris_multiplayer_rl.Sim.Grid.{SimGrid, k_rows, is_cell_outside}
use tetris_multiplayer_rl.Sim.Block.{SimBlock, move, Position, moved_tile}
use tetris_multiplayer_rl.Sim.Block.Laws.{
  IsBlock, tiles, shape_of, get_cell_positions_lem, move-IsBlock, up-down,
}
use tetris_multiplayer_rl.Sim.Game.Moves.{fall, drop_to_floor, fall_fuel}
use tetris_multiplayer_rl.Sim.Game.State.{
  can_stand, any_outside, is_block_outside, all_empty, block_fits,
}

-- What `can_stand` answers on a block.
unfoldable pub stands : SimGrid → SimBlock → Bool
stands grid b = not (any_outside (tiles b)) && all_empty grid (tiles b)

pub is_block_outside_lem :
    (b : SimBlock) → IsBlock b → is_block_outside b ≡ some (any_outside (tiles b))
unfolding is_block_outside
is_block_outside_lem b v = rw (get_cell_positions_lem b v)

pub block_fits_lem :
    (grid : SimGrid) (b : SimBlock)
    → IsBlock b
    → block_fits grid b ≡ some (all_empty grid (tiles b))
unfolding block_fits
block_fits_lem grid b v = rw (get_cell_positions_lem b v)

pub can_stand_lem :
    (grid : SimGrid) (b : SimBlock) → IsBlock b → can_stand grid b ≡ some (stands grid b)
unfolding can_stand stands
can_stand_lem grid b v = rw (is_block_outside_lem b v, block_fits_lem grid b v)

-- A block whose tiles are all on the board.
pub record IsInside (b : SimBlock) : Type 0 where
  pub block : IsBlock b
  pub inside : any_outside (tiles b) ≡ false

pub stands-IsInside :
    (grid : SimGrid) (b : SimBlock) → IsBlock b → stands grid b ≡ true → IsInside b
unfolding stands
stands-IsInside grid b v h = record { block = v; inside = ground arith }

-- The row of the first tile.
top : SimBlock → ℤ
top b = elim (shape_of b) [ [] ↦ pos 0 | item ∷ rest ↦ item.row +ℤ b.row_offset ]

any_outside_first :
    (item : Position) (rest : List Position)
    → any_outside (item ∷ rest) ≡ false
    → (t : ℕ) × (item.row ≡ pos t) × (t < k_rows)
unfolding any_outside is_cell_outside
any_outside_first item rest h = go item.row item.column h
  where
    go :
        (r c : ℤ)
        → (if is_cell_outside r c then true else any_outside rest) ≡ false
        → (t : ℕ) × (r ≡ pos t) × (t < k_rows)
    go (pos t) c h = (t, refl, ground arith)
    go (negsuc t) c h = absurd (ground arith)

shape_of_cons :
    (xs : List (List Position)) (i : ℕ)
    → All (λ tiles. 0 < length tiles) xs
    → i < length xs
    → 0 < length (get_or xs i [])
shape_of_cons [] i a h = absurd (omega arith)
shape_of_cons (x ∷ xs) zero (p, a) h = p
shape_of_cons (x ∷ xs) (suc i) (p, a) h = shape_of_cons xs i a (omega arith)

stands-top :
    (grid : SimGrid) (b : SimBlock)
    → IsBlock b
    → stands grid b ≡ true
    → (t : ℕ) × (top b ≡ pos t) × (t < k_rows)
unfolding stands tiles top
stands-top grid b v h =
    go (shape_of b)
      (shape_of_cons b.cells b.rotation_state v.tiled (omega (arith, v.states, v.state)))
      (ground arith)
  where
    go :
        (shape : List Position)
        → 0 < length shape
        → any_outside (map (moved_tile b.row_offset b.column_offset) shape) ≡ false
        → (t : ℕ) × ((elim shape [ [] ↦ pos 0 | item ∷ rest ↦ item.row +ℤ b.row_offset ]) ≡ pos t)
          × (t < k_rows)
    go [] p h = absurd (omega arith)
    go (item ∷ rest) p h =
        any_outside_first (moved_tile b.row_offset b.column_offset item)
          (map (moved_tile b.row_offset b.column_offset) rest) h

+ℤ_step : (a b : ℤ) (t : ℕ) → a +ℤ b ≡ pos t → a +ℤ (b +ℤ pos 1) ≡ pos (suc t)
unfolding ◌+ℤ◌
+ℤ_step a b t h = ground arith

top-down :
    (b : SimBlock) (t : ℕ) → IsBlock b → top b ≡ pos t → top (move (pos 1) (pos 0) b) ≡ pos (suc t)
unfolding top move
top-down b t v =
    go (shape_of b)
      (shape_of_cons b.cells b.rotation_state v.tiled (omega (arith, v.states, v.state)))
  where
    go :
        (shape : List Position)
        → 0 < length shape
        → (elim shape [ [] ↦ pos 0 | item ∷ rest ↦ item.row +ℤ b.row_offset ]) ≡ pos t
        → (elim shape [ [] ↦ pos 0 | item ∷ rest ↦ item.row +ℤ (b.row_offset +ℤ pos 1) ])
          ≡ pos (suc t)
    go [] p e = absurd (omega arith)
    go (item ∷ rest) p e = +ℤ_step item.row b.row_offset t e

-- A block `n` rows further down.
unfoldable pub down : ℕ → SimBlock → SimBlock
down zero b = b
down (suc n) b = down n (move (pos 1) (pos 0) b)

-- `landed` is `b` moved down past free places only, onto an obstacle.
pub record Rests (grid : SimGrid) (b landed : SimBlock) : Type 0 where
  pub rows : ℕ
  pub moved : landed ≡ down rows b
  pub free : (i : ℕ) → i ≤ rows → stands grid (down i b) ≡ true
  pub block : IsBlock landed
  pub stops : stands grid (move (pos 1) (pos 0) landed) ≡ false

pub down-IsBlock : (n : ℕ) (b : SimBlock) → IsBlock b → IsBlock (down n b)
unfolding down
down-IsBlock zero b v = v
down-IsBlock (suc n) b v =
    down-IsBlock n (move (pos 1) (pos 0) b) (move-IsBlock (pos 1) (pos 0) b v)

-- The loop from a block that stands, with fuel for the rows below it.
fall_lem :
    (fuel t : ℕ) (grid : SimGrid) (b : SimBlock)
    → IsBlock b
    → stands grid b ≡ true
    → top b ≡ pos t
    → k_rows < t + fuel
    → (landed : SimBlock) × (fall fuel grid b ≡ some (move (pos 1) (pos 0) landed))
      × Rests grid b landed
unfolding fall down
fall_lem zero t grid b v h e f =
    let (t', e', l) = stands-top grid b v h in absurd (ground (arith, e, e', l))
fall_lem (suc zero) t grid b v h e f =
    let (t', e', l) = stands-top grid b v h in absurd (ground (arith, e, e', l))
fall_lem (suc (suc fuel)) t grid b v h e f =
    let next = move (pos 1) (pos 0) b in
    let v' = move-IsBlock (pos 1) (pos 0) b v in
    elim (Bool-cases (stands grid next)) [
      | inl on ↦
          let (landed, r, rest) =
            fall_lem (suc fuel) (suc t) grid next v' on (top-down b t v e) (omega arith) in
          (
            landed,
            rw (can_stand_lem grid b v, h) r,
            record {
              rows = suc rest.rows;
              moved = rest.moved;
              free = elim [ zero ↦ λ p. h | suc i ↦ λ p. rest.free i (omega arith) ];
              block = rest.block;
              stops = rest.stops;
            },
          )
      | inr off ↦ (
        b,
        rw (can_stand_lem grid b v, h, can_stand_lem grid next v', off),
        record {
          rows = 0;
          moved = refl;
          free = elim [ zero ↦ λ p. h | suc i ↦ λ p. absurd (omega arith) ];
          block = v;
          stops = off;
        },
      )
    ]

-- From a place where the block stands, the drop ends: the block rests on the first obstacle below.
pub drop_to_floor_lem :
    (grid : SimGrid) (b : SimBlock)
    → IsBlock b
    → stands grid b ≡ true
    → (landed : SimBlock) × (drop_to_floor grid b ≡ some landed) × Rests grid b landed
unfolding drop_to_floor
drop_to_floor_lem grid b v h =
    let (t, e, l) = stands-top grid b v h in
    let (landed, r, rest) = fall_lem fall_fuel t grid b v h e (omega arith) in
    (landed, rw (r, up-down landed), rest)

-- From a place where it does not stand, the drop moves the block one row up.
pub drop_to_floor_blocked :
    (grid : SimGrid) (b : SimBlock)
    → IsBlock b
    → stands grid b ≡ false
    → drop_to_floor grid b ≡ some (move (negsuc 0) (pos 0) b)
unfolding drop_to_floor fall
drop_to_floor_blocked grid b v h = rw (can_stand_lem grid b v, h)
