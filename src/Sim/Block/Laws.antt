-- ===== src/Sim/Block/Laws.antt =====
-- Laws of the falling block of src/sim_block.h: what a block is, and its moves and turns.
use tetris_multiplayer_rl.Common.{
  ◌==◌, if◌then◌else◌, length, get_elem?, get_or, All, ℕ, zero, suc, ◌+◌, ◌<◌, ◌≡◌, refl, ◌∙◌, some,
  List, [], ◌∷◌, map, arith,
}
use tetris_multiplayer_rl.Common.Int.{ℤ, pos, negsuc, ◌+ℤ◌, +ℤ_back, +ℤ_forth, +ℤ-zero}
use tetris_multiplayer_rl.Sim.Block.{
  SimBlock, move, rotate, Position, moved_tile, get_cell_positions, undo_state, undo_rotation,
}

-- Four rotation states with tiles in each, the current state one of them.
pub record IsBlock (b : SimBlock) : Type 0 where
  pub states : length b.cells ≡ 4
  pub state : b.rotation_state < 4
  pub tiled : All (λ tiles. 0 < length tiles) b.cells

-- The tiles of the current state, moved to the block's place.
abbrev pub shape_of : SimBlock → List Position
shape_of b = get_or b.cells b.rotation_state []

unfoldable pub tiles : SimBlock → List Position
tiles b = map (moved_tile b.row_offset b.column_offset) (shape_of b)

get_elem?-get_or {ℓ} :
    {A : Type ℓ} (xs : List A) (i : ℕ) (d : A)
    → i < length xs
    → get_elem? xs i ≡ some (get_or xs i d)
get_elem?-get_or [] i d h = absurd (omega arith)
get_elem?-get_or (x ∷ xs) zero d h = refl
get_elem?-get_or (x ∷ xs) (suc i) d h = get_elem?-get_or xs i d (omega arith)

-- `cells.at` does not throw on a block.
pub get_cell_positions_lem : (b : SimBlock) → IsBlock b → get_cell_positions b ≡ some (tiles b)
unfolding get_cell_positions tiles
get_cell_positions_lem b v =
    rw (get_elem?-get_or b.cells b.rotation_state [] (omega (arith, v.states, v.state)))

pub move-IsBlock : (r c : ℤ) (b : SimBlock) → IsBlock b → IsBlock (move r c b)
unfolding move
move-IsBlock r c b v = record { states = v.states; state = v.state; tiled = v.tiled }

pub rotate-IsBlock : (b : SimBlock) → IsBlock b → IsBlock (rotate b)
unfolding rotate
rotate-IsBlock b v = record {
  states = v.states;
  state = ground (arith, v.states, v.state);
  tiled = v.tiled;
}

undo_state_back : (r : ℕ) → r < 4 → undo_state 4 (if r + 1 == 4 then 0 else r + 1) ≡ r
undo_state_back zero h = refl
undo_state_back (suc zero) h = refl
undo_state_back (suc (suc zero)) h = refl
undo_state_back (suc (suc (suc zero))) h = refl
undo_state_back (suc (suc (suc (suc r)))) h = absurd (omega arith)

-- Taking a turn back restores the block, from every state.
pub undo_rotation-rotate : (b : SimBlock) → IsBlock b → undo_rotation (rotate b) ≡ b
unfolding undo_rotation rotate
undo_rotation-rotate b v =
    let e = undo_state_back b.rotation_state v.state in
    let restored : undo_state (length b.cells)
          (if b.rotation_state + 1 == length b.cells then 0 else b.rotation_state + 1)
        ≡ b.rotation_state =
      rw v.states e in
    λ i. record b { rotation_state = restored i }

pub move_back :
    (r c r' c' : ℤ) (b : SimBlock)
    → b.row_offset +ℤ r +ℤ r' ≡ b.row_offset
    → b.column_offset +ℤ c +ℤ c' ≡ b.column_offset
    → move r' c' (move r c b) ≡ b
unfolding move
move_back r c r' c' b p q = λ i. record b { row_offset = p i; column_offset = q i }

-- A step down is taken back by a step up, and a step sideways by its opposite.
pub up-down : (b : SimBlock) → move (negsuc 0) (pos 0) (move (pos 1) (pos 0) b) ≡ b
up-down b =
    move_back (pos 1) (pos 0) (negsuc 0) (pos 0) b (+ℤ_back b.row_offset 0)
      (+ℤ-zero (b.column_offset +ℤ pos 0) ∙ +ℤ-zero b.column_offset)

pub right-left : (b : SimBlock) → move (pos 0) (pos 1) (move (pos 0) (negsuc 0) b) ≡ b
right-left b =
    move_back (pos 0) (negsuc 0) (pos 0) (pos 1) b
      (+ℤ-zero (b.row_offset +ℤ pos 0) ∙ +ℤ-zero b.row_offset) (+ℤ_forth b.column_offset 0)

pub left-right : (b : SimBlock) → move (pos 0) (negsuc 0) (move (pos 0) (pos 1) b) ≡ b
left-right b =
    move_back (pos 0) (pos 1) (pos 0) (negsuc 0) b
      (+ℤ-zero (b.row_offset +ℤ pos 0) ∙ +ℤ-zero b.row_offset) (+ℤ_back b.column_offset 0)
