-- ===== src/Sim/Game/Valid.antt =====
-- The invariant of src/sim_game.cpp's state, and the draw of the next block under it.
use tetris_multiplayer_rl.Common.{
  suc-==-zero, length, get_elem?, All, u32, ℕ, zero, suc, ◌≤◌, ◌<◌, ◌≡◌, refl, false, some, List,
  [], ◌∷◌, arith,
}
use tetris_multiplayer_rl.Common.Int.{◌+ℤ◌}
use tetris_multiplayer_rl.Sim.Rng.{next_u_int}
use tetris_multiplayer_rl.Sim.Grid.{is_cell_outside}
use tetris_multiplayer_rl.Sim.Grid.Shape.{IsGrid}
use tetris_multiplayer_rl.Sim.Block.{
  SimBlock, sim_l_block, sim_j_block, sim_i_block, sim_o_block, sim_s_block, sim_t_block,
  sim_z_block,
}
use tetris_multiplayer_rl.Sim.Block.Laws.{IsBlock, tiles}
use tetris_multiplayer_rl.Sim.Game.State.{
  SimGame, refill, k_next_preview_count, any_outside, get_all_blocks, erase_at, Draw,
  get_random_block,
}
use tetris_multiplayer_rl.Sim.Game.Fall.{IsInside}

-- The board has its shape, the current block is on it, and the queue and the bag hold blocks that
-- enter on it.
pub record IsValid (g : SimGame) : Type 0 where
  pub grid : IsGrid g.sim_grid
  pub current : IsInside g.current_block
  pub ghost : IsBlock g.ghost_block
  pub queued : length g.next_blocks ≡ k_next_preview_count
  pub queue : All IsInside g.next_blocks
  pub bag_size : length g.blocks ≤ 7
  pub bag : All IsInside g.blocks

-- Each factory's block enters on the board, in the state 0 of four.
enters :
    (b : SimBlock)
    → length b.cells ≡ 4
    → b.rotation_state < 4
    → All (λ tiles. 0 < length tiles) b.cells
    → any_outside (tiles b) ≡ false
    → IsInside b
enters b c s t h = record { block = record { states = c; state = s; tiled = t }; inside = h }

pub get_all_blocks-IsInside : All IsInside get_all_blocks
unfolding get_all_blocks sim_i_block sim_j_block sim_l_block sim_o_block sim_s_block sim_t_block
    sim_z_block tiles any_outside is_cell_outside ◌+ℤ◌
get_all_blocks-IsInside = (
  enters sim_i_block refl (omega arith) (omega arith) refl,
  (
    enters sim_j_block refl (omega arith) (omega arith) refl,
    (
      enters sim_l_block refl (omega arith) (omega arith) refl,
      (
        enters sim_o_block refl (omega arith) (omega arith) refl,
        (
          enters sim_s_block refl (omega arith) (omega arith) refl,
          (
            enters sim_t_block refl (omega arith) (omega arith) refl,
            (enters sim_z_block refl (omega arith) (omega arith) refl, tt),
          ),
        ),
      ),
    ),
  ),
)

-- What a draw under the invariant yields.
pub record Drawn (bag : List SimBlock) (rng : ℕ) : Type 0 where
  pub draw : Draw
  pub returns : get_random_block bag rng ≡ some draw
  pub block : IsInside draw.block
  pub size : length draw.bag ≤ 7
  pub rest : All IsInside draw.bag

module _ {ℓ} {A : Type ℓ} where
  length-erase_at : (xs : List A) (i : ℕ) → length (erase_at i xs) ≤ length xs
  unfolding erase_at
  length-erase_at [] i = omega arith
  length-erase_at (x ∷ xs) zero = omega arith
  length-erase_at (x ∷ xs) (suc i) = omega (arith, length-erase_at xs i)

  All-erase_at {κ} : (P : A → Type κ) (xs : List A) (i : ℕ) → All P xs → All P (erase_at i xs)
  unfolding erase_at
  All-erase_at P [] i h = h
  All-erase_at P (x ∷ xs) zero (p, h) = h
  All-erase_at P (x ∷ xs) (suc i) (p, h) = (p, All-erase_at P xs i h)

  All-get_elem? {κ} :
      (P : A → Type κ) (xs : List A) (i : ℕ)
      → All P xs
      → i < length xs
      → (x : A) × (get_elem? xs i ≡ some x) × P x
  All-get_elem? P [] i h l = absurd (omega arith)
  All-get_elem? P (x ∷ xs) zero (p, h) l = (x, refl, p)
  All-get_elem? P (x ∷ xs) (suc i) (p, h) l = All-get_elem? P xs i h (omega arith)

pub next_u_int-lt : (max rng : ℕ) → 0 < max → (next_u_int max rng).0 < max
unfolding next_u_int
next_u_int-lt zero rng h = absurd (omega arith)
next_u_int-lt (suc m) rng h = rw (suc-==-zero m) (omega arith)

refill-size :
    (bag : List SimBlock) → length bag ≤ 7 → (0 < length (refill bag)) × (length (refill bag) ≤ 7)
unfolding refill
refill-size [] h = omega arith
refill-size (b ∷ bag) h = omega arith

refill-IsInside : (bag : List SimBlock) → All IsInside bag → All IsInside (refill bag)
refill-IsInside [] h = unfold refill in get_all_blocks-IsInside
refill-IsInside (b ∷ bag) h = unfold refill in h

pub get_random_block_lem :
    (bag : List SimBlock) (rng : ℕ) → length bag ≤ 7 → All IsInside bag → Drawn bag rng
get_random_block_lem bag rng h a =
    let full = refill bag in
    let (filled, size) = refill-size bag h in
    let inside = refill-IsInside bag a in
    let small : u32 (length full) ≡ length full = omega arith in
    let i = (next_u_int (u32 (length full)) rng).0 in
    let (b, e, p) =
      All-get_elem? IsInside full i inside (rw small (next_u_int-lt (length full) rng filled)) in
    record {
      draw = record {
        block = b;
        bag = erase_at i full;
        rng = (next_u_int (u32 (length full)) rng).1;
      };
      returns = unfold get_random_block in rw e;
      block = p;
      size = omega (arith, length-erase_at full i);
      rest = All-erase_at IsInside full i inside;
    }
