-- ===== src/Sim/Game/Safety.antt =====
-- The frame-level actions of src/sim_game.cpp under the invariant: which of them can leave the board
-- or throw, and what they keep.
use tetris_multiplayer_rl.Sim.Game.Lock.{lock_block}
use tetris_multiplayer_rl.Common.{
  Bool-cases, ◌>>=◌, ◌≡◌, refl, ◌∙◌, inl, inr, true, false, Option, some, arith,
}
use tetris_multiplayer_rl.Common.Int.{ℤ, pos, negsuc}
use tetris_multiplayer_rl.Sim.Block.{SimBlock, move, rotate}
use tetris_multiplayer_rl.Sim.Block.Laws.{
  IsBlock, move-IsBlock, rotate-IsBlock, undo_rotation-rotate, up-down,
}
use tetris_multiplayer_rl.Sim.Game.State.{SimGame, make_ghost_block}
use tetris_multiplayer_rl.Sim.Game.Moves.{
  shift_block, move_block_down, rotate_block_impl, drop_to_floor, move_block_drop, drop_expectation,
}
use tetris_multiplayer_rl.Sim.Game.Fall.{
  stands, can_stand_lem, IsInside, stands-IsInside, drop_to_floor_lem, drop_to_floor_blocked,
}
use tetris_multiplayer_rl.Sim.Game.Valid.{IsValid}
use tetris_multiplayer_rl.Sim.Game.Locking.{IsReady, lock_block_lem}

-- The action ends without a fault, in a state with the property.
pub record Returns (P : SimGame → Type 0) (r : Option SimGame) : Type 0 where
  pub next : SimGame
  pub returns : r ≡ some next
  pub holds : P next

pub Returns-bind :
    (P Q : SimGame → Type 0) (r : Option SimGame) (f : SimGame → Option SimGame)
    → Returns P r
    → ((g : SimGame) → P g → Returns Q (f g))
    → Returns Q (r >>= f)
Returns-bind P Q r f a k =
    let b = k a.next a.holds in
    record { next = b.next; returns = rw a.returns b.returns; holds = b.holds }

-- The invariant, and a current block on free cells unless the game is over.
pub record IsPlayable (g : SimGame) : Type 0 where
  pub valid : IsValid g
  pub ready : IsReady g

-- The current block and its ghost are replaced.
pub with_block :
    {g : SimGame} (h : SimGame)
    → IsValid g
    → IsInside h.current_block
    → IsBlock h.ghost_block
    → h.sim_grid ≡ g.sim_grid
    → h.next_blocks ≡ g.next_blocks
    → h.blocks ≡ g.blocks
    → IsValid h
with_block h v c gh e q b = record {
  grid = rw e v.grid;
  current = c;
  ghost = gh;
  queued = rw q v.queued;
  queue = rw q v.queue;
  bag_size = rw b v.bag_size;
  bag = rw b v.bag;
}

pub ghost-IsBlock : (b : SimBlock) → IsBlock b → IsBlock (make_ghost_block b)
unfolding make_ghost_block
ghost-IsBlock b v = record { states = v.states; state = v.state; tiled = v.tiled }

module _ (g : SimGame) (v : IsValid g) where
  -- A sideways move keeps the invariant, and keeps the block on free cells.
  pub shift_block_lem :
      (step undo : ℤ)
      → move (pos 0) undo (move (pos 0) step g.current_block) ≡ g.current_block
      → Returns (λ h. IsValid h × (IsReady g → IsReady h)) (shift_block step undo g)
  unfolding shift_block
  shift_block_lem step undo back =
      let moved = move (pos 0) step g.current_block in
      let block = move-IsBlock (pos 0) step g.current_block v.current.block in
      elim (Bool-cases (stands g.sim_grid moved)) [
        | inl on ↦ record {
          next = record g {
            current_block = moved;
            ghost_block = make_ghost_block moved;
            last_move_was_rotate = false;
          };
          returns = rw (can_stand_lem g.sim_grid moved block, on);
          holds = (
            with_block {g = g} _ v (stands-IsInside g.sim_grid moved block on)
                (ghost-IsBlock moved block) refl refl refl,
            λ _ _. on,
          );
        }
        | inr off ↦ record {
          next = g;
          returns = rw (can_stand_lem g.sim_grid moved block, off, back);
          holds = (v, λ ready. ready);
        }
      ]

  pub rotate_lem : Returns (λ h. IsValid h × (IsReady g → IsReady h)) (rotate_block_impl g)
  unfolding rotate_block_impl
  rotate_lem =
      let turned = rotate g.current_block in
      let block = rotate-IsBlock g.current_block v.current.block in
      elim (Bool-cases g.game_over) [
        | inl over ↦ record { next = g; returns = rw over; holds = (v, λ ready. ready) }
        | inr live ↦ elim (Bool-cases (stands g.sim_grid turned)) [
          | inl on ↦ record {
            next = record g {
              current_block = turned;
              ghost_block = make_ghost_block turned;
              last_move_was_rotate = true;
              rotate_sound_event = true;
            };
            returns = rw (live, can_stand_lem g.sim_grid turned block, on);
            holds = (
              with_block {g = g} _ v (stands-IsInside g.sim_grid turned block on)
                  (ghost-IsBlock turned block) refl refl refl,
              λ _ _. on,
            );
          }
          | inr off ↦ record {
            next = g;
            returns = rw (
              live,
              can_stand_lem g.sim_grid turned block,
              off,
              undo_rotation-rotate g.current_block v.current.block,
            );
            holds = (v, λ ready. ready);
          }
        ]
      ]

  moved_down-IsBlock : IsBlock (move (pos 1) (pos 0) g.current_block)
  moved_down-IsBlock = move-IsBlock (pos 1) (pos 0) g.current_block v.current.block

  -- A block that cannot go down is locked where it is.
  down-lock :
      g.game_over ≡ false
      → stands g.sim_grid (move (pos 1) (pos 0) g.current_block) ≡ false
      → move_block_down g ≡ lock_block g
  unfolding move_block_down
  down-lock live off =
      let moved = move (pos 1) (pos 0) g.current_block in
      let locks : move_block_down g
          ≡ lock_block (record g { current_block = move (negsuc 0) (pos 0) moved }) =
        rw (live, can_stand_lem g.sim_grid moved moved_down-IsBlock, off) in
      locks ∙ (λ i. lock_block (record g { current_block = up-down g.current_block i }))

  pub down_lem : Returns IsValid (move_block_down g)
  down_lem =
      let moved = move (pos 1) (pos 0) g.current_block in
      elim (Bool-cases g.game_over) [
        | inl over ↦ record { next = g; returns = unfold move_block_down in rw over; holds = v }
        | inr live ↦ elim (Bool-cases (stands g.sim_grid moved)) [
          | inl on ↦ record {
            next = record g { current_block = moved; last_move_was_rotate = false };
            returns =
                unfold move_block_down in
                rw (live, can_stand_lem g.sim_grid moved moved_down-IsBlock, on);
            holds =
                with_block {g = g} _ v (stands-IsInside g.sim_grid moved moved_down-IsBlock on)
                  v.ghost refl refl refl;
          }
          | inr off ↦
              let (h, e, v', _, _) = lock_block_lem g v in
              record { next = h; returns = down-lock live off ∙ e; holds = v' }
        ]
      ]

  -- The state that `MoveBlockDrop` locks, for a landed block.
  abbrev pub dropped : SimBlock → SimGame
  dropped landed = record g {
    current_block = landed;
    drop_sound_event = true;
    hard_drop_event = true;
  }

  pub drop-lock :
      (landed : SimBlock)
      → g.game_over ≡ false
      → drop_to_floor g.sim_grid g.current_block ≡ some landed
      → move_block_drop g ≡ lock_block (dropped landed)
  unfolding move_block_drop
  drop-lock landed live e = rw (live, e)

  pub drop_lem : IsReady g → Returns IsValid (move_block_drop g)
  drop_lem ready = elim (Bool-cases g.game_over) [
    | inl over ↦ record { next = g; returns = unfold move_block_drop in rw over; holds = v }
    | inr live ↦
        let (landed, e, rests) =
          drop_to_floor_lem g.sim_grid g.current_block v.current.block (ready live) in
        let on : stands g.sim_grid landed ≡ true =
          rw rests.moved (rests.free rests.rows (omega arith)) in
        let (h, r, v', _, _) = lock_block_lem (dropped landed) (
          with_block {g = g} _ v (stands-IsInside g.sim_grid landed rests.block on) v.ghost refl
            refl refl) in
        record { next = h; returns = drop-lock landed live e ∙ r; holds = v' }
  ]

  -- The ghost has no writes: its drop always ends.
  pub expectation_lem : Returns IsValid (drop_expectation g)
  unfolding drop_expectation
  expectation_lem = elim (Bool-cases g.game_over) [
    | inl over ↦ record { next = g; returns = rw over; holds = v }
    | inr live ↦ elim (Bool-cases (stands g.sim_grid g.ghost_block)) [
      | inl on ↦
          let (landed, e, rests) = drop_to_floor_lem g.sim_grid g.ghost_block v.ghost on in
          record {
            next = record g { ghost_block = landed };
            returns = rw (live, e);
            holds = with_block {g = g} _ v v.current rests.block refl refl refl;
          }
      | inr off ↦ record {
        next = record g { ghost_block = move (negsuc 0) (pos 0) g.ghost_block };
        returns = rw (live, drop_to_floor_blocked g.sim_grid g.ghost_block v.ghost off);
        holds =
            with_block {g = g} _ v v.current (move-IsBlock (negsuc 0) (pos 0) g.ghost_block v.ghost)
              refl refl refl;
      }
    ]
  ]
