-- ===== src/Sim/Game/Steps.antt =====
-- `SubmitInput` and `Tick` of src/sim_game.cpp: a tick of the lockstep game never leaves the board,
-- except by a hard drop of a block that does not stand on free cells.
use tetris_multiplayer_rl.Sim.Block.Laws.{left-right, right-left}
use tetris_multiplayer_rl.Common.Int.{pos, negsuc}
use tetris_multiplayer_rl.Sim.Game.Safety.{
  Returns, with_block, shift_block_lem, rotate_lem, down_lem, drop_lem, expectation_lem,
}
use tetris_multiplayer_rl.Sim.Game.Moves.{
  move_block_left, when, move_block_right, soft_drop_now, tick, input_drop, has_input, soft_drop,
  input_left, input_right, input_down, input_rotate, move_block_down, move_block_drop,
  rotate_block_impl, submit_input,
}
use tetris_multiplayer_rl.Sim.Game.Locking.{IsReady}
use tetris_multiplayer_rl.Sim.Game.Valid.{IsValid}
use tetris_multiplayer_rl.Sim.Game.State.{SimGame}
use tetris_multiplayer_rl.Common.{
  leb, ◌==◌, Bool-cases, if_false, ℕ, ◌+◌, ◌-◌, ◌≡◌, refl, ◌∙◌, inl, inr, Bool, true, false, Option,
}

module _ (g : SimGame) (v : IsValid g) where
  abbrev Kept : SimGame → Type 0
  Kept h = IsValid h × (IsReady g → IsReady h)

  left_lem : Returns Kept (move_block_left g)
  left_lem = elim (Bool-cases g.game_over) [
    | inl over ↦ record {
      next = g;
      returns = unfold move_block_left in rw over;
      holds = (v, λ ready. ready);
    }
    | inr live ↦
        let r = shift_block_lem g v (negsuc 0) (pos 1) (right-left g.current_block) in
        record {
          next = r.next;
          returns = unfold move_block_left in if_false _ _ live ∙ r.returns;
          holds = r.holds;
        }
  ]

  right_lem : Returns Kept (move_block_right g)
  right_lem = elim (Bool-cases g.game_over) [
    | inl over ↦ record {
      next = g;
      returns = unfold move_block_right in rw over;
      holds = (v, λ ready. ready);
    }
    | inr live ↦
        let r = shift_block_lem g v (pos 1) (negsuc 0) (left-right g.current_block) in
        record {
          next = r.next;
          returns = unfold move_block_right in if_false _ _ live ∙ r.returns;
          holds = r.holds;
        }
  ]

  when_lem :
      (b : Bool) (action : SimGame → Option SimGame)
      → Returns Kept (action g)
      → Returns Kept (when b action g)
  when_lem true action r = r
  when_lem false action r = record { next = g; returns = refl; holds = (v, λ ready. ready) }

  soft_drop_lem :
      (held : Bool)
      → Returns (λ h. IsValid h × (held ≡ false → IsReady g → IsReady h)) (soft_drop held g)
  unfolding soft_drop soft_drop_now
  soft_drop_lem false = record {
    next = record g { soft_drop_counter_ticks = 0 };
    returns = refl;
    holds = (with_block {g = g} _ v v.current v.ghost refl refl refl, λ _ ready. ready);
  }
  soft_drop_lem true = elim (Bool-cases (g.soft_drop_counter_ticks == 0)) [
    | inl now ↦
        let r = down_lem g v in
        record {
          next = record r.next { soft_drop_counter_ticks = 3 };
          returns = rw (now, r.returns);
          holds = (
            with_block {g = r.next} _ r.holds r.holds.current r.holds.ghost refl refl refl,
            λ e. cc,
          );
        }
    | inr wait ↦ record {
      next = record g { soft_drop_counter_ticks = g.soft_drop_counter_ticks - 1 };
      returns = rw wait;
      holds = (with_block {g = g} _ v v.current v.ghost refl refl refl, λ e. cc);
    }
  ]

-- One call of `SubmitInput` on a valid state returns a valid state, with no write outside the board
-- and no exception, for every mask without the hard drop, and for a mask with it where the block
-- stands on free cells or the game is over, and the soft drop is not held.
pub submit_input-IsValid :
    (mask : ℕ) (g : SimGame)
    → IsValid g
    → (has_input mask input_drop ≡ true → IsReady g × (has_input mask input_down ≡ false))
    → Returns IsValid (submit_input mask g)
submit_input-IsValid mask g v safe = elim (Bool-cases g.game_over) [
  | inl over ↦ record { next = g; returns = unfold submit_input in rw over; holds = v }
  | inr live ↦
      let a = when_lem g v (has_input mask input_left) move_block_left (left_lem g v) in
      let b =
        when_lem a.next a.holds.0 (has_input mask input_right) move_block_right
          (right_lem a.next a.holds.0) in
      let c = soft_drop_lem b.next b.holds.0 (has_input mask input_down) in
      let d =
        when_lem c.next c.holds.0 (has_input mask input_rotate) rotate_block_impl
          (rotate_lem c.next c.holds.0) in
      let e = drop_part d.next d.holds.0 (λ held.
        let (ready, up) = safe held in d.holds.1 (c.holds.1 up (b.holds.1 (a.holds.1 ready)))) in
      let f = expectation_lem e.next e.holds in
      record {
        next = f.next;
        returns =
            unfold submit_input in
            if_false _ _ live
            ∙ rw (a.returns, b.returns, c.returns, d.returns, e.returns) f.returns;
        holds = f.holds;
      }
]
  where
    drop_part :
        (h : SimGame)
        → IsValid h
        → (has_input mask input_drop ≡ true → IsReady h)
        → Returns IsValid (when (has_input mask input_drop) move_block_drop h)
    drop_part h vh ready = elim (Bool-cases (has_input mask input_drop)) [
      | inl held ↦ rw held (drop_lem h vh (ready held))
      | inr free ↦ rw free (record { next = h; returns = refl; holds = vh })
    ]

tick_due :
    (g : SimGame)
    → g.game_over ≡ false
    → leb g.drop_interval_ticks (g.gravity_counter_ticks + 1) ≡ true
    → tick g ≡ move_block_down (record g { gravity_counter_ticks = 0 })
unfolding tick
tick_due g live due = rw (live, due)

-- A gravity tick on a valid state always returns a valid state.
pub tick-IsValid : (g : SimGame) → IsValid g → Returns IsValid (tick g)
tick-IsValid g v = elim (Bool-cases g.game_over) [
  | inl over ↦ record { next = g; returns = unfold tick in rw over; holds = v }
  | inr live ↦ elim (Bool-cases (leb g.drop_interval_ticks (g.gravity_counter_ticks + 1))) [
    | inl due ↦
        let r =
          down_lem (record g { gravity_counter_ticks = 0 })
            (with_block {g = g} _ v v.current v.ghost refl refl refl) in
        record { next = r.next; returns = tick_due g live due ∙ r.returns; holds = r.holds }
    | inr wait ↦ record {
      next = record g { gravity_counter_ticks = g.gravity_counter_ticks + 1 };
      returns = unfold tick in rw (live, wait);
      holds = with_block {g = g} _ v v.current v.ghost refl refl refl;
    }
  ]
]
