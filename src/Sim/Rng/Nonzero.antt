-- ===== src/Sim/Rng/Nonzero.antt =====
-- The state of the generator of core/rng.h never becomes zero, from which it would not come back.
use tetris_multiplayer_rl.Sim.Rng.{next_state, next, seeded}
use tetris_multiplayer_rl.Common.Bits.{bit_xor_back, bit_xor-lt}
use tetris_multiplayer_rl.Common.{
  ◌==◌, Bool-cases, u64, ℕ, zero, suc, ◌*◌, ◌/◌, ◌^◌, ◌<◌, bit_xor, ◌≡◌, sym, ap, ◌∙◌, ◌≢◌, inl,
  inr, arith,
}
use Prim.Native.Nat.{bit_xor-bitwise}

abbrev pub IsState : ℕ → Type 0
IsState x = (0 < x) × (x < 2 ^ 64)

xor_zero : (a b : ℕ) → a < 2 ^ 64 → b < 2 ^ 64 → bit_xor a b ≡ 0 → a ≡ b
xor_zero a b h k e =
    let left : bit_xor 0 b ≡ b = simp bit_xor-bitwise in
    sym (bit_xor_back 64 a b h k) ∙ ap (λ (t : ℕ). bit_xor t b) e ∙ left

-- An exclusive or of two different words is a state.
xor-IsState : (a b : ℕ) → a < 2 ^ 64 → b < 2 ^ 64 → a ≢ b → IsState (bit_xor a b)
xor-IsState a b h k other =
    (pos_of (bit_xor a b) (λ e. other (xor_zero a b h k e)), bit_xor-lt 64 a b h k)
  where
    pos_of : (n : ℕ) → n ≢ 0 → 0 < n
    pos_of n h = omega arith

next_state-IsState : (x : ℕ) → IsState x → IsState (next_state x)
unfolding next_state
next_state-IsState x (low, high) =
    let a = xor-IsState x (x / 2 ^ 12) high (omega arith) (omega (arith, low)) in
    let x1 = bit_xor x (x / 2 ^ 12) in
    let b = xor-IsState x1 (u64 (x1 * 2 ^ 25)) a.1 (omega arith) (omega (arith, a.0, a.1)) in
    let x2 = bit_xor x1 (u64 (x1 * 2 ^ 25)) in
    xor-IsState x2 (x2 / 2 ^ 27) b.1 (omega arith) (omega (arith, b.0))

-- The state after some draws.
unfoldable pub after_draws : ℕ → ℕ → ℕ
after_draws zero state = state
after_draws (suc n) state = after_draws n (next state).1

draws-IsState : (n x : ℕ) → IsState x → IsState (after_draws n x)
unfolding after_draws next
draws-IsState zero x v = v
draws-IsState (suc n) x v = draws-IsState n (next_state x) (next_state-IsState x v)

-- From every 64-bit seed, zero included, the state stays a 64-bit number other than zero, however
-- many numbers are drawn.
pub after_draws-IsState : (seed n : ℕ) → seed < 2 ^ 64 → IsState (after_draws n (seeded seed))
unfolding seeded
after_draws-IsState seed n h = draws-IsState n (seeded seed) (elim (Bool-cases (seed == 0)) [
  | inl zero_seed ↦ rw zero_seed (omega arith, omega arith)
  | inr other ↦ rw other (ground (arith, other), h)
])
