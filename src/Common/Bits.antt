-- ===== src/Common/Bits.antt =====
-- The native `bit_or` and `bit_xor` at variables: one equation for the lowest digit, and from it the
-- sum of disjoint fields, the bound, and the cancellation of a mask.
use tetris_multiplayer_rl.Common.{
  bit_or, ℕ, zero, suc, ◌+◌, ◌*◌, ◌/◌, ◌%◌, ◌^◌, ◌≤◌, ◌<◌, bit_xor, ◌≡◌, refl, sym, ap, ◌∙◌, arith,
}
use Prim.Native.Nat.{max, digits, bitwise, differ, bit_or, bit_or-bitwise, bit_xor-bitwise}
use native.Mathlib.Nat.{pow-suc}

-- The count of digits to go is enough as soon as it is the number itself.
module _ (z : ℕ → ℕ) (f : ℕ → ℕ → ℕ) where
  digits_enough : (n k a b : ℕ) → a ≤ n → a ≤ k → digits z f n a b ≡ digits z f k a b
  digits_enough zero zero zero b h j = refl
  digits_enough zero (suc k) zero b h j = refl
  digits_enough (suc n) zero zero b h j = refl
  digits_enough (suc n) (suc k) zero b h j = refl
  digits_enough zero k (suc a) b h j = absurd (omega arith)
  digits_enough (suc n) zero (suc a) b h j = absurd (omega arith)
  digits_enough (suc n) (suc k) (suc a) b h j =
      ap (λ (t : ℕ). t * 2 + f (suc a % 2) (b % 2))
        (digits_enough n k (suc a / 2) (b / 2) (omega arith) (omega arith))

  pub lowest_digit :
      (a b : ℕ)
      → bitwise z f (suc a) b ≡ bitwise z f (suc a / 2) (b / 2) * 2 + f (suc a % 2) (b % 2)
  lowest_digit a b =
      ap (λ (t : ℕ). t * 2 + f (suc a % 2) (b % 2))
        (digits_enough a (suc a / 2) (suc a / 2) (b / 2) (omega arith) (omega arith))

pub bit_or_digit : (a b : ℕ) → bit_or a b ≡ bit_or (a / 2) (b / 2) * 2 + max (a % 2) (b % 2)
bit_or_digit zero b = simp bit_or-bitwise (omega arith)
bit_or_digit (suc a) b = simp bit_or-bitwise (lowest_digit (λ y. y) max a b)

differ_zero : (b : ℕ) → differ 0 (b % 2) ≡ b % 2
differ_zero b = refl

pub bit_xor_digit : (a b : ℕ) → bit_xor a b ≡ bit_xor (a / 2) (b / 2) * 2 + differ (a % 2) (b % 2)
bit_xor_digit zero b = simp bit_xor-bitwise (omega arith)
bit_xor_digit (suc a) b = simp bit_xor-bitwise (lowest_digit (λ y. y) differ a b)

double_field : (q k : ℕ) → q * 2 ^ suc k ≡ 2 * (q * 2 ^ k)
double_field q k = omega (arith, ap (λ (t : ℕ). q * t) (pow-suc 2 k))

-- A field over a lower one of `k` digits is added.
pub bit_or_field : (k r q : ℕ) → r < 2 ^ k → bit_or r (q * 2 ^ k) ≡ r + q * 2 ^ k
bit_or_field zero zero q h = simp bit_or-bitwise (omega arith)
bit_or_field zero (suc r) q h = absurd (omega arith)
bit_or_field (suc k) r q h = ground (
  arith,
  bit_or_digit r (q * 2 ^ suc k),
  double_field q k,
  pow-suc 2 k,
  bit_or_field k (r / 2) q (omega (arith, pow-suc 2 k)),
)

differ-IsBit : (a b : ℕ) → a < 2 → b < 2 → differ a b < 2
differ-IsBit zero b h j = j
differ-IsBit (suc zero) zero h j = omega arith
differ-IsBit (suc zero) (suc b) h j = omega arith
differ-IsBit (suc (suc a)) b h j = absurd (omega arith)

differ_back : (a b : ℕ) → a < 2 → b < 2 → differ (differ a b) b ≡ a
differ_back zero zero h j = refl
differ_back zero (suc zero) h j = refl
differ_back (suc zero) zero h j = refl
differ_back (suc zero) (suc zero) h j = refl
differ_back (suc (suc a)) b h j = absurd (omega arith)
differ_back a (suc (suc b)) h j = absurd (omega arith)

pub bit_xor-lt : (k a b : ℕ) → a < 2 ^ k → b < 2 ^ k → bit_xor a b < 2 ^ k
bit_xor-lt zero zero zero h j = omega arith
bit_xor-lt zero (suc a) b h j = absurd (omega arith)
bit_xor-lt zero zero (suc b) h j = absurd (omega arith)
bit_xor-lt (suc k) a b h j = omega (
  arith,
  pow-suc 2 k,
  bit_xor_digit a b,
  differ-IsBit (a % 2) (b % 2) (omega arith) (omega arith),
  bit_xor-lt k (a / 2) (b / 2) (omega (arith, pow-suc 2 k)) (omega (arith, pow-suc 2 k)),
)

-- The same mask twice gives the number back.
pub bit_xor_back : (k a b : ℕ) → a < 2 ^ k → b < 2 ^ k → bit_xor (bit_xor a b) b ≡ a
bit_xor_back zero zero zero h j = simp bit_xor-bitwise
bit_xor_back zero (suc a) b h j = absurd (omega arith)
bit_xor_back zero zero (suc b) h j = absurd (omega arith)
bit_xor_back (suc k) a b h j =
    let low = differ-IsBit (a % 2) (b % 2) (omega arith) (omega arith) in
    let e = bit_xor_digit a b in
    let half : bit_xor a b / 2 ≡ bit_xor (a / 2) (b / 2) = omega (arith, e, low) in
    let bit : bit_xor a b % 2 ≡ differ (a % 2) (b % 2) = omega (arith, e, low) in
    let rest =
      bit_xor_back k (a / 2) (b / 2) (omega (arith, pow-suc 2 k)) (omega (arith, pow-suc 2 k)) in
    let first = differ_back (a % 2) (b % 2) (omega arith) (omega arith) in
    let d = bit_xor_digit (bit_xor a b) b in
    omega (
      arith,
      d,
      ap (λ (t : ℕ). bit_xor t (b / 2)) half ∙ rest,
      ap (λ (t : ℕ). differ t (b % 2)) bit ∙ first,
    )

pub bit_xor-injective :
    (k a b c : ℕ) → a < 2 ^ k → b < 2 ^ k → c < 2 ^ k → bit_xor a c ≡ bit_xor b c → a ≡ b
bit_xor-injective k a b c h j l e =
    sym (bit_xor_back k a c h l) ∙ ap (λ (t : ℕ). bit_xor t c) e ∙ bit_xor_back k b c j l

differ_comm : (a b : ℕ) → a < 2 → b < 2 → differ a b ≡ differ b a
differ_comm zero zero h j = refl
differ_comm zero (suc zero) h j = refl
differ_comm (suc zero) zero h j = refl
differ_comm (suc zero) (suc zero) h j = refl
differ_comm (suc (suc a)) b h j = absurd (omega arith)
differ_comm a (suc (suc b)) h j = absurd (omega arith)

pub bit_xor_comm : (k a b : ℕ) → a < 2 ^ k → b < 2 ^ k → bit_xor a b ≡ bit_xor b a
bit_xor_comm zero zero zero h j = refl
bit_xor_comm zero (suc a) b h j = absurd (omega arith)
bit_xor_comm zero zero (suc b) h j = absurd (omega arith)
bit_xor_comm (suc k) a b h j = omega (
  arith,
  bit_xor_digit a b,
  bit_xor_digit b a,
  differ_comm (a % 2) (b % 2) (omega arith) (omega arith),
  bit_xor_comm k (a / 2) (b / 2) (omega (arith, pow-suc 2 k)) (omega (arith, pow-suc 2 k)),
)

bit_or_comm_below : (n a b : ℕ) → a ≤ n → b ≤ n → bit_or a b ≡ bit_or b a
bit_or_comm_below zero zero zero h j = refl
bit_or_comm_below zero (suc a) b h j = absurd (omega arith)
bit_or_comm_below zero zero (suc b) h j = absurd (omega arith)
bit_or_comm_below (suc n) a b h j =
    let high = bit_or_comm_below n (a / 2) (b / 2) (omega arith) (omega arith) in
    let low : max (a % 2) (b % 2) ≡ max (b % 2) (a % 2) = omega arith in
    omega (arith, bit_or_digit a b, bit_or_digit b a, high, low)

-- A byte below a number that was shifted up.
pub bit_or_byte : (x b : ℕ) → b < 2 ^ 8 → bit_or (x * 2 ^ 8) b ≡ x * 2 ^ 8 + b
bit_or_byte x b h =
    let swap = bit_or_comm_below (x * 2 ^ 8 + b) (x * 2 ^ 8) b (omega arith) (omega arith) in
    omega (arith, swap, bit_or_field 8 b x h)
