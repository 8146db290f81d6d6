-- ===== src/Common/Tests.antt =====
-- Boolean tests on the native numbers, and the conditional.
use Prim.Native.Nat.{ℕ, suc, ◌≤◌, ◌<◌, compare, Ordering}
use mathlib.Core.Path.{◌≡◌, refl}
use mathlib.Core.Logic.{◌↔◌, ◌⊎◌, inl, inr}
use mathlib.Core.Bool.{Bool, true, false, not, ◌&&◌, ◌||◌}
use mathlib.Core.Option.{Option, none, some}
use native.Mathlib.Omega.{arith}

-- These compute to `compare`, which `ground` and `grind` read with no lemma listed.
abbrev pub ltb : ℕ → ℕ → Bool
ltb a b = elim (compare a b) [ Ordering.lt ↦ true | _ ↦ false ]

abbrev pub leb : ℕ → ℕ → Bool
leb a b = elim (compare a b) [ Ordering.gt ↦ false | _ ↦ true ]

infix 50 ◌==◌
abbrev pub ◌==◌ : ℕ → ℕ → Bool
a == b = elim (compare a b) [ Ordering.eq ↦ true | _ ↦ false ]

infix 1 if◌then◌else◌
abbrev pub if◌then◌else◌ {ℓ} : {A : Type ℓ} → Bool → A → A → A
if true then x else y = x
if false then x else y = y

-- `omega` reads a test through such lemmas.
pub ltb→lt : (a b : ℕ) → ltb a b ≡ true → a < b
ltb→lt a b h = ground arith

pub lt→ltb : (a b : ℕ) → a < b → ltb a b ≡ true
lt→ltb a b h = ground arith

pub leb→le : (a b : ℕ) → leb a b ≡ true → a ≤ b
leb→le a b h = ground arith

pub ==_iff : (a b : ℕ) → ((a == b) ≡ true) ↔ (a ≡ b)
==_iff a b = ground arith

pub ruleset tests = (arith, ltb→lt, lt→ltb, leb→le)

-- To split on a computed value and keep the equation.
pub Bool-cases : (b : Bool) → (b ≡ true) ⊎ (b ≡ false)
Bool-cases true = inl refl
Bool-cases false = inr refl

pub Option-cases {ℓ} : {A : Type ℓ} (o : Option A) → (o ≡ none) ⊎ ((a : A) × (o ≡ some a))
Option-cases none = inl refl
Option-cases (some a) = inr (a, refl)

-- A failed step of a chain of fallible ones is `none`.
infixl 5 ◌>>=◌
abbrev pub ◌>>=◌ {ℓ κ} : {A : Type ℓ} {B : Type κ} → Option A → (A → Option B) → Option B
none >>= f = none
some a >>= f = f a

pub suc-==-zero : (n : ℕ) → (suc n == 0) ≡ false
suc-==-zero n = ground arith

pub if_true {ℓ} : {A : Type ℓ} {b : Bool} (x y : A) → b ≡ true → (if b then x else y) ≡ x
if_true x y h = rw h

pub if_false {ℓ} : {A : Type ℓ} {b : Bool} (x y : A) → b ≡ false → (if b then x else y) ≡ y
if_false x y h = rw h

module _ {ℓ} {A : Type ℓ} where
  abbrev pub has_value : Option A → Bool
  has_value none = false
  has_value (some a) = true

pub and_true : {x y : Bool} → (x && y) ≡ true → (x ≡ true) × (y ≡ true)
and_true {x = true} h = (refl, h)
and_true {x = false} h = absurd (ground (arith, h))

pub or_false : {x y : Bool} → (x || y) ≡ false → (x ≡ false) × (y ≡ false)
or_false {x = true} h = absurd (ground (arith, h))
or_false {x = false} h = (refl, h)

pub false_of_not : {b : Bool} → not b ≡ true → b ≡ false
false_of_not {b = true} h = absurd (ground (arith, h))
false_of_not {b = false} h = refl

pub true_of_not : {b : Bool} → not b ≡ false → b ≡ true
true_of_not {b = true} h = refl
true_of_not {b = false} h = absurd (ground (arith, h))

pub and_false_left : {x : Bool} (y : Bool) → x ≡ false → (x && y) ≡ false
and_false_left {x = true} y h = absurd (ground (arith, h))
and_false_left {x = false} y h = refl

pub and_false_right : {y : Bool} (x : Bool) → y ≡ false → (x && y) ≡ false
and_false_right true h = h
and_false_right false h = refl

pub both_true : {x y : Bool} → x ≡ true → y ≡ true → (x && y) ≡ true
both_true {x = true} h k = k
both_true {x = false} h k = absurd (ground (arith, h))

pub or_right : {x y : Bool} → x ≡ false → (x || y) ≡ true → y ≡ true
or_right {x = true} h k = absurd (ground (arith, h))
or_right {x = false} h k = k
