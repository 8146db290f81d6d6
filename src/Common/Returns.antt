-- ===== src/Common/Returns.antt =====
-- A fallible result that is there and has a property, and the two splits that keep one.
use tetris_multiplayer_rl.Common.{
  if◌then◌else◌, ◌>>=◌, ◌≡◌, refl, sym, Bool, true, false, Option, some,
}
use mathlib.Core.Path.{subst}

module _ {ℓ} {A : Type ℓ} where
  abbrev pub Returns : (A → Type ℓ) → Option A → Type ℓ
  Returns P o = (a : A) × (o ≡ some a) × P a

  pub Returns-bind :
      (P Q : A → Type ℓ) (o : Option A) (f : A → Option A)
      → Returns Q o
      → ((a : A) → Q a → Returns P (f a))
      → Returns P (o >>= f)
  Returns-bind P Q o f (a, e, q) g = subst (λ x. Returns P (x >>= f)) (sym e) (g a q)

module _ {ℓ κ} {A : Type ℓ} {B : Type κ} where
  pub Returns-read :
      (P : B → Type κ) (o : Option A) (f : A → Option B)
      → (a : A) × (o ≡ some a)
      → ((a : A) → Returns P (f a))
      → Returns P (o >>= f)
  Returns-read P o f (a, e) g = subst (λ x. Returns P (x >>= f)) (sym e) (g a)

  pub Returns-some :
      (P : B → Type κ) (o : Option A) (f : A → Option B) (a : A)
      → o ≡ some a
      → Returns P (f a)
      → Returns P (o >>= f)
  Returns-some P o f a e g = subst (λ x. Returns P (x >>= f)) (sym e) g

pub if_both {ℓ κ} :
    {A : Type ℓ} (P : A → Type κ) (b : Bool) (x y : A)
    → (b ≡ true → P x)
    → (b ≡ false → P y)
    → P (if b then x else y)
if_both P true x y h k = h refl
if_both P false x y h k = k refl

module _ {ℓ} {A B : Type ℓ} where
  -- A last step that cannot fail.
  pub Returns-end :
      (P : B → Type ℓ) (Q : A → Type ℓ) (o : Option A) (g : A → B)
      → Returns Q o
      → ((a : A) → Q a → P (g a))
      → Returns P (o >>= λ a. some (g a))
  Returns-end P Q o g (a, e, q) h =
      subst (λ x. Returns P (x >>= λ y. some (g y))) (sym e) (g a, refl, h a q)
