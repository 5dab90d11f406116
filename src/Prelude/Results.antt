-- ===== src/Prelude/Results.antt =====
-- Chains of steps that may fail.
use mathlib.Core.Path.{◌≡◌, refl, subst}
use mathlib.Core.Option.{Option, none, some}
use costroid.Prelude.Tests.{◌>>=◌, if◌then◌else◌}
use mathlib.Core.Bool.{Bool, true, false}

-- Two chains with one first step agree when they agree on what that step gives.
pub bind-cong {ℓ κ} :
    {A : Type ℓ} {B : Type κ} (o : Option A) {f g : A → Option B}
    → ((a : A) → o ≡ some a → f a ≡ g a)
    → (o >>= f) ≡ (o >>= g)
bind-cong none same = refl
bind-cong (some a) same = same a refl

pub bind_assoc {ℓ κ μ} :
    {A : Type ℓ} {B : Type κ} {C : Type μ} (o : Option A) (f : A → Option B) (g : B → Option C)
    → (o >>= (λ a. f a >>= g)) ≡ (o >>= f >>= g)
bind_assoc none f g = refl
bind_assoc (some a) f g = refl

-- What holds of a result, where there is one.
module _ {ℓ κ} {A : Type ℓ} (P : A → Type κ) where
  unfoldable pub OnSome : Option A → Type κ
  OnSome none = Unit
  OnSome (some a) = P a

  pub OnSome-none : OnSome none
  unfolding OnSome
  OnSome-none = tt

  pub OnSome-some : (a : A) → P a → OnSome (some a)
  unfolding OnSome
  OnSome-some a p = p

  pub OnSome-if :
      (c : Bool) (a b : Option A)
      → (c ≡ true → OnSome a)
      → (c ≡ false → OnSome b)
      → OnSome (if c then a else b)
  OnSome-if true a b p q = p refl
  OnSome-if false a b p q = q refl

  pub OnSome-bind {m} :
      {B : Type m} (o : Option B) (f : B → Option A)
      → ((b : B) → o ≡ some b → OnSome (f b))
      → OnSome (o >>= f)
  OnSome-bind none f each = OnSome-none
  OnSome-bind (some b) f each = each b refl

  pub OnSome-eq : {o : Option A} {a : A} → OnSome o → o ≡ some a → P a
  unfolding OnSome
  OnSome-eq p e = subst OnSome e p

  pub OnSome-of : (o : Option A) → ((a : A) → o ≡ some a → P a) → OnSome o
  unfolding OnSome
  OnSome-of none each = tt
  OnSome-of (some a) each = each a refl

-- What holds of both branches holds of a test.
pub if_both {ℓ κ} :
    {A : Type ℓ} (P : A → Type κ) (c : Bool) (a b : A)
    → (c ≡ true → P a)
    → (c ≡ false → P b)
    → P (if c then a else b)
if_both P true a b p q = p refl
if_both P false a b p q = q refl
