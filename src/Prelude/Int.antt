-- ===== src/Prelude/Int.antt =====
-- Signed integers over the native numbers, under the library's names (its ℤ stands on the unary ℕ).
-- Laws go through the two parts of an integer, which are numbers that `omega` reads.
use Prim.Native.Nat.{ℕ, zero, suc, ◌+◌, ◌-◌, ◌*◌, ◌≤◌, ◌<◌, compare, Ordering}
use mathlib.Core.Path.{◌≡◌, ap, ap₂, ◌∙◌}
use native.Mathlib.Nat.{eq_of_mul-eq-mul_right}
use native.Mathlib.Omega.{arith}
use costroid.Prelude.Tests.{leb, if◌then◌else◌}

-- `negsuc n` is -(n + 1).
pub data ℤ : Type 0 where
  pos : ℕ → ℤ
  negsuc : ℕ → ℤ

abbrev pub pos_part : ℤ → ℕ
pos_part (pos n) = n
pos_part (negsuc n) = 0

abbrev pub neg_part : ℤ → ℕ
neg_part (pos n) = 0
neg_part (negsuc n) = suc n

abbrev pub nat_abs : ℤ → ℕ
nat_abs (pos n) = n
nat_abs (negsuc n) = suc n

-- -n
abbrev pub neg_ℕ : ℕ → ℤ
neg_ℕ zero = pos 0
neg_ℕ (suc n) = negsuc n

-- a - b, as an integer.
abbrev pub sub_ℕ : ℕ → ℕ → ℤ
sub_ℕ a b = if leb b a then pos (a - b) else negsuc (b - a - 1)

infixl 65 ◌+ℤ◌ ◌-ℤ◌
infixl 70 ◌*ℤ◌
infix 50 ◌≤ℤ◌ ◌<ℤ◌
unfoldable pub ◌+ℤ◌ : ℤ → ℤ → ℤ
a +ℤ b = sub_ℕ (pos_part a + pos_part b) (neg_part a + neg_part b)

unfoldable pub ◌-ℤ◌ : ℤ → ℤ → ℤ
a -ℤ b = sub_ℕ (pos_part a + neg_part b) (neg_part a + pos_part b)

unfoldable pub ◌*ℤ◌ : ℤ → ℤ → ℤ
pos m *ℤ b = sub_ℕ (m * pos_part b) (m * neg_part b)
negsuc m *ℤ b = sub_ℕ (suc m * neg_part b) (suc m * pos_part b)

abbrev pub ◌≤ℤ◌ : ℤ → ℤ → Type 0
a ≤ℤ b = pos_part a + neg_part b ≤ pos_part b + neg_part a

abbrev pub ◌<ℤ◌ : ℤ → ℤ → Type 0
a <ℤ b = pos_part a + neg_part b < pos_part b + neg_part a

abbrev pub compare_ℤ : ℤ → ℤ → Ordering
compare_ℤ a b = compare (pos_part a + neg_part b) (pos_part b + neg_part a)

pub eq_of_parts : (a b : ℤ) → pos_part a + neg_part b ≡ pos_part b + neg_part a → a ≡ b
eq_of_parts a b h = ground arith

pub +ℤ_parts :
    (a b : ℤ)
    → pos_part (a +ℤ b) + neg_part a + neg_part b ≡ neg_part (a +ℤ b) + pos_part a + pos_part b
unfolding ◌+ℤ◌
+ℤ_parts a b = ground arith

pub -ℤ_parts :
    (a b : ℤ)
    → pos_part (a -ℤ b) + neg_part a + pos_part b ≡ neg_part (a -ℤ b) + pos_part a + neg_part b
unfolding ◌-ℤ◌
-ℤ_parts a b = ground arith

-- One part of an integer is 0, so a product's parts are exact.
pub pos_part-*ℤ : (a b : ℤ) → pos_part (a *ℤ b) ≡ pos_part a * pos_part b + neg_part a * neg_part b
unfolding ◌*ℤ◌
pos_part-*ℤ a b = ground arith

pub neg_part-*ℤ : (a b : ℤ) → neg_part (a *ℤ b) ≡ pos_part a * neg_part b + neg_part a * pos_part b
unfolding ◌*ℤ◌
neg_part-*ℤ a b = ground arith

pub +ℤ_comm : (a b : ℤ) → a +ℤ b ≡ b +ℤ a
+ℤ_comm a b = eq_of_parts _ _ (omega (arith, +ℤ_parts))

pub +ℤ_assoc : (a b c : ℤ) → a +ℤ b +ℤ c ≡ a +ℤ (b +ℤ c)
+ℤ_assoc a b c = eq_of_parts _ _ (omega (arith, +ℤ_parts))

pub -ℤ-+ℤ_cancel : (a b : ℤ) → a -ℤ b +ℤ b ≡ a
-ℤ-+ℤ_cancel a b = eq_of_parts _ _ (omega (arith, +ℤ_parts, -ℤ_parts))

ruleset product_parts = (pos_part-*ℤ, neg_part-*ℤ)

pub *ℤ_comm : (a b : ℤ) → a *ℤ b ≡ b *ℤ a
*ℤ_comm a b = eq_of_parts _ _ (simp product_parts (omega arith))

pub *ℤ_assoc : (a b c : ℤ) → a *ℤ b *ℤ c ≡ a *ℤ (b *ℤ c)
*ℤ_assoc a b c = eq_of_parts _ _ (simp product_parts (omega arith))

pub *ℤ_right_comm : (a b c : ℤ) → a *ℤ b *ℤ c ≡ a *ℤ c *ℤ b
*ℤ_right_comm a b c = eq_of_parts _ _ (simp product_parts (omega arith))

pub *ℤ_interchange : (a b c d : ℤ) → (a *ℤ b) *ℤ (c *ℤ d) ≡ (a *ℤ c) *ℤ (b *ℤ d)
*ℤ_interchange a b c d = eq_of_parts _ _ (simp product_parts (omega arith))

pub *ℤ-pos : (a : ℤ) (m n : ℕ) → a *ℤ pos m *ℤ pos n ≡ a *ℤ pos (m * n)
*ℤ-pos a m n = eq_of_parts _ _ (simp product_parts (omega arith))

pub pos-* : (m n : ℕ) → pos (m * n) ≡ pos m *ℤ pos n
pos-* m n = eq_of_parts _ _ (simp product_parts (omega arith))

pub *ℤ-one : (a : ℤ) → a *ℤ pos 1 ≡ a
*ℤ-one a = eq_of_parts _ _ (simp product_parts (omega arith))

pub *ℤ-+ℤ : (a b c : ℤ) → a *ℤ (b +ℤ c) ≡ a *ℤ b +ℤ a *ℤ c
*ℤ-+ℤ a b c = eq_of_parts _ _ (
    let sums = +ℤ_parts b c in
    let products = simp product_parts at (+ℤ_parts (a *ℤ b) (a *ℤ c)) in
    simp product_parts (
      omega (
        arith,
        products,
        ap (λ (t : ℕ). pos_part a * t) sums,
        ap (λ (t : ℕ). neg_part a * t) sums,
      )))

pub +ℤ-*ℤ : (a b c : ℤ) → (a +ℤ b) *ℤ c ≡ a *ℤ c +ℤ b *ℤ c
+ℤ-*ℤ a b c = *ℤ_comm _ c ∙ *ℤ-+ℤ c a b ∙ ap₂ ◌+ℤ◌ (*ℤ_comm c a) (*ℤ_comm c b)

pub -ℤ-*ℤ : (a b c : ℤ) → (a -ℤ b) *ℤ c ≡ a *ℤ c -ℤ b *ℤ c
-ℤ-*ℤ a b c = eq_of_parts _ _ (
    let difference = -ℤ_parts a b in
    let products = simp product_parts at (-ℤ_parts (a *ℤ c) (b *ℤ c)) in
    simp product_parts (
      omega (
        arith,
        products,
        ap (λ (t : ℕ). t * pos_part c) difference,
        ap (λ (t : ℕ). t * neg_part c) difference,
      )))

-- A positive factor can be cancelled, in an equation and in an order.
pub *ℤ-pos_cancel : (a b : ℤ) (n : ℕ) → 0 < n → a *ℤ pos n ≡ b *ℤ pos n → a ≡ b
*ℤ-pos_cancel a b n h e = eq_of_parts a b (eq_of_mul-eq-mul_right n h _ _ scaled)
  where
    scaled : (pos_part a + neg_part b) * n ≡ (pos_part b + neg_part a) * n
    scaled = omega (arith, product_parts, ap pos_part e, ap neg_part e)

mul-lt-mul_right : (x y n : ℕ) → 0 < n → x < y → x * n < y * n
mul-lt-mul_right x y n h l = grind arith

pub compare-mul_right : (x y n : ℕ) → 0 < n → compare (x * n) (y * n) ≡ compare x y
compare-mul_right x y n h = ground (
  arith,
  mul-lt-mul_right x y n h,
  mul-lt-mul_right y x n h,
  λ (e : x ≡ y). ap (λ (t : ℕ). t * n) e,
)

pub compare_ℤ-*ℤ-pos :
    (a b : ℤ) (n : ℕ) → 0 < n → compare_ℤ (a *ℤ pos n) (b *ℤ pos n) ≡ compare_ℤ a b
compare_ℤ-*ℤ-pos a b n h =
    let e = compare-mul_right (pos_part a + neg_part b) (pos_part b + neg_part a) n h in
    simp product_parts (ap₂ compare (omega arith) (omega arith) ∙ e)
