-- ===== src/Decimal/Nonneg.antt =====
-- Amounts that are not negative: decimal.go's operations keep them so, `Parse` reads no other, and
-- comparing the texts that `String` writes of them is comparing them.
use costroid.Prelude.{
  Bytes, ℕ, ◌-◌, Ordering, ◌≡◌, ◌≢◌, refl, sym, subst, ◌∙◌, some, ◌>>=◌, max, ◌++◌, length, arith,
}
use costroid.Prelude.Int.{ℤ, pos, neg_part, ◌+ℤ◌, ◌*ℤ◌}
use costroid.Prelude.Power.{pow10}
use costroid.Decimal.{
  Decimal, zero_value, normal, rescale, add, mul, div_pow10, from_int, cmp, sign,
}
use costroid.Decimal.Compare.{sign-normal, cmp-normal}
use costroid.Decimal.Text.{parse, string, cut, value_from}
use costroid.Decimal.RoundTrip.{parse-string, decimal_of}

abbrev pub IsNonneg : Decimal → Type 0
IsNonneg d = sign d ≢ Ordering.lt

IsNonneg-of_part : (d : Decimal) → neg_part d.coefficient ≡ 0 → IsNonneg d
unfolding sign
IsNonneg-of_part d h = ground arith

part_of_nonneg : (d : Decimal) → IsNonneg d → neg_part d.coefficient ≡ 0
unfolding sign
part_of_nonneg d h = ground arith

pub normal-IsNonneg : (d : Decimal) → IsNonneg d → IsNonneg (normal d)
normal-IsNonneg d h = λ e. h (sym (sign-normal d) ∙ e)

product_part : (a b : ℤ) → neg_part a ≡ 0 → neg_part b ≡ 0 → neg_part (a *ℤ b) ≡ 0
unfolding ◌*ℤ◌
product_part a b p q = ground arith

sum_part : (a b : ℤ) → neg_part a ≡ 0 → neg_part b ≡ 0 → neg_part (a +ℤ b) ≡ 0
unfolding ◌+ℤ◌
sum_part a b p q = ground arith

rescale_part : (d : Decimal) (k : ℕ) → IsNonneg d → neg_part (rescale d k) ≡ 0
unfolding rescale
rescale_part d k h =
    product_part d.coefficient (pos (pow10 (k - d.scale))) (part_of_nonneg d h) refl

pub zero_value-IsNonneg : IsNonneg zero_value
zero_value-IsNonneg = IsNonneg-of_part zero_value refl

pub from_int-IsNonneg : (n : ℕ) → IsNonneg (from_int (pos n))
unfolding from_int
from_int-IsNonneg n = IsNonneg-of_part (record { coefficient = pos n; scale = 0 }) refl

pub add-IsNonneg : (d e : Decimal) → IsNonneg d → IsNonneg e → IsNonneg (add d e)
unfolding add
add-IsNonneg d e p q =
    let k = max d.scale e.scale in
    normal-IsNonneg _ (
      IsNonneg-of_part _
        (sum_part (rescale d k) (rescale e k) (rescale_part d k p) (rescale_part e k q)))

pub mul-IsNonneg : (d e : Decimal) → IsNonneg d → IsNonneg e → IsNonneg (mul d e)
unfolding mul
mul-IsNonneg d e p q = normal-IsNonneg _ (
    IsNonneg-of_part _
      (product_part d.coefficient e.coefficient (part_of_nonneg d p) (part_of_nonneg e q)))

pub div_pow10-IsNonneg : (d : Decimal) (n : ℕ) → IsNonneg d → IsNonneg (div_pow10 d n)
unfolding div_pow10
div_pow10-IsNonneg d n p = normal-IsNonneg _ (IsNonneg-of_part _ (part_of_nonneg d p))

-- What `Parse` reads is the normal form of a whole number over a power of ten.
parse_shape :
    (text : Bytes) {d : Decimal}
    → parse text ≡ some d
    → (m : ℕ) × (k : ℕ) × (normal (decimal_of m k) ≡ d)
unfolding parse
parse_shape text {d} h =
    let (whole, fraction, found) = cut b'.' text in
    (value_from 0 (whole ++ fraction), length fraction, ground arith)

-- `Parse` reads no negative amount.
pub parse-IsNonneg : (text : Bytes) {d : Decimal} → parse text ≡ some d → IsNonneg d
parse-IsNonneg text h =
    let (m, k, e) = parse_shape text h in
    subst IsNonneg e (normal-IsNonneg (decimal_of m k) (IsNonneg-of_part (decimal_of m k) refl))

-- Amounts that are not negative compare alike as decimals and as the texts that `String` writes
-- of them, read by `Parse`.
pub compare_texts :
    (d e : Decimal)
    → IsNonneg d
    → IsNonneg e
    → (do x ← parse (string d); y ← parse (string e); some (cmp x y)) ≡ some (cmp d e)
compare_texts d e p q = rw (parse-string d p, parse-string e q, cmp-normal d e)
