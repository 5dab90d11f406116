-- ===== src/Focus/Checked.antt =====
-- The rows of `NewRow` and what `Check` of internal/focus/row.go asks of them.
use costroid.Prelude.{
  ℕ, ◌≤◌, Ordering, true, false, ◌&&◌, ◌≡◌, refl, some, arith, Bool-cases, inl, inr,
}
use costroid.Prelude.Int.{pos}
use costroid.Decimal.{
  Decimal, zero_value, from_int, normal, normal_loop, mul, div_pow10, cmp, sign, scale,
}
use costroid.Decimal.Normal.{≈_refl}
use costroid.Decimal.Value.{normal-scale-le}
use costroid.Decimal.Compare.{cmp-eq_iff}
use costroid.Decimal.Nonneg.{IsNonneg, from_int-IsNonneg, div_pow10-IsNonneg, mul-IsNonneg}
use costroid.Focus.{
  UnitPrice, Charge, Calendar, base_row, price_row, new_row, is_refused, amounts_of, check_row,
  max_scale, tokens_per_million, is_measured, is_eq,
}

cmp_refl : (d : Decimal) → cmp d d ≡ Ordering.eq
cmp_refl d = (cmp-eq_iff d d).1 (≈_refl d)

fits : (d : Decimal) → scale d ≤ max_scale → IsNonneg d → is_refused d ≡ false
unfolding is_refused
fits d l p = ground arith

zero-fits : is_refused zero_value ≡ false
unfolding is_refused scale normal sign normal_loop
zero-fits = refl

billed : is_eq (sign zero_value) && true ≡ true
unfolding sign
billed = refl

abbrev pub quantity_of : ℕ → Decimal
quantity_of n = div_pow10 (from_int (pos n)) tokens_per_million

quantity-scale :
    (n : ℕ) → (scale (from_int (pos n)) ≤ max_scale) × (scale (quantity_of n) ≤ max_scale)
unfolding scale div_pow10 from_int
quantity-scale n =
    let d : Decimal = record { coefficient = pos n; scale = 0 } in
    let e : Decimal = record { coefficient = pos n; scale = 6 } in
    (omega (arith, normal-scale-le d), omega (arith, normal-scale-le (normal e), normal-scale-le e))

-- `Check` accepts the row that `NewRow` makes of a priced charge, where the tokens and the unit
-- price are not negative and neither the unit price nor its product with the quantity has more
-- than 12 fractional digits.
pub new_row-check :
    (calendar : Calendar) (c : Charge) (price : UnitPrice) (n : ℕ)
    → c.price ≡ some price
    → c.tokens ≡ pos n
    → IsNonneg price.list_unit_price
    → scale price.list_unit_price ≤ max_scale
    → scale (mul price.list_unit_price (quantity_of n)) ≤ max_scale
    → check_row (new_row calendar c) ≡ true
unfolding new_row check_row base_row price_row amounts_of
new_row-check calendar c price n e t p low fit =
    let (whole, small) = quantity-scale n in
    let quantity = quantity_of n in
    let cost = mul price.list_unit_price quantity in
    let positive = div_pow10-IsNonneg (from_int (pos n)) tokens_per_million (from_int-IsNonneg n) in
    let good_tokens = fits (from_int (pos n)) whole (from_int-IsNonneg n) in
    let good_quantity = fits quantity small positive in
    let good_price = fits price.list_unit_price low p in
    let good_cost = fits cost fit (mul-IsNonneg price.list_unit_price quantity p positive) in
    elim (Bool-cases (is_measured c.basis)) [
      | inl b ↦
          rw (e, t, b, good_tokens, good_quantity, good_price, good_cost, cmp_refl cost) billed
      | inr b ↦
          rw (e, t, b, good_tokens, good_quantity, good_price, good_cost, cmp_refl cost, zero-fits)
            billed
    ]
