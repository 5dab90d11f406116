-- ===== src/Examples/Amounts.antt =====
-- Concrete amounts of internal/decimal/decimal.go.
use costroid.Prelude.{◌≡◌, ◌≢◌, ◌↔◌, refl, none, some, ◌>>=◌, Ordering, codes, arith}
use mathlib.Core.Option
use costroid.Prelude.Int.{pos, negsuc, ◌+ℤ◌, ◌-ℤ◌, ◌*ℤ◌}
use costroid.Prelude.Power.{pow10}
use costroid.Decimal.{
  Decimal, from_int, normal, normal_loop, rescale, aligned, add, sub, mul, div_pow10, cmp, sign,
}
use costroid.Decimal.Text.{parse, parse_number, string, cut_minus, to_lower, shifted}
use costroid.Decimal.RoundTrip.{parse-string}
use costroid.Decimal.Signed.{parse_number-string}
use costroid.Decimal.Nonneg.{IsNonneg, compare_texts}
use costroid.Decimal.Laws.{add_assoc, sub-add, mul-add}
use costroid.Decimal.Compare.{cmp-eq_normal}

-- 1.50, -0.5 and 12
abbrev one_and_a_half : Decimal
one_and_a_half = record { coefficient = pos 150; scale = 2 }

abbrev minus_half : Decimal
minus_half = record { coefficient = negsuc 4; scale = 1 }

abbrev dozen : Decimal
dozen = record { coefficient = pos 12; scale = 0 }

one_and_a_half_plus : add one_and_a_half minus_half ≡ from_int (pos 1)
unfolding add aligned rescale normal normal_loop ◌+ℤ◌ ◌*ℤ◌ pow10 from_int
one_and_a_half_plus = refl

parse_money : parse (codes "12.50") ≡ some (record { coefficient = pos 125; scale = 1 })
unfolding parse normal_loop
parse_money = refl

parse_refused :
    (parse (codes "012") ≡ none)
    × (parse (codes "1.") ≡ none)
    × (parse (codes "-1") ≡ none)
    × (parse (codes "1e3") ≡ none)
unfolding parse
parse_refused = (refl, refl, refl, refl)

string_small : string (record { coefficient = negsuc 249; scale = 5 }) ≡ codes "-0.0025"
unfolding string normal_loop
string_small = refl

parse_float : Option.map string (parse_number (codes "-1.2E-05")) ≡ some (codes "-0.000012")
unfolding parse_number cut_minus to_lower parse shifted sub string normal_loop div_pow10 ◌-ℤ◌ ◌*ℤ◌
    rescale pow10
parse_float = refl

one_and_a_half-IsNonneg : IsNonneg one_and_a_half
unfolding sign
one_and_a_half-IsNonneg e = ground arith

dozen-IsNonneg : IsNonneg dozen
unfolding sign
dozen-IsNonneg e = ground arith

parse_number-string_example : parse_number (string minus_half) ≡ some (normal minus_half)
parse_number-string_example = parse_number-string minus_half

parse-string_example : parse (string one_and_a_half) ≡ some (normal one_and_a_half)
parse-string_example = parse-string one_and_a_half one_and_a_half-IsNonneg

compare_texts_example :
    (do x ← parse (string one_and_a_half); y ← parse (string dozen); some (cmp x y))
    ≡ some (cmp one_and_a_half dozen)
compare_texts_example = compare_texts one_and_a_half dozen one_and_a_half-IsNonneg dozen-IsNonneg

cmp-eq_normal_example :
    (cmp one_and_a_half (record { coefficient = pos 15; scale = 1 }) ≡ Ordering.eq)
    ↔ (normal one_and_a_half ≡ normal (record { coefficient = pos 15; scale = 1 }))
cmp-eq_normal_example = cmp-eq_normal one_and_a_half (record { coefficient = pos 15; scale = 1 })

half_below : cmp minus_half one_and_a_half ≢ Ordering.gt
unfolding cmp rescale pow10 ◌*ℤ◌
half_below e = ground arith

half_below_dozen : cmp one_and_a_half dozen ≢ Ordering.gt
unfolding cmp rescale pow10 ◌*ℤ◌
half_below_dozen e = ground arith

add_assoc_example :
    add (add minus_half one_and_a_half) dozen ≡ add minus_half (add one_and_a_half dozen)
add_assoc_example = add_assoc minus_half one_and_a_half dozen

sub-add_example : add (sub minus_half dozen) dozen ≡ normal minus_half
sub-add_example = sub-add minus_half dozen

mul-add_example :
    mul one_and_a_half (add minus_half dozen)
    ≡ add (mul one_and_a_half minus_half) (mul one_and_a_half dozen)
mul-add_example = mul-add one_and_a_half minus_half dozen
