-- ===== src/Decimal.antt =====
-- internal/decimal/decimal.go: the exact base-10 number of money and quantities. A big integer is
-- an integer of any size, and a nil coefficient is 0. The results -1, 0 and 1 of a comparison are
-- `lt`, `eq` and `gt`. Scales are never negative in the program, so they are natural numbers.
-- The children: Text reads and writes decimals; the others hold what is proved.
pub mod Normal
pub mod Value
pub mod Laws
pub mod Compare
pub mod Text
pub mod RoundTrip
pub mod Signed
pub mod Nonneg
use costroid.Prelude.{
  ℕ, zero, suc, ◌+◌, ◌-◌, ◌*◌, ◌/◌, ◌%◌, ◌==◌, compare, Ordering, max, Bool, true, false, ◌≡◌, refl,
  if◌then◌else◌, not,
}
use costroid.Prelude.Int.{
  ℤ, pos, negsuc, pos_part, neg_part, nat_abs, neg_ℕ, ◌+ℤ◌, ◌-ℤ◌, ◌*ℤ◌, compare_ℤ,
}
use costroid.Prelude.Power.{pow10}

pub record Decimal : Type 0 where
  pub coefficient : ℤ
  pub scale : ℕ

-- `Decimal{}`
abbrev pub zero_value : Decimal
zero_value = record { coefficient = pos 0; scale = 0 }

unfoldable pub from_int : ℤ → Decimal
from_int value = record { coefficient = value; scale = 0 }

-- `QuoRem` by ten: the quotient rounds towards zero, and the remainder is 0 with that of |c|.
abbrev pub quo10 : ℤ → ℤ
quo10 (pos n) = pos (n / 10)
quo10 (negsuc n) = neg_ℕ (suc n / 10)

abbrev pub ends_in_zero : ℤ → Bool
ends_in_zero c = nat_abs c % 10 == 0

-- `for scale > 0 { … }`, with the `break` on a digit that is not 0.
unfoldable pub normal_loop : ℤ → ℕ → Decimal
normal_loop c zero = record { coefficient = c; scale = 0 }
normal_loop c (suc s) =
    let rest = normal_loop (quo10 c) s in
    if ends_in_zero c then rest else record { coefficient = c; scale = suc s }

unfoldable pub normal : Decimal → Decimal
normal d = normal_loop d.coefficient d.scale

unfoldable pub rescale : Decimal → ℕ → ℤ
rescale d scale = d.coefficient *ℤ pos (pow10 (scale - d.scale))

unfoldable pub aligned : Decimal → Decimal → ℤ × ℤ × ℕ
aligned a b = let scale = max a.scale b.scale in (rescale a scale, rescale b scale, scale)

unfoldable pub add : Decimal → Decimal → Decimal
unfolding aligned
add d other = let r = aligned d other in normal (record { coefficient = r.0 +ℤ r.1; scale = r.2 })

unfoldable pub sub : Decimal → Decimal → Decimal
unfolding aligned
sub d other = let r = aligned d other in normal (record { coefficient = r.0 -ℤ r.1; scale = r.2 })

unfoldable pub mul : Decimal → Decimal → Decimal
mul d other =
    normal
      (record { coefficient = d.coefficient *ℤ other.coefficient; scale = d.scale + other.scale })

unfoldable pub div_pow10 : Decimal → ℕ → Decimal
div_pow10 d power = normal (record { coefficient = d.coefficient; scale = d.scale + power })

unfoldable pub shift : Decimal → ℤ → Decimal
shift d (negsuc n) = div_pow10 d (suc n)
shift d (pos power) =
    normal (record { coefficient = d.coefficient *ℤ pos (pow10 power); scale = d.scale })

unfoldable pub cmp : Decimal → Decimal → Ordering
unfolding aligned
cmp d other = let r = aligned d other in compare_ℤ r.0 r.1

unfoldable pub sign : Decimal → Ordering
sign d = compare (pos_part d.coefficient) (neg_part d.coefficient)

unfoldable pub scale : Decimal → ℕ
scale d = (normal d).scale
