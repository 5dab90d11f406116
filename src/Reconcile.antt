-- ===== src/Reconcile.antt =====
-- internal/reconcile/tolerance.go, and `within` and `absolute` of reconcile.go: when two figures
-- for the same charges agree. `none` is the error of `WithinRounding`.

pub mod Tolerance
use costroid.Prelude.{
  ℕ, ltb, Ordering, Bool, true, false, if◌then◌else◌, Option, none, some, Bytes, bytes_eq, codes,
}
use costroid.Prelude.Int.{ℤ, pos, negsuc}
use costroid.Prelude.Power.{pow10}
use costroid.Decimal.{Decimal, zero_value, from_int, sub, mul, cmp, sign}

unfoldable pub minor_units : Bytes → Option ℕ
minor_units currency =
    if bytes_eq currency (codes "USD")
    then some 2
    else if bytes_eq currency (codes "EUR")
    then some 2
    else if bytes_eq currency (codes "GBP")
    then some 2
    else if bytes_eq currency (codes "JPY")
    then some 0
    else none

abbrev pub rounding_floor : ℕ
rounding_floor = 100

abbrev pub is_lt : Ordering → Bool
is_lt Ordering.lt = true
is_lt _ = false

abbrev pub is_le : Ordering → Bool
is_le Ordering.gt = false
is_le _ = true

unfoldable pub absolute : Decimal → Decimal
absolute d = if is_lt (sign d) then sub zero_value d else d

-- A percentage of the provider's figure, which a gap may reach.
unfoldable pub within : Decimal → Decimal → ℕ → Bool
unfolding absolute
within ledger provider percent =
    let gap = absolute (sub provider ledger) in
    is_le (cmp (mul gap (from_int (pos 100))) (mul provider (from_int (pos percent))))

-- The variance, in the currency's smallest units.
unfoldable pub units_of : ℕ → Decimal → Decimal
unfolding absolute
units_of places variance = mul (absolute variance) (from_int (pos (pow10 places)))

-- `WithinRounding`
unfoldable pub within_rounding : Bytes → ℤ → Decimal → Option Bool
unfolding minor_units units_of
within_rounding currency (negsuc n) variance = none
within_rounding currency (pos rows) variance = elim (minor_units currency) [
  | none ↦ none
  | some places ↦
      let units = units_of places variance in
      some (
        if is_le (cmp units (from_int (pos rounding_floor)))
        then true
        else is_le (cmp (mul (mul units units) (from_int (pos 4))) (from_int (pos rows))))
]
