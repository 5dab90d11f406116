-- ===== src/Reconcile/Tolerance.antt =====
-- The tolerances of internal/reconcile.
use costroid.Prelude.{
  ℕ, ◌+◌, ◌*◌, ◌≤◌, compare, Bool, true, false, ◌≡◌, ◌↔◌, ◌⊎◌, refl, ap, ap₂, sym, ◌∙◌, inl, inr,
  Bool-cases, if◌then◌else◌, some, Bytes, arith,
}
use costroid.Prelude.Int.{
  ℤ, pos, negsuc, nat_abs, pos_part, neg_part, ◌*ℤ◌, ◌-ℤ◌, -ℤ_parts, eq_of_parts, *ℤ-one, pos-*,
  compare_ℤ,
}
use costroid.Prelude.Power.{pow10, pow10-zero}
use costroid.Decimal.{Decimal, zero_value, from_int, mul, cmp, sign, rescale}
use costroid.Decimal.Compare.{cmp-rescale}
use costroid.Decimal.Value.{rescale-sub, rescale-mul, sub-scale-le, mul-scale-le}
use costroid.Reconcile.{minor_units, is_lt, is_le, absolute, units_of, within_rounding}

rescale_self : (d : Decimal) → rescale d d.scale ≡ d.coefficient
unfolding rescale
rescale_self d =
    ap (λ n. d.coefficient *ℤ pos (pow10 n)) (omega arith)
    ∙ ap (λ n. d.coefficient *ℤ pos n) pow10-zero
    ∙ *ℤ-one d.coefficient

rescale-zero_value : (k : ℕ) → rescale zero_value k ≡ pos 0
unfolding rescale ◌*ℤ◌
rescale-zero_value k = eq_of_parts _ _ (ground arith)

rescale-from_int : (n k : ℕ) → rescale (from_int (pos n)) k ≡ pos (n * pow10 k)
unfolding rescale from_int
rescale-from_int n k = ap (λ j. pos n *ℤ pos (pow10 j)) (omega arith) ∙ sym (pos-* n (pow10 k))

nat_abs-flip :
    (c : ℤ) → is_lt (compare (pos_part c) (neg_part c)) ≡ true → pos 0 -ℤ c ≡ pos (nat_abs c)
nat_abs-flip (pos n) h = absurd (ground arith)
nat_abs-flip (negsuc n) h = eq_of_parts _ _ (omega (arith, -ℤ_parts (pos 0) (negsuc n)))

nat_abs-keep : (c : ℤ) → is_lt (compare (pos_part c) (neg_part c)) ≡ false → c ≡ pos (nat_abs c)
nat_abs-keep (pos n) h = refl
nat_abs-keep (negsuc n) h = absurd (ground arith)

-- `absolute` has the size of the coefficient, at the same scale.
rescale-absolute : (d : Decimal) → rescale (absolute d) d.scale ≡ pos (nat_abs d.coefficient)
unfolding absolute sign
rescale-absolute d = elim (Bool-cases (is_lt (sign d))) [
  | inl low ↦ rw (low) (
      rescale-sub zero_value d d.scale (omega arith) (omega arith)
      ∙ ap₂ ◌-ℤ◌ (rescale-zero_value d.scale) (rescale_self d)
      ∙ nat_abs-flip d.coefficient low)
  | inr high ↦ rw (high) (rescale_self d ∙ nat_abs-keep d.coefficient high)
]

absolute-scale-le : (d : Decimal) → (absolute d).scale ≤ d.scale
unfolding absolute
absolute-scale-le d = elim (Bool-cases (is_lt (sign d))) [
  | inl low ↦ rw (low) (omega (arith, sub-scale-le zero_value d))
  | inr high ↦ rw (high) (omega arith)
]

-- What `units_of` answers, at the scale of the variance.
rescale-units_of :
    (places : ℕ) (v : Decimal)
    → rescale (units_of places v) v.scale ≡ pos (nat_abs v.coefficient * pow10 places)
unfolding units_of
rescale-units_of places v =
    ap (rescale (mul (absolute v) (from_int (pos (pow10 places))))) (omega arith)
    ∙ rescale-mul (absolute v) (from_int (pos (pow10 places))) v.scale 0 (absolute-scale-le v)
        (unfold from_int in omega arith)
    ∙ ap₂ ◌*ℤ◌ (rescale-absolute v) (rescale-from_int (pow10 places) 0)
    ∙ sym (pos-* (nat_abs v.coefficient) (pow10 places * pow10 0))
    ∙ ap (λ one. pos (nat_abs v.coefficient * (pow10 places * one))) pow10-zero
    ∙ ap (λ n. pos (nat_abs v.coefficient * n)) (omega arith)

units_of-scale-le : (places : ℕ) (v : Decimal) → (units_of places v).scale ≤ v.scale
unfolding units_of from_int
units_of-scale-le places v =
    omega (arith, absolute-scale-le v, mul-scale-le (absolute v) (from_int (pos (pow10 places))))

-- The test of the square of a figure, at twice the figure's scale.
rescale_square :
    (d : Decimal) (k n : ℕ)
    → d.scale ≤ k
    → rescale d k ≡ pos n
    → rescale (mul (mul d d) (from_int (pos 4))) (k + k) ≡ pos (n * n * 4)
rescale_square d k n h e =
    ap (rescale (mul (mul d d) (from_int (pos 4)))) (omega arith)
    ∙ rescale-mul (mul d d) (from_int (pos 4)) (k + k) 0 (omega (arith, mul-scale-le d d))
        (unfold from_int in omega arith)
    ∙ ap₂ ◌*ℤ◌ (rescale-mul d d k k h h ∙ ap₂ ◌*ℤ◌ e e ∙ sym (pos-* n n)) (rescale-from_int 4 0)
    ∙ sym (pos-* (n * n) (4 * pow10 0))
    ∙ ap (λ one. pos (n * n * (4 * one))) pow10-zero
    ∙ ap pos (omega arith)

square-scale-le :
    (d : Decimal) (k : ℕ) → d.scale ≤ k → (mul (mul d d) (from_int (pos 4))).scale ≤ k + k
unfolding from_int
square-scale-le d k h = omega (arith, mul-scale-le d d, mul-scale-le (mul d d) (from_int (pos 4)))

is_le-cmp :
    (d e : Decimal) (k m n : ℕ)
    → d.scale ≤ k
    → e.scale ≤ k
    → rescale d k ≡ pos m
    → rescale e k ≡ pos n
    → (is_le (cmp d e) ≡ true) ↔ (m ≤ n)
is_le-cmp d e k m n hd he p q =
    let same : cmp d e ≡ compare (m + 0) (n + 0) = cmp-rescale d e k hd he ∙ ap₂ compare_ℤ p q in
    (λ h. ground arith, λ h. ground arith)

-- A variance of `units / 10 ^ scale` of the smallest units is rounding: 100 of them at most, or half the
-- square root of the rows, as whole numbers.
abbrev pub IsRounding : ℕ → ℕ → ℕ → Type 0
IsRounding units scale rows =
    (units ≤ 100 * pow10 scale) ⊎ (units * units * 4 ≤ rows * pow10 (scale + scale))

tests_of :
    (first second : Bool) {P Q : Type 0}
    → (first ≡ true) ↔ P
    → (second ≡ true) ↔ Q
    → ((if first then true else second) ≡ true) ↔ (P ⊎ Q)
tests_of true second p q = (λ h. inl (p.0 refl), λ h. refl)
tests_of false second p q =
    (λ h. inr (q.0 h), λ h. elim h [ inl a ↦ absurd (ground (arith, p.1 a)) | inr b ↦ q.1 b ])

-- For a currency with known places and a count of rows that is not negative `WithinRounding`
-- answers, and accepts a variance exactly when its size, in the currency's smallest units, is at
-- most 100 or four times its square is at most the count of rows.
pub within_rounding-IsRounding :
    (currency : Bytes) (places rows : ℕ) (variance : Decimal)
    → minor_units currency ≡ some places
    → (accepted : Bool) × (within_rounding currency (pos rows) variance ≡ some accepted)
      × ((accepted ≡ true)
          ↔ IsRounding (nat_abs variance.coefficient * pow10 places) variance.scale rows)
unfolding within_rounding
within_rounding-IsRounding currency places rows variance known =
    let units = units_of places variance in
    let n = nat_abs variance.coefficient * pow10 places in
    let s = variance.scale in
    let small = units_of-scale-le places variance in
    let value = rescale-units_of places variance in
    (
      (if is_le (cmp units (from_int (pos 100)))
          then true
          else is_le (cmp (mul (mul units units) (from_int (pos 4))) (from_int (pos rows)))),
      rw (known, within_rounding) refl,
      tests_of _ _
          (is_le-cmp units (from_int (pos 100)) s n (100 * pow10 s) small
            (unfold from_int in omega arith) value (rescale-from_int 100 s))
          (is_le-cmp (mul (mul units units) (from_int (pos 4))) (from_int (pos rows)) (s + s)
            (n * n * 4) (rows * pow10 (s + s)) (square-scale-le units s small)
            (unfold from_int in omega arith) (rescale_square units s n small value)
            (rescale-from_int rows (s + s))),
    )
