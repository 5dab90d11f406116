-- ===== src/Gateway/Rounding.antt =====
-- What `roundUp` of internal/gateway/count.go makes of a figure: the next multiple of the last place kept.
use costroid.Prelude.{
  ℕ, suc, ◌+◌, ◌-◌, ◌*◌, ◌≤◌, ◌<◌, leb, ◌==◌, Ordering, max, false, ◌≡◌, ◌≢◌, refl, sym, ap, ap₂,
  ◌∙◌, inl, inr, Bool-cases, some, codes, arith,
}
use costroid.Prelude.Int.{ℤ, pos, nat_abs, ◌+ℤ◌, ◌*ℤ◌, compare_ℤ, +ℤ_parts}
use costroid.Prelude.Power.{pow10, pow10-zero}
use costroid.Decimal.{
  Decimal, normal, normal_loop, rescale, add, div_pow10, cmp, sign, scale, from_int,
}
use costroid.Decimal.Value.{rescale-normal, rescale-mk, rescale-add, add-scale-le, normal-scale-le}
use costroid.Decimal.Normal.{normal-IsNormal, normal_idem}
use costroid.Decimal.Compare.{cmp-rescale, cmp-normal, cmp-add, cmp-eq_normal}
use costroid.Decimal.Text.{parse, plain, digits_of, string}
use costroid.Decimal.RoundTrip.{decimal_of, string-unsigned, unsigned_value}
use costroid.Decimal.Nonneg.{IsNonneg, normal-IsNonneg}
use costroid.Gateway.{round_up}
use costroid.Gateway.Places.{kept_text}

-- The last place that is kept.
abbrev pub step_of : ℕ → Decimal
step_of places = div_pow10 (decimal_of 1 0) places

pos-*ℤ : (a b : ℕ) → pos a *ℤ pos b ≡ pos (a * b)
unfolding ◌*ℤ◌
pos-*ℤ a b = ground arith

pos-+ℤ : (a b : ℕ) → pos a +ℤ pos b ≡ pos (a + b)
unfolding ◌+ℤ◌
pos-+ℤ a b = ground arith

zero_more : (n : ℕ) → 0 + n ≡ n
zero_more n = omega arith

step-scale-le : (places : ℕ) → (step_of places).scale ≤ places
unfolding div_pow10
step-scale-le places =
    omega (arith, normal-scale-le (record { coefficient = pos 1; scale = 0 + places }))

module _ (kept places k : ℕ) (l : places ≤ k) where
  rescale-kept : rescale (normal (decimal_of kept places)) k ≡ pos (kept * pow10 (k - places))
  rescale-kept =
      rescale-normal (decimal_of kept places) k l
      ∙ rescale-mk (pos kept) places k
      ∙ pos-*ℤ kept (pow10 (k - places))

  rescale-step : rescale (step_of places) k ≡ pos (pow10 (k - places))
  unfolding div_pow10
  rescale-step =
      rescale-normal (record { coefficient = pos 1; scale = 0 + places }) k (omega arith)
      ∙ rescale-mk (pos 1) (0 + places) k
      ∙ pos-*ℤ 1 (pow10 (k - (0 + places)))
      ∙ ap pos (omega (arith, ap (λ n. pow10 (k - n)) (zero_more places)))

nothing_left : (k : ℕ) → k - k ≡ 0
nothing_left k = omega arith

one_more : (a t : ℕ) → a * t + t ≡ suc a * t
one_more a t = grind arith

compare_le : (a b : ℕ) → a ≤ b → compare_ℤ (pos a) (pos b) ≢ Ordering.gt
compare_le a b l e = absurd (ground arith)

rescale_self : (m k : ℕ) → rescale (decimal_of m k) k ≡ pos m
rescale_self m k =
    rescale-mk (pos m) k k
    ∙ pos-*ℤ m (pow10 (k - k))
    ∙ ap pos (omega (arith, ap (λ n. m * n) (ap pow10 (nothing_left k) ∙ pow10-zero)))

-- A figure between what is kept and the next.
module _ (m k kept places : ℕ) (l : places ≤ k) where
  kept_decimal : Decimal
  kept_decimal = normal (decimal_of kept places)

  kept-scale-le : kept_decimal.scale ≤ places
  unfolding kept_decimal
  kept-scale-le = normal-scale-le (decimal_of kept places)

  cmp-kept : kept * pow10 (k - places) ≤ m → cmp kept_decimal (decimal_of m k) ≢ Ordering.gt
  unfolding kept_decimal
  cmp-kept low e = compare_le (kept * pow10 (k - places)) m low (
      sym (
        cmp-rescale (normal (decimal_of kept places)) (decimal_of m k) k
          (omega (arith, kept-scale-le)) (omega arith)
        ∙ ap₂ compare_ℤ (rescale-kept kept places k l) (rescale_self m k))
      ∙ e)

  next_rescale : rescale (add kept_decimal (step_of places)) k ≡ pos (suc kept * pow10 (k - places))
  unfolding kept_decimal
  next_rescale =
      rescale-add (normal (decimal_of kept places)) (step_of places) k
        (omega (arith, kept-scale-le)) (omega (arith, step-scale-le places))
      ∙ ap₂ (λ a b. a +ℤ b) (rescale-kept kept places k l) (rescale-step kept places k l)
      ∙ pos-+ℤ (kept * pow10 (k - places)) (pow10 (k - places))
      ∙ ap pos (one_more kept (pow10 (k - places)))

  next-scale-le : (add kept_decimal (step_of places)).scale ≤ k
  next-scale-le =
      omega (arith, add-scale-le kept_decimal (step_of places), kept-scale-le, step-scale-le places)

  cmp-next :
      m < suc kept * pow10 (k - places)
      → cmp (decimal_of m k) (add kept_decimal (step_of places)) ≢ Ordering.gt
  cmp-next high e = compare_le m (suc kept * pow10 (k - places)) (omega arith) (
      sym (
        cmp-rescale (decimal_of m k) (add kept_decimal (step_of places)) k (omega arith)
          next-scale-le
        ∙ ap₂ compare_ℤ (rescale_self m k) next_rescale)
      ∙ e)

cmp-normal_right : (d e : Decimal) → cmp d (normal e) ≡ cmp d e
cmp-normal_right d e =
    sym (cmp-normal d (normal e))
    ∙ ap (cmp (normal d)) (normal_idem (normal e) (normal-IsNormal e))
    ∙ cmp-normal d e

cmp-normal_left : (d e : Decimal) → cmp (normal d) e ≡ cmp d e
cmp-normal_left d e =
    sym (cmp-normal (normal d) e)
    ∙ ap (λ n. cmp n (normal e)) (normal_idem (normal d) (normal-IsNormal d))
    ∙ cmp-normal d e

parse-one : parse (codes "1") ≡ some (decimal_of 1 0)
unfolding parse normal_loop
parse-one = refl

module _ (figure : Decimal) (places : ℕ) (nonneg : IsNonneg figure) (p : 0 < places)
    (l : places < scale figure) where
  rounded_parts :
      (kept : Decimal) × (round_up figure places ≡ some (add kept (step_of places)))
      × (kept.scale ≤ places)
      × (cmp kept figure ≢ Ordering.gt)
      × (cmp figure (add kept (step_of places)) ≢ Ordering.gt)
  unfolding scale round_up kept_decimal
  rounded_parts =
      let n = normal figure in
      let m = nat_abs n.coefficient in
      let k = n.scale in
      let (kept, w, f, parts, parsed, low, high) = kept_text m k places p l in
      let same : decimal_of m k ≡ normal figure =
        unsigned_value n (normal-IsNonneg figure nonneg) in
      let scaled : (k == 0) ≡ false = ground arith in
      let long : leb k places ≡ false = ground arith in
      let text : string figure ≡ plain (digits_of m) k =
        string-unsigned figure nonneg ∙ rw scaled in
      (
        normal (decimal_of kept places),
        rw (long, text, parts, parsed, parse-one),
        normal-scale-le (decimal_of kept places),
        λ e. cmp-kept m k kept places (omega arith) low (
            ap (cmp (normal (decimal_of kept places))) same
            ∙ cmp-normal_right (normal (decimal_of kept places)) figure
            ∙ e),
        λ e. cmp-next m k kept places (omega arith) high (
            ap (λ d. cmp d (add (normal (decimal_of kept places)) (step_of places))) same
            ∙ cmp-normal_left figure (add (normal (decimal_of kept places)) (step_of places))
            ∙ e),
      )

compare_grown : (a : ℤ) (t : ℕ) → compare_ℤ a (a +ℤ pos t) ≢ Ordering.gt
compare_grown a t e = absurd (ground (arith, +ℤ_parts a (pos t)))

cmp-add_step : (d : Decimal) (places : ℕ) → cmp d (add d (step_of places)) ≢ Ordering.gt
cmp-add_step d places e =
    let k = max d.scale places in
    let small : (step_of places).scale ≤ k = omega (arith, step-scale-le places) in
    let sum : (add d (step_of places)).scale ≤ k =
      omega (arith, add-scale-le d (step_of places), step-scale-le places) in
    compare_grown (rescale d k) (pow10 (k - places)) (
      sym (
        cmp-rescale d (add d (step_of places)) k (omega arith) sum
        ∙ ap (compare_ℤ (rescale d k)) (
            rescale-add d (step_of places) k (omega arith) small
            ∙ ap (λ b. rescale d k +ℤ b) (rescale-step 0 places k (omega arith))))
      ∙ e)

cmp_self : (d : Decimal) → cmp d d ≢ Ordering.gt
cmp_self d e = absurd (ground (arith, (cmp-eq_normal d d).1 refl))

narrow_sum :
    (kept : Decimal) (places : ℕ) → kept.scale ≤ places → scale (add kept (step_of places)) ≤ places
unfolding scale
narrow_sum kept places l = omega (
  arith,
  normal-scale-le (add kept (step_of places)),
  add-scale-le kept (step_of places),
  step-scale-le places,
)

-- `roundUp` answers for every figure that is not negative and every positive count of places,
-- with a figure of no more places that is not below the one given and not above it by more than
-- one unit of the last place.
pub round_up-IsClose :
    (figure : Decimal) (places : ℕ)
    → sign figure ≢ Ordering.lt
    → 0 < places
    → (rounded : Decimal) × (round_up figure places ≡ some rounded)
      × (scale rounded ≤ places)
      × (cmp figure rounded ≢ Ordering.gt)
      × (cmp rounded (add figure (div_pow10 (from_int (pos 1)) places)) ≢ Ordering.gt)
unfolding from_int
round_up-IsClose figure places nonneg p = elim (Bool-cases (leb (scale figure) places)) [
  | inl short ↦ (
    figure,
    (unfold round_up in rw short),
    ground arith,
    cmp_self figure,
    cmp-add_step figure places,
  )
  | inr long ↦
      let (kept, rounded, narrow, low, high) =
        rounded_parts figure places nonneg p (ground arith) in
      (
        add kept (step_of places),
        rounded,
        narrow_sum kept places narrow,
        high,
        λ e. low (sym (cmp-add kept figure (step_of places)) ∙ e),
      )
]
