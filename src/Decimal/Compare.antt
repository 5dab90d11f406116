-- ===== src/Decimal/Compare.antt =====
-- `Cmp` and `Sign` of decimal.go: a total order on the numbers, which addition keeps.
use costroid.Prelude.{
  ℕ, ◌+◌, ◌-◌, ◌≤◌, max, compare, Ordering, ◌≡◌, ◌≢◌, ◌↔◌, sym, ap, subst, ap₂, ◌∙◌, arith,
}
use costroid.Prelude.Int.{
  ℤ, pos_part, neg_part, ◌+ℤ◌, ◌-ℤ◌, +ℤ_parts, -ℤ_parts, eq_of_parts, compare_ℤ, compare_ℤ-*ℤ-pos,
  pos_part-*ℤ, neg_part-*ℤ, compare-mul_right,
}
use costroid.Prelude.Power.{pow10, pow10-pos}
use costroid.Decimal.{Decimal, rescale, normal, add, sub, cmp, sign}
use costroid.Decimal.Normal.{◌≈◌, normal-≈, ≈_refl, normal_unique, normal-IsNormal}
use costroid.Decimal.Value.{
  rescale-add, rescale-sub, rescale_of_≈, ≈_of_rescale, add-scale-le, rescale-rescale,
  normal-scale-le,
}

-- `Cmp` is the order of the coefficients at any scale that holds both.
pub cmp-rescale :
    (d e : Decimal) (k : ℕ)
    → d.scale ≤ k
    → e.scale ≤ k
    → cmp d e ≡ compare_ℤ (rescale d k) (rescale e k)
unfolding cmp
cmp-rescale d e k hd he =
    let m = max d.scale e.scale in
    sym (compare_ℤ-*ℤ-pos (rescale d m) (rescale e m) (pow10 (k - m)) (pow10-pos _))
    ∙ ap₂ compare_ℤ (rescale-rescale d m k (omega arith) (omega arith))
        (rescale-rescale e m k (omega arith) (omega arith))

compare_ℤ_eq : (a b : ℤ) → compare_ℤ a b ≡ Ordering.eq → a ≡ b
compare_ℤ_eq a b h = eq_of_parts a b (ground arith)

compare_ℤ_refl : (a b : ℤ) → a ≡ b → compare_ℤ a b ≡ Ordering.eq
compare_ℤ_refl a b h = ground arith

-- `Cmp` finds two decimals equal exactly when they are the same number.
pub cmp-eq_iff : (d e : Decimal) → (cmp d e ≡ Ordering.eq) ↔ (d ≈ e)
cmp-eq_iff d e =
    let k = max d.scale e.scale in
    let at_k = cmp-rescale d e k (omega arith) (omega arith) in
    (
      λ h. ≈_of_rescale d e k (omega arith) (omega arith) (compare_ℤ_eq _ _ (sym at_k ∙ h)),
      λ h. at_k ∙ compare_ℤ_refl _ _ (rescale_of_≈ d e k (omega arith) (omega arith) h),
    )

abbrev pub flip : Ordering → Ordering
flip Ordering.lt = Ordering.gt
flip Ordering.eq = Ordering.eq
flip Ordering.gt = Ordering.lt

compare_ℤ-flip : (a b : ℤ) → compare_ℤ b a ≡ flip (compare_ℤ a b)
compare_ℤ-flip a b = ground arith

-- Swapping the operands swaps the answer.
pub cmp-flip : (d e : Decimal) → cmp e d ≡ flip (cmp d e)
cmp-flip d e =
    let k = max d.scale e.scale in
    cmp-rescale e d k (omega arith) (omega arith)
    ∙ compare_ℤ-flip (rescale d k) (rescale e k)
    ∙ ap flip (sym (cmp-rescale d e k (omega arith) (omega arith)))

compare_ℤ_trans :
    (a b c : ℤ)
    → compare_ℤ a b ≢ Ordering.gt
    → compare_ℤ b c ≢ Ordering.gt
    → compare_ℤ a c ≢ Ordering.gt
compare_ℤ_trans a b c p q = ground arith

-- `Cmp` is transitive: what is not above one that is not above a third is not above the third.
pub cmp_trans :
    (d e f : Decimal) → cmp d e ≢ Ordering.gt → cmp e f ≢ Ordering.gt → cmp d f ≢ Ordering.gt
cmp_trans d e f p q =
    let k = d.scale + e.scale + f.scale in
    let de = cmp-rescale d e k (omega arith) (omega arith) in
    let ef = cmp-rescale e f k (omega arith) (omega arith) in
    let df = cmp-rescale d f k (omega arith) (omega arith) in
    λ h.
      compare_ℤ_trans (rescale d k) (rescale e k) (rescale f k) (λ x. p (de ∙ x)) (λ x. q (ef ∙ x))
        (sym df ∙ h)

compare_ℤ-+ℤ : (a b c : ℤ) → compare_ℤ (a +ℤ c) (b +ℤ c) ≡ compare_ℤ a b
compare_ℤ-+ℤ a b c = ground (arith, +ℤ_parts a c, +ℤ_parts b c)

-- Adding one amount to both sides keeps what `Cmp` answers.
pub cmp-add : (d e f : Decimal) → cmp (add d f) (add e f) ≡ cmp d e
cmp-add d e f =
    let k = d.scale + e.scale + f.scale in
    cmp-rescale (add d f) (add e f) k (omega (arith, add-scale-le d f))
      (omega (arith, add-scale-le e f))
    ∙ ap₂ compare_ℤ (rescale-add d f k (omega arith) (omega arith))
        (rescale-add e f k (omega arith) (omega arith))
    ∙ compare_ℤ-+ℤ (rescale d k) (rescale e k) (rescale f k)
    ∙ sym (cmp-rescale d e k (omega arith) (omega arith))

abbrev sign_ℤ : ℤ → Ordering
sign_ℤ a = compare (pos_part a) (neg_part a)

sign-rescale : (d : Decimal) (k : ℕ) → sign d ≡ sign_ℤ (rescale d k)
unfolding sign rescale
sign-rescale d k =
    sym (
      compare-mul_right (pos_part d.coefficient) (neg_part d.coefficient) (pow10 (k - d.scale))
        (pow10-pos _))
    ∙ simp (pos_part-*ℤ, neg_part-*ℤ) (ap₂ compare (omega arith) (omega arith))

sign_ℤ--ℤ : (a b : ℤ) → sign_ℤ (a -ℤ b) ≡ compare_ℤ a b
sign_ℤ--ℤ a b = ground (arith, -ℤ_parts a b)

-- The sign of a difference is what `Cmp` answers of its two sides.
pub sign-sub : (d e : Decimal) → sign (sub d e) ≡ cmp d e
sign-sub d e =
    let k = max d.scale e.scale in
    sign-rescale (sub d e) k
    ∙ ap sign_ℤ (rescale-sub d e k (omega arith) (omega arith))
    ∙ sign_ℤ--ℤ (rescale d k) (rescale e k)
    ∙ sym (cmp-rescale d e k (omega arith) (omega arith))

pub cmp-normal : (d e : Decimal) → cmp (normal d) (normal e) ≡ cmp d e
cmp-normal d e =
    let k = max d.scale e.scale in
    let nd : (normal d).scale ≤ k = omega (arith, normal-scale-le d) in
    let ne : (normal e).scale ≤ k = omega (arith, normal-scale-le e) in
    cmp-rescale (normal d) (normal e) k nd ne
    ∙ ap₂ compare_ℤ (sym (rescale_of_≈ d (normal d) k (omega arith) nd (normal-≈ d)))
        (sym (rescale_of_≈ e (normal e) k (omega arith) ne (normal-≈ e)))
    ∙ sym (cmp-rescale d e k (omega arith) (omega arith))

pub sign-normal : (d : Decimal) → sign (normal d) ≡ sign d
sign-normal d =
    let k = d.scale in
    let nd : (normal d).scale ≤ k = normal-scale-le d in
    sign-rescale (normal d) k
    ∙ ap sign_ℤ (sym (rescale_of_≈ d (normal d) k (omega arith) nd (normal-≈ d)))
    ∙ sym (sign-rescale d k)

-- `Cmp` finds two decimals equal exactly when they have one normal form.
pub cmp-eq_normal : (d e : Decimal) → (cmp d e ≡ Ordering.eq) ↔ (normal d ≡ normal e)
cmp-eq_normal d e =
    let normals = cmp-eq_iff (normal d) (normal e) in
    (
      λ h.
          normal_unique (normal d) (normal e) (normal-IsNormal d) (normal-IsNormal e)
            (normals.0 (cmp-normal d e ∙ h)),
      λ h. sym (cmp-normal d e) ∙ normals.1 (subst (λ n. normal d ≈ n) h (≈_refl (normal d))),
    )
