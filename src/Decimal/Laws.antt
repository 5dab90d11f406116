-- ===== src/Decimal/Laws.antt =====
-- The laws of the arithmetic of decimal.go, as equations between results: the order in which
-- amounts are added up never shows.
use costroid.Prelude.{◌+◌, ◌≤◌, max, ◌≡◌, sym, ap, ap₂, ◌∙◌, arith}
use costroid.Prelude.Int.{◌+ℤ◌, ◌*ℤ◌, +ℤ_comm, +ℤ_assoc, *ℤ_comm, *ℤ-+ℤ, -ℤ-+ℤ_cancel}
use costroid.Decimal.{Decimal, rescale, normal, add, sub, mul}
use costroid.Decimal.Normal.{normal-IsNormal, normal-≈}
use costroid.Decimal.Value.{
  rescale-add, rescale-sub, rescale-mul, rescale_of_≈, add-scale-le, sub-scale-le, mul-scale-le,
  add-IsNormal, mul-IsNormal, eq_of_rescale, normal-scale-le,
}

pub add_comm : (d e : Decimal) → add d e ≡ add e d
add_comm d e =
    let k = max d.scale e.scale in
    eq_of_rescale _ _ k (add-IsNormal d e) (add-IsNormal e d) (add-scale-le d e)
      (omega (arith, add-scale-le e d))
      (rescale-add d e k (omega arith) (omega arith)
        ∙ +ℤ_comm (rescale d k) (rescale e k)
        ∙ sym (rescale-add e d k (omega arith) (omega arith)))

-- `Add` is associative, as an equation between its results.
pub add_assoc : (d e f : Decimal) → add (add d e) f ≡ add d (add e f)
add_assoc d e f =
    let k = d.scale + e.scale + f.scale in
    let le1 : (add d e).scale ≤ k = omega (arith, add-scale-le d e) in
    let le2 : (add e f).scale ≤ k = omega (arith, add-scale-le e f) in
    eq_of_rescale _ _ k (add-IsNormal (add d e) f) (add-IsNormal d (add e f))
      (omega (arith, add-scale-le (add d e) f)) (omega (arith, add-scale-le d (add e f)))
      (rescale-add (add d e) f k le1 (omega arith)
        ∙ ap (λ x. x +ℤ rescale f k) (rescale-add d e k (omega arith) (omega arith))
        ∙ +ℤ_assoc (rescale d k) (rescale e k) (rescale f k)
        ∙ ap (λ x. rescale d k +ℤ x) (sym (rescale-add e f k (omega arith) (omega arith)))
        ∙ sym (rescale-add d (add e f) k (omega arith) le2))

-- What `Sub` took away `Add` gives back, in normal form.
pub sub-add : (d e : Decimal) → add (sub d e) e ≡ normal d
sub-add d e =
    let k = max d.scale e.scale in
    eq_of_rescale _ _ k (add-IsNormal (sub d e) e) (normal-IsNormal d)
      (omega (arith, add-scale-le (sub d e) e, sub-scale-le d e)) (omega (arith, normal-scale-le d))
      (rescale-add (sub d e) e k (sub-scale-le d e) (omega arith)
        ∙ ap (λ x. x +ℤ rescale e k) (rescale-sub d e k (omega arith) (omega arith))
        ∙ -ℤ-+ℤ_cancel (rescale d k) (rescale e k)
        ∙ rescale_of_≈ d (normal d) k (omega arith) (omega (arith, normal-scale-le d)) (normal-≈ d))

pub mul_comm : (d e : Decimal) → mul d e ≡ mul e d
unfolding mul
mul_comm d e =
    ap normal
      (λ i. record { coefficient = *ℤ_comm d.coefficient e.coefficient i; scale = swapped i })
  where
    swapped : d.scale + e.scale ≡ e.scale + d.scale
    swapped = omega arith

-- `Mul` distributes over `Add`: pricing a sum is the sum of the prices.
pub mul-add : (p d e : Decimal) → mul p (add d e) ≡ add (mul p d) (mul p e)
mul-add p d e =
    let k = max d.scale e.scale in
    let le1 : (mul p d).scale ≤ p.scale + k = omega (arith, mul-scale-le p d) in
    let le2 : (mul p e).scale ≤ p.scale + k = omega (arith, mul-scale-le p e) in
    eq_of_rescale _ _ (p.scale + k) (mul-IsNormal p (add d e)) (add-IsNormal (mul p d) (mul p e))
      (omega (arith, mul-scale-le p (add d e), add-scale-le d e))
      (omega (arith, add-scale-le (mul p d) (mul p e)))
      (rescale-mul p (add d e) p.scale k (omega arith) (add-scale-le d e)
        ∙ ap (λ x. rescale p p.scale *ℤ x) (rescale-add d e k (omega arith) (omega arith))
        ∙ *ℤ-+ℤ (rescale p p.scale) (rescale d k) (rescale e k)
        ∙ sym (
            ap₂ ◌+ℤ◌ (rescale-mul p d p.scale k (omega arith) (omega arith))
              (rescale-mul p e p.scale k (omega arith) (omega arith)))
        ∙ sym (rescale-add (mul p d) (mul p e) (p.scale + k) le1 le2))
