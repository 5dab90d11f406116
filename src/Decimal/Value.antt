-- ===== src/Decimal/Value.antt =====
-- The arithmetic of decimal.go on the numbers: an operation at any scale that is large enough is
-- the operation of the integers, so sums and products are exact.
use costroid.Prelude.{ℕ, zero, suc, ◌+◌, ◌-◌, ◌*◌, ◌≤◌, max, ◌≡◌, refl, sym, ap, ap₂, ◌∙◌, arith}
use costroid.Prelude.Int.{
  ℤ, pos, ◌+ℤ◌, ◌-ℤ◌, ◌*ℤ◌, *ℤ-pos, *ℤ_right_comm, *ℤ_interchange, *ℤ-pos_cancel, +ℤ-*ℤ, -ℤ-*ℤ,
  pos-*,
}
use costroid.Prelude.Power.{pow10, pow10-pos, pow10-add, pow10-split}
use costroid.Decimal.{Decimal, quo10, normal_loop, normal, rescale, add, sub, mul}
use costroid.Decimal.Normal.{◌≈◌, IsNormal, normal-≈, normal-IsNormal, normal_unique}

rescale-*ℤ :
    (d : Decimal) (k : ℕ)
    → d.scale ≤ k
    → rescale d k *ℤ pos (pow10 d.scale) ≡ d.coefficient *ℤ pos (pow10 k)
unfolding rescale
rescale-*ℤ d k h =
    *ℤ-pos d.coefficient (pow10 (k - d.scale)) (pow10 d.scale)
    ∙ ap (λ n. d.coefficient *ℤ pos n) (sym (pow10-split k d.scale h))

-- Decimals of one number have one coefficient at a scale that holds both.
pub rescale_of_≈ :
    (d e : Decimal) (k : ℕ) → d.scale ≤ k → e.scale ≤ k → d ≈ e → rescale d k ≡ rescale e k
rescale_of_≈ d e k hd he h = *ℤ-pos_cancel _ _ (pow10 d.scale) (pow10-pos _) (
    *ℤ-pos_cancel _ _ (pow10 e.scale) (pow10-pos _) (
      ap (λ x. x *ℤ pos (pow10 e.scale)) (rescale-*ℤ d k hd)
      ∙ *ℤ_right_comm d.coefficient (pos (pow10 k)) (pos (pow10 e.scale))
      ∙ ap (λ x. x *ℤ pos (pow10 k)) h
      ∙ *ℤ_right_comm e.coefficient (pos (pow10 d.scale)) (pos (pow10 k))
      ∙ ap (λ x. x *ℤ pos (pow10 d.scale)) (sym (rescale-*ℤ e k he))
      ∙ *ℤ_right_comm (rescale e k) (pos (pow10 e.scale)) (pos (pow10 d.scale))))

pub ≈_of_rescale :
    (d e : Decimal) (k : ℕ) → d.scale ≤ k → e.scale ≤ k → rescale d k ≡ rescale e k → d ≈ e
≈_of_rescale d e k hd he h = *ℤ-pos_cancel _ _ (pow10 k) (pow10-pos _) (
    *ℤ_right_comm d.coefficient (pos (pow10 e.scale)) (pos (pow10 k))
    ∙ ap (λ x. x *ℤ pos (pow10 e.scale)) (sym (rescale-*ℤ d k hd))
    ∙ *ℤ_right_comm (rescale d k) (pos (pow10 d.scale)) (pos (pow10 e.scale))
    ∙ ap (λ x. x *ℤ pos (pow10 e.scale) *ℤ pos (pow10 d.scale)) h
    ∙ ap (λ x. x *ℤ pos (pow10 d.scale)) (rescale-*ℤ e k he)
    ∙ *ℤ_right_comm e.coefficient (pos (pow10 k)) (pos (pow10 d.scale)))

normal_loop-scale-le : (c : ℤ) (s : ℕ) → (normal_loop c s).scale ≤ s
unfolding normal_loop
normal_loop-scale-le c zero = omega arith
normal_loop-scale-le c (suc s) = ground (arith, normal_loop-scale-le (quo10 c) s)

pub normal-scale-le : (d : Decimal) → (normal d).scale ≤ d.scale
unfolding normal
normal-scale-le d = normal_loop-scale-le d.coefficient d.scale

pub rescale-normal : (d : Decimal) (k : ℕ) → d.scale ≤ k → rescale (normal d) k ≡ rescale d k
rescale-normal d k h =
    sym (rescale_of_≈ d (normal d) k h (omega (arith, normal-scale-le d)) (normal-≈ d))

pub rescale-rescale :
    (d : Decimal) (m k : ℕ) → d.scale ≤ m → m ≤ k → rescale d m *ℤ pos (pow10 (k - m)) ≡ rescale d k
unfolding rescale
rescale-rescale d m k h l =
    let powers : pow10 (m - d.scale + (k - m)) ≡ pow10 (k - d.scale) = ap pow10 (omega arith) in
    *ℤ-pos d.coefficient (pow10 (m - d.scale)) (pow10 (k - m))
    ∙ ap (λ n. d.coefficient *ℤ pos n) (sym (pow10-add (m - d.scale) (k - m)) ∙ powers)

pub add-scale-le : (d e : Decimal) → (add d e).scale ≤ max d.scale e.scale
unfolding add
add-scale-le d e = normal-scale-le _

pub rescale-mk :
    (c : ℤ) (m k : ℕ) → rescale (record { coefficient = c; scale = m }) k ≡ c *ℤ pos (pow10 (k - m))
unfolding rescale
rescale-mk c m k = refl

module _ (d e : Decimal) (k : ℕ) (hd : d.scale ≤ k) (he : e.scale ≤ k) where
  m : ℕ
  m = max d.scale e.scale

  -- `Add` is the sum of the coefficients at any scale that holds both.
  pub rescale-add : rescale (add d e) k ≡ rescale d k +ℤ rescale e k
  unfolding add m
  rescale-add =
      rescale-normal _ k (omega arith)
      ∙ rescale-mk _ m k
      ∙ +ℤ-*ℤ (rescale d m) (rescale e m) (pos (pow10 (k - m)))
      ∙ ap₂ ◌+ℤ◌ (rescale-rescale d m k (omega arith) (omega arith))
          (rescale-rescale e m k (omega arith) (omega arith))

  -- `Sub` is the difference.
  pub rescale-sub : rescale (sub d e) k ≡ rescale d k -ℤ rescale e k
  unfolding sub m
  rescale-sub =
      rescale-normal _ k (omega arith)
      ∙ rescale-mk _ m k
      ∙ -ℤ-*ℤ (rescale d m) (rescale e m) (pos (pow10 (k - m)))
      ∙ ap₂ ◌-ℤ◌ (rescale-rescale d m k (omega arith) (omega arith))
          (rescale-rescale e m k (omega arith) (omega arith))

pub sub-scale-le : (d e : Decimal) → (sub d e).scale ≤ max d.scale e.scale
unfolding sub
sub-scale-le d e = normal-scale-le _

pub mul-scale-le : (d e : Decimal) → (mul d e).scale ≤ d.scale + e.scale
unfolding mul
mul-scale-le d e = normal-scale-le _

-- `Mul` at two scales together is the product.
pub rescale-mul :
    (d e : Decimal) (j k : ℕ)
    → d.scale ≤ j
    → e.scale ≤ k
    → rescale (mul d e) (j + k) ≡ rescale d j *ℤ rescale e k
unfolding mul rescale
rescale-mul d e j k hd he =
    let spread : pow10 (j + k - (d.scale + e.scale)) ≡ pow10 (j - d.scale) * pow10 (k - e.scale) =
      ap pow10 (omega arith) ∙ pow10-add (j - d.scale) (k - e.scale) in
    rescale-normal _ (j + k) (omega arith)
    ∙ ap (λ n. d.coefficient *ℤ e.coefficient *ℤ pos n) spread
    ∙ ap (λ x. d.coefficient *ℤ e.coefficient *ℤ x)
        (pos-* (pow10 (j - d.scale)) (pow10 (k - e.scale)))
    ∙ *ℤ_interchange d.coefficient e.coefficient (pos (pow10 (j - d.scale)))
        (pos (pow10 (k - e.scale)))

pub add-IsNormal : (d e : Decimal) → IsNormal (add d e)
unfolding add
add-IsNormal d e = normal-IsNormal _

pub sub-IsNormal : (d e : Decimal) → IsNormal (sub d e)
unfolding sub
sub-IsNormal d e = normal-IsNormal _

pub mul-IsNormal : (d e : Decimal) → IsNormal (mul d e)
unfolding mul
mul-IsNormal d e = normal-IsNormal _

-- Results in normal form are equal when their coefficients are at one scale.
pub eq_of_rescale :
    (d e : Decimal) (k : ℕ)
    → IsNormal d
    → IsNormal e
    → d.scale ≤ k
    → e.scale ≤ k
    → rescale d k ≡ rescale e k
    → d ≡ e
eq_of_rescale d e k nd ne hd he h = normal_unique d e nd ne (≈_of_rescale d e k hd he h)
