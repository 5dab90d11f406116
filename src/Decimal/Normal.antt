-- ===== src/Decimal/Normal.antt =====
-- The normal form of decimal.go: `normal` keeps the value, and leaves one form for each value.
use costroid.Prelude.{
  ℕ, zero, suc, ◌*◌, ◌<◌, true, false, ◌≡◌, refl, sym, ap, ◌∙◌, inl, inr, Bool-cases, arith,
}
use costroid.Prelude.Int.{
  ℤ, pos, pos_part, neg_part, ◌*ℤ◌, *ℤ-pos, *ℤ_right_comm, *ℤ-pos_cancel, pos_part-*ℤ, neg_part-*ℤ,
}
use costroid.Prelude.Power.{pow10, pow10-suc, pow10-pos, pow10-zero}
use costroid.Decimal.{Decimal, quo10, ends_in_zero, normal_loop, normal}

-- Two decimals that are the same number: c / 10 ^ s ≡ c' / 10 ^ s', multiplied out.
infix 4 ◌≈◌
abbrev pub ◌≈◌ : Decimal → Decimal → Type 0
d ≈ e = d.coefficient *ℤ pos (pow10 e.scale) ≡ e.coefficient *ℤ pos (pow10 d.scale)

-- No trailing zero behind the point.
abbrev pub IsNormal : Decimal → Type 0
IsNormal d = 0 < d.scale → ends_in_zero d.coefficient ≡ false

quo10-*ℤ : (c : ℤ) → ends_in_zero c ≡ true → quo10 c *ℤ pos 10 ≡ c
unfolding ◌*ℤ◌
quo10-*ℤ c h = ground arith

pub ≈_refl : (d : Decimal) → d ≈ d
≈_refl d = refl

pub ≈_sym : (d e : Decimal) → d ≈ e → e ≈ d
≈_sym d e h = sym h

-- (c, s+1) is (c / 10, s) when c ends in a zero.
scaled_step :
    (c e : ℤ) (s t : ℕ)
    → quo10 c *ℤ pos (pow10 t) ≡ e *ℤ pos (pow10 s)
    → ends_in_zero c ≡ true
    → c *ℤ pos (pow10 t) ≡ e *ℤ pos (pow10 (suc s))
scaled_step c e s t h z =
    ap (λ x. x *ℤ pos (pow10 t)) (sym (quo10-*ℤ c z))
    ∙ *ℤ_right_comm (quo10 c) (pos 10) (pos (pow10 t))
    ∙ ap (λ x. x *ℤ pos 10) h
    ∙ *ℤ-pos e (pow10 s) 10
    ∙ ap (λ n. e *ℤ pos n) (omega (arith, pow10-suc s))

normal_loop-≈ : (c : ℤ) (s : ℕ) → record { coefficient = c; scale = s } ≈ normal_loop c s
unfolding normal_loop
normal_loop-≈ c zero = refl
normal_loop-≈ c (suc s) = elim (Bool-cases (ends_in_zero c)) [
  | inl z ↦ rw z (scaled_step c _ s _ (normal_loop-≈ (quo10 c) s) z)
  | inr n ↦ rw n
]

-- `normal` keeps the number.
pub normal-≈ : (d : Decimal) → d ≈ normal d
unfolding normal
normal-≈ d = normal_loop-≈ d.coefficient d.scale

normal_loop-IsNormal : (c : ℤ) (s : ℕ) → IsNormal (normal_loop c s)
unfolding normal_loop
normal_loop-IsNormal c zero h = absurd (omega arith)
normal_loop-IsNormal c (suc s) h = ground (arith, normal_loop-IsNormal (quo10 c) s)

-- It leaves no trailing zero.
pub normal-IsNormal : (d : Decimal) → IsNormal (normal d)
unfolding normal
normal-IsNormal d = normal_loop-IsNormal d.coefficient d.scale

-- A multiple of ten ends in a zero.
ends_of_parts :
    (e : ℤ) (m n : ℕ) → pos_part e ≡ 10 * m → neg_part e ≡ 10 * n → ends_in_zero e ≡ true
ends_of_parts e m n p q = ground arith

ends_of_multiple :
    (c e : ℤ) (t : ℕ) → c *ℤ pos (pow10 (suc t)) ≡ e *ℤ pos (pow10 0) → ends_in_zero e ≡ true
ends_of_multiple c e t h =
    let positive = simp (pos_part-*ℤ, pow10-zero) at (ap pos_part h) in
    let negative = simp (neg_part-*ℤ, pow10-zero) at (ap neg_part h) in
    ends_of_parts e (pos_part c * pow10 t) (neg_part c * pow10 t)
      (omega (arith, positive, ap (λ (p : ℕ). pos_part c * p) (pow10-suc t)))
      (omega (arith, negative, ap (λ (p : ℕ). neg_part c * p) (pow10-suc t)))

fewer :
    (c e : ℤ) (s t : ℕ)
    → c *ℤ pos (pow10 (suc t)) ≡ e *ℤ pos (pow10 (suc s))
    → c *ℤ pos (pow10 t) ≡ e *ℤ pos (pow10 s)
fewer c e s t h = *ℤ-pos_cancel _ _ 10 (omega arith) (more c t ∙ h ∙ sym (more e s))
  where
    more : (x : ℤ) (n : ℕ) → x *ℤ pos (pow10 n) *ℤ pos 10 ≡ x *ℤ pos (pow10 (suc n))
    more x n = *ℤ-pos x (pow10 n) 10 ∙ ap (λ k. x *ℤ pos k) (omega (arith, pow10-suc n))

same_form :
    (c : ℤ) (s : ℕ) (e : ℤ) (t : ℕ)
    → IsNormal (record { coefficient = c; scale = s })
    → IsNormal (record { coefficient = e; scale = t })
    → c *ℤ pos (pow10 t) ≡ e *ℤ pos (pow10 s)
    → (c ≡ e) × (s ≡ t)
same_form c zero e zero nc ne h = (*ℤ-pos_cancel c e (pow10 0) (pow10-pos 0) h, refl)
same_form c zero e (suc t) nc ne h = cc (ends_of_multiple c e t h, ne (omega arith))
same_form c (suc s) e zero nc ne h = cc (ends_of_multiple e c s (sym h), nc (omega arith))
same_form c (suc s) e (suc t) nc ne h =
    let (same, same_scale) =
      same_form c s e t (λ _. nc (omega arith)) (λ _. ne (omega arith)) (fewer c e s t h) in
    (same, ap suc same_scale)

-- A number has one normal form.
pub normal_unique : (d e : Decimal) → IsNormal d → IsNormal e → d ≈ e → d ≡ e
normal_unique d e nd ne h =
    let (c, s) = same_form d.coefficient d.scale e.coefficient e.scale nd ne h in
    λ i. record { coefficient = c i; scale = s i }

pub normal_idem : (d : Decimal) → IsNormal d → normal d ≡ d
normal_idem d n = sym (normal_unique d (normal d) n (normal-IsNormal d) (normal-≈ d))
