-- ===== src/Decimal/Signed.antt =====
-- `ParseNumber` of decimal.go reads back what `String` writes of any decimal, its minus sign included.
use costroid.Prelude.{
  Bytes, ℕ, zero, suc, ◌-◌, ◌==◌, compare, Ordering, Bool, true, false, ◌||◌, ◌≡◌, ◌≢◌, refl, sym,
  ap, ◌∙◌, ◌⊎◌, inl, inr, Bool-cases, [], ◌∷◌, ◌++◌, some, length, take, drop, all, arith, map,
}
use costroid.Prelude.Int.{ℤ, pos, negsuc, pos_part, neg_part, nat_abs, ◌-ℤ◌, ◌*ℤ◌}
use costroid.Prelude.Power.{pow10}
use costroid.Decimal.{Decimal, normal, sign, sub, zero_value, rescale}
use costroid.Decimal.Normal.{IsNormal, normal-IsNormal, normal_idem}
use costroid.Decimal.Value.{rescale-sub, eq_of_rescale, sub-IsNormal, sub-scale-le}
use costroid.Decimal.Compare.{sign-normal}
use costroid.Decimal.Text.{
  is_digit, cut, to_lower, cut_minus, shifted, parse, parse_number, digits_of, plain, string,
}
use costroid.Decimal.RoundTrip.{
  unsigned, decimal_of, parse-unsigned, filled, all-filled, all-digits_of, string-unsigned,
  unsigned_value,
}

abbrev is_plain : ℕ → Bool
is_plain c = is_digit c || c == b'.'

plain-append :
    (s t : Bytes) → all is_plain s ≡ true → all is_plain t ≡ true → all is_plain (s ++ t) ≡ true
plain-append [] t p q = q
plain-append (c ∷ s) t p q = ground (arith, plain-append s t)

plain-take : (n : ℕ) (s : Bytes) → all is_plain s ≡ true → all is_plain (take n s) ≡ true
plain-take zero s p = refl
plain-take (suc n) [] p = refl
plain-take (suc n) (c ∷ s) p = ground (arith, plain-take n s)

plain-drop : (n : ℕ) (s : Bytes) → all is_plain s ≡ true → all is_plain (drop n s) ≡ true
plain-drop zero s p = p
plain-drop (suc n) [] p = refl
plain-drop (suc n) (c ∷ s) p = plain-drop n s (ground arith)

plain_of_digits : (s : Bytes) → all is_digit s ≡ true → all is_plain s ≡ true
plain_of_digits [] h = refl
plain_of_digits (c ∷ s) h = ground (arith, plain_of_digits s)

-- A number without its sign holds digits and a point only.
all-unsigned : (m k : ℕ) → all is_plain (unsigned m k) ≡ true
unfolding plain
all-unsigned m k =
    let text = filled (digits_of m) k in
    let point = length text - k in
    let numeric = plain_of_digits text (all-filled (digits_of m) k (all-digits_of m)) in
    elim (Bool-cases (k == 0)) [
      | inl e ↦ rw e (plain_of_digits (digits_of m) (all-digits_of m))
      | inr e ↦ rw e (
          plain-append (take point text) (b'.' ∷ drop point text) (plain-take point text numeric)
            (plain-drop point text numeric))
    ]

map-to_lower : (s : Bytes) → all is_plain s ≡ true → map to_lower s ≡ s
unfolding to_lower
map-to_lower [] h = refl
map-to_lower (c ∷ s) h = ground (arith, map-to_lower s)

cut-plain : (s : Bytes) → all is_plain s ≡ true → cut b'e' s ≡ (s, [], false)
unfolding cut
cut-plain [] h = refl
cut-plain (c ∷ s) h = ground (arith, cut-plain s)

cut_minus-plain : (s : Bytes) → all is_plain s ≡ true → cut_minus s ≡ (s, false)
unfolding cut_minus
cut_minus-plain [] h = refl
cut_minus-plain (c ∷ s) h = ground arith

module _ (s : Bytes) (v : Decimal) (h : all is_plain s ≡ true) (e : parse s ≡ some v) where
  parse_number-plain : parse_number s ≡ some v
  unfolding parse_number shifted
  parse_number-plain = simp (cut_minus-plain s h, map-to_lower s h, cut-plain s h, e)

  parse_number-minus : parse_number (b'-' ∷ s) ≡ some (sub zero_value v)
  unfolding parse_number shifted cut_minus
  parse_number-minus = simp (map-to_lower s h, cut-plain s h, e)

negative_parts :
    (c : ℤ) (p : ℕ)
    → compare (pos_part c) (neg_part c) ≡ Ordering.lt
    → pos 0 -ℤ pos (nat_abs c) *ℤ pos p ≡ c *ℤ pos p
unfolding ◌-ℤ◌ ◌*ℤ◌
negative_parts (pos n) p h = absurd (ground arith)
negative_parts (negsuc n) p h = ground arith

zero-*ℤ : (n : ℕ) → pos 0 *ℤ pos n ≡ pos 0
unfolding ◌*ℤ◌
zero-*ℤ n = ground arith

-- The minus sign is read as the difference from 0.
negated :
    (n : Decimal)
    → IsNormal n
    → sign n ≡ Ordering.lt
    → sub zero_value (decimal_of (nat_abs n.coefficient) n.scale) ≡ n
unfolding sign rescale
negated n h lt =
    let m = decimal_of (nat_abs n.coefficient) n.scale in
    let k = n.scale in
    eq_of_rescale (sub zero_value m) n k (sub-IsNormal zero_value m) h
      (omega (arith, sub-scale-le zero_value m)) (omega arith)
      (rescale-sub zero_value m k (omega arith) (omega arith)
        ∙ ap (λ x. x -ℤ rescale m k) (zero-*ℤ (pow10 (k - 0)))
        ∙ negative_parts n.coefficient (pow10 (k - k)) lt)

string-minus :
    (d : Decimal)
    → sign d ≡ Ordering.lt
    → string d ≡ b'-' ∷ unsigned (nat_abs (normal d).coefficient) (normal d).scale
unfolding string
string-minus d h = ground (arith, sign-normal d)

Sign-cases : (d : Decimal) → (sign d ≡ Ordering.lt) ⊎ (sign d ≢ Ordering.lt)
Sign-cases d = ground arith

-- `ParseNumber` reads what `String` writes of a decimal, whatever its sign, as that decimal.
pub parse_number-string : (d : Decimal) → parse_number (string d) ≡ some (normal d)
parse_number-string d =
    let n = normal d in
    let m = nat_abs n.coefficient in
    let plain_text = all-unsigned m n.scale in
    let read = parse-unsigned m n.scale in
    let whole = normal_idem (decimal_of m n.scale) (normal-IsNormal d) in
    elim (Sign-cases d) [
      | inl h ↦
          ap parse_number (string-minus d h)
          ∙ parse_number-minus (unsigned m n.scale) (normal (decimal_of m n.scale)) plain_text read
          ∙ ap some (ap (sub zero_value) whole ∙ negated n (normal-IsNormal d) (sign-normal d ∙ h))
      | inr h ↦
          ap parse_number (string-unsigned d h)
          ∙ parse_number-plain (unsigned m n.scale) (normal (decimal_of m n.scale)) plain_text read
          ∙ ap some (whole ∙ unsigned_value n (λ e. h (sym (sign-normal d) ∙ e)))
    ]
