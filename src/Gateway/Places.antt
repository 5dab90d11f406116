-- ===== src/Gateway/Places.antt =====
-- The digits of a figure's text that `roundUp` of internal/gateway/count.go keeps, and what they are worth.
use costroid.Prelude.{
  ℕ, zero, suc, ◌+◌, ◌-◌, ◌*◌, ◌≤◌, ◌<◌, true, ◌≡◌, refl, sym, ap, ◌∙◌, subst, [], ◌∷◌, ◌++◌,
  append_assoc, some, Bytes, length, take, drop, take-append-drop, length-drop, all, arith,
}
use costroid.Prelude.Power.{pow10, pow10-suc, pow10-zero}
use costroid.Decimal.{normal}
use costroid.Decimal.Text.{is_digit, cut, value_from, parse, plain, digits_of}
use costroid.Decimal.RoundTrip.{
  decimal_of, cut-digits, parse_point, value_from-append, all-take, all-drop, plain_parts,
}

-- Digits behind a number make it larger, and no larger than the next one.
widen : (a b t : ℕ) → a ≤ b → a * t ≤ b * t
widen a b t l = grind arith

length-take_of : (n : ℕ) (s : Bytes) → n ≤ length s → length (take n s) ≡ n
length-take_of zero s l = refl
length-take_of (suc n) [] l = absurd (omega arith)
length-take_of (suc n) (c ∷ s) l = ap suc (length-take_of n s (omega arith))

low_digit : (n d t v : ℕ) → (n * 10 + d) * t ≤ v → n * (10 * t) ≤ v
low_digit n d t v h = grind arith

high_digit : (n d t v : ℕ) → d ≤ 9 → v < suc (n * 10 + d) * t → v < suc n * (10 * t)
high_digit n d t v small h =
    let wider : suc (n * 10 + d) * t ≤ (suc n * 10) * t =
      widen (suc (n * 10 + d)) (suc n * 10) t (omega arith) in
    grind arith

value_from-bounds :
    (s : Bytes) (n : ℕ)
    → all is_digit s ≡ true
    → (n * pow10 (length s) ≤ value_from n s) × (value_from n s < suc n * pow10 (length s))
unfolding value_from
value_from-bounds [] n h = rw pow10-zero (omega arith, omega arith)
value_from-bounds (c ∷ s) n h =
    let (low, high) = value_from-bounds s (n * 10 + (c - b'0')) (ground arith) in
    let small : c - b'0' ≤ 9 = ground arith in
    rw (pow10-suc (length s)) (
      low_digit n (c - b'0') (pow10 (length s)) (value_from (n * 10 + (c - b'0')) s) low,
      high_digit n (c - b'0') (pow10 (length s)) (value_from (n * 10 + (c - b'0')) s) small high,
    )

-- What the text of a figure is cut into: the digits before the point, those kept, and those dropped.
module _ (m k places : ℕ) (p : 0 < places) (l : places < k) where
  pub kept_text :
      (kept : ℕ) × (w : Bytes) × (f : Bytes) × (cut b'.' (plain (digits_of m) k) ≡ (w, f, true))
      × (parse (w ++ (b'.' ∷ take places f)) ≡ some (normal (decimal_of kept places)))
      × (kept * pow10 (k - places) ≤ m)
      × (m < suc kept * pow10 (k - places))
  kept_text =
      let (w, f, text, whole, hw, hf, long, value) = plain_parts m k (omega arith) in
      let front = w ++ take places f in
      let kept = value_from 0 front in
      let joined : front ++ drop places f ≡ w ++ f =
        append_assoc w (take places f) (drop places f)
        ∙ ap (λ t. w ++ t) (take-append-drop places f) in
      let behind : value_from kept (drop places f) ≡ m =
        sym (value_from-append front (drop places f) 0) ∙ ap (value_from 0) joined ∙ value in
      let dropped : length (drop places f) ≡ k - places =
        length-drop places f ∙ ap (λ n. n - places) long in
      let (low, high) = value_from-bounds (drop places f) kept (all-drop places f hf) in
      let size : length (take places f) ≡ places = length-take_of places f (omega (arith, long)) in
      (
        kept,
        w,
        f,
        ap (cut b'.') text ∙ cut-digits w f hw,
        parse_point w (take places f) whole hw (all-take places f hf) (omega (arith, size))
            ∙ ap (λ n. some (normal (decimal_of kept n))) size,
        subst (λ n. kept * pow10 n ≤ m) dropped (omega (arith, low, behind)),
        subst (λ n. m < suc kept * pow10 n) dropped (omega (arith, high, behind)),
      )
