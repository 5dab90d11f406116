-- ===== src/Decimal/RoundTrip.antt =====
-- What `String` of decimal.go writes, `Parse` and `ParseNumber` read back.
use costroid.Prelude.{
  Bytes, ℕ, zero, suc, ◌+◌, ◌-◌, ◌*◌, ◌/◌, ◌%◌, ◌≤◌, ◌<◌, ◌==◌, leb, Ordering, Bool, true, false,
  ◌&&◌, ◌≡◌, ◌≢◌, refl, sym, ap, ap₂, ◌∙◌, inl, inr, Bool-cases, if◌then◌else◌, [], ◌∷◌, ◌++◌, some,
  length, take, drop, replicate, all, arith, length-append, append-nil, length-drop,
  length-replicate, take-append-drop,
}
use costroid.Prelude.Int.{pos, nat_abs}
use costroid.Decimal.{Decimal, normal, sign}
use costroid.Decimal.Normal.{normal-IsNormal, normal_idem}
use costroid.Decimal.Compare.{sign-normal}
use costroid.Decimal.Text.{
  is_digit, cut, is_whole, is_fraction, value_from, set_string, parse, digits_loop, digits_of,
  plain, string,
}

pub value_from-append :
    (s t : Bytes) (n : ℕ) → value_from n (s ++ t) ≡ value_from (value_from n s) t
unfolding value_from
value_from-append [] t n = refl
value_from-append (c ∷ s) t n = value_from-append s t (n * 10 + (c - b'0'))

-- The digits of `n` spell `n`.
value_from-digits_loop :
    (fuel n : ℕ) (out : Bytes) → n ≤ fuel → value_from 0 (digits_loop fuel n out) ≡ value_from n out
unfolding digits_loop value_from
value_from-digits_loop zero n out h = let e : n ≡ 0 = omega arith in rw e
value_from-digits_loop (suc fuel) n out h =
    ground (arith, value_from-digits_loop fuel (n / 10) ((b'0' + n % 10) ∷ out))

value_from-digits_of : (n : ℕ) → value_from 0 (digits_of n) ≡ n
unfolding digits_of value_from
value_from-digits_of n = ground (arith, value_from-digits_loop n n [])

all-digits_loop :
    (fuel n : ℕ) (out : Bytes)
    → all is_digit out ≡ true
    → all is_digit (digits_loop fuel n out) ≡ true
unfolding digits_loop
all-digits_loop zero n out h = h
all-digits_loop (suc fuel) n out h =
    ground (arith, all-digits_loop fuel (n / 10) ((b'0' + n % 10) ∷ out))

pub all-digits_of : (n : ℕ) → all is_digit (digits_of n) ≡ true
unfolding digits_of
all-digits_of n = ground (arith, all-digits_loop n n [])

abbrev starts_nonzero : Bytes → Bool
starts_nonzero [] = false
starts_nonzero (c ∷ s) = leb b'1' c && leb c b'9'

digits_loop-zero : (fuel : ℕ) (out : Bytes) → digits_loop fuel 0 out ≡ out
unfolding digits_loop
digits_loop-zero zero out = refl
digits_loop-zero (suc fuel) out = refl

digits_loop_starts :
    (fuel n : ℕ) (out : Bytes) → 0 < n → n ≤ fuel → starts_nonzero (digits_loop fuel n out) ≡ true
unfolding digits_loop
digits_loop_starts zero n out p h = absurd (omega arith)
digits_loop_starts (suc fuel) n out p h = ground (
  arith,
  digits_loop_starts fuel (n / 10) ((b'0' + n % 10) ∷ out),
  λ (e : n / 10 ≡ 0).
      ap (λ (m : ℕ). digits_loop fuel m ((b'0' + n % 10) ∷ out)) e
      ∙ digits_loop-zero fuel ((b'0' + n % 10) ∷ out),
)

digits_of_starts : (n : ℕ) → 0 < n → starts_nonzero (digits_of n) ≡ true
unfolding digits_of
digits_of_starts n h = ground (arith, digits_loop_starts n n [])

-- The number before its sign.
abbrev pub unsigned : ℕ → ℕ → Bytes
unsigned m scale = if scale == 0 then digits_of m else plain (digits_of m) scale

pub all-append :
    (s t : Bytes) → all is_digit s ≡ true → all is_digit t ≡ true → all is_digit (s ++ t) ≡ true
all-append [] t p q = q
all-append (c ∷ s) t p q = ground (arith, all-append s t)

pub all-take : (n : ℕ) (s : Bytes) → all is_digit s ≡ true → all is_digit (take n s) ≡ true
all-take zero s p = refl
all-take (suc n) [] p = refl
all-take (suc n) (c ∷ s) p = ground (arith, all-take n s)

pub all-drop : (n : ℕ) (s : Bytes) → all is_digit s ≡ true → all is_digit (drop n s) ≡ true
all-drop zero s p = p
all-drop (suc n) [] p = refl
all-drop (suc n) (c ∷ s) p = all-drop n s (ground arith)

all-zeros : (n : ℕ) → all is_digit (replicate n b'0') ≡ true
all-zeros zero = refl
all-zeros (suc n) = all-zeros n

value_from-zeros : (n : ℕ) (s : Bytes) → value_from 0 (replicate n b'0' ++ s) ≡ value_from 0 s
unfolding value_from
value_from-zeros zero s = refl
value_from-zeros (suc n) s = value_from-zeros n s

pub cut-digits :
    (s rest : Bytes) → all is_digit s ≡ true → cut b'.' (s ++ (b'.' ∷ rest)) ≡ (s, rest, true)
unfolding cut
cut-digits [] rest h = refl
cut-digits (c ∷ s) rest h = ground (arith, cut-digits s rest)

cut-whole : (s : Bytes) → all is_digit s ≡ true → cut b'.' s ≡ (s, [], false)
unfolding cut
cut-whole [] h = refl
cut-whole (c ∷ s) h = ground (arith, cut-whole s)

is_fraction_of : (s : Bytes) → 0 < length s → all is_digit s ≡ true → is_fraction s ≡ true
unfolding is_fraction
is_fraction_of [] p h = absurd (omega arith)
is_fraction_of (c ∷ s) p h = h

is_whole_of : (s : Bytes) → starts_nonzero s ≡ true → all is_digit s ≡ true → is_whole s ≡ true
unfolding is_whole
is_whole_of [] p h = cc
is_whole_of (c ∷ []) p h = ground arith
is_whole_of (c ∷ d ∷ s) p h = ground arith

starts-take : (n : ℕ) (s : Bytes) → starts_nonzero s ≡ true → starts_nonzero (take (suc n) s) ≡ true
starts-take n [] p = p
starts-take n (c ∷ s) p = p

set_string-digits : (s : Bytes) → is_fraction s ≡ true → set_string s ≡ some (pos (value_from 0 s))
unfolding set_string
set_string-digits s h = rw h

is_whole-length : (s : Bytes) → is_whole s ≡ true → 0 < length s
unfolding is_whole
is_whole-length [] p = cc
is_whole-length (c ∷ s) p = omega arith

parse_whole :
    (s : Bytes)
    → is_whole s ≡ true
    → all is_digit s ≡ true
    → parse s ≡ some (normal (record { coefficient = pos (value_from 0 s); scale = 0 }))
unfolding parse
parse_whole s p h =
    let digits = is_fraction_of s (is_whole-length s p) h in
    simp (cut-whole s h, p, append-nil, digits)

pub parse_point :
    (w f : Bytes)
    → is_whole w ≡ true
    → all is_digit w ≡ true
    → all is_digit f ≡ true
    → 0 < length f
    → parse (w ++ (b'.' ∷ f))
      ≡ some (normal (record { coefficient = pos (value_from 0 (w ++ f)); scale = length f }))
unfolding parse
parse_point w f p hw hf h =
    let joined : 0 < length (w ++ f) = omega (arith, length-append w f) in
    let digits = is_fraction_of (w ++ f) joined (all-append w f hw hf) in
    simp (cut-digits w f hw, p, is_fraction_of f h hf, digits)

-- The digits filled with zeros to one more than the scale.
abbrev pub filled : Bytes → ℕ → Bytes
filled digits scale =
    if leb (length digits) scale
    then replicate (scale - length digits + 1) b'0' ++ digits
    else digits

module _ (s : Bytes) (k : ℕ) (h : all is_digit s ≡ true) where
  pub all-filled : all is_digit (filled s k) ≡ true
  all-filled =
      ground (arith, all-append (replicate (k - length s + 1) b'0') s, all-zeros (k - length s + 1))

value_from-filled : (s : Bytes) (k : ℕ) → value_from 0 (filled s k) ≡ value_from 0 s
value_from-filled s k = ground (arith, value_from-zeros (k - length s + 1) s)

length-filled : (s : Bytes) (k : ℕ) → k < length (filled s k)
length-filled s k = ground (
  arith,
  length-append (replicate (k - length s + 1) b'0') s,
  length-replicate {A = ℕ} (k - length s + 1) b'0',
)

-- Before the point stand a 0, or the leading digits of a number with more digits than the scale.
whole_short :
    (s : Bytes) (k : ℕ)
    → leb (length s) k ≡ true
    → is_whole (take (length (filled s k) - k) (filled s k)) ≡ true
unfolding is_whole
whole_short s k e =
    let j = k - length s in
    let grown : j + 1 ≡ suc j = omega arith in
    let point : suc (length (replicate j b'0' ++ s)) - k ≡ 1 =
      ground (arith, length-append (replicate j b'0') s, length-replicate {A = ℕ} j b'0') in
    rw (e, grown, point)

whole_long :
    (s : Bytes) (k : ℕ)
    → leb (length s) k ≡ false
    → all is_digit s ≡ true
    → starts_nonzero s ≡ true
    → is_whole (take (length (filled s k) - k) (filled s k)) ≡ true
whole_long s k e h n =
    let point : length s - k ≡ suc (length s - k - 1) = ground arith in
    rw (e, point)
      (is_whole_of (take (suc (length s - k - 1)) s) (starts-take _ s n)
        (all-take (suc (length s - k - 1)) s h))

digits_of-short : (m : ℕ) → m ≡ 0 → length (digits_of m) ≡ 1
unfolding digits_of
digits_of-short m h = ground arith

whole_digits :
    (m k : ℕ)
    → 0 < k
    → is_whole (take (length (filled (digits_of m) k) - k) (filled (digits_of m) k)) ≡ true
whole_digits m k h = elim (Bool-cases (leb (length (digits_of m)) k)) [
  | inl e ↦ whole_short (digits_of m) k e
  | inr e ↦
      let positive : 0 < m = ground (arith, digits_of-short m) in
      whole_long (digits_of m) k e (all-digits_of m) (digits_of_starts m positive)
]

abbrev pub decimal_of : ℕ → ℕ → Decimal
decimal_of m k = record { coefficient = pos m; scale = k }

-- The parts of a plain print: digits before the point that `is_whole` takes, and as many behind as the scale.
pub plain_parts :
    (m k : ℕ)
    → 0 < k
    → (w : Bytes) × (f : Bytes) × (plain (digits_of m) k ≡ w ++ (b'.' ∷ f))
      × (is_whole w ≡ true)
      × (all is_digit w ≡ true)
      × (all is_digit f ≡ true)
      × (length f ≡ k)
      × (value_from 0 (w ++ f) ≡ m)
unfolding plain
plain_parts m k h =
    let digits = digits_of m in
    let text = filled digits k in
    let point = length text - k in
    let numeric = all-filled digits k (all-digits_of m) in
    let longer = length-filled digits k in
    (
      take point text,
      drop point text,
      refl,
      whole_digits m k h,
      all-take point text numeric,
      all-drop point text numeric,
      length-drop point text ∙ omega arith,
      ap (value_from 0) (take-append-drop point text)
          ∙ value_from-filled digits k
          ∙ value_from-digits_of m,
    )

-- A number with a scale is read back from its unsigned print.
parse-plain : (m k : ℕ) → 0 < k → parse (plain (digits_of m) k) ≡ some (normal (decimal_of m k))
parse-plain m k h =
    let (w, f, text, whole, hw, hf, long, value) = plain_parts m k h in
    ap parse text
    ∙ parse_point w f whole hw hf (omega arith)
    ∙ ap₂ (λ v n. some (normal (decimal_of v n))) value long

is_whole-digits_of : (m : ℕ) → is_whole (digits_of m) ≡ true
is_whole-digits_of zero = unfold digits_of is_whole in refl
is_whole-digits_of (suc m) =
    is_whole_of (digits_of (suc m)) (digits_of_starts (suc m) (omega arith)) (all-digits_of (suc m))

pub parse-unsigned : (m k : ℕ) → parse (unsigned m k) ≡ some (normal (decimal_of m k))
parse-unsigned m zero =
    parse_whole (digits_of m) (is_whole-digits_of m) (all-digits_of m)
    ∙ ap (λ v. some (normal (decimal_of v 0))) (value_from-digits_of m)
parse-unsigned m (suc k) =
    let positive : (suc k == 0) ≡ false = ground arith in
    rw positive (parse-plain m (suc k) (omega arith))

pub string-unsigned :
    (d : Decimal)
    → sign d ≢ Ordering.lt
    → string d ≡ unsigned (nat_abs (normal d).coefficient) (normal d).scale
unfolding string
string-unsigned d h = ground (arith, sign-normal d)

pub unsigned_value :
    (n : Decimal) → sign n ≢ Ordering.lt → decimal_of (nat_abs n.coefficient) n.scale ≡ n
unfolding sign
unsigned_value n h =
    let same : pos (nat_abs n.coefficient) ≡ n.coefficient = ground arith in
    λ i. record { coefficient = same i; scale = n.scale }

-- `Parse` reads what `String` writes of an amount that is not negative as that amount.
pub parse-string : (d : Decimal) → sign d ≢ Ordering.lt → parse (string d) ≡ some (normal d)
parse-string d h =
    let n = normal d in
    let positive : sign n ≢ Ordering.lt = λ e. h (sym (sign-normal d) ∙ e) in
    ap parse (string-unsigned d h)
    ∙ parse-unsigned (nat_abs n.coefficient) n.scale
    ∙ ap (λ x. some (normal x)) (unsigned_value n positive)
    ∙ ap some (normal_idem n (normal-IsNormal d))
