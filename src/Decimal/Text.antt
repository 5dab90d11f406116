-- ===== src/Decimal/Text.antt =====
-- The text of a decimal: `Parse`, `ParseNumber` and `String` of internal/decimal/decimal.go. A text
-- is its bytes. A refused text is `none`: the error's words are not modelled. What the code uses of
-- Go's library is written out here: the pattern `literal`, `strings.Cut`, `strings.ToLower`,
-- `SetString` in base ten, `strconv.Atoi`, and the digits that `Int.String` prints.
use costroid.Prelude.{
  Bytes, ℕ, zero, suc, ◌+◌, ◌-◌, ◌*◌, ◌/◌, ◌%◌, ◌^◌, ◌==◌, ltb, leb, Ordering, Bool, true, false,
  ◌&&◌, ◌||◌, not, if◌then◌else◌, [], ◌∷◌, ◌++◌, Option, none, some, ◌>>=◌, length, take, drop,
  replicate, all, map,
}
use costroid.Prelude.Int.{ℤ, pos, nat_abs, neg_ℕ}
use costroid.Decimal.{Decimal, zero_value, normal, sub, shift, sign}

abbrev pub is_digit : ℕ → Bool
is_digit c = leb b'0' c && leb c b'9'

-- `strings.Cut` at one byte: what stands before it, after it, and whether it is there.
unfoldable pub cut : ℕ → Bytes → Bytes × Bytes × Bool
cut sep [] = ([], [], false)
cut sep (c ∷ s) =
    let rest = cut sep s in if c == sep then ([], s, true) else (c ∷ rest.0, rest.1, rest.2)

-- `0|[1-9][0-9]*`
unfoldable pub is_whole : Bytes → Bool
is_whole [] = false
is_whole (c ∷ []) = is_digit c
is_whole (c ∷ d ∷ s) = leb b'1' c && leb c b'9' && (is_digit d && all is_digit s)

-- `[0-9]+`
unfoldable pub is_fraction : Bytes → Bool
is_fraction [] = false
is_fraction (c ∷ s) = is_digit c && all is_digit s

-- `literal`: the first point, if there is one, ends the whole part.
unfoldable pub is_literal : Bytes → Bool
unfolding cut is_whole is_fraction
is_literal text =
    let (whole, fraction, found) = cut b'.' text in
    is_whole whole && (not found || is_fraction fraction)

-- The number that digits spell behind `n`.
unfoldable pub value_from : ℕ → Bytes → ℕ
value_from n [] = n
value_from n (c ∷ s) = value_from (n * 10 + (c - b'0')) s

-- `SetString(text, 10)`, which the code hands digits only.
unfoldable pub set_string : Bytes → Option ℤ
unfolding value_from is_fraction
set_string text = if is_fraction text then some (pos (value_from 0 text)) else none

unfoldable pub parse : Bytes → Option Decimal
unfolding is_literal set_string normal
parse text =
    let (whole, fraction, found) = cut b'.' text in
    if is_literal text
    then (do
      coefficient ← set_string (whole ++ fraction)
      some (normal (record { coefficient = coefficient; scale = length fraction })))
    else none

abbrev pub max_exponent : ℕ
max_exponent = 64

-- `strings.ToLower` on ASCII letters.
unfoldable pub to_lower : ℕ → ℕ
to_lower c = if leb b'A' c && leb c b'Z' then c + 32 else c

-- `strconv.Atoi`: an optional sign and digits, in the range of an int.
unfoldable pub atoi : Bytes → Option ℤ
unfolding is_fraction value_from
atoi [] = none
atoi (c ∷ s) =
    if c == b'-'
    then (if is_fraction s && leb (value_from 0 s) (2 ^ 63)
        then some (neg_ℕ (value_from 0 s))
        else none)
    else if c == b'+'
    then (if is_fraction s && ltb (value_from 0 s) (2 ^ 63)
        then some (pos (value_from 0 s))
        else none)
    else if is_fraction (c ∷ s) && ltb (value_from 0 (c ∷ s)) (2 ^ 63)
    then some (pos (value_from 0 (c ∷ s)))
    else none

-- `strings.CutPrefix(text, "-")`
unfoldable pub cut_minus : Bytes → Bytes × Bool
cut_minus [] = ([], false)
cut_minus (c ∷ s) = if c == b'-' then (s, true) else (c ∷ s, false)

-- The scientific notation's shift, refused out of range.
unfoldable pub shifted : Decimal → Bytes → Bool → Option Decimal
unfolding atoi shift
shifted value exponent false = some value
shifted value exponent true = do
  power ← atoi exponent
  if leb (nat_abs power) max_exponent then some (shift value power) else none

unfoldable pub parse_number : Bytes → Option Decimal
parse_number text =
    let (digits, negative) = cut_minus text in
    let (mantissa, exponent, scientific) = cut b'e' (map to_lower digits) in
    do
      value ← parse mantissa
      shifted_value ← shifted value exponent scientific
      some (if negative then sub zero_value shifted_value else shifted_value)

-- The digits of `n` before `out`; the fuel is `n` itself, which no count of digits passes.
unfoldable pub digits_loop : ℕ → ℕ → Bytes → Bytes
digits_loop zero n out = out
digits_loop (suc fuel) n out =
    let more = digits_loop fuel (n / 10) ((b'0' + n % 10) ∷ out) in if n == 0 then out else more

unfoldable pub digits_of : ℕ → Bytes
unfolding digits_loop
digits_of n = if n == 0 then b'0' ∷ [] else digits_loop n n []

-- The digits filled up to one before the point, and the point set.
unfoldable pub plain : Bytes → ℕ → Bytes
plain digits scale =
    let filled =
      if leb (length digits) scale
      then replicate (scale - length digits + 1) b'0' ++ digits
      else digits in
    let point = length filled - scale in take point filled ++ (b'.' ∷ drop point filled)

unfoldable pub string : Decimal → Bytes
unfolding normal digits_of plain sign
string d =
    let n = normal d in
    let digits = digits_of (nat_abs n.coefficient) in
    let prefix : Bytes = elim (sign n) [ Ordering.lt ↦ b'-' ∷ [] | _ ↦ [] ] in
    if n.scale == 0 then prefix ++ digits else prefix ++ plain digits n.scale
