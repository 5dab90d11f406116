-- ===== src/Otlp/Bounds.antt =====
-- What the readers of internal/otlp/protobuf.go keep within: a varint's value, what a field takes of a message,
-- and the fuel of `walk`.
use costroid.Prelude.{
  ℕ, zero, suc, ◌+◌, ◌*◌, ◌/◌, ◌%◌, ◌^◌, ◌≤◌, ◌<◌, ltb, ◌==◌, ◌≡◌, refl, ap, if◌then◌else◌, [], ◌∷◌,
  Option, none, some, Bytes, length, take, drop, length-drop, arith, Bool-cases, Option-cases, inl,
  inr,
}
use costroid.Prelude.Results.{
  OnSome, OnSome-none, OnSome-some, OnSome-if, OnSome-bind, OnSome-eq, OnSome-of,
}
use costroid.Otlp.Wire.{
  Field, uvarint_loop, uvarint, read_sized, read_field, next_field, walk_loop, walk, wire_varint,
  wire_fixed64, wire_bytes, wire_fixed32,
}
use costroid.Otlp.Varint.{varint_limit}

-- The arithmetic of one more byte at its place.
within_next :
    (x b place limit : ℕ) → x < place → b < 128 → 0 < limit → x + b * place < place * (128 * limit)
within_next x b place limit l small p = grind arith

varint_limit_pos : (room : ℕ) → 0 < varint_limit (suc room)
unfolding varint_limit
varint_limit_pos zero = omega arith
varint_limit_pos (suc room) = omega (arith, varint_limit_pos room)

within_carry : (x b place : ℕ) → x < place → b < 128 → x + b * place < place * 128
within_carry x b place l small = grind arith

uvarint_loop-none : (place x : ℕ) (s : Bytes) → uvarint_loop 0 place x s ≡ none
unfolding uvarint_loop
uvarint_loop-none place x [] = refl
uvarint_loop-none place x (b ∷ s) = refl

within_last : (x b place : ℕ) → x < place → b ≤ 1 → x + b * place < place * 2
within_last x zero place l small = omega arith
within_last x (suc zero) place l small = omega arith
within_last x (suc (suc b)) place l small = absurd (omega arith)

answer :
    {a v : ℕ} {s rest : Bytes}
    → ◌≡◌ {A = Option (ℕ × Bytes)} (some (a, s)) (some (v, rest))
    → (a ≡ v) × (s ≡ rest)
answer e = ground arith

-- What a varint's reader answers is below the limit of the bytes left, and it took a byte at least.
uvarint_loop-IsBounded :
    (room place x : ℕ) (s : Bytes) {v : ℕ} {rest : Bytes}
    → x < place
    → uvarint_loop room place x s ≡ some (v, rest)
    → (v < place * varint_limit room) × (length rest < length s)
uvarint_loop-IsBounded room place x [] l e = absurd (unfold uvarint_loop in ground arith)
uvarint_loop-IsBounded zero place x (b ∷ s) l e = absurd (unfold uvarint_loop in ground arith)
uvarint_loop-IsBounded (suc zero) place x (b ∷ s) {v} {rest} l e = elim (Bool-cases (ltb b 128)) [
  | inl small ↦
      let (value, after) =
        answer {a = x + b * place} {v = v} {s = s} {rest = rest}
          (unfold uvarint_loop in ground arith) in
      let one : b ≤ 1 = unfold uvarint_loop in ground arith in
      let bound : x + b * place < place * varint_limit 1 =
        unfold varint_limit in within_last x b place l one in
      (omega (arith, value), omega (arith, ap length after))
  | inr big ↦ absurd (
      unfold uvarint_loop in
      ground (arith, uvarint_loop-none (place * 128) (x + b % 128 * place) s))
]
uvarint_loop-IsBounded (suc (suc room)) place x (b ∷ s) {v} {rest} l e =
    elim (Bool-cases (ltb b 128)) [
      | inl small ↦
          let (value, after) =
            answer {a = x + b * place} {v = v} {s = s} {rest = rest}
              (unfold uvarint_loop in ground arith) in
          let bound : x + b * place < place * varint_limit (suc (suc room)) =
            unfold varint_limit in
            within_next x b place (varint_limit (suc room)) l (ground arith)
              (varint_limit_pos room) in
          (omega (arith, value), omega (arith, ap length after))
      | inr big ↦
          let later : uvarint_loop (suc room) (place * 128) (x + b % 128 * place) s
              ≡ some (v, rest) =
            unfold uvarint_loop in ground arith in
          let (carried, shorter) =
            uvarint_loop-IsBounded (suc room) (place * 128) (x + b % 128 * place) s
              (within_carry x (b % 128) place l (omega arith)) later in
          let same : place * 128 * varint_limit (suc room) ≡ place * varint_limit (suc (suc room)) =
            unfold varint_limit in grind arith in
          (omega arith, omega arith)
    ]

pub uvarint-lt :
    (s : Bytes) {v : ℕ} {rest : Bytes}
    → uvarint s ≡ some (v, rest)
    → (v < 2 ^ 64) × (length rest < length s)
unfolding uvarint
uvarint-lt s {v} {rest} e =
    let (low, shorter) = uvarint_loop-IsBounded 10 1 0 s (omega arith) e in
    (unfold varint_limit in omega arith, shorter)

length-take_le : (n : ℕ) (s : Bytes) → length (take n s) ≤ length s
length-take_le zero s = omega arith
length-take_le (suc n) [] = omega arith
length-take_le (suc n) (b ∷ s) = omega (arith, length-take_le n s)

-- A field is read out of the message: what it holds and what follows are no longer than what was there.
IsWithin : Bytes → Option (Field × Bytes) → Type 0
IsWithin message =
    OnSome (λ read. (length (read.1) ≤ length message) × (length (read.0.payload) ≤ length message))

-- A field that ends the given number of bytes on.
IsWithin-drop :
    (s : Bytes) (size : ℕ) (f : Field)
    → length f.payload ≤ length s
    → IsWithin s (if ltb (length s) size then none else some (f, drop size s))
unfolding IsWithin
IsWithin-drop s size f l =
    OnSome-if _ (ltb (length s) size) none (some (f, drop size s)) (λ c. OnSome-none _)
      (λ c. OnSome-some _ (f, drop size s) (omega (arith, length-drop size s), l))

read_sized-IsWithin : (number size : ℕ) (s : Bytes) → IsWithin s (read_sized number (size, s))
unfolding read_sized
read_sized-IsWithin number size s = IsWithin-drop s size _ (length-take_le size s)

IsWithin-le :
    (s message : Bytes) (o : Option (Field × Bytes))
    → length s ≤ length message
    → IsWithin s o
    → IsWithin message o
unfolding IsWithin
IsWithin-le s message o l w = OnSome-of _ o (λ read e.
    let (ends, holds) =
      OnSome-eq (λ read. (length (read.1) ≤ length s) × (length (read.0.payload) ≤ length s)) w e in
    (omega arith, omega arith))

read_field-IsWithin : (number wire : ℕ) (s : Bytes) → IsWithin s (read_field number wire s)
unfolding read_field IsWithin
read_field-IsWithin number wire s =
    OnSome-if _ (wire == wire_varint) _ _
      (λ c.
        OnSome-bind _ (uvarint s) _
          (λ x e. OnSome-some _ _ (omega (arith, (uvarint-lt s e).1), omega arith)))
      (λ c.
        OnSome-if _ (wire == wire_fixed64) _ _ (λ c. IsWithin-drop s 8 _ (omega arith))
          (λ c.
            OnSome-if _ (wire == wire_fixed32) _ _ (λ c. IsWithin-drop s 4 _ (omega arith))
              (λ c.
                OnSome-if _ (wire == wire_bytes) _ _
                  (λ c. OnSome-bind _ (uvarint s) _ (λ x e.
                    IsWithin-le (x.1) s (read_sized number x) (omega (arith, (uvarint-lt s e).1))
                      (read_sized-IsWithin number (x.0) (x.1))))
                  (λ c. OnSome-none _))))

-- A field that is read takes a byte of the message at least, and what it holds is shorter than
-- the message.
pub next_field-shorter :
    (message : Bytes) {f : Field} {rest : Bytes}
    → next_field message ≡ some (f, rest)
    → (length rest < length message) × (length f.payload < length message)
unfolding next_field IsWithin
next_field-shorter message {f} {rest} e = elim (Option-cases (uvarint message)) [
  | inl stuck ↦ absurd (ground arith)
  | inr (tag, read) ↦
      let field_read : read_field (tag.0 / 8) (tag.0 % 8) tag.1 ≡ some (f, rest) = ground arith in
      let (ends, holds) =
        OnSome-eq
          (λ read. (length (read.1) ≤ length tag.1) × (length (read.0.payload) ≤ length tag.1))
          (read_field-IsWithin (tag.0 / 8) (tag.0 % 8) (tag.1)) field_read in
      let shorter = (uvarint-lt message read).1 in (omega arith, omega arith)
]

module _ {S : Type 0} (fn : Field → S → Option S) where
  -- What a walk of a message comes to, by its fields alone: there is no field left, the next one does not
  -- read, `fn` stops at it, or the walk goes on after it.
  pub data Walks : Bytes → S → Option S → Type 0 where
    at_end : (state : S) → Walks [] state (some state)
    unread :
        (b : ℕ) (message : Bytes) (state : S)
        → next_field (b ∷ message) ≡ none
        → Walks (b ∷ message) state none
    stopped :
        (b : ℕ) (message : Bytes) (state : S) (f : Field) (rest : Bytes)
        → next_field (b ∷ message) ≡ some (f, rest)
        → fn f state ≡ none
        → Walks (b ∷ message) state none
    stepped :
        (b : ℕ) (message : Bytes) (state : S) (f : Field) (rest : Bytes) (changed : S)
        (result : Option S)
        → next_field (b ∷ message) ≡ some (f, rest)
        → fn f state ≡ some changed
        → Walks rest changed result
        → Walks (b ∷ message) state result

  walk_loop-Walks :
      (message : Bytes) (fuel : ℕ) (state : S)
      → length message ≤ fuel
      → Walks message state (walk_loop fn message fuel state)
  unfolding walk_loop
  walk_loop-Walks [] fuel state l = at_end state
  walk_loop-Walks (b ∷ message) zero state l = absurd (omega arith)
  walk_loop-Walks (b ∷ message) (suc fuel) state l =
      elim (Option-cases (next_field (b ∷ message))) [
        | inl e ↦ rw (e) (unread b message state e)
        | inr ((f, rest), e) ↦ elim (Option-cases (fn f state)) [
          | inl g ↦ rw (e, g) (stopped b message state f rest e g)
          | inr (changed, g) ↦
              rw (e, g)
                (stepped b message state f rest changed _ e g (
                  walk_loop-Walks rest fuel changed
                    (omega (arith, next_field-shorter (b ∷ message) e))))
        ]
      ]

  -- `walk` ends on every message for a reason that the message gives: after finitely many fields
  -- none is left, or the next one does not read, or `fn` stops at it.
  pub walk-Walks : (message : Bytes) (state : S) → Walks message state (walk fn message state)
  unfolding walk
  walk-Walks message state = walk_loop-Walks message (length message) state (omega arith)

  -- What `fn` keeps, a walk keeps.
  walk_loop-OnSome :
      (P : S → Type 0)
      → ((f : Field) (s : S) → P s → OnSome P (fn f s))
      → (message : Bytes) (fuel : ℕ) (s : S) → P s
      → OnSome P (walk_loop fn message fuel s)
  unfolding walk_loop
  walk_loop-OnSome P keeps [] fuel s p = OnSome-some P s p
  walk_loop-OnSome P keeps (b ∷ message) zero s p = OnSome-none P
  walk_loop-OnSome P keeps (b ∷ message) (suc fuel) s p =
      OnSome-bind P (next_field (b ∷ message)) _ (λ x read.
        OnSome-bind P (fn x.0 s) _
          (λ t e. walk_loop-OnSome P keeps (x.1) fuel t (OnSome-eq P (keeps (x.0) s p) e)))

  pub walk-OnSome :
      (P : S → Type 0)
      → ((f : Field) (s : S) → P s → OnSome P (fn f s))
      → (message : Bytes) (s : S) → P s
      → OnSome P (walk fn message s)
  unfolding walk
  walk-OnSome P keeps message s p = walk_loop-OnSome P keeps message (length message) s p
