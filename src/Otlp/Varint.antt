-- ===== src/Otlp/Varint.antt =====
-- The varints and fixed-width words that internal/otlp/protobuf.go reads, as an encoder writes them.
use costroid.Prelude.{
  ℕ, zero, suc, ◌+◌, ◌*◌, ◌/◌, ◌%◌, ◌^◌, ◌≤◌, ◌<◌, ltb, false, ◌≡◌, refl, ap, ◌∙◌, if◌then◌else◌,
  [], ◌∷◌, ◌++◌, some, Bytes, length, take, drop, length-append, arith, Bool-cases, inl, inr,
}
use native.Mathlib.Nat.{pow-suc}
use costroid.Otlp.Wire.{uvarint_loop, uvarint, little_endian, read_sized, wire_bytes}

-- What a varint of so many bytes can hold.
unfoldable pub varint_limit : ℕ → ℕ
varint_limit zero = 0
varint_limit (suc zero) = 2
varint_limit (suc (suc room)) = 128 * varint_limit (suc room)

-- `binary.PutUvarint`, in at most `room` bytes.
unfoldable pub put_uvarint : ℕ → ℕ → Bytes
put_uvarint zero n = []
put_uvarint (suc room) n =
    let more = put_uvarint room (n / 128) in if ltb n 128 then n ∷ [] else (128 + n % 128) ∷ more

abbrev pub encode_uvarint : ℕ → Bytes
encode_uvarint n = put_uvarint 10 n

uvarint_loop-last :
    (room place x b : ℕ) (s : Bytes)
    → b < 128
    → uvarint_loop (suc (suc room)) place x (b ∷ s) ≡ some (x + b * place, s)
unfolding uvarint_loop
uvarint_loop-last room place x b s l = ground arith

uvarint_loop-more :
    (room place x b : ℕ) (s : Bytes)
    → b < 128
    → uvarint_loop (suc room) place x ((128 + b) ∷ s)
      ≡ uvarint_loop room (place * 128) (x + b * place) s
unfolding uvarint_loop
uvarint_loop-more room place x b s l =
    let high : ltb (128 + b) 128 ≡ false = ground arith in
    let low : (128 + b) % 128 ≡ b = omega arith in rw (high, low)

put_uvarint-last : (room n : ℕ) → n < 128 → put_uvarint (suc room) n ≡ n ∷ []
unfolding put_uvarint
put_uvarint-last room n l = ground arith

put_uvarint-more :
    (room n : ℕ) → 128 ≤ n → put_uvarint (suc room) n ≡ (128 + n % 128) ∷ put_uvarint room (n / 128)
unfolding put_uvarint
put_uvarint-more room n l = ground arith

spread :
    (x low high place : ℕ) → x + low * place + high * (place * 128) ≡ x + (low + high * 128) * place
spread x low high place = grind arith

uvarint_loop-put_uvarint :
    (room place x n : ℕ) (s : Bytes)
    → n < varint_limit room
    → uvarint_loop room place x (put_uvarint room n ++ s) ≡ some (x + n * place, s)
uvarint_loop-put_uvarint zero place x n s l = absurd (unfold varint_limit in omega arith)
uvarint_loop-put_uvarint (suc zero) place x n s l =
    unfold uvarint_loop put_uvarint varint_limit in ground arith
uvarint_loop-put_uvarint (suc (suc room)) place x n s l = elim (Bool-cases (ltb n 128)) [
  | inl small ↦
      rw (put_uvarint-last (suc room) n (ground arith))
        (uvarint_loop-last room place x n s (ground arith))
  | inr big ↦
      let fewer : n / 128 < varint_limit (suc room) = unfold varint_limit in omega arith in
      let split : x + n % 128 * place + n / 128 * (place * 128) ≡ x + n * place =
        spread x (n % 128) (n / 128) place ∙ ap (λ m. x + m * place) (omega arith) in
      rw (
        put_uvarint-more (suc room) n (ground arith),
        uvarint_loop-more (suc room) place x (n % 128) (put_uvarint (suc room) (n / 128) ++ s)
            (omega arith),
        uvarint_loop-put_uvarint (suc room) (place * 128) (x + n % 128 * place) (n / 128) s fewer,
        split,
      )
]

-- Reading a varint that was written, whatever follows.
pub uvarint-encode_uvarint :
    (n : ℕ) (s : Bytes) → n < 2 ^ 64 → uvarint (encode_uvarint n ++ s) ≡ some (n, s)
unfolding uvarint
uvarint-encode_uvarint n s l =
    let fits : n < varint_limit 10 = unfold varint_limit in omega arith in
    uvarint_loop-put_uvarint 10 1 0 n s fits ∙ ap (λ v. some (v, s)) (omega arith)

-- `binary.LittleEndian.PutUint64`, on so many bytes.
unfoldable pub put_little_endian : ℕ → ℕ → Bytes
put_little_endian zero n = []
put_little_endian (suc count) n = n % 256 ∷ put_little_endian count (n / 256)

pub length-put_little_endian : (count n : ℕ) → length (put_little_endian count n) ≡ count
unfolding put_little_endian
length-put_little_endian zero n = refl
length-put_little_endian (suc count) n = ap suc (length-put_little_endian count (n / 256))

pub little_endian-put :
    (count n : ℕ) → n < 256 ^ count → little_endian (put_little_endian count n) ≡ n
unfolding put_little_endian little_endian
little_endian-put zero n l = omega arith
little_endian-put (suc count) n l =
    let less : n / 256 < 256 ^ count = omega (arith, pow-suc 256 count) in
    omega (arith, little_endian-put count (n / 256) less)

take-length : (front back : Bytes) → take (length front) (front ++ back) ≡ front
take-length [] back = refl
take-length (b ∷ front) back = ap (λ s. b ∷ s) (take-length front back)

drop-length : (front back : Bytes) → drop (length front) (front ++ back) ≡ back
drop-length [] back = refl
drop-length (b ∷ front) back = drop-length front back

pub take-put_little_endian :
    (count n : ℕ) (s : Bytes)
    → take count (put_little_endian count n ++ s) ≡ put_little_endian count n
unfolding put_little_endian
take-put_little_endian zero n s = refl
take-put_little_endian (suc count) n s =
    ap (λ t. n % 256 ∷ t) (take-put_little_endian count (n / 256) s)

pub drop-put_little_endian :
    (count n : ℕ) (s : Bytes) → drop count (put_little_endian count n ++ s) ≡ s
unfolding put_little_endian
drop-put_little_endian zero n s = refl
drop-put_little_endian (suc count) n s = drop-put_little_endian count (n / 256) s

-- What was written is as long as is asked for.
pub long_enough :
    (front back : Bytes) (size : ℕ)
    → length front ≡ size
    → ltb (length (front ++ back)) size ≡ false
long_enough front back size e = ground (arith, length-append front back)

pub read_sized-append :
    (number : ℕ) (t s : Bytes)
    → read_sized number (length t, t ++ s)
      ≡ some (record { number = number; wire = wire_bytes; bits = 0; payload = t }, s)
unfolding read_sized
read_sized-append number t s =
    rw (long_enough t s (length t) refl, take-length t s, drop-length t s)
