-- ===== src/Otlp/RoundTrip.antt =====
-- What `walk` of internal/otlp/protobuf.go reads of a message that an encoder wrote, in the wire format that
-- opentelemetry-proto's senders use.
use costroid.Prelude.{
  ℕ, zero, suc, ◌+◌, ◌*◌, ◌/◌, ◌%◌, ◌^◌, ◌≤◌, ◌<◌, ◌≡◌, refl, ◌∙◌, List, [], ◌∷◌, ◌++◌,
  append_assoc, Option, some, ◌>>=◌, Bytes, length, length-append, arith, All,
}
use costroid.Prelude.Results.{bind-cong}
use costroid.Otlp.Wire.{
  Field, uvarint, read_field, next_field, walk_loop, walk, wire_varint, wire_fixed64, wire_bytes,
  wire_fixed32,
}
use costroid.Otlp.Varint.{
  encode_uvarint, put_uvarint, uvarint-encode_uvarint, put_little_endian, length-put_little_endian,
  little_endian-put, take-put_little_endian, drop-put_little_endian, long_enough, read_sized-append,
}

-- A field as a sender writes it.
pub data Item : Type 0 where
  varint : ℕ → ℕ → Item
  fixed64 : ℕ → ℕ → Item
  fixed32 : ℕ → ℕ → Item
  bytes : ℕ → Bytes → Item

abbrev tag_of : ℕ → ℕ → Bytes
tag_of number wire = encode_uvarint (number * 8 + wire)

unfoldable pub encode_item : Item → Bytes
encode_item (varint number n) = tag_of number wire_varint ++ encode_uvarint n
encode_item (fixed64 number n) = tag_of number wire_fixed64 ++ put_little_endian 8 n
encode_item (fixed32 number n) = tag_of number wire_fixed32 ++ put_little_endian 4 n
encode_item (bytes number s) = tag_of number wire_bytes ++ (encode_uvarint (length s) ++ s)

-- The field that the decoder makes of it. It steps over the four bytes of a fixed32 and keeps none of them:
-- no field that it reads has that type.
abbrev pub field_of : Item → Field
field_of (varint number n) = record { number = number; wire = wire_varint; bits = n; payload = [] }
field_of (fixed64 number n) = record {
  number = number;
  wire = wire_fixed64;
  bits = n;
  payload = [];
}
field_of (fixed32 number n) = record {
  number = number;
  wire = wire_fixed32;
  bits = 0;
  payload = [];
}
field_of (bytes number s) = record { number = number; wire = wire_bytes; bits = 0; payload = s }

-- Numbers that fit their place: a tag and a varint are uint64s.
abbrev pub IsSendable : Item → Type 0
IsSendable (varint number n) = (number < 2 ^ 61) × (n < 2 ^ 64)
IsSendable (fixed64 number n) = (number < 2 ^ 61) × (n < 2 ^ 64)
IsSendable (fixed32 number n) = (number < 2 ^ 61) × (n < 2 ^ 32)
IsSendable (bytes number s) = (number < 2 ^ 61) × (length s < 2 ^ 64)

unfoldable pub encode_items : List Item → Bytes
unfolding encode_item
encode_items [] = []
encode_items (i ∷ items) = encode_item i ++ encode_items items

next_field-tag :
    (number wire : ℕ) (s : Bytes)
    → number < 2 ^ 61
    → wire < 8
    → next_field (tag_of number wire ++ s) ≡ read_field number wire s
unfolding next_field
next_field-tag number wire s l small =
    let tag : uvarint (tag_of number wire ++ s) ≡ some (number * 8 + wire, s) =
      uvarint-encode_uvarint (number * 8 + wire) s (omega arith) in
    let high : (number * 8 + wire) / 8 ≡ number = omega arith in
    let low : (number * 8 + wire) % 8 ≡ wire = omega arith in rw (tag, high, low)

next_field-encode_item :
    (i : Item) (s : Bytes) → IsSendable i → next_field (encode_item i ++ s) ≡ some (field_of i, s)
unfolding encode_item read_field
next_field-encode_item (varint number n) s (l, fits) = rw (
  append_assoc,
  next_field-tag number wire_varint (encode_uvarint n ++ s) l (omega arith),
  uvarint-encode_uvarint n s fits,
)
next_field-encode_item (fixed64 number n) s (l, fits) = rw (
  append_assoc,
  next_field-tag number wire_fixed64 (put_little_endian 8 n ++ s) l (omega arith),
  long_enough (put_little_endian 8 n) s 8 (length-put_little_endian 8 n),
  take-put_little_endian 8 n s,
  drop-put_little_endian 8 n s,
  little_endian-put 8 n (omega arith),
)
next_field-encode_item (fixed32 number n) s (l, fits) = rw (
  append_assoc,
  next_field-tag number wire_fixed32 (put_little_endian 4 n ++ s) l (omega arith),
  long_enough (put_little_endian 4 n) s 4 (length-put_little_endian 4 n),
  drop-put_little_endian 4 n s,
)
next_field-encode_item (bytes number t) s (l, fits) = rw (
  append_assoc,
  next_field-tag number wire_bytes ((encode_uvarint (length t) ++ t) ++ s) l (omega arith),
  append_assoc (encode_uvarint (length t)) t s,
  uvarint-encode_uvarint (length t) (t ++ s) fits,
  read_sized-append number t s,
)

-- An item takes a byte at least.
put_uvarint-nonempty : (room n : ℕ) (s : Bytes) → 0 < length (put_uvarint (suc room) n ++ s)
unfolding put_uvarint
put_uvarint-nonempty room n s = ground arith

encode_item-nonempty : (i : Item) → 0 < length (encode_item i)
unfolding encode_item
encode_item-nonempty (varint number n) =
    put_uvarint-nonempty 9 (number * 8 + wire_varint) (encode_uvarint n)
encode_item-nonempty (fixed64 number n) =
    put_uvarint-nonempty 9 (number * 8 + wire_fixed64) (put_little_endian 8 n)
encode_item-nonempty (fixed32 number n) =
    put_uvarint-nonempty 9 (number * 8 + wire_fixed32) (put_little_endian 4 n)
encode_item-nonempty (bytes number s) =
    put_uvarint-nonempty 9 (number * 8 + wire_bytes) (encode_uvarint (length s) ++ s)

module _ {S : Type 0} (fn : Field → S → Option S) where
  -- What the fields do in order.
  unfoldable pub each_item : List Item → S → Option S
  each_item [] state = some state
  each_item (i ∷ items) state = do changed ← fn (field_of i) state; each_item items changed

  walk_loop-step :
      (message rest : Bytes) (f : Field) (fuel : ℕ) (state : S)
      → 0 < length message
      → next_field message ≡ some (f, rest)
      → walk_loop fn message (suc fuel) state
        ≡ (do changed ← fn f state; walk_loop fn rest fuel changed)
  unfolding walk_loop
  walk_loop-step [] rest f fuel state l e = absurd (omega arith)
  walk_loop-step (b ∷ message) rest f fuel state l e = rw (e)

  walk_loop-encode_items :
      (items : List Item) (fuel : ℕ) (state : S)
      → All IsSendable items
      → length (encode_items items) ≤ fuel
      → walk_loop fn (encode_items items) fuel state ≡ each_item items state
  unfolding encode_items each_item
  walk_loop-encode_items [] fuel state ok enough = unfold walk_loop in refl
  walk_loop-encode_items (i ∷ items) zero state (ok, others) enough =
      absurd
        (omega (arith, encode_item-nonempty i, length-append (encode_item i) (encode_items items)))
  walk_loop-encode_items (i ∷ items) (suc fuel) state (ok, others) enough =
      let some_byte : 0 < length (encode_item i ++ encode_items items) =
        omega (arith, encode_item-nonempty i, length-append (encode_item i) (encode_items items)) in
      let shorter : length (encode_items items) ≤ fuel =
        omega (arith, encode_item-nonempty i, length-append (encode_item i) (encode_items items)) in
      walk_loop-step (encode_item i ++ encode_items items) (encode_items items) (field_of i) fuel
        state some_byte (next_field-encode_item i (encode_items items) ok)
      ∙ bind-cong (fn (field_of i) state)
          (λ changed e. walk_loop-encode_items items fuel changed others shorter)

  -- `walk` hands `fn` the fields of an encoded message in their order, each with its number, its
  -- wire type and the value or the bytes that were written, of a fixed32 only the number and the
  -- wire type, where the numbers are below 2^61 and the values and lengths fit their places.
  pub walk-encode_items :
      (items : List Item) (state : S)
      → All IsSendable items
      → walk fn (encode_items items) state ≡ each_item items state
  unfolding walk
  walk-encode_items items state ok =
      walk_loop-encode_items items (length (encode_items items)) state ok (omega arith)
