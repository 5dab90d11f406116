-- ===== src/Otlp/Wire.antt =====
-- The protobuf wire format as internal/otlp/protobuf.go reads it: `walk`, `field.read`, and
-- `binary.Uvarint` and `binary.LittleEndian` of Go's library, which they call. An error is `none`.
use costroid.Prelude.{
  ℕ, zero, suc, ◌+◌, ◌*◌, ◌/◌, ◌%◌, ltb, ◌==◌, Bool, ◌&&◌, if◌then◌else◌, [], ◌∷◌, Option, none,
  some, ◌>>=◌, Bytes, length, take, drop,
}

abbrev pub wire_varint : ℕ
wire_varint = 0

abbrev pub wire_fixed64 : ℕ
wire_fixed64 = 1

abbrev pub wire_bytes : ℕ
wire_bytes = 2

abbrev pub wire_fixed32 : ℕ
wire_fixed32 = 5

-- `payload` is the field `data` of the code.
pub record Field : Type 0 where
  pub number : ℕ
  pub wire : ℕ
  pub bits : ℕ
  pub payload : Bytes

-- The loop of `binary.Uvarint`: `room` bytes may still be read, and `place` is the weight of the next. The
-- tenth byte, where `room` ends at 0, may only be 0 or 1. The bits of each byte are above those read.
unfoldable pub uvarint_loop : ℕ → ℕ → ℕ → Bytes → Option (ℕ × Bytes)
uvarint_loop room place x [] = none
uvarint_loop zero place x (b ∷ s) = none
uvarint_loop (suc room) place x (b ∷ s) =
    let rest = uvarint_loop room (place * 128) (x + b % 128 * place) s in
    if ltb b 128 then (if room == 0 && ltb 1 b then none else some (x + b * place, s)) else rest

abbrev pub max_varint_bytes : ℕ
max_varint_bytes = 10

-- The value, and what follows it.
unfoldable pub uvarint : Bytes → Option (ℕ × Bytes)
uvarint message = uvarint_loop max_varint_bytes 1 0 message

unfoldable pub little_endian : Bytes → ℕ
little_endian [] = 0
little_endian (b ∷ s) = b + 256 * little_endian s

unfoldable pub read_sized : ℕ → ℕ × Bytes → Option (Field × Bytes)
read_sized number (size, rest) =
    if ltb (length rest) size
    then none
    else some (
      record { number = number; wire = wire_bytes; bits = 0; payload = take size rest },
      drop size rest,
    )

unfoldable pub read_field : ℕ → ℕ → Bytes → Option (Field × Bytes)
unfolding little_endian read_sized
read_field number wire message =
    if wire == wire_varint
    then (do
      (value, rest) ← uvarint message
      some (record { number = number; wire = wire; bits = value; payload = [] }, rest))
    else if wire == wire_fixed64
    then (if ltb (length message) 8
        then none
        else some (
          record {
            number = number;
            wire = wire;
            bits = little_endian (take 8 message);
            payload = [];
          },
          drop 8 message,
        ))
    else if wire == wire_fixed32
    then (if ltb (length message) 4
        then none
        else some (record { number = number; wire = wire; bits = 0; payload = [] }, drop 4 message))
    else if wire == wire_bytes
    then (do sized ← uvarint message; read_sized number sized)
    else none

-- A tag and its field.
unfoldable pub next_field : Bytes → Option (Field × Bytes)
next_field message = do (tag, rest) ← uvarint message; read_field (tag / 8) (tag % 8) rest

-- `walk`, where `fn` changes a state or stops. Each field takes a byte at least, so that the length of the
-- message is fuel enough.
module _ {S : Type 0} (fn : Field → S → Option S) where
  unfoldable pub walk_loop : Bytes → ℕ → S → Option S
  walk_loop [] fuel state = some state
  walk_loop (b ∷ message) zero state = none
  walk_loop (b ∷ message) (suc fuel) state = do
    (current, rest) ← next_field (b ∷ message)
    changed ← fn current state
    walk_loop rest fuel changed

  unfoldable pub walk : Bytes → S → Option S
  unfolding walk_loop
  walk message state = walk_loop message (length message) state

unfoldable pub is_bytes : Field → ℕ → Bool
is_bytes f number = f.number == number && f.wire == wire_bytes

unfoldable pub is_varint : Field → ℕ → Bool
is_varint f number = f.number == number && f.wire == wire_varint

unfoldable pub is_fixed64 : Field → ℕ → Bool
is_fixed64 f number = f.number == number && f.wire == wire_fixed64
