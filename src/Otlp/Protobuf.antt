-- ===== src/Otlp/Protobuf.antt =====
-- The decoders of internal/otlp/protobuf.go: spans and logs out of a protobuf body. The collector that they
-- change is passed along; a body with an error yields nothing, so neither does a collector after one.
use costroid.Prelude.{
  ℕ, ◌+◌, ◌-◌, ◌*◌, ◌/◌, ◌%◌, ◌^◌, ltb, leb, ◌==◌, Bool, true, false, ◌&&◌, ◌||◌, not,
  if◌then◌else◌, [], ◌∷◌, Option, none, some, ◌>>=◌, Bytes, length, codes,
}
use costroid.Decimal.Text.{digits_of}
use costroid.Otlp.Wire.{Field, walk, is_bytes, is_varint, is_fixed64}
use costroid.Otlp.Fields.{
  Attributes, merged, Collector, count_drop, keep, discard, Record, drop_status_message,
}

-- `strconv.FormatInt` of the int64 with these bits.
unfoldable pub format_int : ℕ → Bytes
format_int bits = if ltb bits (2 ^ 63) then digits_of bits else b'-' ∷ digits_of (2 ^ 64 - bits)

abbrev pub double_exponent_bias : ℕ
double_exponent_bias = 1023

abbrev pub max_double_exponent : ℕ
max_double_exponent = 62

-- The whole number that a mantissa and an exponent of at most 62 stand for, if it is one. Below 2 ^ 63 the
-- shift to the left loses no bit.
unfoldable pub whole_of : ℕ → ℕ → Option ℕ
whole_of mantissa exponent =
    if leb 52 exponent
    then some (mantissa * 2 ^ (exponent - 52))
    else if not (mantissa % 2 ^ (52 - exponent) == 0)
    then none
    else some (mantissa / 2 ^ (52 - exponent))

-- `integralDouble`, before its text is made: whether it is negative, and the number.
unfoldable pub integral_parts : ℕ → Option (Bool × ℕ)
unfolding whole_of
integral_parts bits =
    let fraction = bits % 2 ^ 52 in
    let biased = bits / 2 ^ 52 % 2048 in
    if biased == 0 && fraction == 0
    then some (false, 0)
    else if ltb biased double_exponent_bias
        || ltb max_double_exponent (biased - double_exponent_bias)
    then none
    else do
      whole ← whole_of (fraction + 2 ^ 52) (biased - double_exponent_bias)
      some (not (bits / 2 ^ 63 == 0), whole)

unfoldable pub integral_double : ℕ → Bytes × Bool
unfolding integral_parts
integral_double bits = elim (integral_parts bits) [
  | none ↦ ([], false)
  | some (negative, whole) ↦ (if negative then b'-' ∷ digits_of whole else digits_of whole, true)
]

-- One field of an AnyValue, on the text and whether it is a scalar.
unfoldable pub scalar_field : Field → Bytes × Bool → Option (Bytes × Bool)
unfolding is_bytes is_varint is_fixed64 integral_double format_int
scalar_field f value =
    if is_bytes f 1
    then some (f.payload, true)
    else if is_varint f 2
    then some (if f.bits == 0 then codes "false" else codes "true", true)
    else if is_varint f 3
    then some (format_int f.bits, true)
    else if is_fixed64 f 4
    then some (integral_double f.bits)
    else some value

unfoldable pub proto_scalar : Bytes → Option (Bytes × Bool)
unfolding walk scalar_field
proto_scalar message = walk scalar_field message ([], false)

unfoldable pub key_value_field : Field → Bytes × Bytes × Bool → Option (Bytes × Bytes × Bool)
unfolding is_bytes
key_value_field f (key, text, scalar) =
    if is_bytes f 1
    then some (f.payload, text, scalar)
    else if is_bytes f 2
    then (do value ← proto_scalar f.payload; some (key, value.0, value.1))
    else some (key, text, scalar)

unfoldable pub proto_key_value_parts : Bytes → Option (Bytes × Bytes × Bool)
unfolding walk key_value_field
proto_key_value_parts message = walk key_value_field message ([], [], false)

unfoldable pub hex_digit : ℕ → ℕ
hex_digit n = if ltb n 10 then b'0' + n else b'a' + (n - 10)

-- `hex.EncodeToString`
unfoldable pub hex : Bytes → Bytes
unfolding hex_digit
hex [] = []
hex (b ∷ s) = hex_digit (b / 16) ∷ hex_digit (b % 16) ∷ hex s

-- What the decoder of a span changes: the record, its own attributes, the collector.
pub record SpanState : Type 0 where
  pub entry : Record
  pub own : Attributes
  pub collector : Collector

abbrev pub empty_record : Bool → Record
empty_record log = record {
  attrs = [];
  name = [];
  start = 0;
  end = 0;
  trace_id = [];
  span_id = [];
  log = log;
}

abbrev pub with_collector : SpanState → Option Collector → Option SpanState
with_collector s changed = do c ← changed; some (record s { collector = c })

module _ (lower : Bytes → Bytes) where
  unfoldable pub proto_key_value : Bytes → Attributes × Collector → Option (Attributes × Collector)
  proto_key_value message state = do
    parts ← proto_key_value_parts message
    some (keep lower parts.0 parts.1 parts.2 state)

  unfoldable pub attribute_field :
      ℕ → Field → Attributes × Collector → Option (Attributes × Collector)
  unfolding is_bytes proto_key_value
  attribute_field number f state =
      if is_bytes f number then proto_key_value f.payload state else some state

  unfoldable pub proto_attribute_list :
      Bytes → ℕ → Attributes × Collector → Option (Attributes × Collector)
  unfolding walk attribute_field
  proto_attribute_list message number state = walk (attribute_field number) message state

  unfoldable pub discard_field : ℕ → Field → Collector → Option Collector
  unfolding is_bytes discard
  discard_field number f c =
      if is_bytes f number
      then (do parts ← proto_key_value_parts f.payload; some (discard lower parts.0 c))
      else some c

  unfoldable pub proto_discard_list : Bytes → ℕ → Collector → Option Collector
  unfolding walk discard_field
  proto_discard_list message number c = walk (discard_field number) message c

  unfoldable pub status_field : Field → Collector → Option Collector
  unfolding is_bytes
  status_field f c =
      if is_bytes f 2 && ltb 0 (length f.payload)
      then some (count_drop drop_status_message c)
      else some c

  unfoldable pub proto_status : Bytes → Collector → Option Collector
  unfolding walk status_field
  proto_status message c = walk status_field message c

  abbrev pub with_attribute : Bytes → SpanState → Option SpanState
  with_attribute message s = do
    kept ← proto_key_value message (s.own, s.collector)
    some (record s { own = kept.0; collector = kept.1 })

  unfoldable pub span_field : Field → SpanState → Option SpanState
  unfolding is_bytes is_fixed64 proto_key_value proto_discard_list proto_status hex
  span_field f s =
      if is_bytes f 1
      then some (record s { entry = record (s.entry) { trace_id = hex f.payload } })
      else if is_bytes f 2
      then some (record s { entry = record (s.entry) { span_id = hex f.payload } })
      else if is_bytes f 5
      then some (record s { entry = record (s.entry) { name = f.payload } })
      else if is_fixed64 f 7
      then some (record s { entry = record (s.entry) { start = f.bits } })
      else if is_fixed64 f 8
      then some (record s { entry = record (s.entry) { end = f.bits } })
      else if is_bytes f 9
      then with_attribute f.payload s
      else if is_bytes f 11
      then with_collector s (proto_discard_list f.payload 3 s.collector)
      else if is_bytes f 13
      then with_collector s (proto_discard_list f.payload 4 s.collector)
      else if is_bytes f 15
      then with_collector s (proto_status f.payload s.collector)
      else some s

  unfoldable pub proto_span : Bytes → Attributes → Collector → Option (Record × Collector)
  unfolding walk span_field
  proto_span message shared c = do
    s ← walk span_field message (record { entry = empty_record false; own = []; collector = c })
    some (record (s.entry) { attrs = merged shared s.own }, s.collector)
