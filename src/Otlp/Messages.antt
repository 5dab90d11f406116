-- ===== src/Otlp/Messages.antt =====
-- The log records and the whole body of internal/otlp/protobuf.go: `protoLog`, `protoResourceBlock` and
-- `decodeProtobuf`.
use costroid.Prelude.{
  ℕ, ltb, ◌==◌, Bool, true, false, ◌&&◌, not, if◌then◌else◌, List, [], ◌∷◌, ◌++◌, Option, some,
  ◌>>=◌, Bytes, bytes_eq, length, codes,
}
use costroid.Otlp.Wire.{Field, walk, is_bytes, is_fixed64}
use costroid.Otlp.Fields.{
  contains_key, Attributes, merged, Collector, count_drop, Record, drop_log_body,
}
use costroid.Otlp.Protobuf.{
  proto_scalar, hex, proto_key_value, proto_attribute_list, proto_discard_list, empty_record,
  proto_span,
}

abbrev pub event_names : List Bytes
event_names =
    codes "claude_code.api_request" ∷ codes "api_request" ∷ codes "cursor.api.request" ∷ []

-- What the decoder of a log changes.
pub record LogState : Type 0 where
  pub entry : Record
  pub own : Attributes
  pub collector : Collector
  pub body : Bytes
  pub observed : ℕ
  pub body_present : Bool

pub data Signal : Type 0 where
  traces logs : Signal

abbrev pub with_body : Bytes → LogState → Option LogState
with_body message s = do
  value ← proto_scalar message
  some (record s { body = value.0; body_present = ltb 0 (length message) })

-- The end of `protoLog`: the name, and whether the body counts as dropped.
unfoldable pub named_by_body : LogState → Bytes × Collector
named_by_body s =
    if bytes_eq (s.entry.name) [] && contains_key event_names s.body
    then (s.body, s.collector)
    else if s.body_present && not (bytes_eq s.body (s.entry.name))
    then (s.entry.name, count_drop drop_log_body s.collector)
    else (s.entry.name, s.collector)

-- The resource's attributes and the scopes that wait for them.
abbrev pub BlockState : Type 0
BlockState = Attributes × List Bytes × Collector

module _ (lower : Bytes → Bytes) where
  abbrev pub with_log_attribute : Bytes → LogState → Option LogState
  with_log_attribute message s = do
    kept ← proto_key_value lower message (s.own, s.collector)
    some (record s { own = kept.0; collector = kept.1 })

  unfoldable pub log_field : Field → LogState → Option LogState
  unfolding is_bytes is_fixed64 hex
  log_field f s =
      if is_fixed64 f 1
      then some (record s { entry = record (s.entry) { start = f.bits } })
      else if is_fixed64 f 11
      then some (record s { observed = f.bits })
      else if is_bytes f 9
      then some (record s { entry = record (s.entry) { trace_id = hex f.payload } })
      else if is_bytes f 10
      then some (record s { entry = record (s.entry) { span_id = hex f.payload } })
      else if is_bytes f 12
      then some (record s { entry = record (s.entry) { name = f.payload } })
      else if is_bytes f 6
      then with_log_attribute f.payload s
      else if is_bytes f 5
      then with_body f.payload s
      else some s

  unfoldable pub proto_log : Bytes → Attributes → Collector → Option (Record × Collector)
  unfolding walk log_field named_by_body
  proto_log message shared c = do
    s ← walk log_field message (record {
      entry = empty_record true;
      own = [];
      collector = c;
      body = [];
      observed = 0;
      body_present = false;
    })
    let start = if s.entry.start == 0 then s.observed else s.entry.start
    let named = named_by_body s
    some (
      record (s.entry) { attrs = merged shared s.own; name = named.0; start = start; end = start },
      named.1,
    )

  -- The decoder of one record that `decodeProtobuf` makes of the signal.
  unfoldable pub decode_record :
      Signal → Bytes → Attributes → List Record × Collector → Option (List Record × Collector)
  decode_record logs message shared (records, c) = do
    decoded ← proto_log message shared c
    some (records ++ (decoded.0 ∷ []), decoded.1)
  decode_record traces message shared (records, c) = do
    decoded ← proto_span lower message shared c
    some (records ++ (decoded.0 ∷ []), decoded.1)

  unfoldable pub block_field : Field → BlockState → Option BlockState
  unfolding is_bytes
  block_field f (shared, scopes, c) =
      if is_bytes f 1
      then (do
        kept ← proto_attribute_list lower f.payload 1 (shared, c)
        some (kept.0, scopes, kept.1))
      else if is_bytes f 2
      then some (shared, scopes ++ (f.payload ∷ []), c)
      else some (shared, scopes, c)

  unfoldable pub scope_field :
      Signal → Attributes → Field → List Record × Collector → Option (List Record × Collector)
  unfolding is_bytes decode_record
  scope_field signal shared f (records, c) =
      if is_bytes f 1
      then (do changed ← proto_discard_list lower f.payload 3 c; some (records, changed))
      else if is_bytes f 2
      then decode_record signal f.payload shared (records, c)
      else some (records, c)

  unfoldable pub read_scopes :
      Signal → Attributes → List Bytes → List Record × Collector → Option (List Record × Collector)
  unfolding walk scope_field
  read_scopes signal shared [] state = some state
  read_scopes signal shared (scope ∷ scopes) state = do
    changed ← walk (scope_field signal shared) scope state
    read_scopes signal shared scopes changed

  unfoldable pub proto_resource_block :
      Signal → Bytes → List Record × Collector → Option (List Record × Collector)
  unfolding walk block_field read_scopes
  proto_resource_block signal message (records, c) = do
    block ← walk block_field message ([], [], c)
    read_scopes signal block.0 block.1 (records, block.2)

  unfoldable pub body_field :
      Signal → Field → List Record × Collector → Option (List Record × Collector)
  unfolding is_bytes proto_resource_block
  body_field signal f state =
      if is_bytes f 1 then proto_resource_block signal f.payload state else some state

  -- The records of a body, and the collector after it.
  unfoldable pub decode_protobuf : Bytes → Signal → Collector → Option (List Record × Collector)
  unfolding walk body_field
  decode_protobuf body signal c = walk (body_field signal) body ([], c)
