-- ===== src/Otlp/Listed.antt =====
-- The bodies that internal/otlp/protobuf.go decodes: every record keeps listed attributes only.
use costroid.Prelude.{◌≡◌, List, [], ◌∷◌, ◌++◌, Option, some, ◌>>=◌, Bytes, All, All-append}
use costroid.Prelude.Results.{OnSome, OnSome-some, OnSome-if, OnSome-bind, OnSome-eq}
use costroid.Otlp.Wire.{Field, walk, is_bytes}
use costroid.Otlp.Bounds.{walk-OnSome}
use costroid.Otlp.Fields.{Attributes, Collector, Record}
use costroid.Otlp.Protobuf.{proto_attribute_list, proto_span, proto_discard_list}
use costroid.Otlp.Messages.{
  Signal, traces, logs, proto_log, decode_record, BlockState, block_field, scope_field, read_scopes,
  proto_resource_block, body_field, decode_protobuf,
}
use costroid.Otlp.Kept.{
  IsListed, IsKept, Keeps, RecordKept, proto_attribute_list-IsKept, proto_span-IsKept,
  proto_log-IsKept,
}

module _ (lower : Bytes → Bytes) where
  abbrev RecordsKept : List Record × Collector → Type 0
  RecordsKept state = All (λ r. IsKept (r.attrs)) (state.0)

  one_more :
      (records : List Record) (decoded : Option (Record × Collector))
      → All (λ r. IsKept (r.attrs)) records
      → OnSome (RecordKept lower) decoded
      → OnSome RecordsKept (decoded >>= (λ d. some (records ++ (d.0 ∷ []), d.1)))
  one_more records decoded kept p = OnSome-bind RecordsKept decoded _ (λ d e.
      OnSome-some RecordsKept _ (
        All-append (λ r. IsKept (r.attrs)) records (d.0 ∷ []) kept
          (OnSome-eq (RecordKept lower) p e, tt)))

  decode_record-IsKept :
      (signal : Signal) (message : Bytes) (shared : Attributes) (state : List Record × Collector)
      → IsKept shared
      → RecordsKept state
      → OnSome RecordsKept (decode_record lower signal message shared state)
  unfolding decode_record
  decode_record-IsKept logs message shared (records, c) kept p =
      one_more records (proto_log lower message shared c) p
        (proto_log-IsKept lower message shared c kept)
  decode_record-IsKept traces message shared (records, c) kept p =
      one_more records (proto_span lower message shared c) p
        (proto_span-IsKept lower message shared c kept)

  abbrev SharedKept : BlockState → Type 0
  SharedKept state = IsKept (state.0)

  block_field-IsKept :
      (f : Field) (state : BlockState)
      → SharedKept state
      → OnSome SharedKept (block_field lower f state)
  unfolding block_field
  block_field-IsKept f (shared, scopes, c) p =
      OnSome-if SharedKept (is_bytes f 1) _ _
        (λ e.
          OnSome-bind SharedKept (proto_attribute_list lower (f.payload) 1 (shared, c)) _ (λ kept e.
            OnSome-some SharedKept _
              (OnSome-eq Keeps (proto_attribute_list-IsKept lower (f.payload) 1 (shared, c) p) e)))
        (λ e.
          OnSome-if SharedKept (is_bytes f 2) _ _ (λ e. OnSome-some SharedKept _ p)
            (λ e. OnSome-some SharedKept _ p))

  scope_field-IsKept :
      (signal : Signal) (shared : Attributes)
      → IsKept shared
      → (f : Field) (state : List Record × Collector) → RecordsKept state
      → OnSome RecordsKept (scope_field lower signal shared f state)
  unfolding scope_field
  scope_field-IsKept signal shared kept f (records, c) p =
      OnSome-if RecordsKept (is_bytes f 1) _ _
        (λ e.
          OnSome-bind RecordsKept (proto_discard_list lower (f.payload) 3 c) _
            (λ changed e. OnSome-some RecordsKept _ p))
        (λ e.
          OnSome-if RecordsKept (is_bytes f 2) _ _
            (λ e. decode_record-IsKept signal (f.payload) shared (records, c) kept p)
            (λ e. OnSome-some RecordsKept _ p))

  read_scopes-IsKept :
      (signal : Signal) (shared : Attributes) (scopes : List Bytes)
      (state : List Record × Collector)
      → IsKept shared
      → RecordsKept state
      → OnSome RecordsKept (read_scopes lower signal shared scopes state)
  unfolding read_scopes
  read_scopes-IsKept signal shared [] state kept p = OnSome-some RecordsKept state p
  read_scopes-IsKept signal shared (scope ∷ scopes) state kept p =
      OnSome-bind RecordsKept (walk (scope_field lower signal shared) scope state) _ (λ changed e.
        read_scopes-IsKept signal shared scopes changed kept (
          OnSome-eq RecordsKept
            (walk-OnSome (scope_field lower signal shared) RecordsKept
              (scope_field-IsKept signal shared kept) scope state p)
            e))

  body_field-IsKept :
      (signal : Signal) (f : Field) (state : List Record × Collector)
      → RecordsKept state
      → OnSome RecordsKept (body_field lower signal f state)
  unfolding body_field proto_resource_block
  body_field-IsKept signal f (records, c) p =
      OnSome-if RecordsKept (is_bytes f 1) _ _
        (λ e.
          OnSome-bind RecordsKept (walk (block_field lower) (f.payload) ([], [], c)) _ (λ block e.
            read_scopes-IsKept signal (block.0) (block.1) (records, block.2)
              (OnSome-eq SharedKept
                (walk-OnSome (block_field lower) SharedKept block_field-IsKept (f.payload)
                  ([], [], c) tt)
                e)
              p))
        (λ e. OnSome-some RecordsKept _ p)

  -- Whatever a protobuf body holds, each attribute of the records decoded from it has a key of
  -- the allowlist, or is the address, and a text of at most 1024 bytes.
  pub decode_protobuf-IsListed :
      (body : Bytes) (signal : Signal) (c : Collector) {records : List Record} {after : Collector}
      → decode_protobuf lower body signal c ≡ some (records, after)
      → All (λ r. All IsListed r.attrs) records
  unfolding decode_protobuf
  decode_protobuf-IsListed body signal c e =
      OnSome-eq RecordsKept
        (walk-OnSome (body_field lower signal) RecordsKept (body_field-IsKept signal) body ([], c)
          tt)
        e
