-- ===== src/Otlp/Kept.antt =====
-- What gets past the allowlist of internal/otlp: whatever a body holds, the decoders of protobuf.go keep an
-- attribute only if it is listed (or the address that the server replaces), and no long text of it.
use costroid.Prelude.{
  ℕ, ◌≤◌, ltb, Bool, true, false, ◌&&◌, ◌||◌, not, ◌≡◌, [], ◌∷◌, Option, some, Bytes, bytes_eq,
  length, All, if◌then◌else◌, arith,
}
use costroid.Prelude.Results.{OnSome, OnSome-some, OnSome-if, OnSome-bind, OnSome-eq, if_both}
use costroid.Otlp.Wire.{Field, walk, is_bytes, is_fixed64}
use costroid.Otlp.Bounds.{walk-OnSome}
use costroid.Otlp.Fields.{
  contains_key, allowed, key_email, max_value_bytes, Attributes, put, merged, Collector, keep,
  Record,
}
use costroid.Otlp.Protobuf.{
  proto_key_value, attribute_field, proto_attribute_list, SpanState, span_field, proto_span,
  proto_key_value_parts, empty_record, with_collector, with_attribute, proto_discard_list,
  proto_status, proto_scalar,
}
use costroid.Otlp.Messages.{LogState, log_field, proto_log}

-- An attribute that may be kept.
unfoldable pub IsListed : Bytes × Bytes → Type 0
IsListed (key, text) =
    ((contains_key allowed key || bytes_eq key key_email) ≡ true) × (length text ≤ max_value_bytes)

abbrev pub IsKept : Attributes → Type 0
IsKept = All IsListed

put-IsKept :
    (key text : Bytes) (attrs : Attributes)
    → IsListed (key, text)
    → IsKept attrs
    → IsKept (put key text attrs)
unfolding put IsListed
put-IsKept key text [] h kept = (h, tt)
put-IsKept key text ((k, t) ∷ attrs) (listed, short) ((k_listed, t_short), kept) =
    if_both IsKept (bytes_eq k key) ((k, text) ∷ attrs) ((k, t) ∷ put key text attrs)
      (λ same. ((k_listed, short), kept))
      (λ other. ((k_listed, t_short), put-IsKept key text attrs (listed, short) kept))

merged-IsKept :
    (resource own : Attributes) → IsKept resource → IsKept own → IsKept (merged resource own)
unfolding merged
merged-IsKept resource [] kept _ = kept
merged-IsKept resource ((k, t) ∷ own) kept (h, others) =
    merged-IsKept (put k t resource) own (put-IsKept k t resource h kept) others

listed_of :
    (listed email : Bool) (size : ℕ)
    → (not listed && not email) ≡ false
    → ltb max_value_bytes size ≡ false
    → ((listed || email) ≡ true) × (size ≤ max_value_bytes)
listed_of listed email size named fits = (ground arith, ground arith)

abbrev pub Keeps : Attributes × Collector → Type 0
Keeps state = IsKept (state.0)

module _ (lower : Bytes → Bytes) where
  keep-IsKept :
      (key text : Bytes) (scalar : Bool) (attrs : Attributes) (c : Collector)
      → IsKept attrs
      → IsKept ((keep lower key text scalar (attrs, c)).0)
  unfolding keep
  keep-IsKept key text scalar attrs c kept =
      if_both Keeps (not (contains_key allowed key) && not (bytes_eq key key_email)) _ _ (λ e. kept)
        (λ named.
          if_both Keeps (not scalar) _ _ (λ e. kept)
            (λ e.
              if_both Keeps (ltb max_value_bytes (length text)) _ _ (λ e. kept)
                (λ fits.
                  put-IsKept key text attrs
                    (unfold IsListed in
                      listed_of (contains_key allowed key) (bytes_eq key key_email) (length text)
                        named fits)
                    kept)))

  proto_key_value-IsKept :
      (message : Bytes) (state : Attributes × Collector)
      → Keeps state
      → OnSome Keeps (proto_key_value lower message state)
  unfolding proto_key_value
  proto_key_value-IsKept message (attrs, c) kept =
      OnSome-bind Keeps (proto_key_value_parts message) _
        (λ parts e. OnSome-some Keeps _ (keep-IsKept (parts.0) (parts.1) (parts.2) attrs c kept))

  pub proto_attribute_list-IsKept :
      (message : Bytes) (number : ℕ) (state : Attributes × Collector)
      → Keeps state
      → OnSome Keeps (proto_attribute_list lower message number state)
  unfolding proto_attribute_list attribute_field
  proto_attribute_list-IsKept message number state kept =
      walk-OnSome (attribute_field lower number) Keeps
        (λ f s p.
          OnSome-if Keeps (is_bytes f number) _ _ (λ c. proto_key_value-IsKept (f.payload) s p)
            (λ c. OnSome-some Keeps s p))
        message state kept

  abbrev OwnKept : SpanState → Type 0
  OwnKept s = IsKept (s.own)

  -- A branch of a decoder's test that changes other parts only.
  own_if :
      (c : Bool) (s : SpanState) (o : Option SpanState)
      → OwnKept s
      → OnSome OwnKept o
      → OnSome OwnKept (if c then some s else o)
  own_if c s o p q = OnSome-if OwnKept c (some s) o (λ e. OnSome-some OwnKept s p) (λ e. q)

  collector-IsKept :
      (s : SpanState) (changed : Option Collector)
      → OwnKept s
      → OnSome OwnKept (with_collector s changed)
  collector-IsKept s changed p = OnSome-bind OwnKept changed _ (λ c e. OnSome-some OwnKept _ p)

  with_attribute-IsKept :
      (message : Bytes) (s : SpanState)
      → OwnKept s
      → OnSome OwnKept (with_attribute lower message s)
  with_attribute-IsKept message s p =
      OnSome-bind OwnKept (proto_key_value lower message (s.own, s.collector)) _ (λ kept e.
        OnSome-some OwnKept _
          (OnSome-eq Keeps (proto_key_value-IsKept message (s.own, s.collector) p) e))

  span_field-IsKept :
      (f : Field) (s : SpanState) → OwnKept s → OnSome OwnKept (span_field lower f s)
  unfolding span_field
  span_field-IsKept f s p = own_if (is_bytes f 1) _ _ p (
      own_if (is_bytes f 2) _ _ p (
        own_if (is_bytes f 5) _ _ p (
          own_if (is_fixed64 f 7) _ _ p (
            own_if (is_fixed64 f 8) _ _ p (
              OnSome-if OwnKept (is_bytes f 9) _ _ (λ c. with_attribute-IsKept (f.payload) s p)
                (λ c.
                  OnSome-if OwnKept (is_bytes f 11) _ _
                    (λ c.
                      collector-IsKept s (proto_discard_list lower (f.payload) 3 (s.collector)) p)
                    (λ c.
                      OnSome-if OwnKept (is_bytes f 13) _ _
                        (λ c.
                          collector-IsKept s (proto_discard_list lower (f.payload) 4 (s.collector))
                            p)
                        (λ c.
                          OnSome-if OwnKept (is_bytes f 15) _ _
                            (λ c.
                              collector-IsKept s (proto_status lower (f.payload) (s.collector)) p)
                            (λ c. OnSome-some OwnKept s p)))))))))

  abbrev pub RecordKept : Record × Collector → Type 0
  RecordKept decoded = IsKept (decoded.0.attrs)

  pub proto_span-IsKept :
      (message : Bytes) (shared : Attributes) (c : Collector)
      → IsKept shared
      → OnSome RecordKept (proto_span lower message shared c)
  unfolding proto_span
  proto_span-IsKept message shared c kept =
      OnSome-bind RecordKept
        (walk (span_field lower) message
          (record { entry = empty_record false; own = []; collector = c }))
        _
        (λ s e. OnSome-some RecordKept _ (
          merged-IsKept shared (s.own) kept (
            OnSome-eq OwnKept
              (walk-OnSome (span_field lower) OwnKept span_field-IsKept message _ tt) e)))

  abbrev LogKept : LogState → Type 0
  LogKept s = IsKept (s.own)

  log_if :
      (c : Bool) (s : LogState) (o : Option LogState)
      → LogKept s
      → OnSome LogKept o
      → OnSome LogKept (if c then some s else o)
  log_if c s o p q = OnSome-if LogKept c (some s) o (λ e. OnSome-some LogKept s p) (λ e. q)

  log_field-IsKept : (f : Field) (s : LogState) → LogKept s → OnSome LogKept (log_field lower f s)
  unfolding log_field
  log_field-IsKept f s p = log_if (is_fixed64 f 1) _ _ p (
      log_if (is_fixed64 f 11) _ _ p (
        log_if (is_bytes f 9) _ _ p (
          log_if (is_bytes f 10) _ _ p (
            log_if (is_bytes f 12) _ _ p (
              OnSome-if LogKept (is_bytes f 6) _ _
                (λ c.
                  OnSome-bind LogKept (proto_key_value lower (f.payload) (s.own, s.collector)) _
                    (λ kept e. OnSome-some LogKept _ (
                      OnSome-eq Keeps (proto_key_value-IsKept (f.payload) (s.own, s.collector) p)
                        e)))
                (λ c.
                  OnSome-if LogKept (is_bytes f 5) _ _
                    (λ c.
                      OnSome-bind LogKept (proto_scalar (f.payload)) _
                        (λ value e. OnSome-some LogKept _ p))
                    (λ c. OnSome-some LogKept s p)))))))

  pub proto_log-IsKept :
      (message : Bytes) (shared : Attributes) (c : Collector)
      → IsKept shared
      → OnSome RecordKept (proto_log lower message shared c)
  unfolding proto_log
  proto_log-IsKept message shared c kept =
      OnSome-bind RecordKept (walk (log_field lower) message _) _ (λ s e. OnSome-some RecordKept _ (
        merged-IsKept shared (s.own) kept (
          OnSome-eq LogKept (walk-OnSome (log_field lower) LogKept log_field-IsKept message _ tt)
            e)))
