-- ===== src/Otlp/Batch.antt =====
-- One request body of telemetry: `Parse` and `keepStatedSplits` of internal/otlp/otlp.go, for a body in
-- protobuf. The decoding of JSON, a library's, stands outside.
use costroid.Prelude.{
  ℕ, ◌+◌, ◌==◌, Bool, true, false, ◌&&◌, not, if◌then◌else◌, List, [], ◌∷◌, ◌++◌, Option, none,
  some, ◌>>=◌, Bytes, bytes_eq, any, all, codes, map, has_prefix,
}
use costroid.Focus.{TokenClass, class_name}
use costroid.Otlp.Fields.{Record, Collector, count_drop, text_of, key_email, drop_email}
use costroid.Otlp.Messages.{Signal, decode_protobuf}
use costroid.Otlp.Counts.{Count, Usage}
use costroid.Otlp.Dialect.{Library, ignored, rejected, used, interpret}

-- `withoutWrites` names a class by its text, and every write's lifetime by one.
abbrev pub any_write : Bytes
any_write = codes "cache_write"

abbrev pub joined_class : TokenClass → Bytes
joined_class class =
    if has_prefix (class_name class) (codes "cache_write_") then any_write else class_name class

unfoldable pub total_of : Bytes → List Count → ℕ
total_of key [] = 0
total_of key (c ∷ counts) =
    let others = total_of key counts in
    if bytes_eq (joined_class c.class) key then c.tokens + others else others

abbrev pub keys_of : List Count → List Bytes
keys_of counts = map (λ c. joined_class c.class) counts

-- `maps.Equal(withoutWrites(a), withoutWrites(b))`: one has the keys of the other, and the totals agree.
unfoldable pub same_totals : List Count → List Count → Bool
unfolding total_of
same_totals a b =
    all (λ key. any (λ k. bytes_eq k key) (keys_of b) && total_of key a == total_of key b)
      (keys_of a)
    && all (λ key. any (λ k. bytes_eq k key) (keys_of a)) (keys_of b)

unfoldable pub same_but_lifetime : Usage → Usage → Bool
unfolding same_totals
same_but_lifetime a b =
    bytes_eq a.id b.id
    && bytes_eq a.provider b.provider
    && bytes_eq a.model b.model
    && same_totals a.counts b.counts

abbrev pub is_stated : Usage → Bool
is_stated u = elim (u.assumed_write) [ none ↦ true | some class ↦ false ]

-- Whether `keepStatedSplits` leaves a usage out.
unfoldable pub is_restated : List Usage → Usage → Bool
unfolding same_but_lifetime
is_restated usages u =
    not (is_stated u) && any (λ other. is_stated other && same_but_lifetime u other) usages

unfoldable pub kept_of : List Usage → List Usage → List Usage
unfolding is_restated
kept_of usages [] = []
kept_of usages (u ∷ rest) =
    if is_restated usages u then kept_of usages rest else u ∷ kept_of usages rest

unfoldable pub keep_stated_splits : List Usage → List Usage
unfolding kept_of
keep_stated_splits usages = kept_of usages usages

pub record Batch : Type 0 where
  pub usage : List Usage
  pub refused : ℕ
  pub drops : List (Bytes × ℕ)

-- The loop of `Parse` over the records.
unfoldable pub interpret_all :
    Library → List Record → List Usage × Collector → List Usage × Collector
unfolding interpret
interpret_all lib [] state = state
interpret_all lib (r ∷ records) (usages, c) =
    let counted =
      if bytes_eq (text_of r.attrs (key_email ∷ [])) [] then c else count_drop drop_email c in
    elim (interpret lib r) [
      | ignored ↦ interpret_all lib records (usages, counted)
      | rejected ↦
          interpret_all lib records (usages, record counted { rejected = counted.rejected + 1 })
      | used u ↦ interpret_all lib records (usages ++ (u ∷ []), counted)
    ]

unfoldable pub batch_of : Library → List Record × Collector → Batch
unfolding interpret_all keep_stated_splits
batch_of lib (records, c) =
    let read = interpret_all lib records ([], c) in
    record { usage = keep_stated_splits read.0; refused = read.1.rejected; drops = read.1.drops }

unfoldable pub parse_body : Library → Bytes → Signal → Option Batch
unfolding batch_of
parse_body lib body signal = do
  decoded ← decode_protobuf lib.lower body signal (record { drops = []; rejected = 0 })
  some (batch_of lib decoded)
