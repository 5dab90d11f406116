-- ===== src/Examples/Telemetry.antt =====
-- Concrete bodies for internal/otlp.
use mathlib.Core.List.{Memᴰ}
use costroid.Prelude.{
  ◌↔◌, ◌⊎◌, ◌<◌, true, false, ◌≡◌, refl, List, [], ◌∷◌, Option, none, some, Bytes, length, All, any,
  codes, arith,
}
use costroid.Decimal.Text.{cut, atoi}
use costroid.Focus.{cache_write_5m}
use costroid.Otlp.Wire.{Field, uvarint, uvarint_loop, read_field, next_field, walk}
use costroid.Otlp.Varint.{put_uvarint}
use costroid.Otlp.RoundTrip.{
  Item, varint, bytes, encode_items, each_item, IsSendable, walk-encode_items,
}
use costroid.Otlp.Bounds.{Walks, walk-Walks, next_field-shorter}
use costroid.Otlp.Fields.{Record, Collector, text_of, merged, keep, count_drop, drop_label}
use costroid.Otlp.Protobuf.{scalar_field, proto_scalar, proto_span, proto_key_value_parts}
use costroid.Otlp.Messages.{traces, decode_protobuf}
use costroid.Otlp.Kept.{IsListed}
use costroid.Otlp.Listed.{decode_protobuf-IsListed}
use costroid.Otlp.Counts.{RawCounts, Usage, apply_counts}
use costroid.Otlp.Conserved.{IsConserved, apply_counts-IsConserved}
use costroid.Otlp.Dialect.{Library, Interpreted, used, interpret, usage_shell, dialect_of}
use costroid.Otlp.Within.{IsCounted, interpret-IsCounted}
use costroid.Otlp.Batch.{is_stated, keep_stated_splits}
use costroid.Otlp.Once.{states, keep_stated_splits-twice}

-- An AnyValue with the number 300, which takes a varint of two bytes.
abbrev items : List Item
items = varint 3 300 ∷ []

sendable : All IsSendable items
sendable = ((omega arith, omega arith), tt)

walk-encode_items_example :
    walk scalar_field (encode_items items) ([], false) ≡ each_item scalar_field items ([], false)
walk-encode_items_example = walk-encode_items scalar_field items ([], false) sendable

walk-Walks_example :
    Walks scalar_field
      (encode_items items)
      ([], false)
      (walk scalar_field (encode_items items) ([], false))
walk-Walks_example = walk-Walks scalar_field (encode_items items) ([], false)

abbrev name_field : Field
name_field = record { number = 5; wire = 2; bits = 0; payload = codes "ask" }

abbrev tail : Bytes
tail = 1 ∷ []

abbrev message : Bytes
message = 42 ∷ 3 ∷ b'a' ∷ b's' ∷ b'k' ∷ tail

name_read : next_field message ≡ some (name_field, tail)
unfolding next_field uvarint uvarint_loop read_field
name_read = refl

next_field-shorter_example :
    (length tail < length message) × (length (codes "ask") < length message)
next_field-shorter_example = next_field-shorter message {f = name_field} {rest = tail} name_read

-- A span with a listed attribute and a prompt.
abbrev attribute : Bytes → Bytes → Item
attribute key text =
    bytes 9 (encode_items (bytes 1 key ∷ bytes 2 (encode_items (bytes 1 text ∷ [])) ∷ []))

abbrev span : Bytes
span =
    encode_items
      (attribute (codes "model") (codes "m") ∷ attribute (codes "prompt") (codes "p") ∷ [])

abbrev body : Bytes
body = encode_items (bytes 1 (encode_items (bytes 2 (encode_items (bytes 2 span ∷ [])) ∷ [])) ∷ [])

abbrev empty : Collector
empty = record { drops = []; rejected = 0 }

abbrev read_record : Record
read_record = record {
  attrs = (codes "model", codes "m") ∷ [];
  name = [];
  start = 0;
  end = 0;
  trace_id = [];
  span_id = [];
  log = false;
}

abbrev after : Collector
after = record { drops = (codes "prompt", 1) ∷ []; rejected = 0 }

body_decodes : decode_protobuf (λ s. s) body traces empty ≡ some (read_record ∷ [], after)
unfolding decode_protobuf encode_items put_uvarint next_field uvarint uvarint_loop read_field
    proto_span proto_key_value_parts proto_scalar merged keep count_drop drop_label
body_decodes = refl

decode_protobuf-IsListed_example : All (λ r. All IsListed (r.attrs)) (read_record ∷ [])
decode_protobuf-IsListed_example = decode_protobuf-IsListed (λ s. s) body traces empty body_decodes

-- 100 tokens of input, 30 of them read from a cache and 5 written to one.
abbrev figures : RawCounts
figures = record {
  input = 100;
  output_tokens = 7;
  cache_read_tokens = 30;
  reasoning = 2;
  cache_write = 5;
  write_5m = 0;
  write_1h = 0;
  inclusive = true;
  subscription_ttl = false;
}

abbrev plain_library : Library
plain_library = record { lower = λ s. s; sha256 = λ s. s }

abbrev asked : Record
asked = record {
  attrs =
      (codes "model", codes "claude-x")
      ∷ (codes "gen_ai.usage.input_tokens", codes "100")
      ∷ (codes "gen_ai.usage.output_tokens", codes "7")
      ∷ [];
  name = [];
  start = 0;
  end = 0;
  trace_id = codes "t";
  span_id = codes "s";
  log = false;
}

abbrev shell : Usage
shell = usage_shell plain_library (dialect_of plain_library asked) asked

abbrev or_shell : Option Usage → Usage
or_shell none = shell
or_shell (some u) = u

figures_fit : apply_counts figures shell ≡ some (or_shell (apply_counts figures shell))
unfolding apply_counts
figures_fit = refl

no_counts_yet : shell.counts ≡ []
unfolding usage_shell
no_counts_yet = refl

apply_counts-IsConserved_example : IsConserved figures (or_shell (apply_counts figures shell))
apply_counts-IsConserved_example = apply_counts-IsConserved figures shell no_counts_yet figures_fit

abbrev used_or_shell : Interpreted → Usage
used_or_shell (used u) = u
used_or_shell answer = shell

asked_used : interpret plain_library asked ≡ used (used_or_shell (interpret plain_library asked))
unfolding interpret text_of cut atoi
asked_used = refl

interpret-IsCounted_example : IsCounted (used_or_shell (interpret plain_library asked))
interpret-IsCounted_example = interpret-IsCounted plain_library asked asked_used

-- One request, whose writes one record assumes and another states.
abbrev assumed : Usage
assumed = record shell { assumed_write = some cache_write_5m }

keep_stated_splits-twice_example :
    (keep_stated_splits (keep_stated_splits (assumed ∷ shell ∷ []))
      ≡ keep_stated_splits (assumed ∷ shell ∷ []))
    × ((u : Usage)
        → Memᴰ u (keep_stated_splits (assumed ∷ shell ∷ [])) ↔ (
            Memᴰ u (assumed ∷ shell ∷ [])
            × ((is_stated u ≡ true)
                ⊎ (any (states u) (keep_stated_splits (assumed ∷ shell ∷ [])) ≡ false))))
keep_stated_splits-twice_example = keep_stated_splits-twice (assumed ∷ shell ∷ [])
