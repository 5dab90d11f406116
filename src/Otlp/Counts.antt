-- ===== src/Otlp/Counts.antt =====
-- How a record's token counts are read and put into disjoint classes: the second half of
-- internal/otlp/dialect.go, and `Usage` of otlp.go. A count is a natural number: `parse_count` refuses any
-- other, and any above 10 ^ 12, so that no sum here leaves an int64.
use costroid.Prelude.{
  ℕ, ◌+◌, ◌-◌, ltb, leb, ◌==◌, Bool, true, false, ◌&&◌, not, if◌then◌else◌, List, [], ◌∷◌, ◌++◌,
  Option, none, some, ◌>>=◌, Bytes, bytes_eq, all, codes,
}
use costroid.Prelude.Int.{ℤ, pos, negsuc}
use costroid.Decimal.Text.{cut, atoi}
use costroid.Focus.{
  TokenClass, CostBasis, list_equivalent, measured, input_uncached, cache_read, cache_write_5m,
  cache_write_1h, cache_write_30m, class_name, output, reasoning_output, cached_input_reported,
}
use costroid.Otlp.Fields.{Attributes, value_of, text_of}

pub data Dialect : Type 0 where
  standard claude_code codex copilot cursor open_code : Dialect

pub record Count : Type 0 where
  pub class : TokenClass
  pub tokens : ℕ

-- An instant is its nanoseconds since 1970, and the zero time is `none`.
pub record Usage : Type 0 where
  pub id : Bytes
  pub dialect : Dialect
  pub provider : Bytes
  pub model : Bytes
  pub service_tier : Bytes
  pub context_input_tokens : ℕ
  pub start : Option ℕ
  pub end : Option ℕ
  pub counts : List Count
  pub assumed_write : Option TokenClass
  pub notes : List Bytes
  pub session : Bytes
  pub agent : Bytes
  pub agent_version : Bytes
  pub cost_basis : CostBasis
  pub enforcement_grade : Bytes
  pub repo : Bytes
  pub pull_request : Bytes
  pub commit_sha : Bytes
  pub run_id : Bytes
  pub email : Bytes

abbrev pub provider_anthropic : Bytes
provider_anthropic = codes "anthropic"

abbrev pub provider_openai : Bytes
provider_openai = codes "openai"

abbrev pub max_tokens : ℕ
max_tokens = 1000000000000

-- `counts`
pub record RawCounts : Type 0 where
  pub input : ℕ
  pub output_tokens : ℕ
  pub cache_read_tokens : ℕ
  pub reasoning : ℕ
  pub cache_write : ℕ
  pub write_5m : ℕ
  pub write_1h : ℕ
  pub inclusive : Bool
  pub subscription_ttl : Bool

abbrev pub natural : ℤ → Option ℕ
natural (pos n) = if ltb max_tokens n then none else some n
natural (negsuc n) = none

-- `parseCount`: digits, and a fraction of zeros.
unfoldable pub parse_count : Bytes → Option ℕ
parse_count text =
    let (whole, fraction, found) = cut b'.' text in
    if not (all (λ c. c == b'0') fraction) then none else do value ← atoi whole; natural value

-- `reader.int`, where a text that is no count refuses the record.
unfoldable pub read_int : Attributes → List Bytes → Option ℕ
unfolding parse_count
read_int attrs keys = elim (text_of attrs keys) [ [] ↦ some 0 | c ∷ s ↦ parse_count (c ∷ s) ]

unfoldable pub has_key : Attributes → Bytes → Bool
has_key attrs key = elim (value_of attrs key) [ none ↦ false | some text ↦ true ]

abbrev pub has_none : Attributes → List Bytes → Bool
has_none attrs keys = all (λ key. not (has_key attrs key)) keys

-- What reading a record's counts ends in: nothing to count, figures that cannot be read, or figures.
pub data Reading : Type 0 where
  absent unreadable : Reading
  found : RawCounts → Reading

abbrev pub reading_of : Option RawCounts → Reading
reading_of none = unreadable
reading_of (some c) = found c

unfoldable pub claude_figures : Attributes → Option RawCounts
unfolding read_int
claude_figures attrs = do
  input ← read_int attrs (codes "input_tokens" ∷ [])
  out ← read_int attrs (codes "output_tokens" ∷ [])
  cached ← read_int attrs (codes "cache_read_tokens" ∷ [])
  write ← read_int attrs (codes "cache_creation_tokens" ∷ [])
  write_5m ← read_int attrs (codes "cache_creation_5m_tokens" ∷ [])
  write_1h ← read_int attrs (codes "cache_creation_1h_tokens" ∷ [])
  some (record {
    input = input;
    output_tokens = out;
    cache_read_tokens = cached;
    reasoning = 0;
    cache_write = write;
    write_5m = write_5m;
    write_1h = write_1h;
    inclusive = false;
    subscription_ttl = true;
  })

abbrev pub claude_keys : List Bytes
claude_keys = codes "input_tokens" ∷ codes "output_tokens" ∷ []

unfoldable pub read_claude : Attributes → Reading
unfolding has_key claude_figures
read_claude attrs = if has_none attrs claude_keys then absent else reading_of (claude_figures attrs)

unfoldable pub cursor_figures : Attributes → Option RawCounts
unfolding read_int
cursor_figures attrs = do
  input ← read_int attrs (codes "cursor.api.request.input_tokens" ∷ [])
  out ← read_int attrs (codes "cursor.api.request.output_tokens" ∷ [])
  cached ← read_int attrs (codes "cursor.api.request.cache_read_tokens" ∷ [])
  write ← read_int attrs (codes "cursor.api.request.cache_creation_tokens" ∷ [])
  some (record {
    input = input;
    output_tokens = out;
    cache_read_tokens = cached;
    reasoning = 0;
    cache_write = write;
    write_5m = 0;
    write_1h = 0;
    inclusive = false;
    subscription_ttl = false;
  })

abbrev pub cursor_keys : List Bytes
cursor_keys =
    codes "cursor.api.request.input_tokens" ∷ codes "cursor.api.request.output_tokens" ∷ []

unfoldable pub read_cursor : Attributes → Reading
unfolding has_key cursor_figures
read_cursor attrs = if has_none attrs cursor_keys then absent else reading_of (cursor_figures attrs)

unfoldable pub standard_figures : Attributes → Option RawCounts
unfolding read_int
standard_figures attrs = do
  input ←
      read_int attrs (codes "gen_ai.usage.input_tokens" ∷ codes "gen_ai.usage.prompt_tokens" ∷ [])
  out ←
      read_int attrs
        (codes "gen_ai.usage.output_tokens" ∷ codes "gen_ai.usage.completion_tokens" ∷ [])
  cached ← read_int attrs (codes "gen_ai.usage.cache_read.input_tokens" ∷ [])
  write ← read_int attrs (
      codes "gen_ai.usage.cache_write.input_tokens"
      ∷ codes "gen_ai.usage.cache_creation.input_tokens"
      ∷ [])
  reasoning ← read_int attrs (
      codes "gen_ai.usage.reasoning.output_tokens"
      ∷ codes "codex.usage.reasoning_output_tokens"
      ∷ [])
  some (record {
    input = input;
    output_tokens = out;
    cache_read_tokens = cached;
    reasoning = reasoning;
    cache_write = write;
    write_5m = 0;
    write_1h = 0;
    inclusive = true;
    subscription_ttl = false;
  })

abbrev pub standard_keys : List Bytes
standard_keys =
    codes "gen_ai.usage.input_tokens"
    ∷ codes "gen_ai.usage.output_tokens"
    ∷ codes "gen_ai.usage.prompt_tokens"
    ∷ codes "gen_ai.usage.completion_tokens"
    ∷ []

unfoldable pub read_standard : Attributes → Reading
unfolding has_key standard_figures
read_standard attrs =
    if has_none attrs standard_keys then absent else reading_of (standard_figures attrs)

-- `Usage.add`
unfoldable pub add_class : TokenClass → ℕ → List Count → List Count
add_class class tokens counts =
    if ltb 0 tokens then counts ++ (record { class = class; tokens = tokens } ∷ []) else counts

abbrev pub same_class : TokenClass → TokenClass → Bool
same_class a b = bytes_eq (class_name a) (class_name b)

-- `Usage.mergeCount`
unfoldable pub merge_count : TokenClass → ℕ → List Count → List Count
unfolding add_class
merge_count class tokens [] = add_class class tokens []
merge_count class tokens (c ∷ counts) =
    if same_class c.class class
    then record c { tokens = c.tokens + tokens } ∷ counts
    else c ∷ merge_count class tokens counts

abbrev is_list_equivalent : CostBasis → Bool
is_list_equivalent measured = false
is_list_equivalent list_equivalent = true

-- The class that takes the writes whose lifetime is not stated.
abbrev pub assumed_class : Usage → RawCounts → TokenClass
assumed_class u c =
    if bytes_eq u.provider provider_openai
    then cache_write_30m
    else if c.subscription_ttl && is_list_equivalent u.cost_basis
    then cache_write_1h
    else cache_write_5m

unfoldable pub add_writes : RawCounts → ℕ → Usage → Usage
unfolding add_class merge_count
add_writes c written u =
    let split =
      add_class cache_write_1h c.write_1h (add_class cache_write_5m c.write_5m u.counts) in
    if leb written (c.write_5m + c.write_1h) then record u { counts = split } else record u {
      counts = merge_count (assumed_class u c) (written - (c.write_5m + c.write_1h)) split;
      notes = u.notes ++ (codes "cache lifetime assumed" ∷ []);
      assumed_write = some (assumed_class u c);
    }

-- What `applyCounts` takes for the writes, and for the input that is in no cache.
abbrev pub written_of : RawCounts → ℕ
written_of c =
    if ltb c.cache_write (c.write_5m + c.write_1h) then c.write_5m + c.write_1h else c.cache_write

abbrev pub uncached_of : RawCounts → ℕ
uncached_of c = if c.inclusive then c.input - (c.cache_read_tokens + written_of c) else c.input

abbrev note_of : Dialect → List Bytes
note_of open_code =
    codes "OpenCode telemetry reports no cache writes, so any are counted as uncached input" ∷ []
note_of dialect = []

-- `applyCounts`: `none` where the figures cannot be one request.
unfoldable pub apply_counts : RawCounts → Usage → Option Usage
unfolding add_class add_writes
apply_counts c u =
    if c.inclusive && ltb c.input (c.cache_read_tokens + written_of c)
    then none
    else if ltb c.output_tokens c.reasoning
    then none
    else let before =
        add_class cache_read c.cache_read_tokens
          (add_class input_uncached (uncached_of c) u.counts) in
      let w = add_writes c (written_of c) (record u {
        context_input_tokens = uncached_of c + c.cache_read_tokens + written_of c;
        counts = before;
      }) in
      let after =
        add_class cached_input_reported c.cache_read_tokens
          (add_class reasoning_output c.reasoning (add_class output c.output_tokens w.counts)) in
      some (record w { counts = after; notes = w.notes ++ note_of u.dialect })
