-- ===== src/Otlp/Within.antt =====
-- The figures that `interpret` of internal/otlp/dialect.go lets through: none is above the bound that
-- `parseCount` sets, and no total leaves an int64.
use costroid.Prelude.{
  ℕ, ◌*◌, ◌≤◌, ltb, Bool, true, false, ◌≡◌, refl, subst, if◌then◌else◌, List, [], ◌∷◌, Option, none,
  some, ◌>>=◌, Bytes, arith,
}
use costroid.Prelude.Int.{ℤ, pos, negsuc}
use costroid.Prelude.Results.{
  OnSome, OnSome-none, OnSome-some, OnSome-if, OnSome-bind, OnSome-eq, OnSome-of, if_both,
}
use costroid.Decimal.Text.{cut, atoi}
use costroid.Otlp.Fields.{Attributes, text_of, Record}
use costroid.Otlp.Counts.{
  Usage, RawCounts, max_tokens, natural, parse_count, read_int, Reading, absent, unreadable, found,
  reading_of, read_claude, read_cursor, read_standard, has_none, claude_keys, cursor_keys,
  standard_keys, claude_figures, cursor_figures, standard_figures, Dialect, standard, claude_code,
  codex, copilot, cursor, open_code, apply_counts,
}
use costroid.Otlp.Dialect.{
  Library, claude_request_event, read_counts, dialect_of, interpret, interpret_found,
  interpret_reading, used, usage_shell,
}
use costroid.Otlp.Classes.{is_input, is_output, tokens_in}
use costroid.Otlp.Conserved.{input_of, IsConserved, apply_counts-IsConserved}

Small : ℕ → Type 0
Small n = n ≤ max_tokens

natural-Small : (z : ℤ) → OnSome Small (natural z)
unfolding Small
natural-Small (pos n) =
    OnSome-if Small (ltb max_tokens n) none (some n) (λ c. OnSome-none Small)
      (λ c. OnSome-some Small n (ground arith))
natural-Small (negsuc n) = OnSome-none Small

parse_count-Small : (text : Bytes) → OnSome Small (parse_count text)
unfolding parse_count Small
parse_count-Small text =
    OnSome-if Small _ _ _ (λ c. OnSome-none Small)
      (λ c. OnSome-bind Small (atoi ((cut b'.' text).0)) _ (λ z e. natural-Small z))

count_of_text :
    (text : Bytes) → OnSome Small (elim text [ [] ↦ some 0 | c ∷ s ↦ parse_count (c ∷ s) ])
count_of_text [] = OnSome-some Small 0 (unfold Small in omega arith)
count_of_text (c ∷ s) = parse_count-Small (c ∷ s)

read_int-Small : (attrs : Attributes) (keys : List Bytes) → OnSome Small (read_int attrs keys)
unfolding read_int
read_int-Small attrs keys = count_of_text (text_of attrs keys)

-- Figures as they are read.
abbrev RawSmall : RawCounts → Type 0
RawSmall c =
    (c.input ≤ max_tokens)
    × (c.output_tokens ≤ max_tokens)
    × (c.cache_read_tokens ≤ max_tokens)
    × (c.cache_write ≤ max_tokens)
    × (c.write_5m ≤ max_tokens)
    × (c.write_1h ≤ max_tokens)

zero_small : 0 ≤ max_tokens
zero_small = omega arith

FoundSmall : Reading → Type 0
FoundSmall absent = Unit
FoundSmall unreadable = Unit
FoundSmall (found c) = RawSmall c

-- One figure after the other.
and_then :
    {A : Type 0} (P : A → Type 0) (attrs : Attributes) (keys : List Bytes) (f : ℕ → Option A)
    → ((n : ℕ) → n ≤ max_tokens → OnSome P (f n))
    → OnSome P (read_int attrs keys >>= f)
unfolding Small
and_then P attrs keys f each =
    OnSome-bind P (read_int attrs keys) f
      (λ n e. each n (OnSome-eq Small (read_int-Small attrs keys) e))

reading_of-Small : (o : Option RawCounts) → OnSome RawSmall o → FoundSmall (reading_of o)
unfolding FoundSmall OnSome
reading_of-Small none p = tt
reading_of-Small (some c) p = p

read_if :
    (c : Bool) (o : Option RawCounts)
    → OnSome RawSmall o
    → FoundSmall (if c then absent else reading_of o)
read_if true o p = unfold FoundSmall in tt
read_if false o p = reading_of-Small o p

claude_figures-Small : (attrs : Attributes) → OnSome RawSmall (claude_figures attrs)
unfolding claude_figures
claude_figures-Small attrs = and_then RawSmall attrs _ _ (λ input input_small.
    and_then RawSmall attrs _ _ (λ out out_small.
      and_then RawSmall attrs _ _ (λ cached cached_small.
        and_then RawSmall attrs _ _ (λ write write_small.
          and_then RawSmall attrs _ _ (λ short short_small.
            and_then RawSmall attrs _ _ (λ long long_small.
              OnSome-some RawSmall _
                (input_small, out_small, cached_small, write_small, short_small, long_small)))))))

read_claude-Small : (attrs : Attributes) → FoundSmall (read_claude attrs)
unfolding read_claude
read_claude-Small attrs =
    read_if (has_none attrs claude_keys) (claude_figures attrs) (claude_figures-Small attrs)

cursor_figures-Small : (attrs : Attributes) → OnSome RawSmall (cursor_figures attrs)
unfolding cursor_figures
cursor_figures-Small attrs = and_then RawSmall attrs _ _ (λ input input_small.
    and_then RawSmall attrs _ _ (λ out out_small.
      and_then RawSmall attrs _ _ (λ cached cached_small.
        and_then RawSmall attrs _ _ (λ write write_small.
          OnSome-some RawSmall _
            (input_small, out_small, cached_small, write_small, zero_small, zero_small)))))

read_cursor-Small : (attrs : Attributes) → FoundSmall (read_cursor attrs)
unfolding read_cursor
read_cursor-Small attrs =
    read_if (has_none attrs cursor_keys) (cursor_figures attrs) (cursor_figures-Small attrs)

standard_figures-Small : (attrs : Attributes) → OnSome RawSmall (standard_figures attrs)
unfolding standard_figures
standard_figures-Small attrs = and_then RawSmall attrs _ _ (λ input input_small.
    and_then RawSmall attrs _ _ (λ out out_small.
      and_then RawSmall attrs _ _ (λ cached cached_small.
        and_then RawSmall attrs _ _ (λ write write_small.
          and_then RawSmall attrs _ _ (λ reasoning reasoning_small.
            OnSome-some RawSmall _
              (input_small, out_small, cached_small, write_small, zero_small, zero_small))))))

read_standard-Small : (attrs : Attributes) → FoundSmall (read_standard attrs)
unfolding read_standard
read_standard-Small attrs =
    read_if (has_none attrs standard_keys) (standard_figures attrs) (standard_figures-Small attrs)

read_counts-Small : (d : Dialect) (r : Record) → FoundSmall (read_counts d r)
unfolding read_counts
read_counts-Small claude_code r =
    if_both FoundSmall (claude_request_event r) (read_claude (r.attrs)) absent
      (λ c. read_claude-Small (r.attrs)) (λ c. unfold FoundSmall in tt)
read_counts-Small cursor r = read_cursor-Small (r.attrs)
read_counts-Small codex r =
    if_both FoundSmall (r.log) absent (read_standard (r.attrs)) (λ c. unfold FoundSmall in tt)
      (λ c. read_standard-Small (r.attrs))
read_counts-Small copilot r = read_standard-Small (r.attrs)
read_counts-Small open_code r = read_standard-Small (r.attrs)
read_counts-Small standard r = read_standard-Small (r.attrs)

whole_input-le : (c : RawCounts) → RawSmall c → input_of c ≤ 4 * max_tokens
whole_input-le c small = ground arith

-- What the edge states of a request.
unfoldable pub IsCounted : Usage → Type 0
unfolding tokens_in
IsCounted u =
    (tokens_in is_input u.counts ≡ u.context_input_tokens)
    × (u.context_input_tokens ≤ 4 * max_tokens)
    × (tokens_in is_output u.counts ≤ max_tokens)

interpret_found-IsCounted :
    (shell : Usage) (o : Option Usage) {u : Usage}
    → OnSome IsCounted o
    → interpret_found shell o ≡ used u
    → IsCounted u
interpret_found-IsCounted shell none {u} p e = absurd (unfold interpret_found in ground arith)
interpret_found-IsCounted shell (some v) {u} p e =
    let same : v ≡ u = unfold interpret_found in ground arith in
    subst IsCounted same (OnSome-eq IsCounted p refl)

apply_counts-IsCounted :
    (c : RawCounts) (shell : Usage)
    → shell.counts ≡ []
    → RawSmall c
    → OnSome IsCounted (apply_counts c shell)
unfolding IsConserved IsCounted
apply_counts-IsCounted c shell fresh small = OnSome-of IsCounted (apply_counts c shell) (λ v e.
    let (input, whole, out) = apply_counts-IsConserved c shell fresh e in
    let bound = whole_input-le c small in
    let (in_small, out_small, cached_small, write_small, short_small, long_small) = small in
    (input, omega (arith, whole, bound), omega (arith, out, out_small)))

interpret_reading-IsCounted :
    (shell : Usage) (reading : Reading) {u : Usage}
    → shell.counts ≡ []
    → FoundSmall reading
    → interpret_reading shell reading ≡ used u
    → IsCounted u
unfolding FoundSmall
interpret_reading-IsCounted shell absent fresh small e =
    absurd (unfold interpret_reading in ground arith)
interpret_reading-IsCounted shell unreadable fresh small e =
    absurd (unfold interpret_reading in ground arith)
interpret_reading-IsCounted shell (found c) fresh small e =
    interpret_found-IsCounted shell (apply_counts c shell)
      (apply_counts-IsCounted c shell fresh small) (unfold interpret_reading in e)

-- A request that `interpret` lets through states as its context the tokens of its input classes
-- together, at most 4 times MaxTokens, and at most MaxTokens of output.
pub interpret-IsCounted :
    (lib : Library) (r : Record) {u : Usage} → interpret lib r ≡ used u → IsCounted u
interpret-IsCounted lib r e =
    interpret_reading-IsCounted (usage_shell lib (dialect_of lib r) r)
      (read_counts (dialect_of lib r) r) (unfold usage_shell in refl)
      (read_counts-Small (dialect_of lib r) r) (unfold interpret in e)
