-- ===== src/Otlp/Conserved.antt =====
-- The classes that `applyCounts` of internal/otlp/dialect.go makes of a request's figures: no token is lost,
-- and none is counted in two classes that are billed.
use costroid.Prelude.{
  ℕ, ◌+◌, ◌-◌, ◌≤◌, ltb, leb, Bool, true, false, ◌&&◌, ◌≡◌, refl, sym, ap, ◌∙◌, if◌then◌else◌, List,
  [], some, arith,
}
use costroid.Prelude.Results.{OnSome, OnSome-none, OnSome-some, OnSome-if, OnSome-eq, if_both}
use costroid.Focus.{
  TokenClass, input_uncached, cache_read, cache_write_5m, cache_write_1h, cache_write_30m, output,
  reasoning_output, cached_input_reported,
}
use costroid.Otlp.Counts.{
  Count, Usage, RawCounts, add_class, merge_count, assumed_class, add_writes, written_of,
  uncached_of, apply_counts,
}
use costroid.Otlp.Classes.{
  is_input, is_output, tokens_in, counted, tokens_in-add_class, tokens_in-merge_count,
}

exact : (written split : ℕ) → split ≤ written → leb written split ≡ true → split ≡ written
exact written split l e = ground arith

abbrev when : Bool → ℕ → ℕ
when c n = if c then n else 0

-- A class of writes counts alike whatever its lifetime.
module _ (p : TokenClass → Bool) (write : Bool) (e5 : p cache_write_5m ≡ write)
    (e1 : p cache_write_1h ≡ write) (e30 : p cache_write_30m ≡ write) where
  split_writes :
      (short long : ℕ) (counts : List Count)
      → tokens_in p (add_class cache_write_1h long (add_class cache_write_5m short counts))
        ≡ tokens_in p counts + when write (short + long)
  split_writes short long counts = ground (
    arith,
    e5,
    e1,
    tokens_in-add_class p cache_write_1h long (add_class cache_write_5m short counts),
    tokens_in-add_class p cache_write_5m short counts,
  )

  some_write :
      (a b : Bool)
      → p (if a then cache_write_30m else if b then cache_write_1h else cache_write_5m) ≡ write
  some_write true b = e30
  some_write false true = e1
  some_write false false = e5

  assumed_class-write : (u : Usage) (c : RawCounts) → p (assumed_class u c) ≡ write
  assumed_class-write u c = some_write _ _

  merged_writes :
      (class : TokenClass) (short long written : ℕ) (counts : List Count)
      → p class ≡ write
      → short + long ≤ written
      → tokens_in p (
          merge_count class
            (written - (short + long))
            (add_class cache_write_1h long (add_class cache_write_5m short counts)))
        ≡ tokens_in p counts + when write written
  merged_writes class short long written counts e l = ground (
    arith,
    e,
    split_writes short long counts,
    tokens_in-merge_count p class (written - (short + long))
        (add_class cache_write_1h long (add_class cache_write_5m short counts)),
  )

  tokens_in-add_writes :
      (c : RawCounts) (written : ℕ) (u : Usage)
      → c.write_5m + c.write_1h ≤ written
      → tokens_in p ((add_writes c written u).counts) ≡ tokens_in p u.counts + when write written
  unfolding add_writes
  tokens_in-add_writes c written u l =
      if_both {A = Usage} (λ v. tokens_in p (v.counts) ≡ tokens_in p u.counts + when write written)
        (leb written (c.write_5m + c.write_1h)) _ _
        (λ e.
          split_writes c.write_5m c.write_1h u.counts
          ∙ ap (λ n. tokens_in p u.counts + when write n)
              (exact written (c.write_5m + c.write_1h) l e))
        (λ e.
          merged_writes (assumed_class u c) c.write_5m c.write_1h written u.counts
            (assumed_class-write u c) l)

abbrev pub input_of : RawCounts → ℕ
input_of c = if c.inclusive then c.input else c.input + c.cache_read_tokens + written_of c

-- What holds of the usage that a request's figures make.
unfoldable pub IsConserved : RawCounts → Usage → Type 0
unfolding tokens_in
IsConserved c u =
    (tokens_in is_input u.counts ≡ u.context_input_tokens)
    × (u.context_input_tokens ≡ input_of c)
    × (tokens_in is_output u.counts ≡ c.output_tokens)

tokens_before :
    (p : TokenClass → Bool) (uncached cached : ℕ) (counts : List Count)
    → tokens_in p (add_class cache_read cached (add_class input_uncached uncached counts))
      ≡ tokens_in p counts + counted p input_uncached uncached + counted p cache_read cached
tokens_before p uncached cached counts = omega (
  arith,
  tokens_in-add_class p cache_read cached (add_class input_uncached uncached counts),
  tokens_in-add_class p input_uncached uncached counts,
)

tokens_after :
    (p : TokenClass → Bool) (out reasoning cached : ℕ) (counts : List Count)
    → tokens_in p (
        add_class cached_input_reported cached
          (add_class reasoning_output reasoning (add_class output out counts)))
      ≡ tokens_in p counts
        + counted p output out
        + counted p reasoning_output reasoning
        + counted p cached_input_reported cached
tokens_after p out reasoning cached counts = omega (
  arith,
  tokens_in-add_class p cached_input_reported cached
      (add_class reasoning_output reasoning (add_class output out counts)),
  tokens_in-add_class p reasoning_output reasoning (add_class output out counts),
  tokens_in-add_class p output out counts,
)

-- The counts of `applyCounts`, from the classes up.
all_classes : RawCounts → ℕ → Usage → List Count
unfolding add_class
all_classes c written u =
    let before =
      add_class cache_read c.cache_read_tokens
        (add_class input_uncached (uncached_of c) u.counts) in
    let w = add_writes c written (record u {
      context_input_tokens = uncached_of c + c.cache_read_tokens + written;
      counts = before;
    }) in
    add_class cached_input_reported c.cache_read_tokens
      (add_class reasoning_output c.reasoning (add_class output c.output_tokens w.counts))

written_of-le : (c : RawCounts) → c.write_5m + c.write_1h ≤ written_of c
written_of-le c = ground arith

tokens_in-all_classes :
    (p : TokenClass → Bool) (write : Bool)
    → p cache_write_5m ≡ write
    → p cache_write_1h ≡ write
    → p cache_write_30m ≡ write
    → (c : RawCounts) (u : Usage)
    → tokens_in p (all_classes c (written_of c) u)
      ≡ tokens_in p u.counts
        + counted p input_uncached (uncached_of c)
        + counted p cache_read c.cache_read_tokens
        + when write (written_of c)
        + counted p output c.output_tokens
        + counted p reasoning_output c.reasoning
        + counted p cached_input_reported c.cache_read_tokens
unfolding all_classes
tokens_in-all_classes p write e5 e1 e30 c u =
    let shell : Usage = record u {
      context_input_tokens = uncached_of c + c.cache_read_tokens + written_of c;
      counts =
          add_class cache_read c.cache_read_tokens
            (add_class input_uncached (uncached_of c) u.counts);
    } in
    tokens_after p c.output_tokens c.reasoning c.cache_read_tokens
      ((add_writes c (written_of c) shell).counts)
    ∙ ap
        (λ n.
          n
          + counted p output c.output_tokens
          + counted p reasoning_output c.reasoning
          + counted p cached_input_reported c.cache_read_tokens)
        (tokens_in-add_writes p write e5 e1 e30 c (written_of c) shell (written_of-le c)
          ∙ ap (λ n. n + when write (written_of c))
              (tokens_before p (uncached_of c) c.cache_read_tokens u.counts))

six : (a b c n : ℕ) → n ≡ 0 → n + a + b + c + 0 + 0 + 0 ≡ a + b + c
six a b c n e = omega arith

one : (n a : ℕ) → n ≡ 0 → n + 0 + 0 + 0 + a + 0 + 0 ≡ a
one n a e = omega arith

whole :
    (inclusive : Bool) (input cached written : ℕ)
    → (inclusive && ltb input (cached + written)) ≡ false
    → (if inclusive then input - (cached + written) else input) + cached + written
      ≡ (if inclusive then input else input + cached + written)
whole true input cached written fits = ground arith
whole false input cached written fits = refl

-- The usage after its writes.
with_writes : RawCounts → Usage → Usage
with_writes c u = add_writes c (written_of c) (record u {
  context_input_tokens = uncached_of c + c.cache_read_tokens + written_of c;
  counts =
      add_class cache_read c.cache_read_tokens (add_class input_uncached (uncached_of c) u.counts);
})

add_writes-context :
    (c : RawCounts) (written : ℕ) (u : Usage)
    → (add_writes c written u).context_input_tokens ≡ u.context_input_tokens
unfolding add_writes
add_writes-context c written u =
    if_both {A = Usage} (λ v. v.context_input_tokens ≡ u.context_input_tokens)
      (leb written (c.write_5m + c.write_1h)) _ _ (λ e. refl) (λ e. refl)

none_yet : (p : TokenClass → Bool) (counts : List Count) → counts ≡ [] → tokens_in p counts ≡ 0
unfolding tokens_in
none_yet p counts fresh = ap (tokens_in p) fresh

input_total :
    (c : RawCounts) (u : Usage)
    → u.counts ≡ []
    → tokens_in is_input (all_classes c (written_of c) u)
      ≡ uncached_of c + c.cache_read_tokens + written_of c
input_total c u fresh =
    tokens_in-all_classes is_input true refl refl refl c u
    ∙ six (uncached_of c) c.cache_read_tokens (written_of c) (tokens_in is_input u.counts)
        (none_yet is_input u.counts fresh)

output_total :
    (c : RawCounts) (u : Usage)
    → u.counts ≡ []
    → tokens_in is_output (all_classes c (written_of c) u) ≡ c.output_tokens
output_total c u fresh =
    tokens_in-all_classes is_output false refl refl refl c u
    ∙ one (tokens_in is_output u.counts) c.output_tokens (none_yet is_output u.counts fresh)

-- The input that the classes share out.
input_whole :
    (c : RawCounts)
    → (c.inclusive && ltb c.input (c.cache_read_tokens + written_of c)) ≡ false
    → uncached_of c + c.cache_read_tokens + written_of c ≡ input_of c
input_whole c fits = whole c.inclusive c.input c.cache_read_tokens (written_of c) fits

context_total :
    (c : RawCounts) (u : Usage)
    → (with_writes c u).context_input_tokens ≡ uncached_of c + c.cache_read_tokens + written_of c
unfolding with_writes
context_total c u = add_writes-context c (written_of c) _

apply_counts-OnSome :
    (c : RawCounts) (u : Usage) → u.counts ≡ [] → OnSome (IsConserved c) (apply_counts c u)
unfolding apply_counts IsConserved all_classes with_writes
apply_counts-OnSome c u fresh =
    OnSome-if (IsConserved c) (c.inclusive && ltb c.input (c.cache_read_tokens + written_of c)) _ _
      (λ e. OnSome-none _)
      (λ fits.
        OnSome-if (IsConserved c) (ltb c.output_tokens c.reasoning) _ _ (λ e. OnSome-none _)
          (λ e. OnSome-some (IsConserved c) _ (
            input_total c u fresh ∙ sym (context_total c u),
            context_total c u ∙ input_whole c fits,
            output_total c u fresh,
          )))

-- Where `applyCounts` accepts a request's figures for a usage with no counts yet, the input
-- classes sum to the context that it states, which is the stated input where that includes the
-- caches and else input, cache reads and writes together, and the output class holds the stated
-- output.
pub apply_counts-IsConserved :
    (c : RawCounts) (u : Usage) {v : Usage}
    → u.counts ≡ []
    → apply_counts c u ≡ some v
    → IsConserved c v
apply_counts-IsConserved c u {v} fresh e =
    OnSome-eq (IsConserved c) (apply_counts-OnSome c u fresh) e
