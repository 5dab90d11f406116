-- ===== src/Otlp/Classes.antt =====
-- The tokens that a usage's counts hold in some of the classes, and what `add` and `mergeCount` of
-- internal/otlp/dialect.go do to them.
use costroid.Prelude.{
  ℕ, ◌+◌, Bool, true, false, ◌≡◌, refl, sym, ap, ◌∙◌, if◌then◌else◌, List, [], ◌∷◌, ◌++◌, Bytes,
  bytes_eq, bytes_eq-eq, codes, arith,
}
use costroid.Prelude.Results.{if_both}
use costroid.Focus.{
  TokenClass, class_name, input_uncached, cache_read, cache_write_5m, cache_write_1h,
  cache_write_30m, cache_write_12h, output, reasoning_output, cached_input_reported,
}
use costroid.Otlp.Counts.{Count, add_class, same_class, merge_count}

-- The classes that make up a request's input, and its output.
abbrev pub is_input : TokenClass → Bool
is_input input_uncached = true
is_input cache_read = true
is_input cache_write_5m = true
is_input cache_write_1h = true
is_input cache_write_30m = true
is_input cache_write_12h = true
is_input output = false
is_input reasoning_output = false
is_input cached_input_reported = false

abbrev pub is_output : TokenClass → Bool
is_output output = true
is_output class = false

-- The tokens that the counts hold in the classes asked for.
unfoldable pub tokens_in : (TokenClass → Bool) → List Count → ℕ
tokens_in p [] = 0
tokens_in p (c ∷ counts) =
    let others = tokens_in p counts in if p c.class then c.tokens + others else others

class_named : Bytes → TokenClass
class_named name =
    if bytes_eq name (codes "input_uncached")
    then input_uncached
    else if bytes_eq name (codes "cache_read")
    then cache_read
    else if bytes_eq name (codes "cache_write_5m")
    then cache_write_5m
    else if bytes_eq name (codes "cache_write_1h")
    then cache_write_1h
    else if bytes_eq name (codes "cache_write_30m")
    then cache_write_30m
    else if bytes_eq name (codes "cache_write_12h")
    then cache_write_12h
    else if bytes_eq name (codes "output")
    then output
    else if bytes_eq name (codes "reasoning_output")
    then reasoning_output
    else cached_input_reported

class_named-class_name : (class : TokenClass) → class_named (class_name class) ≡ class
unfolding class_named
class_named-class_name input_uncached = refl
class_named-class_name cache_read = refl
class_named-class_name cache_write_5m = refl
class_named-class_name cache_write_1h = refl
class_named-class_name cache_write_30m = refl
class_named-class_name cache_write_12h = refl
class_named-class_name output = refl
class_named-class_name reasoning_output = refl
class_named-class_name cached_input_reported = refl

same_class-eq : (a b : TokenClass) → same_class a b ≡ true → a ≡ b
same_class-eq a b same =
    sym (class_named-class_name a)
    ∙ ap class_named (bytes_eq-eq (class_name a) (class_name b) same)
    ∙ class_named-class_name b

abbrev pub counted : (TokenClass → Bool) → TokenClass → ℕ → ℕ
counted p class n = if p class then n else 0

tokens_in-append :
    (p : TokenClass → Bool) (class : TokenClass) (n : ℕ) (counts : List Count)
    → tokens_in p (counts ++ (record { class = class; tokens = n } ∷ []))
      ≡ tokens_in p counts + counted p class n
unfolding tokens_in
tokens_in-append p class n [] = ground arith
tokens_in-append p class n (c ∷ counts) = ground (arith, tokens_in-append p class n counts)

pub tokens_in-add_class :
    (p : TokenClass → Bool) (class : TokenClass) (n : ℕ) (counts : List Count)
    → tokens_in p (add_class class n counts) ≡ tokens_in p counts + counted p class n
unfolding add_class
tokens_in-add_class p class n counts = ground (arith, tokens_in-append p class n counts)

merge_if :
    (p : TokenClass → Bool) (class : TokenClass) (n : ℕ) (c : Count) (counts rest : List Count)
    → (same_class c.class class ≡ true → p c.class ≡ p class)
    → tokens_in p rest ≡ tokens_in p counts + counted p class n
    → tokens_in p
        (if same_class c.class class then record c { tokens = c.tokens + n } ∷ counts else c ∷ rest)
      ≡ tokens_in p (c ∷ counts) + counted p class n
unfolding tokens_in
merge_if p class n c counts rest alike e =
    if_both (λ l. tokens_in p l ≡ tokens_in p (c ∷ counts) + counted p class n)
      (same_class c.class class) _ (c ∷ rest) (λ same. rw (alike same) (ground arith))
      (λ other. ground arith)

pub tokens_in-merge_count :
    (p : TokenClass → Bool) (class : TokenClass) (n : ℕ) (counts : List Count)
    → tokens_in p (merge_count class n counts) ≡ tokens_in p counts + counted p class n
unfolding merge_count
tokens_in-merge_count p class n [] = tokens_in-add_class p class n []
tokens_in-merge_count p class n (c ∷ counts) =
    merge_if p class n c counts (merge_count class n counts)
      (λ same. ap p (same_class-eq c.class class same)) (tokens_in-merge_count p class n counts)
