-- ===== src/Policy/Request.antt =====
-- internal/policy/baseline.go, `modelRows` of usage.go and `packInput` of engine.go: what the pack is
-- handed of a request.
use costroid.Prelude.{
  ℕ, ◌+◌, ltb, Ordering, Bool, true, false, ◌||◌, if◌then◌else◌, List, [], ◌∷◌, Option, none, some,
  Bytes, bytes_compare, map, take,
}
use mathlib.Core.Option
use costroid.Prelude.Int.{pos}
use costroid.Decimal.{Decimal, add, mul, div_pow10, from_int, sign}
use costroid.Decimal.Text.{string}
use costroid.Policy.{
  Trust, Evidence, key_max_increase, key_max_increase_percent, Settings, Usage, CurrencyUsage,
  Baseline, Lifetime, Start,
}
use costroid.Policy.Rows.{usd, allows, total_of, max_named_models}
use costroid.Policy.Config.{Yaml, parse_settings}
use costroid.Policy.Input.{PackUsage, PackBaseline, PackLifetime, PackInput}

pub record ConfigFile : Type 0 where
  pub text : Bytes
  pub found : Bool
  pub from_base : Bool
  pub unread : Bool

unfoldable pub config_settings : Yaml → ConfigFile → Option Settings
config_settings y c = if c.unread then none else parse_settings y c.text

pub record Request : Type 0 where
  pub usage : Usage
  pub trust : Trust
  pub config : ConfigFile
  pub start : Start
  pub at : ℕ
  pub baseline : Option Baseline
  pub lifetime : Option Lifetime
  pub measured_pull_requests : ℕ
  pub evidence : Evidence

abbrev pub min_baseline_runs : ℕ
min_baseline_runs = 10

abbrev pub is_lt : Ordering → Bool
is_lt Ordering.lt = true
is_lt _ = false

-- `baselineInput`
unfoldable pub baseline_input : Option Baseline → Settings → Option PackBaseline
baseline_input none settings = none
baseline_input (some b) settings =
    if ltb b.runs min_baseline_runs || is_lt (sign b.median_usd)
    then none
    else some (record {
      trust = b.trust;
      max_increase =
          Option.map (λ amount. string (add b.median_usd amount))
            (settings.amounts key_max_increase);
      max_increase_percent =
          Option.map
            (λ percent. string (div_pow10 (mul b.median_usd (add (from_int (pos 100)) percent)) 2))
            (settings.amounts key_max_increase_percent);
    })

-- `total`
unfoldable pub lifetime_total : Lifetime → Usage → Decimal
lifetime_total l usage = add l.usd (usd usage).0

-- `lifetimeInput`
unfoldable pub lifetime_input : Option Lifetime → Usage → Option PackLifetime
unfolding lifetime_total
lifetime_input none usage = none
lifetime_input (some l) usage =
    if is_lt (sign l.usd)
    then none
    else some (record {
      trust = l.trust;
      total_usd = string (lifetime_total l usage);
      may_repeat = l.may_repeat;
      other_currency = l.other_currency;
    })

unfoldable pub insert_name : Bytes → List Bytes → List Bytes
insert_name name [] = name ∷ []
insert_name name (n ∷ rest) =
    let later = n ∷ insert_name name rest in
    elim (bytes_compare name n) [
      | Ordering.gt ↦ later
      | Ordering.eq ↦ n ∷ rest
      | Ordering.lt ↦ name ∷ n ∷ rest
    ]

-- The models of one entry that the allowlist refuses: their rows, and their names sorted.
unfoldable pub refused_models : List Bytes → List (Bytes × ℕ) → ℕ × List Bytes → ℕ × List Bytes
unfolding insert_name
refused_models entries [] acc = acc
refused_models entries ((model, rows) ∷ rest) (refused, names) =
    refused_models entries rest
      (if allows entries model then (refused, names) else (refused + rows, insert_name model names))

unfoldable pub refused_of : List Bytes → List CurrencyUsage → ℕ × List Bytes → ℕ × List Bytes
unfolding refused_models
refused_of entries [] acc = acc
refused_of entries (entry ∷ rest) acc =
    refused_of entries rest (refused_models entries entry.models acc)

-- `modelRows`: the rows refused, the rows that cannot be read, and the first refused names.
unfoldable pub model_rows : Usage → Settings → ℕ × ℕ × List Bytes
unfolding refused_of
model_rows usage settings =
    let (refused, names) = refused_of settings.models usage.currencies (0, []) in
    (
      refused,
      total_of (λ entry. entry.unreadable_models) usage.currencies,
      take max_named_models names,
    )

abbrev pub usage_input : CurrencyUsage → PackUsage
usage_input entry = record {
  currency = entry.currency;
  list_cost = string entry.list_cost;
  rows = entry.rows;
  unattributed = entry.unattributed_rows;
  joinable = entry.joinable_rows;
}

abbrev pub is_nil : List Bytes → Bool
is_nil [] = true
is_nil (m ∷ ms) = false

-- `packInput`
unfoldable pub pack_input : Request → Settings → Bool → PackInput
unfolding baseline_input lifetime_input model_rows
pack_input request settings warn_only = record {
  trust = request.trust;
  rows = request.usage.rows;
  usage = map usage_input request.usage.currencies;
  amounts = λ key. Option.map string (settings.amounts key);
  model_rows =
      if is_nil settings.models
      then none
      else (let (refused, unreadable, names) = model_rows request.usage settings in
          some (record { outside = refused; unreadable = unreadable }));
  baseline = baseline_input request.baseline settings;
  lifetime = lifetime_input request.lifetime request.usage;
  warn_only = warn_only;
}
