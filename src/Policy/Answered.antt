-- ===== src/Policy/Answered.antt =====
-- internal/policy/policy.go: an evaluation of amounts that are not negative never stops on an error
-- of the pack, whatever its settings, its baseline and its lifetime are.
use costroid.Prelude.{
  ℕ, codes, bytes_eq, Bool, true, false, ◌≡◌, ltb, ◌||◌, subst, refl, ap, ◌∙◌, inl, inr, Bool-cases,
  Option-cases, List, [], ◌∷◌, Option, none, some, arith, Bytes,
}
use mathlib.Core.Option
use costroid.Prelude.Int.{pos}
use costroid.Decimal.{Decimal, sign, add, mul, from_int, div_pow10}
use costroid.Decimal.Text.{string, digits_of}
use costroid.Decimal.Nonneg.{
  IsNonneg, parse-IsNonneg, add-IsNonneg, mul-IsNonneg, div_pow10-IsNonneg, from_int-IsNonneg,
  zero_value-IsNonneg,
}
use costroid.Policy.{
  Rule, AmountKey, key_max_increase, key_max_increase_percent, CurrencyUsage, Usage, Settings,
  Baseline, Lifetime,
}
use costroid.Policy.Rows.{Line, read_usage, usd, usd_of}
use costroid.Policy.Read.{read_usage-NonnegCosts}
use costroid.Policy.Config.{
  Yaml, Node, Nodes, no_nodes, more_nodes, Target, nil, points_to, parse_amount, read_key,
  read_keys, read_policy, parse_settings, set_amount, no_settings, amount_key, same_key,
  parse_models, content_of, tag_of, value_of, section,
}
use costroid.Policy.Input.{PackBaseline, PackLifetime}
use costroid.Policy.Request.{
  Request, ConfigFile, config_settings, min_baseline_runs, baseline_input, lifetime_input,
  lifetime_total, is_lt, pack_input,
}
use costroid.Policy.Results.{run_rule_key, run_cost_rules, without, withhold, without_run_rules}
use costroid.Policy.Consistent.{scoped}
use costroid.Policy.Verdict.{Verdict, base_verdict, evaluate_settings, evaluate_scoped, evaluate}
use costroid.Policy.Total.{
  NonnegCosts, Written, IsWritten, over-costs_over, costs_over, evaluate_pack-some,
}

abbrev pub NonnegAmounts : Settings → Type 0
NonnegAmounts s = (key : AmountKey) (d : Decimal) → s.amounts key ≡ some d → IsNonneg d

-- The texts of amounts that are reckoned from what may be there.
map-Written :
    (amount : Decimal → Decimal) (o : Option Decimal)
    → ((d : Decimal) → o ≡ some d → IsNonneg (amount d))
    → Written (Option.map (λ d. string (amount d)) o)
map-Written amount none h = inl refl
map-Written amount (some d) h = inr (amount d, h d refl, refl)

not_lt : (d : Decimal) → is_lt (sign d) ≡ false → IsNonneg d
not_lt d h = ground arith

usd-IsNonneg :
    (cs : List CurrencyUsage) (n : ℕ)
    → NonnegCosts cs
    → IsNonneg (usd (record { rows = n; currencies = cs })).0
unfolding usd usd_of
usd-IsNonneg [] n h = zero_value-IsNonneg
usd-IsNonneg (c ∷ cs) n (p, h) = ground (arith, usd-IsNonneg cs n h)

baseline-Written :
    (baseline : Option Baseline) (s : Settings) (b : PackBaseline)
    → NonnegAmounts s
    → baseline_input baseline s ≡ some b
    → Written b.max_increase × Written b.max_increase_percent
unfolding baseline_input
baseline-Written none s b h e = absurd (ground arith)
baseline-Written (some l) s b h e =
    elim (Bool-cases (ltb l.runs min_baseline_runs || is_lt (sign l.median_usd))) [
      | inl refused ↦ absurd (ground arith)
      | inr given ↦
          let positive = not_lt l.median_usd (ground arith) in
          let hundred = from_int-IsNonneg 100 in
          let by_amount =
            map-Written (λ d. add l.median_usd d) (s.amounts key_max_increase)
              (λ d q. add-IsNonneg l.median_usd d positive (h key_max_increase d q)) in
          let by_percent =
            map-Written (λ d. div_pow10 (mul l.median_usd (add (from_int (pos 100)) d)) 2)
              (s.amounts key_max_increase_percent)
              (λ d q. div_pow10-IsNonneg _ 2 (
                mul-IsNonneg l.median_usd _ positive
                  (add-IsNonneg _ d hundred (h key_max_increase_percent d q)))) in
          (subst Written (ground arith) by_amount, subst Written (ground arith) by_percent)
    ]

lifetime-Written :
    (lifetime : Option Lifetime) (usage : Usage) (l : PackLifetime)
    → NonnegCosts usage.currencies
    → lifetime_input lifetime usage ≡ some l
    → (d : Decimal) × IsNonneg d × (l.total_usd ≡ string d)
unfolding lifetime_input
lifetime-Written none usage l h e = absurd (ground arith)
lifetime-Written (some f) usage l h e = elim (Bool-cases (is_lt (sign f.usd))) [
  | inl negative ↦ absurd (ground arith)
  | inr positive ↦ (
    lifetime_total f usage,
    add-IsNonneg f.usd (usd usage).0 (not_lt f.usd positive)
        (usd-IsNonneg usage.currencies usage.rows h),
    ground arith,
  )
]

pack_input-IsWritten :
    (request : Request) (s : Settings) (warn_only : Bool)
    → NonnegCosts request.usage.currencies
    → NonnegAmounts s
    → IsWritten (pack_input request s warn_only)
unfolding pack_input
pack_input-IsWritten request s warn_only h k = record {
  costs = λ limit p. (
    costs_over limit request.usage.currencies,
    over-costs_over request.usage.currencies limit h p,
  );
  amounts = λ key. map-Written (λ d. d) (s.amounts key) (k key);
  increases = λ b e. baseline-Written request.baseline s b k e;
  lifetimes = λ l e. lifetime-Written request.lifetime request.usage l h e;
}

without-NonnegAmounts :
    (key : AmountKey) (s : Settings) → NonnegAmounts s → NonnegAmounts (without key s)
without-NonnegAmounts key s h k d e = elim (Bool-cases (same_key key k)) [
  | inl same ↦ absurd (ground arith)
  | inr other ↦ h k d (ground arith)
]

withhold-NonnegAmounts :
    (rules : List Rule) (s : Settings) → NonnegAmounts s → NonnegAmounts (withhold rules s).0
unfolding withhold
withhold-NonnegAmounts [] s h = h
withhold-NonnegAmounts (rule ∷ rules) s h = elim (Option-cases (run_rule_key rule)) [
  | inl e ↦ rw (e, withhold) (withhold-NonnegAmounts rules s h)
  | inr (key, e) ↦ elim (Option-cases (s.amounts key)) [
    | inl a ↦ rw (e, withhold, a) (withhold-NonnegAmounts rules s h)
    | inr (limit, a) ↦
        rw (e, withhold, a)
          (withhold-NonnegAmounts rules (without key s) (without-NonnegAmounts key s h))
  ]
]

scoped-NonnegAmounts :
    (s : Settings) (ledger : Bool) → NonnegAmounts s → NonnegAmounts (scoped s ledger).0
unfolding without_run_rules
scoped-NonnegAmounts s false h = h
scoped-NonnegAmounts s true h = withhold-NonnegAmounts run_cost_rules s h

pub evaluate_settings-some :
    (request : Request) (s : Settings) (ledger : Bool)
    → NonnegCosts request.usage.currencies
    → NonnegAmounts s
    → (v : Verdict) × (evaluate_settings request s ledger ≡ some v)
unfolding evaluate_settings
evaluate_settings-some request s ledger h k =
    let active = (base_verdict request (some s) ledger).warn_only.active in
    let (answer, e) = evaluate_pack-some (pack_input request (scoped s ledger).0 active) (
      pack_input-IsWritten request (scoped s ledger).0 active h
        (scoped-NonnegAmounts s ledger k)) in
    rw e (_, refl)

parse_amount-IsNonneg :
    (y : Yaml) (value : Node) (d : Decimal) → parse_amount y value ≡ some d → IsNonneg d
unfolding parse_amount
parse_amount-IsNonneg y value d h = elim (Option-cases (y.decode_uint64 value)) [
  | inl e ↦ ground (arith, parse-IsNonneg (value_of value) {d = d})
  | inr (whole, e) ↦
      ground
        (arith, parse-IsNonneg (value_of value) {d = d}, parse-IsNonneg (digits_of whole) {d = d})
]

set_amount-NonnegAmounts :
    (s : Settings) (key : AmountKey) (amount : Decimal)
    → IsNonneg amount
    → NonnegAmounts s
    → NonnegAmounts (set_amount s key (some amount))
set_amount-NonnegAmounts s key amount p h k d e = elim (Bool-cases (same_key key k)) [
  | inl same ↦ subst IsNonneg (ground arith) p
  | inr other ↦ h k d (ground arith)
]

read_key-NonnegAmounts :
    (y : Yaml) (key : Bytes) (value : Node) (s : Settings) {next : Settings}
    → NonnegAmounts s
    → read_key y key value s ≡ some next
    → NonnegAmounts next
unfolding read_key
read_key-NonnegAmounts y key value s {next} h e = elim (Option-cases (amount_key key)) [
  | inl f ↦ same_amounts (elim (Option-cases (parse_models value)) [
    | inl g ↦ ground arith
    | inr (models, g) ↦ ground arith
  ])
  | inr (k, f) ↦ elim (Option-cases (parse_amount y value)) [
    | inl g ↦ absurd (ground arith)
    | inr (amount, g) ↦
        let same : set_amount s k (some amount) ≡ next = ground arith in
        subst NonnegAmounts same
          (set_amount-NonnegAmounts s k amount (parse_amount-IsNonneg y value amount g) h)
  ]
]
  where
    same_amounts : s.amounts ≡ next.amounts → NonnegAmounts next
    same_amounts q k d e = h k d (ap (λ f. f k) q ∙ e)

read_keys-NonnegAmounts :
    (y : Yaml) (pairs : Nodes) (s : Settings) {next : Settings}
    → NonnegAmounts s
    → read_keys y pairs s ≡ some next
    → NonnegAmounts next
unfolding read_keys
read_keys-NonnegAmounts y no_nodes s {next} h e =
    let same : s ≡ next = ground arith in subst NonnegAmounts same h
read_keys-NonnegAmounts y (more_nodes key no_nodes) s {next} h e =
    let same : s ≡ next = ground arith in subst NonnegAmounts same h
read_keys-NonnegAmounts y (more_nodes key (more_nodes value rest)) s {next = last} h e =
    elim (Option-cases (read_key y (value_of key) value s)) [
      | inl f ↦ absurd (ground arith)
      | inr (next, f) ↦
          read_keys-NonnegAmounts y rest next {next = last}
            (read_key-NonnegAmounts y (value_of key) value s h f) (ground arith)
    ]

no_settings-NonnegAmounts : NonnegAmounts no_settings
no_settings-NonnegAmounts key d e = absurd (ground arith)

read_policy-NonnegAmounts :
    (y : Yaml) (t : Target) {s : Settings} → read_policy y t ≡ some s → NonnegAmounts s
unfolding read_policy
read_policy-NonnegAmounts y nil {s} e =
    let same : no_settings ≡ s = ground arith in subst NonnegAmounts same no_settings-NonnegAmounts
read_policy-NonnegAmounts y (points_to n) {s} e =
    elim (Bool-cases (bytes_eq (tag_of n) (codes "!!null"))) [
      | inl null ↦
          let same : no_settings ≡ s = ground arith in
          subst NonnegAmounts same no_settings-NonnegAmounts
      | inr other ↦
          read_keys-NonnegAmounts y (content_of n) no_settings {next = s} no_settings-NonnegAmounts
            (ground arith)
    ]

-- `ParseSettings` reads no amount that is negative.
pub parse_settings-NonnegAmounts :
    (y : Yaml) (text : Bytes) {s : Settings} → parse_settings y text ≡ some s → NonnegAmounts s
unfolding parse_settings
parse_settings-NonnegAmounts y text {s} e = elim (Option-cases (y.unmarshal text)) [
  | inl f ↦ absurd (ground arith)
  | inr (root, f) ↦
      read_policy-NonnegAmounts y (section root (codes "policy")) {s = s} (ground arith)
]

config_settings-NonnegAmounts :
    (y : Yaml) (c : ConfigFile) {s : Settings} → config_settings y c ≡ some s → NonnegAmounts s
unfolding config_settings
config_settings-NonnegAmounts y c {s} e = elim (Bool-cases c.unread) [
  | inl f ↦ absurd (ground arith)
  | inr f ↦ parse_settings-NonnegAmounts y c.text {s = s} (ground arith)
]

-- `Evaluate` and `EvaluateLedger` give a verdict on every request whose costs are not negative,
-- whatever costroid.yml holds.
pub evaluate_scoped-some :
    (y : Yaml) (request : Request) (ledger : Bool)
    → NonnegCosts request.usage.currencies
    → (v : Verdict) × (evaluate_scoped y request ledger ≡ some v)
unfolding evaluate_scoped
evaluate_scoped-some y request ledger h = elim (Option-cases (config_settings y request.config)) [
  | inl e ↦ rw (evaluate_scoped, e) (_, refl)
  | inr (s, e) ↦
      let (v, f) =
        evaluate_settings-some request s ledger h
          (λ k d q. config_settings-NonnegAmounts y request.config e k d q) in
      rw (evaluate_scoped, e) (v, f)
]

-- `Evaluate` gives a verdict on every usage that `ReadUsage` gives, whatever costroid.yml, the
-- baseline and the lifetime hold.
pub evaluate-some :
    (y : Yaml) (request : Request) (lines : List Line) (scan_failed : Bool)
    → read_usage lines scan_failed ≡ some request.usage
    → (v : Verdict) × (evaluate y request ≡ some v)
unfolding evaluate
evaluate-some y request lines scan_failed h =
    evaluate_scoped-some y request false (read_usage-NonnegCosts lines scan_failed h)
