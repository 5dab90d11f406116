-- ===== src/Policy/Pack.antt =====
-- internal/policy/default.rego, the pack that gives one result for each rule that ran, and engine.go,
-- which hands it its input. Amounts travel as decimal texts. `none` is an evaluation that stops on
-- an error: the pack is loaded with strict built-in errors. A set of results is a list here, in the
-- order of the pack's rules; its reader sorts it.

use costroid.Prelude.{
  ℕ, ◌+◌, ◌==◌, ltb, Ordering, Bool, true, false, not, if◌then◌else◌, List, [], ◌∷◌, ◌++◌, Option,
  none, some, ◌>>=◌, Bytes, bytes_eq, all, any,
}
use costroid.Decimal.{cmp}
use costroid.Decimal.Text.{parse}
use costroid.Policy.{
  Trust, unverified, token_verified, Conclusion, success, neutral, failure, Rule, run_budget,
  run_cost_threshold, run_increase, run_increase_percent, pr_budget, monthly_budget,
  model_allowlist, attribution, Outcome, pass, warn, fail, unproven, Reason, over_limit,
  within_limit, no_rows, unverified_rows, unattributed_rows, other_currency, joinable_rows,
  over_baseline, no_baseline, no_lifetime, repeat_possible, no_ledger, outside_allowlist,
  unreadable_model, on_allowlist, unmeasured_spend, no_run_rows, key_run_budget, key_max_run_cost,
  key_max_increase, key_max_increase_percent, key_pull_request_budget, key_monthly_budget, Result,
}
use costroid.Policy.Rows.{usd_code}
use costroid.Policy.Input.{PackUsage, PackBaseline, PackLifetime, ModelRows, PackInput}

-- What a rule's helper answers: the outcome, the reason, and whether the period held it.
pub record Judgement : Type 0 where
  pub outcome : Outcome
  pub reason : Reason
  pub held : Bool

abbrev pub judged : Outcome → Reason → Judgement
judged outcome reason = record { outcome = outcome; reason = reason; held = false }

abbrev pub doubt : Reason → Judgement
doubt = judged unproven

-- `costroid.compare_decimal`, the built-in that engine.go gives the pack.
unfoldable pub compare_decimal : Bytes → Bytes → Option Ordering
compare_decimal a b = do x ← parse a; y ← parse b; some (cmp x y)

abbrev pub is_gt : Ordering → Bool
is_gt Ordering.gt = true
is_gt _ = false

abbrev pub is_token_verified : Trust → Bool
is_token_verified token_verified = true
is_token_verified unverified = false

-- `both`
abbrev pub both : Trust → Trust → Trust
both token_verified token_verified = token_verified
both _ _ = unverified

-- `over(limit)`: the first entry in USD past the limit ends the search.
unfoldable pub over : List PackUsage → Bytes → Option Bool
unfolding compare_decimal
over [] limit = some false
over (entry ∷ rest) limit =
    let later = over rest limit in
    if bytes_eq entry.currency usd_code
    then (do c ← compare_decimal entry.list_cost limit; if is_gt c then some true else later)
    else later

abbrev pub total : (PackUsage → ℕ) → List PackUsage → ℕ
total field [] = 0
total field (entry ∷ rest) = field entry + total field rest

unfoldable pub broken : PackInput → Reason → Judgement
broken input reason =
    if input.warn_only
    then record { outcome = warn; reason = reason; held = true }
    else judged fail reason

-- `kept`: only rows that a ledger checked and attributed reach the outcome.
unfoldable pub kept : PackInput → Trust → Judgement → Judgement
kept input trust outcome =
    if not (is_token_verified trust)
    then doubt unverified_rows
    else if ltb 0 (total (λ u. u.unattributed) input.usage)
    then doubt unattributed_rows
    else outcome

unfoldable pub within_limits : PackInput → Judgement
within_limits input =
    if any (λ u. not (bytes_eq u.currency usd_code)) input.usage
    then doubt other_currency
    else judged pass within_limit

unfoldable pub run_held : PackInput → Bytes → Reason → Trust → Option Judgement
unfolding broken kept within_limits
run_held input limit reason trust = do
  past ← over input.usage limit
  some (
      if past
      then broken input reason
      else if input.rows == 0
      then doubt no_rows
      else kept input trust (within_limits input))

-- `increase(setting)`, for one of the two increase keys.
unfoldable pub increase : PackInput → (PackBaseline → Option Bytes) → Option Judgement
increase input setting = elim (input.baseline) [
  | none ↦ some (doubt no_baseline)
  | some baseline ↦ elim (setting baseline) [
    | none ↦ some (doubt no_baseline)
    | some limit ↦ run_held input limit over_baseline (both input.trust baseline.trust)
  ]
]

unfoldable pub pull_request_within : PackInput → PackLifetime → Judgement
unfolding within_limits
pull_request_within input lifetime =
    if lifetime.other_currency then doubt other_currency else within_limits input

unfoldable pub pull_request : PackInput → Bytes → Option Judgement
unfolding compare_decimal broken kept pull_request_within
pull_request input limit = elim (input.lifetime) [
  | none ↦ some (doubt no_lifetime)
  | some lifetime ↦ if lifetime.may_repeat then some (doubt repeat_possible) else (do
    c ← compare_decimal lifetime.total_usd limit
    some (
        if is_gt c
        then broken input over_limit
        else if input.rows == 0
        then doubt no_rows
        else kept input (both input.trust lifetime.trust) (pull_request_within input lifetime)))
]

unfoldable pub allowlist : PackInput → ModelRows → Judgement
unfolding broken kept
allowlist input models =
    if ltb 0 models.outside
    then broken input outside_allowlist
    else if input.rows == 0
    then doubt no_rows
    else if ltb 0 models.unreadable
    then doubt unreadable_model
    else kept input input.trust (judged pass on_allowlist)

-- `object.union` of a rule's name and limit with its judgement.
abbrev pub with_limit : Rule → Bytes → Bytes → Judgement → Result
with_limit rule usd percent j = record {
  rule = rule;
  outcome = j.outcome;
  reason = j.reason;
  held_by_warn_only = j.held;
  limit_usd = usd;
  limit_percent = percent;
  cost_usd = [];
  baseline_usd = [];
  models = [];
}

-- A rule that runs when its amount is set.
unfoldable pub when_set : Option Bytes → (Bytes → Option Result) → Option (List Result)
when_set none rule = some []
when_set (some limit) rule = do result ← rule limit; some (result ∷ [])

abbrev pub usd_rule : Rule → Bytes → Option Judgement → Option Result
usd_rule rule limit answer = do j ← answer; some (with_limit rule limit [] j)

-- One `results contains` clause of the pack for each rule.
unfoldable pub rule_results : PackInput → Rule → Option (List Result)
rule_results input run_budget =
    when_set (input.amounts key_run_budget)
      (λ limit. usd_rule run_budget limit (run_held input limit over_limit input.trust))
rule_results input run_cost_threshold =
    when_set (input.amounts key_max_run_cost)
      (λ limit. usd_rule run_cost_threshold limit (run_held input limit over_limit input.trust))
rule_results input run_increase =
    when_set (input.amounts key_max_increase)
      (λ limit. usd_rule run_increase limit (increase input (λ b. b.max_increase)))
rule_results input run_increase_percent =
    when_set (input.amounts key_max_increase_percent) (λ limit. do
      j ← increase input (λ b. b.max_increase_percent)
      some (with_limit run_increase_percent [] limit j))
rule_results input pr_budget =
    when_set (input.amounts key_pull_request_budget)
      (λ limit. usd_rule pr_budget limit (pull_request input limit))
rule_results input monthly_budget =
    when_set (input.amounts key_monthly_budget)
      (λ limit. some (with_limit monthly_budget limit [] (doubt no_ledger)))
rule_results input model_allowlist = elim (input.model_rows) [
  | none ↦ some []
  | some models ↦ some (with_limit model_allowlist [] [] (allowlist input models) ∷ [])
]
rule_results input attribution =
    if ltb 0 (total (λ u. u.joinable) input.usage)
    then some (with_limit attribution [] [] (judged warn joinable_rows) ∷ [])
    else some []

-- `ruleOrder` of policy.go, which is also the order of the pack's clauses.
abbrev pub rule_order : List Rule
rule_order =
    run_budget ∷ run_cost_threshold ∷ run_increase ∷ run_increase_percent ∷ pr_budget
    ∷ monthly_budget ∷ model_allowlist ∷ attribution ∷ []

unfoldable pub results_of : PackInput → List Rule → Option (List Result)
results_of input [] = some []
results_of input (rule ∷ rules) = do
  here ← rule_results input rule
  more ← results_of input rules
  some (here ++ more)

abbrev pub is_fail : Outcome → Bool
is_fail fail = true
is_fail _ = false

abbrev pub is_pass : Outcome → Bool
is_pass pass = true
is_pass _ = false

-- `outcomes == {"pass"}` holds of a set with a pass and nothing else.
unfoldable pub conclude : List Result → Conclusion
conclude [] = neutral
conclude (r ∷ rest) =
    let results : List Result = r ∷ rest in
    if any (λ x. is_fail x.outcome) results
    then failure
    else if all (λ x. is_pass x.outcome) results
    then success
    else neutral

-- `packAnswer`
pub record PackAnswer : Type 0 where
  pub conclusion : Conclusion
  pub results : List Result

-- The reasons that `check` lets a pack give.
abbrev pub pack_reason : Reason → Bool
pack_reason unmeasured_spend = false
pack_reason no_run_rows = false
pack_reason _ = true

-- `check`; a rule, an outcome and a conclusion of another name are no values here.
unfoldable pub check : PackAnswer → Bool
check answer = all (λ r. pack_reason r.reason) answer.results

-- `evaluatePack`
unfoldable pub evaluate_pack : PackInput → Option PackAnswer
evaluate_pack input = do
  results ← results_of input rule_order
  let answer : PackAnswer = record { conclusion = conclude results; results = results }
  if check answer then some answer else none
