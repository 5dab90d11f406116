-- ===== src/Policy/Results.antt =====
-- internal/policy/policy.go: what becomes of the pack's results. On rows of a CI token whose spend only
-- the agent's job counted a pass is no proof, a ledger's run rules are withheld, and each result is
-- given the figures that it was held to.
use costroid.Prelude.{
  ℕ, leb, Bool, true, false, ◌&&◌, not, if◌then◌else◌, List, [], ◌∷◌, ◌++◌, Option, none, some, map,
}
use costroid.Decimal.{Decimal}
use costroid.Decimal.Text.{string}
use costroid.Policy.{
  Trust, Evidence, agent_counts, Conclusion, success, neutral, Rule, run_budget, run_cost_threshold,
  run_increase, run_increase_percent, pr_budget, monthly_budget, model_allowlist, attribution,
  unproven, Reason, no_baseline, no_lifetime, no_run_rows, outside_allowlist, unmeasured_spend,
  AmountKey, key_run_budget, key_max_run_cost, key_max_increase, key_max_increase_percent, Settings,
  Result,
}
use costroid.Policy.Rows.{usd}
use costroid.Policy.Config.{same_key}
use costroid.Policy.Pack.{PackAnswer, is_pass, is_token_verified}
use costroid.Policy.Request.{Request, lifetime_total, model_rows}

-- `runRuleKeys`
abbrev pub run_rule_key : Rule → Option AmountKey
run_rule_key run_budget = some key_run_budget
run_rule_key run_cost_threshold = some key_max_run_cost
run_rule_key run_increase = some key_max_increase
run_rule_key run_increase_percent = some key_max_increase_percent
run_rule_key _ = none

abbrev pub run_cost_rules : List Rule
run_cost_rules = run_budget ∷ run_cost_threshold ∷ run_increase ∷ run_increase_percent ∷ []

-- Membership in `measuredRules`.
abbrev pub is_measured_rule : Rule → Bool
is_measured_rule attribution = false
is_measured_rule _ = true

abbrev pub is_run_cost_rule : Rule → Bool
is_run_cost_rule run_budget = true
is_run_cost_rule run_cost_threshold = true
is_run_cost_rule run_increase = true
is_run_cost_rule run_increase_percent = true
is_run_cost_rule _ = false

abbrev pub is_percent_rule : Rule → Bool
is_percent_rule run_increase_percent = true
is_percent_rule _ = false

-- The pass of a rule that only measured spend may give.
abbrev pub is_demoted : Result → Bool
is_demoted r = is_pass r.outcome && is_measured_rule r.rule

-- `demoteUnmeasured`: the results, and whether any changed.
unfoldable pub demote_unmeasured : List Result → List Result × Bool
demote_unmeasured [] = ([], false)
demote_unmeasured (r ∷ rest) =
    let (more, demoted) = demote_unmeasured rest in
    if is_demoted r
    then (record r { outcome = unproven; reason = unmeasured_spend } ∷ more, true)
    else (r ∷ more, demoted)

abbrev pub withheld_result : Rule → Decimal → Result
withheld_result rule limit = record {
  rule = rule;
  outcome = unproven;
  reason = no_run_rows;
  held_by_warn_only = false;
  limit_usd = if is_percent_rule rule then [] else string limit;
  limit_percent = if is_percent_rule rule then string limit else [];
  cost_usd = [];
  baseline_usd = [];
  models = [];
}

abbrev pub without : AmountKey → Settings → Settings
without key s = record s { amounts = λ k. if same_key key k then none else s.amounts k }

unfoldable pub withhold : List Rule → Settings → Settings × List Result
withhold [] s = (s, [])
withhold (rule ∷ rules) s = elim (run_rule_key rule) [
  | none ↦ withhold rules s
  | some key ↦ elim (s.amounts key) [
    | none ↦ withhold rules s
    | some limit ↦
        let (rest, withheld) = withhold rules (without key s) in
        (rest, withheld_result rule limit ∷ withheld)
  ]
]

-- `withoutRunRules`
unfoldable pub without_run_rules : Settings → Settings × List Result
unfolding withhold
without_run_rules s = withhold run_cost_rules s

-- The place of a rule in `ruleOrder`.
abbrev pub rule_index : Rule → ℕ
rule_index run_budget = 0
rule_index run_cost_threshold = 1
rule_index run_increase = 2
rule_index run_increase_percent = 3
rule_index pr_budget = 4
rule_index monthly_budget = 5
rule_index model_allowlist = 6
rule_index attribution = 7

unfoldable pub insert_result : Result → List Result → List Result
insert_result r [] = r ∷ []
insert_result r (x ∷ rest) =
    let later = x ∷ insert_result r rest in
    if leb (rule_index r.rule) (rule_index x.rule) then r ∷ x ∷ rest else later

-- `slices.SortFunc` by the rules' places.
unfoldable pub sort_results : List Result → List Result
unfolding insert_result
sort_results [] = []
sort_results (r ∷ rest) = insert_result r (sort_results rest)

-- A rule that compared nothing was held to no figure.
abbrev pub compared_nothing : Reason → Bool
compared_nothing no_baseline = true
compared_nothing no_lifetime = true
compared_nothing no_run_rows = true
compared_nothing _ = false

abbrev pub is_no_baseline : Reason → Bool
is_no_baseline no_baseline = true
is_no_baseline _ = false

abbrev pub is_outside_allowlist : Reason → Bool
is_outside_allowlist outside_allowlist = true
is_outside_allowlist _ = false

abbrev pub is_increase_rule : Rule → Bool
is_increase_rule run_increase = true
is_increase_rule run_increase_percent = true
is_increase_rule _ = false

abbrev pub is_pr_budget : Rule → Bool
is_pr_budget pr_budget = true
is_pr_budget _ = false

abbrev pub is_model_rule : Rule → Bool
is_model_rule model_allowlist = true
is_model_rule _ = false

-- The cost, or the models, that a result was held to.
unfoldable pub with_cost : Request → Settings → Result → Result
with_cost request settings r =
    let (cost, found) = usd request.usage in
    let (refused, unreadable, names) = model_rows request.usage settings in
    let named =
      if is_model_rule r.rule && is_outside_allowlist r.reason
      then record r { models = names }
      else r in
    if compared_nothing r.reason
    then r
    else if is_run_cost_rule r.rule && found
    then record r { cost_usd = string cost }
    else elim (request.lifetime) [
      | some l ↦
          if is_pr_budget r.rule
          then record r { cost_usd = string (lifetime_total l request.usage) }
          else named
      | none ↦ named
    ]

unfoldable pub with_baseline : Request → Result → Result
with_baseline request r = elim (request.baseline) [
  | none ↦ r
  | some b ↦
      if is_increase_rule r.rule && not (is_no_baseline r.reason)
      then record r { baseline_usd = string b.median_usd }
      else r
]

unfoldable pub annotate : Request → Settings → List Result → List Result
unfolding sort_results with_cost with_baseline
annotate request settings results =
    map (λ r. with_baseline request (with_cost request settings r)) (sort_results results)

abbrev pub is_agent_counts : Evidence → Bool
is_agent_counts agent_counts = true
is_agent_counts _ = false

abbrev pub is_success : Conclusion → Bool
is_success success = true
is_success _ = false

abbrev pub is_empty_list : List Result → Bool
is_empty_list [] = true
is_empty_list (r ∷ rest) = false

-- The conclusion and the results behind the pack's answer.
unfoldable pub settle : Trust → Evidence → List Result → PackAnswer → Conclusion × List Result
unfolding demote_unmeasured
settle trust evidence withheld answer =
    let all_results = answer.results ++ withheld in
    let unmeasured = is_token_verified trust && is_agent_counts evidence in
    let (demoted, changed) = demote_unmeasured all_results in
    let results = if unmeasured then demoted else all_results in
    let conclusion =
      if unmeasured && changed && is_success answer.conclusion
      then neutral
      else answer.conclusion in
    (if not (is_empty_list withheld) && is_success conclusion then neutral else conclusion, results)
