-- ===== src/Examples/Verdicts.antt =====
-- Concrete verdicts of internal/policy: a ledger's success under a pull request budget, and the rows
-- that a job wrote itself.
use costroid.Prelude.{
  ◌<◌, true, false, not, ◌≡◌, ◌≢◌, refl, List, [], ◌∷◌, none, some, All, map, Bytes, codes, arith,
}
use costroid.Prelude.Int.{pos, ◌+ℤ◌, ◌*ℤ◌}
use costroid.Prelude.Power.{pow10}
use costroid.Decimal.{Decimal, normal_loop, rescale, add, sub, cmp, sign, scale}
use costroid.Decimal.Text.{parse, string}
use costroid.Decimal.Nonneg.{IsNonneg}
use costroid.Policy.{
  token_verified, unverified, gateway_measured, agent_counts, success, neutral, pr_budget, pass,
  Settings, Usage, Start, in_period, Result, within_limit, unproven, no_lifetime,
  key_pull_request_budget,
}
use costroid.Policy.Rows.{
  is_currency, row_joinable, usd, joinable, add_model, new_entry, change_entry, add_to_entry,
  row_cost, add_row, Line, blank, row, read_usage, LedgerLine, ledger_usage, total_of,
}
use costroid.Policy.Config.{
  Node, node, no_nodes, more_nodes, nil, document, mapping, scalar, Yaml, parse_settings,
  set_amount, no_settings,
}
use costroid.Policy.Period.{check_period}
use costroid.Policy.Pack.{
  over, run_held, increase, pull_request, when_set, rule_results, results_of, conclude, check,
  evaluate_pack,
}
use costroid.Policy.Request.{
  ConfigFile, config_settings, Request, lifetime_total, lifetime_input, pack_input, usage_input,
}
use costroid.Policy.Results.{
  demote_unmeasured, without_run_rules, insert_result, sort_results, with_cost, with_baseline,
  annotate, settle,
}
use costroid.Policy.Verdict.{
  config_found, config_state, Verdict, base_verdict, evaluate_settings, evaluate_scoped, evaluate,
  LedgerRequest, ledger_lifetime, ledger_request, evaluate_ledger,
}
use costroid.Policy.Total.{costs_over, over-costs_over}
use costroid.Policy.Proven.{IsProven, evaluate_settings-IsProven}
use costroid.Policy.Consistent.{evaluate_settings-conclude}
use costroid.Policy.Read.{read_usage-rows}
use costroid.Policy.Answered.{evaluate-some}
use costroid.Policy.Ledger.{
  line_rows, evaluate-no_success, evaluate_ledger-success, evaluate_ledger-some,
}

abbrev leaf : Bytes → Bytes → Node
leaf tag value = node scalar tag value no_nodes nil

-- policy: { pr_budget_usd: "2" }
abbrev budget_file : Node
budget_file =
    let policy =
      node mapping (codes "!!map") []
        (more_nodes (leaf (codes "!!str") (codes "pr_budget_usd"))
          (more_nodes (leaf (codes "!!str") (codes "2")) no_nodes))
        nil in
    node document [] []
      (more_nodes
        (node mapping (codes "!!map") []
          (more_nodes (leaf (codes "!!str") (codes "policy")) (more_nodes policy no_nodes)) nil)
        no_nodes)
      nil

abbrev one_file : Yaml
one_file = record {
  unmarshal = λ text. some budget_file;
  decode_uint64 = λ n. none;
  decode_int = λ n. none;
}

abbrev config : ConfigFile
config = record { text = []; found = true; from_base = true; unread = false }

abbrev started : Start
started = record { at = 3; not_on_base = false }

abbrev spent : Decimal
spent = record { coefficient = pos 15; scale = 1 }

abbrev line : LedgerLine
line = record {
  currency = codes "USD";
  list_cost = spent;
  rows = 3;
  model = codes "m";
  verified = true;
  attributed = true;
}

abbrev one_line : LedgerRequest
one_line = record {
  lines = line ∷ [];
  evidence = gateway_measured;
  measured_usd = spent;
  config = config;
  start = started;
  measured_pull_requests = 0;
  at = 5;
}

abbrev within : Result
within = record {
  rule = pr_budget;
  outcome = pass;
  reason = within_limit;
  held_by_warn_only = false;
  limit_usd = codes "2";
  limit_percent = [];
  cost_usd = codes "1.5";
  baseline_usd = [];
  models = [];
}

abbrev good_verdict : Verdict
good_verdict = record {
  conclusion = success;
  trust = token_verified;
  config = config_found;
  config_from_base = true;
  evaluated_at = 5;
  warn_only = record {
    active = true;
    reason = in_period;
    started = some 3;
    ends = some 604_800_000_000_003;
  };
  results = within ∷ [];
  joinable_rows = 0;
  evidence = some gateway_measured;
  problem = false;
}

abbrev budget_settings : Settings
budget_settings =
    set_amount no_settings key_pull_request_budget
      (some (record { coefficient = pos 2; scale = 0 }))

file_settings : parse_settings one_file [] ≡ some budget_settings
unfolding parse_settings parse normal_loop
file_settings = refl

one_line-good : evaluate_ledger one_file one_line ≡ some good_verdict
unfolding evaluate_ledger evaluate_scoped config_settings parse_settings parse normal_loop
    evaluate_settings base_verdict config_state check_period joinable without_run_rules
    evaluate_pack pack_input results_of rule_results when_set pull_request string cmp rescale pow10
    ◌*ℤ◌ ◌+ℤ◌ add ledger_usage ledger_lifetime usd settle annotate conclude check sort_results
    insert_result with_cost with_baseline demote_unmeasured over run_held increase sub sign
    lifetime_input lifetime_total
one_line-good = refl

evaluate_ledger-success_example :
    All (λ l. l.verified ≡ true) one_line.lines
    × (one_line.evidence ≢ agent_counts)
    × (0 < line_rows (λ l. true) one_line.lines)
    × (line_rows (λ l. not l.attributed) one_line.lines ≡ 0)
evaluate_ledger-success_example = evaluate_ledger-success one_file one_line one_line-good refl

settings-good : evaluate_settings (ledger_request one_line) budget_settings true ≡ some good_verdict
unfolding evaluate_settings parse normal_loop base_verdict config_state check_period joinable
    without_run_rules evaluate_pack pack_input results_of rule_results when_set pull_request string
    cmp rescale pow10 ◌*ℤ◌ ◌+ℤ◌ add ledger_usage ledger_lifetime usd settle annotate conclude check
    sort_results insert_result with_cost with_baseline demote_unmeasured sub sign lifetime_input
    lifetime_total
settings-good = refl

evaluate_settings-IsProven_example : IsProven (ledger_request one_line) good_verdict
evaluate_settings-IsProven_example =
    evaluate_settings-IsProven (ledger_request one_line) budget_settings true settings-good refl

evaluate_settings-conclude_example : good_verdict.conclusion ≡ conclude good_verdict.results
evaluate_settings-conclude_example =
    evaluate_settings-conclude (ledger_request one_line) budget_settings true settings-good

spent-IsNonneg : IsNonneg spent
unfolding sign
spent-IsNonneg e = ground arith

evaluate_ledger-some_example : (v : Verdict) × (evaluate_ledger one_file one_line ≡ some v)
evaluate_ledger-some_example = evaluate_ledger-some one_file one_line (spent-IsNonneg, tt)

-- The rows file of a job: one row.
abbrev one_row : List Line
one_row =
    row (record {
      sub_account_id = none;
      list_cost = codes "1.50";
      billing_currency = codes "USD";
      session_id = codes "s";
      pr = codes "1";
      commit_sha = codes "c";
      model = codes "m";
    })
    ∷ blank
    ∷ []

abbrev job_usage : Usage
job_usage = record {
  rows = 1;
  currencies =
      record {
        currency = codes "USD";
        list_cost = spent;
        rows = 1;
        unattributed_rows = 1;
        joinable_rows = 0;
        models = (codes "m", 1) ∷ [];
        unreadable_models = 0;
      }
      ∷ [];
}

abbrev job_request : Request
job_request = record {
  usage = job_usage;
  trust = unverified;
  config = config;
  start = started;
  at = 5;
  baseline = none;
  lifetime = none;
  measured_pull_requests = 0;
  evidence = agent_counts;
}

job_rows : read_usage one_row false ≡ some job_request.usage
unfolding read_usage add_row row_cost parse normal_loop scale change_entry add_to_entry new_entry
    add add_model is_currency row_joinable ◌+ℤ◌ rescale pow10 ◌*ℤ◌
job_rows = refl

read_usage-rows_example :
    (total_of (λ e. e.rows) job_usage.currencies ≡ job_usage.rows)
    × (total_of (λ e. e.unattributed_rows) job_usage.currencies ≡ job_usage.rows)
read_usage-rows_example = read_usage-rows one_row false job_rows

evaluate-some_example : (v : Verdict) × (evaluate one_file job_request ≡ some v)
evaluate-some_example = evaluate-some one_file job_request one_row false job_rows

abbrev job_verdict : Verdict
job_verdict = record good_verdict {
  conclusion = neutral;
  trust = unverified;
  results = record within { outcome = unproven; reason = no_lifetime; cost_usd = [] } ∷ [];
  evidence = none;
}

job-neutral : evaluate one_file job_request ≡ some job_verdict
unfolding evaluate evaluate_scoped config_settings parse_settings evaluate_settings parse
    normal_loop base_verdict config_state check_period joinable evaluate_pack pack_input results_of
    rule_results when_set pull_request string settle annotate conclude check sort_results
    insert_result with_cost with_baseline demote_unmeasured usd lifetime_input
job-neutral = refl

evaluate-no_success_example : job_verdict.conclusion ≢ success
evaluate-no_success_example =
    evaluate-no_success one_file job_request one_row false job_rows job-neutral

over-costs_over_example :
    over (map usage_input job_usage.currencies) (string spent)
    ≡ some (costs_over spent job_usage.currencies)
over-costs_over_example =
    over-costs_over job_usage.currencies spent (spent-IsNonneg, tt) spent-IsNonneg
