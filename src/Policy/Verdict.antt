-- ===== src/Policy/Verdict.antt =====
-- internal/policy/policy.go: one evaluation. Of the verdict, the SHA-256 digests of the pack and of
-- the file and the commit's id are left out: nothing reads them. `none` is the error of a pack that
-- could not run.
use costroid.Prelude.{
  ℕ, Bool, true, false, ◌&&◌, not, if◌then◌else◌, List, [], ◌∷◌, Option, none, some, ◌>>=◌,
  bytes_eq, any, map,
}
use costroid.Decimal.{Decimal, zero_value, sub, cmp}
use costroid.Policy.{
  Trust, unverified, token_verified, Evidence, gateway_measured, Conclusion, neutral, Settings,
  Lifetime, Start, WarnOnly, Result,
}
use costroid.Policy.Rows.{LedgerLine, ledger_usage, usd, joinable, usd_code}
use costroid.Policy.Period.{check_period}
use costroid.Policy.Config.{Yaml}
use costroid.Policy.Pack.{evaluate_pack, is_gt, is_token_verified}
use costroid.Policy.Request.{ConfigFile, Request, config_settings, pack_input}
use costroid.Policy.Results.{without_run_rules, settle, annotate}

pub data ConfigState : Type 0 where
  config_found config_absent config_invalid config_unread : ConfigState

unfoldable pub config_state : ConfigFile → Bool → ConfigState
config_state c problem =
    if c.unread
    then config_unread
    else if problem
    then config_invalid
    else if c.found
    then config_found
    else config_absent

-- `Evidence` is absent on a verdict that states none.
pub record Verdict : Type 0 where
  pub conclusion : Conclusion
  pub trust : Trust
  pub config : ConfigState
  pub config_from_base : Bool
  pub evaluated_at : ℕ
  pub warn_only : WarnOnly
  pub results : List Result
  pub joinable_rows : ℕ
  pub evidence : Option Evidence
  pub problem : Bool

-- What an evaluation states before its pack runs.
unfoldable pub base_verdict : Request → Option Settings → Bool → Verdict
unfolding config_state
base_verdict request settings ledger =
    let problem : Bool = elim settings [ some s ↦ false | none ↦ true ] in
    let enforce : Bool = elim settings [ some s ↦ s.enforce | none ↦ false ] in
    record {
      conclusion = neutral;
      trust = request.trust;
      config = config_state request.config problem;
      config_from_base = request.config.from_base;
      evaluated_at = request.at;
      warn_only = check_period enforce request.start request.at request.measured_pull_requests;
      results = [];
      joinable_rows = joinable request.usage;
      evidence = if ledger && is_token_verified request.trust then some request.evidence else none;
      problem = problem;
    }

-- `WithoutAmounts`
unfoldable pub without_amounts : Verdict → Verdict
without_amounts v = record v {
  results =
      map {A = Result} (λ r. record r { limit_usd = []; cost_usd = []; baseline_usd = [] })
        v.results;
}

-- The rest of `evaluateScoped`, on settings that could be read.
unfoldable pub evaluate_settings : Request → Settings → Bool → Option Verdict
evaluate_settings request settings ledger =
    let verdict = base_verdict request (some settings) ledger in
    let (scoped, withheld) = if ledger then without_run_rules settings else (settings, []) in
    do
      answer ← evaluate_pack (pack_input request scoped verdict.warn_only.active)
      let settled = settle request.trust request.evidence withheld answer
      some (record verdict { conclusion = settled.0; results = annotate request scoped settled.1 })

-- `evaluateScoped`
unfoldable pub evaluate_scoped : Yaml → Request → Bool → Option Verdict
evaluate_scoped y request ledger = elim (config_settings y request.config) [
  | none ↦ some (base_verdict request none ledger)
  | some settings ↦ evaluate_settings request settings ledger
]

-- `Evaluate`
unfoldable pub evaluate : Yaml → Request → Option Verdict
evaluate y request = evaluate_scoped y request false

-- `LedgerRequest`
pub record LedgerRequest : Type 0 where
  pub lines : List LedgerLine
  pub evidence : Evidence
  pub measured_usd : Decimal
  pub config : ConfigFile
  pub start : Start
  pub measured_pull_requests : ℕ
  pub at : ℕ

abbrev pub is_gateway_measured : Evidence → Bool
is_gateway_measured gateway_measured = true
is_gateway_measured _ = false

abbrev pub has_lines : List LedgerLine → Bool
has_lines [] = false
has_lines (line ∷ lines) = true

unfoldable pub ledger_trust : List LedgerLine → Trust
ledger_trust lines =
    if has_lines lines && not (any (λ line. not line.verified) lines)
    then token_verified
    else unverified

-- The lifetime holds what the gateway counted past the rows' own total.
unfoldable pub ledger_lifetime : LedgerRequest → Lifetime
unfolding ledger_trust
ledger_lifetime r =
    let usage = ledger_usage r.lines in
    let rows_usd = (usd usage).0 in
    record {
      usd =
          if is_gateway_measured r.evidence && is_gt (cmp r.measured_usd rows_usd)
          then sub r.measured_usd rows_usd
          else zero_value;
      other_currency = any (λ entry. not (bytes_eq entry.currency usd_code)) usage.currencies;
      may_repeat = false;
      trust = ledger_trust r.lines;
    }

-- The request that the lines of a ledger make.
abbrev pub ledger_request : LedgerRequest → Request
ledger_request r = record {
  usage = ledger_usage r.lines;
  trust = ledger_trust r.lines;
  config = r.config;
  start = r.start;
  at = r.at;
  baseline = none;
  lifetime = some (ledger_lifetime r);
  measured_pull_requests = r.measured_pull_requests;
  evidence = r.evidence;
}

-- `EvaluateLedger`
unfoldable pub evaluate_ledger : Yaml → LedgerRequest → Option Verdict
evaluate_ledger y r = evaluate_scoped y (ledger_request r) true
