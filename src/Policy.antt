-- ===== src/Policy.antt =====
-- internal/policy: what decides the check's conclusion. This module holds the package's data; the
-- children hold its functions. A text is its bytes, an empty text is [], and a map with closed keys
-- is a function into Option. An instant is in nanoseconds since Go's zero time. Counts of rows are
-- natural numbers: they stay far below the range of an int.

pub mod Rows
pub mod Config
pub mod Approval
pub mod Period
pub mod Input
pub mod Pack
pub mod Request
pub mod Results
pub mod Verdict
pub mod Consistent
pub mod Success
pub mod Proven
pub mod Total
pub mod Read
pub mod Answered
pub mod Ledger
use costroid.Prelude.{ℕ, ◌*◌, Bool, List, Option, Bytes}
use costroid.Decimal.{Decimal}

pub data Trust : Type 0 where
  unverified token_verified : Trust

-- `Evidence`; any stated text but the last two reads as the first.
pub data Evidence : Type 0 where
  agent_counts gateway_measured reconciled : Evidence

pub data Conclusion : Type 0 where
  success neutral failure : Conclusion

pub data Rule : Type 0 where
  run_budget run_cost_threshold run_increase run_increase_percent : Rule
  pr_budget monthly_budget model_allowlist attribution : Rule

pub data Outcome : Type 0 where
  pass warn fail unproven : Outcome

pub data Reason : Type 0 where
  over_limit within_limit no_rows unverified_rows unattributed_rows other_currency : Reason
  joinable_rows over_baseline no_baseline no_lifetime repeat_possible no_ledger : Reason
  outside_allowlist unreadable_model on_allowlist unmeasured_spend no_run_rows : Reason

-- The amount keys of costroid.yml, each named after its constant in settings.go.
pub data AmountKey : Type 0 where
  key_run_budget key_max_run_cost key_max_increase key_max_increase_percent : AmountKey
  key_pull_request_budget key_monthly_budget : AmountKey

pub record Settings : Type 0 where
  pub amounts : AmountKey → Option Decimal
  pub models : List Bytes
  pub enforce : Bool

-- `Models` is the map from a model to its rows, as a list without repeats.
pub record CurrencyUsage : Type 0 where
  pub currency : Bytes
  pub list_cost : Decimal
  pub rows : ℕ
  pub unattributed_rows : ℕ
  pub joinable_rows : ℕ
  pub models : List (Bytes × ℕ)
  pub unreadable_models : ℕ

pub record Usage : Type 0 where
  pub rows : ℕ
  pub currencies : List CurrencyUsage

pub record Baseline : Type 0 where
  pub runs : ℕ
  pub median_usd : Decimal
  pub trust : Trust

pub record Lifetime : Type 0 where
  pub usd : Decimal
  pub other_currency : Bool
  pub may_repeat : Bool
  pub trust : Trust

-- `At` is 0 when the commit could not be read.
pub record Start : Type 0 where
  pub at : ℕ
  pub not_on_base : Bool

pub data PeriodReason : Type 0 where
  in_period ended enforced not_on_base start_unknown : PeriodReason

-- The two dates are kept as the instants that the code prints, absent where it prints none.
pub record WarnOnly : Type 0 where
  pub active : Bool
  pub reason : PeriodReason
  pub started : Option ℕ
  pub ends : Option ℕ

pub record Result : Type 0 where
  pub rule : Rule
  pub outcome : Outcome
  pub reason : Reason
  pub held_by_warn_only : Bool
  pub limit_usd : Bytes
  pub limit_percent : Bytes
  pub cost_usd : Bytes
  pub baseline_usd : Bytes
  pub models : List Bytes
