-- ===== src/Policy/Input.antt =====
-- The input of the pack of internal/policy/default.rego, as `packInput` of engine.go makes it. Amounts
-- travel as decimal texts.
use costroid.Prelude.{ℕ, Bool, List, Option, Bytes}
use costroid.Policy.{Trust, AmountKey}

-- The entry of one currency in the pack's input.
pub record PackUsage : Type 0 where
  pub currency : Bytes
  pub list_cost : Bytes
  pub rows : ℕ
  pub unattributed : ℕ
  pub joinable : ℕ

pub record PackBaseline : Type 0 where
  pub trust : Trust
  pub max_increase : Option Bytes
  pub max_increase_percent : Option Bytes

pub record PackLifetime : Type 0 where
  pub trust : Trust
  pub total_usd : Bytes
  pub may_repeat : Bool
  pub other_currency : Bool

-- The rows that the allowlist refuses, and those whose model cannot be read.
pub record ModelRows : Type 0 where
  pub outside : ℕ
  pub unreadable : ℕ

-- `model_rows` is there when `settings.models` is.
pub record PackInput : Type 0 where
  pub trust : Trust
  pub rows : ℕ
  pub usage : List PackUsage
  pub amounts : AmountKey → Option Bytes
  pub model_rows : Option ModelRows
  pub baseline : Option PackBaseline
  pub lifetime : Option PackLifetime
  pub warn_only : Bool
