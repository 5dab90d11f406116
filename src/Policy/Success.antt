-- ===== src/Policy/Success.antt =====
-- What a pass and a success of internal/policy stand on: rows that a ledger checked and attributed,
-- spend that was measured, and a cost within the limit.
use costroid.Prelude.{
  ◌<◌, Bool, true, ◌||◌, ◌≡◌, refl, inl, inr, Bool-cases, Option-cases, List, [], ◌∷◌, ◌++◌, Option,
  none, some, ◌>>=◌, any, arith, Bytes,
}
use costroid.Policy.{
  Trust, unverified, token_verified, Rule, run_budget, run_cost_threshold, run_increase,
  run_increase_percent, pr_budget, monthly_budget, model_allowlist, attribution, Outcome, pass,
  Reason, Result, AmountKey, over_baseline, on_allowlist, over_limit, no_ledger, key_run_budget,
  key_max_run_cost, key_max_increase, key_max_increase_percent, key_pull_request_budget,
  key_monthly_budget,
}
use costroid.Policy.Input.{PackInput, PackBaseline, ModelRows}
use costroid.Policy.Pack.{
  Judgement, judged, doubt, is_pass, both, total, kept, within_limits, run_held, increase,
  pull_request, pull_request_within, allowlist, when_set, usd_rule, with_limit, rule_results,
  results_of,
}

-- What stands behind every pass of the pack.
pub record IsChecked (input : PackInput) : Type 0 where
  pub verified : input.trust ≡ token_verified
  pub attributed : total (λ u. u.unattributed) input.usage ≡ 0
  pub not_empty : 0 < input.rows

kept_pass :
    (input : PackInput) (trust : Trust) (j : Judgement)
    → (kept input trust j).outcome ≡ pass
    → (trust ≡ token_verified) × (total (λ u. u.unattributed) input.usage ≡ 0)
unfolding kept
kept_pass input trust j h = ground arith

both_verified : (a b : Trust) → both a b ≡ token_verified → a ≡ token_verified
both_verified token_verified token_verified h = refl
both_verified token_verified unverified h = refl
both_verified unverified b h = h

run_held_pass :
    (input : PackInput) (limit : Bytes) (reason : Reason) (trust : Trust) {j : Judgement}
    → run_held input limit reason trust ≡ some j
    → j.outcome ≡ pass
    → (trust ≡ token_verified) × (total (λ u. u.unattributed) input.usage ≡ 0) × (0 < input.rows)
unfolding run_held
run_held_pass input limit reason trust h p =
    ground (arith, kept_pass input trust (within_limits input))

increase_pass :
    (input : PackInput) (setting : PackBaseline → Option Bytes) {j : Judgement}
    → increase input setting ≡ some j
    → j.outcome ≡ pass
    → IsChecked input
unfolding increase
increase_pass input setting {j} h p = elim (Option-cases (input.baseline)) [
  | inl e ↦ absurd (ground arith)
  | inr (baseline, e) ↦ elim (Option-cases (setting baseline)) [
    | inl s ↦ absurd (ground arith)
    | inr (limit, s) ↦
        let (verified, attributed, not_empty) =
          run_held_pass input limit over_baseline (both input.trust baseline.trust) {j = j}
            (ground arith) p in
        record {
          verified = both_verified input.trust baseline.trust verified;
          attributed = attributed;
          not_empty = not_empty;
        }
  ]
]

pull_request_pass :
    (input : PackInput) (limit : Bytes) {j : Judgement}
    → pull_request input limit ≡ some j
    → j.outcome ≡ pass
    → IsChecked input
unfolding pull_request
pull_request_pass input limit {j} h p = elim (Option-cases (input.lifetime)) [
  | inl e ↦ absurd (ground arith)
  | inr (lifetime, e) ↦
      let passed =
        kept_pass input (both input.trust lifetime.trust) (pull_request_within input lifetime) in
      let (verified, attributed) = passed (ground arith) in
      record {
        verified = both_verified input.trust lifetime.trust verified;
        attributed = attributed;
        not_empty = ground arith;
      }
]

allowlist_pass :
    (input : PackInput) (models : ModelRows)
    → (allowlist input models).outcome ≡ pass
    → IsChecked input
unfolding allowlist
allowlist_pass input models p =
    ground (arith, kept_pass input input.trust (judged pass on_allowlist))

abbrev pub any_pass : List Result → Bool
any_pass = any (λ r. is_pass r.outcome)

is_pass-pass : (o : Outcome) → is_pass o ≡ true → o ≡ pass
is_pass-pass o h = ground arith

-- A rule that answers a pass was set, and judged it.
judged_pass :
    (set : Option Bytes) (answer : Bytes → Option Judgement) (usd percent : Bytes → Bytes)
    (rule : Rule) {rs : List Result}
    → when_set set
        (λ limit. do j ← answer limit; some (with_limit rule (usd limit) (percent limit) j))
      ≡ some rs
    → any_pass rs ≡ true
    → (limit : Bytes) × (j : Judgement) × (set ≡ some limit)
      × (answer limit ≡ some j)
      × (j.outcome ≡ pass)
unfolding when_set
judged_pass none answer usd percent rule h p = absurd (ground arith)
judged_pass (some limit) answer usd percent rule h p = elim (Option-cases (answer limit)) [
  | inl e ↦ absurd (ground arith)
  | inr (j, e) ↦ (limit, j, refl, e, ground arith)
]

run_rule_pass :
    (input : PackInput) (rule : Rule) (key : AmountKey) {rs : List Result}
    → when_set
        (input.amounts key)
        (λ limit. usd_rule rule limit (run_held input limit over_limit input.trust))
      ≡ some rs
    → any_pass rs ≡ true
    → IsChecked input
run_rule_pass input rule key h p =
    let (limit, j, set, answered, passed) =
      judged_pass (input.amounts key) (λ limit. run_held input limit over_limit input.trust)
        (λ l. l) (λ l. []) rule h p in
    let (verified, attributed, not_empty) =
      run_held_pass input limit over_limit input.trust answered passed in
    record { verified = verified; attributed = attributed; not_empty = not_empty }

-- A rule passes only on rows that were checked.
pub rule_results_pass :
    (input : PackInput) (rule : Rule) {rs : List Result}
    → rule_results input rule ≡ some rs
    → any_pass rs ≡ true
    → IsChecked input
unfolding rule_results
rule_results_pass input run_budget h p = run_rule_pass input run_budget key_run_budget h p
rule_results_pass input run_cost_threshold h p =
    run_rule_pass input run_cost_threshold key_max_run_cost h p
rule_results_pass input run_increase h p =
    let (limit, j, set, answered, passed) =
      judged_pass (input.amounts key_max_increase) (λ limit. increase input (λ b. b.max_increase))
        (λ l. l) (λ l. []) run_increase h p in
    increase_pass input (λ b. b.max_increase) answered passed
rule_results_pass input run_increase_percent h p =
    let (limit, j, set, answered, passed) =
      judged_pass (input.amounts key_max_increase_percent)
        (λ limit. increase input (λ b. b.max_increase_percent)) (λ l. []) (λ l. l)
        run_increase_percent h p in
    increase_pass input (λ b. b.max_increase_percent) answered passed
rule_results_pass input pr_budget h p =
    let (limit, j, set, answered, passed) =
      judged_pass (input.amounts key_pull_request_budget) (λ limit. pull_request input limit)
        (λ l. l) (λ l. []) pr_budget h p in
    pull_request_pass input limit answered passed
rule_results_pass input monthly_budget h p =
    let (limit, j, set, answered, passed) =
      judged_pass (input.amounts key_monthly_budget) (λ limit. some (doubt no_ledger)) (λ l. l)
        (λ l. []) monthly_budget h p in
    absurd (ground arith)
rule_results_pass input model_allowlist h p = elim (Option-cases (input.model_rows)) [
  | inl e ↦ absurd (ground arith)
  | inr (models, e) ↦ allowlist_pass input models (ground arith)
]
rule_results_pass input attribution h p = absurd (ground arith)

pub any-append : (xs ys : List Result) → any_pass (xs ++ ys) ≡ (any_pass xs || any_pass ys)
any-append [] ys = refl
any-append (x ∷ xs) ys = ground (arith, any-append xs ys)

pub results_of_pass :
    (input : PackInput) (rules : List Rule) {rs : List Result}
    → results_of input rules ≡ some rs
    → any_pass rs ≡ true
    → IsChecked input
unfolding results_of
results_of_pass input [] h p = absurd (ground arith)
results_of_pass input (rule ∷ rules) {rs} h p = elim (Option-cases (rule_results input rule)) [
  | inl e ↦ absurd (ground arith)
  | inr (first, e) ↦ elim (Option-cases (results_of input rules)) [
    | inl f ↦ absurd (ground arith)
    | inr (more, f) ↦ elim (Bool-cases (any_pass first)) [
      | inl t ↦ rule_results_pass input rule e t
      | inr n ↦ results_of_pass input rules f (ground (arith, any-append first more))
    ]
  ]
]
