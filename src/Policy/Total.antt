-- ===== src/Policy/Total.antt =====
-- internal/policy on amounts that are not negative, the only ones that its readers give it: the pack
-- always answers, and it compares the amounts themselves.
use costroid.Prelude.{
  Bool, true, ◌&&◌, ltb, ◌≡◌, ◌⊎◌, refl, inl, inr, Bool-cases, Option-cases, List, [], ◌∷◌, ◌++◌,
  Option, none, some, ◌>>=◌, any, all, All, map, arith, Bytes, bytes_eq,
}
use costroid.Decimal.{Decimal, cmp}
use costroid.Decimal.Text.{string}
use costroid.Decimal.Nonneg.{IsNonneg, compare_texts}
use costroid.Policy.{
  Trust, pass, unproven, outside_allowlist, on_allowlist, no_ledger, Rule, run_budget,
  run_cost_threshold, run_increase, run_increase_percent, pr_budget, monthly_budget,
  model_allowlist, attribution, Reason, over_limit, over_baseline, AmountKey, key_run_budget,
  key_max_run_cost, key_max_increase, key_max_increase_percent, key_pull_request_budget,
  key_monthly_budget, CurrencyUsage, Result,
}
use costroid.Policy.Rows.{usd_code}
use costroid.Policy.Input.{PackInput, PackBaseline, PackLifetime, ModelRows}
use costroid.Policy.Request.{usage_input}
use costroid.Policy.Pack.{
  Judgement, judged, compare_decimal, is_gt, over, broken, kept, within_limits, run_held, increase,
  pull_request_within, pull_request, allowlist, with_limit, when_set, rule_results, rule_order,
  results_of, total, PackAnswer, pack_reason, check, evaluate_pack,
}

-- Some entry in USD costs more than the limit.
abbrev pub costs_over : Decimal → List CurrencyUsage → Bool
costs_over limit = any (λ c. bytes_eq c.currency usd_code && is_gt (cmp c.list_cost limit))

abbrev pub NonnegCosts : List CurrencyUsage → Type 0
NonnegCosts = All (λ c. IsNonneg c.list_cost)

compare_decimal-string :
    (d e : Decimal)
    → IsNonneg d
    → IsNonneg e
    → compare_decimal (string d) (string e) ≡ some (cmp d e)
unfolding compare_decimal
compare_decimal-string = compare_texts

-- On the texts that the pack is handed of costs and a limit that are not negative, `over`
-- answers, and says whether an entry in USD costs more than the limit.
pub over-costs_over :
    (cs : List CurrencyUsage) (limit : Decimal)
    → NonnegCosts cs
    → IsNonneg limit
    → over (map usage_input cs) (string limit) ≡ some (costs_over limit cs)
unfolding over
over-costs_over [] limit h p = refl
over-costs_over (c ∷ cs) limit (q, h) p =
    ground (arith, over-costs_over cs limit h p, compare_decimal-string c.list_cost limit q p)

-- A judgement is there, and gives a reason that a pack may give.
abbrev pub Answers : Option Judgement → Type 0
Answers o = (j : Judgement) × (o ≡ some j) × (pack_reason j.reason ≡ true)

abbrev pub Lists : Option (List Result) → Type 0
Lists o = (rs : List Result) × (o ≡ some rs) × (all (λ r. pack_reason r.reason) rs ≡ true)

-- A text that `String` wrote of an amount that is not negative, where there is one.
abbrev pub Written : Option Bytes → Type 0
Written o = (o ≡ none) ⊎ ((d : Decimal) × IsNonneg d × (o ≡ some (string d)))

pub record IsWritten (input : PackInput) : Type 0 where
  pub costs :
      (limit : Decimal) → IsNonneg limit → (b : Bool) × (over input.usage (string limit) ≡ some b)
  pub amounts : (key : AmountKey) → Written (input.amounts key)
  pub increases :
      (b : PackBaseline)
      → input.baseline ≡ some b
      → Written b.max_increase × Written b.max_increase_percent
  pub lifetimes :
      (l : PackLifetime)
      → input.lifetime ≡ some l
      → (d : Decimal) × IsNonneg d × (l.total_usd ≡ string d)

broken-reason :
    (input : PackInput) (reason : Reason)
    → pack_reason reason ≡ true
    → pack_reason (broken input reason).reason ≡ true
unfolding broken
broken-reason input reason h = ground arith

kept-reason :
    (input : PackInput) (trust : Trust) (j : Judgement)
    → pack_reason j.reason ≡ true
    → pack_reason (kept input trust j).reason ≡ true
unfolding kept
kept-reason input trust j h = ground arith

within_limits-reason : (input : PackInput) → pack_reason (within_limits input).reason ≡ true
unfolding within_limits
within_limits-reason input = ground arith

within-reason :
    (input : PackInput) (l : PackLifetime) → pack_reason (pull_request_within input l).reason ≡ true
unfolding pull_request_within
within-reason input l = ground (arith, within_limits-reason input)

module _ (input : PackInput) (w : IsWritten input) where
  run_held-Answers :
      (limit : Decimal) (reason : Reason) (trust : Trust)
      → IsNonneg limit
      → pack_reason reason ≡ true
      → Answers (run_held input (string limit) reason trust)
  unfolding run_held
  run_held-Answers limit reason trust p h =
      let (b, e) = w.costs limit p in
      rw e (
        _,
        refl,
        ground (
          arith,
          broken-reason input reason h,
          kept-reason input trust (within_limits input) (within_limits-reason input),
        ),
      )

  increase-Answers :
      (setting : PackBaseline → Option Bytes)
      → ((b : PackBaseline) → input.baseline ≡ some b → Written (setting b))
      → Answers (increase input setting)
  unfolding increase
  increase-Answers setting set = elim (Option-cases input.baseline) [
    | inl e ↦ rw e (_, refl, refl)
    | inr (b, e) ↦ elim (set b e) [
      | inl none_set ↦ rw (increase, e, none_set) (_, refl, refl)
      | inr (d, p, d_set) ↦ rw (increase, e, d_set) (run_held-Answers d over_baseline _ p refl)
    ]
  ]

  pull_request-Answers :
      (limit : Decimal) → IsNonneg limit → Answers (pull_request input (string limit))
  unfolding pull_request
  pull_request-Answers limit p = elim (Option-cases input.lifetime) [
    | inl e ↦ rw e (_, refl, refl)
    | inr (l, e) ↦
        let (d, q, f) = w.lifetimes l e in
        elim (Bool-cases l.may_repeat) [
          | inl repeat ↦ rw (pull_request, e, repeat) (_, refl, refl)
          | inr once ↦
              rw (pull_request, e, once, f, compare_decimal-string d limit q p)
                (
                  _,
                  refl,
                  ground (
                    arith,
                    broken-reason input over_limit refl,
                    kept-reason input _ (pull_request_within input l) (within-reason input l),
                  ),
                )
        ]
  ]

  allowlist-reason : (m : ModelRows) → pack_reason (allowlist input m).reason ≡ true
  unfolding allowlist
  allowlist-reason m = ground (
    arith,
    broken-reason input outside_allowlist refl,
    kept-reason input input.trust (judged pass on_allowlist) refl,
  )

  -- A rule on an amount, from what it answers for one.
  set-Lists :
      (rule : Rule) (usd percent : Bytes → Bytes) (answer : Bytes → Option Judgement)
      (amount : Option Bytes)
      → Written amount
      → ((d : Decimal) → IsNonneg d → Answers (answer (string d)))
      → Lists (
          when_set amount
            (λ limit. do j ← answer limit; some (with_limit rule (usd limit) (percent limit) j)))
  unfolding when_set
  set-Lists rule usd percent answer amount (inl e) h = rw e ([], refl, refl)
  set-Lists rule usd percent answer amount (inr (d, p, e)) h =
      let (j, f, g) = h d p in rw (e, f) (_, refl, ground arith)

  rule_results-Lists : (rule : Rule) → Lists (rule_results input rule)
  unfolding rule_results
  rule_results-Lists run_budget =
      set-Lists run_budget (λ l. l) (λ l. []) _ _ (w.amounts key_run_budget)
        (λ d p. run_held-Answers d over_limit input.trust p refl)
  rule_results-Lists run_cost_threshold =
      set-Lists run_cost_threshold (λ l. l) (λ l. []) _ _ (w.amounts key_max_run_cost)
        (λ d p. run_held-Answers d over_limit input.trust p refl)
  rule_results-Lists run_increase =
      set-Lists run_increase (λ l. l) (λ l. []) _ _ (w.amounts key_max_increase)
        (λ d p. increase-Answers (λ b. b.max_increase) (λ b e. (w.increases b e).0))
  rule_results-Lists run_increase_percent =
      set-Lists run_increase_percent (λ l. []) (λ l. l) _ _ (w.amounts key_max_increase_percent)
        (λ d p. increase-Answers (λ b. b.max_increase_percent) (λ b e. (w.increases b e).1))
  rule_results-Lists pr_budget =
      set-Lists pr_budget (λ l. l) (λ l. []) _ _ (w.amounts key_pull_request_budget)
        pull_request-Answers
  rule_results-Lists monthly_budget =
      set-Lists monthly_budget (λ l. l) (λ l. []) (λ l. some (judged unproven no_ledger)) _
        (w.amounts key_monthly_budget) (λ d p. (_, refl, refl))
  rule_results-Lists model_allowlist = elim (Option-cases input.model_rows) [
    | inl e ↦ rw (rule_results, e) ([], refl, refl)
    | inr (m, e) ↦ rw (rule_results, e) (_, refl, ground (arith, allowlist-reason m))
  ]
  rule_results-Lists attribution = elim (Bool-cases (ltb 0 (total (λ u. u.joinable) input.usage))) [
    | inl e ↦ rw (rule_results, e) (_, refl, refl)
    | inr e ↦ rw (rule_results, e) (_, refl, refl)
  ]

  reasons-append :
      (xs ys : List Result)
      → all (λ r. pack_reason r.reason) xs ≡ true
      → all (λ r. pack_reason r.reason) ys ≡ true
      → all (λ r. pack_reason r.reason) (xs ++ ys) ≡ true
  reasons-append [] ys h k = k
  reasons-append (x ∷ xs) ys h k = ground (arith, reasons-append xs ys)

  results_of-Lists : (rules : List Rule) → Lists (results_of input rules)
  unfolding results_of
  results_of-Lists [] = ([], refl, refl)
  results_of-Lists (rule ∷ rules) =
      let (here, e, p) = rule_results-Lists rule in
      let (more, f, q) = results_of-Lists rules in
      rw (e, f) (here ++ more, refl, reasons-append here more p q)

  pub evaluate_pack-some : (answer : PackAnswer) × (evaluate_pack input ≡ some answer)
  unfolding evaluate_pack check
  evaluate_pack-some = let (rs, e, p) = results_of-Lists rule_order in rw (e, p) (_, refl)
