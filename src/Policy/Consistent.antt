-- ===== src/Policy/Consistent.antt =====
-- The conclusion that policy.go states is what the results that it states say.
use costroid.Prelude.{
  Bool, true, false, ◌&&◌, ◌||◌, not, ◌≡◌, refl, sym, ap, ap₂, ◌∙◌, inl, inr, Option-cases,
  if◌then◌else◌, List, [], ◌∷◌, ◌++◌, some, any, all, All, map, arith,
}
use costroid.Policy.{
  Trust, Evidence, Conclusion, success, neutral, failure, Rule, unproven, Settings, Result,
}
use costroid.Policy.Pack.{PackAnswer, is_fail, is_pass, conclude, evaluate_pack}
use costroid.Policy.Input.{PackInput}
use costroid.Policy.Request.{Request, pack_input}
use costroid.Policy.Results.{
  demote_unmeasured, withhold, without_run_rules, run_rule_key, run_cost_rules, without,
  insert_result, sort_results, with_cost, with_baseline, annotate, is_empty_list, settle,
}
use costroid.Policy.Verdict.{Verdict, evaluate_settings, base_verdict}

abbrev any_fail : List Result → Bool
any_fail = any (λ r. is_fail r.outcome)

abbrev all_pass : List Result → Bool
all_pass = all (λ r. is_pass r.outcome)

-- A conclusion by what is known of the results.
abbrev concluded : Bool → Bool → Bool → Conclusion
concluded failed empty passed =
    if failed then failure else if empty then neutral else if passed then success else neutral

conclude-concluded :
    (rs : List Result) → conclude rs ≡ concluded (any_fail rs) (is_empty_list rs) (all_pass rs)
unfolding conclude
conclude-concluded [] = refl
conclude-concluded (r ∷ rs) = refl

module _ (p : Result → Bool) where
  any-append : (xs ys : List Result) → any p (xs ++ ys) ≡ (any p xs || any p ys)
  any-append [] ys = refl
  any-append (x ∷ xs) ys = ground (arith, any-append xs ys)

  all-append : (xs ys : List Result) → all p (xs ++ ys) ≡ (all p xs && all p ys)
  all-append [] ys = refl
  all-append (x ∷ xs) ys = ground (arith, all-append xs ys)

  any-insert : (r : Result) (xs : List Result) → any p (insert_result r xs) ≡ (p r || any p xs)
  unfolding insert_result
  any-insert r [] = refl
  any-insert r (x ∷ xs) = ground (arith, any-insert r xs)

  all-insert : (r : Result) (xs : List Result) → all p (insert_result r xs) ≡ (p r && all p xs)
  unfolding insert_result
  all-insert r [] = refl
  all-insert r (x ∷ xs) = ground (arith, all-insert r xs)

  any-sort : (xs : List Result) → any p (sort_results xs) ≡ any p xs
  unfolding sort_results
  any-sort [] = refl
  any-sort (x ∷ xs) = any-insert x (sort_results xs) ∙ ap (λ b. p x || b) (any-sort xs)

  all-sort : (xs : List Result) → all p (sort_results xs) ≡ all p xs
  unfolding sort_results
  all-sort [] = refl
  all-sort (x ∷ xs) = all-insert x (sort_results xs) ∙ ap (λ b. p x && b) (all-sort xs)

empty-append :
    (xs ys : List Result) → is_empty_list (xs ++ ys) ≡ (is_empty_list xs && is_empty_list ys)
empty-append [] ys = refl
empty-append (x ∷ xs) ys = refl

empty-insert : (r : Result) (xs : List Result) → is_empty_list (insert_result r xs) ≡ false
unfolding insert_result
empty-insert r [] = refl
empty-insert r (x ∷ xs) = ground arith

empty-sort : (xs : List Result) → is_empty_list (sort_results xs) ≡ is_empty_list xs
unfolding sort_results
empty-sort [] = refl
empty-sort (x ∷ xs) = empty-insert x (sort_results xs)

-- What the withheld results say: none fails and none passes.
abbrev AllUnproven : List Result → Type 0
AllUnproven = All (λ r. r.outcome ≡ unproven)

fail-unproven : (ws : List Result) → AllUnproven ws → any_fail ws ≡ false
fail-unproven [] h = refl
fail-unproven (w ∷ ws) (e, h) = ground (arith, fail-unproven ws h)

pass-unproven : (ws : List Result) → AllUnproven ws → all_pass ws ≡ is_empty_list ws
pass-unproven [] h = refl
pass-unproven (w ∷ ws) (e, h) = ground arith

-- What demoting changes.
fail-demote : (rs : List Result) → any_fail (demote_unmeasured rs).0 ≡ any_fail rs
unfolding demote_unmeasured
fail-demote [] = refl
fail-demote (r ∷ rs) = ground (arith, fail-demote rs)

pass-demote :
    (rs : List Result)
    → all_pass (demote_unmeasured rs).0 ≡ (all_pass rs && not (demote_unmeasured rs).1)
unfolding demote_unmeasured
pass-demote [] = refl
pass-demote (r ∷ rs) = ground (arith, pass-demote rs)

empty-demote : (rs : List Result) → is_empty_list (demote_unmeasured rs).0 ≡ is_empty_list rs
unfolding demote_unmeasured
empty-demote [] = refl
empty-demote (r ∷ rs) = ground arith

-- Settling keeps the conclusion the one that the results say.
pub settle-conclude :
    (trust : Trust) (evidence : Evidence) (withheld : List Result) (answer : PackAnswer)
    → answer.conclusion ≡ conclude answer.results
    → AllUnproven withheld
    → let (conclusion, results) = settle trust evidence withheld answer in
      conclusion ≡ conclude results
unfolding settle
settle-conclude trust evidence withheld answer h unproven_all =
    let rs = answer.results in
    let both = rs ++ withheld in
    let demoted = (demote_unmeasured both).0 in
    ground (
      arith,
      conclude-concluded rs,
      conclude-concluded both,
      conclude-concluded demoted,
      any-append (λ r. is_fail r.outcome) rs withheld,
      all-append (λ r. is_pass r.outcome) rs withheld,
      empty-append rs withheld,
      fail-unproven withheld unproven_all,
      pass-unproven withheld unproven_all,
      fail-demote both,
      pass-demote both,
      empty-demote both,
    )

keep_cost :
    (request : Request) (settings : Settings) (r : Result)
    → (with_cost request settings r).outcome ≡ r.outcome
unfolding with_cost
keep_cost request settings r = ground arith

keep_baseline : (request : Request) (r : Result) → (with_baseline request r).outcome ≡ r.outcome
unfolding with_baseline
keep_baseline request r = ground arith

module _ (request : Request) (settings : Settings) where
  figures : Result → Result
  figures r = with_baseline request (with_cost request settings r)

  figures-outcome : (r : Result) → (figures r).outcome ≡ r.outcome
  unfolding figures
  figures-outcome r =
      keep_baseline request (with_cost request settings r) ∙ keep_cost request settings r

  fail-map : (rs : List Result) → any_fail (map figures rs) ≡ any_fail rs
  fail-map [] = refl
  fail-map (r ∷ rs) = ap₂ (λ o b. is_fail o || b) (figures-outcome r) (fail-map rs)

  pass-map : (rs : List Result) → all_pass (map figures rs) ≡ all_pass rs
  pass-map [] = refl
  pass-map (r ∷ rs) = ap₂ (λ o b. is_pass o && b) (figures-outcome r) (pass-map rs)

  empty-map : (rs : List Result) → is_empty_list (map figures rs) ≡ is_empty_list rs
  empty-map [] = refl
  empty-map (r ∷ rs) = refl

  conclude-map : (rs : List Result) → conclude (map figures rs) ≡ conclude rs
  conclude-map rs =
      conclude-concluded (map figures rs)
      ∙ (λ i. concluded (fail-map rs i) (empty-map rs i) (pass-map rs i))
      ∙ sym (conclude-concluded rs)

conclude-sort : (rs : List Result) → conclude (sort_results rs) ≡ conclude rs
conclude-sort rs =
    conclude-concluded (sort_results rs)
    ∙ (λ i.
        concluded (any-sort (λ r. is_fail r.outcome) rs i) (empty-sort rs i)
          (all-sort (λ r. is_pass r.outcome) rs i))
    ∙ sym (conclude-concluded rs)

-- Sorting the results and giving them figures keeps what they say.
pub conclude-annotate :
    (request : Request) (settings : Settings) (rs : List Result)
    → conclude (annotate request settings rs) ≡ conclude rs
unfolding annotate figures
conclude-annotate request settings rs =
    conclude-map request settings (sort_results rs) ∙ conclude-sort rs

evaluate_pack-conclude :
    (input : PackInput) {answer : PackAnswer}
    → evaluate_pack input ≡ some answer
    → answer.conclusion ≡ conclude answer.results
unfolding evaluate_pack
evaluate_pack-conclude input h = ground arith

withhold-AllUnproven : (rules : List Rule) (s : Settings) → AllUnproven (withhold rules s).1
unfolding withhold
withhold-AllUnproven [] s = tt
withhold-AllUnproven (rule ∷ rules) s = elim (Option-cases (run_rule_key rule)) [
  | inl e ↦ rw (e, withhold) (withhold-AllUnproven rules s)
  | inr (key, e) ↦ elim (Option-cases (s.amounts key)) [
    | inl a ↦ rw (e, withhold, a) (withhold-AllUnproven rules s)
    | inr (limit, a) ↦ rw (e, withhold, a) (refl, withhold-AllUnproven rules (without key s))
  ]
]

-- The settings that the pack is handed, and the results withheld from it.
abbrev pub scoped : Settings → Bool → Settings × List Result
scoped settings ledger = if ledger then without_run_rules settings else (settings, [])

scoped-AllUnproven : (settings : Settings) (ledger : Bool) → AllUnproven (scoped settings ledger).1
unfolding without_run_rules
scoped-AllUnproven settings false = tt
scoped-AllUnproven settings true = withhold-AllUnproven run_cost_rules settings

-- An evaluation that ran: the pack's answer, settled and annotated.
pub evaluate_settings_shape :
    (request : Request) (settings : Settings) (ledger : Bool) {v : Verdict}
    → evaluate_settings request settings ledger ≡ some v
    → let handed = scoped settings ledger in
      let active = (base_verdict request (some settings) ledger).warn_only.active in
      (answer : PackAnswer) × (evaluate_pack (pack_input request handed.0 active) ≡ some answer)
      × (v.conclusion ≡ (settle request.trust request.evidence handed.1 answer).0)
      × (v.results
          ≡ annotate request handed.0 (settle request.trust request.evidence handed.1 answer).1)
unfolding evaluate_settings
evaluate_settings_shape request settings ledger {v} h =
    let handed = scoped settings ledger in
    let active = (base_verdict request (some settings) ledger).warn_only.active in
    elim (Option-cases (evaluate_pack (pack_input request handed.0 active))) [
      | inl e ↦ absurd (ground arith)
      | inr (answer, e) ↦ (answer, e, ground arith, ground arith)
    ]

-- A verdict on settings that could be read concludes what its results say: failure when a rule
-- fails, success when there is a result and all pass, and neutral otherwise.
pub evaluate_settings-conclude :
    (request : Request) (settings : Settings) (ledger : Bool) {v : Verdict}
    → evaluate_settings request settings ledger ≡ some v
    → v.conclusion ≡ conclude v.results
evaluate_settings-conclude request settings ledger h =
    let (answer, ran, conclusion, results) = evaluate_settings_shape request settings ledger h in
    let handed = scoped settings ledger in
    let settled = settle request.trust request.evidence handed.1 answer in
    conclusion
    ∙ settle-conclude request.trust request.evidence handed.1 answer (evaluate_pack-conclude _ ran)
        (scoped-AllUnproven settings ledger)
    ∙ sym (conclude-annotate request handed.0 settled.1)
    ∙ ap conclude (sym results)
