-- ===== src/Policy/Proven.antt =====
-- What a success of internal/policy proves: every step from the request to the conclusion.
use costroid.Prelude.{
  ◌+◌, ◌<◌, Bool, true, false, ◌&&◌, ◌||◌, ◌≡◌, ◌≢◌, refl, sym, ap, ◌∙◌, inl, inr, Option-cases,
  List, [], ◌∷◌, ◌++◌, Option, some, any, all, map, arith,
}
use costroid.Policy.{
  Trust, token_verified, Evidence, agent_counts, success, Rule, run_budget, Settings, Result,
  CurrencyUsage,
}
use costroid.Policy.Rows.{total_of}
use costroid.Policy.Input.{PackInput}
use costroid.Policy.Request.{Request, pack_input, usage_input}
use costroid.Policy.Pack.{
  PackAnswer, is_pass, total, rule_results, when_set, results_of, rule_order, conclude,
  evaluate_pack, is_token_verified,
}
use costroid.Policy.Results.{is_demoted, demote_unmeasured, settle, is_agent_counts}
use costroid.Policy.Verdict.{Verdict, evaluate_settings, base_verdict}
use costroid.Policy.Consistent.{scoped, evaluate_settings_shape}
use costroid.Policy.Success.{any_pass, results_of_pass, any-append}

any_demoted : List Result → Bool
any_demoted = any is_demoted

-- A rule that passes is one that only measured spend may let pass.
rule_demoted :
    (input : PackInput) (rule : Rule) {rs : List Result}
    → rule_results input rule ≡ some rs
    → any_demoted rs ≡ any_pass rs
unfolding rule_results when_set any_demoted
rule_demoted input run_budget h = ground arith
rule_demoted input _ h = ground arith

demoted-append : (xs ys : List Result) → any_demoted (xs ++ ys) ≡ (any_demoted xs || any_demoted ys)
unfolding any_demoted
demoted-append [] ys = refl
demoted-append (x ∷ xs) ys = ground (arith, demoted-append xs ys)

empty_demoted :
    {rs : List Result}
    → ◌≡◌ {A = Option (List Result)} (some []) (some rs)
    → any_demoted rs ≡ any_pass rs
unfolding any_demoted
empty_demoted h = ground arith

results_demoted :
    (input : PackInput) (rules : List Rule) {rs : List Result}
    → results_of input rules ≡ some rs
    → any_demoted rs ≡ any_pass rs
unfolding results_of
results_demoted input [] h = empty_demoted h
results_demoted input (rule ∷ rules) {rs} h = elim (Option-cases (rule_results input rule)) [
  | inl e ↦ absurd (ground arith)
  | inr (first, e) ↦ elim (Option-cases (results_of input rules)) [
    | inl f ↦ absurd (ground arith)
    | inr (more, f) ↦ ground (
      arith,
      rule_demoted input rule e,
      results_demoted input rules f,
      demoted-append first more,
      any-append first more,
    )
  ]
]

changed-demote : (rs : List Result) → (demote_unmeasured rs).1 ≡ any_demoted rs
unfolding demote_unmeasured any_demoted
changed-demote [] = refl
changed-demote (r ∷ rs) = ground (arith, changed-demote rs)

success_passes :
    (rs : List Result)
    → conclude rs ≡ success
    → (any_pass rs ≡ true) × (all (λ r. is_pass r.outcome) rs ≡ true)
unfolding conclude
success_passes [] h = absurd (ground arith)
success_passes (r ∷ rs) h = ground arith

ran :
    (input : PackInput) {answer : PackAnswer}
    → evaluate_pack input ≡ some answer
    → (results_of input rule_order ≡ some answer.results)
      × (answer.conclusion ≡ conclude answer.results)
unfolding evaluate_pack
ran input h = elim (Option-cases (results_of input rule_order)) [
  | inl e ↦ absurd (ground arith)
  | inr (rs, e) ↦ (ground arith, ground arith)
]

-- The pack's success is left only by a trust and an evidence that bear it.
settle_success :
    (trust : Trust) (evidence : Evidence) (withheld : List Result) (answer : PackAnswer)
    → (settle trust evidence withheld answer).0 ≡ success
    → (answer.conclusion ≡ success)
      × (withheld ≡ [])
      × ((is_token_verified trust
            && is_agent_counts evidence
            && (demote_unmeasured (answer.results ++ withheld)).1)
          ≡ false)
unfolding settle
settle_success trust evidence [] answer h = (ground arith, refl, ground arith)
settle_success trust evidence (w ∷ ws) answer h = absurd (ground arith)

total-usage :
    (cs : List CurrencyUsage)
    → total (λ u. u.unattributed) (map usage_input cs) ≡ total_of (λ c. c.unattributed_rows) cs
total-usage [] = refl
total-usage (c ∷ cs) = ap (λ n. c.unattributed_rows + n) (total-usage cs)

not_borne :
    (t : Trust) (ev : Evidence) (c : Bool)
    → t ≡ token_verified
    → ev ≡ agent_counts
    → c ≡ true
    → (is_token_verified t && is_agent_counts ev && c) ≡ false
    → ⊥
not_borne t ev c p q r h = absurd (ground arith)

-- What a success stands on.
pub record IsProven (request : Request) (v : Verdict) : Type 0 where
  pub verified : request.trust ≡ token_verified
  pub measured : request.evidence ≢ agent_counts
  pub not_empty : 0 < request.usage.rows
  pub attributed : total_of (λ c. c.unattributed_rows) request.usage.currencies ≡ 0

-- A success is only ever stated for rows that a ledger checked against the job's token, of which
-- there are some and none unattributed, and whose spend was measured or reconciled.
pub evaluate_settings-IsProven :
    (request : Request) (settings : Settings) (ledger : Bool) {v : Verdict}
    → evaluate_settings request settings ledger ≡ some v
    → v.conclusion ≡ success
    → IsProven request v
unfolding pack_input
evaluate_settings-IsProven request settings ledger h good =
    let (answer, answered, conclusion, results) =
      evaluate_settings_shape request settings ledger h in
    let handed = scoped settings ledger in
    let active = (base_verdict request (some settings) ledger).warn_only.active in
    let input = pack_input request handed.0 active in
    let (passed, none_withheld, borne) =
      settle_success request.trust request.evidence handed.1 answer (sym conclusion ∙ good) in
    let (listed, said) = ran input answered in
    let (some_pass, all_pass) = success_passes answer.results (sym said ∙ passed) in
    let checked = results_of_pass input rule_order listed some_pass in
    let changed : (demote_unmeasured (answer.results ++ handed.1)).1 ≡ true =
      changed-demote (answer.results ++ handed.1)
      ∙ demoted-append answer.results handed.1
      ∙ ap (λ b. b || any_demoted handed.1) (results_demoted input rule_order listed ∙ some_pass) in
    record {
      verified = checked.verified;
      measured = λ e. not_borne request.trust request.evidence _ checked.verified e changed borne;
      not_empty = checked.not_empty;
      attributed = sym (total-usage request.usage.currencies) ∙ checked.attributed;
    }
