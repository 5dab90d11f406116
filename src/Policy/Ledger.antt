-- ===== src/Policy/Ledger.antt =====
-- internal/policy/policy.go: what `Evaluate` and `EvaluateLedger` can conclude of the rows that
-- each of them is given.
use costroid.Prelude.{
  ℕ, ◌+◌, ◌<◌, Bool, true, false, not, ◌≡◌, ◌≢◌, refl, ap, ◌∙◌, inl, inr, Bool-cases, Option-cases,
  if◌then◌else◌, List, [], ◌∷◌, some, any, All, arith,
}
use costroid.Decimal.Nonneg.{IsNonneg, add-IsNonneg}
use costroid.Policy.{token_verified, agent_counts, success, CurrencyUsage}
use costroid.Policy.Rows.{
  Line, total_of, add_model, new_entry, change_entry, read_usage, is_readable, LedgerLine,
  add_line_to_entry, ledger_lines, ledger_usage,
}
use costroid.Policy.Config.{Yaml}
use costroid.Policy.Request.{Request, config_settings}
use costroid.Policy.Verdict.{
  Verdict, base_verdict, evaluate_scoped, evaluate, LedgerRequest, ledger_request, ledger_trust,
  evaluate_ledger,
}
use costroid.Policy.Proven.{IsProven, evaluate_settings-IsProven}
use costroid.Policy.Total.{NonnegCosts}
use costroid.Policy.Read.{total-change, total-sort, nonneg-change, nonneg-sort, read_usage-rows}
use costroid.Policy.Answered.{evaluate_scoped-some}

evaluate_scoped-IsProven :
    (y : Yaml) (request : Request) (ledger : Bool) {v : Verdict}
    → evaluate_scoped y request ledger ≡ some v
    → v.conclusion ≡ success
    → IsProven request v
unfolding evaluate_scoped base_verdict
evaluate_scoped-IsProven y request ledger h good =
    elim (Option-cases (config_settings y request.config)) [
      | inl e ↦ absurd (ground arith)
      | inr (settings, e) ↦ evaluate_settings-IsProven request settings ledger (ground arith) good
    ]

-- `Evaluate` reads rows that nothing attributed, so it states no success of a usage that
-- `ReadUsage` gives.
pub evaluate-no_success :
    (y : Yaml) (request : Request) (lines : List Line) (scan_failed : Bool) {v : Verdict}
    → read_usage lines scan_failed ≡ some request.usage
    → evaluate y request ≡ some v
    → v.conclusion ≢ success
unfolding evaluate
evaluate-no_success y request lines scan_failed read h good =
    let proven = evaluate_scoped-IsProven y request false h good in
    let (rows, unattributed) = read_usage-rows lines scan_failed read in
    omega (arith, proven.not_empty, proven.attributed)

-- The rows of the lines that `count` chooses.
abbrev pub line_rows : (LedgerLine → Bool) → List LedgerLine → ℕ
line_rows count [] = 0
line_rows count (line ∷ lines) = (if count line then line.rows else 0) + line_rows count lines

abbrev every_line : LedgerLine → Bool
every_line line = true

abbrev unattributed_line : LedgerLine → Bool
unattributed_line line = not line.attributed

add_line-unattributed :
    (line : LedgerLine) (e : CurrencyUsage)
    → (add_line_to_entry line e).unattributed_rows
      ≡ e.unattributed_rows + (if unattributed_line line then line.rows else 0)
unfolding add_line_to_entry add_model
add_line-unattributed line e = ground arith

ledger_lines-rows :
    (totals : List CurrencyUsage) (n : ℕ) (lines : List LedgerLine)
    → (ledger_lines totals n lines).1 ≡ n + line_rows every_line lines
unfolding ledger_lines
ledger_lines-rows totals n [] = omega arith
ledger_lines-rows totals n (line ∷ lines) = ground (
  arith,
  ledger_lines-rows (change_entry line.currency (add_line_to_entry line) totals) (n + line.rows)
      lines,
)

ledger_lines-unattributed :
    (totals : List CurrencyUsage) (n : ℕ) (lines : List LedgerLine)
    → total_of (λ e. e.unattributed_rows) (ledger_lines totals n lines).0
      ≡ total_of (λ e. e.unattributed_rows) totals + line_rows unattributed_line lines
unfolding ledger_lines new_entry
ledger_lines-unattributed totals n [] = omega arith
ledger_lines-unattributed totals n (line ∷ lines) =
    let more = change_entry line.currency (add_line_to_entry line) totals in
    let grown =
      total-change (λ e. e.unattributed_rows) line.currency (add_line_to_entry line)
        (if unattributed_line line then line.rows else 0) (add_line-unattributed line) refl
        totals in
    let rest = ledger_lines-unattributed more (n + line.rows) lines in
    rest ∙ ap (λ k. k + line_rows unattributed_line lines) grown ∙ omega arith

trusted_lines :
    (lines : List LedgerLine)
    → ledger_trust lines ≡ token_verified
    → All (λ line. line.verified ≡ true) lines
unfolding ledger_trust
trusted_lines lines h = all_verified lines (ground arith)
  where
    all_verified :
        (ls : List LedgerLine)
        → any (λ line. not line.verified) ls ≡ false
        → All (λ line. line.verified ≡ true) ls
    all_verified [] p = tt
    all_verified (l ∷ ls) p = (ground arith, all_verified ls (ground arith))

-- A success that `EvaluateLedger` states stands on lines that were all verified, whose spend was
-- measured or reconciled, that count a row at least and leave none unattributed.
pub evaluate_ledger-success :
    (y : Yaml) (r : LedgerRequest) {v : Verdict}
    → evaluate_ledger y r ≡ some v
    → v.conclusion ≡ success
    → All (λ line. line.verified ≡ true) r.lines
      × (r.evidence ≢ agent_counts)
      × (0 < line_rows (λ line. true) r.lines)
      × (line_rows (λ line. not line.attributed) r.lines ≡ 0)
unfolding evaluate_ledger ledger_usage
evaluate_ledger-success y r h good =
    let proven = evaluate_scoped-IsProven y (ledger_request r) true h good in
    (
      trusted_lines r.lines proven.verified,
      proven.measured,
      omega (arith, proven.not_empty, ledger_lines-rows [] 0 r.lines),
      omega (
        arith,
        proven.attributed,
        ledger_lines-unattributed [] 0 r.lines,
        total-sort (λ e. e.unattributed_rows) (ledger_lines [] 0 r.lines).0,
      ),
    )

ledger_lines-NonnegCosts :
    (totals : List CurrencyUsage) (n : ℕ) (lines : List LedgerLine)
    → NonnegCosts totals
    → All (λ line. IsNonneg line.list_cost) lines
    → NonnegCosts (ledger_lines totals n lines).0
unfolding ledger_lines add_line_to_entry add_model
ledger_lines-NonnegCosts totals n [] p h = p
ledger_lines-NonnegCosts totals n (line ∷ lines) p (q, h) =
    ledger_lines-NonnegCosts (change_entry line.currency (add_line_to_entry line) totals)
      (n + line.rows) lines (nonneg-change line.currency (add_line_to_entry line) grows totals p) h
  where
    grows :
        (e : CurrencyUsage) → IsNonneg e.list_cost → IsNonneg (add_line_to_entry line e).list_cost
    grows e k = elim (Bool-cases (is_readable line.model)) [
      | inl f ↦ rw (add_line_to_entry, add_model, f) (add-IsNonneg e.list_cost line.list_cost k q)
      | inr f ↦ rw (add_line_to_entry, add_model, f) (add-IsNonneg e.list_cost line.list_cost k q)
    ]

-- `EvaluateLedger` gives a verdict on every request whose lines cost no negative amount.
pub evaluate_ledger-some :
    (y : Yaml) (r : LedgerRequest)
    → All (λ line. IsNonneg line.list_cost) r.lines
    → (v : Verdict) × (evaluate_ledger y r ≡ some v)
unfolding evaluate_ledger ledger_usage
evaluate_ledger-some y r h =
    evaluate_scoped-some y (ledger_request r) true
      (nonneg-sort _ (ledger_lines-NonnegCosts [] 0 r.lines tt h))
