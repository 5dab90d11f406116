-- ===== src/History.antt =====
-- The earlier reports of a pull request added up: internal/history/history.go (`Earlier`), with `FigureCost` of
-- internal/comment/lifetime.go. The reports come decoded; reading them over the code host is outside.

pub mod Repeats
use costroid.Prelude.{
  ◌==◌, Bool, true, false, ◌&&◌, ◌||◌, not, if◌then◌else◌, List, [], ◌∷◌, Option, none, some, ◌>>=◌,
  Bytes, bytes_eq, any, codes,
}
use costroid.Decimal.{Decimal, zero_value, add}
use costroid.Decimal.Text.{parse}
use costroid.Policy.{Lifetime, unverified}
use costroid.Policy.Rows.{is_currency}

-- A figure of a report's block, as far as it is added up.
pub record Figure : Type 0 where
  pub figure_currency : Bytes
  pub figure_basis : Bytes
  pub figure_cost : Bytes

-- `Report`; the digest is empty where the object states none.
pub record Report : Type 0 where
  pub rows_sha256 : Bytes
  pub figures : List Figure

-- The keys of `basisLabels`
abbrev pub bases : List Bytes
bases =
    codes "measured"
    ∷ codes "list_equivalent"
    ∷ codes "estimate"
    ∷ codes "billed"
    ∷ codes "derived"
    ∷ []

unfoldable pub cost_of : Figure → Option Decimal
unfolding is_currency
cost_of figure =
    if not (is_currency figure.figure_currency)
    then none
    else if not (any (λ basis. bytes_eq basis figure.figure_basis) bases)
    then none
    else parse figure.figure_cost

-- The inner loop of `Earlier`.
unfoldable pub add_figures : List Figure → Lifetime → Option Lifetime
unfolding cost_of
add_figures [] earlier = some earlier
add_figures (figure ∷ rest) earlier = do
  cost ← cost_of figure
  add_figures rest (
      if bytes_eq figure.figure_currency (codes "USD")
      then record earlier { usd = add earlier.usd cost }
      else record earlier { other_currency = true })

abbrev pub is_absent : Bytes → Bool
is_absent [] = true
is_absent (c ∷ s) = false

abbrev pub is_seen : Bytes → List Bytes → Bool
is_seen digest seen = any (λ d. bytes_eq d digest) seen

abbrev has_figures : List Figure → Bool
has_figures [] = false
has_figures (f ∷ figures) = true

abbrev pub Running : Type 0
Running = Lifetime × List Bytes

-- Whether `Earlier` passes over a report.
abbrev pub is_repeat : Report → List Bytes → Bool
is_repeat report seen = not (is_absent report.rows_sha256) && is_seen report.rows_sha256 seen

-- One round of `Earlier`: the total so far, and the digests seen.
unfoldable pub add_report : Bytes → Report → Running → Option Running
unfolding add_figures
add_report own report (earlier, seen) = if is_repeat report seen then some (earlier, seen) else do
  total ← add_figures report.figures (
      if has_figures report.figures && (is_absent report.rows_sha256 || is_absent own)
      then record earlier { may_repeat = true }
      else earlier)
  some (total, if is_absent report.rows_sha256 then seen else report.rows_sha256 ∷ seen)

unfoldable pub add_reports : Bytes → List Report → Running → Option Running
unfolding add_report
add_reports own [] running = some running
add_reports own (report ∷ reports) running = do
  next ← add_report own report running
  add_reports own reports next

-- `Earlier`, of the reports and the digest of this run's own.
unfoldable pub earlier_total : List Report → Bytes → Option Lifetime
unfolding add_reports
earlier_total reports own = do
  done ← add_reports own reports (
    record { usd = zero_value; other_currency = false; may_repeat = false; trust = unverified },
    if is_absent own then [] else own ∷ [],
  )
  some (done.0)
