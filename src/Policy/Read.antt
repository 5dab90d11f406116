-- ===== src/Policy/Read.antt =====
-- internal/policy/usage.go and the ledger's `ledgerUsage`: what the readers of rows keep. Every
-- row counts once, in the entry of its currency, and no cost is negative.
use costroid.Prelude.{
  ℕ, ◌+◌, Ordering, Bool, ◌≡◌, refl, inl, inr, Bool-cases, Option-cases, List, [], ◌∷◌, some, arith,
  Bytes, bytes_eq, bytes_compare, subst,
}
use costroid.Decimal.{Decimal}
use costroid.Decimal.Text.{parse}
use costroid.Decimal.Nonneg.{IsNonneg, parse-IsNonneg, add-IsNonneg, zero_value-IsNonneg}
use costroid.Policy.{CurrencyUsage, Usage}
use costroid.Policy.Rows.{
  UsageRow, Line, blank, bad, row, total_of, add_model, new_entry, change_entry, add_to_entry,
  row_cost, add_row, read_lines, insert_entry, sort_entries, read_usage, is_readable,
}
use costroid.Policy.Total.{NonnegCosts}

-- A count of a usage's entries that a change of one entry raises by `n`.
pub total-change :
    (field : CurrencyUsage → ℕ) (currency : Bytes) (change : CurrencyUsage → CurrencyUsage) (n : ℕ)
    → ((entry : CurrencyUsage) → field (change entry) ≡ field entry + n)
    → field (new_entry currency) ≡ 0
    → (totals : List CurrencyUsage)
    → total_of field (change_entry currency change totals) ≡ total_of field totals + n
unfolding change_entry
total-change field currency change n step empty [] = ground (arith, step (new_entry currency))
total-change field currency change n step empty (e ∷ rest) =
    ground (arith, step e, total-change field currency change n step empty rest)

total-insert :
    (field : CurrencyUsage → ℕ) (e : CurrencyUsage) (rest : List CurrencyUsage)
    → total_of field (insert_entry e rest) ≡ field e + total_of field rest
unfolding insert_entry
total-insert field e [] = refl
total-insert field e (x ∷ rest) = ground (arith, total-insert field e rest)

pub total-sort :
    (field : CurrencyUsage → ℕ) (es : List CurrencyUsage)
    → total_of field (sort_entries es) ≡ total_of field es
unfolding sort_entries
total-sort field [] = refl
total-sort field (e ∷ rest) =
    ground (arith, total-insert field e (sort_entries rest), total-sort field rest)

abbrev rows_field : CurrencyUsage → ℕ
rows_field e = e.rows

abbrev unattributed_field : CurrencyUsage → ℕ
unattributed_field e = e.unattributed_rows

add_to_entry-rows :
    (r : UsageRow) (cost : Decimal) (e : CurrencyUsage) → (add_to_entry r cost e).rows ≡ e.rows + 1
unfolding add_to_entry add_model
add_to_entry-rows r cost e = ground arith

add_to_entry-unattributed :
    (r : UsageRow) (cost : Decimal) (e : CurrencyUsage)
    → (add_to_entry r cost e).unattributed_rows ≡ e.unattributed_rows + 1
unfolding add_to_entry add_model
add_to_entry-unattributed r cost e = ground arith

-- What every total of the entries keeps, or is raised by, over one row.
add_row_cases :
    (totals : List CurrencyUsage) (r : UsageRow) {more : List CurrencyUsage}
    → add_row totals r ≡ some more
    → (cost : Decimal) × (row_cost r ≡ some cost)
      × (change_entry r.billing_currency (add_to_entry r cost) totals ≡ more)
unfolding add_row
add_row_cases totals r h = elim (Option-cases (row_cost r)) [
  | inl e ↦ absurd (ground arith)
  | inr (cost, e) ↦ (cost, e, ground arith)
]

abbrev Counted : List CurrencyUsage → ℕ → List CurrencyUsage → ℕ → Type 0
Counted from n to m =
    (total_of rows_field to + n ≡ total_of rows_field from + m)
    × (total_of unattributed_field to + n ≡ total_of unattributed_field from + m)

add_row-Counted :
    (totals : List CurrencyUsage) (n : ℕ) (r : UsageRow) {more : List CurrencyUsage}
    → add_row totals r ≡ some more
    → Counted totals n more (n + 1)
unfolding new_entry
add_row-Counted totals n r h =
    let (cost, e, same) = add_row_cases totals r h in
    let change = add_to_entry r cost in
    subst (λ m. Counted totals n m (n + 1)) same
      (
        omega (
          arith,
          total-change rows_field r.billing_currency change 1 (add_to_entry-rows r cost) refl
              totals,
        ),
        omega (
          arith,
          total-change unattributed_field r.billing_currency change 1
              (add_to_entry-unattributed r cost) refl totals,
        ),
      )

-- Reading lines raises each of two counts by the rows read.
read_lines-Counted :
    (totals : List CurrencyUsage) (n : ℕ) (lines : List Line) {out : List CurrencyUsage × ℕ}
    → read_lines totals n lines ≡ some out
    → Counted totals n out.0 out.1
unfolding read_lines
read_lines-Counted totals n [] {out} h =
    let same : (totals, n) ≡ out = ground arith in
    subst (λ o. Counted totals n o.0 o.1) same (refl, refl)
read_lines-Counted totals n (blank ∷ lines) h = read_lines-Counted totals n lines h
read_lines-Counted totals n (bad ∷ lines) h = absurd (ground arith)
read_lines-Counted totals n (row r ∷ lines) {out} h = elim (Option-cases (add_row totals r)) [
  | inl e ↦ absurd (ground arith)
  | inr (more, e) ↦
      let (rows, unattributed) = read_lines-Counted more (n + 1) lines {out = out} (ground arith) in
      let (one, other) = add_row-Counted totals n r e in (omega arith, omega arith)
]

-- A usage that was read: what its lines gave, sorted.
read_usage_cases :
    (lines : List Line) (scan_failed : Bool) {u : Usage}
    → read_usage lines scan_failed ≡ some u
    → (out : List CurrencyUsage × ℕ) × (read_lines [] 0 lines ≡ some out)
      × (record { rows = out.1; currencies = sort_entries out.0 } ≡ u)
unfolding read_usage
read_usage_cases lines scan_failed h = elim (Option-cases (read_lines [] 0 lines)) [
  | inl e ↦ absurd (ground arith)
  | inr (out, e) ↦ (out, e, ground arith)
]

-- The rows of a usage that `ReadUsage` gives are those of its entries, and none of them counts as
-- attributed.
pub read_usage-rows :
    (lines : List Line) (scan_failed : Bool) {u : Usage}
    → read_usage lines scan_failed ≡ some u
    → (total_of (λ e. e.rows) u.currencies ≡ u.rows)
      × (total_of (λ e. e.unattributed_rows) u.currencies ≡ u.rows)
read_usage-rows lines scan_failed h =
    let (out, read, same) = read_usage_cases lines scan_failed h in
    let (rows, unattributed) = read_lines-Counted [] 0 lines read in
    subst
      (λ u.
        (total_of rows_field u.currencies ≡ u.rows)
        × (total_of unattributed_field u.currencies ≡ u.rows))
      same
      (
        omega (arith, total-sort rows_field out.0),
        omega (arith, total-sort unattributed_field out.0),
      )

pub nonneg-change :
    (currency : Bytes) (change : CurrencyUsage → CurrencyUsage)
    → ((e : CurrencyUsage) → IsNonneg e.list_cost → IsNonneg (change e).list_cost)
    → (totals : List CurrencyUsage) → NonnegCosts totals
    → NonnegCosts (change_entry currency change totals)
unfolding change_entry new_entry
nonneg-change currency change keep [] h = (keep (new_entry currency) zero_value-IsNonneg, h)
nonneg-change currency change keep (e ∷ rest) (p, h) =
    elim (Bool-cases (bytes_eq e.currency currency)) [
      | inl same ↦ rw (change_entry, same) (keep e p, h)
      | inr other ↦ rw (change_entry, other) (p, nonneg-change currency change keep rest h)
    ]

nonneg-insert :
    (e : CurrencyUsage) (rest : List CurrencyUsage)
    → IsNonneg e.list_cost
    → NonnegCosts rest
    → NonnegCosts (insert_entry e rest)
unfolding insert_entry
nonneg-insert e [] p h = (p, h)
nonneg-insert e (x ∷ rest) p (q, h) =
    elim (bytes_compare e.currency x.currency)
      as (λ o. NonnegCosts (elim o [ Ordering.gt ↦ x ∷ insert_entry e rest | _ ↦ e ∷ x ∷ rest ])) [
        | Ordering.gt ↦ (q, nonneg-insert e rest p h)
        | Ordering.eq ↦ (p, (q, h))
        | Ordering.lt ↦ (p, (q, h))
      ]

pub nonneg-sort : (es : List CurrencyUsage) → NonnegCosts es → NonnegCosts (sort_entries es)
unfolding sort_entries
nonneg-sort [] h = h
nonneg-sort (e ∷ rest) (p, h) = nonneg-insert e (sort_entries rest) p (nonneg-sort rest h)

row_cost-IsNonneg : (r : UsageRow) (cost : Decimal) → row_cost r ≡ some cost → IsNonneg cost
unfolding row_cost
row_cost-IsNonneg r cost h = elim (Option-cases (parse r.list_cost)) [
  | inl e ↦ absurd (ground arith)
  | inr (d, e) ↦ parse-IsNonneg r.list_cost (ground arith)
]

add_to_entry-IsNonneg :
    (r : UsageRow) (cost : Decimal)
    → IsNonneg cost
    → (e : CurrencyUsage) → IsNonneg e.list_cost
    → IsNonneg (add_to_entry r cost e).list_cost
unfolding add_to_entry add_model
add_to_entry-IsNonneg r cost q e p = elim (Bool-cases (is_readable r.model)) [
  | inl f ↦ rw (add_to_entry, add_model, f) (add-IsNonneg e.list_cost cost p q)
  | inr f ↦ rw (add_to_entry, add_model, f) (add-IsNonneg e.list_cost cost p q)
]

read_lines-NonnegCosts :
    (totals : List CurrencyUsage) (n : ℕ) (lines : List Line) {out : List CurrencyUsage × ℕ}
    → NonnegCosts totals
    → read_lines totals n lines ≡ some out
    → NonnegCosts out.0
unfolding read_lines
read_lines-NonnegCosts totals n [] {out} p h =
    let same : (totals, n) ≡ out = ground arith in subst (λ o. NonnegCosts o.0) same p
read_lines-NonnegCosts totals n (blank ∷ lines) p h = read_lines-NonnegCosts totals n lines p h
read_lines-NonnegCosts totals n (bad ∷ lines) p h = absurd (ground arith)
read_lines-NonnegCosts totals n (row r ∷ lines) {out} p h = elim (Option-cases (add_row totals r)) [
  | inl e ↦ absurd (ground arith)
  | inr (more, e) ↦
      let (cost, f, same) = add_row_cases totals r e in
      let grown =
        nonneg-change r.billing_currency (add_to_entry r cost)
          (add_to_entry-IsNonneg r cost (row_cost-IsNonneg r cost f)) totals p in
      read_lines-NonnegCosts more (n + 1) lines {out = out} (subst NonnegCosts same grown)
        (ground arith)
]

-- `ReadUsage` gives no cost that is negative.
pub read_usage-NonnegCosts :
    (lines : List Line) (scan_failed : Bool) {u : Usage}
    → read_usage lines scan_failed ≡ some u
    → NonnegCosts u.currencies
read_usage-NonnegCosts lines scan_failed h =
    let (out, read, same) = read_usage_cases lines scan_failed h in
    subst (λ u. NonnegCosts u.currencies) same
      (nonneg-sort out.0 (read_lines-NonnegCosts [] 0 lines tt read))
