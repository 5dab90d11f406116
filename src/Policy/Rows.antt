-- ===== src/Policy/Rows.antt =====
-- internal/policy/usage.go, `allows` of settings.go and `ledgerUsage` of policy.go: rows reduced to
-- what the pack reads. A line of the rows file comes decoded: reading JSON is not modelled. A map
-- from a currency or a model is a list with one entry for each key, in the order of first use, and
-- the code sorts what it lists of one.

use costroid.Prelude.{
  ℕ, ◌+◌, ◌==◌, ltb, leb, Ordering, Bool, true, false, ◌&&◌, ◌||◌, not, if◌then◌else◌, List, [],
  ◌∷◌, Option, none, some, ◌>>=◌, length, all, any, Bytes, bytes_eq, bytes_compare, has_prefix,
  codes,
}
use costroid.Decimal.{Decimal, zero_value, add, scale}
use costroid.Decimal.Text.{is_digit, parse}
use costroid.Policy.{Usage, CurrencyUsage}

abbrev pub max_amount_length : ℕ
max_amount_length = 64

abbrev pub max_model_length : ℕ
max_model_length = 128

abbrev pub max_named_models : ℕ
max_named_models = 10

-- `focus.MaxScale`
abbrev pub max_scale : ℕ
max_scale = 12

abbrev pub usd_code : Bytes
usd_code = codes "USD"

abbrev is_upper : ℕ → Bool
is_upper c = leb b'A' c && leb c b'Z'

abbrev is_alphanumeric : ℕ → Bool
is_alphanumeric c = is_upper c || leb b'a' c && leb c b'z' || is_digit c

abbrev is_model_byte : ℕ → Bool
is_model_byte c = is_alphanumeric c || any (λ d. c == d) (codes "._:/+-")

-- `currencyPattern`
unfoldable pub is_currency : Bytes → Bool
is_currency text = length text == 3 && all is_upper text

-- `modelPattern`
unfoldable pub is_model : Bytes → Bool
is_model [] = false
is_model (c ∷ s) = is_alphanumeric c && all is_model_byte s

-- A model id that the check can read.
unfoldable pub is_readable : Bytes → Bool
unfolding is_model
is_readable model = leb (length model) max_model_length && is_model model

-- `strings.CutSuffix(entry, "*")`
unfoldable pub cut_star : Bytes → Bytes × Bool
cut_star [] = ([], false)
cut_star (c ∷ []) = if c == b'*' then ([], true) else (c ∷ [], false)
cut_star (c ∷ d ∷ s) = let (prefix, found) = cut_star (d ∷ s) in (c ∷ prefix, found)

unfoldable pub entry_allows : Bytes → Bytes → Bool
unfolding cut_star
entry_allows entry model =
    let (prefix, wildcard) = cut_star entry in
    bytes_eq model entry || wildcard && has_prefix model prefix

unfoldable pub allows : List Bytes → Bytes → Bool
unfolding entry_allows
allows entries model = any (λ entry. entry_allows entry model) entries

-- A decoded row: the columns and the string tags that the package reads, [] for an absent tag.
pub record UsageRow : Type 0 where
  pub billing_currency : Bytes
  pub list_cost : Bytes
  pub sub_account_id : Option Bytes
  pub session_id : Bytes
  pub pr : Bytes
  pub commit_sha : Bytes
  pub model : Bytes

abbrev is_empty : Bytes → Bool
is_empty text = bytes_eq text []

unfoldable pub row_joinable : UsageRow → Bool
row_joinable r =
    let credential : Bytes = elim (r.sub_account_id) [ some id ↦ id | none ↦ [] ] in
    not (is_empty credential)
    && (not (bytes_eq credential r.session_id)
        && (not (is_empty r.pr) && not (is_empty r.commit_sha)))

unfoldable pub usd_of : List CurrencyUsage → Option Decimal
usd_of [] = none
usd_of (entry ∷ rest) =
    if bytes_eq entry.currency usd_code then some entry.list_cost else usd_of rest

-- `usd`, whose first value is 0 when no entry is in USD.
unfoldable pub usd : Usage → Decimal × Bool
unfolding usd_of
usd u = elim (usd_of u.currencies) [ some cost ↦ (cost, true) | none ↦ (zero_value, false) ]

abbrev pub total_of : (CurrencyUsage → ℕ) → List CurrencyUsage → ℕ
total_of field [] = 0
total_of field (entry ∷ rest) = field entry + total_of field rest

unfoldable pub joinable : Usage → ℕ
joinable u = total_of (λ entry. entry.joinable_rows) u.currencies

-- Adds `rows` to the count of a model.
unfoldable pub count_model : Bytes → ℕ → List (Bytes × ℕ) → List (Bytes × ℕ)
count_model model rows [] = (model, rows) ∷ []
count_model model rows ((name, n) ∷ rest) =
    if bytes_eq name model then (name, n + rows) ∷ rest else (name, n) ∷ count_model model rows rest

-- The rows of one model, or of no readable one.
unfoldable pub add_model : Bytes → ℕ → CurrencyUsage → CurrencyUsage
unfolding is_readable count_model
add_model model rows entry =
    if is_readable model
    then record entry { models = count_model model rows entry.models }
    else record entry { unreadable_models = entry.unreadable_models + rows }

unfoldable pub new_entry : Bytes → CurrencyUsage
new_entry currency = record {
  currency = currency;
  list_cost = zero_value;
  rows = 0;
  unattributed_rows = 0;
  joinable_rows = 0;
  models = [];
  unreadable_models = 0;
}

-- Changes the entry of a currency, made first where there is none.
unfoldable pub change_entry :
    Bytes → (CurrencyUsage → CurrencyUsage) → List CurrencyUsage → List CurrencyUsage
unfolding new_entry
change_entry currency change [] = change (new_entry currency) ∷ []
change_entry currency change (entry ∷ rest) =
    if bytes_eq entry.currency currency
    then change entry ∷ rest
    else entry ∷ change_entry currency change rest

-- What `add` does to the entry of a row's currency.
unfoldable pub add_to_entry : UsageRow → Decimal → CurrencyUsage → CurrencyUsage
unfolding add_model row_joinable
add_to_entry r cost entry =
    let e = add_model r.model 1 entry in
    record e {
      list_cost = add e.list_cost cost;
      rows = e.rows + 1;
      unattributed_rows = e.unattributed_rows + 1;
      joinable_rows = if row_joinable r then e.joinable_rows + 1 else e.joinable_rows;
    }

-- The cost of a row that the contract accepts.
unfoldable pub row_cost : UsageRow → Option Decimal
unfolding is_currency
row_cost r =
    if not (is_currency r.billing_currency) || ltb max_amount_length (length r.list_cost)
    then none
    else (do cost ← parse r.list_cost; if ltb max_scale (scale cost) then none else some cost)

unfoldable pub add_row : List CurrencyUsage → UsageRow → Option (List CurrencyUsage)
unfolding row_cost change_entry add_to_entry
add_row totals r = do
  cost ← row_cost r
  some (change_entry r.billing_currency (add_to_entry r cost) totals)

-- A line of the rows file: an empty one, one that is no row, or a row.
pub data Line : Type 0 where
  blank bad : Line
  row : UsageRow → Line

unfoldable pub read_lines : List CurrencyUsage → ℕ → List Line → Option (List CurrencyUsage × ℕ)
read_lines totals rows [] = some (totals, rows)
read_lines totals rows (blank ∷ lines) = read_lines totals rows lines
read_lines totals rows (bad ∷ lines) = none
read_lines totals rows (row r ∷ lines) = do
  more ← add_row totals r
  read_lines more (rows + 1) lines

unfoldable pub insert_entry : CurrencyUsage → List CurrencyUsage → List CurrencyUsage
insert_entry entry [] = entry ∷ []
insert_entry entry (e ∷ rest) = elim (bytes_compare entry.currency e.currency) [
  | Ordering.gt ↦ e ∷ insert_entry entry rest
  | _ ↦ entry ∷ e ∷ rest
]

-- `slices.SortFunc` by currency; no two entries have one currency.
unfoldable pub sort_entries : List CurrencyUsage → List CurrencyUsage
unfolding insert_entry
sort_entries [] = []
sort_entries (entry ∷ rest) = insert_entry entry (sort_entries rest)

-- `ReadUsage`. The flag says that the scanner stopped on an error, such as a line that is too long.
unfoldable pub read_usage : List Line → Bool → Option Usage
unfolding read_lines sort_entries
read_usage lines scan_failed = do
  read ← read_lines [] 0 lines
  if scan_failed then none else some (record { rows = read.1; currencies = sort_entries read.0 })

-- `LedgerLine` of policy.go.
pub record LedgerLine : Type 0 where
  pub currency : Bytes
  pub list_cost : Decimal
  pub rows : ℕ
  pub model : Bytes
  pub verified : Bool
  pub attributed : Bool

unfoldable pub add_line_to_entry : LedgerLine → CurrencyUsage → CurrencyUsage
unfolding add_model
add_line_to_entry line entry =
    let counted = record entry {
      rows = entry.rows + line.rows;
      list_cost = add entry.list_cost line.list_cost;
      unattributed_rows =
          if not line.attributed
          then entry.unattributed_rows + line.rows
          else entry.unattributed_rows;
    } in
    add_model line.model line.rows counted

unfoldable pub ledger_lines : List CurrencyUsage → ℕ → List LedgerLine → List CurrencyUsage × ℕ
unfolding change_entry add_line_to_entry
ledger_lines totals rows [] = (totals, rows)
ledger_lines totals rows (line ∷ lines) =
    ledger_lines (change_entry line.currency (add_line_to_entry line) totals) (rows + line.rows)
      lines

unfoldable pub ledger_usage : List LedgerLine → Usage
unfolding ledger_lines sort_entries
ledger_usage lines =
    let (totals, rows) = ledger_lines [] 0 lines in
    record { rows = rows; currencies = sort_entries totals }
