-- ===== src/Catalog.antt =====
-- internal/catalog/catalog.go: what a token class costs, from the pinned price sheets. The files of a
-- release come decoded, and the day of an instant, which the time package formats, is a parameter.
-- A failed lookup drops the half-filled price that the code returns beside an error.

pub mod First
pub mod Priced
pub mod Source
pub mod Quote
use costroid.Prelude.{
  ℕ, Ordering, Bool, true, false, ◌&&◌, ◌||◌, not, if◌then◌else◌, List, [], ◌∷◌, Option, none, some,
  Bytes, bytes_eq, bytes_compare, any, codes,
}
use costroid.Prelude.Int.{ℤ, compare_ℤ}
use costroid.Decimal.{Decimal, mul}
use costroid.Decimal.Text.{parse}

abbrev pub region_global : Bytes
region_global = codes "global"

pub record Query : Type 0 where
  pub provider : Bytes
  pub model : Bytes
  pub class : Bytes
  pub service_tier : Bytes
  pub region : Bytes
  pub context_input_tokens : ℤ
  pub at : ℕ

pub record Price : Type 0 where
  pub sku_price_id : Bytes
  pub list_unit_price : Decimal
  pub pricing_unit : Bytes
  pub fallback : Bool
  pub fallback_basis : Bytes
  pub residency_multiplier : Option Decimal
  pub context_tier_min : Option ℤ
  pub context_tier_max : Option ℤ

-- `row`; a nil pointer is `none`.
pub record SheetRow : Type 0 where
  pub row_type : Bytes
  pub sku_price_id : Bytes
  pub model_id : Bytes
  pub region_id : Bytes
  pub service_tier : Bytes
  pub context_tier_min : Option ℤ
  pub context_tier_max : Option ℤ
  pub token_class : Bytes
  pub list_unit_price : Bytes
  pub pricing_unit : Bytes
  pub effective_end : Option Bytes
  pub fallback_basis : Bytes
  pub modifier_kind : Bytes
  pub multiplier : Bytes
  pub applies_to_models : List Bytes

pub record Sheet : Type 0 where
  pub provider : Bytes
  pub service_provider_name : Bytes
  pub rows : List SheetRow

-- `Catalog`, with its map from a provider to its sheet.
pub record Catalog : Type 0 where
  pub version : Bytes
  pub sheets : List (Bytes × Sheet)

-- `errors.New` and `fmt.Errorf`, by what they report.
pub data LookupError : Type 0 where
  no_sheet no_price bad_amount : LookupError

pub data Answer : Type 0 where
  answered : Price → Answer
  failed : LookupError → Answer

unfoldable pub find_sheet : Bytes → List (Bytes × Sheet) → Option Sheet
find_sheet provider [] = none
find_sheet provider ((name, sheet) ∷ rest) =
    if bytes_eq name provider then some sheet else find_sheet provider rest

-- The map's assignment: a later file of a provider takes the place of an earlier one.
unfoldable pub put_sheet : Sheet → List (Bytes × Sheet) → List (Bytes × Sheet)
put_sheet sheet [] = (sheet.provider, sheet) ∷ []
put_sheet sheet ((name, other) ∷ rest) =
    if bytes_eq name sheet.provider
    then (sheet.provider, sheet) ∷ rest
    else (name, other) ∷ put_sheet sheet rest

unfoldable pub put_sheets :
    List (Option Sheet) → List (Bytes × Sheet) → Option (List (Bytes × Sheet))
unfolding put_sheet
put_sheets [] sheets = some sheets
put_sheets (none ∷ files) sheets = none
put_sheets (some sheet ∷ files) sheets = put_sheets files (put_sheet sheet sheets)

-- `Parse`, on the files of a release: `none` is one that could not be read or decoded.
unfoldable pub parse_release : Bytes → List (Option Sheet) → Option Catalog
unfolding put_sheets
parse_release version [] = none
parse_release version (file ∷ files) = elim (put_sheets (file ∷ files) []) [
  | none ↦ none
  | some sheets ↦ some (record { version = version; sheets = sheets })
]

unfoldable pub service_provider_name : Catalog → Bytes → Option Bytes
service_provider_name c provider = elim (find_sheet provider c.sheets) [
  | none ↦ none
  | some sheet ↦ some sheet.service_provider_name
]

abbrev pub le_ℤ : ℤ → ℤ → Bool
le_ℤ a b = elim (compare_ℤ a b) [ Ordering.gt ↦ false | _ ↦ true ]

abbrev pub within_tier : Option ℤ → Option ℤ → ℤ → Bool
within_tier low high tokens =
    let above : Bool = elim low [ none ↦ true | some l ↦ not (le_ℤ tokens l) ] in
    let below : Bool = elim high [ none ↦ true | some h ↦ le_ℤ tokens h ] in above && below

unfoldable pub holds_context : SheetRow → ℤ → Bool
holds_context r tokens = within_tier r.context_tier_min r.context_tier_max tokens

abbrev pub is_before : Bytes → Bytes → Bool
is_before a b = elim (bytes_compare a b) [ Ordering.lt ↦ true | _ ↦ false ]

abbrev pub is_nil {ℓ} : {A : Type ℓ} → List A → Bool
is_nil [] = true
is_nil (x ∷ xs) = false

module _ (day : ℕ → Bytes) where
  -- `holdsOn`: `day` is `at.UTC().Format("2006-01-02")`.
  unfoldable pub holds_on : SheetRow → ℕ → Bool
  holds_on r at = elim (r.effective_end) [ none ↦ true | some end ↦ is_before (day at) end ]

  unfoldable pub matches : SheetRow → Query → Bool
  unfolding holds_on holds_context
  matches r q =
      bytes_eq r.row_type (codes "unit_price")
      && (bytes_eq r.model_id q.model
          && (bytes_eq r.token_class q.class
              && (bytes_eq r.service_tier q.service_tier
                  && (bytes_eq r.region_id region_global
                      && (holds_on r q.at && holds_context r q.context_input_tokens)))))

  unfoldable pub is_fallback_for : SheetRow → Query → Bool
  unfolding holds_on
  is_fallback_for r q =
      bytes_eq r.row_type (codes "fallback") && (bytes_eq r.token_class q.class && holds_on r q.at)

-- The first row that a test holds of: the loop over `s.Rows`.
unfoldable pub find_row : (SheetRow → Bool) → List SheetRow → Option SheetRow
find_row test [] = none
find_row test (r ∷ rows) = if test r then some r else find_row test rows

unfoldable pub is_residency_for : Query → SheetRow → Bool
is_residency_for q r =
    bytes_eq r.row_type (codes "multiplier")
    && (bytes_eq r.modifier_kind (codes "data_residency")
        && (bytes_eq r.region_id q.region
            && (is_nil r.applies_to_models || any (λ m. bytes_eq m q.model) r.applies_to_models)))

-- `residency`: an outer `none` is an error, an inner one no multiplier.
unfoldable pub residency : List SheetRow → Query → Option (Option Decimal)
unfolding find_row
residency rows q = elim (find_row (is_residency_for q) rows) [
  | none ↦ some none
  | some r ↦ elim (parse r.multiplier) [ none ↦ none | some factor ↦ some (some factor) ]
]

abbrev pub unit_price : SheetRow → Decimal → Price
unit_price r price = record {
  sku_price_id = r.sku_price_id;
  list_unit_price = price;
  pricing_unit = r.pricing_unit;
  fallback = false;
  fallback_basis = [];
  residency_multiplier = none;
  context_tier_min = r.context_tier_min;
  context_tier_max = r.context_tier_max;
}

abbrev pub is_everywhere : Bytes → Bool
is_everywhere region = is_nil region || bytes_eq region region_global

unfoldable pub priced : List SheetRow → SheetRow → Query → Answer
priced rows r q = elim (parse r.list_unit_price) [
  | none ↦ failed bad_amount
  | some price ↦
      if is_everywhere q.region then answered (unit_price r price) else elim (residency rows q) [
        | none ↦ failed bad_amount
        | some none ↦ answered (unit_price r price)
        | some (some factor) ↦ answered (record (unit_price r price) {
          list_unit_price = mul price factor;
          residency_multiplier = some factor;
        })
      ]
]

-- `fallback`
unfoldable pub fallback_price : SheetRow → Answer
fallback_price r = elim (parse r.list_unit_price) [
  | none ↦ failed bad_amount
  | some price ↦ answered (record {
    sku_price_id = r.sku_price_id;
    list_unit_price = price;
    pricing_unit = r.pricing_unit;
    fallback = true;
    fallback_basis = r.fallback_basis;
    residency_multiplier = none;
    context_tier_min = none;
    context_tier_max = none;
  })
]

-- The sheet's part of `Lookup`.
unfoldable pub lookup_rows : (ℕ → Bytes) → List SheetRow → Query → Answer
lookup_rows day rows q = elim (find_row (λ r. matches day r q) rows) [
  | some r ↦ priced rows r q
  | none ↦ elim (find_row (λ r. is_fallback_for day r q) rows) [
    | some r ↦ fallback_price r
    | none ↦ failed no_price
  ]
]

-- `Lookup`
unfoldable pub lookup_price : (ℕ → Bytes) → Catalog → Query → Answer
lookup_price day c q = elim (find_sheet q.provider c.sheets) [
  | none ↦ failed no_sheet
  | some sheet ↦ lookup_rows day sheet.rows q
]
