-- ===== src/Catalog/Source.antt =====
-- The rows that a price of internal/catalog/catalog.go comes from.
use costroid.Prelude.{
  ℕ, true, false, ◌≡◌, inl, inr, Option-cases, List, none, some, Bytes, bytes_eq_iff, codes, All,
  arith,
}
use costroid.Decimal.Text.{parse}
use costroid.Catalog.{
  region_global, Query, Price, SheetRow, answered, holds_on, within_tier, matches, is_fallback_for,
  find_row, fallback_price, lookup_rows,
}
use costroid.Catalog.First.{IsFirst, find_row-IsFirst, find_row-none, IsFirst-holds}
use costroid.Catalog.Priced.{IsPriced, priced-IsPriced}

-- A row of unit prices for what a query asks.
pub record Suits (day : ℕ → Bytes) (q : Query) (r : SheetRow) : Type 0 where
  pub unit_priced : r.row_type ≡ codes "unit_price"
  pub same_model : r.model_id ≡ q.model
  pub same_class : r.token_class ≡ q.class
  pub same_service_tier : r.service_tier ≡ q.service_tier
  pub everywhere : r.region_id ≡ region_global
  pub current : holds_on day r q.at ≡ true
  pub in_tier : within_tier r.context_tier_min r.context_tier_max q.context_input_tokens ≡ true

pub matches-Suits :
    (day : ℕ → Bytes) (q : Query) (r : SheetRow) → matches day r q ≡ true → Suits day q r
unfolding matches
matches-Suits day q r h = record {
  unit_priced = ground (arith, bytes_eq_iff r.row_type (codes "unit_price"));
  same_model = ground (arith, bytes_eq_iff r.model_id q.model);
  same_class = ground (arith, bytes_eq_iff r.token_class q.class);
  same_service_tier = ground (arith, bytes_eq_iff r.service_tier q.service_tier);
  everywhere = ground (arith, bytes_eq_iff r.region_id region_global);
  current = ground arith;
  in_tier = ground arith;
}

-- A price that a row of fallbacks gives.
pub record IsFallback (q : Query) (r : SheetRow) (p : Price) : Type 0 where
  pub fallback_row : r.row_type ≡ codes "fallback"
  pub fallback_class : r.token_class ≡ q.class
  pub fallback_amount : parse r.list_unit_price ≡ some p.list_unit_price
  pub fallback_sku : p.sku_price_id ≡ r.sku_price_id
  pub fallback_unit : p.pricing_unit ≡ r.pricing_unit
  pub same_basis : p.fallback_basis ≡ r.fallback_basis
  pub no_multiplier : p.residency_multiplier ≡ none
  pub is_fallback : p.fallback ≡ true

pub fallback_price-IsFallback :
    (day : ℕ → Bytes) (r : SheetRow) (q : Query) {p : Price}
    → is_fallback_for day r q ≡ true
    → fallback_price r ≡ answered p
    → IsFallback q r p
unfolding fallback_price is_fallback_for
fallback_price-IsFallback day r q {p} t h = elim (Option-cases (parse r.list_unit_price)) [
  | inl e ↦ absurd (ground arith)
  | inr (price, e) ↦ record {
    fallback_row = ground (arith, bytes_eq_iff r.row_type (codes "fallback"));
    fallback_class = ground (arith, bytes_eq_iff r.token_class q.class);
    fallback_amount = ground arith;
    fallback_sku = ground arith;
    fallback_unit = ground arith;
    same_basis = ground arith;
    no_multiplier = ground arith;
    is_fallback = ground arith;
  }
]

-- Where a sheet's answer comes from: the first row that matches the query, or else the first fallback.
pub data Source (day : ℕ → Bytes) (rows : List SheetRow) (q : Query) (p : Price) : Type 0 where
  by_row :
      (r : SheetRow)
      → IsFirst (λ x. matches day x q) rows r
      → Suits day q r
      → IsPriced rows q r p
      → Source day rows q p
  by_fallback :
      (r : SheetRow)
      → All (λ x. matches day x q ≡ false) rows
      → IsFirst (λ x. is_fallback_for day x q) rows r
      → IsFallback q r p
      → Source day rows q p

pub lookup_rows-Source :
    (day : ℕ → Bytes) (rows : List SheetRow) (q : Query) {p : Price}
    → lookup_rows day rows q ≡ answered p
    → Source day rows q p
unfolding lookup_rows
lookup_rows-Source day rows q h = elim (Option-cases (find_row (λ x. matches day x q) rows)) [
  | inr (r, e) ↦
      let first = find_row-IsFirst (λ x. matches day x q) rows e in
      by_row r first (matches-Suits day q r (IsFirst-holds _ first))
        (priced-IsPriced rows r q (ground arith))
  | inl e ↦ elim (Option-cases (find_row (λ x. is_fallback_for day x q) rows)) [
    | inl f ↦ absurd (ground arith)
    | inr (r, f) ↦
        let first = find_row-IsFirst (λ x. is_fallback_for day x q) rows f in
        by_fallback r (find_row-none (λ x. matches day x q) rows e) first
          (fallback_price-IsFallback day r q (IsFirst-holds _ first) (ground arith))
  ]
]
