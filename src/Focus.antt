-- ===== src/Focus.antt =====
-- internal/focus/row.go and internal/focus/charge.go: the row of one charge, and what the row contract
-- refuses. The time package formats an instant and finds its month: both are the parameter `Calendar`.

pub mod Checked
use costroid.Prelude.{
  ℕ, ◌+◌, ◌-◌, ◌*◌, ◌%◌, ◌==◌, ltb, Ordering, Bool, true, false, ◌&&◌, ◌||◌, not, if◌then◌else◌,
  List, [], ◌∷◌, ◌++◌, Option, none, some, Bytes, bytes_eq, codes, any,
}
use costroid.Prelude.Int.{ℤ, pos}
use costroid.Decimal.{Decimal, zero_value, from_int, mul, div_pow10, cmp, sign, scale}

abbrev pub max_scale : ℕ
max_scale = 12

abbrev pub tokens_per_million : ℕ
tokens_per_million = 6

pub data TokenClass : Type 0 where
  input_uncached cache_read cache_write_5m cache_write_1h : TokenClass
  cache_write_30m cache_write_12h output reasoning_output cached_input_reported : TokenClass

abbrev pub class_name : TokenClass → Bytes
class_name input_uncached = codes "input_uncached"
class_name cache_read = codes "cache_read"
class_name cache_write_5m = codes "cache_write_5m"
class_name cache_write_1h = codes "cache_write_1h"
class_name cache_write_30m = codes "cache_write_30m"
class_name cache_write_12h = codes "cache_write_12h"
class_name output = codes "output"
class_name reasoning_output = codes "reasoning_output"
class_name cached_input_reported = codes "cached_input_reported"

pub data CostBasis : Type 0 where
  measured list_equivalent : CostBasis

pub record Row : Type 0 where
  pub billed_cost : Decimal
  pub billing_account_id : Bytes
  pub billing_account_name : Option Bytes
  pub billing_currency : Bytes
  pub billing_period_end : Bytes
  pub billing_period_start : Bytes
  pub charge_category : Bytes
  pub charge_class : Option Bytes
  pub charge_description : Bytes
  pub charge_frequency : Bytes
  pub charge_period_end : Bytes
  pub charge_period_start : Bytes
  pub consumed_quantity : Decimal
  pub consumed_unit : Bytes
  pub contracted_cost : Decimal
  pub contracted_unit_price : Decimal
  pub effective_cost : Decimal
  pub host_provider_name : Option Bytes
  pub invoice_issuer_name : Bytes
  pub list_cost : Decimal
  pub list_unit_price : Decimal
  pub pricing_category : Bytes
  pub pricing_quantity : Decimal
  pub pricing_unit : Bytes
  pub region_id : Option Bytes
  pub region_name : Option Bytes
  pub service_category : Bytes
  pub service_name : Bytes
  pub service_provider_name : Bytes
  pub service_subcategory : Bytes
  pub sku_id : Bytes
  pub sku_meter : TokenClass
  pub sku_price_id : Bytes
  pub sub_account_id : Option Bytes
  pub sub_account_name : Option Bytes
  pub tags : List (Bytes × Bytes)
  pub catalog_version : Option Bytes
  pub overshoot_bound : Option Decimal
  pub row_id : Bytes
  pub service_tier : Option Bytes

-- `Price` of charge.go.
pub record UnitPrice : Type 0 where
  pub sku_price_id : Bytes
  pub pricing_unit : Bytes
  pub list_unit_price : Decimal

pub record Charge : Type 0 where
  pub row_id : Bytes
  pub provider : Bytes
  pub service_provider_name : Bytes
  pub model : Bytes
  pub class : TokenClass
  pub tokens : ℤ
  pub start : ℕ
  pub end : ℕ
  pub account : Bytes
  pub credential : Bytes
  pub region : Bytes
  pub service_tier : Bytes
  pub catalog_version : Bytes
  pub price : Option UnitPrice
  pub basis : CostBasis
  pub tags : List (Bytes × Bytes)
  pub notes : List Bytes
  pub overshoot_bound : Option Decimal

-- `Format(InstantLayout)`, and the first instants of a month and of the next one.
pub record Calendar : Type 0 where
  pub format : ℕ → Bytes
  pub month : ℕ → ℕ × ℕ

abbrev pub is_no_text : Bytes → Bool
is_no_text [] = true
is_no_text (c ∷ s) = false

abbrev pub optional : Bytes → Option Bytes
optional text = if is_no_text text then none else some text

unfoldable pub join_notes : List Bytes → Bytes
join_notes [] = []
join_notes (note ∷ notes) = codes "; " ++ note ++ join_notes notes

unfoldable pub description : Charge → Bytes
unfolding join_notes
description c =
    (c.model ++ codes " " ++ class_name c.class ++ codes " tokens") ++ join_notes c.notes

abbrev pub second : ℕ
second = 1_000_000_000

-- `Truncate` counts from Go's zero time, which is 0 here.
unfoldable pub charge_period : ℕ → ℕ → ℕ × ℕ
charge_period start end =
    let first = start - start % second in
    let last = end - end % second in
    (first, if ltb last end || not (ltb first last) then last + second else last)

abbrev pub is_measured : CostBasis → Bool
is_measured measured = true
is_measured list_equivalent = false

-- The row before its price is looked at. `ConsumedQuantity` and the costs that nothing sets are 0.
unfoldable pub base_row : Calendar → Charge → Row
unfolding description charge_period
base_row calendar c =
    let (start, end) = charge_period c.start c.end in
    let (period_start, period_end) = calendar.month start in
    let distinct = not (is_no_text c.region) && not (bytes_eq c.region (codes "global")) in
    let region : Option Bytes = if distinct then some c.region else none in
    record {
      billed_cost = zero_value;
      billing_account_id = if is_no_text c.account then codes "unknown" else c.account;
      billing_account_name = none;
      billing_currency = codes "USD";
      billing_period_end = calendar.format period_end;
      billing_period_start = calendar.format period_start;
      charge_category = codes "Usage";
      charge_class = none;
      charge_description = description c;
      charge_frequency = codes "Usage-Based";
      charge_period_end = calendar.format end;
      charge_period_start = calendar.format start;
      consumed_quantity = from_int c.tokens;
      consumed_unit = [];
      contracted_cost = zero_value;
      contracted_unit_price = zero_value;
      effective_cost = zero_value;
      host_provider_name = some c.service_provider_name;
      invoice_issuer_name = c.service_provider_name;
      list_cost = zero_value;
      list_unit_price = zero_value;
      pricing_category = codes "Standard";
      pricing_quantity = zero_value;
      pricing_unit = [];
      region_id = region;
      region_name = region;
      service_category = codes "AI and Machine Learning";
      service_name = c.service_provider_name ++ codes " API";
      service_provider_name = c.service_provider_name;
      service_subcategory = codes "Generative AI";
      sku_id = c.provider ++ codes "/" ++ c.model ++ codes "/" ++ class_name c.class;
      sku_meter = c.class;
      sku_price_id = [];
      sub_account_id = optional c.credential;
      sub_account_name = none;
      tags = c.tags;
      catalog_version = some c.catalog_version;
      overshoot_bound = c.overshoot_bound;
      row_id = c.row_id;
      service_tier = optional c.service_tier;
    }

-- The rest of `NewRow` on a class that is priced.
unfoldable pub price_row : Row → CostBasis → UnitPrice → Row
price_row row basis price =
    let quantity = div_pow10 row.consumed_quantity tokens_per_million in
    let cost = mul price.list_unit_price quantity in
    record row {
      consumed_unit = codes "Tokens";
      pricing_unit = price.pricing_unit;
      pricing_quantity = quantity;
      sku_price_id = price.sku_price_id;
      list_unit_price = price.list_unit_price;
      list_cost = cost;
      contracted_unit_price = price.list_unit_price;
      contracted_cost = cost;
      effective_cost = if is_measured basis then cost else row.effective_cost;
    }

-- `NewRow`
unfoldable pub new_row : Calendar → Charge → Row
unfolding base_row price_row
new_row calendar c = elim (c.price) [
  | some price ↦ price_row (base_row calendar c) c.basis price
  | none ↦ record (base_row calendar c) {
    consumed_unit = codes "Informational Tokens";
    pricing_unit = codes "Informational Tokens";
    pricing_quantity = from_int c.tokens;
    sku_price_id = c.provider ++ codes ":informational:" ++ class_name c.class;
  }
]

abbrev pub is_lt : Ordering → Bool
is_lt Ordering.lt = true
is_lt _ = false

abbrev pub is_eq : Ordering → Bool
is_eq Ordering.eq = true
is_eq _ = false

unfoldable pub is_refused : Decimal → Bool
is_refused amount = ltb max_scale (scale amount) || is_lt (sign amount)

-- The columns that `Check` reads; it goes through a map, so in no order.
unfoldable pub amounts_of : Row → List Decimal
amounts_of r =
    r.consumed_quantity ∷ r.contracted_cost ∷ r.contracted_unit_price ∷ r.effective_cost
    ∷ r.list_cost ∷ r.list_unit_price ∷ r.pricing_quantity ∷ []

-- `Check`: whether it gives no error.
unfoldable pub check_row : Row → Bool
unfolding is_refused amounts_of
check_row r =
    not (any is_refused (amounts_of r))
    && (is_eq (sign r.billed_cost)
        && (is_eq (cmp r.list_cost (mul r.list_unit_price r.pricing_quantity))
            && is_eq (cmp r.contracted_cost (mul r.contracted_unit_price r.pricing_quantity))))
