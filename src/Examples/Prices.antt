-- ===== src/Examples/Prices.antt =====
-- A concrete price sheet of internal/catalog/catalog.go: one model, a surcharge for a region, and a
-- fallback; a charge of internal/focus/charge.go, and a rounding check of internal/reconcile.
use costroid.Prelude.{
  ℕ, ◌*◌, Bool, true, false, ◌≡◌, ◌↔◌, refl, [], ◌∷◌, none, some, Bytes, codes, arith,
}
use costroid.Prelude.Int.{pos, negsuc, ◌*ℤ◌}
use costroid.Decimal.{mul, normal_loop, scale, sign, div_pow10, from_int, normal}
use costroid.Prelude.Power.{pow10}
use costroid.Focus.{Calendar, UnitPrice, Charge, input_uncached, measured, check_row, new_row}
use costroid.Focus.Checked.{new_row-check}
use costroid.Reconcile.{within_rounding, minor_units}
use costroid.Reconcile.Tolerance.{IsRounding, within_rounding-IsRounding}
use costroid.Decimal.Text.{parse}
use costroid.Catalog.{
  region_global, Query, Price, SheetRow, Sheet, Catalog, answered, parse_release, find_sheet,
  matches, is_fallback_for, is_residency_for, residency, priced, fallback_price, lookup_rows,
  lookup_price, find_row,
}
use costroid.Catalog.Quote.{
  IsQuoted, everywhere, region_amount, lookup_price-IsQuoted, lookup_price-region,
}

abbrev any_day : ℕ → Bytes
any_day at = codes "2026-01-01"

abbrev short_row : SheetRow
short_row = record {
  row_type = codes "unit_price";
  sku_price_id = codes "k";
  model_id = codes "m";
  region_id = region_global;
  service_tier = codes "standard";
  context_tier_min = none;
  context_tier_max = some (pos 200000);
  token_class = codes "input";
  list_unit_price = codes "0.000003";
  pricing_unit = codes "token";
  effective_end = some (codes "2026-06-01");
  fallback_basis = [];
  modifier_kind = [];
  multiplier = [];
  applies_to_models = [];
}

abbrev surcharge : SheetRow
surcharge = record short_row {
  row_type = codes "multiplier";
  region_id = codes "eu";
  modifier_kind = codes "data_residency";
  multiplier = codes "1.1";
}

abbrev other_model : SheetRow
other_model = record short_row {
  row_type = codes "fallback";
  list_unit_price = codes "0.00001";
  fallback_basis = codes "highest";
}

abbrev sheet : Sheet
sheet = record {
  provider = codes "p";
  service_provider_name = codes "P";
  rows = short_row ∷ surcharge ∷ other_model ∷ [];
}

abbrev release : Catalog
release = record { version = codes "0.1.0"; sheets = (codes "p", sheet) ∷ [] }

release-parsed : parse_release (codes "0.1.0") (some sheet ∷ []) ≡ some release
unfolding parse_release
release-parsed = refl

abbrev query : Query
query = record {
  provider = codes "p";
  model = codes "m";
  class = codes "input";
  service_tier = codes "standard";
  region = codes "eu";
  context_input_tokens = pos 100;
  at = 0;
}

abbrev global_price : Price
global_price = record {
  sku_price_id = codes "k";
  list_unit_price = record { coefficient = pos 3; scale = 6 };
  pricing_unit = codes "token";
  fallback = false;
  fallback_basis = [];
  residency_multiplier = none;
  context_tier_min = none;
  context_tier_max = some (pos 200000);
}

abbrev regional_price : Price
regional_price = record global_price {
  list_unit_price = record { coefficient = pos 33; scale = 7 };
  residency_multiplier = some (record { coefficient = pos 11; scale = 1 });
}

regional : lookup_price any_day release query ≡ answered regional_price
unfolding lookup_price lookup_rows find_sheet find_row matches priced parse residency
    is_residency_for mul normal_loop ◌*ℤ◌
regional = refl

global : lookup_price any_day release (everywhere query) ≡ answered global_price
unfolding lookup_price lookup_rows find_sheet find_row matches priced parse normal_loop
global = refl

long_request :
    lookup_price any_day release (record query { context_input_tokens = pos 200001 })
    ≡ answered (record global_price {
      list_unit_price = record { coefficient = pos 1; scale = 5 };
      fallback = true;
      fallback_basis = codes "highest";
      context_tier_max = none;
    })
unfolding lookup_price lookup_rows find_sheet find_row matches is_fallback_for fallback_price parse
    normal_loop
long_request = refl

lookup_price-IsQuoted_example :
    (s : Sheet) × (find_sheet (codes "p") release.sheets ≡ some s)
    × IsQuoted any_day s.rows query regional_price
lookup_price-IsQuoted_example = lookup_price-IsQuoted any_day release query regional

lookup_price-region_example :
    (regional_price.list_unit_price
      ≡ region_amount regional_price.residency_multiplier global_price.list_unit_price)
    × (regional_price.fallback ≡ global_price.fallback)
lookup_price-region_example = lookup_price-region any_day release query regional global

abbrev no_calendar : Calendar
no_calendar = record { format = λ at. []; month = λ at. (at, at) }

abbrev input_price : UnitPrice
input_price = record {
  sku_price_id = codes "k";
  pricing_unit = codes "1M Tokens";
  list_unit_price = record { coefficient = pos 3; scale = 0 };
}

abbrev request_charge : Charge
request_charge = record {
  row_id = codes "id";
  provider = codes "p";
  service_provider_name = codes "P";
  model = codes "m";
  class = input_uncached;
  tokens = pos 1500;
  start = 0;
  end = 0;
  account = [];
  credential = [];
  region = codes "global";
  service_tier = [];
  catalog_version = codes "0.1.0";
  price = some input_price;
  basis = measured;
  tags = [];
  notes = [];
  overshoot_bound = none;
}

new_row-check_example : check_row (new_row no_calendar request_charge) ≡ true
unfolding scale sign normal normal_loop mul div_pow10 from_int ◌*ℤ◌
new_row-check_example =
    new_row-check no_calendar request_charge input_price 1500 refl refl (λ e. absurd (ground arith))
      (omega arith) (omega arith)

-- A variance of a dollar, which is a hundred of its smallest units.
within_rounding-IsRounding_example :
    (accepted : Bool) × (within_rounding
        (codes "USD")
        (pos 40000)
        (record { coefficient = negsuc 0; scale = 0 })
      ≡ some accepted)
    × ((accepted ≡ true) ↔ IsRounding (1 * pow10 2) 0 40000)
unfolding minor_units
within_rounding-IsRounding_example =
    within_rounding-IsRounding (codes "USD") 2 40000 (record { coefficient = negsuc 0; scale = 0 })
      refl
