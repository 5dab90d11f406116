-- ===== src/Catalog/Priced.antt =====
-- What `Lookup` of internal/catalog/catalog.go makes of a row of unit prices in a query's region.
use costroid.Prelude.{
  ◌⊎◌, true, false, ◌≡◌, refl, subst, inl, inr, Bool-cases, Option-cases, List, Option, none, some,
  All, arith,
}
use costroid.Decimal.{Decimal, mul}
use costroid.Decimal.Text.{parse}
use costroid.Catalog.{
  Query, Price, SheetRow, answered, find_row, is_residency_for, residency, unit_price,
  is_everywhere, priced,
}
use costroid.Catalog.First.{IsFirst, find_row-IsFirst, find_row-none}

-- The amount in the query's region: the row's own, where no surcharge applies, or else that times the
-- surcharge of the first row that states one.
abbrev pub InRegion : List SheetRow → Query → Decimal → Price → Type 0
InRegion rows q amount p =
    ((p.list_unit_price ≡ amount)
      × (p.residency_multiplier ≡ none)
      × ((is_everywhere q.region ≡ true) ⊎ All (λ x. is_residency_for q x ≡ false) rows))
    ⊎ ((is_everywhere q.region ≡ false)
        × (surcharge : SheetRow) × (factor : Decimal) × IsFirst (is_residency_for q) rows surcharge
        × (parse surcharge.multiplier ≡ some factor)
        × (p.residency_multiplier ≡ some factor)
        × (p.list_unit_price ≡ mul amount factor))

-- A price that a row of unit prices gives.
pub record IsPriced (rows : List SheetRow) (q : Query) (r : SheetRow) (p : Price) : Type 0 where
  pub amount : Decimal
  pub amount_read : parse r.list_unit_price ≡ some amount
  pub amount_charged : InRegion rows q amount p
  pub same_sku : p.sku_price_id ≡ r.sku_price_id
  pub same_unit : p.pricing_unit ≡ r.pricing_unit
  pub same_min : p.context_tier_min ≡ r.context_tier_min
  pub same_max : p.context_tier_max ≡ r.context_tier_max
  pub no_fallback : p.fallback ≡ false

of_row :
    {rows : List SheetRow} {q : Query} {r : SheetRow} (amount : Decimal)
    → parse r.list_unit_price ≡ some amount
    → (is_everywhere q.region ≡ true) ⊎ All (λ x. is_residency_for q x ≡ false) rows
    → IsPriced rows q r (unit_price r amount)
of_row amount e plain = record {
  amount = amount;
  amount_read = e;
  amount_charged = inl (refl, refl, plain);
  same_sku = refl;
  same_unit = refl;
  same_min = refl;
  same_max = refl;
  no_fallback = refl;
}

-- What `residency` finds.
abbrev IsSurcharge : List SheetRow → Query → Option Decimal → Type 0
IsSurcharge rows q none = All (λ x. is_residency_for q x ≡ false) rows
IsSurcharge rows q (some factor) =
    (surcharge : SheetRow) × IsFirst (is_residency_for q) rows surcharge
    × (parse surcharge.multiplier ≡ some factor)

residency-IsSurcharge :
    (rows : List SheetRow) (q : Query) {found : Option Decimal}
    → residency rows q ≡ some found
    → IsSurcharge rows q found
unfolding residency
residency-IsSurcharge rows q {found} h = elim (Option-cases (find_row (is_residency_for q) rows)) [
  | inl e ↦
      let same : none ≡ found = ground arith in
      subst (IsSurcharge rows q) same (find_row-none (is_residency_for q) rows e)
  | inr (r, e) ↦ elim (Option-cases (parse r.multiplier)) [
    | inl g ↦ absurd (ground arith)
    | inr (factor, g) ↦
        let same : some factor ≡ found = ground arith in
        subst (IsSurcharge rows q) same (r, find_row-IsFirst (is_residency_for q) rows e, g)
  ]
]

of_surcharge :
    {rows : List SheetRow} {q : Query} {r : SheetRow} (amount factor : Decimal)
    → parse r.list_unit_price ≡ some amount
    → is_everywhere q.region ≡ false
    → IsSurcharge rows q (some factor)
    → IsPriced rows q r (record (unit_price r amount) {
      list_unit_price = mul amount factor;
      residency_multiplier = some factor;
    })
of_surcharge amount factor e f (surcharge, first, read) = record {
  amount = amount;
  amount_read = e;
  amount_charged = inr (f, surcharge, factor, first, read, refl, refl);
  same_sku = refl;
  same_unit = refl;
  same_min = refl;
  same_max = refl;
  no_fallback = refl;
}

pub priced-IsPriced :
    (rows : List SheetRow) (r : SheetRow) (q : Query) {p : Price}
    → priced rows r q ≡ answered p
    → IsPriced rows q r p
unfolding priced
priced-IsPriced rows r q {p} h = elim (Option-cases (parse r.list_unit_price)) [
  | inl e ↦ absurd (ground arith)
  | inr (amount, e) ↦ elim (Bool-cases (is_everywhere q.region)) [
    | inl f ↦
        let same : unit_price r amount ≡ p = ground arith in
        subst (IsPriced rows q r) same (of_row amount e (inl f))
    | inr f ↦ elim (Option-cases (residency rows q)) [
      | inl g ↦ absurd (ground arith)
      | inr (none, g) ↦
          let same : unit_price r amount ≡ p = ground arith in
          subst (IsPriced rows q r) same (of_row amount e (inr (residency-IsSurcharge rows q g)))
      | inr (some factor, g) ↦
          let same : record (unit_price r amount) {
            list_unit_price = mul amount factor;
            residency_multiplier = some factor;
          }
              ≡ p =
            ground arith in
          subst (IsPriced rows q r) same
            (of_surcharge amount factor e f (residency-IsSurcharge rows q g))
    ]
  ]
]
