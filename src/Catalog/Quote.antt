-- ===== src/Catalog/Quote.antt =====
-- What a price that `Lookup` of internal/catalog/catalog.go gives says of its query, and in a region.
use costroid.Prelude.{
  ℕ, ◌⊎◌, Bool, true, false, ◌≡◌, ◌↔◌, refl, sym, ap, ap₂, subst, ◌∙◌, inl, inr, Option-cases, List,
  [], ◌∷◌, Option, none, some, Bytes, any, arith,
}
use costroid.Decimal.{Decimal, mul}
use costroid.Decimal.Text.{parse}
use costroid.Decimal.Nonneg.{IsNonneg, parse-IsNonneg, mul-IsNonneg}
use costroid.Catalog.First.{IsFirst-holds, find_row-IsFirst}
use costroid.Catalog.Priced.{InRegion, IsPriced, priced-IsPriced}
use costroid.Catalog.Source.{Source, lookup_rows-Source, matches-Suits}
use costroid.Catalog.{
  region_global, Query, Price, SheetRow, Sheet, Catalog, answered, find_sheet, within_tier, matches,
  is_fallback_for, find_row, priced, fallback_price, lookup_rows, lookup_price,
}

find_row-any :
    (test : SheetRow → Bool) (rows : List SheetRow)
    → (find_row test rows ≡ none) ↔ (any test rows ≡ false)
unfolding find_row
find_row-any test [] = (λ h. refl, λ h. refl)
find_row-any test (x ∷ rows) = ground (arith, find_row-any test rows)

InRegion-IsNonneg :
    (rows : List SheetRow) (q : Query) (amount : Decimal) (p : Price)
    → IsNonneg amount
    → InRegion rows q amount p
    → IsNonneg p.list_unit_price
InRegion-IsNonneg rows q amount p n (inl (same, none_stated, plain)) = subst IsNonneg (sym same) n
InRegion-IsNonneg rows q amount p n (inr (f, surcharge, factor, first, read, stated, same)) =
    subst IsNonneg (sym same)
      (mul-IsNonneg amount factor n (parse-IsNonneg surcharge.multiplier read))

fallback_price-answer :
    (r : SheetRow) {p : Price}
    → fallback_price r ≡ answered p
    → (parse r.list_unit_price ≡ some p.list_unit_price)
      × (p.fallback ≡ true)
      × (p.residency_multiplier ≡ none)
unfolding fallback_price
fallback_price-answer r h = elim (Option-cases (parse r.list_unit_price)) [
  | inl e ↦ absurd (ground arith)
  | inr (price, e) ↦ (ground arith, ground arith, ground arith)
]

-- What a sheet's answer comes from.
data Found (day : ℕ → Bytes) (rows : List SheetRow) (q : Query) (p : Price) : Type 0 where
  by_row :
      (r : SheetRow)
      → find_row (λ x. matches day x q) rows ≡ some r
      → priced rows r q ≡ answered p
      → Found day rows q p
  by_fallback :
      (r : SheetRow)
      → find_row (λ x. matches day x q) rows ≡ none
      → find_row (λ x. is_fallback_for day x q) rows ≡ some r
      → fallback_price r ≡ answered p
      → Found day rows q p

lookup_cases :
    (day : ℕ → Bytes) (rows : List SheetRow) (q : Query) {p : Price}
    → lookup_rows day rows q ≡ answered p
    → Found day rows q p
unfolding lookup_rows
lookup_cases day rows q h = elim (Option-cases (find_row (λ x. matches day x q) rows)) [
  | inr (r, e) ↦ by_row r e (ground arith)
  | inl e ↦ elim (Option-cases (find_row (λ x. is_fallback_for day x q) rows)) [
    | inl f ↦ absurd (ground arith)
    | inr (r, f) ↦ by_fallback r e f (ground arith)
  ]
]

-- What a price promises of its query.
pub record IsQuoted (day : ℕ → Bytes) (rows : List SheetRow) (q : Query) (p : Price) : Type 0 where
  pub source : Source day rows q p
  pub nonneg : IsNonneg p.list_unit_price
  pub falls_back : (p.fallback ≡ true) ↔ (any (λ r. matches day r q) rows ≡ false)
  pub in_tier :
      (p.fallback ≡ true)
      ⊎ (within_tier p.context_tier_min p.context_tier_max q.context_input_tokens ≡ true)

lookup_rows-IsQuoted :
    (day : ℕ → Bytes) (rows : List SheetRow) (q : Query) {p : Price}
    → lookup_rows day rows q ≡ answered p
    → IsQuoted day rows q p
lookup_rows-IsQuoted day rows q {p} h = elim (lookup_cases day rows q h) [
  | by_row r e a ↦
      let way = priced-IsPriced rows r q a in
      let test = find_row-any (λ x. matches day x q) rows in
      let first = find_row-IsFirst (λ x. matches day x q) rows e in
      let suits = matches-Suits day q r (IsFirst-holds (λ x. matches day x q) first) in
      record {
        source = lookup_rows-Source day rows q h;
        nonneg =
            InRegion-IsNonneg rows q way.amount p (parse-IsNonneg r.list_unit_price way.amount_read)
              way.amount_charged;
        falls_back =
            (λ t. absurd (ground (arith, way.no_fallback)), λ f. absurd (ground (arith, test.1 f)));
        in_tier = inr (
            ap₂ (λ x y. within_tier x y q.context_input_tokens) way.same_min way.same_max
            ∙ suits.in_tier);
      }
  | by_fallback r e f a ↦
      let (parsed, fell, no_factor) = fallback_price-answer r a in
      let test = find_row-any (λ x. matches day x q) rows in
      record {
        source = lookup_rows-Source day rows q h;
        nonneg = parse-IsNonneg r.list_unit_price parsed;
        falls_back = (λ t. test.0 e, λ t. fell);
        in_tier = inl fell;
      }
]

-- The query that asks for no region of its own.
abbrev pub everywhere : Query → Query
everywhere q = record q { region = region_global }

-- A region's price, from the price that holds everywhere.
abbrev pub region_amount : Option Decimal → Decimal → Decimal
region_amount none price = price
region_amount (some factor) price = mul price factor

IsPriced-region :
    {rows : List SheetRow} {r : SheetRow} {q : Query} {p g : Price}
    → IsPriced rows q r p
    → IsPriced rows (everywhere q) r g
    → p.list_unit_price ≡ region_amount p.residency_multiplier g.list_unit_price
IsPriced-region {p = p} {g} way other =
    let read : ◌≡◌ {A = Option Decimal} (some way.amount) (some other.amount) =
      sym way.amount_read ∙ other.amount_read in
    let amounts : way.amount ≡ other.amount = ground arith in
    let everywhere_amount : g.list_unit_price ≡ way.amount = elim other.amount_charged [
      | inl (same, none_stated, plain) ↦ same ∙ sym amounts
      | inr (f, surcharge, factor, first, read_factor, stated, same) ↦ absurd (ground arith)
    ] in
    elim way.amount_charged [
      | inl (same, none_stated, plain) ↦
          same
          ∙ sym everywhere_amount
          ∙ ap (λ o. region_amount o g.list_unit_price) (sym none_stated)
      | inr (f, surcharge, factor, first, read_factor, stated, same) ↦
          same
          ∙ ap (λ x. mul x factor) (sym everywhere_amount)
          ∙ ap (λ o. region_amount o g.list_unit_price) (sym stated)
    ]

lookup_rows-region :
    (day : ℕ → Bytes) (rows : List SheetRow) (q : Query) {p g : Price}
    → lookup_rows day rows q ≡ answered p
    → lookup_rows day rows (everywhere q) ≡ answered g
    → (p.list_unit_price ≡ region_amount p.residency_multiplier g.list_unit_price)
      × (p.fallback ≡ g.fallback)
unfolding matches is_fallback_for
lookup_rows-region day rows q {p} {g} h k = elim (lookup_cases day rows q h) [
  | by_row r e a ↦ elim (lookup_cases day rows (everywhere q) k) [
    | by_row s f b ↦
        let same : s ≡ r = ground arith in
        let way = priced-IsPriced rows r q a in
        let other =
          priced-IsPriced rows r (everywhere q)
            (ap (λ x. priced rows x (everywhere q)) (sym same) ∙ b) in
        (IsPriced-region way other, way.no_fallback ∙ sym other.no_fallback)
    | by_fallback s f t b ↦ absurd (ground arith)
  ]
  | by_fallback r e n a ↦ elim (lookup_cases day rows (everywhere q) k) [
    | by_row s f b ↦ absurd (ground arith)
    | by_fallback s f t b ↦
        let same : r ≡ s = ground arith in
        let first = fallback_price-answer r a in
        let second = fallback_price-answer r (ap fallback_price same ∙ b) in
        fallback_region r p g first second
  ]
]
  where
    fallback_region :
        (r : SheetRow) (x y : Price)
        → (parse r.list_unit_price ≡ some x.list_unit_price)
          × (x.fallback ≡ true)
          × (x.residency_multiplier ≡ none)
        → (parse r.list_unit_price ≡ some y.list_unit_price)
          × (y.fallback ≡ true)
          × (y.residency_multiplier ≡ none)
        → (x.list_unit_price ≡ region_amount x.residency_multiplier y.list_unit_price)
          × (x.fallback ≡ y.fallback)
    fallback_region r x y (c, d, m) (c', d', m') =
        let equal : x.list_unit_price ≡ y.list_unit_price = ground arith in
        (equal ∙ ap (λ o. region_amount o y.list_unit_price) (sym m), d ∙ sym d')

lookup_sheet :
    (day : ℕ → Bytes) (c : Catalog) (q : Query) {p : Price}
    → lookup_price day c q ≡ answered p
    → (s : Sheet) × (find_sheet q.provider c.sheets ≡ some s)
      × (lookup_rows day s.rows q ≡ answered p)
unfolding lookup_price
lookup_sheet day c q h = elim (Option-cases (find_sheet q.provider c.sheets)) [
  | inl e ↦ absurd (ground arith)
  | inr (s, e) ↦ (s, e, ground arith)
]

-- A price that `Lookup` gives comes from the provider's sheet: from the first row that matches
-- the query, with that row's SKU, unit and context tier, and its amount, which is multiplied by
-- the factor of the first surcharge row of the query's region where there is one; or, where no
-- row matches, from the first fallback row of the query's class, with that row's amount. It is
-- not negative, it is a fallback exactly when no row of the sheet matches, and where it is none
-- the request's input tokens lie in the context tier that it states.
pub lookup_price-IsQuoted :
    (day : ℕ → Bytes) (c : Catalog) (q : Query) {p : Price}
    → lookup_price day c q ≡ answered p
    → (s : Sheet) × (find_sheet q.provider c.sheets ≡ some s) × IsQuoted day s.rows q p
lookup_price-IsQuoted day c q h =
    let (s, found, answer) = lookup_sheet day c q h in
    (s, found, lookup_rows-IsQuoted day s.rows q answer)

-- Where `Lookup` prices a query both in its region and everywhere, the region's price is the
-- other one multiplied by the residency multiplier that it states, or the same where it states
-- none, and one is a fallback when the other is.
pub lookup_price-region :
    (day : ℕ → Bytes) (c : Catalog) (q : Query) {p g : Price}
    → lookup_price day c q ≡ answered p
    → lookup_price day c (everywhere q) ≡ answered g
    → (p.list_unit_price ≡ region_amount p.residency_multiplier g.list_unit_price)
      × (p.fallback ≡ g.fallback)
lookup_price-region day c q {p} {g} h k =
    let (s, found, answer) = lookup_sheet day c q h in
    let (t, found_too, other) = lookup_sheet day c (everywhere q) k in
    let same : t ≡ s = ground arith in
    lookup_rows-region day s.rows q answer
      (ap (λ x. lookup_rows day x.rows (everywhere q)) (sym same) ∙ other)
