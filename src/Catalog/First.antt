-- ===== src/Catalog/First.antt =====
-- `find_row`, which stands for the loops of internal/catalog/catalog.go over a sheet's rows.
use costroid.Prelude.{
  Bool, true, false, ◌≡◌, ap, subst, inl, inr, Bool-cases, List, [], ◌∷◌, ◌++◌, none, some, All,
  arith,
}
use costroid.Catalog.{SheetRow, find_row}

-- The first row of a list that a test holds of.
abbrev pub IsFirst : (SheetRow → Bool) → List SheetRow → SheetRow → Type 0
IsFirst test rows r =
    (before after : List SheetRow) × (rows ≡ before ++ r ∷ after)
    × All (λ x. test x ≡ false) before
    × (test r ≡ true)

IsFirst-cons :
    (test : SheetRow → Bool) (x : SheetRow) {rows : List SheetRow} {r : SheetRow}
    → test x ≡ false
    → IsFirst test rows r
    → IsFirst test (x ∷ rows) r
IsFirst-cons test x fails (before, after, same, none_before, holds) =
    (x ∷ before, after, ap (λ l. x ∷ l) same, (fails, none_before), holds)

pub find_row-IsFirst :
    (test : SheetRow → Bool) (rows : List SheetRow) {r : SheetRow}
    → find_row test rows ≡ some r
    → IsFirst test rows r
unfolding find_row
find_row-IsFirst test [] h = absurd (ground arith)
find_row-IsFirst test (x ∷ rows) {r} h = elim (Bool-cases (test x)) [
  | inl e ↦
      let same : x ≡ r = ground arith in
      ([], rows, ap (λ y. y ∷ rows) same, tt, subst (λ y. test y ≡ true) same e)
  | inr e ↦ IsFirst-cons test x e (find_row-IsFirst test rows (ground arith))
]

pub find_row-none :
    (test : SheetRow → Bool) (rows : List SheetRow)
    → find_row test rows ≡ none
    → All (λ x. test x ≡ false) rows
unfolding find_row
find_row-none test [] h = tt
find_row-none test (x ∷ rows) h = elim (Bool-cases (test x)) [
  | inl e ↦ absurd (ground arith)
  | inr e ↦ (e, find_row-none test rows (ground arith))
]

pub IsFirst-holds :
    (test : SheetRow → Bool) {rows : List SheetRow} {r : SheetRow}
    → IsFirst test rows r
    → test r ≡ true
IsFirst-holds test (before, after, same, none_before, holds) = holds
