-- ===== src/Otlp/Once.antt =====
-- The usages that `keepStatedSplits` of internal/otlp/otlp.go keeps of a batch.
use costroid.Prelude.{
  Bool, true, false, ◌&&◌, ◌||◌, not, ◌≡◌, refl, sym, ap, ap₂, ◌∙◌, if◌then◌else◌, List, [], ◌∷◌,
  any, arith, ◌↔◌, ◌⊎◌, inl, inr, false,
}
use mathlib.Core.List.{Memᴰ}
use mathlib.Core.List.Memᴰ
use costroid.Prelude.Results.{if_both}
use costroid.Otlp.Counts.{Usage}
use costroid.Otlp.Batch.{is_stated, same_but_lifetime, is_restated, kept_of, keep_stated_splits}

-- The usages that state the split of a request.
abbrev pub states : Usage → Usage → Bool
states u other = is_stated other && same_but_lifetime u other

unset : (a b : Bool) → (not a && b) ≡ true → a ≡ false
unset a b e = ground arith

right_of : (a b : Bool) → (a && b) ≡ true → b ≡ true
right_of a b e = ground arith

unstated : (usages : List Usage) (u v : Usage) → is_restated usages v ≡ true → states u v ≡ false
unfolding is_restated
unstated usages u v out = ap (λ b. b && same_but_lifetime u v) (unset (is_stated v) _ out)

any-kept_of :
    (usages : List Usage) (u : Usage) (l : List Usage)
    → any (states u) (kept_of usages l) ≡ any (states u) l
unfolding kept_of
any-kept_of usages u [] = refl
any-kept_of usages u (v ∷ l) =
    if_both (λ rest. any (states u) rest ≡ any (states u) (v ∷ l)) (is_restated usages v)
      (kept_of usages l) (v ∷ kept_of usages l)
      (λ out.
        any-kept_of usages u l ∙ sym (ap (λ b. b || any (states u) l) (unstated usages u v out)))
      (λ kept. ap (λ b. states u v || b) (any-kept_of usages u l))

is_restated-kept :
    (usages : List Usage) (u : Usage)
    → is_restated (keep_stated_splits usages) u ≡ is_restated usages u
unfolding is_restated keep_stated_splits
is_restated-kept usages u = ap (λ b. not (is_stated u) && b) (any-kept_of usages u usages)

kept_of-cong :
    (a b : List Usage)
    → ((u : Usage) → is_restated a u ≡ is_restated b u)
    → (l : List Usage) → kept_of a l ≡ kept_of b l
unfolding kept_of
kept_of-cong a b same [] = refl
kept_of-cong a b same (v ∷ l) =
    ap₂ (λ c rest. if c then rest else v ∷ rest) (same v) (kept_of-cong a b same l)

kept_of_twice : (usages l : List Usage) → kept_of usages (kept_of usages l) ≡ kept_of usages l
unfolding kept_of
kept_of_twice usages [] = refl
kept_of_twice usages (v ∷ l) =
    if_both (λ rest. kept_of usages rest ≡ rest) (is_restated usages v) (kept_of usages l)
      (v ∷ kept_of usages l) (λ out. kept_of_twice usages l)
      (λ kept.
        ap
          (λ c.
            if c then kept_of usages (kept_of usages l) else v ∷ kept_of usages (kept_of usages l))
          kept
        ∙ ap (λ rest. v ∷ rest) (kept_of_twice usages l))

kept_again :
    (usages : List Usage)
    → keep_stated_splits (keep_stated_splits usages) ≡ keep_stated_splits usages
unfolding keep_stated_splits
kept_again usages =
    kept_of-cong (keep_stated_splits usages) usages (is_restated-kept usages)
      (keep_stated_splits usages)
    ∙ kept_of_twice usages usages

any-kept_again :
    (usages : List Usage) (u : Usage)
    → is_restated usages u ≡ true
    → any (states u) (keep_stated_splits usages) ≡ true
unfolding keep_stated_splits is_restated
any-kept_again usages u out = any-kept_of usages u usages ∙ right_of (not (is_stated u)) _ out

-- What comes through the loop: what was there and is not restated, and nothing else.
Memᴰ-kept_of :
    (usages : List Usage) (u : Usage) (l : List Usage)
    → Memᴰ u (kept_of usages l) ↔ (Memᴰ u l × (is_restated usages u ≡ false))
unfolding kept_of
Memᴰ-kept_of usages u [] = (λ m. absurd (Memᴰ.not-nil m), λ m. absurd (Memᴰ.not-nil (m.0)))
Memᴰ-kept_of usages u (v ∷ l) =
    if_both (λ rest. Memᴰ u rest ↔ (Memᴰ u (v ∷ l) × (is_restated usages u ≡ false)))
      (is_restated usages v) (kept_of usages l) (v ∷ kept_of usages l)
      (λ out. left_out usages u v l out (Memᴰ-kept_of usages u l))
      (λ kept. put usages u v l kept (Memᴰ-kept_of usages u l))
  where
    left_out :
        (usages : List Usage) (u v : Usage) (l : List Usage)
        → is_restated usages v ≡ true
        → Memᴰ u (kept_of usages l) ↔ (Memᴰ u l × (is_restated usages u ≡ false))
        → Memᴰ u (kept_of usages l) ↔ (Memᴰ u (v ∷ l) × (is_restated usages u ≡ false))
    left_out usages u v l out (there, back) = (
      λ m. (Memᴰ.tail ((there m).0), (there m).1),
      λ h. elim (Memᴰ.cases_cons (h.0)) [
        | inl same ↦ absurd (ground (arith, ap (is_restated usages) same, h.1))
        | inr m ↦ back (m, h.1)
      ],
    )

    put :
        (usages : List Usage) (u v : Usage) (l : List Usage)
        → is_restated usages v ≡ false
        → Memᴰ u (kept_of usages l) ↔ (Memᴰ u l × (is_restated usages u ≡ false))
        → Memᴰ u (v ∷ kept_of usages l) ↔ (Memᴰ u (v ∷ l) × (is_restated usages u ≡ false))
    put usages u v l kept (there, back) = (
      λ m. elim (Memᴰ.cases_cons m) [
        | inl same ↦ (Memᴰ.head same, ap (is_restated usages) same ∙ kept)
        | inr below ↦ (Memᴰ.tail ((there below).0), (there below).1)
      ],
      λ h. elim (Memᴰ.cases_cons (h.0)) [
        | inl same ↦ Memᴰ.head same
        | inr m ↦ Memᴰ.tail (back (m, h.1))
      ],
    )

-- `keepStatedSplits` keeps of a batch exactly the usages that state their split and those that no
-- kept usage states the split of, being the same but for lifetimes, and it leaves out nothing
-- more when it runs again.
pub keep_stated_splits-twice :
    (usages : List Usage)
    → (keep_stated_splits (keep_stated_splits usages) ≡ keep_stated_splits usages)
      × ((u : Usage)
          → Memᴰ u (keep_stated_splits usages) ↔ (
              Memᴰ u usages
              × ((is_stated u ≡ true) ⊎ (any (states u) (keep_stated_splits usages) ≡ false))))
unfolding keep_stated_splits
keep_stated_splits-twice usages = (
  kept_again usages,
  λ u.
      let (there, back) = Memᴰ-kept_of usages u usages in
      let same = any-kept_of usages u usages in
      (
        λ m. ((there m).0, unfold is_restated in ground (arith, (there m).1)),
        λ h. back (h.0, unfold is_restated in ground (arith, h.1)),
      ),
)
