-- ===== src/Gateway/Holds.antt =====
-- When a grant of internal/gateway/session.go holds.
use costroid.Prelude.{
  ℕ, zero, suc, ◌<◌, Ordering, Bool, true, false, ◌&&◌, ◌||◌, not, ◌≡◌, ◌≢◌, refl, ap, ◌∙◌, sym,
  List, [], ◌∷◌, ◌++◌, Option, none, some, Bytes, bytes_eq_iff, codes, arith, if◌then◌else◌,
}
use costroid.Prelude.Int.{ℤ, pos, negsuc}
use costroid.Decimal.{Decimal, zero_value, cmp, sign}
use costroid.Decimal.Text.{parse}
use costroid.Gateway.{
  bad_budget, Expiry, unset, unreadable, expires_at, KeyInfo, Expect, Problem, Grant, is_clear,
  atoi, holds, metadata_of, is_positive, is_above, check_budget, budget_of, check_expiry,
  check_parallel, check_request, check_run, inspect,
}

is_clear-append : (p q : List Problem) → is_clear (p ++ q) ≡ (is_clear p && is_clear q)
is_clear-append [] q = refl
is_clear-append (x ∷ p) q = refl

-- The budget that a key states: the text of its limit, read.
abbrev pub StatesBudget : Option Bytes → Decimal → Type 0
StatesBudget text budget = (written : Bytes) × (text ≡ some written) × (parse written ≡ some budget)

-- A whole number above zero that a key states.
abbrev pub StatesLimit : Option ℤ → ℤ → Type 0
StatesLimit stated granted = (n : ℕ) × (stated ≡ some (pos n)) × (granted ≡ pos n) × (0 < n)

-- The facts that a key must state, and the grant that says what it states.
unfoldable pub IsGranted : KeyInfo → Expect → Grant → Type 0
IsGranted info expect g =
    StatesBudget info.max_budget g.granted_budget
    × (sign g.granted_budget ≡ Ordering.gt)
    × (cmp g.granted_budget expect.budget ≢ Ordering.gt)
    × ((t : ℕ) × (info.expires ≡ expires_at t) × (expect.now < t))
    × StatesLimit info.max_parallel g.granted_parallel
    × StatesLimit (atoi (metadata_of info.metadata (codes "costroid_max_request_tokens")))
        g.granted_request
    × (metadata_of info.metadata (codes "costroid_run_id") ≡ expect.run)
    × (expect.run ≢ [])

positive_sign : (o : Ordering) → is_positive o ≡ true → o ≡ Ordering.gt
positive_sign Ordering.gt e = refl
positive_sign Ordering.eq e = absurd (ground arith)
positive_sign Ordering.lt e = absurd (ground arith)

not_above : (o : Ordering) → is_above o ≡ false → o ≢ Ordering.gt
not_above o e h = absurd (ground (arith, ap is_above h))

abbrev choose : Bool → Bool → Decimal → Decimal × List Problem
choose positive above budget =
    if not positive || above then (zero_value, bad_budget ∷ []) else (budget, [])

kept_budget :
    (positive above : Bool) (budget : Decimal)
    → is_clear ((choose positive above budget).1) ≡ true
    → (positive ≡ true) × (above ≡ false) × ((choose positive above budget).0 ≡ budget)
kept_budget true true budget e = absurd (ground arith)
kept_budget false above budget e = absurd (ground arith)
kept_budget true false budget e = (refl, refl, refl)

budget_parsed :
    (parsed : Option Decimal) (limit : Decimal)
    → is_clear ((budget_of parsed limit).1) ≡ true
    → (parsed ≡ some ((budget_of parsed limit).0))
      × (sign ((budget_of parsed limit).0) ≡ Ordering.gt)
      × (cmp ((budget_of parsed limit).0) limit ≢ Ordering.gt)
budget_parsed none limit e = absurd (ground arith)
budget_parsed (some budget) limit e =
    let (positive, above, same) =
      kept_budget (is_positive (sign budget)) (is_above (cmp budget limit)) budget e in
    (
      ap some (sym same),
      ap sign same ∙ positive_sign (sign budget) positive,
      λ h. not_above (cmp budget limit) above (sym (ap (λ d. cmp d limit) same) ∙ h),
    )

budget_granted :
    (text : Option Bytes) (limit : Decimal)
    → is_clear ((check_budget text limit).1) ≡ true
    → StatesBudget text ((check_budget text limit).0)
      × (sign ((check_budget text limit).0) ≡ Ordering.gt)
      × (cmp ((check_budget text limit).0) limit ≢ Ordering.gt)
unfolding check_budget
budget_granted none limit e = absurd (ground arith)
budget_granted (some text) limit e =
    let (read, positive, under) = budget_parsed (parse text) limit e in
    ((text, refl, read), positive, under)

expiry_granted :
    (expiry : Expiry) (now : ℕ)
    → is_clear (check_expiry expiry now) ≡ true
    → (t : ℕ) × (expiry ≡ expires_at t) × (now < t)
unfolding check_expiry
expiry_granted unset now e = absurd (ground arith)
expiry_granted unreadable now e = absurd (ground arith)
expiry_granted (expires_at t) now e = (t, refl, ground arith)

parallel_granted :
    (limit : Option ℤ)
    → is_clear ((check_parallel limit).1) ≡ true
    → StatesLimit limit ((check_parallel limit).0)
unfolding check_parallel
parallel_granted none e = absurd (ground arith)
parallel_granted (some (pos zero)) e = absurd (ground arith)
parallel_granted (some (pos (suc n))) e = (suc n, refl, refl, omega arith)
parallel_granted (some (negsuc n)) e = absurd (ground arith)

request_granted :
    (limit : Option ℤ)
    → is_clear ((check_request limit).1) ≡ true
    → StatesLimit limit ((check_request limit).0)
unfolding check_request
request_granted none e = absurd (ground arith)
request_granted (some (pos zero)) e = absurd (ground arith)
request_granted (some (pos (suc n))) e = (suc n, refl, refl, omega arith)
request_granted (some (negsuc n)) e = absurd (ground arith)

run_granted :
    (run expected : Bytes)
    → is_clear (check_run run expected) ≡ true
    → (run ≡ expected) × (expected ≢ [])
unfolding check_run
run_granted run expected e =
    ground (arith, bytes_eq_iff run [], bytes_eq_iff run expected, bytes_eq_iff expected [])

split_five :
    (p q r s t : Bool)
    → (p && (q && (r && (s && t)))) ≡ true
    → (p ≡ true) × (q ≡ true) × (r ≡ true) × (s ≡ true) × (t ≡ true)
split_five p q r s t e = ground arith

five :
    (p q r s t : List Problem)
    → is_clear (p ++ (q ++ (r ++ (s ++ t)))) ≡ true
    → (is_clear p ≡ true)
      × (is_clear q ≡ true)
      × (is_clear r ≡ true)
      × (is_clear s ≡ true)
      × (is_clear t ≡ true)
five p q r s t e = split_five (is_clear p) (is_clear q) (is_clear r) (is_clear s) (is_clear t) (
    sym (
      is_clear-append p (q ++ (r ++ (s ++ t)))
      ∙ ap (λ b. is_clear p && b)
          (is_clear-append q (r ++ (s ++ t))
            ∙ ap (λ b. is_clear q && b)
                (is_clear-append r (s ++ t) ∙ ap (λ b. is_clear r && b) (is_clear-append s t))))
    ∙ e)

-- A grant of `Inspect` that holds states the key's own figures: the budget that the key's text
-- reads as, which is above zero and at or under the run's, and the parallel limit and the largest
-- request of its metadata, which are whole numbers above zero; the key's expiry lies ahead, and
-- it was minted for the run, which has a name.
pub inspect-IsGranted :
    (key_id_of : Bytes → Bytes) (key : Bytes) (info : KeyInfo) (expect : Expect)
    → holds (inspect key_id_of key info expect) ≡ true
    → IsGranted info expect (inspect key_id_of key info expect)
unfolding IsGranted inspect holds
inspect-IsGranted key_id_of key info expect e =
    let (p, q, r, s, t) =
      five ((check_budget info.max_budget expect.budget).1) (check_expiry info.expires expect.now)
        ((check_parallel info.max_parallel).1) _ _ e in
    let (stated, positive, under) = budget_granted info.max_budget expect.budget p in
    let (same, named) =
      run_granted (metadata_of info.metadata (codes "costroid_run_id")) expect.run t in
    (
      stated,
      positive,
      under,
      expiry_granted info.expires expect.now q,
      parallel_granted info.max_parallel r,
      request_granted _ s,
      same,
      named,
    )
