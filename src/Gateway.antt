-- ===== src/Gateway.antt =====
-- internal/gateway: what a run's key must say about itself (session.go), and what the gateway counted on it
-- (count.go). The answers of the gateway come decoded. SHA-256 is a parameter, and what encoding/json and the
-- time package make of the key's expiry is a field.

pub mod Holds
pub mod Watch
pub mod Places
pub mod Rounding
use costroid.Prelude.{
  ℕ, zero, suc, ◌+◌, ltb, leb, ◌==◌, Ordering, Bool, true, false, ◌&&◌, ◌||◌, not, if◌then◌else◌,
  List, [], ◌∷◌, ◌++◌, Option, none, some, ◌>>=◌, Bytes, bytes_eq, length, take, all, codes,
}
use costroid.Prelude.Int.{ℤ, pos, negsuc}
use costroid.Decimal.{Decimal, zero_value, add, sub, mul, div_pow10, cmp, sign, scale}
use costroid.Decimal.Text.{cut, parse, parse_number, string, atoi}

-- What `ExpiresAt` answers: an instant, none set, or an error.
pub data Expiry : Type 0 where
  unset unreadable : Expiry
  expires_at : ℕ → Expiry

-- `KeyInfo`, as far as it is read. A value of the metadata that is no string is `none`.
pub record KeyInfo : Type 0 where
  pub max_budget : Option Bytes
  pub spend : Bytes
  pub expires : Expiry
  pub max_parallel : Option ℤ
  pub metadata : List (Bytes × Option Bytes)

pub record Expect : Type 0 where
  pub budget : Decimal
  pub run : Bytes
  pub now : ℕ

-- The problems of a grant; their words are not modelled.
pub data Problem : Type 0 where
  no_budget bad_budget bad_expiry no_expiry no_parallel no_request other_run : Problem

pub record Grant : Type 0 where
  pub key_id : Bytes
  pub granted_budget : Decimal
  pub granted_parallel : ℤ
  pub granted_request : ℤ
  pub problems : List Problem

abbrev pub is_clear : List Problem → Bool
is_clear [] = true
is_clear (p ∷ problems) = false

unfoldable pub holds : Grant → Bool
holds g = is_clear g.problems

abbrev or_empty : Option Bytes → Bytes
or_empty none = []
or_empty (some s) = s

unfoldable pub metadata_of : List (Bytes × Option Bytes) → Bytes → Bytes
metadata_of [] key = []
metadata_of ((k, value) ∷ rest) key =
    let later = metadata_of rest key in if bytes_eq k key then or_empty value else later

abbrev pub is_positive : Ordering → Bool
is_positive Ordering.gt = true
is_positive o = false

abbrev pub is_above : Ordering → Bool
is_above Ordering.gt = true
is_above o = false

-- Each check of `Inspect`: the value granted, or the problem.
abbrev pub budget_of : Option Decimal → Decimal → Decimal × List Problem
budget_of none limit = (zero_value, bad_budget ∷ [])
budget_of (some budget) limit =
    if not (is_positive (sign budget)) || is_above (cmp budget limit)
    then (zero_value, bad_budget ∷ [])
    else (budget, [])

unfoldable pub check_budget : Option Bytes → Decimal → Decimal × List Problem
check_budget none limit = (zero_value, no_budget ∷ [])
check_budget (some text) limit = budget_of (parse text) limit

unfoldable pub check_expiry : Expiry → ℕ → List Problem
check_expiry unreadable now = bad_expiry ∷ []
check_expiry unset now = no_expiry ∷ []
check_expiry (expires_at t) now = if leb t now then no_expiry ∷ [] else []

unfoldable pub check_parallel : Option ℤ → ℤ × List Problem
check_parallel (some (pos (suc n))) = (pos (suc n), [])
check_parallel (some (pos zero)) = (pos 0, no_parallel ∷ [])
check_parallel (some (negsuc n)) = (pos 0, no_parallel ∷ [])
check_parallel none = (pos 0, no_parallel ∷ [])

unfoldable pub check_request : Option ℤ → ℤ × List Problem
check_request (some (pos (suc n))) = (pos (suc n), [])
check_request (some (pos zero)) = (pos 0, no_request ∷ [])
check_request (some (negsuc n)) = (pos 0, no_request ∷ [])
check_request none = (pos 0, no_request ∷ [])

unfoldable pub check_run : Bytes → Bytes → List Problem
check_run run expected =
    if bytes_eq run [] || not (bytes_eq run expected) then other_run ∷ [] else []

unfoldable pub inspect : (Bytes → Bytes) → Bytes → KeyInfo → Expect → Grant
unfolding check_budget check_expiry check_parallel check_request check_run metadata_of
inspect key_id_of key info expect =
    let (budget, p) = check_budget info.max_budget expect.budget in
    let (parallel, q) = check_parallel info.max_parallel in
    let (request, r) =
      check_request (atoi (metadata_of info.metadata (codes "costroid_max_request_tokens"))) in
    record {
      key_id = key_id_of key;
      granted_budget = budget;
      granted_parallel = parallel;
      granted_request = request;
      problems =
          p
          ++ (check_expiry info.expires expect.now
              ++ (q
                  ++ (r
                      ++ check_run (metadata_of info.metadata (codes "costroid_run_id"))
                          expect.run)));
    }

-- `spendTolerance`
abbrev pub spend_tolerance : Decimal
spend_tolerance = record { coefficient = pos 1; scale = 9 }

abbrev absolute_gap : Decimal → Decimal
absolute_gap gap = elim (sign gap) [ Ordering.lt ↦ sub zero_value gap | _ ↦ gap ]

unfoldable pub same_spend : Decimal → Decimal → Bool
same_spend counted total =
    not (is_above (cmp (absolute_gap (sub counted total)) (mul total spend_tolerance)))

-- What `Client.Count` reads of one key that the gateway listed.
pub record ListedKey : Type 0 where
  pub token : Bytes
  pub alias : Bytes
  pub key_spend : Bytes

pub record KeyCount : Type 0 where
  pub counted_id : Bytes
  pub counted_spend : Decimal

abbrev is_hex : ℕ → Bool
is_hex c = leb b'0' c && leb c b'9' || leb b'a' c && leb c b'f'

-- `keyIDPattern`
unfoldable pub is_key_id : Bytes → Bool
is_key_id token = length token == 64 && all is_hex token

abbrev unless_negative : Decimal → Option Decimal
unless_negative spend = elim (sign spend) [ Ordering.lt ↦ none | _ ↦ some spend ]

unfoldable pub spend_of : Bytes → Option Decimal
spend_of field = do spend ← parse_number field; unless_negative spend

-- The loop of `Count`: an error on the first key of the run that cannot be read.
unfoldable pub counts_of : Bytes → List ListedKey → Option (List KeyCount)
unfolding is_key_id spend_of
counts_of alias [] = some []
counts_of alias (key ∷ keys) =
    let rest = counts_of alias keys in
    if not (bytes_eq key.alias alias) then rest else if not (is_key_id key.token) then none else do
      spend ← spend_of key.key_spend
      found ← rest
      some (record { counted_id = key.token; counted_spend = spend } ∷ found)

pub data Counted : Type 0 where
  count_error no_key : Counted
  one_key : KeyCount → Counted

unfoldable pub count_keys : Bytes → List ListedKey → Counted
unfolding counts_of
count_keys alias keys = elim (counts_of alias keys) [
  | none ↦ count_error
  | some [] ↦ no_key
  | some (found ∷ []) ↦ one_key found
  | some (found ∷ another ∷ more) ↦ count_error
]

abbrev pub ledger_scale : ℕ
ledger_scale = 12

-- `roundUp`; `MustParse`, which panics on a text that is no decimal, is `none` there.
unfoldable pub round_up : Decimal → ℕ → Option Decimal
round_up figure places =
    let (whole, fraction, found) = cut b'.' (string figure) in
    if leb (scale figure) places then some figure else do
      kept ← parse (whole ++ (b'.' ∷ take places fraction))
      one ← parse (codes "1")
      some (add kept (div_pow10 one places))

-- The spend that `SpendFor` attests.
unfoldable pub spend_for : KeyCount → Option Bytes
unfolding round_up
spend_for count = do spend ← round_up count.counted_spend ledger_scale; some (string spend)
