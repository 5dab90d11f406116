-- ===== src/Limiter.antt =====
-- internal/scm/limiter.go: GitHub's limits per installation. An instant is the number of
-- nanoseconds since Go's zero time, so `IsZero` is a test against 0, and a duration is a number of
-- nanoseconds. An installation's id is only compared. Each call holds the mutex to its end, so the
-- calls of a program are steps one after another; `Steps` has their sequences.
pub mod Ring
pub mod Window
pub mod Admit
pub mod Steps
use costroid.Prelude.{
  ℕ, suc, ◌+◌, ◌-◌, ◌*◌, ◌%◌, ◌^◌, ◌==◌, ltb, leb, min, max, Bool, true, false, ◌≡◌, refl,
  if◌then◌else◌, List, [], ◌∷◌, Option, none, some, length, get_or, set, replicate,
}
use costroid.Prelude.Int.{ℤ, pos, pos_part, neg_part, ◌+ℤ◌, ◌-ℤ◌}

abbrev pub second : ℕ
second = 1_000_000_000

abbrev pub minute : ℕ
minute = 60 * second

abbrev pub hour : ℕ
hour = 60 * minute

abbrev pub writes_per_minute : ℕ
writes_per_minute = 80

abbrev pub writes_per_hour : ℕ
writes_per_hour = 500

abbrev pub max_concurrent : ℕ
max_concurrent = 100

abbrev pub concurrent_wait : ℕ
concurrent_wait = second

-- The longest `time.Duration`, at which `Sub` stops.
abbrev pub max_duration : ℕ
max_duration = 2 ^ 63 - 1

pub record Bucket : Type 0 where
  pub spent : List ℕ
  pub next : ℕ
  pub period : ℕ

unfoldable pub new_bucket : ℕ → ℕ → Bucket
new_bucket limit period = record { spent = replicate limit 0; next = 0; period = period }

-- `-` stops at 0, as the `max(…, 0)` around the difference does.
unfoldable pub wait : Bucket → ℕ → ℕ
wait b now =
    let oldest = get_or b.spent b.next 0 in
    if oldest == 0 then 0 else min (oldest + b.period - now) max_duration

unfoldable pub spend : Bucket → ℕ → Bucket
spend b now = record b { spent = set b.spent b.next now; next = (b.next + 1) % length b.spent }

pub record Quota : Type 0 where
  pub per_minute : Bucket
  pub per_hour : Bucket
  pub active : ℤ

unfoldable pub new_quota : Quota
unfolding new_bucket
new_quota = record {
  per_minute = new_bucket writes_per_minute minute;
  per_hour = new_bucket writes_per_hour hour;
  active = pos 0;
}

-- The map from an installation to its quota.
pub record Limiter : Type 0 where
  pub installations : List (ℕ × Quota)

pub new_limiter : Limiter
new_limiter = record { installations = [] }

unfoldable pub lookup : ℕ → List (ℕ × Quota) → Option Quota
lookup id [] = none
lookup id ((j, q) ∷ m) = if j == id then some q else lookup id m

unfoldable pub insert : ℕ → Quota → List (ℕ × Quota) → List (ℕ × Quota)
insert id q [] = (id, q) ∷ []
insert id q ((j, r) ∷ m) = if j == id then (id, q) ∷ m else (j, r) ∷ insert id q m

pub data Admission : Type 0 where
  admitted : Admission
  limited : ℕ → Admission

-- What one installation's quota answers, and what becomes of it.
unfoldable pub admit_quota : Quota → Bool → ℕ → Quota × Admission
admit_quota state write now =
    let longest = max (wait state.per_minute now) (wait state.per_hour now) in
    let counted = record state { active = state.active +ℤ pos 1 } in
    let paid = record counted {
      per_minute = spend state.per_minute now;
      per_hour = spend state.per_hour now;
    } in
    if leb (max_concurrent + neg_part state.active) (pos_part state.active)
    then (state, limited concurrent_wait)
    else if write
    then (if ltb 0 longest then (state, limited longest) else (paid, admitted))
    else (counted, admitted)

-- The quota of an installation; one that was never seen gets a new one.
unfoldable pub quota_of : Limiter → ℕ → Quota
quota_of l id = elim (lookup id l.installations) [ some q ↦ q | none ↦ new_quota ]

unfoldable pub admit : Limiter → ℕ → Bool → ℕ → Limiter × Admission
admit l id write now =
    let (state, answer) = admit_quota (quota_of l id) write now in
    (record l { installations = insert id state l.installations }, answer)

-- The function that `Admit` returns. A quota never leaves the map, so the installation's id finds
-- the quota that the function holds.
unfoldable pub release : Limiter → ℕ → Limiter
release l id =
    let state = quota_of l id in
    record l {
      installations = insert id (record state { active = state.active -ℤ pos 1 }) l.installations;
    }
