-- ===== src/Policy/Period.antt =====
-- internal/policy/period.go, and `endAtPullRequests` of policy.go: the period in which a rule that
-- fails warns instead.
use costroid.Prelude.{
  ℕ, ◌+◌, ◌*◌, ◌≤◌, ◌<◌, ◌==◌, ltb, Bool, true, false, ◌≡◌, ◌↔◌, ◌⊎◌, ◌||◌, not, if◌then◌else◌,
  none, some, arith,
}
use costroid.Policy.{Start, WarnOnly, in_period, ended, enforced, not_on_base, start_unknown}

abbrev pub second : ℕ
second = 1_000_000_000

-- `7 * 24 * time.Hour`
abbrev pub warn_only_period : ℕ
warn_only_period = 7 * 24 * 3600 * second

abbrev pub warn_only_pull_requests : ℕ
warn_only_pull_requests = 20

unfoldable pub warn_only : Bool → Start → ℕ → WarnOnly
warn_only enforce start at =
    let ends = start.at + warn_only_period in
    if enforce
    then record { active = false; reason = enforced; started = none; ends = none }
    else if start.not_on_base
    then record { active = true; reason = not_on_base; started = none; ends = none }
    else if start.at == 0
    then record { active = true; reason = start_unknown; started = none; ends = none }
    else if ltb at ends
    then record { active = true; reason = in_period; started = some start.at; ends = some ends }
    else record { active = false; reason = ended; started = some start.at; ends = some ends }

unfoldable pub end_at_pull_requests : WarnOnly → ℕ → WarnOnly
end_at_pull_requests period measured =
    if not period.active || ltb measured warn_only_pull_requests
    then period
    else record { active = false; reason = ended; started = period.started; ends = none }

-- The period as a check states it.
unfoldable pub check_period : Bool → Start → ℕ → ℕ → WarnOnly
unfolding warn_only end_at_pull_requests
check_period enforce start at measured = end_at_pull_requests (warn_only enforce start at) measured

-- The period has provably ended: it is enforced, or the twentieth measured pull request is there,
-- or seven days have passed since a start that is known and on the base branch.
abbrev pub HasEnded : Bool → Start → ℕ → ℕ → Type 0
HasEnded enforce start at measured =
    (enforce ≡ true)
    ⊎ (warn_only_pull_requests ≤ measured)
    ⊎ ((start.not_on_base ≡ false) × (0 < start.at) × (start.at + warn_only_period ≤ at))

-- The warn-only period is over exactly when it is enforced, or the twentieth measured pull
-- request is there, or seven days have passed since a start that is known and on the base branch.
pub check_period_ended :
    (enforce : Bool) (start : Start) (at measured : ℕ)
    → ((check_period enforce start at measured).active ≡ false) ↔ HasEnded enforce start at measured
unfolding check_period
check_period_ended enforce start at measured = (λ h. ground arith, λ h. ground arith)

-- A later check that counts no fewer pull requests reopens a warn-only period that was over only
-- where it is not enforced and counts fewer than twenty of them, and where the first check was
-- enforced or the later one's start is off the base branch, unknown or later than the first
-- one's.
pub check_period_reopened :
    (enforce enforced_later : Bool) (start start_later : Start) (at later measured more : ℕ)
    → at ≤ later
    → measured ≤ more
    → (check_period enforce start at measured).active ≡ false
    → (check_period enforced_later start_later later more).active ≡ true
    → (enforced_later ≡ false)
      × (more < warn_only_pull_requests)
      × ((enforce ≡ true)
          ⊎ (start_later.not_on_base ≡ true)
          ⊎ (start_later.at ≡ 0)
          ⊎ (start.at < start_later.at))
unfolding check_period
check_period_reopened enforce enforced_later start start_later at later measured more l m over
      again =
    (ground arith, ground arith, ground arith)
