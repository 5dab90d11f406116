-- ===== src/Examples/Writes.antt =====
-- Concrete runs of internal/scm/limiter.go, and a warn-only period of internal/policy/period.go.
use costroid.Prelude.{ℕ, ◌+◌, ◌≤◌, ◌<◌, ◌⊎◌, [], ◌∷◌, true, false, ◌≡◌, ◌↔◌, inl, refl, arith}
use costroid.Limiter.{
  Bucket, new_bucket, wait, spend, minute, hour, quota_of, admitted, writes_per_minute,
  writes_per_hour, max_concurrent,
}
use costroid.Limiter.Window.{count_in, recent, wait_exact}
use costroid.Limiter.Ring.{new_bucket-Tracks, spend-Tracks}
use costroid.Limiter.Admit.{Allows}
use costroid.Limiter.Steps.{
  World, start, call, Reach, begin, next, calls, answer, Reach-count_in, Reach-Allows, call_quotas,
}
use costroid.Policy.{Start}
use costroid.Policy.Period.{
  check_period, HasEnded, check_period_ended, check_period_reopened, warn_only_period,
  warn_only_pull_requests,
}

-- An hour after Go's zero time.
abbrev noon : ℕ
noon = hour

abbrev one_write : World
one_write = call start 7 true noon

one_write-Reach : Reach one_write
unfolding start
one_write-Reach = next begin (calls 7 true noon (omega arith) (omega arith))

soon : one_write.clock ≤ noon + 5
unfolding call
soon = omega arith

Reach-count_in_example :
    (count_in noon (noon + minute) (one_write.writes 7) ≤ writes_per_minute)
    × (count_in noon (noon + hour) (one_write.writes 7) ≤ writes_per_hour)
    × (one_write.held 7 ≤ max_concurrent)
Reach-count_in_example = Reach-count_in one_write 7 noon one_write-Reach

Reach-Allows_example :
    (answer one_write 7 true (noon + 5) ≡ admitted)
    ↔ Allows (one_write.writes 7) (one_write.held 7) true (noon + 5)
Reach-Allows_example = Reach-Allows one_write 7 true (noon + 5) one_write-Reach soon (omega arith)

call_quotas_example :
    quota_of (call one_write 7 true (noon + 5)).limiter 8 ≡ quota_of one_write.limiter 8
call_quotas_example =
    call_quotas one_write 7 true (noon + 5) 8 one_write-Reach (inl (λ e. absurd (ground arith)))

-- A bucket of one token that was spent at 10, and is back at 15.
abbrev spent_bucket : Bucket
spent_bucket = spend (new_bucket 1 5) 10

wait_exact_example : (wait spent_bucket 12 ≤ 3) ↔ (recent 5 (12 + 3) (10 ∷ []) ≤ 0)
unfolding spend new_bucket wait
wait_exact_example =
    wait_exact 0 5 12 3 (10 ∷ []) spent_bucket
      (spend-Tracks 1 5 10 [] (new_bucket 1 5) (new_bucket-Tracks 1 5 (omega arith)))
      (omega arith, omega arith, tt) (omega arith)

abbrev merged : Start
merged = record { at = 3; not_on_base = false }

check_period_ended_example :
    ((check_period false merged 5 20).active ≡ false) ↔ HasEnded false merged 5 20
check_period_ended_example = check_period_ended false merged 5 20

-- A start that a later check cannot read.
abbrev unread : Start
unread = record { at = 0; not_on_base = false }

check_period_reopened_example :
    (false ≡ false)
    × (9 < warn_only_pull_requests)
    × ((false ≡ true) ⊎ (unread.not_on_base ≡ true) ⊎ (unread.at ≡ 0) ⊎ (merged.at < unread.at))
unfolding check_period
check_period_reopened_example =
    check_period_reopened false false merged unread (3 + warn_only_period) (4 + warn_only_period) 8
      9 (omega arith) (omega arith) refl refl
