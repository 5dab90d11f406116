-- ===== src/Limiter/Window.antt =====
-- The rolling limit of limiter.go, on the history of one bucket: what `wait` answers, and how many
-- tokens any period holds.
use costroid.Prelude.{
  ℕ, zero, suc, ◌+◌, ◌≤◌, ◌<◌, ltb, leb, ◌&&◌, ◌≡◌, ◌≢◌, ◌↔◌, ◌⊎◌, refl, if◌then◌else◌, List, [],
  ◌∷◌, length, get_or, arith,
}
use costroid.Limiter.{Bucket, wait, max_duration}
use costroid.Limiter.Ring.{Tracks, oldest-history}

-- How many instants of a history lie in [from, to).
abbrev pub count_in : ℕ → ℕ → List ℕ → ℕ
count_in from to [] = 0
count_in from to (t ∷ h) =
    let rest = count_in from to h in if leb from t && ltb t to then suc rest else rest

-- A history of a clock that never runs backwards: newest first, after Go's zero time, none later
-- than `now`.
abbrev pub IsHistory : ℕ → List ℕ → Type 0
IsHistory now [] = Unit
IsHistory now (t ∷ h) = (0 < t) × (t ≤ now) × IsHistory t h

-- The instants of a history that a bucket of `period` still counts at `now`.
abbrev pub recent : ℕ → ℕ → List ℕ → ℕ
recent period now [] = 0
recent period now (t ∷ h) =
    let rest = recent period now h in if ltb now (t + period) then suc rest else rest

pub IsHistory-later :
    (now later : ℕ) (h : List ℕ) → now ≤ later → IsHistory now h → IsHistory later h
IsHistory-later now later [] l p = p
IsHistory-later now later (t ∷ h) l (pos, le, rest) = (pos, omega arith, rest)

recent-le-length : (period now : ℕ) (h : List ℕ) → recent period now h ≤ length h
recent-le-length period now [] = omega arith
recent-le-length period now (t ∷ h) = ground (arith, recent-le-length period now h)

recent_of_old :
    (period now from : ℕ) (h : List ℕ)
    → IsHistory from h
    → from + period ≤ now
    → recent period now h ≡ 0
recent_of_old period now from [] p l = refl
recent_of_old period now from (t ∷ h) (pos, le, rest) l =
    ground (arith, recent_of_old period now t h rest)

-- When the token spent `k` tokens ago is back, or was never spent, at most `k` are out.
recent-le :
    (period now from k : ℕ) (h : List ℕ)
    → IsHistory from h
    → (get_or h k 0 ≡ 0) ⊎ (get_or h k 0 + period ≤ now)
    → recent period now h ≤ k
recent-le period now from k [] p back = omega arith
recent-le period now from zero (t ∷ h) (pos, le, rest) back =
    ground (arith, recent_of_old period now t h rest)
recent-le period now from (suc k) (t ∷ h) (pos, le, rest) back =
    ground (arith, recent-le period now t k h rest back)

-- `wait` answers 0 exactly when the oldest token is back.
wait-zero :
    (b : Bucket) (now oldest : ℕ)
    → get_or b.spent b.next 0 ≡ oldest
    → wait b now ≡ 0
    → (oldest ≡ 0) ⊎ (oldest + b.period ≤ now)
unfolding wait
wait-zero b now oldest e h = ground arith

-- A bucket that asks for no wait has a token: fewer than its limit are out.
pub wait-recent :
    (limit period now from : ℕ) (h : List ℕ) (b : Bucket)
    → Tracks (suc limit) period h b
    → IsHistory from h
    → wait b now ≡ 0
    → recent period now h ≤ limit
wait-recent limit period now from h b tracks p w = recent-le period now from limit h p (
    rw (tracks.same_period) at
      (wait-zero b now (get_or h limit 0) (oldest-history limit period h b tracks) w))

get_or-le : (from k : ℕ) (h : List ℕ) → IsHistory from h → get_or h k 0 ≤ from
get_or-le from k [] p = omega arith
get_or-le from zero (t ∷ h) (pos, le, rest) = le
get_or-le from (suc k) (t ∷ h) (pos, le, rest) = omega (arith, get_or-le t k h rest)

-- A token that is out, with every token spent after it.
recent-ge :
    (period now from k : ℕ) (h : List ℕ)
    → IsHistory from h
    → get_or h k 0 ≢ 0
    → now < get_or h k 0 + period
    → k < recent period now h
recent-ge period now from k [] p out l = absurd (out refl)
recent-ge period now from zero (t ∷ h) p out l = ground arith
recent-ge period now from (suc k) (t ∷ h) (pos, le, rest) out l =
    ground (arith, recent-ge period now t k h rest out l, get_or-le t k h rest)

wait-pos :
    (b : Bucket) (now oldest : ℕ)
    → get_or b.spent b.next 0 ≡ oldest
    → wait b now ≢ 0
    → (oldest ≢ 0) × (now < oldest + b.period)
unfolding wait
wait-pos b now oldest e h = ground arith

-- It asks for a wait only when the limit is used up.
pub recent-wait :
    (limit period now from : ℕ) (h : List ℕ) (b : Bucket)
    → Tracks (suc limit) period h b
    → IsHistory from h
    → wait b now ≢ 0
    → limit < recent period now h
recent-wait limit period now from h b tracks p w =
    let (out, late) =
      wait-pos b now (get_or h limit 0) (oldest-history limit period h b tracks) w in
    recent-ge period now from limit h p out (rw (tracks.same_period) at late)

wait_later :
    (b : Bucket) (now later : ℕ)
    → wait b now < max_duration
    → (wait b (now + later) ≡ 0) ↔ (wait b now ≤ later)
unfolding wait
wait_later b now later h = (λ z. ground arith, λ l. ground arith)

-- Where a bucket's ring holds the last spends of a history, and the wait that it names is one
-- that a duration holds, that wait is the least after which fewer tokens than the limit have been
-- spent within the period.
pub wait_exact :
    (limit period now later : ℕ) (h : List ℕ) (b : Bucket)
    → Tracks (suc limit) period h b
    → IsHistory now h
    → wait b now < max_duration
    → (wait b now ≤ later) ↔ (recent period (now + later) h ≤ limit)
wait_exact limit period now later h b tracks p short =
    let (zero_then, then_zero) = wait_later b now later short in
    (
      λ l. wait-recent limit period (now + later) now h b tracks p (then_zero l),
      λ room. zero_then (
          no_wait (wait b (now + later))
            (λ w. omega (arith, recent-wait limit period (now + later) now h b tracks p w, room))),
    )
  where
    no_wait : (n : ℕ) → (n ≢ 0 → 1 ≤ 0) → n ≡ 0
    no_wait zero h = refl
    no_wait (suc n) h = absurd (omega (arith, h (λ e. absurd (ground arith))))

-- Every instant was admitted while the bucket had a token for it.
abbrev pub IsSpaced : ℕ → ℕ → List ℕ → Type 0
IsSpaced limit period [] = Unit
IsSpaced limit period (t ∷ h) = (recent period t h < limit) × IsSpaced limit period h

count_in-le-recent :
    (period from t now : ℕ) (h : List ℕ)
    → IsHistory now h
    → t < from + period
    → count_in from (from + period) h ≤ recent period t h
count_in-le-recent period from t now [] p l = omega arith
count_in-le-recent period from t now (u ∷ h) (pos, le, rest) l =
    ground (arith, count_in-le-recent period from t u h rest l)

-- So no period, wherever it starts, holds more than the limit.
pub count_in-le :
    (limit period from now : ℕ) (h : List ℕ)
    → IsHistory now h
    → IsSpaced limit period h
    → count_in from (from + period) h ≤ limit
count_in-le limit period from now [] p s = omega arith
count_in-le limit period from now (t ∷ h) (pos, le, rest) (room, spaced) = ground (
  arith,
  count_in-le limit period from t h rest spaced,
  count_in-le-recent period from t t h rest,
)
