-- ===== src/Limiter/Steps.antt =====
-- The sequences of calls of limiter.go's `Limiter`. A world holds the limiter with what happened to
-- it: the clock of the last call, each installation's admitted writes, newest first, and how many
-- of its requests have not been released.
use costroid.Prelude.{
  ℕ, ◌+◌, ◌-◌, ◌≤◌, ◌<◌, ◌==◌, ==_iff, Bool, ◌≡◌, ◌≢◌, ◌↔◌, ◌⊎◌, inl, inr, refl, ap, ◌∙◌,
  if◌then◌else◌, List, [], ◌∷◌, some, arith, Bool-cases,
}
use costroid.Prelude.Int.{ℤ, pos, ◌-ℤ◌}
use costroid.Prelude.Families.{update}
use costroid.Limiter.{
  Quota, Limiter, new_limiter, lookup, insert, quota_of, admit, admit_quota, release, Admission,
  admitted, minute, hour, writes_per_minute, writes_per_hour, max_concurrent,
}
use costroid.Limiter.Window.{count_in, count_in-le, IsHistory-later}
use costroid.Limiter.Admit.{
  Sound, Allows, new_quota-Sound, admit_quota-Sound, admit_quota-Allows, admit_quota_refused,
  history_after, held_after,
}

pub record World : Type 0 where
  pub limiter : Limiter
  pub clock : ℕ
  pub writes : ℕ → List ℕ
  pub held : ℕ → ℕ

unfoldable pub start : World
start = record { limiter = new_limiter; clock = 0; writes = λ id. []; held = λ id. 0 }

-- One call of `Admit`.
unfoldable pub call : World → ℕ → Bool → ℕ → World
call w id write now =
    let (limiter, answer) = admit w.limiter id write now in
    record {
      limiter = limiter;
      clock = now;
      writes = update w.writes id (history_after answer write now (w.writes id));
      held = update w.held id (held_after answer (w.held id));
    }

-- One call of a function that `Admit` returned.
unfoldable pub finish : World → ℕ → World
finish w id = record w { limiter = release w.limiter id; held = update w.held id (w.held id - 1) }

-- A clock that is past Go's zero time and never runs backwards, and a release of what is held.
pub data Step (w : World) : World → Type 0 where
  calls : (id : ℕ) (write : Bool) (now : ℕ) → w.clock ≤ now → 0 < now → Step w (call w id write now)
  finishes : (id : ℕ) → 0 < w.held id → Step w (finish w id)

pub data Reach : World → Type 0 where
  begin : Reach start
  next : {w v : World} → Reach w → Step w v → Reach v

lookup-insert :
    (id j : ℕ) (q : Quota) (m : List (ℕ × Quota))
    → lookup j (insert id q m) ≡ (if id == j then some q else lookup j m)
unfolding lookup insert
lookup-insert id j q [] = refl
lookup-insert id j q ((i, r) ∷ m) = ground (arith, lookup-insert id j q m)

quota_of-insert :
    (id j : ℕ) (q : Quota) (m : List (ℕ × Quota))
    → quota_of (record { installations = insert id q m }) j
      ≡ (if id == j then q else quota_of (record { installations = m }) j)
unfolding quota_of
quota_of-insert id j q m = ground (arith, lookup-insert id j q m)

-- Every installation's quota is sound for its own writes and requests.
abbrev pub IsSound : World → Type 0
IsSound w = (id : ℕ) → Sound (w.writes id) (w.held id) w.clock (quota_of w.limiter id)

start-IsSound : IsSound start
unfolding start new_limiter quota_of lookup
start-IsSound id = new_quota-Sound 0

later-Sound :
    (h : List ℕ) (held from now : ℕ) (q : Quota)
    → from ≤ now
    → Sound h held from q
    → Sound h held now q
later-Sound h held from now q l s = record {
  minute_tracks = s.minute_tracks;
  hour_tracks = s.hour_tracks;
  history = IsHistory-later from now h l s.history;
  minute_spaced = s.minute_spaced;
  hour_spaced = s.hour_spaced;
  in_flight = s.in_flight;
  capped = s.capped;
}

call-IsSound :
    (w : World) (id : ℕ) (write : Bool) (now : ℕ)
    → w.clock ≤ now
    → 0 < now
    → IsSound w
    → IsSound (call w id write now)
unfolding call admit
call-IsSound w id write now l p sound j = elim (Bool-cases (id == j)) [
  | inl e ↦
      rw
        (
          quota_of-insert id j (admit_quota (quota_of w.limiter id) write now).0
              w.limiter.installations,
          e,
        )
        (admit_quota-Sound (w.writes id) (w.held id) w.clock now (quota_of w.limiter id) l p
          (sound id) write)
  | inr e ↦
      rw
        (
          quota_of-insert id j (admit_quota (quota_of w.limiter id) write now).0
              w.limiter.installations,
          e,
        )
        (later-Sound (w.writes j) (w.held j) w.clock now (quota_of w.limiter j) l (sound j))
]

released-Sound :
    (h : List ℕ) (held now : ℕ) (q : Quota)
    → 0 < held
    → Sound h held now q
    → Sound h (held - 1) now (record q { active = q.active -ℤ pos 1 })
unfolding ◌-ℤ◌
released-Sound h held now q p s = record {
  minute_tracks = s.minute_tracks;
  hour_tracks = s.hour_tracks;
  history = s.history;
  minute_spaced = s.minute_spaced;
  hour_spaced = s.hour_spaced;
  in_flight = fewer q.active held p s.in_flight;
  capped = omega (arith, s.capped);
}
  where
    fewer : (a : ℤ) (n : ℕ) → 0 < n → a ≡ pos n → a -ℤ pos 1 ≡ pos (n - 1)
    fewer a n p e = ground arith

finish-IsSound : (w : World) (id : ℕ) → 0 < w.held id → IsSound w → IsSound (finish w id)
unfolding finish release
finish-IsSound w id p sound j = elim (Bool-cases (id == j)) [
  | inl e ↦
      let same : id ≡ j = (==_iff id j).0 e in
      rw
        (quota_of-insert id j (released (quota_of w.limiter id)) w.limiter.installations, e, ← same)
        (released-Sound (w.writes id) (w.held id) w.clock (quota_of w.limiter id) p (sound id))
  | inr e ↦
      rw (quota_of-insert id j (released (quota_of w.limiter id)) w.limiter.installations, e)
        (sound j)
]
  where
    released : Quota → Quota
    released q = record q { active = q.active -ℤ pos 1 }

Reach-IsSound : {w : World} → Reach w → IsSound w
Reach-IsSound begin = start-IsSound
Reach-IsSound (next {w = w} r (calls id write now l p)) =
    call-IsSound w id write now l p (Reach-IsSound r)
Reach-IsSound (next {w = w} r (finishes id p)) = finish-IsSound w id p (Reach-IsSound r)

-- After any sequence of `Admit` calls under a clock that is past Go's zero time and never runs
-- backwards, and of releases of what is held, no minute holds more than 80 admitted writes of an
-- installation and no hour more than 500, wherever it starts, and never are more than 100 of its
-- requests in flight.
pub Reach-count_in :
    (w : World) (id from : ℕ)
    → Reach w
    → (count_in from (from + minute) (w.writes id) ≤ writes_per_minute)
      × (count_in from (from + hour) (w.writes id) ≤ writes_per_hour)
      × (w.held id ≤ max_concurrent)
Reach-count_in w id from r =
    let s = Reach-IsSound r id in
    (
      count_in-le writes_per_minute minute from w.clock (w.writes id) s.history s.minute_spaced,
      count_in-le writes_per_hour hour from w.clock (w.writes id) s.history s.hour_spaced,
      s.capped,
    )

-- The answer of `Admit`.
abbrev pub answer : World → ℕ → Bool → ℕ → Admission
answer w id write now = (admit w.limiter id write now).1

-- In every reachable world of the limiter, a request past Go's zero time that does not run the
-- clock backwards is admitted exactly when its installation's rolling limits allow it.
pub Reach-Allows :
    (w : World) (id : ℕ) (write : Bool) (now : ℕ)
    → Reach w
    → w.clock ≤ now
    → 0 < now
    → (answer w id write now ≡ admitted) ↔ Allows (w.writes id) (w.held id) write now
unfolding admit
Reach-Allows w id write now r l p =
    admit_quota-Allows (w.writes id) (w.held id) w.clock now (quota_of w.limiter id) l p
      (Reach-IsSound r id) write

-- In every reachable world of the limiter, a call for one installation leaves every other
-- installation's quota as it was, and a refused call leaves its own.
pub call_quotas :
    (w : World) (id : ℕ) (write : Bool) (now : ℕ) (j : ℕ)
    → Reach w
    → (id ≢ j) ⊎ (answer w id write now ≢ admitted)
    → quota_of (call w id write now).limiter j ≡ quota_of w.limiter j
unfolding call admit
call_quotas w id write now j r c = elim (Bool-cases (id == j)) [
  | inl e ↦
      let same : id ≡ j = (==_iff id j).0 e in
      rw
        (
          quota_of-insert id j (admit_quota (quota_of w.limiter id) write now).0
              w.limiter.installations,
          e,
        )
        (elim c [
          | inl other ↦ absurd (other same)
          | inr refused ↦
              admit_quota_refused (quota_of w.limiter id) write now (w.held id)
                (Reach-IsSound r id).in_flight refused
              ∙ ap (λ i. quota_of w.limiter i) same
        ])
  | inr e ↦ rw (
    quota_of-insert id j (admit_quota (quota_of w.limiter id) write now).0 w.limiter.installations,
    e,
  )
]
