-- ===== src/Limiter/Admit.antt =====
-- One installation's quota under limiter.go's `Admit` and release: what a request is answered, and
-- the invariant that ties the buckets to the writes admitted so far.
use native.Mathlib.Decide.{dec_lt}
use costroid.Prelude.{
  ℕ, suc, ◌≤◌, ◌<◌, ltb, max, Bool, true, false, ◌≡◌, ◌≢◌, ◌↔◌, ◌⊎◌, inl, inr, refl, List, [], ◌∷◌,
  arith,
}
use costroid.Prelude.Int.{pos, ◌+ℤ◌}
use costroid.Limiter.{
  wait, spend, Quota, new_quota, Admission, admitted, limited, admit_quota, minute, hour,
  writes_per_minute, writes_per_hour, max_concurrent, concurrent_wait,
}
use costroid.Limiter.Ring.{Tracks, new_bucket-Tracks, spend-Tracks}
use costroid.Limiter.Window.{IsHistory, IsSpaced, recent, IsHistory-later, wait-recent, recent-wait}

-- A quota whose buckets hold the writes of `h`, with `held` requests in flight.
pub record Sound (h : List ℕ) (held now : ℕ) (q : Quota) : Type 0 where
  pub minute_tracks : Tracks writes_per_minute minute h q.per_minute
  pub hour_tracks : Tracks writes_per_hour hour h q.per_hour
  pub history : IsHistory now h
  pub minute_spaced : IsSpaced writes_per_minute minute h
  pub hour_spaced : IsSpaced writes_per_hour hour h
  pub in_flight : q.active ≡ pos held
  pub capped : held ≤ max_concurrent

pub new_quota-Sound : (now : ℕ) → Sound [] 0 now new_quota
unfolding new_quota
new_quota-Sound now = record {
  minute_tracks = new_bucket-Tracks writes_per_minute minute (omega arith);
  hour_tracks = new_bucket-Tracks writes_per_hour hour (omega arith);
  history = tt;
  minute_spaced = tt;
  hour_spaced = tt;
  in_flight = refl;
  capped = omega arith;
}

abbrev pub has_room : ℕ → Bool
has_room held = ltb held max_concurrent

-- What the limits allow: a place for the request, and for a write a token of each bucket.
pub record Allows (h : List ℕ) (held : ℕ) (write : Bool) (now : ℕ) : Type 0 where
  pub place : held < max_concurrent
  pub minute_token : (write ≡ false) ⊎ (recent minute now h < writes_per_minute)
  pub hour_token : (write ≡ false) ⊎ (recent hour now h < writes_per_hour)

-- The history and the requests in flight behind an answer.
abbrev pub history_after : Admission → Bool → ℕ → List ℕ → List ℕ
history_after admitted true now h = now ∷ h
history_after _ _ now h = h

abbrev pub held_after : Admission → ℕ → ℕ
held_after admitted held = suc held
held_after (limited w) held = held

-- The three tests of `Admit`, as the answer that they lead to.
full :
    (q : Quota) (write : Bool) (now held : ℕ)
    → q.active ≡ pos held
    → max_concurrent ≤ held
    → admit_quota q write now ≡ (q, limited concurrent_wait)
unfolding admit_quota
full q write now held e l = ground arith

waits :
    (q : Quota) (now held : ℕ)
    → q.active ≡ pos held
    → held < max_concurrent
    → 0 < max (wait q.per_minute now) (wait q.per_hour now)
    → admit_quota q true now ≡ (q, limited (max (wait q.per_minute now) (wait q.per_hour now)))
unfolding admit_quota
waits q now held e l w = ground arith

abbrev counted : Quota → ℕ → Quota
counted q held = record q { active = pos (suc held) }

abbrev paid : Quota → ℕ → ℕ → Quota
paid q held now = record {
  per_minute = spend q.per_minute now;
  per_hour = spend q.per_hour now;
  active = pos (suc held);
}

reads :
    (q : Quota) (now held : ℕ)
    → q.active ≡ pos held
    → held < max_concurrent
    → admit_quota q false now ≡ (counted q held, admitted)
unfolding admit_quota ◌+ℤ◌
reads q now held e l = ground arith

writes :
    (q : Quota) (now held : ℕ)
    → q.active ≡ pos held
    → held < max_concurrent
    → max (wait q.per_minute now) (wait q.per_hour now) ≡ 0
    → admit_quota q true now ≡ (paid q held now, admitted)
unfolding admit_quota ◌+ℤ◌
writes q now held e l w = ground arith

-- What `Admit` answers a quota, with the reason.
data Decision (q : Quota) (write : Bool) (now held : ℕ) : Quota × Admission → Type 0 where
  no_place : max_concurrent ≤ held → Decision q write now held (q, limited concurrent_wait)
  no_token :
      held < max_concurrent
      → write ≡ true
      → 0 < max (wait q.per_minute now) (wait q.per_hour now)
      → Decision q write now held (q, limited (max (wait q.per_minute now) (wait q.per_hour now)))
  read_passes :
      held < max_concurrent → write ≡ false → Decision q write now held (counted q held, admitted)
  write_passes :
      held < max_concurrent
      → write ≡ true
      → max (wait q.per_minute now) (wait q.per_hour now) ≡ 0
      → Decision q write now held (paid q held now, admitted)

decide :
    (q : Quota) (write : Bool) (now held : ℕ)
    → q.active ≡ pos held
    → Decision q write now held (admit_quota q write now)
decide q write now held e = elim (dec_lt held max_concurrent) [
  | yes l ↦ placed write l
  | no l ↦ rw (full q write now held e (omega arith)) (no_place (omega arith))
]
  where
    placed :
        (write : Bool) → held < max_concurrent → Decision q write now held (admit_quota q write now)
    placed false l = rw (reads q now held e l) (read_passes l refl)
    placed true l = elim (dec_lt 0 (max (wait q.per_minute now) (wait q.per_hour now))) [
      | yes w ↦ rw (waits q now held e l w) (no_token l refl w)
      | no w ↦
          let none_out : max (wait q.per_minute now) (wait q.per_hour now) ≡ 0 = omega arith in
          rw (writes q now held e l none_out) (write_passes l refl none_out)
    ]

module _ (h : List ℕ) (held from now : ℕ) (q : Quota) (later : from ≤ now) (positive : 0 < now)
    (sound : Sound h held from q) where
  minute_room : wait q.per_minute now ≡ 0 → recent minute now h < writes_per_minute
  minute_room w =
      omega
        (arith, wait-recent 79 minute now from h q.per_minute sound.minute_tracks sound.history w)

  hour_room : wait q.per_hour now ≡ 0 → recent hour now h < writes_per_hour
  hour_room w =
      omega (arith, wait-recent 499 hour now from h q.per_hour sound.hour_tracks sound.history w)

  unchanged : Sound h held now q
  unchanged = record {
    minute_tracks = sound.minute_tracks;
    hour_tracks = sound.hour_tracks;
    history = IsHistory-later from now h later sound.history;
    minute_spaced = sound.minute_spaced;
    hour_spaced = sound.hour_spaced;
    in_flight = sound.in_flight;
    capped = sound.capped;
  }

  counted-Sound : held < max_concurrent → Sound h (suc held) now (counted q held)
  counted-Sound l = record {
    minute_tracks = sound.minute_tracks;
    hour_tracks = sound.hour_tracks;
    history = IsHistory-later from now h later sound.history;
    minute_spaced = sound.minute_spaced;
    hour_spaced = sound.hour_spaced;
    in_flight = refl;
    capped = l;
  }

  paid-Sound :
      held < max_concurrent
      → max (wait q.per_minute now) (wait q.per_hour now) ≡ 0
      → Sound (now ∷ h) (suc held) now (paid q held now)
  paid-Sound l w = record {
    minute_tracks = spend-Tracks writes_per_minute minute now h q.per_minute sound.minute_tracks;
    hour_tracks = spend-Tracks writes_per_hour hour now h q.per_hour sound.hour_tracks;
    history = (positive, omega arith, IsHistory-later from now h later sound.history);
    minute_spaced = (minute_room (omega arith), sound.minute_spaced);
    hour_spaced = (hour_room (omega arith), sound.hour_spaced);
    in_flight = refl;
    capped = l;
  }

  after :
      (write : Bool) {r : Quota × Admission}
      → Decision q write now held r
      → Sound (history_after r.1 write now h) (held_after r.1 held) now r.0
  after write (no_place l) = unchanged
  after write (no_token l e w) = unchanged
  after write (read_passes l e) = rw e (counted-Sound l)
  after write (write_passes l e w) = rw e (paid-Sound l w)

  -- `Admit` keeps the invariant, whatever it answers.
  pub admit_quota-Sound :
      (write : Bool)
      → let r = admit_quota q write now in
        Sound (history_after r.1 write now h) (held_after r.1 held) now r.0
  admit_quota-Sound write = after write (decide q write now held sound.in_flight)

  minute_used : wait q.per_minute now ≢ 0 → writes_per_minute ≤ recent minute now h
  minute_used w = recent-wait 79 minute now from h q.per_minute sound.minute_tracks sound.history w

  hour_used : wait q.per_hour now ≢ 0 → writes_per_hour ≤ recent hour now h
  hour_used w = recent-wait 499 hour now from h q.per_hour sound.hour_tracks sound.history w

  allowed :
      (write : Bool) {r : Quota × Admission}
      → Decision q write now held r
      → r.1 ≡ admitted
      → Allows h held write now
  allowed write (no_place l) e = cc
  allowed write (no_token l t w) e = cc
  allowed write (read_passes l t) e = record { place = l; minute_token = inl t; hour_token = inl t }
  allowed write (write_passes l t w) e = record {
    place = l;
    minute_token = inr (minute_room (omega arith));
    hour_token = inr (hour_room (omega arith));
  }

  one_used :
      0 < max (wait q.per_minute now) (wait q.per_hour now)
      → (wait q.per_minute now ≢ 0) ⊎ (wait q.per_hour now ≢ 0)
  one_used w = ground arith

  passes :
      (write : Bool) {r : Quota × Admission}
      → Decision q write now held r
      → Allows h held write now
      → r.1 ≡ admitted
  passes write (no_place l) a = absurd (omega (arith, a.place))
  passes write (no_token l t w) a = elim (one_used w) [
    | inl used ↦ absurd (ground (arith, minute_used used, a.minute_token))
    | inr used ↦ absurd (ground (arith, hour_used used, a.hour_token))
  ]
  passes write (read_passes l t) a = refl
  passes write (write_passes l t w) a = refl

  -- `Admit` admits exactly what the rolling limits allow.
  pub admit_quota-Allows :
      (write : Bool) → ((admit_quota q write now).1 ≡ admitted) ↔ Allows h held write now
  admit_quota-Allows write =
      let d = decide q write now held sound.in_flight in (allowed write d, passes write d)

-- A refused request takes nothing: the quota is as it was.
refusal :
    {q : Quota} {write : Bool} {now held : ℕ} {r : Quota × Admission}
    → Decision q write now held r
    → r.1 ≢ admitted
    → r.0 ≡ q
refusal (no_place l) h = refl
refusal (no_token l t w) h = refl
refusal (read_passes l t) h = absurd (h refl)
refusal (write_passes l t w) h = absurd (h refl)

pub admit_quota_refused :
    (q : Quota) (write : Bool) (now held : ℕ)
    → q.active ≡ pos held
    → (admit_quota q write now).1 ≢ admitted
    → (admit_quota q write now).0 ≡ q
admit_quota_refused q write now held e h = refusal (decide q write now held e) h
