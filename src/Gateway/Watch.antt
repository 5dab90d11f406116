-- ===== src/Gateway/Watch.antt =====
-- The probes of the gateway's store while an agent runs: `Watch` and the `watcher` of
-- internal/gateway/session.go. What a probe is answered is an argument.
use costroid.Prelude.{
  ℕ, ◌==◌, not, ◌≡◌, ◌↔◌, refl, if◌then◌else◌, List, [], ◌∷◌, Option, none, some, Bytes, bytes_eq,
  bytes_eq_iff, ◌⊎◌, inl, inr, codes, arith, All,
}

-- The reasons that the store did not hold; their words are not modelled.
pub data Reason : Type 0 where
  unanswered store_lost not_ready : Reason

-- What a probe finds: its context ended, an error, or the status and the store of the answer.
pub data Probe : Type 0 where
  ended errored : Probe
  answered : ℕ → Bytes → Probe

unfoldable pub reason_of : Probe → Option Reason
reason_of ended = none
reason_of errored = some unanswered
reason_of (answered status store) =
    if not (status == 200)
    then some not_ready
    else if not (bytes_eq store (codes "connected"))
    then some store_lost
    else none

-- `probe`, on the reason that the watcher keeps: the first one stays.
unfoldable pub probe : Option Reason → Probe → Option Reason
unfolding reason_of
probe none found = reason_of found
probe (some reason) found = some reason

-- The reason after the probes of a watch, the last one included.
unfoldable pub watch : Option Reason → List Probe → Option Reason
unfolding probe
watch failed [] = failed
watch failed (found ∷ later) = watch (probe failed found) later

-- A probe that shows no lost store: its context ended, or the answer is 200 with the store connected.
abbrev pub HoldsAt : Probe → Type 0
HoldsAt found = (found ≡ ended) ⊎ (found ≡ answered 200 (codes "connected"))

reason_of-none : (found : Probe) → (reason_of found ≡ none) ↔ HoldsAt found
unfolding reason_of
reason_of-none ended = (λ e. inl refl, λ h. refl)
reason_of-none errored = (λ e. absurd (ground arith), λ h. absurd (ground arith))
reason_of-none (answered status store) = (
  λ e. inr (ground (arith, bytes_eq_iff store (codes "connected"))),
  λ h. ground (arith, bytes_eq_iff store (codes "connected")),
)

watch-some : (reason : Reason) (probes : List Probe) → watch (some reason) probes ≡ some reason
unfolding watch
watch-some reason [] = refl
watch-some reason (found ∷ later) = watch-some reason later

watch_step :
    (failed : Option Reason) (later : List Probe)
    → (watch none later ≡ none) ↔ All HoldsAt later
    → (watch failed later ≡ none) ↔ ((failed ≡ none) × All HoldsAt later)
watch_step none later same = (λ e. (refl, same.0 e), λ h. same.1 (h.1))
watch_step (some reason) later same =
    (λ e. absurd (ground (arith, watch-some reason later)), λ h. absurd (ground (arith, h.0)))

-- A watch of the gateway's store ends without a reason exactly when each of its probes was
-- answered 200 with the store connected or found its context ended.
pub watch-none : (probes : List Probe) → (watch none probes ≡ none) ↔ All HoldsAt probes
unfolding watch probe
watch-none [] = (λ e. tt, λ h. refl)
watch-none (found ∷ later) =
    let (shows, gives) = reason_of-none found in
    let (first, back) = watch_step (reason_of found) later (watch-none later) in
    (λ e. (shows ((first e).0), (first e).1), λ h. back (gives (h.0), h.1))
