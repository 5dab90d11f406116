-- ===== src/Egress/Allowlist.antt =====
-- What the gate of internal/egress/egress.go lets out, and what it counts.
use costroid.Prelude.{
  if◌then◌else◌, Bool, true, false, ◌&&◌, ◌||◌, not, ◌≡◌, ◌≢◌, ◌⊎◌, refl, ap, ◌∙◌, inl, inr, List,
  [], ◌∷◌, none, some, Bytes, bytes_eq, bytes_eq_iff, bytes_eq-eq, bytes_eq_refl, any, map, arith,
  Bool-cases,
}
use costroid.Egress.{
  Names, unnamed, named, Gate, without_name, new_gate, gate_allows, round_trip, completed,
  call_failed, refused,
}

-- The names of a list's hosts hold a name.
abbrev pub lists : Names → Bytes → List Bytes → Bool
lists names host = any (λ entry. bytes_eq (named names entry) host)

any-without_name :
    (name host : Bytes) (hosts : List Bytes)
    → any (λ h. bytes_eq h host) (without_name name hosts)
      ≡ (any (λ h. bytes_eq h host) hosts && not (bytes_eq host name))
unfolding without_name
any-without_name name host [] = refl
any-without_name name host (h ∷ hosts) = ground (
  arith,
  any-without_name name host hosts,
  bytes_eq_iff h name,
  bytes_eq_iff h host,
  bytes_eq_iff host name,
)

any-map :
    (names : Names) (host : Bytes) (hosts : List Bytes)
    → any (λ h. bytes_eq h host) (map (named names) hosts) ≡ lists names host hosts
any-map names host [] = refl
any-map names host (h ∷ hosts) =
    ap (λ b. bytes_eq (named names h) host || b) (any-map names host hosts)

-- A gate allows a host when its name is one that the list gives, and a name at all.
pub new_gate-allows :
    (names : Names) (hosts : List Bytes) (raw : Bytes)
    → gate_allows names (new_gate names hosts) raw
      ≡ (lists names (named names raw) hosts && not (bytes_eq (named names raw) unnamed))
unfolding gate_allows new_gate
new_gate-allows names hosts raw =
    any-without_name unnamed (named names raw) (map (named names) hosts)
    ∙ ap (λ b. b && not (bytes_eq (named names raw) unnamed))
        (any-map names (named names raw) hosts)

-- The two fields of a round trip, by what the gate says.
round_trip-cases :
    (names : Names) (g : Gate) (raw : Bytes) (answers : Bool)
    → ((gate_allows names g raw ≡ true)
        × ((round_trip names g raw answers).sent ≡ some raw)
        × ((round_trip names g raw answers).recorded
            ≡ (named names raw, if answers then completed else call_failed) ∷ []))
      ⊎ ((gate_allows names g raw ≡ false)
          × ((round_trip names g raw answers).sent ≡ none)
          × ((round_trip names g raw answers).recorded ≡ (named names raw, refused) ∷ []))
unfolding round_trip
round_trip-cases names g raw answers = elim (Bool-cases (gate_allows names g raw)) [
  | inl ok ↦ inl (ok, ground arith, ground arith)
  | inr bad ↦ inr (bad, ground arith, ground arith)
]

-- Through a gate made of a list, a call is sent, its host as the caller wrote it, and recorded
-- under its canonical name as completed or failed, only where the list gives that name and it is
-- a host's; any other call is recorded as refused and sent nowhere.
pub round_trip-sent :
    (names : Names) (hosts : List Bytes) (raw : Bytes) (answers : Bool)
    → (((round_trip names (new_gate names hosts) raw answers).sent ≡ some raw)
        × ((round_trip names (new_gate names hosts) raw answers).recorded
            ≡ (named names raw, if answers then completed else call_failed) ∷ [])
        × (lists names (named names raw) hosts ≡ true)
        × (named names raw ≢ unnamed))
      ⊎ (((round_trip names (new_gate names hosts) raw answers).sent ≡ none)
          × ((round_trip names (new_gate names hosts) raw answers).recorded
              ≡ (named names raw, refused) ∷ [])
          × (lists names (named names raw) hosts ≡ true → named names raw ≡ unnamed))
round_trip-sent names hosts raw answers =
    elim (round_trip-cases names (new_gate names hosts) raw answers) [
      | inl (ok, sent, told) ↦ inl (
        sent,
        told,
        ground (arith, new_gate-allows names hosts raw),
        ground (
          arith,
          new_gate-allows names hosts raw,
          bytes_eq_refl unnamed,
          ap (λ n. bytes_eq n unnamed),
        ),
      )
      | inr (bad, sent, told) ↦ inr (
        sent,
        told,
        λ listed.
            bytes_eq-eq (named names raw) unnamed (ground (arith, new_gate-allows names hosts raw)),
      )
    ]
