-- ===== src/Egress.antt =====
-- internal/egress: the allowlist that every outbound call passes (egress.go), and the counters of those
-- calls (counters.go). `strings.ToLower` and `net.ParseIP` are the parameter `Names`; what the transport
-- answers, and the day of a call, are arguments. A map with its keys is an association list.

pub mod Allowlist
pub mod Conserved
use costroid.Prelude.{
  ℕ, ◌+◌, ◌≤◌, ltb, leb, ◌==◌, Ordering, Bool, true, false, ◌&&◌, ◌||◌, not, if◌then◌else◌, List,
  [], ◌∷◌, ◌++◌, Option, none, some, ◌>>=◌, Bytes, bytes_eq, bytes_compare, length, all, any, codes,
  map,
}

abbrev pub max_host_bytes : ℕ
max_host_bytes = 253

abbrev pub unnamed : Bytes
unnamed = codes "(invalid)"

pub record Names : Type 0 where
  pub lower : Bytes → Bytes
  pub is_ip : Bytes → Bool

abbrev is_letter_or_digit : ℕ → Bool
is_letter_or_digit c = leb b'a' c && leb c b'z' || leb b'0' c && leb c b'9'

-- `hostName`, character by character: where a label stands.
pub data Place : Type 0 where
  label_start after_letter after_mark : Place

unfoldable pub next_place : Place → ℕ → Option Place
next_place label_start c = if is_letter_or_digit c then some after_letter else none
next_place after_letter c =
    if c == b'.'
    then some label_start
    else if is_letter_or_digit c
    then some after_letter
    else if c == b'_' || c == b'-'
    then some after_mark
    else none
next_place after_mark c =
    if is_letter_or_digit c
    then some after_letter
    else if c == b'_' || c == b'-'
    then some after_mark
    else none

unfoldable pub host_from : Place → Bytes → Bool
unfolding next_place
host_from label_start [] = false
host_from after_letter [] = true
host_from after_mark [] = false
host_from place (c ∷ s) = elim (next_place place c) [ none ↦ false | some q ↦ host_from q s ]

abbrev pub is_host_name : Bytes → Bool
is_host_name = host_from label_start

-- `strings.TrimSuffix(host, ".")`
unfoldable pub trim_dot : Bytes → Bytes
trim_dot [] = []
trim_dot (c ∷ []) = if c == b'.' then [] else c ∷ []
trim_dot (c ∷ d ∷ s) = c ∷ trim_dot (d ∷ s)

unfoldable pub named : Names → Bytes → Bytes
unfolding trim_dot
named names raw =
    let host = trim_dot (names.lower raw) in
    if ltb max_host_bytes (length host) || not (is_host_name host) && not (names.is_ip host)
    then unnamed
    else host

-- `ParseList`, on the values and on the trimmed parts of the joined list: empty parts are left out.
abbrev is_empty : Bytes → Bool
is_empty [] = true
is_empty (c ∷ s) = false

unfoldable pub parts_of : List Bytes → List Bytes
parts_of [] = []
parts_of (part ∷ parts) = if is_empty part then parts_of parts else part ∷ parts_of parts

unfoldable pub parse_entries : Names → List Bytes → Option (List Bytes)
parse_entries names [] = some []
parse_entries names (entry ∷ entries) = do
  hosts ← parse_entries names entries
  if bytes_eq (named names entry) unnamed then none else some (named names entry ∷ hosts)

unfoldable pub parse_list : Names → List Bytes → List Bytes → Option (List Bytes)
unfolding parts_of parse_entries
parse_list names values parts = parse_entries names (values ++ parts_of parts)

pub data CallOutcome : Type 0 where
  completed call_failed refused : CallOutcome

-- `Gate`, with the keys of its map. `new_gate` deletes the name of what is no host.
pub record Gate : Type 0 where
  pub allowed : List Bytes

unfoldable pub without_name : Bytes → List Bytes → List Bytes
without_name name [] = []
without_name name (host ∷ hosts) =
    if bytes_eq host name then without_name name hosts else host ∷ without_name name hosts

unfoldable pub new_gate : Names → List Bytes → Gate
unfolding without_name named
new_gate names hosts = record { allowed = without_name unnamed (map (named names) hosts) }

unfoldable pub gate_allows : Names → Gate → Bytes → Bool
gate_allows names g raw = any (λ host. bytes_eq host (named names raw)) g.allowed

-- What a call leaves: what the recorder was told under a host's name, and the request's host as the transport
-- was handed it, or the address that was dialed: both as the caller gave them.
pub record Trip : Type 0 where
  pub recorded : List (Bytes × CallOutcome)
  pub sent : Option Bytes

-- `RoundTrip`, with `check`, of a request whose URL's host is `raw`. The transport is handed the request
-- unchanged; `answers` is whether it gave an answer.
unfoldable pub round_trip : Names → Gate → Bytes → Bool → Trip
unfolding gate_allows
round_trip names g raw answers =
    let host = named names raw in
    if not (gate_allows names g raw)
    then record { recorded = (host, refused) ∷ []; sent = none }
    else if answers
    then record { recorded = (host, completed) ∷ []; sent = some raw }
    else record { recorded = (host, call_failed) ∷ []; sent = some raw }

-- `DialContext` of an address; `raw` is the host that `net.SplitHostPort` finds in it, where it finds one.
unfoldable pub dial : Names → Gate → Bytes → Option Bytes → Trip
unfolding gate_allows
dial names g address none = record { recorded = []; sent = none }
dial names g address (some raw) =
    if not (gate_allows names g raw)
    then record { recorded = (named names raw, refused) ∷ []; sent = none }
    else record { recorded = []; sent = some address }

abbrev pub outcome_name : CallOutcome → Bytes
outcome_name completed = codes "completed"
outcome_name call_failed = codes "failed"
outcome_name refused = codes "refused"

pub record CounterKey : Type 0 where
  pub day : Bytes
  pub host : Bytes
  pub outcome : Bytes

-- `cmp.Or` of the three comparisons, as `sorted` makes them
abbrev pub first_of : Ordering → Ordering → Ordering
first_of Ordering.eq other = other
first_of o other = o

abbrev pub compare_keys : CounterKey → CounterKey → Ordering
compare_keys a b =
    first_of (bytes_compare a.day b.day)
      (first_of (bytes_compare a.host b.host) (bytes_compare a.outcome b.outcome))

abbrev pub same_counter : CounterKey → CounterKey → Bool
same_counter a b = bytes_eq a.day b.day && (bytes_eq a.host b.host && bytes_eq a.outcome b.outcome)

abbrev pub Counts : Type 0
Counts = List (CounterKey × ℕ)

-- `pending[key] += n`
unfoldable pub add_count : CounterKey → ℕ → Counts → Counts
add_count key n [] = (key, n) ∷ []
add_count key n ((k, m) ∷ rest) =
    if same_counter k key then (k, m + n) ∷ rest else (k, m) ∷ add_count key n rest

-- `Record`, on the key of a call
unfoldable pub record_call : CounterKey → Counts → Counts
unfolding add_count
record_call key pending = add_count key 1 pending

unfoldable pub put_back : Counts → Counts → Counts
unfolding add_count
put_back [] pending = pending
put_back ((key, n) ∷ taken) pending = put_back taken (add_count key n pending)

unfoldable pub insert_line : CounterKey × ℕ → Counts → Counts
insert_line line [] = line ∷ []
insert_line line (l ∷ rest) =
    let later = l ∷ insert_line line rest in
    elim (compare_keys line.0 l.0) [ Ordering.gt ↦ later | _ ↦ line ∷ l ∷ rest ]

unfoldable pub sorted_lines : Counts → Counts
unfolding insert_line
sorted_lines [] = []
sorted_lines (line ∷ rest) = insert_line line (sorted_lines rest)

-- What the counters keep: the calls not yet taken, and what each `Flush` has taken and not yet written.
-- `stored` are the lines of the writes that the sink accepted.
pub record Counters : Type 0 where
  pub pending : Counts
  pub flights : List Counts
  pub stored : List Counts

abbrev pub no_counts : Counters
no_counts = record { pending = []; flights = []; stored = [] }

-- `Flush` as far as its write: `take`, and a return where nothing was pending.
unfoldable pub take_pending : Counters → Counters
take_pending c = elim (c.pending) [
  | [] ↦ c
  | line ∷ rest ↦ record c { pending = []; flights = (line ∷ rest) ∷ c.flights }
]

-- `Flush` from its write on: the sink accepts the sorted lines, or what was taken is put back. `flights` are
-- the other flushes that have not written.
unfoldable pub end_flush : Bool → Counts → List Counts → Counters → Counters
unfolding put_back sorted_lines
end_flush true taken flights c = record c {
  flights = flights;
  stored = sorted_lines taken ∷ c.stored;
}
end_flush false taken flights c = record c { pending = put_back taken c.pending; flights = flights }
