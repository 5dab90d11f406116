-- ===== src/Examples/Workers.antt =====
-- Concrete runs of internal/fanout/fanout.go and of internal/egress.
use costroid.Prelude.{
  ℕ, zero, suc, ◌+◌, ◌≤◌, ◌<◌, ◌==◌, true, false, ◌≡◌, ◌≢◌, refl, if◌then◌else◌, List, [], ◌∷◌, ◌⊎◌,
  none, some, Bytes, codes, arith,
}
use costroid.Fanout.{chunk_start, Outcome, finished, failed, workers, run_from, first_result, each}
use costroid.Fanout.Chunks.{each-run_from}
use costroid.Fanout.Schedule.{
  State, begun, turn, results, Reach, begin, next, Reach-each, Reach-steps,
}
use costroid.Egress.{
  Names, new_gate, named, round_trip, unnamed, completed, refused, CounterKey, Counters, Counts,
  no_counts, record_call, take_pending, end_flush,
}
use costroid.Egress.Allowlist.{lists, round_trip-sent}
use costroid.Egress.Conserved.{count_of, count_in_all, occurrences, Reach-occurrences}
use costroid.Egress.Conserved

-- Two of 600 calls fail, one in each of two chunks.
abbrev call_at : ℕ → Outcome ℕ
call_at index = if index == 0 then failed 3 else if index == 300 then failed 7 else finished

each-run_from_example : each 2 600 (λ worker. call_at) ≡ run_from call_at 600 0
each-run_from_example = each-run_from 2 600 call_at

-- The second worker goes first.
abbrev second_first : State ℕ
second_first =
    turn (λ worker. call_at) 600 (workers 2 600)
      (turn (λ worker. call_at) 600 (workers 2 600) (begun (λ worker. call_at) 600 (workers 2 600))
        1)
      0

two_workers : workers 2 600 ≡ 2
unfolding workers
two_workers = refl

second_first-Reach : Reach (λ worker. call_at) 600 (workers 2 600) 2 second_first
unfolding workers turn chunk_start
second_first-Reach = next 0 (omega arith) refl (next 1 (omega arith) refl begin)

some_left : (o : Outcome ℕ) → some o ≢ none
some_left o = λ e. absurd (ground arith)

all_ended : (j : ℕ) → j < workers 2 600 → second_first.ended j ≢ none
unfolding workers turn chunk_start
all_ended zero l = some_left (failed 3)
all_ended (suc zero) l = some_left (failed 7)
all_ended (suc (suc j)) l = absurd (omega arith)

Reach-each_example :
    first_result (results (λ worker. call_at) 600 (workers 2 600) second_first) (workers 2 600) 0
    ≡ run_from call_at 600 0
Reach-each_example = Reach-each 2 600 call_at second_first-Reach all_ended

Reach-steps_example : 2 ≤ 600 + workers 2 600
Reach-steps_example = Reach-steps (λ worker. call_at) 2 600 second_first-Reach

-- An allowlist of one host; no name is an address.
abbrev plain_names : Names
plain_names = record { lower = λ s. s; is_ip = λ s. false }

abbrev hosts : List Bytes
hosts = codes "api.example.com" ∷ []

round_trip-sent_example :
    (((round_trip plain_names (new_gate plain_names hosts) (codes "api.example.com.") true).sent
        ≡ some (codes "api.example.com."))
      × ((round_trip plain_names
            (new_gate plain_names hosts)
            (codes "api.example.com.")
            true).recorded
          ≡ (named plain_names (codes "api.example.com."), completed) ∷ [])
      × (lists plain_names (named plain_names (codes "api.example.com.")) hosts ≡ true)
      × (named plain_names (codes "api.example.com.") ≢ unnamed))
    ⊎ (((round_trip plain_names (new_gate plain_names hosts) (codes "api.example.com.") true).sent
          ≡ none)
        × ((round_trip plain_names
              (new_gate plain_names hosts)
              (codes "api.example.com.")
              true).recorded
            ≡ (named plain_names (codes "api.example.com."), refused) ∷ [])
        × (lists plain_names (named plain_names (codes "api.example.com.")) hosts ≡ true
            → named plain_names (codes "api.example.com.") ≡ unnamed))
round_trip-sent_example = round_trip-sent plain_names hosts (codes "api.example.com.") true

-- A call, a flush whose write fails while a second call comes, and one that is stored.
abbrev call_key : CounterKey
call_key = record {
  day = codes "2026-11-26";
  host = codes "api.example.com";
  outcome = codes "completed";
}

abbrev recorded_call : Counters → Counters
recorded_call c = record c { pending = record_call call_key c.pending }

abbrev one_call : Counts
one_call = (call_key, 1) ∷ []

abbrev both_calls : Counters
both_calls = end_flush false one_call [] (recorded_call (take_pending (recorded_call no_counts)))

both_calls-Reach : Conserved.Reach (call_key ∷ call_key ∷ []) both_calls
unfolding take_pending record_call
both_calls-Reach =
    Conserved.ended false [] one_call [] refl
      (Conserved.recorded call_key (Conserved.taken (Conserved.recorded call_key Conserved.begin)))

Reach-occurrences_example :
    count_in_all call_key both_calls.stored
      + (count_in_all call_key both_calls.flights + count_of call_key both_calls.pending)
    ≡ occurrences call_key (call_key ∷ call_key ∷ [])
Reach-occurrences_example = Reach-occurrences both_calls-Reach call_key
