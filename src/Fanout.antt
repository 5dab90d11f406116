-- ===== src/Fanout.antt =====
-- internal/fanout/fanout.go: work over a list on several goroutines. What a worker's function does at
-- an index is an `Outcome`; the number of processors is a parameter.

pub mod Chunks
pub mod Schedule
use costroid.Prelude.{ℕ, zero, suc, ◌+◌, ◌-◌, ◌*◌, ◌/◌, min, max}

-- What one call of `fn` does, and what `outcome` holds: nothing, an error, or a panic's value.
pub data Outcome {ℓ} (E : Type ℓ) : Type ℓ where
  finished : Outcome E
  failed : E → Outcome E
  panicked : E → Outcome E

abbrev pub min_chunk : ℕ
min_chunk = 256

unfoldable pub workers : ℕ → ℕ → ℕ
workers processors n = max 1 (min processors (n / min_chunk))

-- Where the chunk of a worker begins; the next worker's chunk begins where it ends.
unfoldable pub chunk_start : ℕ → ℕ → ℕ → ℕ
chunk_start n count worker = n * worker / count

module _ {ℓ} {E : Type ℓ} where
  -- The first outcome, or where it is none the second.
  abbrev pub or_else : Outcome E → Outcome E → Outcome E
  or_else finished other = other
  or_else (failed e) other = failed e
  or_else (panicked e) other = panicked e

  -- `for index := low; index < high; index++`, with the rounds left and the index.
  unfoldable pub run_from : (ℕ → Outcome E) → ℕ → ℕ → Outcome E
  run_from fn zero index = finished
  run_from fn (suc rounds) index = or_else (fn index) (run_from fn rounds (suc index))

  -- `runChunk`, on the worker's own chunk
  unfoldable pub run_chunk : (ℕ → ℕ → Outcome E) → ℕ → ℕ → ℕ → Outcome E
  unfolding run_from chunk_start
  run_chunk fn n count worker =
      let low = chunk_start n count worker in
      run_from (fn worker) (chunk_start n count (suc worker) - low) low

  -- The loop over `results`, from a worker on: the first that is not empty.
  unfoldable pub first_result : (ℕ → Outcome E) → ℕ → ℕ → Outcome E
  first_result results zero worker = finished
  first_result results (suc rounds) worker =
      or_else (results worker) (first_result results rounds (suc worker))

  -- `Each`, where every worker has run its chunk to the end
  unfoldable pub each : ℕ → ℕ → (ℕ → ℕ → Outcome E) → Outcome E
  unfolding run_chunk first_result
  each processors n fn =
      let count = workers processors n in first_result (run_chunk fn n count) count 0
