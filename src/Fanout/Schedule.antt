-- ===== src/Fanout/Schedule.antt =====
-- Every schedule of the workers of internal/fanout/fanout.go. A state holds where each worker stands in
-- its chunk and what it left in `results`; one step is one call of `fn` by one worker, or its return.
use costroid.Prelude.{
  ℕ, zero, suc, ◌+◌, ◌-◌, ◌≤◌, ◌<◌, ◌==◌, ==_iff, ltb, ◌≡◌, ◌≢◌, refl, ap, ap₂, ◌∙◌, inl, inr,
  if◌then◌else◌, Option, none, some, Bool-cases, arith,
}
use costroid.Prelude.Families.{update, total_below, total_below-lt}
use costroid.Fanout.{
  Outcome, finished, failed, panicked, workers, chunk_start, or_else, run_from, run_chunk,
  first_result, each,
}
use costroid.Fanout.Chunks.{
  workers_pos, chunk_start-zero, chunk_start-le, chunk_start-last, each-run_from,
}

pub record State (E : Type 0) : Type 0 where
  pub at : ℕ → ℕ
  pub ended : ℕ → Option (Outcome E)

module _ {E : Type 0} where
  -- What `results` holds of a worker.
  abbrev pub result_of : Option (Outcome E) → Outcome E
  result_of none = finished
  result_of (some o) = o

  abbrev settle_call : State E → ℕ → Outcome E → State E
  settle_call s w finished = record s { at = update s.at w (suc (s.at w)) }
  settle_call s w (failed e) = record s { ended = update s.ended w (some (failed e)) }
  settle_call s w (panicked e) = record s { ended = update s.ended w (some (panicked e)) }

  run_from-step :
      (f : ℕ → Outcome E) (high at : ℕ)
      → at < high
      → run_from f (high - at) at ≡ or_else (f at) (run_from f (high - suc at) (suc at))
  unfolding run_from
  run_from-step f high at l =
      let more : high - at ≡ suc (high - suc at) = omega arith in ap (λ r. run_from f r at) more

  run_from-stop :
      (f : ℕ → Outcome E) (high at : ℕ) → high ≤ at → run_from f (high - at) at ≡ finished
  unfolding run_from
  run_from-stop f high at l =
      let none_left : high - at ≡ 0 = omega arith in ap (λ r. run_from f r at) none_left

module _ {E : Type 0} (fn : ℕ → ℕ → Outcome E) (n count : ℕ) where
  -- A worker's next call, or its return.
  unfoldable pub turn : State E → ℕ → State E
  turn s w =
      if ltb (s.at w) (chunk_start n count (suc w))
      then settle_call s w (fn w (s.at w))
      else record s { ended = update s.ended w (some finished) }

  abbrev pub begun : State E
  begun = record { at = chunk_start n count; ended = λ w. none }

  -- The states that `steps` steps reach.
  pub data Reach : ℕ → State E → Type 0 where
    begin : Reach 0 begun
    next :
        {steps : ℕ} {s : State E} (w : ℕ)
        → w < count
        → s.ended w ≡ none
        → Reach steps s
        → Reach (suc steps) (turn s w)

  -- What a worker will leave.
  abbrev outlook : State E → ℕ → Outcome E
  outlook s w = elim (s.ended w) [
    | none ↦ run_from (fn w) (chunk_start n count (suc w) - s.at w) (s.at w)
    | some o ↦ o
  ]

  -- The calls that a worker can still make, its return counted.
  abbrev left : State E → ℕ → ℕ
  left s w = elim (s.ended w) [ none ↦ suc (chunk_start n count (suc w) - s.at w) | some o ↦ 0 ]

  turn-outlook : (s : State E) (w j : ℕ) → s.ended w ≡ none → outlook (turn s w) j ≡ outlook s j
  unfolding turn
  turn-outlook s w j e = elim (Bool-cases (w == j)) [
    | inl same ↦
        let here : w ≡ j = (==_iff w j).0 same in
        ground (
          arith,
          run_from-step (fn w) (chunk_start n count (suc w)) (s.at w),
          run_from-stop (fn w) (chunk_start n count (suc w)) (s.at w),
        )
    | inr other ↦ ground arith
  ]

  turn-left : (s : State E) (w j : ℕ) → s.ended w ≡ none → left (turn s w) j ≤ left s j
  unfolding turn
  turn-left s w j e = ground arith

  turn-left_self : (s : State E) (w : ℕ) → s.ended w ≡ none → left (turn s w) w < left s w
  unfolding turn
  turn-left_self s w e = ground arith

  begun-outlook : (j : ℕ) → outlook begun j ≡ run_chunk fn n count j
  unfolding run_chunk
  begun-outlook j = refl

  Reach-outlook :
      {steps : ℕ} {s : State E} → Reach steps s → (j : ℕ) → outlook s j ≡ run_chunk fn n count j
  Reach-outlook begin j = begun-outlook j
  Reach-outlook (next {s = s} w l e r) j = turn-outlook s w j e ∙ Reach-outlook r j

  -- Every step uses up a call or a return.
  Reach-left :
      {steps : ℕ} {s : State E}
      → Reach steps s
      → steps + total_below count (left s) ≤ total_below count (left begun)
  Reach-left begin = omega arith
  Reach-left (next {s = s} w l e r) = omega (
    arith,
    Reach-left r,
    total_below-lt count (left (turn s w)) (left s) w l (turn-left_self s w e)
        (λ j. turn-left s w j e),
  )

  begun-left : (k : ℕ) → 0 < count → total_below k (left begun) ≡ chunk_start n count k + k
  unfolding total_below
  begun-left zero p = omega (arith, chunk_start-zero n count)
  begun-left (suc k) p = omega (arith, begun-left k p, chunk_start-le n count k p)

  -- The results that the loop of `Each` reads.
  abbrev pub results : State E → ℕ → Outcome E
  results s w = result_of (s.ended w)

  first_result-cong :
      (s : State E) (rounds w : ℕ)
      → ((j : ℕ) → j < w + rounds → results s j ≡ run_chunk fn n count j)
      → first_result (results s) rounds w ≡ first_result (run_chunk fn n count) rounds w
  unfolding first_result
  first_result-cong s zero w same = refl
  first_result-cong s (suc rounds) w same =
      ap₂ or_else (same w (omega arith))
        (first_result-cong s rounds (suc w) (λ j l. same j (omega arith)))

  Reach-results :
      {steps : ℕ} {s : State E}
      → Reach steps s
      → (j : ℕ) → s.ended j ≢ none
      → results s j ≡ run_chunk fn n count j
  Reach-results {s = s} r j done = ground (arith, Reach-outlook r j)

-- In every order in which the workers of `Each` take their steps, once all have ended the outcome
-- read from their results is that of one loop over the indices, where what `fn` does depends on
-- the index alone.
pub Reach-each :
    {E : Type 0} (processors n : ℕ) (g : ℕ → Outcome E) {steps : ℕ} {s : State E}
    → Reach (λ worker. g) n (workers processors n) steps s
    → ((j : ℕ) → j < workers processors n → s.ended j ≢ none)
    → first_result (results (λ worker. g) n (workers processors n) s) (workers processors n) 0
      ≡ run_from g n 0
unfolding each
Reach-each processors n g {s = s} r done =
    let count = workers processors n in
    first_result-cong (λ worker. g) n count s count 0
      (λ j l. Reach-results (λ worker. g) n count r j (done j (omega arith)))
    ∙ each-run_from processors n g

-- In every order of their steps, the workers of `Each` over `n` indices take at most `n` steps
-- and one more for each worker.
pub Reach-steps :
    {E : Type 0} (fn : ℕ → ℕ → Outcome E) (processors n : ℕ) {steps : ℕ} {s : State E}
    → Reach fn n (workers processors n) steps s
    → steps ≤ n + workers processors n
Reach-steps fn processors n r =
    let count = workers processors n in
    let p = workers_pos processors n in
    omega
      (arith, Reach-left fn n count r, begun-left fn n count count p, chunk_start-last n count p)
