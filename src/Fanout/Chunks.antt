-- ===== src/Fanout/Chunks.antt =====
-- The chunks of internal/fanout/fanout.go cut the list without gaps, so `Each` answers what one loop
-- over the whole list answers.
use costroid.Prelude.{ℕ, zero, suc, ◌+◌, ◌-◌, ◌*◌, ◌≤◌, ◌<◌, ◌≡◌, refl, sym, ap, ap₂, ◌∙◌, arith}
use native.Mathlib.Nat.{
  mul-zero, zero-div, zero-add, add-zero, suc-add, mul-div_left, le-div_iff_mul-le, div-mul-le_self,
}
use costroid.Fanout.{
  Outcome, finished, failed, panicked, workers, chunk_start, or_else, run_from, run_chunk,
  first_result, each,
}

pub workers_pos : (processors n : ℕ) → 0 < workers processors n
unfolding workers
workers_pos processors n = omega arith

pub chunk_start-zero : (n count : ℕ) → chunk_start n count 0 ≡ 0
unfolding chunk_start
chunk_start-zero n count = rw (mul-zero, zero-div)

pub chunk_start-last : (n count : ℕ) → 0 < count → chunk_start n count count ≡ n
unfolding chunk_start
chunk_start-last n count p = mul-div_left n p

pub chunk_start-le :
    (n count worker : ℕ) → 0 < count → chunk_start n count worker ≤ chunk_start n count (suc worker)
unfolding chunk_start
chunk_start-le n count worker p =
    (le-div_iff_mul-le p).1 (grind (arith, div-mul-le_self (n * worker) count))

module _ {ℓ} {E : Type ℓ} where
  or_else_assoc : (a b c : Outcome E) → or_else (or_else a b) c ≡ or_else a (or_else b c)
  or_else_assoc finished b c = refl
  or_else_assoc (failed e) b c = refl
  or_else_assoc (panicked e) b c = refl

  run_from-add :
      (fn : ℕ → Outcome E) (a b i : ℕ)
      → run_from fn (a + b) i ≡ or_else (run_from fn a i) (run_from fn b (i + a))
  unfolding run_from
  run_from-add fn zero b i = ap₂ (λ r j. run_from fn r j) (zero-add b) (sym (add-zero i))
  run_from-add fn (suc a) b i =
      ap (λ r. run_from fn r i) (suc-add a b)
      ∙ ap (λ o. or_else (fn i) o) (run_from-add fn a b (suc i))
      ∙ sym (or_else_assoc (fn i) (run_from fn a (suc i)) (run_from fn b (suc i + a)))
      ∙ ap (λ j. or_else (or_else (fn i) (run_from fn a (suc i))) (run_from fn b j)) moved
    where
      moved : suc i + a ≡ i + suc a
      moved = omega arith

  -- Several chunks, one behind the other, are one loop.
  first_result-run_from :
      (g : ℕ → Outcome E) (n count rounds worker : ℕ)
      → 0 < count
      → (chunk_start n count worker ≤ chunk_start n count (worker + rounds))
        × (first_result (run_chunk (λ w. g) n count) rounds worker
            ≡ run_from g
                (chunk_start n count (worker + rounds) - chunk_start n count worker)
                (chunk_start n count worker))
  unfolding first_result run_chunk run_from
  first_result-run_from g n count zero worker p =
      let here : chunk_start n count (worker + 0) ≡ chunk_start n count worker =
        ap (chunk_start n count) (add-zero worker) in
      let none_left : chunk_start n count (worker + 0) - chunk_start n count worker ≡ 0 =
        omega (arith, here) in
      (omega (arith, here), ap (λ r. run_from g r (chunk_start n count worker)) (sym none_left))
  first_result-run_from g n count (suc rounds) worker p =
      let low = chunk_start n count worker in
      let mid = chunk_start n count (suc worker) in
      let high = chunk_start n count (worker + suc rounds) in
      let one = chunk_start-le n count worker p in
      let (more, rest) = first_result-run_from g n count rounds (suc worker) p in
      let moved : suc worker + rounds ≡ worker + suc rounds = omega arith in
      let same : chunk_start n count (suc worker + rounds) ≡ high =
        ap (chunk_start n count) moved in
      let sizes : (mid - low) + (high - mid) ≡ high - low = omega (arith, same) in
      let place : low + (mid - low) ≡ mid = omega arith in
      let first = run_from g (mid - low) low in
      (
        omega (arith, same),
        ap (λ o. or_else first o) (rest ∙ ap (λ h. run_from g (h - mid) mid) same)
            ∙ ap (λ j. or_else first (run_from g (high - mid) j)) (sym place)
            ∙ sym (run_from-add g (mid - low) (high - mid) low)
            ∙ ap (λ r. run_from g r low) sizes,
      )

  -- The workers' chunks, one after the other, are one loop.
  pub each-run_from :
      (processors n : ℕ) (g : ℕ → Outcome E) → each processors n (λ worker. g) ≡ run_from g n 0
  unfolding each
  each-run_from processors n g =
      let count = workers processors n in
      let p = workers_pos processors n in
      let (le, all) = first_result-run_from g n count count 0 p in
      let start = chunk_start-zero n count in
      let stop : chunk_start n count (0 + count) ≡ n =
        ap (chunk_start n count) (zero-add count) ∙ chunk_start-last n count p in
      let size : chunk_start n count (0 + count) - chunk_start n count 0 ≡ n =
        omega (arith, start, stop) in
      all ∙ ap₂ (λ r j. run_from g r j) size start
