-- ===== src/Egress/Conserved.antt =====
-- The counters of internal/egress/counters.go under every order of calls and flushes: no call is lost, and
-- none is counted twice. The sink stores the lines of a write that it accepts, and none of one that fails.
use costroid.Prelude.{
  ℕ, ◌+◌, Bool, true, false, ◌&&◌, if◌then◌else◌, ◌≡◌, refl, ap, ap₂, ◌∙◌, List, [], ◌∷◌, ◌++◌,
  bytes_eq, bytes_eq-eq, arith,
}
use costroid.Egress.{
  CounterKey, same_counter, Counts, add_count, record_call, put_back, insert_line, sorted_lines,
  Counters, no_counts, take_pending, end_flush,
}

-- How many calls the lines count under a key.
unfoldable pub count_of : CounterKey → Counts → ℕ
count_of key [] = 0
count_of key ((k, n) ∷ rest) =
    let others = count_of key rest in if same_counter k key then n + others else others

unfoldable pub count_in_all : CounterKey → List Counts → ℕ
unfolding count_of
count_in_all key [] = 0
count_in_all key (lines ∷ rest) = count_of key lines + count_in_all key rest

-- How many of the calls had a key.
unfoldable pub occurrences : CounterKey → List CounterKey → ℕ
occurrences key [] = 0
occurrences key (call ∷ calls) =
    let others = occurrences key calls in if same_counter call key then 1 + others else others

same_counter-cong :
    (a b c : CounterKey) → same_counter a b ≡ true → same_counter a c ≡ same_counter b c
same_counter-cong a b c same =
    let days : a.day ≡ b.day = bytes_eq-eq a.day b.day (ground arith) in
    let hosts : a.host ≡ b.host = bytes_eq-eq a.host b.host (ground arith) in
    let outcomes : a.outcome ≡ b.outcome = bytes_eq-eq a.outcome b.outcome (ground arith) in
    ap₂ (λ x y. x && y) (ap (λ d. bytes_eq d c.day) days)
      (ap₂ (λ x y. x && y) (ap (λ h. bytes_eq h c.host) hosts)
        (ap (λ o. bytes_eq o c.outcome) outcomes))

abbrev counted : CounterKey → CounterKey → ℕ → ℕ
counted key k n = if same_counter k key then n else 0

count_of-add_count :
    (key k : CounterKey) (n : ℕ) (lines : Counts)
    → count_of key (add_count k n lines) ≡ counted key k n + count_of key lines
unfolding count_of add_count
count_of-add_count key k n [] = ground arith
count_of-add_count key k n ((l, m) ∷ lines) =
    ground (arith, count_of-add_count key k n lines, same_counter-cong l k key)

count_of-put_back :
    (key : CounterKey) (taken lines : Counts)
    → count_of key (put_back taken lines) ≡ count_of key taken + count_of key lines
unfolding count_of put_back
count_of-put_back key [] lines = omega arith
count_of-put_back key ((k, n) ∷ taken) lines =
    ground
      (arith, count_of-put_back key taken (add_count k n lines), count_of-add_count key k n lines)

count_of-insert_line :
    (key k : CounterKey) (n : ℕ) (lines : Counts)
    → count_of key (insert_line (k, n) lines) ≡ counted key k n + count_of key lines
unfolding count_of insert_line
count_of-insert_line key k n [] = ground arith
count_of-insert_line key k n ((l, m) ∷ lines) = ground (arith, count_of-insert_line key k n lines)

count_of-sorted_lines :
    (key : CounterKey) (lines : Counts) → count_of key (sorted_lines lines) ≡ count_of key lines
unfolding count_of sorted_lines
count_of-sorted_lines key [] = refl
count_of-sorted_lines key ((k, n) ∷ lines) =
    ground
      (arith, count_of-insert_line key k n (sorted_lines lines), count_of-sorted_lines key lines)

count_in_all-append :
    (key : CounterKey) (before : List Counts) (taken : Counts) (after : List Counts)
    → count_in_all key (before ++ taken ∷ after)
      ≡ count_of key taken + count_in_all key (before ++ after)
unfolding count_in_all
count_in_all-append key [] taken after = refl
count_in_all-append key (lines ∷ before) taken after =
    omega (arith, count_in_all-append key before taken after)

-- What any calls and flushes, in any order, lead to, with the calls made.
pub data Reach : List CounterKey → Counters → Type 0 where
  begin : Reach [] no_counts
  recorded :
      {calls : List CounterKey} {c : Counters} (key : CounterKey)
      → Reach calls c
      → Reach (key ∷ calls) (record c { pending = record_call key c.pending })
  taken : {calls : List CounterKey} {c : Counters} → Reach calls c → Reach calls (take_pending c)
  ended :
      {calls : List CounterKey} {c : Counters} (accepted : Bool) (before : List Counts)
      (lines : Counts) (after : List Counts)
      → c.flights ≡ before ++ lines ∷ after
      → Reach calls c
      → Reach calls (end_flush accepted lines (before ++ after) c)

abbrev pub counted_so_far : CounterKey → Counters → ℕ
counted_so_far key c =
    count_in_all key c.stored + (count_in_all key c.flights + count_of key c.pending)

counted-record_call :
    (key call : CounterKey) (c : Counters)
    → count_of key (record_call call c.pending) ≡ counted key call 1 + count_of key c.pending
unfolding record_call
counted-record_call key call c = count_of-add_count key call 1 c.pending

counted-take_pending :
    (key : CounterKey) (pending : Counts) (flights stored : List Counts)
    → counted_so_far key
        (take_pending (record { pending = pending; flights = flights; stored = stored }))
      ≡ count_in_all key stored + (count_in_all key flights + count_of key pending)
unfolding take_pending count_in_all count_of
counted-take_pending key [] flights stored = refl
counted-take_pending key (line ∷ rest) flights stored = omega arith

counted-end_flush :
    (key : CounterKey) (accepted : Bool) (c : Counters) (before : List Counts) (lines : Counts)
    (after : List Counts)
    → c.flights ≡ before ++ lines ∷ after
    → counted_so_far key (end_flush accepted lines (before ++ after) c) ≡ counted_so_far key c
unfolding end_flush count_in_all
counted-end_flush key true c before lines after e = omega (
  arith,
  count_in_all-append key before lines after,
  ap (count_in_all key) e,
  count_of-sorted_lines key lines,
)
counted-end_flush key false c before lines after e = omega (
  arith,
  count_in_all-append key before lines after,
  ap (count_in_all key) e,
  count_of-put_back key lines c.pending,
)

-- After any calls and flushes in any order, failed writes included, what was stored, what a flush
-- holds and what is pending together count each key as often as it was recorded, where a sink
-- stores the lines of the writes that it accepts and no others.
pub Reach-occurrences :
    {calls : List CounterKey} {c : Counters}
    → Reach calls c
    → (key : CounterKey)
    → count_in_all key c.stored + (count_in_all key c.flights + count_of key c.pending)
      ≡ occurrences key calls
unfolding occurrences count_in_all count_of
Reach-occurrences begin key = refl
Reach-occurrences (recorded {c = c} call r) key =
    ground (arith, Reach-occurrences r key, counted-record_call key call c)
Reach-occurrences (taken {c = c} r) key =
    counted-take_pending key c.pending c.flights c.stored ∙ Reach-occurrences r key
Reach-occurrences (ended {c = c} accepted before lines after e r) key =
    counted-end_flush key accepted c before lines after e ∙ Reach-occurrences r key
