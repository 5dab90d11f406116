-- ===== src/Limiter/Ring.antt =====
-- The ring of limiter.go's bucket is a queue of the instants last spent: the slot under `next` is
-- the oldest one, so `wait` reads the instant that was spent a whole limit of tokens ago.
use native.Mathlib.Nat.{mod_self, mod-lt}
use native.Mathlib.Numerals.{add-one}
use native.Mathlib.Decide.{dec_lt}
use costroid.Prelude.{
  ℕ, zero, suc, ◌+◌, ◌%◌, ◌<◌, ◌≡◌, refl, sym, ap, ap₂, ◌∙◌, List, [], ◌∷◌, ◌++◌, append_assoc,
  append-nil, length, get_or, set, take, drop, replicate, length-set, length-drop, length-append,
  length-replicate, arith,
}
use costroid.Limiter.{Bucket, new_bucket, spend}

-- The slots from the oldest on.
abbrev pub queue : Bucket → List ℕ
queue b = drop b.next b.spent ++ take b.next b.spent

-- The last `limit` instants of a history, oldest first, with 0 for a token never spent. A history
-- has its newest instant first.
abbrev pub window : ℕ → List ℕ → List ℕ
window limit [] = replicate limit 0
window limit (t ∷ h) = drop 1 (window limit h) ++ t ∷ []

-- A bucket that has spent its tokens at the instants of a history.
pub record Tracks (limit period : ℕ) (h : List ℕ) (b : Bucket) : Type 0 where
  pub slots : length b.spent ≡ limit
  pub in_range : b.next < limit
  pub same_period : b.period ≡ period
  pub same_queue : queue b ≡ window limit h

module _ {A : Type 0} where
  drop-set :
      (i : ℕ) (xs : List A) (v : A) → i < length xs → drop (suc i) (set xs i v) ≡ drop (suc i) xs
  drop-set i [] v h = refl
  drop-set zero (x ∷ xs) v h = refl
  drop-set (suc i) (x ∷ xs) v h = drop-set i xs v (omega arith)

  take-set :
      (i : ℕ) (xs : List A) (v : A)
      → i < length xs
      → take (suc i) (set xs i v) ≡ take i xs ++ v ∷ []
  take-set i [] v h = elim h [ ]
  take-set zero (x ∷ xs) v h = refl
  take-set (suc i) (x ∷ xs) v h = ap (λ l. x ∷ l) (take-set i xs v (omega arith))

  drop_of_length : (xs : List A) → drop (length xs) xs ≡ []
  drop_of_length [] = refl
  drop_of_length (x ∷ xs) = drop_of_length xs

  take_of_length : (xs : List A) → take (length xs) xs ≡ xs
  take_of_length [] = refl
  take_of_length (x ∷ xs) = ap (λ l. x ∷ l) (take_of_length xs)

  drop-suc : (i : ℕ) (xs : List A) → drop 1 (drop i xs) ≡ drop (suc i) xs
  drop-suc zero xs = refl
  drop-suc (suc i) [] = refl
  drop-suc (suc i) (x ∷ xs) = drop-suc i xs

  drop-append : (xs ys : List A) → 0 < length xs → drop 1 (xs ++ ys) ≡ drop 1 xs ++ ys
  drop-append [] ys h = elim h [ ]
  drop-append (x ∷ xs) ys h = refl

module _ (s : List ℕ) (i now : ℕ) (h : i < length s) where
  abbrev turned : List ℕ
  turned = set s i now

  turn_inside :
      drop (suc i) turned ++ take (suc i) turned ≡ drop (suc i) s ++ (take i s ++ now ∷ [])
  turn_inside = ap₂ ◌++◌ (drop-set i s now h) (take-set i s now h)

  turn_around : suc i ≡ length s → turned ++ [] ≡ drop (suc i) s ++ (take i s ++ now ∷ [])
  turn_around e =
      append-nil turned
      ∙ sym (take_of_length turned)
      ∙ ap (λ n. take n turned) (length-set s i now ∙ sym e)
      ∙ take-set i s now h
      ∙ ap (λ l. l ++ (take i s ++ now ∷ [])) (sym (ap (λ n. drop n s) e ∙ drop_of_length s))

  turn :
      drop ((i + 1) % length s) turned ++ take ((i + 1) % length s) turned
      ≡ drop (suc i) s ++ (take i s ++ now ∷ [])
  turn = elim (dec_lt (suc i) (length s)) [
    | yes p ↦ let inside : (i + 1) % length s ≡ suc i = grind arith in rw inside turn_inside
    | no p ↦
        let last : suc i ≡ length s = omega arith in
        let around : (i + 1) % length s ≡ 0 =
          ap (λ n. n % length s) (add-one i ∙ last) ∙ mod_self (length s) in
        rw around (turn_around last)
  ]

get_or-drop : (i : ℕ) (s t : List ℕ) → i < length s → get_or s i 0 ≡ get_or (drop i s ++ t) 0 0
get_or-drop i [] t h = elim h [ ]
get_or-drop zero (x ∷ s) t h = refl
get_or-drop (suc i) (x ∷ s) t h = get_or-drop i s t (omega arith)

-- Spending turns the ring by one: the oldest instant leaves, the new one enters.
pub queue-spend :
    (b : Bucket) (now : ℕ)
    → b.next < length b.spent
    → queue (spend b now) ≡ drop 1 (queue b) ++ now ∷ []
unfolding spend
queue-spend b now h =
    turn b.spent b.next now h
    ∙ sym (append_assoc (drop (suc b.next) b.spent) (take b.next b.spent) (now ∷ []))
    ∙ ap (λ l. l ++ take b.next b.spent ++ now ∷ []) (sym (drop-suc b.next b.spent))
    ∙ ap (λ l. l ++ now ∷ [])
        (sym (
          drop-append (drop b.next b.spent) (take b.next b.spent)
            (omega (arith, length-drop b.next b.spent))))

pub new_bucket-Tracks :
    (limit period : ℕ) → 0 < limit → Tracks limit period [] (new_bucket limit period)
unfolding new_bucket
new_bucket-Tracks limit period h = record {
  slots = length-replicate {A = ℕ} limit 0;
  in_range = h;
  same_period = refl;
  same_queue = append-nil (replicate limit 0);
}

ring_range :
    (b : Bucket) (limit : ℕ)
    → length b.spent ≡ limit
    → 0 < limit
    → (b.next + 1) % length b.spent < limit
ring_range b limit e h = omega (arith, mod-lt (b.next + 1) {m = length b.spent} (omega arith))

-- A spent token enters the history.
pub spend-Tracks :
    (limit period now : ℕ) (h : List ℕ) (b : Bucket)
    → Tracks limit period h b
    → Tracks limit period (now ∷ h) (spend b now)
unfolding spend
spend-Tracks limit period now h b tracks = record {
  slots = length-set b.spent b.next now ∙ tracks.slots;
  in_range = ring_range b limit tracks.slots (omega arith);
  same_period = tracks.same_period;
  same_queue = queue-spend b now (omega arith) ∙ ap (λ l. drop 1 l ++ now ∷ []) tracks.same_queue;
}

-- The slot under `next` is the front of the queue.
head-queue : (b : Bucket) → b.next < length b.spent → get_or b.spent b.next 0 ≡ get_or (queue b) 0 0
head-queue b h = get_or-drop b.next b.spent (take b.next b.spent) h

length-window : (limit : ℕ) (h : List ℕ) → 0 < limit → length (window limit h) ≡ limit
length-window limit [] p = length-replicate {A = ℕ} limit 0
length-window limit (t ∷ h) p = omega (
  arith,
  length-append (drop 1 (window limit h)) (t ∷ []),
  length-drop 1 (window limit h),
  length-window limit h p,
)

get_or-drop_one : (i : ℕ) (s : List ℕ) → get_or (drop 1 s) i 0 ≡ get_or s (suc i) 0
get_or-drop_one i [] = refl
get_or-drop_one i (x ∷ s) = refl

get_or-append_left : (i : ℕ) (s t : List ℕ) → i < length s → get_or (s ++ t) i 0 ≡ get_or s i 0
get_or-append_left i [] t h = elim h [ ]
get_or-append_left zero (x ∷ s) t h = refl
get_or-append_left (suc i) (x ∷ s) t h = get_or-append_left i s t (omega arith)

get_or-append_last : (s : List ℕ) (t : ℕ) → get_or (s ++ t ∷ []) (length s) 0 ≡ t
get_or-append_last [] t = refl
get_or-append_last (x ∷ s) t = get_or-append_last s t

get_or-replicate : (n i : ℕ) → get_or {A = ℕ} (replicate n 0) i 0 ≡ 0
get_or-replicate zero i = refl
get_or-replicate (suc n) zero = refl
get_or-replicate (suc n) (suc i) = get_or-replicate n i

-- Place `i` from the oldest is place `j` from the newest.
window-history :
    (limit : ℕ) (h : List ℕ) (i j : ℕ)
    → i + suc j ≡ limit
    → get_or (window limit h) i 0 ≡ get_or h j 0
window-history limit [] i j e = get_or-replicate limit i
window-history limit (t ∷ h) i zero e =
    let place : i ≡ length (drop 1 (window limit h)) =
      omega (arith, length-drop 1 (window limit h), length-window limit h (omega arith)) in
    ap (λ n. get_or (window limit (t ∷ h)) n 0) place
    ∙ get_or-append_last (drop 1 (window limit h)) t
window-history limit (t ∷ h) i (suc j) e =
    let inside : i < length (drop 1 (window limit h)) =
      omega (arith, length-drop 1 (window limit h), length-window limit h (omega arith)) in
    get_or-append_left i (drop 1 (window limit h)) (t ∷ []) inside
    ∙ get_or-drop_one i (window limit h)
    ∙ window-history limit h (suc i) j (omega arith)

-- `wait` reads the instant of the token spent a whole limit ago, or 0.
pub oldest-history :
    (limit period : ℕ) (h : List ℕ) (b : Bucket)
    → Tracks (suc limit) period h b
    → get_or b.spent b.next 0 ≡ get_or h limit 0
oldest-history limit period h b tracks =
    head-queue b (omega arith)
    ∙ ap (λ q. get_or q 0 0) tracks.same_queue
    ∙ window-history (suc limit) h 0 limit (omega arith)
