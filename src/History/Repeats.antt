-- ===== src/History/Repeats.antt =====
-- A report that repeats a digest changes nothing in what `Earlier` of internal/history/history.go adds up.
use costroid.Prelude.{
  Bool, true, false, ◌&&◌, ◌||◌, ◌≡◌, refl, sym, ap, ◌∙◌, if◌then◌else◌, List, [], ◌∷◌, ◌++◌, some,
  ◌>>=◌, Bytes, bytes_eq, bytes_eq-eq, any, arith, Bool-cases, inl, inr,
}
use costroid.Prelude.Results.{
  bind-cong, bind_assoc, OnSome, OnSome-some, OnSome-if, OnSome-bind, OnSome-eq,
}
use costroid.Decimal.{zero_value}
use costroid.Policy.{unverified}
use costroid.History.{
  Report, Running, is_absent, is_seen, is_repeat, add_figures, add_report, add_reports,
  earlier_total,
}

add_reports-append :
    (own : Bytes) (before after : List Report) (s : Running)
    → add_reports own (before ++ after) s ≡ (add_reports own before s >>= add_reports own after)
unfolding add_reports
add_reports-append own [] after s = refl
add_reports-append own (r ∷ before) after s =
    bind-cong (add_report own r s) (λ t e. add_reports-append own before after t)
    ∙ bind_assoc (add_report own r s) _ _

Seen : Bytes → Running → Type 0
Seen digest s = is_seen digest (s.1) ≡ true

seen_still :
    (own_digest digest : Bytes) (seen : List Bytes)
    → (is_seen digest seen || bytes_eq own_digest digest) ≡ true
    → is_seen own_digest seen ≡ true
    → is_seen digest seen ≡ true
seen_still own_digest digest seen h again =
    let alike : bytes_eq own_digest digest ≡ true → is_seen own_digest seen ≡ is_seen digest seen =
      λ e. ap (λ d. is_seen d seen) (bytes_eq-eq own_digest digest e) in
    ground arith

seen_now :
    (own_digest digest : Bytes) (seen : List Bytes)
    → (is_seen digest seen || bytes_eq own_digest digest) ≡ true
    → is_absent digest ≡ false
    → is_seen digest (if is_absent own_digest then seen else own_digest ∷ seen) ≡ true
seen_now own_digest digest seen h real =
    let alike : bytes_eq own_digest digest ≡ true → is_absent own_digest ≡ is_absent digest =
      λ e. ap (λ d. is_absent d) (bytes_eq-eq own_digest digest e) in
    ground arith

right_side : (a b : Bool) → (a && b) ≡ true → b ≡ true
right_side a b e = ground arith

add_report-keeps :
    (own digest : Bytes) (r : Report) (s : Running)
    → (is_seen digest (s.1) || bytes_eq r.rows_sha256 digest) ≡ true
    → is_absent digest ≡ false
    → OnSome (Seen digest) (add_report own r s)
unfolding Seen add_report
add_report-keeps own digest r (earlier, seen) h real =
    OnSome-if (Seen digest) (is_repeat r seen) _ _
      (λ again.
        OnSome-some (Seen digest) (earlier, seen)
          (seen_still r.rows_sha256 digest seen h (right_side _ _ again)))
      (λ fresh.
        OnSome-bind (Seen digest) (add_figures r.figures _) _
          (λ total e. OnSome-some (Seen digest) _ (seen_now r.rows_sha256 digest seen h real)))

left_side : (a : Bool) → (a || false) ≡ true → a ≡ true
left_side a e = ground arith

either_left : (a b : Bool) → a ≡ true → (a || b) ≡ true
either_left a b e = ground arith

either_right : (a b c d : Bool) → (b || (c || d)) ≡ true → (b || c) ≡ false → (a || d) ≡ true
either_right a b c d h e = ground arith

add_reports-keeps :
    (own digest : Bytes) (reports : List Report) (s : Running)
    → (is_seen digest (s.1) || any (λ r. bytes_eq r.rows_sha256 digest) reports) ≡ true
    → is_absent digest ≡ false
    → OnSome (Seen digest) (add_reports own reports s)
unfolding add_reports
add_reports-keeps own digest [] s h real =
    OnSome-some (Seen digest) s (unfold Seen in left_side (is_seen digest (s.1)) h)
add_reports-keeps own digest (r ∷ reports) s h real =
    OnSome-bind (Seen digest) (add_report own r s) _ (λ t e.
      add_reports-keeps own digest reports t
        (elim (Bool-cases (is_seen digest (s.1) || bytes_eq r.rows_sha256 digest)) [
          | inl now ↦
              let kept : is_seen digest (t.1) ≡ true =
                unfold Seen in
                OnSome-eq (Seen digest) (add_report-keeps own digest r s now real) e in
              either_left (is_seen digest (t.1)) (any (λ x. bytes_eq x.rows_sha256 digest) reports)
                kept
          | inr later ↦
              either_right (is_seen digest (t.1)) (is_seen digest (s.1))
                (bytes_eq r.rows_sha256 digest) (any (λ x. bytes_eq x.rows_sha256 digest) reports) h
                later
        ])
        real)

-- What is seen again is passed over.
add_report-again :
    (own : Bytes) (r : Report) (s : Running)
    → is_absent r.rows_sha256 ≡ false
    → Seen r.rows_sha256 s
    → add_report own r s ≡ some s
unfolding add_report Seen
add_report-again own r (earlier, seen) real again =
    let repeat : is_repeat r seen ≡ true = ground arith in rw repeat

abbrev start : Bytes → Running
start own = (
  record { usd = zero_value; other_currency = false; may_repeat = false; trust = unverified },
  if is_absent own then [] else own ∷ [],
)

started :
    (own digest : Bytes) (stated : Bool)
    → is_absent digest ≡ false
    → (bytes_eq own digest || stated) ≡ true
    → (is_seen digest (if is_absent own then [] else own ∷ []) || stated) ≡ true
started own digest stated real h =
    let alike : bytes_eq own digest ≡ true → is_absent own ≡ is_absent digest =
      λ e. ap (λ d. is_absent d) (bytes_eq-eq own digest e) in
    ground arith

passed :
    (own : Bytes) (r : Report) (after : List Report) (t : Running)
    → is_absent r.rows_sha256 ≡ false
    → Seen r.rows_sha256 t
    → add_reports own (r ∷ after) t ≡ add_reports own after t
unfolding add_reports
passed own r after t real seen =
    ap (λ o. o >>= add_reports own after) (add_report-again own r t real seen)

-- A report that states a digest changes nothing in what `Earlier` answers, wherever it stands,
-- where the digest is this run's own or an earlier report states it too.
pub earlier_total-repeat :
    (own : Bytes) (before : List Report) (r : Report) (after : List Report)
    → is_absent r.rows_sha256 ≡ false
    → (bytes_eq own r.rows_sha256
        || any (λ report. bytes_eq report.rows_sha256 r.rows_sha256) before)
      ≡ true
    → earlier_total (before ++ r ∷ after) own ≡ earlier_total (before ++ after) own
unfolding earlier_total
earlier_total-repeat own before r after real stated =
    ap (λ o. o >>= (λ done. some (done.0)))
      (add_reports-append own before (r ∷ after) (start own)
        ∙ bind-cong (add_reports own before (start own)) (λ t e.
          let seen =
            OnSome-eq (Seen r.rows_sha256)
              (add_reports-keeps own r.rows_sha256 before (start own)
                (started own r.rows_sha256 _ real stated) real)
              e in
          passed own r after t real seen)
        ∙ sym (add_reports-append own before after (start own)))
