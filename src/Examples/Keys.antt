-- ===== src/Examples/Keys.antt =====
-- Concrete keys and figures of internal/gateway, and reports of internal/history.
use costroid.Prelude.{
  ◌++◌, List, none, ◌≤◌, Ordering, true, ◌≡◌, ◌≢◌, ◌↔◌, All, refl, [], ◌∷◌, some, codes, arith,
}
use costroid.Prelude.Int.{pos, ◌+ℤ◌, ◌*ℤ◌}
use costroid.Prelude.Power.{pow10}
use costroid.Decimal.{
  Decimal, from_int, add, div_pow10, cmp, sign, scale, rescale, normal, normal_loop,
}
use costroid.Decimal.Text.{atoi, parse, string}
use costroid.Gateway.{KeyInfo, expires_at, Expect, holds, inspect, round_up, spend_for}
use costroid.Gateway.Holds.{IsGranted, inspect-IsGranted}
use costroid.History.{Report, earlier_total}
use costroid.History.Repeats.{earlier_total-repeat}
use costroid.Gateway.Watch.{Probe, answered, HoldsAt, watch, watch-none}
use costroid.Gateway.Rounding.{round_up-IsClose}

-- Three requests of 0.006, as a binary sum reads them.
abbrev drifted : Decimal
drifted = record { coefficient = pos 18000000000000002; scale = 18 }

drifted-sign : sign drifted ≢ Ordering.lt
unfolding sign
drifted-sign e = absurd (ground arith)

round_up-IsClose_example :
    (rounded : Decimal) × (round_up drifted 12 ≡ some rounded)
    × (scale rounded ≤ 12)
    × (cmp drifted rounded ≢ Ordering.gt)
    × (cmp rounded (add drifted (div_pow10 (from_int (pos 1)) 12)) ≢ Ordering.gt)
round_up-IsClose_example = round_up-IsClose drifted 12 drifted-sign (omega arith)

attested :
    spend_for (record { counted_id = []; counted_spend = drifted }) ≡ some (codes "0.018000000001")
unfolding spend_for scale normal normal_loop parse string add div_pow10 ◌+ℤ◌ rescale ◌*ℤ◌ pow10
attested = refl

abbrev run_key : KeyInfo
run_key = record {
  max_budget = some (codes "2.5");
  spend = codes "0";
  expires = expires_at 200;
  max_parallel = some (pos 4);
  metadata =
      (codes "costroid_run_id", some (codes "42"))
      ∷ (codes "costroid_max_request_tokens", some (codes "20000"))
      ∷ [];
}

abbrev this_run : Expect
this_run = record { budget = from_int (pos 3); run = codes "42"; now = 100 }

run_key-holds : holds (inspect (λ key. key) (codes "sk") run_key this_run) ≡ true
unfolding holds inspect parse sign normal_loop cmp rescale ◌*ℤ◌ pow10 from_int atoi
run_key-holds = refl

inspect-IsGranted_example :
    IsGranted run_key this_run (inspect (λ key. key) (codes "sk") run_key this_run)
inspect-IsGranted_example =
    inspect-IsGranted (λ key. key) (codes "sk") run_key this_run run_key-holds

-- A store that is lost between two probes that find it.
abbrev probes : List Probe
probes =
    answered 200 (codes "connected")
    ∷ answered 200 (codes "lost")
    ∷ answered 200 (codes "connected")
    ∷ []

watch-none_example : (watch none probes ≡ none) ↔ All HoldsAt probes
watch-none_example = watch-none probes

-- A report of one figure, and its repeat.
abbrev report : Report
report = record {
  rows_sha256 = codes "ab";
  figures =
      record {
        figure_currency = codes "USD";
        figure_basis = codes "measured";
        figure_cost = codes "1.5";
      }
      ∷ [];
}

earlier_total-repeat_example :
    earlier_total ((report ∷ []) ++ report ∷ []) (codes "cd")
    ≡ earlier_total ((report ∷ []) ++ []) (codes "cd")
earlier_total-repeat_example = earlier_total-repeat (codes "cd") (report ∷ []) report [] refl refl
