-- ===== src/Prelude/Power.antt =====
-- Powers of ten as factors: what changing the scale of a decimal needs.
use Prim.Native.Nat.{ℕ, zero, suc, ◌+◌, ◌-◌, ◌*◌, ◌^◌, ◌≤◌, ◌<◌}
use mathlib.Core.Path.{◌≡◌, refl, ap, ◌∙◌}
use native.Mathlib.Nat.{pow-suc, zero-add, suc-add}
use native.Mathlib.Omega.{arith}

-- 10 ^ n, with its two clauses as lemmas; kept shut so that a power is one unknown.
unfoldable pub pow10 : ℕ → ℕ
pow10 n = 10 ^ n

pub pow10-suc : (n : ℕ) → pow10 (suc n) ≡ 10 * pow10 n
unfolding pow10
pow10-suc n = omega (arith, pow-suc 10 n)

pub pow10-pos : (n : ℕ) → 0 < pow10 n
pow10-pos zero = unfold pow10 in omega arith
pow10-pos (suc n) = omega (arith, pow10-suc n, pow10-pos n)

pub pow10-zero : pow10 0 ≡ 1
unfolding pow10
pow10-zero = refl

pub pow10-add : (m n : ℕ) → pow10 (m + n) ≡ pow10 m * pow10 n
pow10-add zero n = rw (zero-add, pow10-zero) (omega arith)
pow10-add (suc m) n = rw (suc-add, pow10-suc (m + n), pow10-suc m, pow10-add m n) (omega arith)

-- A power split at a smaller exponent.
pub pow10-split : (m n : ℕ) → n ≤ m → pow10 m ≡ pow10 (m - n) * pow10 n
pow10-split m n h = let e : m ≡ m - n + n = omega arith in ap pow10 e ∙ pow10-add (m - n) n
