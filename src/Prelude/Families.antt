-- ===== src/Prelude/Families.antt =====
-- Families `ℕ → A`: the update at one index, and sums over the first indexes.
use Prim.Native.Nat.{ℕ, zero, suc, ◌+◌, ◌≤◌, ◌<◌}
use mathlib.Core.Path.{ap}
use mathlib.Core.Logic.{inl, inr}
use native.Mathlib.Omega.{arith}
use costroid.Prelude.Tests.{◌==◌, if◌then◌else◌, ==_iff, Bool-cases}

abbrev pub update {ℓ} : {A : Type ℓ} → (ℕ → A) → ℕ → A → ℕ → A
update f id v j = if id == j then v else f j

unfoldable pub total_below : ℕ → (ℕ → ℕ) → ℕ
total_below zero f = 0
total_below (suc n) f = total_below n f + f n

pub total_below-le :
    (n : ℕ) (f g : ℕ → ℕ) → ((j : ℕ) → f j ≤ g j) → total_below n f ≤ total_below n g
unfolding total_below
total_below-le zero f g le = omega arith
total_below-le (suc n) f g le = omega (arith, total_below-le n f g le, le n)

-- A sum falls with one of its terms, where no other changes.
pub total_below-lt :
    (n : ℕ) (f g : ℕ → ℕ) (i : ℕ)
    → i < n
    → f i < g i
    → ((j : ℕ) → f j ≤ g j)
    → total_below n f < total_below n g
unfolding total_below
total_below-lt zero f g i h l le = absurd (omega arith)
total_below-lt (suc n) f g i h l le = elim (Bool-cases (i == n)) [
  | inl e ↦
      ground
        (arith, total_below-le n f g le, le n, ap f ((==_iff i n).0 e), ap g ((==_iff i n).0 e))
  | inr e ↦ ground (arith, total_below-lt n f g i, le n)
]
