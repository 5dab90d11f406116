-- ===== src/Prelude/Texts.antt =====
-- Texts as their bytes: equality, order and prefixes, as Go's strings have them.
use Prim.Native.Nat.{ℕ, compare, Ordering}
use mathlib.Core.Path.{◌≡◌, refl, ap, sym, ◌∙◌}
use mathlib.Core.Logic.{◌↔◌}
use mathlib.Core.Bool.{Bool, true, false, ◌&&◌}
use mathlib.Core.List.{List, [], ◌∷◌}
use native.Mathlib.Omega.{arith}
use costroid.Prelude.Tests.{◌==◌}

abbrev pub Bytes : Type 0
Bytes = List ℕ

abbrev pub bytes_eq : Bytes → Bytes → Bool
bytes_eq [] [] = true
bytes_eq [] (d ∷ t) = false
bytes_eq (c ∷ s) [] = false
bytes_eq (c ∷ s) (d ∷ t) = c == d && bytes_eq s t

pub bytes_eq-eq : (s t : Bytes) → bytes_eq s t ≡ true → s ≡ t
bytes_eq-eq [] [] h = refl
bytes_eq-eq [] (d ∷ t) h = cc
bytes_eq-eq (c ∷ s) [] h = cc
bytes_eq-eq (c ∷ s) (d ∷ t) h = ground (arith, bytes_eq-eq s t)

pub bytes_eq_refl : (s : Bytes) → bytes_eq s s ≡ true
bytes_eq_refl [] = refl
bytes_eq_refl (c ∷ s) = ground (arith, bytes_eq_refl s)

pub bytes_eq_iff : (s t : Bytes) → (bytes_eq s t ≡ true) ↔ (s ≡ t)
bytes_eq_iff s t = (bytes_eq-eq s t, λ e. ap (λ x. bytes_eq s x) (sym e) ∙ bytes_eq_refl s)

-- `cmp.Compare` on strings.
abbrev pub bytes_compare : Bytes → Bytes → Ordering
bytes_compare [] [] = Ordering.eq
bytes_compare [] (d ∷ t) = Ordering.lt
bytes_compare (c ∷ s) [] = Ordering.gt
bytes_compare (c ∷ s) (d ∷ t) =
    let rest = bytes_compare s t in
    elim (compare c d) [
      | Ordering.lt ↦ Ordering.lt
      | Ordering.eq ↦ rest
      | Ordering.gt ↦ Ordering.gt
    ]

-- `strings.HasPrefix(text, prefix)`
abbrev pub has_prefix : Bytes → Bytes → Bool
has_prefix text [] = true
has_prefix [] (c ∷ s) = false
has_prefix (d ∷ t) (c ∷ s) = d == c && has_prefix t s
