-- ===== src/Base/Decimal.antt =====
-- Numbers in a base, as the sources print them: remainders collected while the number is not 0, the
-- last one first in the result.
use Prim.Native.Nat.{ℕ, zero, suc, ◌+◌, ◌*◌, ◌/◌, ◌%◌, ◌^◌, ◌≤◌, ◌<◌}
use mathlib.Core.Path.{◌≡◌, refl, sym, ap, ◌∙◌, subst}
use mathlib.Core.Logic.{inl, inr}
use mathlib.Core.List.{List, [], ◌∷◌}
use native.Mathlib.Omega.{arith}
use native.Mathlib.Nat.{pow-suc, pow-zero, div-lt_iff_lt-mul, div-add-mod', mod-lt}
use recyclebin_svc.Base.Tests.{◌==◌, if◌then◌else◌, Bool-cases, ==_iff}
use recyclebin_svc.Base.Lists.{All, length}

-- `while (n > 0) { … n % base … n /= base }` on fuel, in front of `acc`
unfoldable pub digits : ℕ → ℕ → ℕ → List ℕ → List ℕ
digits base zero n acc = acc
digits base (suc fuel) n acc =
    let rest = digits base fuel (n / base) ((n % base) ∷ acc) in if n == 0 then acc else rest

-- 0 has its own branch. A 64-bit number has at most 20 decimal digits.
unfoldable pub number_digits : ℕ → ℕ → ℕ → List ℕ
unfolding digits
number_digits base fuel n = if n == 0 then 0 ∷ [] else digits base fuel n []

-- The number that digits stand for, behind the number `n`.
abbrev pub value_from : ℕ → ℕ → List ℕ → ℕ
value_from base n [] = n
value_from base n (d ∷ ds) = value_from base (n * base + d) ds

digits-value :
    (base fuel n : ℕ) (acc : List ℕ)
    → 0 < base
    → n < base ^ fuel
    → value_from base 0 (digits base fuel n acc) ≡ value_from base n acc
unfolding digits
digits-value base zero n acc pos h = ap (λ m. value_from base m acc) (omega (arith, pow-zero base))
digits-value base (suc fuel) n acc pos h = elim (Bool-cases (n == 0)) [
  | inl e ↦ rw e (ap (λ m. value_from base m acc) (sym ((==_iff n 0).0 e)))
  | inr e ↦ rw e (
      digits-value base fuel (n / base) ((n % base) ∷ acc) pos
        ((div-lt_iff_lt-mul pos).1 (subst (λ m. n < m) (pow-suc base fuel) h))
      ∙ ap (λ m. value_from base m acc) (div-add-mod' n base))
]

-- The printed digits stand for the number, for every number below base ^ fuel.
pub number_digits-value_base :
    (base fuel n : ℕ)
    → 0 < base
    → n < base ^ fuel
    → value_from base 0 (number_digits base fuel n) ≡ n
unfolding number_digits
number_digits-value_base base fuel n pos h = elim (Bool-cases (n == 0)) [
  | inl e ↦ rw e (omega (arith, (==_iff n 0).0 e))
  | inr e ↦ rw e (digits-value base fuel n [] pos h)
]

pub number_digits-value :
    (fuel n : ℕ) → n < 10 ^ fuel → value_from 10 0 (number_digits 10 fuel n) ≡ n
number_digits-value fuel n h = number_digits-value_base 10 fuel n (omega arith) h

pub number_digits-injective :
    (fuel m n : ℕ)
    → m < 10 ^ fuel
    → n < 10 ^ fuel
    → number_digits 10 fuel m ≡ number_digits 10 fuel n
    → m ≡ n
number_digits-injective fuel m n hm hn e =
    sym (number_digits-value fuel m hm) ∙ ap (value_from 10 0) e ∙ number_digits-value fuel n hn

digits-below :
    (base fuel n : ℕ) (acc : List ℕ)
    → 0 < base
    → All (λ d. d < base) acc
    → All (λ d. d < base) (digits base fuel n acc)
unfolding digits
digits-below base zero n acc pos h = h
digits-below base (suc fuel) n acc pos h = elim (Bool-cases (n == 0)) [
  | inl e ↦ rw e h
  | inr e ↦ rw e (digits-below base fuel (n / base) ((n % base) ∷ acc) pos (mod-lt n pos, h))
]

pub number_digits-below_base :
    (base fuel n : ℕ) → 0 < base → All (λ d. d < base) (number_digits base fuel n)
unfolding number_digits
number_digits-below_base base fuel n pos = elim (Bool-cases (n == 0)) [
  | inl e ↦ rw e (pos, tt)
  | inr e ↦ rw e (digits-below base fuel n [] pos tt)
]

pub number_digits-below : (fuel n : ℕ) → All (λ d. d < 10) (number_digits 10 fuel n)
number_digits-below fuel n = number_digits-below_base 10 fuel n (omega arith)

length-digits :
    (base fuel n : ℕ) (acc : List ℕ) → length (digits base fuel n acc) ≤ fuel + length acc
unfolding digits
length-digits base zero n acc = omega arith
length-digits base (suc fuel) n acc =
    ground (arith, length-digits base fuel (n / base) ((n % base) ∷ acc))

pub length-number_digits : (base fuel n : ℕ) → length (number_digits base fuel n) ≤ fuel + 1
unfolding number_digits
length-number_digits base fuel n = ground (arith, length-digits base fuel n [])

printed_max :
    number_digits 10 20 18446744073709551615
    ≡ 1 ∷ 8 ∷ 4 ∷ 4 ∷ 6 ∷ 7 ∷ 4 ∷ 4 ∷ 0 ∷ 7 ∷ 3 ∷ 7 ∷ 0 ∷ 9 ∷ 5 ∷ 5 ∷ 1 ∷ 6 ∷ 1 ∷ 5 ∷ []
unfolding number_digits
printed_max = refl
