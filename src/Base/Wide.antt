-- ===== src/Base/Wide.antt =====
-- NUL-terminated UTF-16 strings, and UNICODE_STRINGs, as the list of their code units without the
-- NUL. Reading at or past the end gives the NUL, 0. Case is folded as the C runtime does in the "C"
-- locale, which the service never changes: over A to Z.
use Prim.Native.Nat.{ℕ, suc, ◌+◌}
use Prim.Native.Char.{code}
use Prim.Native.String.{String}
use mathlib.Core.Path.{◌≡◌, refl, sym, ap, ◌∙◌}
use mathlib.Core.Logic.{◌↔◌}
use mathlib.Core.Bool.{Bool, true, false, ◌&&◌}
use mathlib.Core.Option.{Option, none, some}
use mathlib.Core.List.{List, [], ◌∷◌, ◌++◌, map}
use native.Mathlib.Omega.{arith}
use recyclebin_svc.Base.Tests.{leb, ◌==◌, if◌then◌else◌}
use recyclebin_svc.Base.Lists.{length, take, drop, get_or, take-append, take-append-drop}

abbrev pub WideString : Type 0
WideString = List ℕ

abbrev pub backslash : ℕ
backslash = 92

abbrev pub colon : ℕ
colon = 58

abbrev pub wide : String → WideString
wide String.[] = []
wide (String.◌∷◌ c s) = code c ∷ wide s

-- `s[i]` of a NUL-terminated string
abbrev pub at : WideString → ℕ → ℕ
at s i = get_or s i 0

unfoldable pub to_lower : ℕ → ℕ
to_lower c = if leb b'A' c && leb c b'Z' then c + 32 else c

abbrev pub lower : WideString → WideString
lower = map to_lower

unfoldable pub wide_eq : WideString → WideString → Bool
wide_eq [] [] = true
wide_eq [] (y ∷ ys) = false
wide_eq (x ∷ xs) [] = false
wide_eq (x ∷ xs) (y ∷ ys) = x == y && wide_eq xs ys

-- `_wcsicmp(a, b) == 0`
abbrev pub same_text : WideString → WideString → Bool
same_text a b = wide_eq (lower a) (lower b)

-- `_wcsnicmp(s, p, wcslen(p)) == 0`
abbrev pub starts_with_text : WideString → WideString → Bool
starts_with_text p s = wide_eq (lower p) (take (length p) (lower s))

pub wide_eq_refl : (s : WideString) → wide_eq s s ≡ true
unfolding wide_eq
wide_eq_refl [] = refl
wide_eq_refl (x ∷ xs) = ground (arith, wide_eq_refl xs)

pub wide_eq→eq : (s t : WideString) → wide_eq s t ≡ true → s ≡ t
unfolding wide_eq
wide_eq→eq [] [] h = refl
wide_eq→eq [] (y ∷ ys) h = cc
wide_eq→eq (x ∷ xs) [] h = cc
wide_eq→eq (x ∷ xs) (y ∷ ys) h = ground (arith, wide_eq→eq xs ys)

wide_eq_iff : (s t : WideString) → (wide_eq s t ≡ true) ↔ (s ≡ t)
wide_eq_iff s t = (wide_eq→eq s t, λ e. rw e (wide_eq_refl t))

-- Index of the last occurrence of `c`, as `wcsrchr` finds it.
unfoldable pub last_index : ℕ → WideString → Option ℕ
last_index c [] = none
last_index c (x ∷ xs) = elim (last_index c xs) [
  | some i ↦ some (suc i)
  | none ↦ if x == c then some 0 else none
]

pub wide_eq-take :
    (p s : WideString) → wide_eq p (take (length p) s) ≡ true → s ≡ p ++ drop (length p) s
wide_eq-take p s h =
    sym (take-append-drop (length p) s)
    ∙ ap (λ t. t ++ drop (length p) s) (sym (wide_eq→eq p (take (length p) s) h))

pub wide_eq-take_append : (p r : WideString) → wide_eq p (take (length p) (p ++ r)) ≡ true
wide_eq-take_append p r = rw (take-append p r) (wide_eq_refl p)
