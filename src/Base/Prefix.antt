-- ===== src/Base/Prefix.antt =====
-- Prefixes of paths that end at a separator, and membership by a test.
use mathlib.Core.Path.{◌≡◌, refl}
use mathlib.Core.Logic.{◌↔◌, ◌⊎◌, inl, inr}
use mathlib.Core.Bool.{Bool, true}
use mathlib.Core.List.{List, [], ◌∷◌, ◌++◌}
use native.Mathlib.Omega.{arith}
use recyclebin_svc.Base.Tests.{Bool-cases}
use recyclebin_svc.Base.Lists.{any}
use recyclebin_svc.Base.Wide.{WideString, backslash}

-- The end of a path, or a separator: where a prefix may stop.
abbrev pub IsBoundary : WideString → Type 0
IsBoundary [] = Unit
IsBoundary (c ∷ _) = c ≡ backslash

-- The prefix itself, or something below it.
abbrev pub IsUnder : WideString → WideString → Type 0
IsUnder pre s = (rest : WideString) × (s ≡ pre ++ rest) × IsBoundary rest

-- Some element has the property.
abbrev pub SomeOf : (WideString → Type 0) → List WideString → Type 0
SomeOf P [] = ⊥
SomeOf P (x ∷ xs) = P x ⊎ SomeOf P xs

pub any_iff :
    (P : WideString → Type 0) (test : WideString → Bool)
    → ((x : WideString) → (test x ≡ true) ↔ P x)
    → (xs : List WideString) → (any test xs ≡ true) ↔ SomeOf P xs
any_iff P test iff [] = (λ h. cc, λ h. elim h [ ])
any_iff P test iff (x ∷ xs) = (
  λ h. elim (Bool-cases (test x)) [
    | inl e ↦ inl ((iff x).0 e)
    | inr e ↦ inr ((any_iff P test iff xs).0 (ground arith))
  ],
  λ h. elim h [
    | inl p ↦ rw ((iff x).1 p) refl
    | inr q ↦ ground (arith, (any_iff P test iff xs).1 q)
  ],
)
