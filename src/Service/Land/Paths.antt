-- ===== src/Service/Land/Paths.antt =====
-- service_c/rbstore.c: the paths that landing makes in the recycle bin.
use recyclebin_svc.Base.{
  if-cases, ==_iff, Option, none, some, suc, ◌==◌, if◌then◌else◌, ℕ, ◌^◌, ◌<◌, List, [], ◌∷◌, ◌++◌,
  ◌≡◌, ◌≢◌, ◌⊎◌, inl, refl, sym, ap, ◌∙◌, arith, map, WideString, length, drop, All, drop-append,
}
use recyclebin_svc.Base.Decimal.{
  number_digits, value_from, number_digits-value_base, number_digits-below_base,
}
use recyclebin_svc.Base.Wide.{last_index}
use recyclebin_svc.Service.Land.{from_index, extension_of, digit_36, base_36, bin_path}

-- No unit of the text is this one.
abbrev pub Lacks : ℕ → WideString → Type 0
Lacks c = All (λ x. x ≢ c)

digits-Lack :
    (c : ℕ) (ds : List ℕ)
    → (c < b'0') ⊎ (b'Z' < c)
    → All (λ d. d < 36) ds
    → Lacks c (map digit_36 ds)
digits-Lack c [] h below = tt
digits-Lack c (d ∷ ds) h below = (λ e. ground (arith, below.0), digits-Lack c ds h below.1)

pub base_36-Lacks : (c v : ℕ) → (c < b'0') ⊎ (b'Z' < c) → Lacks c (base_36 v)
unfolding base_36
base_36-Lacks c v h =
    digits-Lack c (number_digits 36 13 v) h (number_digits-below_base 36 13 v (omega arith))

digit_36-injective : (a b : ℕ) → a < 36 → b < 36 → digit_36 a ≡ digit_36 b → a ≡ b
digit_36-injective a b ha hb e = ground arith

digits-injective :
    (a b : List ℕ)
    → All (λ d. d < 36) a
    → All (λ d. d < 36) b
    → map digit_36 a ≡ map digit_36 b
    → a ≡ b
digits-injective [] [] ha hb e = refl
digits-injective [] (y ∷ b) ha hb e = cc
digits-injective (x ∷ a) [] ha hb e = cc
digits-injective (x ∷ a) (y ∷ b) ha hb e =
    let heads : digit_36 x ≡ digit_36 y = cc in
    let tails : map digit_36 a ≡ map digit_36 b = cc in
    let first = digit_36-injective x y ha.0 hb.0 heads in
    let rest = digits-injective a b ha.1 hb.1 tails in cc (first, rest)

base_36-injective :
    (v w : ℕ) → v < 18446744073709551616 → w < 18446744073709551616 → base_36 v ≡ base_36 w → v ≡ w
unfolding base_36
base_36-injective v w hv hw e =
    let below = λ (n : ℕ). number_digits-below_base 36 13 n (omega arith) in
    let value = λ (n : ℕ) (h : n < 36 ^ 13). number_digits-value_base 36 13 n (omega arith) h in
    sym (value v (omega (arith, hv)))
    ∙ ap (value_from 36 0) (digits-injective _ _ (below v) (below w) e)
    ∙ value w (omega (arith, hw))

-- What the extension is: nothing, or from a dot on.
abbrev pub IsExtension : WideString → Type 0
IsExtension [] = Unit
IsExtension (c ∷ _) = c ≡ b'.'

before_dot :
    (s t e f : WideString)
    → Lacks b'.' s
    → Lacks b'.' t
    → IsExtension e
    → IsExtension f
    → s ++ e ≡ t ++ f
    → s ≡ t
before_dot [] [] e f hs ht he hf q = refl
before_dot [] (y ∷ t) [] f hs ht he hf q = cc
before_dot [] (y ∷ t) (c ∷ e) f hs ht he hf q =
    let heads : c ≡ y = cc in absurd (ht.0 (sym heads ∙ he))
before_dot (x ∷ s) [] e [] hs ht he hf q = cc
before_dot (x ∷ s) [] e (c ∷ f) hs ht he hf q = let heads : x ≡ c = cc in absurd (hs.0 (heads ∙ hf))
before_dot (x ∷ s) (y ∷ t) e f hs ht he hf q =
    let heads : x ≡ y = cc in
    let tails : s ++ e ≡ t ++ f = cc in
    let rest = before_dot s t e f hs.1 ht.1 he hf tails in cc (heads, rest)

from_index-IsExtension : (path : WideString) → IsExtension (from_index path (last_index b'.' path))
unfolding last_index
from_index-IsExtension [] = tt
from_index-IsExtension (c ∷ path) =
    elim (last_index b'.' path)
        as (λ o.
          IsExtension (from_index path o)
          → IsExtension (
              from_index (c ∷ path)
                (elim o [ some i ↦ some (suc i) | none ↦ if c == b'.' then some 0 else none ]))) [
                  | some i ↦ λ later. later
                  | none ↦ λ _.
                      if-cases (λ (o : Option ℕ). IsExtension (from_index (c ∷ path) o)) (c == b'.')
                        (some 0) none (λ e. (==_iff c b'.').0 e) (λ _. tt)
                ]
      (from_index-IsExtension path)

extension_of-IsExtension : (path : WideString) → IsExtension (extension_of path)
unfolding extension_of
extension_of-IsExtension path = from_index-IsExtension path

-- Two rows that land in the same directory with different values of time plus id, both below 2^64, get
-- different paths, whatever the names of their files in staging.
pub bin_path-distinct :
    (letter : ℕ) (dir : WideString) (v w : ℕ) (p q : WideString)
    → v < 18446744073709551616
    → w < 18446744073709551616
    → v ≢ w
    → bin_path letter dir (base_36 v) (extension_of p)
      ≢ bin_path letter dir (base_36 w) (extension_of q)
bin_path-distinct letter dir v w p q hv hw differ same =
    let e = extension_of p in
    let f = extension_of q in
    let he = extension_of-IsExtension p in
    let hf = extension_of-IsExtension q in
    let behind = sym (drop-append dir _) ∙ ap (drop (length dir)) same ∙ drop-append dir _ in
    differ (
      base_36-injective v w hv hw (
        before_dot (base_36 v) (base_36 w) e f (base_36-Lacks b'.' v (inl (omega arith)))
          (base_36-Lacks b'.' w (inl (omega arith))) he hf (ap (drop 3) behind)))
