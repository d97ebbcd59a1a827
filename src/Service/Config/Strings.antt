-- ===== src/Service/Config/Strings.antt =====
-- service_c/rbconfig.c: RegReadMultiSz on a value as REG_MULTI_SZ is written.
use recyclebin_svc.Base.{
  ℕ, zero, suc, ◌<◌, false, some, List, [], ◌∷◌, ◌++◌, ◌≡◌, ◌≢◌, refl, arith, WideString, ◌==◌,
  length, All, length-append,
}
use recyclebin_svc.Service.Config.{first_string, split_strings, reg_read_multi_sz}

-- Each string with its NUL, and one more NUL.
abbrev pub multi_sz : List WideString → WideString
multi_sz [] = 0 ∷ []
multi_sz (p ∷ ps) = p ++ (0 ∷ multi_sz ps)

abbrev pub IsString : WideString → Type 0
IsString p = (0 < length p) × All (λ c. c ≢ 0) p

first_string-append :
    (p rest : WideString) → All (λ c. c ≢ 0) p → first_string (p ++ (0 ∷ rest)) ≡ (p, rest)
unfolding first_string
first_string-append [] rest h = refl
first_string-append (c ∷ p) rest h = ground (arith, first_string-append p rest h.1, h.0)

not_empty : (p : WideString) → 0 < length p → (length p == 0) ≡ false
not_empty p h = ground arith

split_strings-multi_sz :
    (fuel : ℕ) (ps : List WideString)
    → length ps < fuel
    → All IsString ps
    → split_strings fuel (multi_sz ps) ≡ ps
unfolding split_strings first_string
split_strings-multi_sz zero ps enough h = absurd (omega arith)
split_strings-multi_sz (suc fuel) [] enough h = refl
split_strings-multi_sz (suc fuel) (p ∷ ps) enough h =
    let first = first_string-append p (multi_sz ps) h.0.1 in
    let rest = split_strings-multi_sz fuel ps (omega arith) h.1 in
    rw (first, not_empty p h.0.0, rest) refl

length-multi_sz : (ps : List WideString) → length ps < length (multi_sz ps)
length-multi_sz [] = omega arith
length-multi_sz (p ∷ ps) = omega (arith, length-multi_sz ps, length-append p (0 ∷ multi_sz ps))

-- The protected paths, each not empty and without a NUL inside, are read as they were written.
reg_read_multi_sz-multi_sz :
    (ps : List WideString) → All IsString ps → reg_read_multi_sz (some (multi_sz ps)) ≡ ps
reg_read_multi_sz-multi_sz ps h =
    split_strings-multi_sz (length (multi_sz ps)) ps (length-multi_sz ps) h
