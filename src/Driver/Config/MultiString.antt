-- ===== src/Driver/Config/MultiString.antt =====
-- driver/rbminiflt.c, RB-26: the walk over a REG_MULTI_SZ value.
use recyclebin_svc.Base.{
  length-map, ℕ, zero, suc, ◌<◌, ◌≤◌, true, false, Option, none, some, List, [], ◌∷◌, ◌++◌, ◌≡◌,
  ◌≢◌, refl, ap, ◌∙◌, arith, map, WideString, ltb, ◌==◌, length, length-append, All, Bool-cases,
  inl, inr, ltb→lt,
}
use recyclebin_svc.Base.Wide.{wide}
use recyclebin_svc.Driver.State.{
  Global, rbf_max_path, rbf_max_name, rbf_max_protected, rbf_max_exclude,
}
use recyclebin_svc.Driver.Kernel.{Kernel}
use recyclebin_svc.Driver.Config.{
  RegValue, multi_string, dword, other_type, Registry, segment, multi_walk, read_multi,
  value_strings, or_defaults, load_config,
}

-- A REG_MULTI_SZ value with these strings: each has its NUL, and one more ends the list.
abbrev pub encode_multi : List WideString → WideString
encode_multi [] = 0 ∷ []
encode_multi (s ∷ ss) = s ++ 0 ∷ encode_multi ss

-- A string that the walk takes: not empty, without a NUL, shorter than the limit.
abbrev pub IsEntry : ℕ → WideString → Type 0
IsEntry max_len s = (0 < length s) × (length s < max_len) × All (λ c. c ≢ 0) s

segment-append : (s rest : WideString) → All (λ c. c ≢ 0) s → segment (s ++ 0 ∷ rest) ≡ (s, rest)
unfolding segment
segment-append [] rest h = refl
segment-append (c ∷ s) rest h = ground (arith, segment-append s rest h.1)

length-encode : (ss : List WideString) → length ss < length (encode_multi ss)
length-encode [] = omega arith
length-encode (s ∷ ss) = omega (arith, length-append s (0 ∷ encode_multi ss), length-encode ss)

walk_taken :
    (upcase : ℕ → ℕ) (max_len fuel room c : ℕ) (s entry rest : WideString)
    → segment (c ∷ s) ≡ (entry, rest)
    → c ≢ 0
    → length entry < max_len
    → multi_walk upcase max_len (suc fuel) (suc room) (c ∷ s)
      ≡ map upcase entry ∷ multi_walk upcase max_len fuel room rest
unfolding multi_walk
walk_taken upcase max_len fuel room c s entry rest e nonzero short = rw e (ground arith)

walk-encode :
    (upcase : ℕ → ℕ) (max_len fuel room : ℕ) (ss : List WideString)
    → All (IsEntry max_len) ss
    → length ss ≤ room
    → length ss < fuel
    → multi_walk upcase max_len fuel room (encode_multi ss) ≡ map (map upcase) ss
unfolding multi_walk
walk-encode upcase max_len zero room ss h r f = absurd (omega arith)
walk-encode upcase max_len (suc fuel) zero [] h r f = refl
walk-encode upcase max_len (suc fuel) zero (s ∷ ss) h r f = absurd (omega arith)
walk-encode upcase max_len (suc fuel) (suc room) [] h r f = refl
walk-encode upcase max_len (suc fuel) (suc room) ([] ∷ ss) h r f = absurd (omega (arith, h.0.0))
walk-encode upcase max_len (suc fuel) (suc room) ((c ∷ s) ∷ ss) h r f =
    walk_taken upcase max_len fuel room c (s ++ 0 ∷ encode_multi ss) (c ∷ s) (encode_multi ss)
      (segment-append (c ∷ s) (encode_multi ss) h.0.2) h.0.2.0 h.0.1
    ∙ ap (λ t. map upcase (c ∷ s) ∷ t)
        (walk-encode upcase max_len fuel room ss h.1 (omega arith) (omega arith))

-- A value with at most as many strings as the driver keeps, each not empty and short enough, is read
-- back as these strings, uppercased.
read_multi-encode :
    (upcase : ℕ → ℕ) (max_len max_count : ℕ) (ss : List WideString)
    → All (IsEntry max_len) ss
    → length ss ≤ max_count
    → read_multi upcase max_len max_count (encode_multi ss) ≡ map (map upcase) ss
read_multi-encode upcase max_len max_count ss h room =
    walk-encode upcase max_len (length (encode_multi ss)) max_count ss h room (length-encode ss)

-- What is in a table: at most `room` entries, none empty, each shorter than its buffer.
abbrev pub IsTable : ℕ → ℕ → List WideString → Type 0
IsTable max_len room ss = (length ss ≤ room) × All (λ s. (0 < length s) × (length s < max_len)) ss

segment-nonempty : (c : ℕ) (s : WideString) → (c == 0) ≡ false → 0 < length (segment (c ∷ s)).0
unfolding segment
segment-nonempty c s h = ground arith

walk-IsTable :
    (upcase : ℕ → ℕ) (max_len fuel room : ℕ) (blob : WideString)
    → IsTable max_len room (multi_walk upcase max_len fuel room blob)
unfolding multi_walk
walk-IsTable upcase max_len zero room blob = (omega arith, tt)
walk-IsTable upcase max_len (suc fuel) zero blob = (omega arith, tt)
walk-IsTable upcase max_len (suc fuel) (suc room) [] = (omega arith, tt)
walk-IsTable upcase max_len (suc fuel) (suc room) (c ∷ s) =
    let seg = segment (c ∷ s) in
    let taken = walk-IsTable upcase max_len fuel room seg.1 in
    let skipped = walk-IsTable upcase max_len fuel (suc room) seg.1 in
    elim (Bool-cases (c == 0)) [
      | inl e ↦ rw e (omega arith, tt)
      | inr e ↦ elim (Bool-cases (ltb (length seg.0) max_len)) [
        | inl f ↦
            rw (e, f)
              (
                omega arith,
                (
                  (
                    omega (arith, length-map upcase seg.0, segment-nonempty c s e),
                    omega (arith, length-map upcase seg.0, ltb→lt (length seg.0) max_len f),
                  ),
                  taken.1,
                ),
              )
        | inr f ↦ rw (e, f) skipped
      ]
    ]

value_strings-IsTable :
    (upcase : ℕ → ℕ) (max_len max_count : ℕ) (o : Option RegValue)
    → IsTable max_len max_count (value_strings upcase max_len max_count o)
unfolding value_strings
value_strings-IsTable upcase max_len max_count (some (multi_string blob)) =
    walk-IsTable upcase max_len (length blob) max_count blob
value_strings-IsTable upcase max_len max_count (some (dword a b)) = (omega arith, tt)
value_strings-IsTable upcase max_len max_count (some other_type) = (omega arith, tt)
value_strings-IsTable upcase max_len max_count none = (omega arith, tt)

or_defaults-IsTable :
    (upcase : ℕ → ℕ) (ss : List WideString)
    → IsTable rbf_max_name rbf_max_exclude ss
    → IsTable rbf_max_name rbf_max_exclude (or_defaults upcase ss)
      × (0 < length (or_defaults upcase ss))
unfolding or_defaults
or_defaults-IsTable upcase [] h = (omega arith, omega arith)
or_defaults-IsTable upcase (s ∷ ss) h = (h, omega arith)

-- Whatever the registry holds, terminated or not, once the key could be read the protected prefixes
-- and the exclude patterns fit their tables of 16 and their buffers, no prefix is empty, there is an
-- exclude pattern, and the published count is the number of prefixes.
load_config-IsTable :
    (k : Kernel) (reg : Registry) (g : Global)
    → reg.opens ≡ true
    → reg.pool ≡ true
    → let c = load_config k reg g in
      IsTable rbf_max_path rbf_max_protected c.protected
      × IsTable rbf_max_name rbf_max_exclude c.exclude
      × (0 < length c.exclude)
      × (c.stats.protected_count ≡ length c.protected)
unfolding load_config
load_config-IsTable k reg g opens pool =
    let excluded =
      or_defaults-IsTable k.upcase
        (value_strings k.upcase rbf_max_name rbf_max_exclude (reg.query (wide "ExcludePatterns")))
        (value_strings-IsTable k.upcase rbf_max_name rbf_max_exclude
          (reg.query (wide "ExcludePatterns"))) in
    rw (opens, pool)
      (
        value_strings-IsTable k.upcase rbf_max_path rbf_max_protected
            (reg.query (wide "ProtectedPaths")),
        excluded.0,
        excluded.1,
        refl,
      )
