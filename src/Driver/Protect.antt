-- ===== src/Driver/Protect.antt =====
-- driver/rbminiflt.c: which paths are protected and which names are excluded.
use recyclebin_svc.Base.{
  ◌<◌, Bool, true, false, not, ◌&&◌, ◌||◌, List, [], ◌∷◌, ◌++◌, ◌≡◌, ◌↔◌, refl, subst, arith, map,
  WideString, ltb, leb, ◌==◌, if◌then◌else◌, length, take, drop, any, length-append,
}
use recyclebin_svc.Base.Wide.{backslash, at, wide_eq, wide_eq-take, wide_eq-take_append}
use recyclebin_svc.Base.Prefix.{IsBoundary, IsUnder, SomeOf, any_iff}
use recyclebin_svc.Driver.Kernel.{Kernel}

-- The test in the loop of `RbfIsProtected`, on the uppercased path.
unfoldable pub prefix_matches : WideString → WideString → Bool
prefix_matches up pre =
    leb (length pre) (length up)
    && wide_eq pre (take (length pre) up)
    && (length up == length pre || at up (length pre) == backslash)

-- `pool_ok` is the allocation for a path that does not fit in 256 WCHARs on the stack.
unfoldable pub is_protected : Kernel → List WideString → Bool → WideString → Bool
unfolding prefix_matches
is_protected k [] pool_ok path = false
is_protected k (p ∷ ps) pool_ok path =
    if ltb 256 (length path) && not pool_ok
    then false
    else any (prefix_matches (map k.upcase path)) (p ∷ ps)

unfoldable pub is_excluded : Kernel → List WideString → WideString → Bool
is_excluded k exclude [] = false
is_excluded k exclude (c ∷ cs) = any (λ pattern. k.name_in_expression pattern (c ∷ cs)) exclude

IsBoundary-test :
    (p r : WideString)
    → (length (p ++ r) == length p || at (p ++ r) (length p) == backslash) ≡ true
    → IsBoundary r
IsBoundary-test [] [] h = tt
IsBoundary-test [] (c ∷ r) h = ground arith
IsBoundary-test (x ∷ p) r h = IsBoundary-test p r (ground arith)

IsBoundary-holds :
    (p r : WideString)
    → IsBoundary r
    → (length (p ++ r) == length p || at (p ++ r) (length p) == backslash) ≡ true
IsBoundary-holds [] [] h = refl
IsBoundary-holds [] (c ∷ r) h = ground arith
IsBoundary-holds (x ∷ p) r h = ground (arith, IsBoundary-holds p r h)

prefix_parts :
    (up pre : WideString)
    → prefix_matches up pre ≡ true
    → (wide_eq pre (take (length pre) up) ≡ true)
      × ((length up == length pre || at up (length pre) == backslash) ≡ true)
unfolding prefix_matches
prefix_parts up pre h = ground arith

IsUnder-matches : (up pre : WideString) → IsUnder pre up → prefix_matches up pre ≡ true
unfolding prefix_matches
IsUnder-matches up pre (rest, e, b) = rw e (
    ground
      (arith, wide_eq-take_append pre rest, IsBoundary-holds pre rest b, length-append pre rest))

prefix_matches_iff : (up pre : WideString) → (prefix_matches up pre ≡ true) ↔ IsUnder pre up
prefix_matches_iff up pre = (
  λ h.
      let t = prefix_parts up pre h in
      let rest = drop (length pre) up in
      let e : up ≡ pre ++ rest = wide_eq-take pre up t.0 in
      (
        rest,
        e,
        IsBoundary-test pre rest
            (subst (λ u. (length u == length pre || at u (length pre) == backslash) ≡ true) e t.1),
      ),
  IsUnder-matches up pre,
)

-- With its scratch buffer allocated, the filter takes a path for protected exactly when the path,
-- uppercased, is one of the cached prefixes or lies below one: after the prefix comes the end of the
-- path or a backslash.
pub is_protected_iff :
    (k : Kernel) (prefixes : List WideString) (path : WideString)
    → (is_protected k prefixes true path ≡ true)
      ↔ SomeOf (λ pre. IsUnder pre (map k.upcase path)) prefixes
unfolding is_protected
is_protected_iff k [] path = (λ h. cc, λ h. elim h [ ])
is_protected_iff k (p ∷ ps) path =
    let up = map k.upcase path in
    let found =
      any_iff (λ pre. IsUnder pre up) (prefix_matches up) (prefix_matches_iff up) (p ∷ ps) in
    (λ h. found.0 (ground arith), λ h. ground (arith, found.1 h))

-- A path of more than 256 WCHARs whose scratch buffer cannot be allocated is taken for unprotected,
-- whatever the prefixes.
is_protected-no_pool :
    (k : Kernel) (prefixes : List WideString) (path : WideString)
    → 256 < length path
    → is_protected k prefixes false path ≡ false
unfolding is_protected
is_protected-no_pool k [] path h = refl
is_protected-no_pool k (p ∷ ps) path h = ground arith
