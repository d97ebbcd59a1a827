-- ===== src/Service/Dest/Allowed.antt =====
-- service_c/rbrestore.c, RB-06: what the destination check guarantees, and what it does not.
use recyclebin_svc.Base.{
  ℕ, zero, suc, ◌<◌, true, false, ◌||◌, List, [], ◌∷◌, ◌++◌, ◌≡◌, ◌≢◌, inl, inr, refl, sym, ap, ◌∙◌,
  arith, subst, WideString, ◌==◌, length, take, drop, any, All, Bool-cases,
}
use recyclebin_svc.Base.Wide.{
  backslash, colon, at, lower, to_lower, wide, wide_eq, wide_eq-take, wide_eq-take_append,
  starts_with_text,
}
use recyclebin_svc.Base.Prefix.{IsBoundary, IsUnder, SomeOf}
use recyclebin_svc.Service.Dest.{dot, has_dot_dot, prefix_allows, dest_is_allowed}

-- The path is a prefix, or lies below one, in any case of letters.
abbrev pub IsBelow : List WideString → WideString → Type 0
IsBelow protected dst = SomeOf (λ p. (0 < length p) × IsUnder (lower p) (lower dst)) protected

prefix_parts :
    (dst p : WideString)
    → prefix_allows dst p ≡ true
    → (0 < length p)
      × (starts_with_text p dst ≡ true)
      × ((at dst (length p) == 0 || at dst (length p) == backslash) ≡ true)
unfolding prefix_allows
prefix_parts dst [] h = cc
prefix_parts dst (c ∷ p) h = ground arith

allowed_parts :
    (protected : List WideString) (dst : WideString)
    → dest_is_allowed protected dst ≡ true
    → (at dst 0 ≢ backslash)
      × (at dst 1 ≡ colon)
      × (has_dot_dot dst ≡ false)
      × (any (prefix_allows dst) protected ≡ true)
unfolding dest_is_allowed
allowed_parts protected dst h = ground arith

lower_boundary : (c : ℕ) → c ≢ 0 → (c == 0 || c == backslash) ≡ true → to_lower c ≡ backslash
unfolding to_lower
lower_boundary c h e = ground arith

length-lower : (s : WideString) → length (lower s) ≡ length s
length-lower [] = refl
length-lower (c ∷ s) = ap suc (length-lower s)

true≢false : true ≢ false
true≢false e = cc

IsBoundary-behind :
    (n : ℕ) (s : WideString)
    → All (λ c. c ≢ 0) s
    → (at s n == 0 || at s n == backslash) ≡ true
    → IsBoundary (drop n (lower s))
IsBoundary-behind zero [] h e = tt
IsBoundary-behind zero (c ∷ s) h e = lower_boundary c h.0 e
IsBoundary-behind (suc n) [] h e = tt
IsBoundary-behind (suc n) (c ∷ s) h e = IsBoundary-behind n s h.1 e

prefix_allows-IsUnder :
    (dst p : WideString)
    → All (λ c. c ≢ 0) dst
    → prefix_allows dst p ≡ true
    → (0 < length p) × IsUnder (lower p) (lower dst)
prefix_allows-IsUnder dst p h e =
    let t = prefix_parts dst p e in
    let n = length-lower p in
    (
      t.0,
      (
        drop (length p) (lower dst),
        subst (λ k. lower dst ≡ lower p ++ drop k (lower dst)) n
            (wide_eq-take (lower p) (lower dst)
              (subst (λ k. wide_eq (lower p) (take k (lower dst)) ≡ true) (sym n) t.1)),
        IsBoundary-behind (length p) dst h t.2,
      ),
    )

some-IsBelow :
    (protected : List WideString) (dst : WideString)
    → All (λ c. c ≢ 0) dst
    → any (prefix_allows dst) protected ≡ true
    → IsBelow protected dst
some-IsBelow [] dst h e = cc
some-IsBelow (p ∷ ps) dst h e = elim (Bool-cases (prefix_allows dst p)) [
  | inl f ↦ inl (prefix_allows-IsUnder dst p h f)
  | inr f ↦ inr (some-IsBelow ps dst h (ground arith))
]

has_dot_dot_found : (a r : WideString) → IsBoundary r → has_dot_dot (a ++ dot ∷ dot ∷ r) ≡ true
unfolding has_dot_dot
has_dot_dot_found [] [] b = refl
has_dot_dot_found [] (c ∷ r) b = ground arith
has_dot_dot_found (c ∷ a) r b = ground (arith, has_dot_dot_found a r b)

-- A destination that passes the check is a path with a drive letter, it is one of the configured
-- prefixes or lies below one (behind the prefix comes a backslash or the end, letters in any case),
-- and it is not of the form a, two dots, r where r is empty or starts with a backslash.
pub dest_is_allowed-IsBelow :
    (protected : List WideString) (dst a r : WideString)
    → All (λ c. c ≢ 0) dst
    → IsBoundary r
    → dest_is_allowed protected dst ≡ true
    → (at dst 0 ≢ backslash)
      × (at dst 1 ≡ colon)
      × IsBelow protected dst
      × (dst ≢ a ++ dot ∷ dot ∷ r)
dest_is_allowed-IsBelow protected dst a r h b e =
    let t = allowed_parts protected dst e in
    (
      t.0,
      t.1,
      some-IsBelow protected dst h t.3,
      λ same. true≢false (sym (has_dot_dot_found a r b) ∙ ap has_dot_dot (sym same) ∙ t.2),
    )

dot_free : (s x : WideString) → All (λ c. c ≢ dot) s → has_dot_dot (s ++ x) ≡ has_dot_dot x
unfolding has_dot_dot
dot_free [] x h = refl
dot_free (c ∷ s) x h = ground (arith, dot_free s x h.1)

-- Two levels up, written with slashes.
abbrev pub up_by_slashes : WideString
up_by_slashes = wide "\\../../"

no_dots : (s : WideString) → All (λ c. c ≢ dot) s → has_dot_dot s ≡ false
unfolding has_dot_dot
no_dots [] h = refl
no_dots (c ∷ s) h = ground (arith, no_dots s h.1)

lower-append : (s x : WideString) → lower (s ++ x) ≡ lower s ++ lower x
lower-append [] x = refl
lower-append (c ∷ s) x = ap (λ t. to_lower c ∷ t) (lower-append s x)

at-append : (p x : WideString) (c : ℕ) → at (p ++ c ∷ x) (length p) ≡ c
at-append [] x c = refl
at-append (d ∷ p) x c = at-append p x c

starts_with_self : (p x : WideString) → starts_with_text p (p ++ x) ≡ true
starts_with_self p x = rw (lower-append p x) (
    subst (λ k. wide_eq (lower p) (take k (lower p ++ lower x)) ≡ true) (length-lower p)
      (wide_eq-take_append (lower p) (lower x)))

prefix_allows_self :
    (c : ℕ) (p x : WideString) → prefix_allows ((c ∷ p) ++ backslash ∷ x) (c ∷ p) ≡ true
unfolding prefix_allows
prefix_allows_self c p x =
    rw (starts_with_self (c ∷ p) (backslash ∷ x), at-append (c ∷ p) x backslash) refl

slashes_pass :
    (tail : WideString) → All (λ c. c ≢ dot) tail → has_dot_dot (up_by_slashes ++ tail) ≡ false
unfolding has_dot_dot
slashes_pass tail h = no_dots tail h

-- The check looks for backslashes only: behind any configured prefix with a drive letter and no dot
-- in it, "\../../" and any text without a dot pass, though Windows takes a slash for a backslash and
-- such a path leaves the prefix.
pub dest_is_allowed-slashes :
    (share tail : WideString)
    → at share 0 ≢ 0
    → at share 0 ≢ backslash
    → at share 1 ≡ colon
    → All (λ c. c ≢ dot) share
    → All (λ c. c ≢ dot) tail
    → dest_is_allowed (share ∷ []) (share ++ (up_by_slashes ++ tail)) ≡ true
unfolding dest_is_allowed
dest_is_allowed-slashes [] tail named absolute drive hs ht = absurd (named refl)
dest_is_allowed-slashes (c ∷ []) tail named absolute drive hs ht = absurd (omega (arith, drive))
dest_is_allowed-slashes (c ∷ d ∷ s) tail named absolute drive hs ht =
    let clean = dot_free (c ∷ d ∷ s) (up_by_slashes ++ tail) hs ∙ slashes_pass tail ht in
    let inside = prefix_allows_self c (d ∷ s) (drop 1 up_by_slashes ++ tail) in
    ground (arith, clean, inside)
