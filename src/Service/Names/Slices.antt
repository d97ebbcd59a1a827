-- ===== src/Service/Names/Slices.antt =====
-- service_c/rbconcile.c: sorted names, and the slices of them that the binary search looks at.
use recyclebin_svc.Base.{
  ℕ, zero, suc, ◌+◌, ◌≤◌, Bool, true, false, ◌||◌, List, [], ◌∷◌, ◌++◌, ◌≡◌, inl, inr, refl, sym,
  ap, subst, arith, WideString, length, get_or, take, drop, any, All, Bool-cases,
}
use recyclebin_svc.Base.Wide.{lower, wide_eq, same_text, wide_eq→eq, wide_eq_refl}
use recyclebin_svc.Service.Db.{text_le}
use recyclebin_svc.Service.Names.{name_le}

abbrev pub AreSorted : List WideString → Type 0
AreSorted [] = Unit
AreSorted (x ∷ xs) = All (λ y. name_le x y ≡ true) xs × AreSorted xs

text_le_antisym : (a b : WideString) → text_le a b ≡ true → text_le b a ≡ true → a ≡ b
unfolding text_le
text_le_antisym [] [] h k = refl
text_le_antisym [] (y ∷ b) h k = cc
text_le_antisym (x ∷ a) [] h k = cc
text_le_antisym (x ∷ a) (y ∷ b) h k = ground (arith, text_le_antisym a b)

before_one :
    (x mid name : WideString)
    → name_le x mid ≡ true
    → name_le mid name ≡ true
    → same_text mid name ≡ false
    → same_text x name ≡ false
before_one x mid name low le differ = elim (Bool-cases (same_text x name)) [
  | inl e ↦
      let back : name_le name mid ≡ true =
        subst (λ l. text_le l (lower mid) ≡ true) (wide_eq→eq (lower x) (lower name) e) low in
      let equal = text_le_antisym (lower mid) (lower name) le back in
      let same : same_text mid name ≡ true =
        subst (λ l. wide_eq l (lower name) ≡ true) (sym equal) (wide_eq_refl (lower name)) in
      absurd (cc (differ, same))
  | inr e ↦ e
]

after_one :
    (x mid name : WideString)
    → name_le mid x ≡ true
    → name_le mid name ≡ false
    → same_text x name ≡ false
after_one x mid name high le = elim (Bool-cases (same_text x name)) [
  | inl e ↦
      let up : name_le mid name ≡ true =
        subst (λ l. text_le (lower mid) l ≡ true) (wide_eq→eq (lower x) (lower name) e) high in
      absurd (cc (le, up))
  | inr e ↦ e
]

or_false : (a b : Bool) → a ≡ false → b ≡ false → (a || b) ≡ false
or_false a b ha hb = ground arith

abbrev pub holds : WideString → List WideString → Bool
holds name = any (λ x. same_text x name)

pub none_before :
    (xs : List WideString) (mid name : WideString)
    → All (λ x. name_le x mid ≡ true) xs
    → name_le mid name ≡ true
    → same_text mid name ≡ false
    → holds name xs ≡ false
none_before [] mid name h le differ = refl
none_before (x ∷ xs) mid name h le differ =
    or_false _ _ (before_one x mid name h.0 le differ) (none_before xs mid name h.1 le differ)

pub none_after :
    (xs : List WideString) (mid name : WideString)
    → All (λ x. name_le mid x ≡ true) xs
    → name_le mid name ≡ false
    → holds name xs ≡ false
none_after [] mid name h le = refl
none_after (x ∷ xs) mid name h le =
    or_false _ _ (after_one x mid name h.0 le) (none_after xs mid name h.1 le)

or_assoc : (a b c d : Bool) → b ≡ (c || d) → (a || b) ≡ ((a || c) || d)
or_assoc a b c d e = ground arith

pub holds-append :
    (name : WideString) (xs ys : List WideString)
    → holds name (xs ++ ys) ≡ (holds name xs || holds name ys)
holds-append name [] ys = refl
holds-append name (x ∷ xs) ys = or_assoc (same_text x name) _ _ _ (holds-append name xs ys)

drop_nil : (i : ℕ) (xs : List WideString) → xs ≡ [] → xs ≡ drop i xs
drop_nil zero xs e = refl
drop_nil (suc i) [] e = refl
drop_nil (suc i) (x ∷ xs) e = cc

pub split_take :
    (ys : List WideString) (k m n : ℕ)
    → n ≡ k + suc m
    → n ≤ length ys
    → take n ys ≡ take k ys ++ (get_or ys k [] ∷ take m (drop (suc k) ys))
split_take [] k m n e h = absurd (omega (arith, e, h))
split_take (y ∷ ys) zero m zero e h = absurd (omega (arith, e))
split_take (y ∷ ys) zero m (suc n) e h = ap (λ k. y ∷ take k ys) (omega (arith, e))
split_take (y ∷ ys) (suc k) m zero e h = absurd (omega (arith, e))
split_take (y ∷ ys) (suc k) m (suc n) e h =
    ap (λ t. y ∷ t) (split_take ys k m n (omega (arith, e)) (omega (arith, h)))

pub get_or-drop :
    (xs : List WideString) (lo k i : ℕ) → i ≡ lo + k → get_or (drop lo xs) k [] ≡ get_or xs i []
get_or-drop [] zero k i e = refl
get_or-drop [] (suc lo) k i e = refl
get_or-drop (x ∷ xs) zero k i e = ap (λ n. get_or (x ∷ xs) n []) (omega (arith, e))
get_or-drop (x ∷ xs) (suc lo) k zero e = absurd (omega (arith, e))
get_or-drop (x ∷ xs) (suc lo) k (suc i) e = get_or-drop xs lo k i (omega (arith, e))

pub drop-drop : (xs : List WideString) (lo k i : ℕ) → i ≡ lo + k → drop k (drop lo xs) ≡ drop i xs
drop-drop [] zero zero i e = drop_nil i [] refl
drop-drop [] zero (suc k) i e = drop_nil i [] refl
drop-drop [] (suc lo) zero i e = drop_nil i [] refl
drop-drop [] (suc lo) (suc k) i e = drop_nil i [] refl
drop-drop (x ∷ xs) zero k i e = ap (λ n. drop n (x ∷ xs)) (omega (arith, e))
drop-drop (x ∷ xs) (suc lo) k zero e = absurd (omega (arith, e))
drop-drop (x ∷ xs) (suc lo) k (suc i) e = drop-drop xs lo k i (omega (arith, e))

pub drop-AreSorted : (lo : ℕ) (xs : List WideString) → AreSorted xs → AreSorted (drop lo xs)
drop-AreSorted zero xs h = h
drop-AreSorted (suc lo) [] h = tt
drop-AreSorted (suc lo) (x ∷ xs) h = drop-AreSorted lo xs h.1

take-AllNames :
    (P : WideString → Type 0) (n : ℕ) (xs : List WideString) → All P xs → All P (take n xs)
take-AllNames P zero xs h = tt
take-AllNames P (suc n) [] h = tt
take-AllNames P (suc n) (x ∷ xs) h = (h.0, take-AllNames P n xs h.1)

pub take-AreSorted : (n : ℕ) (xs : List WideString) → AreSorted xs → AreSorted (take n xs)
take-AreSorted zero xs h = tt
take-AreSorted (suc n) [] h = tt
take-AreSorted (suc n) (x ∷ xs) h = (take-AllNames _ n xs h.0, take-AreSorted n xs h.1)

All-front :
    (P : WideString → Type 0) (xs ys : List WideString) → All P (xs ++ ys) → All P xs × All P ys
All-front P [] ys h = (tt, h)
All-front P (x ∷ xs) ys h = let rest = All-front P xs ys h.1 in ((h.0, rest.0), rest.1)

-- A sorted list around one of its elements.
pub around :
    (xs : List WideString) (m : WideString) (ys : List WideString)
    → AreSorted (xs ++ (m ∷ ys))
    → All (λ x. name_le x m ≡ true) xs × All (λ y. name_le m y ≡ true) ys
around [] m ys h = (tt, h.0)
around (x ∷ xs) m ys h =
    let rest = around xs m ys h.1 in
    let all = All-front (λ y. name_le x y ≡ true) xs (m ∷ ys) h.0 in ((all.1.0, rest.0), rest.1)
