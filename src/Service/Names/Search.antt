-- ===== src/Service/Names/Search.antt =====
-- service_c/rbconcile.c: the binary search finds a name exactly if it is there.
use recyclebin_svc.Base.{
  ℕ, zero, suc, ◌+◌, ◌-◌, ◌/◌, ◌≤◌, ◌<◌, Bool, true, false, not, ◌||◌, List, [], ◌∷◌, ◌++◌, ◌≡◌,
  inl, inr, refl, sym, ap, ◌∙◌, subst, arith, WideString, ltb, length, get_or, take, drop, All,
  Bool-cases, if-cases, take_all, length-drop, not-false, ltb→lt,
}
use recyclebin_svc.Base.Wide.{same_text, lower}
use recyclebin_svc.Service.Db.Order.{text_le_total, text_le_trans}
use recyclebin_svc.Service.Names.{
  name_le, insert_name, sort_names, search_names, name_array_contains,
}
use recyclebin_svc.Service.Names.Slices.{
  AreSorted, holds, none_before, none_after, holds-append, split_take, get_or-drop, drop-drop,
  drop-AreSorted, take-AreSorted, around,
}

abbrev slice : List WideString → ℕ → ℕ → List WideString
slice names lo end = take (end - lo) (drop lo names)

slice-split :
    (names : List WideString) (lo mid end : ℕ)
    → lo ≤ mid
    → mid < end
    → end ≤ length names
    → slice names lo end ≡ slice names lo mid ++ (get_or names mid [] ∷ slice names (suc mid) end)
slice-split names lo mid end low high fits =
    split_take (drop lo names) (mid - lo) (end - suc mid) (end - lo) (omega (arith, low, high))
      (omega (arith, fits, length-drop lo names))
    ∙ ap
        (λ m.
          take (mid - lo) (drop lo names)
          ++ (m ∷ take (end - suc mid) (drop (suc (mid - lo)) (drop lo names))))
        (get_or-drop names lo (mid - lo) mid (omega (arith, low)))
    ∙ ap (λ d. take (mid - lo) (drop lo names) ++ (get_or names mid [] ∷ take (end - suc mid) d))
        (drop-drop names lo (suc (mid - lo)) (suc mid) (omega (arith, low)))

not-ltb : (a b : ℕ) → not (ltb a b) ≡ true → b ≤ a
not-ltb a b e = ground arith

three : (a b c : Bool) → b ≡ true → (a || (b || c)) ≡ true
three a b c e = ground arith

right_only : (a b c : Bool) → a ≡ false → b ≡ false → (a || (b || c)) ≡ c
right_only a b c e f = ground arith

left_only : (a b c : Bool) → b ≡ false → c ≡ false → (a || (b || c)) ≡ a
left_only a b c e f = ground arith

empty_slice :
    (name : WideString) (names : List WideString) (lo end : ℕ)
    → end ≤ lo
    → false ≡ holds name (slice names lo end)
empty_slice name names lo end h =
    let none_left : 0 ≡ end - lo = omega (arith, h) in
    ap (λ n. holds name (take n (drop lo names))) none_left

-- What a slice holds, by what stands around its middle.
holds-slice :
    (name : WideString) (names : List WideString) (lo mid end : ℕ)
    → lo ≤ mid
    → mid < end
    → end ≤ length names
    → holds name (slice names lo end) ≡ (
        holds name (slice names lo mid)
        || (same_text (get_or names mid []) name || holds name (slice names (suc mid) end)))
holds-slice name names lo mid end low high fits =
    ap (holds name) (slice-split names lo mid end low high fits)
    ∙ holds-append name (slice names lo mid) (get_or names mid [] ∷ slice names (suc mid) end)

module _ (names : List WideString) (name : WideString) (sorted : AreSorted names) where
  neighbours :
      (lo mid end : ℕ)
      → lo ≤ mid
      → mid < end
      → end ≤ length names
      → All (λ x. name_le x (get_or names mid []) ≡ true) (slice names lo mid)
        × All (λ x. name_le (get_or names mid []) x ≡ true) (slice names (suc mid) end)
  neighbours lo mid end low high fits =
      around (slice names lo mid) (get_or names mid []) (slice names (suc mid) end) (
        subst AreSorted (slice-split names lo mid end low high fits)
          (take-AreSorted (end - lo) (drop lo names) (drop-AreSorted lo names sorted)))

  search_names-holds :
      (fuel lo end : ℕ)
      → end ≤ length names
      → end - lo < fuel
      → search_names fuel names name lo end ≡ holds name (slice names lo end)
  unfolding search_names
  search_names-holds zero lo end fits enough = absurd (omega arith)
  search_names-holds (suc fuel) lo end fits enough =
      let mid = (lo + (end - 1)) / 2 in
      let found = get_or names mid [] in
      let Goal : Bool → Type 0 = λ b. b ≡ holds name (slice names lo end) in
      if-cases Goal (not (ltb lo end)) false _
        (λ e. empty_slice name names lo end (not-ltb lo end e))
        (λ e.
          let inside = ltb→lt lo end (not-false _ e) in
          let split =
            holds-slice name names lo mid end (omega (arith, inside)) (omega (arith, inside))
              fits in
          let sides = neighbours lo mid end (omega (arith, inside)) (omega (arith, inside)) fits in
          if-cases Goal (same_text found name) true _ (λ hit. sym (split ∙ three _ _ _ hit))
            (λ miss.
              if-cases Goal (name_le found name) _ _
                (λ below.
                  search_names-holds fuel (mid + 1) end fits (omega (arith, enough, inside))
                  ∙ ap (λ n. holds name (slice names n end)) (omega arith)
                  ∙ sym
                      (split ∙ right_only _ _ _ (none_before _ found name sides.0 below miss) miss))
                (λ above.
                  search_names-holds fuel lo mid (omega (arith, fits, inside))
                    (omega (arith, enough, inside))
                  ∙ sym (split ∙ left_only _ _ _ miss (none_after _ found name sides.1 above)))))

insert_first :
    (x y : WideString) (ys : List WideString)
    → name_le x y ≡ true
    → insert_name x (y ∷ ys) ≡ x ∷ y ∷ ys
unfolding insert_name
insert_first x y ys e = rw e refl

insert_later :
    (x y : WideString) (ys : List WideString)
    → name_le x y ≡ false
    → insert_name x (y ∷ ys) ≡ y ∷ insert_name x ys
unfolding insert_name
insert_later x y ys e = rw e refl

insert_name-All :
    (P : WideString → Type 0) (x : WideString) (ys : List WideString)
    → P x
    → All P ys
    → All P (insert_name x ys)
unfolding insert_name
insert_name-All P x [] px h = (px, tt)
insert_name-All P x (y ∷ ys) px h = elim (Bool-cases (name_le x y)) [
  | inl e ↦ subst (All P) (sym (insert_first x y ys e)) (px, h)
  | inr e ↦ subst (All P) (sym (insert_later x y ys e)) (h.0, insert_name-All P x ys px h.1)
]

above_all :
    (x y : WideString) (ys : List WideString)
    → name_le x y ≡ true
    → All (λ z. name_le y z ≡ true) ys
    → All (λ z. name_le x z ≡ true) ys
above_all x y [] e h = tt
above_all x y (z ∷ ys) e h =
    (text_le_trans (lower x) (lower y) (lower z) e h.0, above_all x y ys e h.1)

insert_name-AreSorted :
    (x : WideString) (ys : List WideString) → AreSorted ys → AreSorted (insert_name x ys)
unfolding insert_name
insert_name-AreSorted x [] h = (tt, tt)
insert_name-AreSorted x (y ∷ ys) h = elim (Bool-cases (name_le x y)) [
  | inl e ↦ subst AreSorted (sym (insert_first x y ys e)) ((e, above_all x y ys e h.0), h)
  | inr e ↦ subst AreSorted (sym (insert_later x y ys e)) (
    insert_name-All (λ z. name_le y z ≡ true) x ys (text_le_total (lower x) (lower y) e) h.0,
    insert_name-AreSorted x ys h.1,
  )
]

sort_names-AreSorted : (xs : List WideString) → AreSorted (sort_names xs)
unfolding sort_names
sort_names-AreSorted [] = tt
sort_names-AreSorted (x ∷ xs) = insert_name-AreSorted x (sort_names xs) (sort_names-AreSorted xs)

swap_or : (a b c d : Bool) → d ≡ (a || c) → (b || d) ≡ (a || (b || c))
swap_or a b c d e = ground arith

holds-insert_name :
    (name x : WideString) (ys : List WideString)
    → holds name (insert_name x ys) ≡ holds name (x ∷ ys)
unfolding insert_name
holds-insert_name name x [] = refl
holds-insert_name name x (y ∷ ys) = elim (Bool-cases (name_le x y)) [
  | inl e ↦ ap (holds name) (insert_first x y ys e)
  | inr e ↦
      ap (holds name) (insert_later x y ys e)
      ∙ swap_or (same_text x name) (same_text y name) (holds name ys) _
          (holds-insert_name name x ys)
]

holds-sort_names :
    (name : WideString) (xs : List WideString) → holds name (sort_names xs) ≡ holds name xs
unfolding sort_names
holds-sort_names name [] = refl
holds-sort_names name (x ∷ xs) =
    holds-insert_name name x (sort_names xs)
    ∙ ap (λ b. same_text x name || b) (holds-sort_names name xs)

-- The binary search over the sorted names of a directory, in as many rounds as there are names and one
-- more, finds a name exactly if the names as they came have it, without regard to case.
pub name_array_contains-sort_names :
    (name : WideString) (xs : List WideString)
    → name_array_contains (sort_names xs) name ≡ holds name xs
unfolding name_array_contains
name_array_contains-sort_names name xs =
    let names = sort_names xs in
    search_names-holds names name (sort_names-AreSorted xs) (length names + 1) 0 (length names)
      (omega arith) (omega arith)
    ∙ ap (holds name) (take_all (length names - 0) names (omega arith))
    ∙ holds-sort_names name xs
