-- ===== src/Service/Db/Order.antt =====
-- service_c/rbdb.c: sorting, filtering and cutting rows, as ORDER BY, WHERE and LIMIT do.
use recyclebin_svc.Base.{
  ℕ, zero, suc, Bool, true, false, List, [], ◌∷◌, ◌≡◌, ◌⊎◌, inl, inr, refl, sym, ap, map, ◌∙◌,
  arith, subst, WideString, length, take, filter_by, All, Bool-cases,
}
use recyclebin_svc.Service.Db.{Item, text_le, code_key, sql_le, insert_item, sort_items}

abbrev pub IsIn : Item → List Item → Type 0
IsIn x [] = ⊥
IsIn x (y ∷ ys) = (y ≡ x) ⊎ IsIn x ys

-- In the order of the original path, by code points.
abbrev pub IsSorted : List Item → Type 0
IsSorted [] = Unit
IsSorted (i ∷ items) = All (λ j. sql_le i.orig_path j.orig_path ≡ true) items × IsSorted items

pub text_le_total : (a b : WideString) → text_le a b ≡ false → text_le b a ≡ true
unfolding text_le
text_le_total [] b h = cc
text_le_total (x ∷ a) [] h = refl
text_le_total (x ∷ a) (y ∷ b) h = ground (arith, text_le_total a b)

pub text_le_trans :
    (a b c : WideString) → text_le a b ≡ true → text_le b c ≡ true → text_le a c ≡ true
unfolding text_le
text_le_trans [] b c h k = refl
text_le_trans (x ∷ a) [] c h k = cc
text_le_trans (x ∷ a) (y ∷ b) [] h k = cc
text_le_trans (x ∷ a) (y ∷ b) (z ∷ c) h k = ground (arith, text_le_trans a b c)

sql_le_total : (a b : WideString) → sql_le a b ≡ false → sql_le b a ≡ true
sql_le_total a b h = text_le_total (map code_key a) (map code_key b) h

sql_le_trans : (a b c : WideString) → sql_le a b ≡ true → sql_le b c ≡ true → sql_le a c ≡ true
sql_le_trans a b c h k = text_le_trans (map code_key a) (map code_key b) (map code_key c) h k

insert_first :
    (x i : Item) (items : List Item)
    → sql_le x.orig_path i.orig_path ≡ true
    → insert_item x (i ∷ items) ≡ x ∷ i ∷ items
unfolding insert_item
insert_first x i items e = rw e refl

insert_later :
    (x i : Item) (items : List Item)
    → sql_le x.orig_path i.orig_path ≡ false
    → insert_item x (i ∷ items) ≡ i ∷ insert_item x items
unfolding insert_item
insert_later x i items e = rw e refl

pub filter_keeps :
    (p : Item → Bool) (i : Item) (items : List Item)
    → p i ≡ true
    → filter_by p (i ∷ items) ≡ i ∷ filter_by p items
filter_keeps p i items e = ground arith

pub filter_drops :
    (p : Item → Bool) (i : Item) (items : List Item)
    → p i ≡ false
    → filter_by p (i ∷ items) ≡ filter_by p items
filter_drops p i items e = ground arith

module _ (P : Item → Type 0) where
  insert_item-All : (x : Item) (items : List Item) → P x → All P items → All P (insert_item x items)
  unfolding insert_item
  insert_item-All x [] px h = (px, tt)
  insert_item-All x (i ∷ items) px h = elim (Bool-cases (sql_le x.orig_path i.orig_path)) [
    | inl e ↦ subst (All P) (sym (insert_first x i items e)) (px, h)
    | inr e ↦ subst (All P) (sym (insert_later x i items e)) (h.0, insert_item-All x items px h.1)
  ]

  pub sort_items-All : (items : List Item) → All P items → All P (sort_items items)
  unfolding sort_items
  sort_items-All [] h = tt
  sort_items-All (i ∷ items) h = insert_item-All i (sort_items items) h.0 (sort_items-All items h.1)

  pub take-All : (n : ℕ) (items : List Item) → All P items → All P (take n items)
  take-All zero items h = tt
  take-All (suc n) [] h = tt
  take-All (suc n) (i ∷ items) h = (h.0, take-All n items h.1)

  pub All-map :
      (Q : Item → Type 0) (items : List Item) → ((i : Item) → P i → Q i) → All P items → All Q items
  All-map Q [] f h = tt
  All-map Q (i ∷ items) f h = (f i h.0, All-map Q items f h.1)

insert_item-IsSorted :
    (x : Item) (items : List Item) → IsSorted items → IsSorted (insert_item x items)
unfolding insert_item
insert_item-IsSorted x [] h = (tt, tt)
insert_item-IsSorted x (i ∷ items) h = elim (Bool-cases (sql_le x.orig_path i.orig_path)) [
  | inl e ↦ subst IsSorted (sym (insert_first x i items e)) (
    (
      e,
      All-map (λ j. sql_le i.orig_path j.orig_path ≡ true)
          (λ j. sql_le x.orig_path j.orig_path ≡ true) items
          (λ j k. sql_le_trans x.orig_path i.orig_path j.orig_path e k) h.0,
    ),
    h,
  )
  | inr e ↦ subst IsSorted (sym (insert_later x i items e)) (
    insert_item-All (λ j. sql_le i.orig_path j.orig_path ≡ true) x items
        (sql_le_total x.orig_path i.orig_path e) h.0,
    insert_item-IsSorted x items h.1,
  )
]

pub sort_items-IsSorted : (items : List Item) → IsSorted (sort_items items)
unfolding sort_items
sort_items-IsSorted [] = tt
sort_items-IsSorted (i ∷ items) =
    insert_item-IsSorted i (sort_items items) (sort_items-IsSorted items)

pub take-IsSorted : (n : ℕ) (items : List Item) → IsSorted items → IsSorted (take n items)
take-IsSorted zero items h = tt
take-IsSorted (suc n) [] h = tt
take-IsSorted (suc n) (i ∷ items) h =
    (take-All (λ j. sql_le i.orig_path j.orig_path ≡ true) n items h.0, take-IsSorted n items h.1)

pub filter_by-All :
    (p : Item → Bool) (items : List Item) → All (λ i. p i ≡ true) (filter_by p items)
filter_by-All p [] = tt
filter_by-All p (i ∷ items) = elim (Bool-cases (p i)) [
  | inl e ↦
      subst (All (λ i. p i ≡ true)) (sym (filter_keeps p i items e)) (e, filter_by-All p items)
  | inr e ↦ subst (All (λ i. p i ≡ true)) (sym (filter_drops p i items e)) (filter_by-All p items)
]

contradict : (p : Item → Bool) (i x : Item) → i ≡ x → p x ≡ true → p i ≡ false → ⊥
contradict p i x q h e = cc

pub filter_by-IsIn :
    (p : Item → Bool) (x : Item) (items : List Item)
    → p x ≡ true
    → IsIn x items
    → IsIn x (filter_by p items)
filter_by-IsIn p x [] h k = k
filter_by-IsIn p x (i ∷ items) h k = elim (Bool-cases (p i)) [
  | inl e ↦
      subst (IsIn x) (sym (filter_keeps p i items e))
        (elim k [ inl q ↦ inl q | inr q ↦ inr (filter_by-IsIn p x items h q) ])
  | inr e ↦
      subst (IsIn x) (sym (filter_drops p i items e))
        (elim k [ inl q ↦ absurd (contradict p i x q h e) | inr q ↦ filter_by-IsIn p x items h q ])
]

insert_item-head : (x : Item) (items : List Item) → IsIn x (insert_item x items)
unfolding insert_item
insert_item-head x [] = inl refl
insert_item-head x (i ∷ items) = elim (Bool-cases (sql_le x.orig_path i.orig_path)) [
  | inl e ↦ simp e (inl refl)
  | inr e ↦ simp e (inr (insert_item-head x items))
]

insert_item-IsIn : (x y : Item) (items : List Item) → IsIn y items → IsIn y (insert_item x items)
unfolding insert_item
insert_item-IsIn x y [] h = elim h [ ]
insert_item-IsIn x y (i ∷ items) h = elim (Bool-cases (sql_le x.orig_path i.orig_path)) [
  | inl e ↦ simp e (inr h)
  | inr e ↦ simp e (elim h [ inl q ↦ inl q | inr q ↦ inr (insert_item-IsIn x y items q) ])
]

pub sort_items-IsIn : (y : Item) (items : List Item) → IsIn y items → IsIn y (sort_items items)
unfolding sort_items
sort_items-IsIn y [] h = h
sort_items-IsIn y (i ∷ items) h = elim h [
  | inl q ↦
      subst (λ z. IsIn z (insert_item i (sort_items items))) q
        (insert_item-head i (sort_items items))
  | inr q ↦ insert_item-IsIn i y (sort_items items) (sort_items-IsIn y items q)
]

length-insert : (x : Item) (items : List Item) → length (insert_item x items) ≡ suc (length items)
unfolding insert_item
length-insert x [] = refl
length-insert x (i ∷ items) = elim (Bool-cases (sql_le x.orig_path i.orig_path)) [
  | inl e ↦ rw e refl
  | inr e ↦ rw e (ap suc (length-insert x items))
]

pub length-sort : (items : List Item) → length (sort_items items) ≡ length items
unfolding sort_items
length-sort [] = refl
length-sort (i ∷ items) = length-insert i (sort_items items) ∙ ap suc (length-sort items)
