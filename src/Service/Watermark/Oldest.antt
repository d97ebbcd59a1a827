-- ===== src/Service/Watermark/Oldest.antt =====
-- service_c/rbdb.c: DbListLandedOldest gives the oldest landed rows, and leaves none of them out.
use recyclebin_svc.Base.{
  ℕ, zero, suc, ◌≤◌, ◌<◌, Bool, true, false, List, [], ◌∷◌, ◌≡◌, ◌⊎◌, ap, inl, inr, refl, sym,
  arith, subst, leb, length, take, filter_by, All, Bool-cases, length-take,
}
use recyclebin_svc.Service.Db.{Item, Table}
use recyclebin_svc.Service.Db.Order.{
  IsIn, take-All, All-map, filter_by-All, filter_by-IsIn, filter_keeps, filter_drops,
}
use recyclebin_svc.Service.Policy.{is_landed}
use recyclebin_svc.Service.Watermark.{
  insert_oldest, sort_oldest, db_list_landed_oldest, policy_watermark_max_pass,
}

abbrev pub AreOrdered : List Item → Type 0
AreOrdered [] = Unit
AreOrdered (i ∷ items) = All (λ j. i.delete_time ≤ j.delete_time) items × AreOrdered items

insert_first :
    (x i : Item) (items : List Item)
    → leb x.delete_time i.delete_time ≡ true
    → insert_oldest x (i ∷ items) ≡ x ∷ i ∷ items
unfolding insert_oldest
insert_first x i items e = rw e refl

insert_later :
    (x i : Item) (items : List Item)
    → leb x.delete_time i.delete_time ≡ false
    → insert_oldest x (i ∷ items) ≡ i ∷ insert_oldest x items
unfolding insert_oldest
insert_later x i items e = rw e refl

module _ (P : Item → Type 0) where
  insert_oldest-All :
      (x : Item) (items : List Item) → P x → All P items → All P (insert_oldest x items)
  unfolding insert_oldest
  insert_oldest-All x [] px h = (px, tt)
  insert_oldest-All x (i ∷ items) px h = elim (Bool-cases (leb x.delete_time i.delete_time)) [
    | inl e ↦ subst (All P) (sym (insert_first x i items e)) (px, h)
    | inr e ↦ subst (All P) (sym (insert_later x i items e)) (h.0, insert_oldest-All x items px h.1)
  ]

  pub sort_oldest-All : (items : List Item) → All P items → All P (sort_oldest items)
  unfolding sort_oldest
  sort_oldest-All [] h = tt
  sort_oldest-All (i ∷ items) h =
      insert_oldest-All i (sort_oldest items) h.0 (sort_oldest-All items h.1)

pub leb-true : (a b : ℕ) → leb a b ≡ true → a ≤ b
leb-true a b e = ground arith

pub leb-false : (a b : ℕ) → leb a b ≡ false → b < a
leb-false a b e = ground arith

insert_oldest-AreOrdered :
    (x : Item) (items : List Item) → AreOrdered items → AreOrdered (insert_oldest x items)
unfolding insert_oldest
insert_oldest-AreOrdered x [] h = (tt, tt)
insert_oldest-AreOrdered x (i ∷ items) h = elim (Bool-cases (leb x.delete_time i.delete_time)) [
  | inl e ↦ subst AreOrdered (sym (insert_first x i items e)) (
    (
      leb-true _ _ e,
      All-map (λ j. i.delete_time ≤ j.delete_time) (λ j. x.delete_time ≤ j.delete_time) items
          (λ j k. omega (arith, k, leb-true _ _ e)) h.0,
    ),
    h,
  )
  | inr e ↦ subst AreOrdered (sym (insert_later x i items e)) (
    insert_oldest-All (λ j. i.delete_time ≤ j.delete_time) x items (omega (arith, leb-false _ _ e))
        h.0,
    insert_oldest-AreOrdered x items h.1,
  )
]

sort_oldest-AreOrdered : (items : List Item) → AreOrdered (sort_oldest items)
unfolding sort_oldest
sort_oldest-AreOrdered [] = tt
sort_oldest-AreOrdered (i ∷ items) =
    insert_oldest-AreOrdered i (sort_oldest items) (sort_oldest-AreOrdered items)

take-AreOrdered : (n : ℕ) (items : List Item) → AreOrdered items → AreOrdered (take n items)
take-AreOrdered zero items h = tt
take-AreOrdered (suc n) [] h = tt
take-AreOrdered (suc n) (i ∷ items) h = (take-All _ n items h.0, take-AreOrdered n items h.1)

insert_oldest-head : (x : Item) (items : List Item) → IsIn x (insert_oldest x items)
unfolding insert_oldest
insert_oldest-head x [] = inl refl
insert_oldest-head x (i ∷ items) = elim (Bool-cases (leb x.delete_time i.delete_time)) [
  | inl e ↦ simp e (inl refl)
  | inr e ↦ simp e (inr (insert_oldest-head x items))
]

insert_oldest-IsIn :
    (x y : Item) (items : List Item) → IsIn y items → IsIn y (insert_oldest x items)
unfolding insert_oldest
insert_oldest-IsIn x y [] h = elim h [ ]
insert_oldest-IsIn x y (i ∷ items) h = elim (Bool-cases (leb x.delete_time i.delete_time)) [
  | inl e ↦ simp e (inr h)
  | inr e ↦ simp e (elim h [ inl q ↦ inl q | inr q ↦ inr (insert_oldest-IsIn x y items q) ])
]

sort_oldest-IsIn : (y : Item) (items : List Item) → IsIn y items → IsIn y (sort_oldest items)
unfolding sort_oldest
sort_oldest-IsIn y [] h = h
sort_oldest-IsIn y (i ∷ items) h = elim h [
  | inl q ↦
      subst (λ z. IsIn z (insert_oldest i (sort_oldest items))) q
        (insert_oldest-head i (sort_oldest items))
  | inr q ↦ insert_oldest-IsIn i y (sort_oldest items) (sort_oldest-IsIn y items q)
]

filter_by-from : (p : Item → Bool) (items : List Item) → All (λ i. IsIn i items) (filter_by p items)
filter_by-from p [] = tt
filter_by-from p (i ∷ items) =
    let later =
      All-map (λ j. IsIn j items) (λ j. IsIn j (i ∷ items)) (filter_by p items) (λ j h. inr h)
        (filter_by-from p items) in
    elim (Bool-cases (p i)) [
      | inl e ↦
          subst (All (λ j. IsIn j (i ∷ items))) (sym (filter_keeps p i items e)) (inl refl, later)
      | inr e ↦ subst (All (λ j. IsIn j (i ∷ items))) (sym (filter_drops p i items e)) later
    ]

older_than :
    (x i : Item) (items : List Item)
    → All (λ j. i.delete_time ≤ j.delete_time) items
    → IsIn x items
    → i.delete_time ≤ x.delete_time
older_than x i [] h k = elim k [ ]
older_than x i (j ∷ items) h k = elim k [
  | inl q ↦ subst (λ y. i.delete_time ≤ y.delete_time) q h.0
  | inr q ↦ older_than x i items h.1 q
]

-- The row is listed, or the listing is full of rows that are no younger.
abbrev pub IsListed : ℕ → Item → List Item → Type 0
IsListed limit i items =
    IsIn i items ⊎ ((length items ≡ limit) × All (λ j. j.delete_time ≤ i.delete_time) items)

take-IsListed :
    (n : ℕ) (x : Item) (items : List Item)
    → AreOrdered items
    → IsIn x items
    → IsListed n x (take n items)
take-IsListed zero x items h k = inr (refl, tt)
take-IsListed (suc n) x [] h k = elim k [ ]
take-IsListed (suc n) x (i ∷ items) h k = elim k [
  | inl q ↦ inl (inl q)
  | inr q ↦ elim (take-IsListed n x items h.1 q) [
    | inl r ↦ inl (inr r)
    | inr r ↦ inr (ap suc r.0, (older_than x i items h.0 q, r.1))
  ]
]

-- What the query gives for the watermark's limit: rows of the table that are landed, in the order of
-- their time, 200 at most; and if SQLite answers it, each landed row of the table is among them or they
-- are 200 that are no younger.
pub record AreOldest (list_ok : Bool) (t : Table) (items : List Item) : Type 0 where
  pub ordered : AreOrdered items
  pub landed : All (λ i. (is_landed i ≡ true) × IsIn i t.rows) items
  pub few : length items ≤ policy_watermark_max_pass
  pub whole :
      ((list_ok ≡ false) × (items ≡ []))
      ⊎ ((list_ok ≡ true)
          × ((i : Item)
              → IsIn i t.rows
              → is_landed i ≡ true
              → IsListed policy_watermark_max_pass i items))

both_hold :
    (P Q : Item → Type 0) (items : List Item)
    → All P items
    → All Q items
    → All (λ i. P i × Q i) items
both_hold P Q [] h k = tt
both_hold P Q (i ∷ items) h k = ((h.0, k.0), both_hold P Q items h.1 k.1)

pub db_list_landed_oldest-AreOldest :
    (sql_ok : Bool) (t : Table)
    → AreOldest sql_ok t (db_list_landed_oldest sql_ok policy_watermark_max_pass t)
unfolding db_list_landed_oldest
db_list_landed_oldest-AreOldest false t = record {
  ordered = tt;
  landed = tt;
  few = omega arith;
  whole = inl (refl, refl);
}
db_list_landed_oldest-AreOldest true t =
    let hits = filter_by is_landed t.rows in
    let found = sort_oldest hits in
    let P : Item → Type 0 = λ i. (is_landed i ≡ true) × IsIn i t.rows in
    record {
      ordered = take-AreOrdered 200 found (sort_oldest-AreOrdered hits);
      landed = take-All P 200 found (
          sort_oldest-All P hits (
            both_hold (λ i. is_landed i ≡ true) (λ i. IsIn i t.rows) hits
              (filter_by-All is_landed t.rows) (filter_by-from is_landed t.rows)));
      few = omega (arith, length-take 200 found);
      whole = inr (
        refl,
        λ i inside hit.
            take-IsListed 200 i found (sort_oldest-AreOrdered hits)
              (sort_oldest-IsIn i hits (filter_by-IsIn is_landed i t.rows hit inside)),
      );
    }
