-- ===== src/Service/Db/Rows.antt =====
-- service_c/rbdb.c: rows by their id.
use recyclebin_svc.Base.{
  ℕ, suc, ◌<◌, true, none, some, List, [], ◌∷◌, ◌++◌, ◌≡◌, ◌≢◌, ◌⊎◌, inl, inr, refl, sym, ap, ◌∙◌,
  arith, subst, WideString, ◌==◌, All, Bool-cases, ==_iff, All-append,
}
use mathlib.Core.Option
use recyclebin_svc.Driver.State.{Note}
use recyclebin_svc.Service.Db.{
  Item, ItemStatus, landed, Table, update_row, find_row, item_of, db_add_item, db_set_status,
  db_set_landed, db_get_item,
}

-- Every id has been given out, and none twice.
abbrev pub AreNumbered : ℕ → List Item → Type 0
AreNumbered bound [] = Unit
AreNumbered bound (i ∷ items) =
    (i.id < bound) × All (λ j. j.id ≢ i.id) items × AreNumbered bound items

find_none : (id : ℕ) (rows : List Item) → All (λ j. j.id ≢ id) rows → find_row id rows ≡ none
unfolding find_row
find_none id [] h = refl
find_none id (i ∷ items) h = ground (arith, find_none id items h.1, h.0)

find_append :
    (id : ℕ) (rows : List Item) (x : Item)
    → find_row id rows ≡ none
    → x.id ≡ id
    → find_row id (rows ++ x ∷ []) ≡ some x
unfolding find_row
find_append id [] x h e = ground arith
find_append id (i ∷ items) x h e = ground (arith, find_append id items x)

find_other :
    (id : ℕ) (rows : List Item) (x : Item)
    → x.id ≢ id
    → find_row id (rows ++ x ∷ []) ≡ find_row id rows
unfolding find_row
find_other id [] x h = ground arith
find_other id (i ∷ items) x h = ground (arith, find_other id items x h)

below : (bound : ℕ) (rows : List Item) → AreNumbered bound rows → All (λ j. j.id ≢ bound) rows
below bound [] h = tt
below bound (i ∷ items) h = ((λ e. absurd (omega (arith, h.0, e))), below bound items h.2)

raise : (bound : ℕ) (rows : List Item) → AreNumbered bound rows → AreNumbered (suc bound) rows
raise bound [] h = tt
raise bound (i ∷ items) h = (omega (arith, h.0), h.1, raise bound items h.2)

numbered_append :
    (bound : ℕ) (rows : List Item) (x : Item)
    → AreNumbered bound rows
    → x.id ≡ bound
    → AreNumbered (suc bound) (rows ++ x ∷ [])
numbered_append bound [] x h e = (omega (arith, e), tt, tt)
numbered_append bound (i ∷ items) x h e = (
  omega (arith, h.0),
  All-append (λ j. j.id ≢ i.id) items (x ∷ []) h.1 ((λ q. absurd (omega (arith, h.0, e, q))), tt),
  numbered_append bound items x h.2 e,
)

-- A notification that SQLite takes becomes a row under a new id, which finds exactly that row; every
-- other id finds what it found before; and ids stay unique.
db_add_item-get :
    (now : ℕ) (client : WideString → WideString) (note : Note) (t : Table) (other : ℕ)
    → AreNumbered t.next_id t.rows
    → other ≢ t.next_id
    → let r = db_add_item true now client note t in
      (r.0 ≡ some t.next_id)
      × (db_get_item true t.next_id r.1 ≡ some (item_of t.next_id now client note))
      × (db_get_item true other r.1 ≡ db_get_item true other t)
      × AreNumbered r.1.next_id r.1.rows
unfolding db_add_item db_get_item
db_add_item-get now client note t other numbered differ =
    let x = item_of t.next_id now client note in
    (
      refl,
      find_append t.next_id t.rows x (find_none t.next_id t.rows (below t.next_id t.rows numbered))
          refl,
      find_other other t.rows x (λ e. differ (sym e)),
      numbered_append t.next_id t.rows x numbered refl,
    )

pub find_hit :
    (id : ℕ) (i : Item) (items : List Item) → i.id ≡ id → find_row id (i ∷ items) ≡ some i
unfolding find_row
find_hit id i items e = ground arith

pub find_miss :
    (id : ℕ) (i : Item) (items : List Item)
    → i.id ≢ id
    → find_row id (i ∷ items) ≡ find_row id items
unfolding find_row
find_miss id i items e = ground arith

pub update_hit :
    (f : Item → Item) (id : ℕ) (i : Item) (items : List Item)
    → i.id ≡ id
    → update_row f id (i ∷ items) ≡ f i ∷ update_row f id items
unfolding update_row
update_hit f id i items e = ground arith

pub update_miss :
    (f : Item → Item) (id : ℕ) (i : Item) (items : List Item)
    → i.id ≢ id
    → update_row f id (i ∷ items) ≡ i ∷ update_row f id items
unfolding update_row
update_miss f id i items e = ground arith

both_step :
    (id other : ℕ) (i : Item) (items rows : List Item)
    → find_row other rows ≡ find_row other items
    → find_row other (i ∷ rows) ≡ find_row other (i ∷ items)
unfolding find_row
both_step id other i items rows e = rw e refl

pub id-cases : (a b : ℕ) → (a ≡ b) ⊎ (a ≢ b)
id-cases a b = elim (Bool-cases (a == b)) [
  | inl e ↦ inl ((==_iff a b).0 e)
  | inr e ↦ inr (λ q. ground arith)
]

module _ (f : Item → Item) (keeps : (i : Item) → (f i).id ≡ i.id) where
  update_here :
      (id : ℕ) (rows : List Item) (x : Item)
      → find_row id rows ≡ some x
      → find_row id (update_row f id rows) ≡ some (f x)
  unfolding find_row update_row
  update_here id [] x h = cc
  update_here id (i ∷ items) x h = elim (id-cases i.id id) [
    | inl e ↦
        ap (find_row id) (update_hit f id i items e)
        ∙ find_hit id (f i) (update_row f id items) (keeps i ∙ e)
        ∙ ap (λ o. Option.map f o) (sym (find_hit id i items e) ∙ h)
    | inr e ↦
        ap (find_row id) (update_miss f id i items e)
        ∙ find_miss id i (update_row f id items) e
        ∙ update_here id items x (sym (find_miss id i items e) ∙ h)
  ]

  pub update_other :
      (id other : ℕ) (rows : List Item)
      → other ≢ id
      → find_row other (update_row f id rows) ≡ find_row other rows
  unfolding find_row update_row
  update_other id other [] h = refl
  update_other id other (i ∷ items) h = elim (id-cases i.id id) [
    | inl e ↦
        ap (find_row other) (update_hit f id i items e)
        ∙ find_miss other (f i) (update_row f id items) (λ q. h (sym q ∙ keeps i ∙ e))
        ∙ update_other id other items h
        ∙ sym (find_miss other i items (λ q. h (sym q ∙ e)))
    | inr e ↦
        ap (find_row other) (update_miss f id i items e)
        ∙ both_step id other i items _ (update_other id other items h)
  ]

  update_ids :
      (id n : ℕ) (rows : List Item)
      → All (λ j. j.id ≢ n) rows
      → All (λ j. j.id ≢ n) (update_row f id rows)
  unfolding update_row
  update_ids id n [] h = tt
  update_ids id n (i ∷ items) h = elim (id-cases i.id id) [
    | inl e ↦
        subst (All (λ j. j.id ≢ n)) (sym (update_hit f id i items e))
          ((λ q. h.0 (sym (keeps i) ∙ q)), update_ids id n items h.1)
    | inr e ↦
        subst (All (λ j. j.id ≢ n)) (sym (update_miss f id i items e))
          (h.0, update_ids id n items h.1)
  ]

  update-AreNumbered :
      (bound id : ℕ) (rows : List Item)
      → AreNumbered bound rows
      → AreNumbered bound (update_row f id rows)
  unfolding update_row
  update-AreNumbered bound id [] h = tt
  update-AreNumbered bound id (i ∷ items) h = elim (id-cases i.id id) [
    | inl e ↦ subst (AreNumbered bound) (sym (update_hit f id i items e)) (
      omega (arith, keeps i, h.0),
      subst (λ n. All (λ j. j.id ≢ n) (update_row f id items)) (sym (keeps i))
          (update_ids id i.id items h.1),
      update-AreNumbered bound id items h.2,
    )
    | inr e ↦
        subst (AreNumbered bound) (sym (update_miss f id i items e))
          (h.0, update_ids id i.id items h.1, update-AreNumbered bound id items h.2)
  ]

-- A status that SQLite takes is what the row then has, and nothing else of it changes; every other id
-- finds what it found before; and ids stay unique.
db_set_status-get :
    (id other : ℕ) (status : ItemStatus) (x : Item) (t : Table)
    → AreNumbered t.next_id t.rows
    → other ≢ id
    → db_get_item true id t ≡ some x
    → let r = db_set_status true id status t in
      (r.0 ≡ true)
      × (db_get_item true id r.1 ≡ some (record x { status = status }))
      × (db_get_item true other r.1 ≡ db_get_item true other t)
      × AreNumbered r.1.next_id r.1.rows
unfolding db_set_status db_get_item
db_set_status-get id other status x t numbered differ found =
    let f : Item → Item = λ i. record i { status = status } in
    (
      refl,
      update_here f (λ i. refl) id t.rows x found,
      update_other f (λ i. refl) id other t.rows differ,
      update-AreNumbered f (λ i. refl) t.next_id id t.rows numbered,
    )

-- The same of landing: the row is landed and has its two paths.
pub db_set_landed-get :
    (id other : ℕ) (recycle dos : WideString) (x : Item) (t : Table)
    → AreNumbered t.next_id t.rows
    → other ≢ id
    → db_get_item true id t ≡ some x
    → let r = db_set_landed true id recycle dos t in
      (db_get_item true id r.1
        ≡ some (record x { status = landed; recycle_path = recycle; orig_path_dos = dos }))
      × (db_get_item true other r.1 ≡ db_get_item true other t)
      × AreNumbered r.1.next_id r.1.rows
unfolding db_set_landed db_get_item
db_set_landed-get id other recycle dos x t numbered differ found =
    let f : Item → Item =
      λ i. record i { status = landed; recycle_path = recycle; orig_path_dos = dos } in
    (
      update_here f (λ i. refl) id t.rows x found,
      update_other f (λ i. refl) id other t.rows differ,
      update-AreNumbered f (λ i. refl) t.next_id id t.rows numbered,
    )
