-- ===== src/Service/Db/Recorded.antt =====
-- service_c/rbdb.c: what an update of one row, which SQLite may refuse, does to what the ids find.
use recyclebin_svc.Base.{
  ℕ, Bool, true, false, some, List, [], ◌∷◌, ◌≡◌, ◌≢◌, ◌⊎◌, inl, inr, refl, ap, ◌∙◌, sym, arith,
  WideString,
}
use mathlib.Core.Option
use recyclebin_svc.Service.Db.{
  Item, ItemStatus, landed, Table, update_row, find_row, db_set_status, db_set_landed, db_get_item,
}
use recyclebin_svc.Service.Db.Rows.{
  id-cases, update_hit, update_miss, find_hit, find_miss, update_other,
}

find_row-id : (id : ℕ) (rows : List Item) (x : Item) → find_row id rows ≡ some x → x.id ≡ id
unfolding find_row
find_row-id id [] x h = cc
find_row-id id (i ∷ items) x h = ground (arith, find_row-id id items x)

pub get-id :
    (get_ok : Bool) (id : ℕ) (t : Table) (x : Item) → db_get_item get_ok id t ≡ some x → x.id ≡ id
unfolding db_get_item
get-id true id t x h = find_row-id id t.rows x h
get-id false id t x h = cc

-- The row of the id is changed by `f` if SQLite takes the update, and the table is as before if not;
-- the other ids find what they found.
abbrev pub IsRecorded : Bool → (Item → Item) → ℕ → Table → Table → Type 0
IsRecorded set_ok f id t after =
    (((set_ok ≡ true) × (db_get_item true id after ≡ Option.map f (db_get_item true id t)))
      ⊎ ((set_ok ≡ false) × (after ≡ t)))
    × ((other : ℕ) → other ≢ id → db_get_item true other after ≡ db_get_item true other t)

update_at :
    (f : Item → Item) (keeps : (i : Item) → (f i).id ≡ i.id) (id : ℕ) (rows : List Item)
    → find_row id (update_row f id rows) ≡ Option.map f (find_row id rows)
unfolding find_row update_row
update_at f keeps id [] = refl
update_at f keeps id (i ∷ items) = elim (id-cases i.id id) [
  | inl e ↦
      ap (find_row id) (update_hit f id i items e)
      ∙ find_hit id (f i) (update_row f id items) (keeps i ∙ e)
      ∙ ap (λ o. Option.map f o) (sym (find_hit id i items e))
  | inr e ↦
      ap (find_row id) (update_miss f id i items e)
      ∙ find_miss id i (update_row f id items) e
      ∙ update_at f keeps id items
      ∙ ap (λ o. Option.map f o) (sym (find_miss id i items e))
]

abbrev pub with_status : ItemStatus → Item → Item
with_status status i = record i { status = status }

abbrev pub landed_at : WideString → WideString → Item → Item
landed_at recycle dos i = record i { status = landed; recycle_path = recycle; orig_path_dos = dos }

pub db_set_status-IsRecorded :
    (set_ok : Bool) (id : ℕ) (status : ItemStatus) (t : Table)
    → IsRecorded set_ok (with_status status) id t (db_set_status set_ok id status t).1
unfolding db_set_status db_get_item
db_set_status-IsRecorded true id status t = (
  inl (refl, update_at (with_status status) (λ i. refl) id t.rows),
  λ other h. update_other (with_status status) (λ i. refl) id other t.rows h,
)
db_set_status-IsRecorded false id status t = (inr (refl, refl), λ other h. refl)

pub db_set_landed-IsRecorded :
    (set_ok : Bool) (id : ℕ) (recycle dos : WideString) (t : Table)
    → IsRecorded set_ok (landed_at recycle dos) id t (db_set_landed set_ok id recycle dos t).1
unfolding db_set_landed db_get_item
db_set_landed-IsRecorded true id recycle dos t = (
  inl (refl, update_at (landed_at recycle dos) (λ i. refl) id t.rows),
  λ other h. update_other (landed_at recycle dos) (λ i. refl) id other t.rows h,
)
db_set_landed-IsRecorded false id recycle dos t = (inr (refl, refl), λ other h. refl)
