-- ===== src/Service/Db/Known.antt =====
-- service_c/rbdb.c: what the answer of DbStorePathExists says of the rows.
use recyclebin_svc.Base.{
  Bool, true, false, some, List, [], ◌∷◌, ◌≡◌, ◌≢◌, refl, sym, ap, arith, WideString, All,
}
use recyclebin_svc.Base.Wide.{wide_eq, wide_eq_refl}
use recyclebin_svc.Service.Text.{u8_text}
use recyclebin_svc.Service.Db.{Item, Table, any_row, db_store_path_exists}

differs : (s t : WideString) → wide_eq s t ≡ false → s ≢ t
differs s t h e = absurd (cc (h, ap (wide_eq s) (sym e), wide_eq_refl s))

any_row-none :
    (path : WideString) (rows : List Item)
    → any_row (λ i. wide_eq i.store_path path) rows ≡ false
    → All (λ i. i.store_path ≢ path) rows
any_row-none path [] h = tt
any_row-none path (i ∷ rows) h =
    let first : wide_eq i.store_path path ≡ false = ground arith in
    let rest : any_row (λ j. wide_eq j.store_path path) rows ≡ false = ground arith in
    (differs i.store_path path first, any_row-none path rows rest)

-- No row has the path as its staging path, as the database holds texts.
abbrev pub IsUnknown : WideString → Table → Type 0
IsUnknown path t = All (λ i. i.store_path ≢ u8_text path) t.rows

pub db_store_path_exists-IsUnknown :
    (sql_ok : Bool) (path : WideString) (t : Table)
    → db_store_path_exists sql_ok path t ≡ some false
    → (sql_ok ≡ true) × IsUnknown path t
unfolding db_store_path_exists
db_store_path_exists-IsUnknown true path t h =
    (refl, any_row-none (u8_text path) t.rows (ground arith))
db_store_path_exists-IsUnknown false path t h = absurd (cc h)
