-- ===== src/Service/Policy.antt =====
-- service_c/rbpolicy.c: retention, with `StoreDeleteEntry` of rbstore.c, which takes the data away.
pub mod Marks
pub mod Retention
use recyclebin_svc.Base.{
  ℕ, zero, suc, ◌+◌, ◌*◌, Bool, true, false, not, ◌&&◌, ◌||◌, Option, none, some, List, [], ◌∷◌,
  WideString, ltb, ◌==◌, if◌then◌else◌, length, take, filter_by,
}
use recyclebin_svc.Service.FileSystem.{FileSystem}
use recyclebin_svc.Service.Vol.{vol_nt_to_dos}
use recyclebin_svc.Service.Db.{
  Item, ItemStatus, staged, landed, restored, purged, Table, db_set_status,
}
use recyclebin_svc.Service.Restore.{World, Setup, i_counterpart, drop_metadata}

abbrev pub policy_expired_max_pass : ℕ
policy_expired_max_pass = 8192

abbrev pub is_landed : Item → Bool
is_landed i = elim i.status [ staged ↦ false | landed ↦ true | restored ↦ false | purged ↦ false ]

abbrev pub is_staged : Item → Bool
is_staged i = elim i.status [ staged ↦ true | landed ↦ false | restored ↦ false | purged ↦ false ]

-- delete_time < now - days * 86400
abbrev pub is_past : ℕ → ℕ → Item → Bool
is_past now days i = ltb (i.delete_time + days * 86400) now

unfoldable pub db_list_expired : Bool → ℕ → ℕ → Table → List Item
db_list_expired sql_ok now days t =
    if sql_ok then filter_by (λ i. is_landed i && is_past now days i) t.rows else []

unfoldable pub db_list_expired_staged : Bool → ℕ → ℕ → Table → List Item
db_list_expired_staged sql_ok now days t =
    if sql_ok then filter_by (λ i. is_staged i && is_past now days i) t.rows else []

-- `remove_directory` is the state after a RemoveDirectoryW, which leaves files as they are.
module _ {F : Type 0} (setup : Setup F) (remove_directory : F → WideString → F) where
  unfoldable pub delete_at : Option WideString → F → F
  delete_at none files = files
  delete_at (some dos) files =
      drop_metadata setup (setup.fs.delete (remove_directory files dos) dos) true
        (i_counterpart dos)

  unfoldable pub store_delete_entry : Item → F → F
  store_delete_entry i files =
      if ltb 0 (length i.recycle_path)
      then delete_at (some i.recycle_path) files
      else if length i.store_path == 0
      then files
      else delete_at (vol_nt_to_dos setup.volumes i.store_path) files

  -- The body of the loop over staged rows.
  unfoldable pub delete_staged : Item → F → F
  delete_staged i files =
      if length i.store_path == 0
      then files
      else drop_metadata setup files true (vol_nt_to_dos setup.volumes i.store_path)

  -- Both loops: each row's data is deleted and the row is purged, whether or not either works.
  unfoldable pub purge_each : (Item → F → F) → Bool → List Item → World F → ℕ × World F
  purge_each remove set_ok [] w = (0, w)
  purge_each remove set_ok (i ∷ items) w =
      let rest = purge_each remove set_ok items (record {
        files = remove i w.files;
        table = (db_set_status set_ok i.id purged w.table).1;
      }) in
      (suc rest.0, rest.1)

  unfoldable pub policy_purge_expired : Bool → Bool → ℕ → ℕ → World F → ℕ × World F
  policy_purge_expired list_ok set_ok now days w =
      let a =
        purge_each store_delete_entry set_ok
          (take policy_expired_max_pass (db_list_expired list_ok now days w.table)) w in
      let b =
        purge_each delete_staged set_ok
          (take policy_expired_max_pass (db_list_expired_staged list_ok now days a.1.table)) a.1 in
      if days == 0 then (0, w) else (a.0 + b.0, b.1)
