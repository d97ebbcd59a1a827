-- ===== src/Service/Reconcile.antt =====
-- service_c/rbconcile.c, RB-43: the sweep over landed rows whose $R file may be gone.
pub mod Verdict
use recyclebin_svc.Base.{
  ℕ, zero, suc, ◌+◌, ◌-◌, Bool, true, false, not, ◌&&◌, ◌||◌, Option, none, some, List, [], ◌∷◌,
  WideString, ltb, ◌==◌, if◌then◌else◌, length, take, drop,
}
use recyclebin_svc.Base.Wide.{backslash, wide_eq, last_index}
use recyclebin_svc.Service.Dest.{rbsvc_max_recon_path}
use recyclebin_svc.Service.Db.{Item, ItemStatus, restored, purged, Table, text_le, db_set_status}
use recyclebin_svc.Service.Restore.{World, Setup}
use recyclebin_svc.Service.Policy.{db_list_expired}
use recyclebin_svc.Service.Names.{snapshot, name_array_contains}

abbrev pub cut_at : WideString → Option ℕ → WideString
cut_at path none = path
cut_at path (some i) = take i path

-- What `CompareItemsByRecycleDir` compares: the path up to its last separator, or all of it.
abbrev pub dir_key : Item → WideString
dir_key i = cut_at i.recycle_path (last_index backslash i.recycle_path)

unfoldable pub insert_by_dir : Item → List Item → List Item
insert_by_dir x [] = x ∷ []
insert_by_dir x (i ∷ items) =
    let rest = insert_by_dir x items in
    if text_le (dir_key x) (dir_key i) then x ∷ i ∷ items else i ∷ rest

unfoldable pub sort_by_dir : List Item → List Item
sort_by_dir [] = []
sort_by_dir (i ∷ items) = insert_by_dir i (sort_by_dir items)

-- `DirOf` into a buffer of RBSVC_MAX_RECON_PATH WCHARs
abbrev pub dir_before : WideString → Option ℕ → WideString
dir_before path none = []
dir_before path (some i) = take (rbsvc_max_recon_path - 1) (take i path)

unfoldable pub dir_of : WideString → WideString
dir_of path = dir_before path (last_index backslash path)

abbrev pub name_from : WideString → Option ℕ → WideString
name_from path none = path
name_from path (some i) = drop (suc i) path

unfoldable pub base_name : WideString → WideString
base_name path = name_from path (last_index backslash path)

-- The directory that was read last, and its names; none for one that could not be read.
pub record Cache : Type 0 where
  pub dir : WideString
  pub names : Option (List WideString)

-- `list_dir` is what FindFirstFileW and FindNextFileW give of a directory, none if it cannot be
-- opened. Nothing in the sweep changes it, since attributes are not modelled.
module _ {F : Type 0} (setup : Setup F) (list_dir : F → WideString → Option (List WideString)) where
  -- `SnapshotDir`; the search pattern has to fit.
  unfoldable pub snapshot_dir : F → WideString → Option (List WideString)
  snapshot_dir files dir =
      if ltb (length dir + 2) rbsvc_max_recon_path then snapshot (list_dir files dir) else none

  unfoldable pub read_dir : F → WideString → Option Cache → Cache
  read_dir files dir none = record { dir = dir; names = snapshot_dir files dir }
  read_dir files dir (some c) =
      if wide_eq dir c.dir then c else record { dir = dir; names = snapshot_dir files dir }

  -- The $R file is gone.
  unfoldable pub settle : Bool → Item → World F → ℕ × World F
  settle set_ok i w =
      let status =
        if ltb 0 (length i.orig_path_dos) && setup.fs.exists w.files i.orig_path_dos
        then restored
        else purged in
      (1, record { files = w.files; table = (db_set_status set_ok i.id status w.table).1 })

  unfoldable pub check_row : Bool → Item → Option (List WideString) → World F → ℕ × World F
  check_row set_ok i none w = (0, w)
  check_row set_ok i (some names) w =
      if name_array_contains names (base_name i.recycle_path) then (0, w) else settle set_ok i w

  -- The loop, with the count of rows whose status was set.
  unfoldable pub reconcile_each : Bool → List Item → Option Cache → World F → ℕ × World F
  reconcile_each set_ok [] cache w = (0, w)
  reconcile_each set_ok (i ∷ items) cache w =
      let c = read_dir w.files (dir_of i.recycle_path) cache in
      let one = check_row set_ok i c.names w in
      let rest = reconcile_each set_ok items (some c) one.1 in
      let skipped = reconcile_each set_ok items cache w in
      if length i.recycle_path == 0 then skipped else (one.0 + rest.0, rest.1)

  -- The cutoff is the end of the year 9999.
  unfoldable pub reconcile_landed : Bool → Bool → World F → ℕ × World F
  reconcile_landed list_ok set_ok w =
      reconcile_each set_ok (sort_by_dir (db_list_expired list_ok 253402300800 0 w.table)) none w
