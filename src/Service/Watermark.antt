-- ===== src/Service/Watermark.antt =====
-- service_c/rbpolicy.c: PolicyDiskWatermark, with the query for the oldest landed rows.
pub mod Least
pub mod Oldest
use recyclebin_svc.Base.{
  ℕ, zero, suc, ◌+◌, ◌*◌, ◌%◌, ◌^◌, Bool, true, false, not, ◌&&◌, ◌||◌, Option, none, some, List,
  [], ◌∷◌, ◌++◌, WideString, ltb, leb, ◌==◌, if◌then◌else◌, length, take, filter_by, any,
}
use recyclebin_svc.Base.Wide.{same_text}
use recyclebin_svc.Base.Word.{u64}
use recyclebin_svc.Service.Vol.{vol_drive_of}
use recyclebin_svc.Service.Db.{Item, purged, Table, db_set_status}
use recyclebin_svc.Service.Restore.{World, Setup}
use recyclebin_svc.Service.Policy.{is_landed, store_delete_entry}

-- ORDER BY delete_time ASC, rows of the same time in rowid order
unfoldable pub insert_oldest : Item → List Item → List Item
insert_oldest item [] = item ∷ []
insert_oldest item (i ∷ items) =
    let rest = insert_oldest item items in
    if leb item.delete_time i.delete_time then item ∷ i ∷ items else i ∷ rest

unfoldable pub sort_oldest : List Item → List Item
sort_oldest [] = []
sort_oldest (i ∷ items) = insert_oldest i (sort_oldest items)

unfoldable pub db_list_landed_oldest : Bool → ℕ → Table → List Item
db_list_landed_oldest sql_ok limit t =
    if sql_ok
    then take (if ltb 0 limit then limit else 200) (sort_oldest (filter_by is_landed t.rows))
    else []

abbrev pub policy_watermark_max_pass : ℕ
policy_watermark_max_pass = 200

-- The drives to watch: that of the store root, and behind it those of the protected paths, each once,
-- 32 at most.
unfoldable pub add_drive : Option WideString → List WideString → List WideString
add_drive none vols = vols
add_drive (some drive) vols = if any (λ v. same_text v drive) vols then vols else vols ++ drive ∷ []

unfoldable pub add_drives : List WideString → List WideString → List WideString
add_drives [] vols = vols
add_drives (path ∷ paths) vols =
    let next = add_drives paths (add_drive (vol_drive_of path 8) vols) in
    if ltb (length vols) 32 then next else vols

abbrev pub watched : WideString → List WideString → List WideString
watched root paths = add_drives paths (add_drive (vol_drive_of root 8) [])

-- `disk_free` is GetDiskFreeSpaceExW: the free bytes of a drive, none if it fails.
module _ {F : Type 0} (setup : Setup F) (remove_directory : F → WideString → F)
    (disk_free : F → WideString → Option ℕ) where
  -- One volume's loop: `freed` is unsigned and 64 bits wide, and so is its sum with the free bytes.
  unfoldable pub free_oldest : Bool → ℕ → ℕ → ℕ → List Item → World F → ℕ × World F
  free_oldest set_ok min_free free freed [] w = (0, w)
  free_oldest set_ok min_free free freed (i ∷ items) w =
      let rest = free_oldest set_ok min_free free (u64 (freed + i.file_size)) items (record {
        files = store_delete_entry setup remove_directory i w.files;
        table = (db_set_status set_ok i.id purged w.table).1;
      }) in
      if leb min_free (u64 (free + freed)) then (0, w) else (suc rest.0, rest.1)

  unfoldable pub free_volume : Bool → Bool → ℕ → Option ℕ → World F → ℕ × World F
  free_volume list_ok set_ok min_free none w = (0, w)
  free_volume list_ok set_ok min_free (some free) w =
      if leb min_free free
      then (0, w)
      else free_oldest set_ok min_free free 0
          (db_list_landed_oldest list_ok policy_watermark_max_pass w.table) w

  unfoldable pub free_volumes : Bool → Bool → ℕ → List WideString → World F → ℕ × World F
  free_volumes list_ok set_ok min_free [] w = (0, w)
  free_volumes list_ok set_ok min_free (v ∷ vols) w =
      let one = free_volume list_ok set_ok min_free (disk_free w.files v) w in
      let rest = free_volumes list_ok set_ok min_free vols one.1 in (one.0 + rest.0, rest.1)

  unfoldable pub policy_disk_watermark :
      Bool → Bool → ℕ → WideString → List WideString → World F → ℕ × World F
  policy_disk_watermark list_ok set_ok min_free_mb root paths w =
      let r = free_volumes list_ok set_ok (min_free_mb * 1048576) (watched root paths) w in
      if min_free_mb == 0 then (0, w) else r
