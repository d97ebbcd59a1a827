-- ===== src/Service/Land.antt =====
-- service_c/rbstore.c: landing a staged file in the recycle bin of its volume, and the rebuild of the
-- $I files.
pub mod Paths
pub mod Metadata
pub mod Outcome
pub mod Restorable
use recyclebin_svc.Base.{
  ℕ, zero, suc, ◌+◌, ◌-◌, ◌*◌, ◌/◌, ◌%◌, Bool, true, false, not, ◌&&◌, ◌||◌, Option, none, some,
  List, [], ◌∷◌, ◌++◌, map, WideString, ltb, leb, ◌==◌, if◌then◌else◌, length, take, drop, u64,
}
use recyclebin_svc.Base.Wide.{backslash, wide, last_index, at}
use recyclebin_svc.Base.Decimal.{number_digits}
use recyclebin_svc.Service.FileSystem.{FileSystem}
use recyclebin_svc.Service.Vol.{vol_nt_to_dos, vol_drive_of}
use recyclebin_svc.Service.Sid.{sid_normalize}
use recyclebin_svc.Service.IFile.{IFiles, write_i_file}
use recyclebin_svc.Service.Db.{Item, Table, db_set_landed}
use recyclebin_svc.Service.Restore.{World, Setup, i_counterpart}
use recyclebin_svc.Service.Policy.{is_landed}

-- digits[d]
abbrev pub digit_36 : ℕ → ℕ
digit_36 d = if ltb d 10 then b'0' + d else b'A' + (d - 10)

-- A 64-bit number has at most 13 digits, so the buffers of 32 WCHARs cut nothing.
unfoldable pub base_36 : ℕ → WideString
unfolding number_digits
base_36 v = map digit_36 (number_digits 36 13 v)

-- swprintf_s into MAX_PATH WCHARs; the text has to fit with its NUL. For one that does not, the invalid
-- parameter handler of the C runtime is taken to return, and the call then gives -1; the default handler
-- ends the process instead.
abbrev pub fit_path : WideString → Option WideString
fit_path s = if ltb (length s) 260 then some s else none

abbrev pub drive_or_c : Option WideString → WideString
drive_or_c none = wide "C:\\"
drive_or_c (some drive) = drive

-- The path that `BuildRecycleDir` makes.
unfoldable pub recycle_dir : WideString → WideString → Option WideString
recycle_dir sid store_dos =
    fit_path (drive_or_c (vol_drive_of store_dos 8) ++ (wide "$Recycle.Bin\\" ++ sid))

abbrev pub from_index : WideString → Option ℕ → WideString
from_index s none = []
from_index s (some i) = drop i s

-- From the last dot of the whole path.
unfoldable pub extension_of : WideString → WideString
extension_of path = from_index path (last_index b'.' path)

-- <rbDir>\$R<token><ext>, and with I for R
abbrev pub bin_path : ℕ → WideString → WideString → WideString → WideString
bin_path letter dir token ext = dir ++ (backslash ∷ b'$' ∷ letter ∷ (token ++ ext))

abbrev pub text_or : Option WideString → WideString → WideString
text_or none other = other
text_or (some s) other = s

-- What landing takes from Windows besides the file system: the time in ms and the SIDs of sessions.
pub record LandEnv : Type 0 where
  pub now_ms : ℕ
  pub session_sid : ℕ → Option WideString

module _ {F : Type 0} (setup : Setup F) (i_files : IFiles F) where
  -- From the rename on. `set_ok` says whether SQLite takes the update, which changes nothing of the
  -- result.
  unfoldable pub after_rename :
      Bool → Item → WideString → WideString → Table → F → Option F → Bool × World F
  after_rename set_ok item r_path i_path table before none =
      (false, record { files = before; table = table })
  after_rename set_ok item r_path i_path table before (some moved) =
      let orig_dos = vol_nt_to_dos setup.volumes item.orig_path in
      let i_file =
        write_i_file setup.fs i_files i_path (text_or orig_dos item.orig_path) item.file_size
          item.delete_time moved in
      (
        true,
        record {
          files = i_file.1;
          table = (db_set_landed set_ok item.id r_path (text_or orig_dos []) table).1;
        },
      )

  unfoldable pub land_at :
      Bool → Item → WideString → Option WideString → Option WideString → World F → Bool × World F
  land_at set_ok item store_dos (some r_path) (some i_path) w =
      after_rename set_ok item r_path i_path w.table w.files
        (setup.fs.move w.files store_dos r_path)
  land_at set_ok item store_dos _ _ w = (false, w)

  unfoldable pub land_in :
      LandEnv → Bool → Item → WideString → Option WideString → World F → Bool × World F
  land_in env set_ok item store_dos none w = (false, w)
  land_in env set_ok item store_dos (some dir) w =
      let token = base_36 (u64 (env.now_ms + item.id)) in
      let ext = extension_of store_dos in
      land_at set_ok item store_dos (fit_path (bin_path b'R' dir token ext))
        (fit_path (bin_path b'I' dir token ext))
        (record { files = setup.fs.with_directories w.files (dir ∷ []); table = w.table })

  unfoldable pub land_for :
      LandEnv → Bool → Item → WideString → Option WideString → World F → Bool × World F
  land_for env set_ok item store_dos none w = (false, w)
  land_for env set_ok item store_dos (some []) w = (false, w)
  land_for env set_ok item store_dos (some (c ∷ sid)) w =
      land_in env set_ok item store_dos (recycle_dir (c ∷ sid) store_dos) w

  unfoldable pub land_from : LandEnv → Bool → Item → Option WideString → World F → Bool × World F
  land_from env set_ok item none w = (false, w)
  land_from env set_ok item (some store_dos) w = elim (vol_drive_of store_dos 8) [
    | none ↦ (false, w)
    | some drive ↦
        if not (setup.fs.exists w.files store_dos)
        then (false, w)
        else land_for env set_ok item store_dos (sid_normalize env.session_sid item.sid) w
  ]

  -- `StoreLandItem`, a NULL text being the empty one.
  unfoldable pub store_land_item : LandEnv → Bool → Item → World F → Bool × World F
  store_land_item env set_ok item w =
      land_from env set_ok item (vol_nt_to_dos setup.volumes item.store_path) w

  -- `RebuildIFileFor` and the loop of `StoreRebuildAllIFiles`, over the landed rows of any age.
  unfoldable pub rebuild_at : Item → Option WideString → F → Bool × F
  rebuild_at item none files = (false, files)
  rebuild_at item (some i_path) files =
      write_i_file setup.fs i_files i_path
        (if ltb 0 (length item.orig_path_dos) then item.orig_path_dos else item.orig_path)
        item.file_size item.delete_time files

  unfoldable pub rebuild_i_file_for : Item → F → Bool × F
  rebuild_i_file_for item files =
      if length item.recycle_path == 0
      then (false, files)
      else rebuild_at item (i_counterpart item.recycle_path) files

  unfoldable pub rebuild_each : List Item → F → ℕ × F
  rebuild_each [] files = (0, files)
  rebuild_each (i ∷ items) files =
      let one = rebuild_i_file_for i files in
      let rest = rebuild_each items one.1 in (if one.0 then suc rest.0 else rest.0, rest.1)
