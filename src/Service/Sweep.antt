-- ===== src/Service/Sweep.antt =====
-- service_c/rbconcile.c, RB-05: the sweep over the staging tree for files that no row knows.
pub mod Orphans
use recyclebin_svc.Base.{
  ℕ, zero, suc, ◌+◌, ◌-◌, ◌/◌, Bool, true, false, not, ◌&&◌, ◌||◌, Option, none, some, List, [],
  ◌∷◌, ◌++◌, WideString, ltb, leb, ◌==◌, if◌then◌else◌, length,
}
use recyclebin_svc.Base.Wide.{backslash, wide, wide_eq, same_text}
use recyclebin_svc.Service.Vol.{Volume, vol_dos_to_nt}
use recyclebin_svc.Service.Db.{Table, db_store_path_exists}
use recyclebin_svc.Service.Names.{is_real_name}
use recyclebin_svc.Service.Dest.{rbsvc_max_recon_path}

-- What the enumeration of a directory gives: files with their last-write time in 100 ns ticks, and
-- directories with what their own enumeration gives, nothing if they cannot be opened.
mutual
  pub data Entry : Type 0 where
    file : WideString → ℕ → Entry
    directory : WideString → Entries → Entry

  pub data Entries : Type 0 where
    nil : Entries
    cons : Entry → Entries → Entries

-- RECON_STATS, whose DWORDs are not counted over.
pub record ReconStats : Type 0 where
  pub scanned : ℕ
  pub orphans : ℕ
  pub reclaimed : ℕ
  pub in_grace : ℕ
  pub errors : ℕ

abbrev pub zero_recon : ReconStats
zero_recon = record { scanned = 0; orphans = 0; reclaimed = 0; in_grace = 0; errors = 0 }

abbrev pub count_error : ReconStats → ReconStats
count_error st = record st { errors = suc st.errors }

-- `DaysSince` at the time `now`
abbrev pub days_since : ℕ → ℕ → ℕ
days_since now mtime = if leb now mtime then 0 else (now - mtime) / 864000000000

-- `age < (int)graceDays`, which a DWORD of 2^31 or more makes negative.
abbrev pub within_grace : ℕ → ℕ → Bool
within_grace grace age = if leb 2147483648 grace then false else ltb age grace

abbrev pub is_db_file : WideString → Bool
is_db_file name =
    same_text name (wide "recycle.db")
    || same_text name (wide "recycle.db-wal")
    || same_text name (wide "recycle.db-shm")
    || same_text name (wide "recycle.db-journal")

abbrev pub failed : {F : Type 0} → ReconStats → F → ReconStats × F
failed st files = (count_error st, files)

abbrev pub child_of : WideString → WideString → WideString
child_of dir name = dir ++ backslash ∷ name

-- _snwprintf_s into RBSVC_MAX_RECON_PATH WCHARs
abbrev pub fits_recon : WideString → Bool
fits_recon path = ltb (length path) rbsvc_max_recon_path

-- `delete_file` is DeleteFileW, none if it fails. `now` is the system time in ticks, the same for the
-- whole sweep; `sql_ok` says whether SQLite answers.
module _ {F : Type 0} (volumes : List Volume) (delete_file : F → WideString → Option F)
    (now grace : ℕ) (sql_ok : Bool) (table : Table) where
  unfoldable pub reclaim : Option F → ReconStats → F → ReconStats × F
  reclaim none st files = (count_error st, files)
  reclaim (some after) st files = (record st { reclaimed = suc st.reclaimed }, after)

  unfoldable pub examine_known : WideString → ℕ → Option Bool → ReconStats → F → ReconStats × F
  examine_known dos mtime none st files = (count_error st, files)
  examine_known dos mtime (some true) st files = (st, files)
  examine_known dos mtime (some false) st files =
      let orphan = record st { orphans = suc st.orphans } in
      if within_grace grace (days_since now mtime)
      then (record orphan { in_grace = suc st.in_grace }, files)
      else reclaim (delete_file files dos) orphan files

  unfoldable pub examine_nt : WideString → ℕ → Option WideString → ReconStats → F → ReconStats × F
  examine_nt dos mtime none st files = (count_error st, files)
  examine_nt dos mtime (some nt) st files =
      examine_known dos mtime (db_store_path_exists sql_ok nt table) st files

  unfoldable pub examine_file : WideString → ℕ → ReconStats → F → ReconStats × F
  examine_file dos mtime st files = examine_nt dos mtime (vol_dos_to_nt volumes dos) st files

  unfoldable mutual
    -- One round of the loop of `WalkDir`.
    pub walk_entry : WideString → Entry → ReconStats → F → ReconStats × F
    walk_entry dir (file name mtime) st files =
        if not (is_real_name name)
        then (st, files)
        else if not (fits_recon (child_of dir name))
        then (count_error st, files)
        else if is_db_file name
        then (st, files)
        else examine_file (child_of dir name) mtime (record st { scanned = suc st.scanned }) files
    walk_entry dir (directory name inside) st files =
        let walked = walk_entries (child_of dir name) inside st files in
        if not (is_real_name name)
        then (st, files)
        else if not (fits_recon (child_of dir name))
        then failed st files
        else if not (fits_recon (child_of dir name ++ wide "\\*"))
        then failed st files
        else walked

    pub walk_entries : WideString → Entries → ReconStats → F → ReconStats × F
    walk_entries dir nil st files = (st, files)
    walk_entries dir (cons e rest) st files =
        let one = walk_entry dir e st files in walk_entries dir rest one.0 one.1

  -- `ReconcileStaging`, none for -1. `root_there` says whether the root can be found.
  unfoldable pub reconcile_staging : WideString → Bool → Entries → F → Option ReconStats × F
  reconcile_staging root root_there tree files =
      let r = walk_entries root tree zero_recon files in
      if length root == 0
      then (none, files)
      else if not root_there
      then (some zero_recon, files)
      else if not (fits_recon (root ++ wide "\\*"))
      then (some (count_error zero_recon), files)
      else (some r.0, r.1)
