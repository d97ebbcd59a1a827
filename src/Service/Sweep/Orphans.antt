-- ===== src/Service/Sweep/Orphans.antt =====
-- service_c/rbconcile.c, RB-05: which files the sweep deletes.
use recyclebin_svc.Base.{
  ℕ, suc, ◌+◌, ◌≤◌, Bool, true, false, not, Option, none, some, List, ◌∷◌, ◌++◌, ◌≡◌, ◌⊎◌, inl, inr,
  ◌*◌, ◌<◌, leb, Bool-cases, refl, arith, WideString, ◌==◌, if◌then◌else◌, if-cases,
}
use recyclebin_svc.Base.Wide.{wide, backslash}
use recyclebin_svc.Service.Vol.{Volume, vol_dos_to_nt}
use recyclebin_svc.Service.Db.{Table, db_store_path_exists}
use recyclebin_svc.Service.Db.Known.{IsUnknown, db_store_path_exists-IsUnknown}
use recyclebin_svc.Service.Names.{is_real_name}
use recyclebin_svc.Service.Sweep.{
  Entry, file, directory, Entries, nil, cons, ReconStats, count_error, days_since, within_grace,
  is_db_file, reclaim, examine_known, examine_nt, examine_file, failed, fits_recon, child_of,
  walk_entry, walk_entries,
}

-- The last write is so many days ago, if any are asked for. As an int, 2^31 days and more are negative.
abbrev pub IsOld : ℕ → ℕ → ℕ → Type 0
IsOld now grace mtime = (mtime + grace * 864000000000 ≤ now) ⊎ (grace ≡ 0) ⊎ (2147483648 ≤ grace)

old_cases :
    (now grace mtime : ℕ)
    → 0 < grace
    → grace < 2147483648
    → within_grace grace (days_since now mtime) ≡ false
    → mtime + grace * 864000000000 ≤ now
old_cases now grace mtime some_days fits h = ground arith

within_grace-IsOld :
    (now grace mtime : ℕ)
    → within_grace grace (days_since now mtime) ≡ false
    → IsOld now grace mtime
within_grace-IsOld now grace mtime h = elim (Bool-cases (leb 2147483648 grace)) [
  | inl e ↦ inr (inr (ground arith))
  | inr e ↦ elim (Bool-cases (grace == 0)) [
    | inl z ↦ inr (inl (ground arith))
    | inr z ↦ inl (old_cases now grace mtime (ground arith) (ground arith) h)
  ]
]

-- What the sweep reports adds up.
pub record AddsUp (st : ReconStats) : Type 0 where
  pub known : st.orphans ≤ st.scanned
  pub settled : st.reclaimed + st.in_grace ≤ st.orphans
  pub lost : st.orphans ≤ st.reclaimed + st.in_grace + st.errors

-- The files that the enumeration below a directory gives, by their path, with their last-write time.
mutual
  pub data FileAt : WideString → Entry → WideString → ℕ → Type 0 where
    this_file :
        (dir name : WideString) (mtime : ℕ) → FileAt dir (file name mtime) (child_of dir name) mtime
    inside_dir :
        (dir name : WideString) (inside : Entries) (path : WideString) (mtime : ℕ)
        → FileIn (child_of dir name) inside path mtime
        → FileAt dir (directory name inside) path mtime

  pub data FileIn : WideString → Entries → WideString → ℕ → Type 0 where
    in_first :
        (dir : WideString) (e : Entry) (rest : Entries) (path : WideString) (mtime : ℕ)
        → FileAt dir e path mtime
        → FileIn dir (cons e rest) path mtime
    in_rest :
        (dir : WideString) (e : Entry) (rest : Entries) (path : WideString) (mtime : ℕ)
        → FileIn dir rest path mtime
        → FileIn dir (cons e rest) path mtime

module _ {F : Type 0} (volumes : List Volume) (delete_file : F → WideString → Option F)
    (now grace : ℕ) (sql_ok : Bool) (table : Table) (root : WideString) (tree : Entries) where
  -- A deletion that the sweep may make: of a file that the enumeration gave below the root, where SQLite
  -- answered that no row has the NT form of the path, and the last write of that file is the grace
  -- period ago.
  pub record IsReclaim (s t : F) : Type 0 where
    pub path : WideString
    pub nt : WideString
    pub mtime : ℕ
    pub found : FileIn root tree path mtime
    pub form : vol_dos_to_nt volumes path ≡ some nt
    pub unknown : db_store_path_exists sql_ok nt table ≡ some false
    pub no_row : (sql_ok ≡ true) × IsUnknown nt table
    pub old : IsOld now grace mtime
    pub gone : delete_file s path ≡ some t

  module _ (P : F → Type 0) (keeps : (s t : F) → IsReclaim s t → P s → P t) where
    abbrev IsKept : ReconStats × F → Type 0
    IsKept r = AddsUp r.0 × P r.1

    reclaim-IsKept :
        (path nt : WideString) (mtime : ℕ) (o : Option F) (st : ReconStats) (files : F)
        → FileIn root tree path mtime
        → vol_dos_to_nt volumes path ≡ some nt
        → db_store_path_exists sql_ok nt table ≡ some false
        → within_grace grace (days_since now mtime) ≡ false
        → delete_file files path ≡ o
        → AddsUp st
        → suc st.orphans ≤ st.scanned
        → P files
        → IsKept (
            reclaim volumes delete_file now grace sql_ok table o
              (record st { orphans = suc st.orphans })
              files)
    unfolding reclaim
    reclaim-IsKept path nt mtime none st files found form known old gone a room p =
        (omega (arith, a, room), p)
    reclaim-IsKept path nt mtime (some t) st files found form known old gone a room p = (
      omega (arith, a, room),
      keeps files t
          (record {
            path = path;
            nt = nt;
            mtime = mtime;
            found = found;
            form = form;
            unknown = known;
            no_row = db_store_path_exists-IsUnknown sql_ok nt table known;
            old = within_grace-IsOld now grace mtime old;
            gone = gone;
          })
          p,
    )

    examine_known-IsKept :
        (path nt : WideString) (mtime : ℕ) (o : Option Bool) (st : ReconStats) (files : F)
        → FileIn root tree path mtime
        → vol_dos_to_nt volumes path ≡ some nt
        → db_store_path_exists sql_ok nt table ≡ o
        → AddsUp st
        → suc st.orphans ≤ st.scanned
        → P files
        → IsKept (examine_known volumes delete_file now grace sql_ok table path mtime o st files)
    unfolding examine_known
    examine_known-IsKept path nt mtime none st files found form known a room p =
        (omega (arith, a), p)
    examine_known-IsKept path nt mtime (some true) st files found form known a room p = (a, p)
    examine_known-IsKept path nt mtime (some false) st files found form known a room p =
        if-cases IsKept (within_grace grace (days_since now mtime)) _ _
          (λ _. (omega (arith, a, room), p))
          (λ old.
            reclaim-IsKept path nt mtime (delete_file files path) st files found form known old refl
              a room p)

    examine_nt-IsKept :
        (path : WideString) (mtime : ℕ) (o : Option WideString) (st : ReconStats) (files : F)
        → FileIn root tree path mtime
        → vol_dos_to_nt volumes path ≡ o
        → AddsUp st
        → suc st.orphans ≤ st.scanned
        → P files
        → IsKept (examine_nt volumes delete_file now grace sql_ok table path mtime o st files)
    unfolding examine_nt
    examine_nt-IsKept path mtime none st files found form a room p = (omega (arith, a), p)
    examine_nt-IsKept path mtime (some nt) st files found form a room p =
        examine_known-IsKept path nt mtime (db_store_path_exists sql_ok nt table) st files found
          form refl a room p

    failed-IsKept :
        (st : ReconStats) (files : F) → AddsUp st → P files → AddsUp (count_error st) × P files
    failed-IsKept st files a p = (omega (arith, a), p)

    mutual
      unfolding walk_entry walk_entries examine_file

      walk_entry-IsKept :
          (dir : WideString) (e : Entry) (st : ReconStats) (files : F)
          → ((path : WideString) (mtime : ℕ)
              → FileAt dir e path mtime
              → FileIn root tree path mtime)
          → AddsUp st
          → P files
          → IsKept (walk_entry volumes delete_file now grace sql_ok table dir e st files)
      walk_entry-IsKept dir (file name mtime) st files known a p =
          let path = dir ++ backslash ∷ name in
          let counted : ReconStats = record st { scanned = suc st.scanned } in
          let examined =
            examine_file volumes delete_file now grace sql_ok table path mtime counted files in
          let same : ReconStats × F = (st, files) in
          let last : ReconStats × F = if is_db_file name then same else examined in
          let cut : ReconStats × F = if not (fits_recon path) then failed st files else last in
          if-cases IsKept (not (is_real_name name)) same cut (λ _. (a, p))
            (λ _.
              if-cases IsKept (not (fits_recon path)) (failed st files) last
                (λ _. failed-IsKept st files a p)
                (λ _.
                  if-cases IsKept (is_db_file name) same examined (λ _. (a, p))
                    (λ _.
                      examine_nt-IsKept path mtime (vol_dos_to_nt volumes path) counted files
                        (known path mtime (this_file dir name mtime)) refl (omega (arith, a))
                        (omega (arith, a)) p)))
      walk_entry-IsKept dir (directory name inside) st files known a p =
          let path = dir ++ backslash ∷ name in
          let walked =
            walk_entries volumes delete_file now grace sql_ok table path inside st files in
          let kept =
            walk_entries-IsKept path inside st files
              (λ q m h. known q m (inside_dir dir name inside q m h)) a p in
          let same : ReconStats × F = (st, files) in
          let last : ReconStats × F =
            if not (fits_recon (path ++ wide "\\*")) then failed st files else walked in
          let cut : ReconStats × F = if not (fits_recon path) then failed st files else last in
          if-cases IsKept (not (is_real_name name)) same cut (λ _. (a, p))
            (λ _.
              if-cases IsKept (not (fits_recon path)) (failed st files) last
                (λ _. failed-IsKept st files a p)
                (λ _.
                  if-cases IsKept (not (fits_recon (path ++ wide "\\*"))) (failed st files) walked
                    (λ _. failed-IsKept st files a p) (λ _. kept)))

      walk_entries-IsKept :
          (dir : WideString) (es : Entries) (st : ReconStats) (files : F)
          → ((path : WideString) (mtime : ℕ)
              → FileIn dir es path mtime
              → FileIn root tree path mtime)
          → AddsUp st
          → P files
          → IsKept (walk_entries volumes delete_file now grace sql_ok table dir es st files)
      walk_entries-IsKept dir nil st files known a p = (a, p)
      walk_entries-IsKept dir (cons e rest) st files known a p =
          let one =
            walk_entry-IsKept dir e st files (λ q m h. known q m (in_first dir e rest q m h)) a p in
          let r = walk_entry volumes delete_file now grace sql_ok table dir e st files in
          walk_entries-IsKept dir rest r.0 r.1 (λ q m h. known q m (in_rest dir e rest q m h)) one.0
            one.1

    abbrev pub SweepKept : Option ReconStats × F → Type 0
    SweepKept (none, files) = P files
    SweepKept (some st, files) = AddsUp st × P files
