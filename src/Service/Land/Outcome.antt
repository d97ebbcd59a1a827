-- ===== src/Service/Land/Outcome.antt =====
-- service_c/rbstore.c: what one landing does when it succeeds, and what it leaves when it does not.
use recyclebin_svc.Base.{
  ℕ, ◌+◌, ◌<◌, Bool, true, false, not, Option, none, some, [], ◌∷◌, ◌≡◌, ◌⊎◌, inl, inr, refl, ap,
  ◌∙◌, ◌++◌, WideString, ltb, length, if◌then◌else◌, u64, if-cases, not-false, ltb→lt,
}
use recyclebin_svc.Service.Vol.{vol_nt_to_dos, vol_drive_of}
use recyclebin_svc.Service.Sid.{sid_normalize}
use recyclebin_svc.Service.IFile.{IFiles, write_i_file}
use recyclebin_svc.Base.Wide.{wide}
use recyclebin_svc.Service.Db.{Item, db_set_landed}
use recyclebin_svc.Service.Db.Recorded.{IsRecorded, landed_at, db_set_landed-IsRecorded}
use recyclebin_svc.Service.Restore.{World, Setup}
use recyclebin_svc.Service.Land.{
  base_36, fit_path, drive_or_c, recycle_dir, extension_of, bin_path, text_or, LandEnv,
  after_rename, land_at, land_in, land_for, land_from, store_land_item,
}

-- The path in the recycle bin for this row.
abbrev pub path_in_bin : ℕ → LandEnv → Item → WideString → WideString → WideString
path_in_bin letter env item dir src =
    bin_path letter dir (base_36 (u64 (env.now_ms + item.id))) (extension_of src)

-- A landing that went through: the staged file existed and was moved to its path in the directory of
-- the SID, in the bin of the drive that the file is on; the row of the id is landed there, if SQLite
-- takes that; and the $I file was tried.
pub record IsLanded {F : Type 0} (setup : Setup F) (i_files : IFiles F) (env : LandEnv)
    (set_ok : Bool) (item : Item) (w after : World F) : Type 0 where
  pub src : WideString
  pub sid : WideString
  pub dir : WideString
  pub files : F
  pub from : vol_nt_to_dos setup.volumes item.store_path ≡ some src
  pub had : setup.fs.exists w.files src ≡ true
  pub owner : sid_normalize env.session_sid item.sid ≡ some sid
  pub drive : WideString
  pub on : vol_drive_of src 8 ≡ some drive
  pub bin : dir ≡ drive ++ (wide "$Recycle.Bin\\" ++ sid)
  pub fits : length (path_in_bin b'R' env item dir src) < 260
  pub moved :
      setup.fs.move
        (setup.fs.with_directories w.files (dir ∷ []))
        src
        (path_in_bin b'R' env item dir src)
      ≡ some files
  pub left :
      after.files
      ≡ (write_i_file setup.fs i_files
          (path_in_bin b'I' env item dir src)
          (text_or (vol_nt_to_dos setup.volumes item.orig_path) item.orig_path)
          item.file_size
          item.delete_time
          files).1
  pub row :
      IsRecorded set_ok
        (landed_at
          (path_in_bin b'R' env item dir src)
          (text_or (vol_nt_to_dos setup.volumes item.orig_path) []))
        item.id
        w.table
        after.table
  pub recorded :
      after.table
      ≡ (db_set_landed set_ok item.id
          (path_in_bin b'R' env item dir src)
          (text_or (vol_nt_to_dos setup.volumes item.orig_path) [])
          w.table).1

-- One that did not: the table is as before, and so are the files, but for the directory of the bin.
pub record IsLeft {F : Type 0} (setup : Setup F) (w after : World F) : Type 0 where
  pub table : after.table ≡ w.table
  pub files :
      (after.files ≡ w.files)
      ⊎ ((dir : WideString) × (after.files ≡ setup.fs.with_directories w.files (dir ∷ [])))

fit_path_lem : (s t : WideString) → fit_path s ≡ some t → t ≡ s
fit_path_lem s t h =
    if-cases (λ (o : Option WideString). o ≡ some t → t ≡ s) (ltb (length s) 260) (some s) none
      (λ _ e. cc e) (λ _ e. cc e) h

-- On a drive, the directory is that of the SID in the drive's bin.
recycle_dir_lem :
    (sid src dir drive : WideString)
    → vol_drive_of src 8 ≡ some drive
    → recycle_dir sid src ≡ some dir
    → dir ≡ drive ++ (wide "$Recycle.Bin\\" ++ sid)
unfolding recycle_dir
recycle_dir_lem sid src dir drive on h =
    fit_path_lem _ dir h ∙ ap (λ o. drive_or_c o ++ (wide "$Recycle.Bin\\" ++ sid)) on

module _ {F : Type 0} (setup : Setup F) (i_files : IFiles F) (env : LandEnv) (set_ok : Bool)
    (item : Item) where
  abbrev pub IsOutcome : World F → Bool × World F → Type 0
  IsOutcome w r =
      ((r.0 ≡ true) × IsLanded setup i_files env set_ok item w r.1)
      ⊎ ((r.0 ≡ false) × IsLeft setup w r.1)

  untouched : (w : World F) → IsOutcome w (false, w)
  untouched w = inr (refl, record { table = refl; files = inl refl })

  only_directory :
      (w : World F) (dir : WideString)
      → IsOutcome w
          (false, record { files = setup.fs.with_directories w.files (dir ∷ []); table = w.table })
  only_directory w dir = inr (refl, record { table = refl; files = inr (dir, refl) })

  module _ (w : World F) (src sid dir : WideString)
      (from : vol_nt_to_dos setup.volumes item.store_path ≡ some src)
      (had : setup.fs.exists w.files src ≡ true)
      (owner : sid_normalize env.session_sid item.sid ≡ some sid) (drive : WideString)
      (on : vol_drive_of src 8 ≡ some drive) (bin : dir ≡ drive ++ (wide "$Recycle.Bin\\" ++ sid))
      (fits : length (path_in_bin b'R' env item dir src) < 260) where
    after_rename-IsOutcome :
        (o : Option F)
        → setup.fs.move
            (setup.fs.with_directories w.files (dir ∷ []))
            src
            (path_in_bin b'R' env item dir src)
          ≡ o
        → IsOutcome w (
            after_rename setup i_files set_ok item
              (path_in_bin b'R' env item dir src)
              (path_in_bin b'I' env item dir src)
              w.table
              (setup.fs.with_directories w.files (dir ∷ []))
              o)
    unfolding after_rename
    after_rename-IsOutcome none moved = only_directory w dir
    after_rename-IsOutcome (some files) moved = inl (
      refl,
      record {
        src = src;
        sid = sid;
        dir = dir;
        files = files;
        from = from;
        had = had;
        owner = owner;
        drive = drive;
        on = on;
        bin = bin;
        fits = fits;
        moved = moved;
        left = refl;
        row = db_set_landed-IsRecorded set_ok item.id _ _ w.table;
        recorded = refl;
      },
    )

  module _ (w : World F) (src : WideString)
      (from : vol_nt_to_dos setup.volumes item.store_path ≡ some src)
      (had : setup.fs.exists w.files src ≡ true) (drive : WideString)
      (on : vol_drive_of src 8 ≡ some drive) where
    land_at-IsOutcome :
        (sid dir : WideString)
        → sid_normalize env.session_sid item.sid ≡ some sid
        → recycle_dir sid src ≡ some dir
        → IsOutcome w (
            land_at setup i_files set_ok item src
              (fit_path (path_in_bin b'R' env item dir src))
              (fit_path (path_in_bin b'I' env item dir src))
              (record { files = setup.fs.with_directories w.files (dir ∷ []); table = w.table }))
    unfolding land_at
    land_at-IsOutcome sid dir owner bin =
        let r = path_in_bin b'R' env item dir src in
        let i = path_in_bin b'I' env item dir src in
        let made : World F = record {
          files = setup.fs.with_directories w.files (dir ∷ []);
          table = w.table;
        } in
        if-cases (λ a. IsOutcome w (land_at setup i_files set_ok item src a (fit_path i) made))
          (ltb (length r) 260) (some r) none
          (λ fits.
            if-cases (λ b. IsOutcome w (land_at setup i_files set_ok item src (some r) b made))
              (ltb (length i) 260) (some i) none
              (λ _.
                after_rename-IsOutcome w src sid dir from had owner drive on
                  (recycle_dir_lem sid src dir drive on bin) (ltb→lt _ _ fits)
                  (setup.fs.move made.files src r) refl)
              (λ _. only_directory w dir))
          (λ _. only_directory w dir)

    land_in-IsOutcome :
        (sid : WideString) (o : Option WideString)
        → sid_normalize env.session_sid item.sid ≡ some sid
        → recycle_dir sid src ≡ o
        → IsOutcome w (land_in setup i_files env set_ok item src o w)
    unfolding land_in
    land_in-IsOutcome sid none owner bin = untouched w
    land_in-IsOutcome sid (some dir) owner bin = land_at-IsOutcome sid dir owner bin

    land_for-IsOutcome :
        (o : Option WideString)
        → sid_normalize env.session_sid item.sid ≡ o
        → IsOutcome w (land_for setup i_files env set_ok item src o w)
    unfolding land_for
    land_for-IsOutcome none owner = untouched w
    land_for-IsOutcome (some []) owner = untouched w
    land_for-IsOutcome (some (c ∷ sid)) owner =
        land_in-IsOutcome (c ∷ sid) (recycle_dir (c ∷ sid) src) owner refl

  land_drive-IsOutcome :
      (src : WideString) (w : World F)
      → vol_nt_to_dos setup.volumes item.store_path ≡ some src
      → (o : Option WideString) → vol_drive_of src 8 ≡ o
      → IsOutcome w (elim o as (λ _. Bool × World F) [
        | none ↦ (false, w)
        | some drive ↦
            if not (setup.fs.exists w.files src)
            then (false, w)
            else land_for setup i_files env set_ok item src
                (sid_normalize env.session_sid item.sid)
                w
      ])
  land_drive-IsOutcome src w from none on = untouched w
  land_drive-IsOutcome src w from (some drive) on =
      if-cases (IsOutcome w) (not (setup.fs.exists w.files src)) (false, w)
        (land_for setup i_files env set_ok item src (sid_normalize env.session_sid item.sid) w)
        (λ _. untouched w)
        (λ there.
          land_for-IsOutcome w src from (not-false _ there) drive on
            (sid_normalize env.session_sid item.sid) refl)

  land_from-IsOutcome :
      (o : Option WideString) (w : World F)
      → vol_nt_to_dos setup.volumes item.store_path ≡ o
      → IsOutcome w (land_from setup i_files env set_ok item o w)
  unfolding land_from
  land_from-IsOutcome none w from = untouched w
  land_from-IsOutcome (some src) w from = land_drive-IsOutcome src w from (vol_drive_of src 8) refl

  -- A landing reports success only for a row whose staging path is on a known volume with a drive and
  -- its file there, and for which SidNormalize gives a text, which is the placeholder of the session
  -- itself when Windows does not know its user. Then the file was moved to a path that fits MAX_PATH, in
  -- the directory of that text in the drive's bin. If SQLite takes the update, the id finds the row as
  -- landed, with that path and the DOS form of the original one, and nothing else changed; if not, the
  -- table is as before. Other ids find what they found. When no success is reported, the table is as
  -- before, and so are the files, but for the directory in the bin.
  pub store_land_item-IsOutcome :
      (w : World F) → IsOutcome w (store_land_item setup i_files env set_ok item w)
  unfolding store_land_item
  store_land_item-IsOutcome w =
      land_from-IsOutcome (vol_nt_to_dos setup.volumes item.store_path) w refl
