-- ===== src/Tests/Land.antt =====
-- service_c/rbstore.c and rbvol.c: landings on a file system that is a list of paths, and the $I file
-- on one that keeps what is written.
use recyclebin_svc.Base.{
  ℕ, true, false, Option, none, some, List, [], ◌∷◌, ◌++◌, ◌≡◌, ◌≢◌, refl, subst, arith, WideString,
  if◌then◌else◌,
}
use recyclebin_svc.Base.Wide.{wide, wide_eq, to_lower, last_index}
use recyclebin_svc.Driver.StorePath.{SidEnv, get_requestor_sid}
use recyclebin_svc.Driver.State.{success}
use recyclebin_svc.Service.FileSystem.{FileSystem, list_fs, list_fs-IsFileSystem}
use recyclebin_svc.Service.Vol.{
  vol_nt_to_dos, best_volume, longer, device_matches, skip_separators, vol_drive_of,
}
use recyclebin_svc.Service.Sid.{sid_normalize}
use recyclebin_svc.Service.Sid.Session.{sid_normalize-get_requestor_sid}
use recyclebin_svc.Service.IFile.{IFiles, write_i_file, write_created}
use recyclebin_svc.Service.Db.{strip_sid, find_row, db_get_item}
use recyclebin_svc.Service.Restore.{World}
use recyclebin_svc.Service.Land.{
  base_36, bin_path, LandEnv, store_land_item, land_from, land_for, land_in, land_at, after_rename,
  recycle_dir, extension_of,
}
use recyclebin_svc.Service.Land.Paths.{bin_path-distinct}
use recyclebin_svc.Service.Land.Outcome.{IsOutcome, store_land_item-IsOutcome}
use recyclebin_svc.Service.Land.Restorable.{KeepsOthers, IsRestorable, store_land_item-IsRestorable}
use recyclebin_svc.Tests.Service.{row_1, table_1}
use recyclebin_svc.Tests.Restore.{small}

-- The token cannot be read; session 7 is the one of S-1-5-21.
abbrev unread : SidEnv
unread = record { token_sid = none; real_pool = true; fallback_pool = true }

abbrev sid_of : ℕ → Option WideString
sid_of n = some (wide "S-1-5-21")

sid_normalize-get_requestor_sid_example :
    (text : WideString) × (get_requestor_sid unread 7 ≡ (success, some text))
    × (sid_normalize sid_of text ≡ some (wide "S-1-5-21"))
    × (sid_normalize sid_of (strip_sid text) ≡ some (wide "S-1-5-21"))
sid_normalize-get_requestor_sid_example =
    sid_normalize-get_requestor_sid unread sid_of 7 (wide "S-1-5-21") refl refl (omega arith) refl

-- Files by their content.
abbrev Content : Type 0
Content = WideString → List ℕ

abbrev replace : Content → WideString → List ℕ → Content
replace s p bs q = if wide_eq p q then bs else s q

abbrev content_files : IFiles Content
content_files = record {
  create = λ s p. some (replace s p []);
  write = λ s p bs. (true, replace s p (s p ++ bs));
}

abbrev content_fs : FileSystem Content
content_fs = record {
  exists = λ s p. false;
  move = λ s a b. none;
  creates = λ s p. true;
  with_directories = λ s ps. s;
  delete = λ s p. replace s p [];
}

abbrev content_of : Content → WideString → List ℕ
content_of s p = s p

bin_path-distinct_example :
    bin_path b'R' (wide "D:\\R") (base_36 35) (extension_of (wide "1_a.txt"))
    ≢ bin_path b'R' (wide "D:\\R") (base_36 36) (extension_of (wide "2_b"))
bin_path-distinct_example =
    bin_path-distinct b'R' (wide "D:\\R") 35 36 (wide "1_a.txt") (wide "2_b") (omega arith)
      (omega arith) (λ e. omega arith)

-- A list of paths, which does not keep the content.
abbrev pub path_files : IFiles (List WideString)
path_files = record { create = λ s p. some (p ∷ s); write = λ s p bs. (true, s) }

pub some-same : (a b : List WideString) → some a ≡ some b → a ≡ b
some-same a b e = cc

created_keeps :
    (s t : List WideString) (p other : WideString)
    → some (p ∷ s) ≡ some t
    → p ≢ other
    → list_fs.exists s other ≡ true
    → list_fs.exists t other ≡ true
created_keeps s t p other e differ had =
    subst (λ u. list_fs.exists u other ≡ true) (some-same (p ∷ s) t e) (ground (arith, had))

path_files-KeepsOthers : KeepsOthers (List WideString) list_fs path_files
path_files-KeepsOthers = record {
  created = created_keeps;
  written = λ s p other bs differ had. had;
}

abbrev pub noon : LandEnv
noon = record { now_ms = 35; session_sid = sid_of }

abbrev pub staged_world : World (List WideString)
staged_world = record { files = wide "D:\\R\\1_b" ∷ []; table = table_1 }

store_land_item-IsOutcome_example :
    IsOutcome small path_files noon true row_1 staged_world
      (store_land_item small path_files noon true row_1 staged_world)
store_land_item-IsOutcome_example =
    store_land_item-IsOutcome small path_files noon true row_1 staged_world

store_land_item-IsRestorable_example :
    IsRestorable small 1 (store_land_item small path_files noon true row_1 staged_world).1
unfolding store_land_item land_from land_for land_in land_at after_rename vol_nt_to_dos best_volume
    longer device_matches skip_separators wide_eq to_lower vol_drive_of sid_normalize recycle_dir
    base_36 extension_of db_get_item find_row last_index
store_land_item-IsRestorable_example =
    store_land_item-IsRestorable small path_files list_fs-IsFileSystem path_files-KeepsOthers noon
      row_1 staged_world (omega arith, tt, tt) refl refl

-- The file that lands is in the bin, with its $I file beside it.
landed_run :
    (store_land_item small path_files noon true row_1 staged_world).1.files
    ≡ wide "D:\\$Recycle.Bin\\S\\$I10"
      ∷ wide "D:\\$Recycle.Bin\\S\\$R10"
      ∷ wide "D:\\$Recycle.Bin\\S"
      ∷ []
unfolding store_land_item land_from land_for land_in land_at after_rename vol_nt_to_dos best_volume
    longer device_matches skip_separators wide_eq to_lower vol_drive_of sid_normalize recycle_dir
    base_36 extension_of last_index write_i_file write_created
landed_run = refl
