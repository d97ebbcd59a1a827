-- ===== src/Service/Restore.antt =====
-- service_c/rbrestore.c: restoring one item, and a whole tree.
pub mod Single
pub mod Tree
use recyclebin_svc.Base.{
  ℕ, zero, suc, ◌+◌, ◌-◌, Bool, true, false, not, ◌&&◌, ◌||◌, Option, none, some, List, [], ◌∷◌,
  ◌++◌, WideString, ltb, leb, ◌==◌, if◌then◌else◌, length, take, drop, set,
}
use recyclebin_svc.Base.Wide.{backslash, at, last_index}
use recyclebin_svc.Service.FileSystem.{FileSystem}
use recyclebin_svc.Service.Vol.{Volume, vol_nt_to_dos, vol_dos_to_nt}
use recyclebin_svc.Service.Dest.{dest_is_allowed, ensure_directory_chain}
use recyclebin_svc.Service.Db.{
  Item, ItemStatus, restored, Table, is_live, db_get_item, db_set_status,
  db_list_by_orig_path_prefix, rbsvc_max_tree_restore,
}

-- The messages of `RestoreItemById`.
pub data RestoreResult : Type 0 where
  ok not_found bad_status no_source_volume source_missing no_dest_volume rejected target_exists
        move_failed :
      RestoreResult

abbrev pub is_ok : RestoreResult → Bool
is_ok ok = true
is_ok _ = false

-- The counterpart of a $R file: $I in its last component, in a buffer of MAX_PATH WCHARs.
abbrev pub swap_marker : WideString → Option ℕ → Option WideString
swap_marker p none = none
swap_marker p (some i) =
    if at p (i + 1) == b'$' && at p (i + 2) == b'R' then some (set p (i + 2) b'I') else none

unfoldable pub i_counterpart : WideString → Option WideString
i_counterpart path = let p = take 259 path in swap_marker p (last_index backslash p)

abbrev pub parent_at : WideString → Option ℕ → Option WideString
parent_at path none = none
parent_at path (some i) = if i == 0 then none else some (take i path)

abbrev pub parent_of : WideString → Option WideString
parent_of path = parent_at path (last_index backslash path)

-- What the restore thread works on, and what it is set up with.
pub record World (F : Type 0) : Type 0 where
  pub files : F
  pub table : Table

pub record Setup (F : Type 0) : Type 0 where
  pub fs : FileSystem F
  pub volumes : List Volume
  pub protected : List WideString

-- `RestoreItemById` from its checks down to the move, and behind it. `get_ok` and `set_ok` say whether
-- SQLite answers the query and takes the update; ownership, ACLs and attributes are left out.
module _ {F : Type 0} (setup : Setup F) where
  abbrev pub make_parent : F → Option WideString → F
  make_parent files none = files
  make_parent files (some parent) =
      setup.fs.with_directories files (ensure_directory_chain (setup.fs.creates files) parent).1

  abbrev pub drop_metadata : F → Bool → Option WideString → F
  drop_metadata files true (some path) = setup.fs.delete files path
  drop_metadata files _ _ = files

  unfoldable pub after_move :
      Bool → Item → WideString → World F → Option F → RestoreResult × World F
  after_move set_ok item src w none = (move_failed, w)
  after_move set_ok item src w (some files) = (
    ok,
    record {
      files = drop_metadata files (ltb 0 (length item.recycle_path)) (i_counterpart src);
      table = (db_set_status set_ok item.id restored w.table).1;
    },
  )

  unfoldable pub restore_to :
      Bool → Item → WideString → Option WideString → World F → RestoreResult × World F
  restore_to set_ok item src none w = (no_dest_volume, w)
  restore_to set_ok item src (some dst) w =
      let made = make_parent w.files (parent_of dst) in
      if not (dest_is_allowed setup.protected dst)
      then (rejected, w)
      else if setup.fs.exists w.files dst
      then (target_exists, w)
      else after_move set_ok item src (record { files = made; table = w.table })
          (setup.fs.move made src dst)

  -- The override, or the DOS form of the original path.
  abbrev pub destination : WideString → Item → Option WideString
  destination [] item = vol_nt_to_dos setup.volumes item.orig_path
  destination (c ∷ s) item = some (c ∷ s)

  unfoldable pub restore_from :
      Bool → Item → WideString → Option WideString → World F → RestoreResult × World F
  restore_from set_ok item override none w = (no_source_volume, w)
  restore_from set_ok item override (some src) w =
      if not (setup.fs.exists w.files src)
      then (source_missing, w)
      else restore_to set_ok item src (destination override item) w

  -- The $R file, or the DOS form of the staging path.
  abbrev pub source : Item → Option WideString
  source item =
      if ltb 0 (length item.recycle_path)
      then some item.recycle_path
      else vol_nt_to_dos setup.volumes item.store_path

  unfoldable pub restore_found : Bool → WideString → World F → Option Item → RestoreResult × World F
  restore_found set_ok override w none = (not_found, w)
  restore_found set_ok override w (some item) =
      if not (is_live item)
      then (bad_status, w)
      else restore_from set_ok item override (source item) w

  -- No override is the empty one.
  unfoldable pub restore_item_by_id :
      Bool → Bool → ℕ → WideString → World F → RestoreResult × World F
  restore_item_by_id get_ok set_ok id override w =
      restore_found set_ok override w (db_get_item get_ok id w.table)

  -- The loop of `RestoreTreeByPrefix` over the listed rows, with the counts of successes and failures
  -- so far. `stops n` says that the stop event is set when `n` rows are left.
  unfoldable pub restore_each :
      (ℕ → Bool) → Bool → Bool → List Item → ℕ × ℕ → World F → (ℕ × ℕ) × World F
  restore_each stops get_ok set_ok [] counts w = (counts, w)
  restore_each stops get_ok set_ok (i ∷ items) counts w =
      let r = restore_item_by_id get_ok set_ok i.id [] w in
      let counted = if is_ok r.0 then (suc counts.0, counts.1) else (counts.0, suc counts.1) in
      let rest = restore_each stops get_ok set_ok items counted r.1 in
      if stops (suc (length items)) then (counts, w) else rest

  -- The result of the tree operation: refused before anything is restored, or the two counts.
  unfoldable pub restore_listed :
      (ℕ → Bool) → Bool → Bool → Option (List Item) → World F → Option (ℕ × ℕ) × World F
  restore_listed stops get_ok set_ok none w = (none, w)
  restore_listed stops get_ok set_ok (some []) w = (none, w)
  restore_listed stops get_ok set_ok (some (i ∷ items)) w =
      let r = restore_each stops get_ok set_ok (i ∷ items) (0, 0) w in (some r.0, r.1)

  unfoldable pub restore_tree_nt :
      (ℕ → Bool) → Bool → Bool → Option WideString → World F → Option (ℕ × ℕ) × World F
  restore_tree_nt stops get_ok set_ok none w = (none, w)
  restore_tree_nt stops get_ok set_ok (some prefix) w =
      restore_listed stops get_ok set_ok
        (db_list_by_orig_path_prefix get_ok prefix rbsvc_max_tree_restore w.table) w

  unfoldable pub restore_tree_by_prefix :
      (ℕ → Bool) → Bool → Bool → WideString → World F → Option (ℕ × ℕ) × World F
  restore_tree_by_prefix stops get_ok set_ok prefix w =
      if length prefix == 0
      then (none, w)
      else if not (dest_is_allowed setup.protected prefix)
      then (none, w)
      else restore_tree_nt stops get_ok set_ok (vol_dos_to_nt setup.volumes prefix) w

-- rc: 1 if nothing failed and something was restored.
abbrev pub tree_succeeds : Option (ℕ × ℕ) → Bool
tree_succeeds none = false
tree_succeeds (some (good, bad)) = bad == 0 && ltb 0 good
