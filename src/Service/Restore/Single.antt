-- ===== src/Service/Restore/Single.antt =====
-- service_c/rbrestore.c: what one restore does when it succeeds, and what it leaves when it does not.
use recyclebin_svc.Base.{
  ℕ, Bool, true, false, not, Option, none, some, ◌≡◌, ◌≢◌, ◌⊎◌, inl, inr, refl, sym, ap, subst,
  WideString, ltb, length, if-cases, not-false,
}
use recyclebin_svc.Service.FileSystem.{IsFileSystem}
use recyclebin_svc.Service.Dest.{dest_is_allowed}
use recyclebin_svc.Service.Db.{Item, restored, is_live, db_get_item}
use recyclebin_svc.Service.Db.Recorded.{get-id, IsRecorded, with_status, db_set_status-IsRecorded}
use recyclebin_svc.Service.Restore.{
  RestoreResult, ok, bad_status, no_source_volume, source_missing, no_dest_volume, rejected,
  target_exists, move_failed, World, Setup, i_counterpart, parent_of, make_parent, drop_metadata,
  after_move, restore_to, destination, restore_from, source, restore_found, restore_item_by_id,
}

-- A restore that went through: of a live row, from where its data is to an allowed path that did not
-- exist; the row of its id is then restored and otherwise the same, if SQLite takes that.
pub record IsRestored {F : Type 0} (setup : Setup F) (set_ok : Bool) (item : Item)
    (override : WideString) (w after : World F) : Type 0 where
  pub live : is_live item ≡ true
  pub src : WideString
  pub dst : WideString
  pub from : source setup item ≡ some src
  pub to : destination setup override item ≡ some dst
  pub had : setup.fs.exists w.files src ≡ true
  pub free : setup.fs.exists w.files dst ≡ false
  pub allowed : dest_is_allowed setup.protected dst ≡ true
  pub files : F
  pub moved : setup.fs.move (make_parent setup w.files (parent_of dst)) src dst ≡ some files
  pub left :
      after.files ≡ drop_metadata setup files (ltb 0 (length item.recycle_path)) (i_counterpart src)
  pub row : IsRecorded set_ok (with_status restored) item.id w.table after.table

-- A restore that did not: the table is as before, and so are the files, but for directories made
-- above the destination when only the move failed.
pub record IsRefused {F : Type 0} (setup : Setup F) (r : RestoreResult) (w after : World F)
    : Type 0 where
  pub table : after.table ≡ w.table
  pub files :
      (after.files ≡ w.files)
      ⊎ ((r ≡ move_failed)
          × ((dst : WideString) × (after.files ≡ make_parent setup w.files (parent_of dst))))

abbrev pub IsDone :
    {F : Type 0} → Setup F → Bool → Item → WideString → World F → RestoreResult × World F → Type 0
IsDone setup set_ok item override w r =
    ((r.0 ≡ ok) × IsRestored setup set_ok item override w r.1)
    ⊎ ((r.0 ≢ ok) × IsRefused setup r.0 w r.1)

module _ {F : Type 0} (setup : Setup F) (set_ok : Bool) (item : Item) (override : WideString) where
  refused_at_once :
      (r : RestoreResult) (w : World F) → r ≢ ok → IsDone setup set_ok item override w (r, w)
  refused_at_once r w h = inr (h, record { table = refl; files = inl refl })

  after_move-IsDone :
      (src dst : WideString) (w : World F) (o : Option F)
      → is_live item ≡ true
      → source setup item ≡ some src
      → destination setup override item ≡ some dst
      → setup.fs.exists w.files src ≡ true
      → setup.fs.exists w.files dst ≡ false
      → dest_is_allowed setup.protected dst ≡ true
      → setup.fs.move (make_parent setup w.files (parent_of dst)) src dst ≡ o
      → IsDone setup set_ok item override w (
          after_move setup set_ok item src
            (record { files = make_parent setup w.files (parent_of dst); table = w.table })
            o)
  unfolding after_move
  after_move-IsDone src dst w none live from to had free allowed moved =
      inr (λ e. cc, record { table = refl; files = inr (refl, (dst, refl)) })
  after_move-IsDone src dst w (some files) live from to had free allowed moved = inl (
    refl,
    record {
      live = live;
      src = src;
      dst = dst;
      from = from;
      to = to;
      had = had;
      free = free;
      allowed = allowed;
      files = files;
      moved = moved;
      left = refl;
      row = db_set_status-IsRecorded set_ok item.id restored w.table;
    },
  )

  restore_to-IsDone :
      (src : WideString) (w : World F) (o : Option WideString)
      → is_live item ≡ true
      → source setup item ≡ some src
      → setup.fs.exists w.files src ≡ true
      → destination setup override item ≡ o
      → IsDone setup set_ok item override w (restore_to setup set_ok item src o w)
  unfolding restore_to
  restore_to-IsDone src w none live from had to = refused_at_once no_dest_volume w (λ e. cc)
  restore_to-IsDone src w (some dst) live from had to =
      let made = make_parent setup w.files (parent_of dst) in
      let moved = setup.fs.move made src dst in
      if-cases (IsDone setup set_ok item override w) (not (dest_is_allowed setup.protected dst)) _ _
        (λ e. refused_at_once rejected w (λ q. cc))
        (λ e.
          if-cases (IsDone setup set_ok item override w) (setup.fs.exists w.files dst) _ _
            (λ f. refused_at_once target_exists w (λ q. cc))
            (λ f. after_move-IsDone src dst w moved live from to had f (not-false _ e) refl))

  restore_from-IsDone :
      (w : World F) (o : Option WideString)
      → is_live item ≡ true
      → source setup item ≡ o
      → IsDone setup set_ok item override w (restore_from setup set_ok item override o w)
  unfolding restore_from
  restore_from-IsDone w none live from = refused_at_once no_source_volume w (λ q. cc)
  restore_from-IsDone w (some src) live from =
      if-cases (IsDone setup set_ok item override w) (not (setup.fs.exists w.files src)) _ _
        (λ e. refused_at_once source_missing w (λ q. cc))
        (λ e.
          restore_to-IsDone src w (destination setup override item) live from (not-false _ e) refl)

-- The row that was asked for, if the query found one.
abbrev pub IsOutcome :
    {F : Type 0}
    → Setup F
    → Bool
    → ℕ
    → Option Item
    → WideString
    → World F
    → RestoreResult × World F
    → Type 0
IsOutcome setup set_ok id none override w r = (r.0 ≢ ok) × IsRefused setup r.0 w r.1
IsOutcome setup set_ok id (some item) override w r =
    (item.id ≡ id) × IsDone setup set_ok item override w r

restore_found-IsOutcome :
    {F : Type 0} (setup : Setup F) (set_ok : Bool) (id : ℕ) (override : WideString) (w : World F)
    (o : Option Item)
    → ((x : Item) → o ≡ some x → x.id ≡ id)
    → IsOutcome setup set_ok id o override w (restore_found setup set_ok override w o)
unfolding restore_found
restore_found-IsOutcome setup set_ok id override w none found =
    (λ q. cc, record { table = refl; files = inl refl })
restore_found-IsOutcome setup set_ok id override w (some item) found = (
  found item refl,
  if-cases (IsDone setup set_ok item override w) (not (is_live item)) _ _
      (λ e. refused_at_once setup set_ok item override bad_status w (λ q. cc))
      (λ e.
        restore_from-IsDone setup set_ok item override w (source setup item) (not-false _ e) refl),
)

-- A restore reports success only for a staged or landed row of the id whose data existed, and then its
-- file was moved to a destination that the check allows and where nothing existed. If SQLite then takes
-- the update, the id finds the row with the status restored and nothing else changed; if it does not,
-- success is reported all the same and the table is as before. Other ids find what they found. In each
-- other case the table is as before, and so are the files, but for directories above the destination
-- if only the move failed.
pub restore_item_by_id-IsOutcome :
    {F : Type 0} (setup : Setup F) (get_ok set_ok : Bool) (id : ℕ) (override : WideString)
    (w : World F)
    → IsOutcome setup set_ok id
        (db_get_item get_ok id w.table)
        override
        w
        (restore_item_by_id setup get_ok set_ok id override w)
unfolding restore_item_by_id
restore_item_by_id-IsOutcome setup get_ok set_ok id override w =
    restore_found-IsOutcome setup set_ok id override w (db_get_item get_ok id w.table)
      (get-id get_ok id w.table)

metadata_kept :
    {F : Type 0} (setup : Setup F) (files : F) (landed : Bool) (o : Option WideString)
    (dst : WideString)
    → IsFileSystem F setup.fs
    → o ≢ some dst
    → setup.fs.exists files dst ≡ true
    → setup.fs.exists (drop_metadata setup files landed o) dst ≡ true
metadata_kept setup files true (some path) dst laws differ h =
    laws.deleted files path dst (λ e. differ (ap some e)) h
metadata_kept setup files true none dst laws differ h = h
metadata_kept setup files false o dst laws differ h = h

-- On a file system that keeps its contract, the restored file is at its destination in the end, unless
-- the destination is itself the name of the metadata file that goes.
restored_file_exists :
    {F : Type 0} (setup : Setup F) (set_ok : Bool) (item : Item) (override : WideString)
    (w after : World F)
    → IsFileSystem F setup.fs
    → (r : IsRestored setup set_ok item override w after) → i_counterpart r.src ≢ some r.dst
    → setup.fs.exists after.files r.dst ≡ true
restored_file_exists setup set_ok item override w after laws r differ =
    subst (λ f. setup.fs.exists f r.dst ≡ true) (sym r.left)
      (metadata_kept setup r.files (ltb 0 (length item.recycle_path)) (i_counterpart r.src) r.dst
        laws differ
        (laws.moved (make_parent setup w.files (parent_of r.dst)) r.files r.src r.dst r.moved))
