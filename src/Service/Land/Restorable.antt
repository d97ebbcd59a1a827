-- ===== src/Service/Land/Restorable.antt =====
-- service_c/rbstore.c and rbrestore.c: a landed row can be restored from where it landed.
use recyclebin_svc.Base.{
  u64, ℕ, suc, ◌+◌, ◌<◌, Bool, true, Option, none, some, List, [], ◌∷◌, ◌++◌, ◌≡◌, ◌≢◌, inl, inr,
  refl, sym, ap, ◌∙◌, subst, arith, length-append, WideString, ltb, length, drop, if-cases,
  drop-append, lt→ltb,
}
use recyclebin_svc.Base.Wide.{backslash, at}
use recyclebin_svc.Service.FileSystem.{FileSystem, IsFileSystem}
use recyclebin_svc.Service.IFile.{IFiles, write_created, write_i_file}
use recyclebin_svc.Service.Db.{Item, landed, is_live, db_get_item}
use recyclebin_svc.Service.Db.Rows.{AreNumbered, db_set_landed-get}
use recyclebin_svc.Service.Restore.{World, Setup, source}
use recyclebin_svc.Service.Land.{base_36, extension_of, bin_path, LandEnv, text_or, store_land_item}
use recyclebin_svc.Service.Land.Outcome.{path_in_bin, IsLanded, store_land_item-IsOutcome}
use recyclebin_svc.Service.Vol.{vol_nt_to_dos}

-- Making or writing one file leaves the others where they are.
pub record KeepsOthers (F : Type 0) (fs : FileSystem F) (i_files : IFiles F) : Type 0 where
  pub created :
      (s t : F) (p other : WideString)
      → i_files.create s p ≡ some t
      → p ≢ other
      → fs.exists s other ≡ true
      → fs.exists t other ≡ true
  pub written :
      (s : F) (p other : WideString) (bs : List ℕ)
      → p ≢ other
      → fs.exists s other ≡ true
      → fs.exists (i_files.write s p bs).1 other ≡ true

bin_path-differ :
    (dir token ext : WideString) → bin_path b'I' dir token ext ≢ bin_path b'R' dir token ext
bin_path-differ dir token ext same =
    let tail : ℕ → WideString = λ l. backslash ∷ b'$' ∷ l ∷ (token ++ ext) in
    let behind : tail b'I' ≡ tail b'R' =
      sym (drop-append dir (tail b'I'))
      ∙ ap (drop (length dir)) same
      ∙ drop-append dir (tail b'R') in
    absurd (omega (arith, ap (λ p. at p 2) behind))

module _ {F : Type 0} (fs : FileSystem F) (i_files : IFiles F) (laws : IsFileSystem F fs)
    (keeps : KeepsOthers F fs i_files) where
  write_created-keeps :
      (p path other : WideString) (size time : ℕ) (o : Option F) (s : F)
      → ((t : F) → o ≡ some t → fs.exists t other ≡ true)
      → p ≢ other
      → fs.exists s other ≡ true
      → fs.exists (write_created fs i_files p path size time o s).1 other ≡ true
  unfolding write_created
  write_created-keeps p path other size time none s made differ had = had
  write_created-keeps p path other size time (some t) s made differ had =
      let one = keeps.written t p other _ differ (made t refl) in
      let two = keeps.written _ p other _ differ one in
      if-cases (λ (r : Bool × F). fs.exists r.1 other ≡ true) _ _ _ (λ _. two)
        (λ _. laws.deleted _ p other differ two)

  write_i_file-keeps :
      (p path other : WideString) (size time : ℕ) (s : F)
      → p ≢ other
      → fs.exists s other ≡ true
      → fs.exists (write_i_file fs i_files p path size time s).1 other ≡ true
  unfolding write_i_file
  write_i_file-keeps p path other size time s differ had =
      write_created-keeps p path other size time (i_files.create s p) s
        (λ t made. keeps.created s t p other made differ had) differ had

-- What a restore needs of a row: it is live, and its data is there.
pub record IsRestorable {F : Type 0} (setup : Setup F) (id : ℕ) (w : World F) : Type 0 where
  pub item : Item
  pub path : WideString
  pub found : db_get_item true id w.table ≡ some item
  pub live : is_live item ≡ true
  pub src : source setup item ≡ some path
  pub there : setup.fs.exists w.files path ≡ true

module _ {F : Type 0} (setup : Setup F) (i_files : IFiles F) (laws : IsFileSystem F setup.fs)
    (keeps : KeepsOthers F setup.fs i_files) where
  source-bin_path :
      (row : Item) (letter : ℕ) (dir token ext : WideString)
      → row.recycle_path ≡ bin_path letter dir token ext
      → source setup row ≡ some (bin_path letter dir token ext)
  source-bin_path row letter dir token ext e =
      let long : 0 < length row.recycle_path =
        subst (λ p. 0 < length p) (sym e)
          (omega (arith, length-append dir (backslash ∷ b'$' ∷ letter ∷ (token ++ ext)))) in
      if-cases (λ (o : Option WideString). o ≡ some (bin_path letter dir token ext))
        (ltb 0 (length row.recycle_path)) (some row.recycle_path)
        (vol_nt_to_dos setup.volumes row.store_path) (λ _. ap (λ p. some p) e)
        (λ short. absurd (cc (short, lt→ltb 0 (length row.recycle_path) long)))

  landed-IsRestorable :
      (env : LandEnv) (item : Item) (w after : World F)
      → AreNumbered w.table.next_id w.table.rows
      → db_get_item true item.id w.table ≡ some item
      → IsLanded setup i_files env true item w after
      → IsRestorable setup item.id after
  landed-IsRestorable env item w after numbered found l =
      let r = path_in_bin b'R' env item l.dir l.src in
      let i = path_in_bin b'I' env item l.dir l.src in
      let token = base_36 (u64 (env.now_ms + item.id)) in
      let ext = extension_of l.src in
      let dos = text_or (vol_nt_to_dos setup.volumes item.orig_path) [] in
      let row : Item = record item { status = landed; recycle_path = r; orig_path_dos = dos } in
      let update =
        db_set_landed-get item.id (suc item.id) r dos item w.table numbered (λ e. omega (arith, e))
          found in
      record {
        item = row;
        path = r;
        found = subst (λ t. db_get_item true item.id t ≡ some row) (sym l.recorded) update.0;
        live = refl;
        src = source-bin_path row b'R' l.dir token ext refl;
        there =
            subst (λ f. setup.fs.exists f r ≡ true) (sym l.left)
              (write_i_file-keeps setup.fs i_files laws keeps i _ r item.file_size item.delete_time
                l.files (bin_path-differ l.dir token ext) (laws.moved _ l.files l.src r l.moved));
      }

  -- After a landing that succeeds, of a row that the table has under its id, and whose update SQLite
  -- takes, the row can be restored: it is live, its data is at the path it landed at, and a restore
  -- looks there. The table's ids are taken to be distinct, and the file system to keep its contract.
  pub store_land_item-IsRestorable :
      (env : LandEnv) (item : Item) (w : World F)
      → AreNumbered w.table.next_id w.table.rows
      → db_get_item true item.id w.table ≡ some item
      → (store_land_item setup i_files env true item w).0 ≡ true
      → IsRestorable setup item.id (store_land_item setup i_files env true item w).1
  store_land_item-IsRestorable env item w numbered found done =
      elim (store_land_item-IsOutcome setup i_files env true item w) [
        | inl p ↦ landed-IsRestorable env item w _ numbered found p.1
        | inr q ↦ absurd (cc (done, q.0))
      ]
