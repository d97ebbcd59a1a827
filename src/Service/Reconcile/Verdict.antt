-- ===== src/Service/Reconcile/Verdict.antt =====
-- service_c/rbconcile.c, RB-43: the sweep against a check of each row by itself.
use recyclebin_svc.Base.{
  ℕ, ◌+◌, Bool, true, false, ◌&&◌, Option, none, some, List, [], ◌∷◌, ◌≡◌, inl, inr, refl, sym, ap,
  ◌∙◌, subst, arith, WideString, ltb, ◌==◌, if◌then◌else◌, length, filter_by, Bool-cases, if-cases,
}
use recyclebin_svc.Base.Wide.{wide_eq, wide_eq→eq}
use recyclebin_svc.Service.Db.{Item, ItemStatus, restored, purged, db_set_status}
use recyclebin_svc.Service.Restore.{World, Setup}
use recyclebin_svc.Service.Names.{is_real_name, name_array_contains, snapshot}
use recyclebin_svc.Service.Names.Slices.{holds}
use recyclebin_svc.Service.Names.Search.{name_array_contains-sort_names}
use recyclebin_svc.Service.Policy.{db_list_expired}
use recyclebin_svc.Service.Dest.{rbsvc_max_recon_path}
use recyclebin_svc.Service.Reconcile.{
  reconcile_landed, sort_by_dir, dir_of, base_name, Cache, snapshot_dir, read_dir, settle,
  check_row, reconcile_each,
}

module _ {F : Type 0} (setup : Setup F) (list_dir : F → WideString → Option (List WideString)) where
  -- The $R file of a row, by the listing of its directory: none if that cannot be told.
  abbrev pub seen_in : WideString → Option (List WideString) → Option Bool
  seen_in name none = none
  seen_in name (some names) = some (holds name (filter_by is_real_name names))

  abbrev pub listing : F → WideString → Option (List WideString)
  listing files dir = if ltb (length dir + 2) rbsvc_max_recon_path then list_dir files dir else none

  abbrev pub is_seen : F → Item → Option Bool
  is_seen files i =
      if length i.recycle_path == 0
      then none
      else seen_in (base_name i.recycle_path) (listing files (dir_of i.recycle_path))

  -- What becomes of a row: nothing while its file is seen or cannot be told of; else it is restored if
  -- something stands at its original path, and purged if not.
  abbrev pub verdict_of : F → Item → Option Bool → Option ItemStatus
  verdict_of files i none = none
  verdict_of files i (some true) = none
  verdict_of files i (some false) = some (
      if ltb 0 (length i.orig_path_dos) && setup.fs.exists files i.orig_path_dos
      then restored
      else purged)

  abbrev pub apply : Bool → Item → Option ItemStatus → World F → ℕ × World F
  apply set_ok i none w = (0, w)
  apply set_ok i (some status) w =
      (1, record { files = w.files; table = (db_set_status set_ok i.id status w.table).1 })

  -- Each row by itself, with a listing of its own.
  unfoldable pub judge_each : Bool → List Item → World F → ℕ × World F
  judge_each set_ok [] w = (0, w)
  judge_each set_ok (i ∷ items) w =
      let one = apply set_ok i (verdict_of w.files i (is_seen w.files i)) w in
      let rest = judge_each set_ok items one.1 in (one.0 + rest.0, rest.1)

  -- The cache holds what its directory gives.
  abbrev IsFresh : F → Option Cache → Type 0
  IsFresh files none = Unit
  IsFresh files (some c) = c.names ≡ snapshot_dir setup list_dir files c.dir

  read_dir-IsFresh :
      (files : F) (dir : WideString) (cache : Option Cache)
      → IsFresh files cache
      → let c = read_dir setup list_dir files dir cache in
        (c.names ≡ snapshot_dir setup list_dir files dir) × IsFresh files (some c)
  unfolding read_dir
  read_dir-IsFresh files dir none h = (refl, refl)
  read_dir-IsFresh files dir (some c) h =
      if-cases
        (λ (r : Cache). (r.names ≡ snapshot_dir setup list_dir files dir) × IsFresh files (some r))
        (wide_eq dir c.dir) c _
        (λ same. (h ∙ ap (snapshot_dir setup list_dir files) (sym (wide_eq→eq dir c.dir same)), h))
        (λ other. (refl, refl))

  check_names :
      (set_ok : Bool) (i : Item) (names : List WideString) (w : World F) (b : Bool)
      → name_array_contains names (base_name i.recycle_path) ≡ b
      → check_row setup list_dir set_ok i (some names) w
        ≡ apply set_ok i (verdict_of w.files i (some b)) w
  unfolding check_row settle
  check_names set_ok i names w true e = rw e refl
  check_names set_ok i names w false e = rw e refl

  check_listed :
      (set_ok : Bool) (i : Item) (o : Option (List WideString)) (w : World F)
      → check_row setup list_dir set_ok i (snapshot o) w
        ≡ apply set_ok i (verdict_of w.files i (seen_in (base_name i.recycle_path) o)) w
  unfolding check_row
  check_listed set_ok i none w = refl
  check_listed set_ok i (some names) w =
      check_names set_ok i _ w _
        (name_array_contains-sort_names (base_name i.recycle_path) (filter_by is_real_name names))

  check_dir :
      (set_ok : Bool) (i : Item) (dir : WideString) (w : World F)
      → check_row setup list_dir set_ok i (snapshot_dir setup list_dir w.files dir) w
        ≡ apply set_ok i
            (verdict_of w.files i (seen_in (base_name i.recycle_path) (listing w.files dir)))
            w
  unfolding snapshot_dir
  check_dir set_ok i dir w = elim (Bool-cases (ltb (length dir + 2) rbsvc_max_recon_path)) [
    | inl e ↦ rw e (check_listed set_ok i (list_dir w.files dir) w)
    | inr e ↦ rw e (check_listed set_ok i none w)
  ]

  seen_without_path :
      (files : F) (i : Item) → (length i.recycle_path == 0) ≡ true → is_seen files i ≡ none
  seen_without_path files i e = rw e refl

  seen_with_path :
      (files : F) (i : Item)
      → (length i.recycle_path == 0) ≡ false
      → is_seen files i ≡ seen_in (base_name i.recycle_path) (listing files (dir_of i.recycle_path))
  seen_with_path files i e = rw e refl

  apply-files :
      (set_ok : Bool) (i : Item) (v : Option ItemStatus) (w : World F)
      → (apply set_ok i v w).1.files ≡ w.files
  apply-files set_ok i none w = refl
  apply-files set_ok i (some status) w = refl

  zero_first : (r : ℕ × World F) → r ≡ (0 + r.0, r.1)
  zero_first r = ap (λ n. (n, r.1)) (omega arith)

  abbrev then_rest : Bool → List Item → ℕ × World F → ℕ × World F
  then_rest set_ok items one = let rest = judge_each set_ok items one.1 in (one.0 + rest.0, rest.1)

  judge_skip :
      (set_ok : Bool) (i : Item) (items : List Item) (w : World F)
      → (length i.recycle_path == 0) ≡ true
      → judge_each set_ok items w ≡ judge_each set_ok (i ∷ items) w
  unfolding judge_each
  judge_skip set_ok i items w e =
      zero_first (judge_each set_ok items w)
      ∙ ap (λ s. then_rest set_ok items (apply set_ok i (verdict_of w.files i s) w))
          (sym (seen_without_path w.files i e))

  -- With whatever directory it read last, the sweep judges each row as a check by itself does.
  reconcile_each-judge_each :
      (set_ok : Bool) (items : List Item) (cache : Option Cache) (w : World F)
      → IsFresh w.files cache
      → reconcile_each setup list_dir set_ok items cache w ≡ judge_each set_ok items w
  unfolding reconcile_each judge_each
  reconcile_each-judge_each set_ok [] cache w fresh = refl
  reconcile_each-judge_each set_ok (i ∷ items) cache w fresh =
      let dir = dir_of i.recycle_path in
      let c = read_dir setup list_dir w.files dir cache in
      let read = read_dir-IsFresh w.files dir cache fresh in
      let one = check_row setup list_dir set_ok i c.names w in
      if-cases (λ r. r ≡ judge_each set_ok (i ∷ items) w) (length i.recycle_path == 0)
        (reconcile_each setup list_dir set_ok items cache w) _
        (λ empty.
          reconcile_each-judge_each set_ok items cache w fresh ∙ judge_skip set_ok i items w empty)
        (λ full.
          let same : one ≡ apply set_ok i (verdict_of w.files i (is_seen w.files i)) w =
            ap (λ names. check_row setup list_dir set_ok i names w) read.0
            ∙ check_dir set_ok i dir w
            ∙ ap (λ s. apply set_ok i (verdict_of w.files i s) w)
                (sym (seen_with_path w.files i full)) in
          let kept : w.files ≡ one.1.files =
            sym (ap (λ r. r.1.files) same ∙ apply-files set_ok i _ w) in
          ap (λ (r : ℕ × World F). (one.0 + r.0, r.1))
            (reconcile_each-judge_each set_ok items (some c) one.1
              (subst (λ f. IsFresh f (some c)) kept read.1))
          ∙ ap (then_rest set_ok items) same)

  -- The sweep, which reads each directory once, sorts its names and searches them by halving, does to
  -- the rows and returns what a check of each row by itself does: a landed row whose $R name is in the
  -- listing of its directory, in any case of letters, is left alone, and so is one whose directory
  -- cannot be read or that has no path; each other row is set to restored if something stands at its
  -- original path, to purged if not, and counted.
  pub reconcile_landed-judge_each :
      (list_ok set_ok : Bool) (w : World F)
      → reconcile_landed setup list_dir list_ok set_ok w
        ≡ judge_each set_ok (sort_by_dir (db_list_expired list_ok 253402300800 0 w.table)) w
  unfolding reconcile_landed
  reconcile_landed-judge_each list_ok set_ok w =
      reconcile_each-judge_each set_ok
        (sort_by_dir (db_list_expired list_ok 253402300800 0 w.table)) none w tt
