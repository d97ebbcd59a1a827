-- ===== src/Service/Policy/Retention.antt =====
-- service_c/rbpolicy.c: a retention pass against one statement on the table.
use recyclebin_svc.Base.{
  ℕ, suc, ◌+◌, ◌≤◌, Bool, true, List, [], ◌∷◌, ◌≡◌, ◌≢◌, refl, sym, ap, ◌∙◌, subst, take_all,
  WideString, ◌==◌, length, take, filter_by, map,
}
use recyclebin_svc.Service.Db.{Item, purged, db_set_status}
use recyclebin_svc.Service.Db.Rows.{AreNumbered}
use recyclebin_svc.Service.Restore.{World, Setup}
use recyclebin_svc.Service.Policy.{
  db_list_expired, db_list_expired_staged, purge_each, policy_purge_expired, store_delete_entry,
  delete_staged, policy_expired_max_pass,
}
use recyclebin_svc.Service.Policy.Marks.{
  purge_if, is_in, update_row-map, map-map_if, map_if, map_same, all_of, purge_twice, in_filter,
  same_marks, numbered_map, purge_if-id, is_due, landed_due, staged_due, due_apart, due_count,
  few_landed, few_staged, not_zero, else_branch,
}

module _ {F : Type 0} (setup : Setup F) (remove_directory : F → WideString → F) where
  purge_each-rows :
      (remove : Item → F → F) (items : List Item) (w : World F)
      → (purge_each setup remove_directory remove true items w).1.table.rows
        ≡ map (purge_if (is_in items)) w.table.rows
  unfolding purge_each db_set_status
  purge_each-rows remove [] w =
      sym (map_same (purge_if (is_in [])) w.table.rows (all_of _ w.table.rows (λ i. refl)))
  purge_each-rows remove (i ∷ items) w =
      purge_each-rows remove items
        (record { files = remove i w.files; table = (db_set_status true i.id purged w.table).1 })
      ∙ ap (map (purge_if (is_in items))) (update_row-map i.id w.table.rows)
      ∙ map-map_if _ _ _ w.table.rows (all_of _ w.table.rows (purge_twice items i))

  purge_each-count :
      (remove : Item → F → F) (set_ok : Bool) (items : List Item) (w : World F)
      → (purge_each setup remove_directory remove set_ok items w).0 ≡ length items
  unfolding purge_each
  purge_each-count remove set_ok [] w = refl
  purge_each-count remove set_ok (i ∷ items) w = ap suc (purge_each-count remove set_ok items _)

  -- One loop over all rows of a query.
  purge_each-filter :
      (remove : Item → F → F) (p : Item → Bool) (bound : ℕ) (w : World F)
      → AreNumbered bound w.table.rows
      → (purge_each setup remove_directory remove true (filter_by p w.table.rows) w).1.table.rows
        ≡ map (purge_if p) w.table.rows
  purge_each-filter remove p bound w h =
      purge_each-rows remove (filter_by p w.table.rows) w
      ∙ map_if _ _ w.table.rows
          (same_marks (filter_by p w.table.rows) p w.table.rows (in_filter bound p w.table.rows h))

module _ {F : Type 0} (setup : Setup F) (remove_directory : F → WideString → F) where
  -- The state behind one loop, and its count.
  abbrev IsPass : (Item → Bool) → World F → ℕ × World F → Type 0
  IsPass p w r =
      (r.1.table.rows ≡ map (purge_if p) w.table.rows) × (r.0 ≡ length (filter_by p w.table.rows))

  filter_by-IsPass :
      (remove : Item → F → F) (p : Item → Bool) (cap bound : ℕ) (w : World F)
      → AreNumbered bound w.table.rows
      → length (filter_by p w.table.rows) ≤ cap
      → IsPass p w
          (purge_each setup remove_directory remove true (take cap (filter_by p w.table.rows)) w)
  filter_by-IsPass remove p cap bound w numbered few =
      subst (λ found. IsPass p w (purge_each setup remove_directory remove true found w))
        (sym (take_all cap (filter_by p w.table.rows) few))
        (
          purge_each-filter setup remove_directory remove p bound w numbered,
          purge_each-count setup remove_directory remove true (filter_by p w.table.rows) w,
        )

  two_passes :
      (now days : ℕ) (w : World F) (a b : ℕ × World F)
      → IsPass (landed_due now days) w a
      → IsPass (staged_due now days) a.1 b
      → (b.1.table.rows ≡ map (purge_if (is_due now days)) w.table.rows)
        × (a.0 + b.0 ≡ length (filter_by (is_due now days) w.table.rows))
  two_passes now days w a b first second = (
    second.0
        ∙ ap (map (purge_if (staged_due now days))) first.0
        ∙ map-map_if _ _ _ w.table.rows (all_of _ w.table.rows (due_apart now days)),
    subst (λ rows. a.0 + b.0 ≡ rows) (due_count now days w.table.rows)
        (rw (first.1, second.1 ∙ ap (λ rows. length (filter_by (staged_due now days) rows)) first.0)
          refl),
  )

  IsPass-second :
      (remove : Item → F → F) (now days cap : ℕ) (w : World F) (a : ℕ × World F)
      → AreNumbered w.table.next_id w.table.rows
      → length (filter_by (is_due now days) w.table.rows) ≤ cap
      → IsPass (landed_due now days) w a
      → IsPass (staged_due now days) a.1 (
          purge_each setup remove_directory remove true
            (take cap (filter_by (staged_due now days) a.1.table.rows))
            a.1)
  IsPass-second remove now days cap w a numbered few first =
      filter_by-IsPass remove (staged_due now days) cap w.table.next_id a.1
        (subst (AreNumbered w.table.next_id) (sym first.0) (
          numbered_map _ w.table.next_id w.table.rows (purge_if-id (landed_due now days)) numbered))
        (subst (λ rows. length (filter_by (staged_due now days) rows) ≤ cap) (sym first.0)
          (few_staged now days cap w.table.rows few))

module _ {F : Type 0} (setup : Setup F) (remove_directory : F → WideString → F) where
  -- A retention pass with a retention time, on a table whose ids are distinct, of which no more than
  -- 8192 rows are due, and with an SQLite that carries its statements out, comes to one statement: each
  -- row that is staged or landed and was deleted before the retention time is set to purged, every
  -- other row is left as it is, and the number it returns is the number of the rows set.
  pub policy_purge_expired-rows :
      (now days : ℕ) (w : World F)
      → days ≢ 0
      → AreNumbered w.table.next_id w.table.rows
      → length (filter_by (is_due now days) w.table.rows) ≤ policy_expired_max_pass
      → let r = policy_purge_expired setup remove_directory true true now days w in
        (r.1.table.rows ≡ map (purge_if (is_due now days)) w.table.rows)
        × (r.0 ≡ length (filter_by (is_due now days) w.table.rows))
  unfolding policy_purge_expired db_list_expired db_list_expired_staged
  policy_purge_expired-rows now days w some_days numbered few =
      let cap = policy_expired_max_pass in
      let a =
        purge_each setup remove_directory (store_delete_entry setup remove_directory) true
          (take cap (filter_by (landed_due now days) w.table.rows)) w in
      let b =
        purge_each setup remove_directory (delete_staged setup remove_directory) true
          (take cap (filter_by (staged_due now days) a.1.table.rows)) a.1 in
      let first =
        filter_by-IsPass setup remove_directory (store_delete_entry setup remove_directory)
          (landed_due now days) cap w.table.next_id w numbered
          (few_landed now days cap w.table.rows few) in
      subst
        (λ (r : ℕ × World F).
          (r.1.table.rows ≡ map (purge_if (is_due now days)) w.table.rows)
          × (r.0 ≡ length (filter_by (is_due now days) w.table.rows)))
        (sym (else_branch (days == 0) _ _ (not_zero days some_days)))
        (two_passes setup remove_directory now days w a b first (
          IsPass-second setup remove_directory (delete_staged setup remove_directory) now days cap w
            a numbered few first))
