-- ===== src/Tests/Policy.antt =====
-- service_c/rbpolicy.c: a retention pass on concrete rows.
use recyclebin_svc.Base.{
  Option, some, ℕ, true, List, [], ◌∷◌, ◌≡◌, refl, arith, WideString, length, map, filter_by,
}
use recyclebin_svc.Base.Wide.{wide, wide_eq, to_lower, last_index}
use recyclebin_svc.Service.Vol.{vol_nt_to_dos, best_volume, longer, device_matches, skip_separators}
use recyclebin_svc.Service.Db.{Item, landed, update_row, db_set_status}
use recyclebin_svc.Service.Restore.{World, i_counterpart}
use recyclebin_svc.Service.Policy.{
  policy_purge_expired, purge_each, store_delete_entry, delete_at, delete_staged, db_list_expired,
  db_list_expired_staged,
}
use recyclebin_svc.Service.Policy.Marks.{purge_if, is_due}
use recyclebin_svc.Service.Policy.Retention.{policy_purge_expired-rows}
use recyclebin_svc.Service.Watermark.{
  db_list_landed_oldest, policy_watermark_max_pass, free_volume, free_oldest, sort_oldest,
  insert_oldest,
}
use recyclebin_svc.Service.Watermark.Oldest.{AreOldest}
use recyclebin_svc.Service.Watermark.Least.{IsLeast, purging, free_volume-IsLeast}
use recyclebin_svc.Tests.Service.{row_1}
use recyclebin_svc.Tests.Restore.{small}

-- A staged row and a landed one, both a day old, and a fresh one.
abbrev rows : List Item
rows =
    row_1
    ∷ record row_1 { id = 2; status = landed; recycle_path = wide "D:\\R\\$Rab" }
    ∷ record row_1 { id = 3; delete_time = 99999 }
    ∷ []

abbrev aged : World (List WideString)
aged = record {
  files = wide "D:\\R\\1_b" ∷ wide "D:\\R\\$Rab" ∷ wide "D:\\R\\$Iab" ∷ wide "D:\\S" ∷ [];
  table = record { rows = rows; next_id = 4 };
}

abbrev pub no_directories : List WideString → WideString → List WideString
no_directories files path = files

policy_purge_expired-rows_example :
    let r = policy_purge_expired small no_directories true true 100000 1 aged in
    (r.1.table.rows ≡ map (purge_if (is_due 100000 1)) rows)
    × (r.0 ≡ length (filter_by (is_due 100000 1) rows))
policy_purge_expired-rows_example =
    policy_purge_expired-rows small no_directories 100000 1 aged (λ e. omega arith)
      (
        omega arith,
        ((λ e. omega arith), ((λ e. omega arith), tt)),
        (omega arith, ((λ e. omega arith), tt), (omega arith, tt, tt)),
      )
      (omega arith)

-- The data of the two is gone, and the $I file with it.
purged_run :
    let r = policy_purge_expired small no_directories true true 100000 1 aged in
    (r.0 ≡ 2) × (r.1.files ≡ wide "D:\\S" ∷ [])
unfolding policy_purge_expired purge_each store_delete_entry delete_at delete_staged db_list_expired
    db_list_expired_staged vol_nt_to_dos best_volume longer device_matches skip_separators wide_eq
    to_lower last_index i_counterpart db_set_status update_row
purged_run = (refl, refl)

abbrev five_free : List WideString → WideString → Option ℕ
five_free files drive = some 5

-- 5 bytes are free, 7 are wanted, and there is one landed row of 3 bytes.
free_volume-IsLeast_example :
    let items = db_list_landed_oldest true policy_watermark_max_pass aged.table in
    AreOldest true aged.table items
    × IsLeast
        (purging small no_directories five_free true 7 5 aged)
        7
        5
        items
        (free_volume small no_directories five_free true true 7 (some 5) aged)
unfolding db_list_landed_oldest sort_oldest insert_oldest
free_volume-IsLeast_example =
    free_volume-IsLeast small no_directories five_free true 7 5 true aged (omega arith)

freed_run : (free_volume small no_directories five_free true true 7 (some 5) aged).0 ≡ 1
unfolding free_volume free_oldest db_list_landed_oldest sort_oldest insert_oldest
freed_run = refl
