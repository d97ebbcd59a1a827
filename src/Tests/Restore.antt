-- ===== src/Tests/Restore.antt =====
-- service_c/rbrestore.c: restores on a file system that is a list of paths.
use recyclebin_svc.Base.{
  true, false, some, List, [], ◌∷◌, ◌≡◌, ◌≤◌, none, ℕ, All, refl, arith, WideString,
}
use recyclebin_svc.Base.Wide.{wide, wide_eq, to_lower, last_index}
use recyclebin_svc.Service.FileSystem.{list_fs}
use recyclebin_svc.Service.Vol.{vol_nt_to_dos, best_volume, longer, device_matches, skip_separators}
use recyclebin_svc.Service.Dest.{
  has_dot_dot, prefix_allows, dest_is_allowed, ensure_directory_chain, chain_from, trim_separators,
}
use recyclebin_svc.Service.Db.{db_get_item, find_row}
use recyclebin_svc.Service.Restore.{
  ok, World, Setup, restore_item_by_id, restore_found, restore_from, restore_to, after_move,
  restore_each,
}
use recyclebin_svc.Service.Restore.Single.{IsOutcome, restore_item_by_id-IsOutcome}
use recyclebin_svc.Service.Restore.Tree.{restore_each-other}
use recyclebin_svc.Service.Ops.{Op, pending, finished, db_ops_pending, restore_drain_ops}
use recyclebin_svc.Service.Ops.Finished.{run_each, waits, restore_drain_ops-finished}
use recyclebin_svc.Tests.Service.{volume_d, row_1, table_1}

abbrev pub small : Setup (List WideString)
small = record { fs = list_fs; volumes = volume_d ∷ []; protected = wide "D:\\S" ∷ [] }

abbrev before : World (List WideString)
before = record { files = wide "D:\\R\\1_b" ∷ []; table = table_1 }

restore_item_by_id-IsOutcome_example :
    IsOutcome small true 1 (some row_1) [] before (restore_item_by_id small true true 1 [] before)
unfolding db_get_item find_row
restore_item_by_id-IsOutcome_example = restore_item_by_id-IsOutcome small true true 1 [] before

-- Here it succeeds: the file is back, and the row says so.
restored_run : (restore_item_by_id small true true 1 [] before).0 ≡ ok
unfolding restore_item_by_id restore_found restore_from restore_to after_move db_get_item find_row
    vol_nt_to_dos best_volume longer device_matches skip_separators wide_eq to_lower dest_is_allowed
    has_dot_dot prefix_allows last_index ensure_directory_chain chain_from trim_separators
restored_run = refl

restore_each-other_example :
    db_get_item true 9
      (restore_each small (λ n. false) true true (row_1 ∷ []) (0, 0) before).1.table
    ≡ db_get_item true 9 table_1
restore_each-other_example =
    restore_each-other small (λ n. false) true true (row_1 ∷ []) (0, 0) before 9
      ((λ e. omega arith), tt)

-- One restore that is waiting, and one that is done.
abbrev queue : List Op
queue =
    record { id = 5; type_name = wide "restore"; item_id = 1; arg = []; state = pending }
    ∷ record { id = 4; type_name = wide "restore"; item_id = 1; arg = []; state = finished }
    ∷ []

restore_drain_ops-finished_example :
    let r = restore_drain_ops small (λ n. false) (λ w. (none, w)) true queue before in
    (r.0 ≤ 64)
    × (r.2 ≡ run_each small (λ n. false) (λ w. (none, w)) (db_ops_pending true 64 queue) before)
    × All (λ o. waits o.id r.1 ≡ false) (db_ops_pending true 64 queue)
    × ((other : ℕ) → waits other queue ≡ false → waits other r.1 ≡ false)
restore_drain_ops-finished_example =
    restore_drain_ops-finished small (λ n. false) (λ w. (none, w)) queue before
