-- ===== src/Tests/Driver.antt =====
-- driver/rbminiflt.c: deletes, the queue and staging paths on concrete inputs.
use recyclebin_svc.Base.{
  false, ◌+◌, true, Option, none, some, [], ◌≡◌, ◌≢◌, refl, arith, WideString, length,
}
use recyclebin_svc.Base.Wide.{wide, wide_eq}
use recyclebin_svc.Driver.State.{access_denied, Node, entry_global}
use recyclebin_svc.Driver.Protect.{is_protected, is_excluded, prefix_matches}
use recyclebin_svc.Driver.StorePath.{get_requestor_sid, build_store_path, seq_part, decimal}
use recyclebin_svc.Driver.StorePath.Unique.{build_store_path-distinct}
use recyclebin_svc.Driver.Queue.{reserve_queue_slot, port_connect, port_disconnect}
use recyclebin_svc.Driver.Queue.Invariant.{
  reserve, connect, here, next, Inv, Step-Inv, AreLive, FlyingIsLive,
}
use recyclebin_svc.Driver.Queue.Ports.{start, start-Inv, Reach-AreLive, disconnect_quiesces}
use recyclebin_svc.Base.Wide.{to_lower}
use recyclebin_svc.Driver.Kernel.{append_to}
use recyclebin_svc.Driver.Cache.{
  ensure_store_dir, store_fingerprint, hash_unicode, store_cache_lookup, make_dirs,
}
use recyclebin_svc.Driver.Notify.{alloc_notify, clamp_bytes, fill_note}
use recyclebin_svc.Driver.Queue.{queue_notify}
use recyclebin_svc.Driver.Stage.{
  stage_delete, stage_named, intercept, after_sid, after_reserve, after_dir, after_path,
  after_rename, announce, move_to_store, is_covered, pre_create,
}
use recyclebin_svc.Driver.Stage.Slots.{stage_delete-reserved}
use recyclebin_svc.Driver.Stage.Account.{IsFor, intercept-IsFor}
use recyclebin_svc.Driver.Stage.Safety.{
  IsKept, stage_delete-IsKept, destroyed, close_fate, close_fate-kept,
}
use recyclebin_svc.Driver.Config.{Registry}
use recyclebin_svc.Driver.Entry.{
  EntryEnv, driver_entry, after_register, after_descriptor, after_port, after_thread,
}
use recyclebin_svc.Driver.Entry.Held.{IsEntered, driver_entry-IsEntered}
use recyclebin_svc.Tests.{exact_kernel, ready, file_a, fair}

-- What the whole interception does here: the file goes to the staging path, one notification waits.
staged_run :
    ((stage_delete exact_kernel fair ready).renamed ≡ some (wide "\\D\\V2\\RBStore\\S-1\\1_a"))
    × (length (stage_delete exact_kernel fair ready).global.queue ≡ 1)
unfolding stage_delete stage_named intercept after_sid after_reserve after_dir after_path
    after_rename announce move_to_store is_protected is_excluded prefix_matches wide_eq
    get_requestor_sid reserve_queue_slot ensure_store_dir store_fingerprint hash_unicode
    store_cache_lookup make_dirs append_to build_store_path seq_part decimal alloc_notify
    clamp_bytes fill_note queue_notify to_lower
staged_run = (refl, refl)

stage_delete-IsKept_example : IsKept fair (stage_delete exact_kernel fair ready)
unfolding is_covered is_protected is_excluded prefix_matches wide_eq
stage_delete-IsKept_example = stage_delete-IsKept exact_kernel fair ready refl refl

intercept-IsFor_example :
    IsFor
      (get_requestor_sid fair.sid 1).1
      fair
      file_a
      1
      0
      (intercept exact_kernel fair file_a ready)
intercept-IsFor_example = intercept-IsFor exact_kernel fair file_a ready (λ g. refl)

stage_delete-reserved_example : (stage_delete exact_kernel fair ready).global.reserved ≡ 0
stage_delete-reserved_example = stage_delete-reserved exact_kernel fair ready (λ g. refl)

close_fate-kept_example :
    (close_fate exact_kernel fair true (some file_a) true 4097 true true ready ≢ destroyed)
    × ((pre_create exact_kernel true (some file_a) true 4097 ready).1 + 4096 ≡ 4097)
unfolding is_covered is_protected is_excluded prefix_matches wide_eq
close_fate-kept_example =
    close_fate-kept exact_kernel fair true file_a 4097 true true ready refl refl

Step-Inv_example : Inv (record { global = (reserve_queue_slot entry_global).1; in_flight = none })
Step-Inv_example = Step-Inv (reserve start) start-Inv

Reach-AreLive_example : AreLive (some 7) [] × FlyingIsLive (some 7) none
unfolding entry_global port_connect
Reach-AreLive_example = Reach-AreLive (next here (connect start 7 refl))

disconnect_quiesces_example :
    (◌≡◌ {A = Option Node} none none)
    × (entry_global.client_port ≡ none)
    × (entry_global.queue ≡ [])
unfolding entry_global port_connect port_disconnect
disconnect_quiesces_example =
    disconnect_quiesces entry_global (next here (connect start 7 refl)) refl

abbrev path_x : WideString
path_x = wide "\\D\\V2\\s\\x"

build_store_path-distinct_example :
    wide "\\D\\V2\\RBStore\\S-1\\1_x" ≢ wide "\\D\\V2\\RBStore\\S-1\\12_x"
unfolding build_store_path seq_part decimal
build_store_path-distinct_example =
    build_store_path-distinct (wide "\\S-1") path_x path_x 0 11 1 12
      (wide "\\D\\V2\\RBStore\\S-1\\1_x") (wide "\\D\\V2\\RBStore\\S-1\\12_x") refl (omega arith)
      (omega arith) (λ e. omega arith) refl refl

-- Filtering does not start, behind everything else.
abbrev unstarted : EntryEnv
unstarted = record {
  register = none;
  descriptor = none;
  create_port = none;
  create_thread = none;
  start = some access_denied;
}

abbrev no_key : Registry
no_key = record { opens = false; pool = true; query = λ name. none }

driver_entry-IsEntered_example : IsEntered unstarted (driver_entry exact_kernel no_key unstarted)
driver_entry-IsEntered_example = driver_entry-IsEntered exact_kernel no_key unstarted

unstarted_run : (driver_entry exact_kernel no_key unstarted).0 ≡ access_denied
unfolding driver_entry after_register after_descriptor after_port after_thread
unstarted_run = refl
