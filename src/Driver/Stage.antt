-- ===== src/Driver/Stage.antt =====
-- driver/rbminiflt.c: what happens to an intercepted delete. `RbfStageDelete` is composed of the
-- functions of its numbered steps, in the order of the source; the create and set-information
-- callbacks stand behind it.
pub mod Slots
pub mod Safety
pub mod Account
use recyclebin_svc.Base.{
  ℕ, ◌+◌, ◌-◌, ◌*◌, ◌/◌, ◌%◌, Bool, true, false, not, ◌&&◌, ◌||◌, Option, none, some, WideString,
  ltb, ◌==◌, if◌then◌else◌, length, inc64,
}
use recyclebin_svc.Driver.State.{Status, success, access_denied, Note, Stats, Global}
use recyclebin_svc.Driver.Kernel.{Kernel}
use recyclebin_svc.Driver.Protect.{is_protected, is_excluded}
use recyclebin_svc.Driver.StorePath.{SidEnv, get_requestor_sid, build_store_path}
use recyclebin_svc.Driver.Cache.{DirEnv, ensure_store_dir, store_fingerprint, store_cache_forget}
use recyclebin_svc.Driver.Notify.{alloc_notify, fill_note}
use recyclebin_svc.Driver.Queue.{
  QueueEnv, reserve_queue_slot, release_queue_slot, count_dropped, queue_notify,
}

-- FLT_PREOP_CALLBACK_STATUS
pub data Callback : Type 0 where
  no_callback with_callback complete : Callback

-- FLT_FILE_NAME_INFORMATION, after FltParseFileNameInformation
pub record FileName : Type 0 where
  pub path : WideString
  pub volume : WideString
  pub final_component : WideString

-- What a pre-operation callback leaves: its result, the status it put into the request (none if it
-- put none), the path the file was renamed to (none if it was not), and the global state.
pub record Outcome : Type 0 where
  pub callback : Callback
  pub io : Option Status
  pub renamed : Option WideString
  pub global : Global

-- What the filter manager, the file system and the pool answer during one `RbfStageDelete`.
pub record StageEnv : Type 0 where
  pub session : Option ℕ
  pub name : Option FileName
  pub name_pool : Bool
  pub sid : SidEnv
  pub dir : DirEnv
  pub path_pool : Bool
  pub rename_pool : Bool
  pub rename : WideString → Bool
  pub note_pool : Bool
  pub standard_info : Option (ℕ × ℕ)
  pub queue : QueueEnv

-- The file goes on to the file system, which deletes it.
abbrev pub forward : Global → Outcome
forward g = record { callback = no_callback; io = none; renamed = none; global = g }

unfoldable pub fail_delete : Global → Outcome
fail_delete g = if not g.fail_closed then forward g else record {
  callback = complete;
  io = some access_denied;
  renamed = none;
  global = record g { stats = record g.stats { delete_denied = inc64 g.stats.delete_denied } };
}

-- `RbfMoveToStore`: the rename buffer, then FltSetInformationFile.
unfoldable pub move_to_store : StageEnv → WideString → Bool
move_to_store env store = env.rename_pool && env.rename store

-- Step 8 on the result of `RbfAllocNotify`: the staged file is announced, or counted as an orphan.
unfoldable pub announce :
    StageEnv → FileName → WideString → WideString → ℕ → Option Note → Global → Global
announce env name store sid session none g = count_dropped (release_queue_slot g)
announce env name store sid session (some note) g =
    (queue_notify env.queue (fill_note name.path store sid session env.standard_info note) g).1

-- Step 7 on its result, and step 8.
unfoldable pub after_rename :
    StageEnv → FileName → WideString → ℕ → WideString → Bool → Global → Outcome
after_rename env name sid session store true g =
    let counted = record g { stats = record g.stats { rename_ok = inc64 g.stats.rename_ok } } in
    let note =
      alloc_notify (2 * length name.path + 2) (2 * length store + 2) (2 * length sid + 2)
        env.note_pool in
    record {
      callback = complete;
      io = some success;
      renamed = some store;
      global = announce env name store sid session note.1 counted;
    }
after_rename env name sid session store false g =
    let counted = record g { stats = record g.stats { rename_fail = inc64 g.stats.rename_fail } } in
    let forgotten = record counted {
      store_cache = store_cache_forget (store_fingerprint name.volume sid) g.store_cache;
    } in
    fail_delete (release_queue_slot forgotten)

-- Step 6 on its result.
unfoldable pub after_path :
    StageEnv → FileName → WideString → ℕ → Option WideString → Global → Outcome
after_path env name sid session none g = fail_delete (release_queue_slot g)
after_path env name sid session (some store) g =
    after_rename env name sid session store (move_to_store env store) g

-- Step 5.5 on its result, and step 6.
unfoldable pub after_dir : StageEnv → FileName → WideString → ℕ → Status → Global → Outcome
after_dir env name sid session success g =
    let built = build_store_path sid name.path g.stage_seq env.path_pool in
    after_path env name sid session built.1 (record g { stage_seq = built.2 })
after_dir env name sid session _ g = fail_delete (release_queue_slot g)

-- Step 5.2 on its result, and step 5.5.
unfoldable pub after_reserve : StageEnv → FileName → WideString → ℕ → Bool → Global → Outcome
after_reserve env name sid session false g =
    fail_delete
      (record g { stats = record g.stats { notify_queue_full = inc64 g.stats.notify_queue_full } })
after_reserve env name sid session true g =
    let dir = ensure_store_dir env.dir name.volume sid g in
    after_dir env name sid session dir.0 dir.1

-- The requestor's SID, which is there exactly on success, and step 5.2.
unfoldable pub after_sid : StageEnv → FileName → ℕ → Option WideString → Global → Outcome
after_sid env name session none g = fail_delete g
after_sid env name session (some sid) g =
    let slot = reserve_queue_slot g in after_reserve env name sid session slot.0 slot.1

abbrev pub session_of : Option ℕ → ℕ
session_of none = 0
session_of (some id) = id

-- A delete on a protected path that is not excluded.
unfoldable pub intercept : Kernel → StageEnv → FileName → Global → Outcome
intercept k env name g =
    let session = session_of env.session in
    let counted = record g { stats = record g.stats { intercepts = inc64 g.stats.intercepts } } in
    after_sid env name session (get_requestor_sid env.sid session).1 counted

-- Whether the driver takes this delete for itself.
unfoldable pub is_covered : Kernel → Bool → FileName → Global → Bool
is_covered k pool_ok name g =
    is_protected k g.protected pool_ok name.path
    && not (is_excluded k g.exclude name.final_component)

unfoldable pub stage_named : Kernel → StageEnv → Option FileName → Global → Outcome
stage_named k env none g = fail_delete g
stage_named k env (some name) g =
    if not (is_protected k g.protected env.name_pool name.path)
    then forward g
    else if is_excluded k g.exclude name.final_component
    then forward g
    else intercept k env name g

unfoldable pub stage_delete : Kernel → StageEnv → Global → Outcome
stage_delete k env g = stage_named k env env.name g

-- FILE_INFORMATION_CLASS, for the classes that the driver looks at, with the length of the buffer
-- and what stands in it (none for no buffer): `DeleteFile`, or `Flags`.
pub data InfoClass : Type 0 where
  disposition : ℕ → Option Bool → InfoClass
  disposition_ex : ℕ → Option ℕ → InfoClass
  other_class : InfoClass

-- Whether a request marks the file for deletion. FILE_DISPOSITION_DELETE is 1.
unfoldable pub marks_delete : InfoClass → Bool
marks_delete (disposition len none) = false
marks_delete (disposition len (some delete)) = not (ltb len 1) && delete
marks_delete (disposition_ex len none) = false
marks_delete (disposition_ex len (some flags)) = not (ltb len 4) && flags % 2 == 1
marks_delete other_class = false

unfoldable pub pre_set_info : Kernel → StageEnv → InfoClass → Global → Outcome
pre_set_info k env info g = if marks_delete info then stage_delete k env g else forward g

-- `Options & FILE_DELETE_ON_CLOSE`: bit 12
abbrev pub has_delete_on_close : ℕ → Bool
has_delete_on_close options = (options / 4096) % 2 == 1

-- What `RbfPreCreate` leaves: its result, the create options, and whether the completion context
-- says that this was a delete-on-close open.
abbrev pub untouched : ℕ → Callback × ℕ × Bool
untouched options = (no_callback, options, false)

unfoldable pub create_named :
    Kernel → Bool → Option FileName → Bool → ℕ → Global → Callback × ℕ × Bool
create_named k pool_ok none parsed options g = untouched options
create_named k pool_ok (some name) parsed options g =
    if not parsed || not (is_protected k g.protected pool_ok name.path)
    then untouched options
    else if is_excluded k g.exclude name.final_component
    then untouched options
    else (with_callback, options - 4096, true)

-- `parsed` is the result of FltParseFileNameInformation.
unfoldable pub pre_create :
    Kernel → Bool → Option FileName → Bool → ℕ → Global → Callback × ℕ × Bool
pre_create k pool_ok name parsed options g =
    if not (has_delete_on_close options)
    then untouched options
    else create_named k pool_ok name parsed options g

-- `RbfPostCreate` on the completion context, whether the create succeeded, and whether there is a
-- file object. Its own result is always FLT_POSTOP_FINISHED_PROCESSING; the callback of the outcome
-- is dropped.
unfoldable pub post_create : Kernel → StageEnv → Bool → Bool → Bool → Global → Outcome
post_create k env was_doc created has_file g =
    if not was_doc
    then forward g
    else if not created
    then forward g
    else if not has_file
    then forward g
    else stage_delete k env g
