-- ===== src/Driver/Stage/Slots.antt =====
-- driver/rbminiflt.c, RB-08 and RB-25: the queue slot that a delete reserves is given back or used up
-- on every way out of `RbfStageDelete`.
use recyclebin_svc.Base.{
  ℕ, ◌-◌, ◌<◌, Bool, true, false, Option, none, some, ◌≡◌, ap, ◌∙◌, arith, WideString, Bool-cases,
  inl, inr, ltb, ltb→lt, inc32,
}
use recyclebin_svc.Driver.State.{Status, success, Note, Node, Global, rbf_queue_max}
use recyclebin_svc.Driver.Kernel.{Kernel}
use recyclebin_svc.Driver.Cache.{DirEnv, ensure_store_dir}
use recyclebin_svc.Driver.Notify.{fill_note}
use recyclebin_svc.Driver.Queue.{
  QueueEnv, reserve_queue_slot, release_queue_slot, queue_insert, queue_with_port, queue_notify,
}
use recyclebin_svc.Driver.Stage.{
  FileName, StageEnv, fail_delete, move_to_store, announce, after_rename, after_path, after_dir,
  after_reserve, after_sid, intercept, stage_named, stage_delete,
}

-- Other threads give back the slots that they take, between two critical sections of this one.
abbrev pub KeepsReserved : QueueEnv → Type 0
KeepsReserved q = (g : Global) → (q.between g).reserved ≡ g.reserved

fail_delete-reserved : (g : Global) → (fail_delete g).global.reserved ≡ g.reserved
unfolding fail_delete
fail_delete-reserved g = ground arith

released : (g : Global) → (fail_delete (release_queue_slot g)).global.reserved ≡ g.reserved - 1
unfolding release_queue_slot
released g = fail_delete-reserved (release_queue_slot g) ∙ ground arith

ensure_store_dir-reserved :
    (env : DirEnv) (volume sid : WideString) (g : Global)
    → (ensure_store_dir env volume sid g).1.reserved ≡ g.reserved
unfolding ensure_store_dir
ensure_store_dir-reserved env volume sid g = ground arith

queue_insert-reserved :
    (node : Node) (g : Global) → (queue_insert node g).1.reserved ≡ g.reserved - 1
unfolding queue_insert
queue_insert-reserved node g = ground arith

queue_with_port-reserved :
    (env : QueueEnv) (note : Note) (port : Option ℕ) (g : Global)
    → KeepsReserved env
    → (queue_with_port env note port g).1.reserved ≡ g.reserved - 1
unfolding queue_with_port
queue_with_port-reserved env note none g keeps = ground arith
queue_with_port-reserved env note (some p) g keeps =
    ground (arith, keeps g, queue_insert-reserved _ (env.between g))

-- Whichever way `RbfQueueNotify` ends, one reserved slot is gone.
queue_notify-reserved :
    (env : QueueEnv) (note : Note) (g : Global)
    → KeepsReserved env
    → (queue_notify env note g).1.reserved ≡ g.reserved - 1
unfolding queue_notify
queue_notify-reserved env note g keeps =
    ground (arith, queue_with_port-reserved env note g.client_port g keeps)

announce-reserved :
    (env : StageEnv) (name : FileName) (store sid : WideString) (session : ℕ) (o : Option Note)
    (g : Global)
    → KeepsReserved env.queue
    → (announce env name store sid session o g).reserved ≡ g.reserved - 1
unfolding announce release_queue_slot
announce-reserved env name store sid session none g keeps = ground arith
announce-reserved env name store sid session (some note) g keeps =
    queue_notify-reserved env.queue (fill_note name.path store sid session env.standard_info note) g
      keeps

after_rename-reserved :
    (env : StageEnv) (name : FileName) (sid : WideString) (session : ℕ) (store : WideString)
    (ok : Bool) (g : Global)
    → KeepsReserved env.queue
    → (after_rename env name sid session store ok g).global.reserved ≡ g.reserved - 1
unfolding after_rename
after_rename-reserved env name sid session store true g keeps =
    announce-reserved env name store sid session _ _ keeps
after_rename-reserved env name sid session store false g keeps = released _

after_path-reserved :
    (env : StageEnv) (name : FileName) (sid : WideString) (session : ℕ) (o : Option WideString)
    (g : Global)
    → KeepsReserved env.queue
    → (after_path env name sid session o g).global.reserved ≡ g.reserved - 1
unfolding after_path
after_path-reserved env name sid session none g keeps = released g
after_path-reserved env name sid session (some store) g keeps =
    after_rename-reserved env name sid session store (move_to_store env store) g keeps

after_dir-reserved :
    (env : StageEnv) (name : FileName) (sid : WideString) (session : ℕ) (st : Status) (g : Global)
    → KeepsReserved env.queue
    → (after_dir env name sid session st g).global.reserved ≡ g.reserved - 1
unfolding after_dir
after_dir-reserved env name sid session success g keeps =
    after_path-reserved env name sid session _ _ keeps
after_dir-reserved env name sid session _ g keeps = released g

after_reserve-reserved :
    (env : StageEnv) (name : FileName) (sid : WideString) (session : ℕ) (g : Global)
    → KeepsReserved env.queue
    → (after_reserve env name sid session true g).global.reserved ≡ g.reserved - 1
unfolding after_reserve
after_reserve-reserved env name sid session g keeps =
    after_dir-reserved env name sid session _ _ keeps
    ∙ ap (λ r. r - 1) (ensure_store_dir-reserved env.dir name.volume sid g)

after_full-reserved :
    (env : StageEnv) (name : FileName) (sid : WideString) (session : ℕ) (g : Global)
    → (after_reserve env name sid session false g).global.reserved ≡ g.reserved
unfolding after_reserve
after_full-reserved env name sid session g = fail_delete-reserved _

one_back : (r : ℕ) → r < rbf_queue_max → inc32 r - 1 ≡ r
one_back r h = omega arith

after_sid-reserved :
    (env : StageEnv) (name : FileName) (session : ℕ) (o : Option WideString) (g : Global)
    → KeepsReserved env.queue
    → (after_sid env name session o g).global.reserved ≡ g.reserved
unfolding after_sid reserve_queue_slot
after_sid-reserved env name session none g keeps = fail_delete-reserved g
after_sid-reserved env name session (some sid) g keeps =
    elim (Bool-cases (ltb g.reserved rbf_queue_max)) [
      | inl e ↦ rw e (
          after_reserve-reserved env name sid session _ keeps
          ∙ one_back g.reserved (ltb→lt g.reserved rbf_queue_max e))
      | inr e ↦ rw e (after_full-reserved env name sid session g)
    ]

intercept-reserved :
    (k : Kernel) (env : StageEnv) (name : FileName) (g : Global)
    → KeepsReserved env.queue
    → (intercept k env name g).global.reserved ≡ g.reserved
unfolding intercept
intercept-reserved k env name g keeps = after_sid-reserved env name _ _ _ keeps

stage_named-reserved :
    (k : Kernel) (env : StageEnv) (o : Option FileName) (g : Global)
    → KeepsReserved env.queue
    → (stage_named k env o g).global.reserved ≡ g.reserved
unfolding stage_named
stage_named-reserved k env none g keeps = fail_delete-reserved g
stage_named-reserved k env (some name) g keeps =
    ground (arith, intercept-reserved k env name g keeps)

-- On every way out of `RbfStageDelete`, success, failure or a queue that is full, as many slots are
-- reserved as before, if other threads return what they take.
pub stage_delete-reserved :
    (k : Kernel) (env : StageEnv) (g : Global)
    → KeepsReserved env.queue
    → (stage_delete k env g).global.reserved ≡ g.reserved
unfolding stage_delete
stage_delete-reserved k env g keeps = stage_named-reserved k env env.name g keeps
