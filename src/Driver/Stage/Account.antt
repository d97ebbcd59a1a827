-- ===== src/Driver/Stage/Account.antt =====
-- driver/rbminiflt.c: a file that was renamed into staging is announced to the service or counted.
use recyclebin_svc.Base.{
  ℕ, ◌+◌, ◌*◌, ◌≤◌, Bool, true, false, Option, none, some, [], ◌∷◌, ◌++◌, ◌≡◌, ◌⊎◌, inl, inr, refl,
  ap, ◌∙◌, arith, subst, WideString, length, Bool-cases, inc64,
}
use recyclebin_svc.Driver.State.{
  Status, success, Note, Global, rbf_notify_magic, notification_size, rbf_notify_max_size,
}
use recyclebin_svc.Driver.Kernel.{Kernel}
use recyclebin_svc.Driver.Notify.{alloc_notify, fresh_note, clamp_bytes}
use recyclebin_svc.Driver.Notify.Layout.{
  alloc_notify_lem, alloc_notify-no_pool, fresh_note-IsLaidOut, clamp_bytes-bounds,
}
use recyclebin_svc.Driver.Notify.RoundTrip.{staged_note, fill_note-offsets}
use recyclebin_svc.Driver.StorePath.{get_requestor_sid}
use recyclebin_svc.Driver.Cache.{DirEnv, ensure_store_dir}
use recyclebin_svc.Driver.Queue.{
  QueueEnv, reserve_queue_slot, release_queue_slot, count_dropped, queue_insert, queue_with_port,
  queue_notify, is_well_formed, port_is,
}
use recyclebin_svc.Driver.Stage.{
  Outcome, FileName, StageEnv, fail_delete, move_to_store, announce, after_rename, after_path,
  after_dir, after_reserve, after_sid, intercept, session_of,
}

-- Other threads count no drop between the two critical sections of this one.
abbrev pub KeepsDropped : QueueEnv → Type 0
KeepsDropped q = (g : Global) → (q.between g).stats.notify_dropped ≡ g.stats.notify_dropped

-- The notification is the last one in the queue, behind what was there at the insertion.
pub record IsQueued (q : QueueEnv) (note : Note) (after : Global) : Type 0 where
  pub before : Global
  pub port : ℕ
  pub live : (q.between before).client_port ≡ some port
  pub queued :
      after.queue
      ≡ (q.between before).queue
        ++ record { port = port; size = note.total_size; notification = note } ∷ []

-- Queued, or one more drop than the count `dropped`.
abbrev pub IsAccounted : QueueEnv → Note → ℕ → Global → Type 0
IsAccounted q note dropped after =
    IsQueued q note after ⊎ (after.stats.notify_dropped ≡ inc64 dropped)

port_is-live : (o : Option ℕ) (p : ℕ) → port_is o p ≡ true → o ≡ some p
port_is-live none p h = cc
port_is-live (some q) p h = ground arith

count_released :
    (g : Global)
    → (count_dropped (release_queue_slot g)).stats.notify_dropped ≡ inc64 g.stats.notify_dropped
unfolding release_queue_slot
count_released g = refl

insert-IsAccounted :
    (q : QueueEnv) (note : Note) (p : ℕ) (g : Global)
    → KeepsDropped q
    → IsAccounted q note g.stats.notify_dropped
        (queue_insert
          (record { port = p; size = note.total_size; notification = note })
          (q.between g)).1
unfolding queue_insert
insert-IsAccounted q note p g keeps = elim (Bool-cases (port_is (q.between g).client_port p)) [
  | inl e ↦ inl (rw e (record { before = g; port = p; live = port_is-live _ p e; queued = refl }))
  | inr e ↦ inr (rw e (count_released (q.between g) ∙ ap inc64 (keeps g)))
]

queue_with_port-IsAccounted :
    (q : QueueEnv) (note : Note) (o : Option ℕ) (g : Global)
    → KeepsDropped q
    → IsAccounted q note g.stats.notify_dropped (queue_with_port q note o g).1
unfolding queue_with_port
queue_with_port-IsAccounted q note none g keeps = inr (count_released g)
queue_with_port-IsAccounted q note (some p) g keeps = elim (Bool-cases q.node_alloc) [
  | inl e ↦ simp e (insert-IsAccounted q note p g keeps)
  | inr e ↦ simp e (inr (count_released g))
]

queue_notify-IsAccounted :
    (q : QueueEnv) (note : Note) (g : Global)
    → is_well_formed note ≡ true
    → KeepsDropped q
    → IsAccounted q note g.stats.notify_dropped (queue_notify q note g).1
unfolding queue_notify
queue_notify-IsAccounted q note g well keeps = elim (Bool-cases g.queue_active) [
  | inl e ↦ simp (well, e) (queue_with_port-IsAccounted q note g.client_port g keeps)
  | inr e ↦ simp (well, e) (inr (count_released g))
]

IsLaidOut-well_formed :
    (n : Note)
    → n.magic ≡ rbf_notify_magic
    → notification_size ≤ n.total_size
    → n.total_size ≤ rbf_notify_max_size
    → is_well_formed n ≡ true
IsLaidOut-well_formed n tagged low high = ground arith

-- What the driver allocates and fills is what the send side and the service accept.
pub staged_note-well_formed :
    (name store sid : WideString) (session : ℕ) (info : Option (ℕ × ℕ))
    → is_well_formed (staged_note name store sid session info) ≡ true
staged_note-well_formed name store sid session info =
    let p = clamp_bytes (2 * length name + 2) 2048 in
    let s = clamp_bytes (2 * length store + 2) 2048 in
    let i = clamp_bytes (2 * length sid + 2) 512 in
    let bp = clamp_bytes-bounds (2 * length name + 2) 2048 refl (omega arith) in
    let bs = clamp_bytes-bounds (2 * length store + 2) 2048 refl (omega arith) in
    let bi = clamp_bytes-bounds (2 * length sid + 2) 512 refl (omega arith) in
    let fresh = fresh_note p s i in
    let o = fill_note-offsets name store sid session info fresh in
    let laid = fresh_note-IsLaidOut p s i bp bs bi in
    IsLaidOut-well_formed (staged_note name store sid session info) (o.4 ∙ laid.tagged)
      (omega (arith, o.3)) (omega (arith, o.3))

-- Nothing was renamed, or a file went to a staging path for this SID string, and its notification is
-- accounted for.
abbrev pub IsAnnounced : StageEnv → FileName → WideString → ℕ → ℕ → Outcome → Type 0
IsAnnounced env name sid session dropped o =
    (o.renamed ≡ none)
    ⊎ ((store : WideString) × (o.renamed ≡ some store)
        × IsAccounted env.queue (staged_note name.path store sid session env.standard_info) dropped
            o.global)

announce-IsAccounted :
    (env : StageEnv) (name : FileName) (store sid : WideString) (session : ℕ) (g : Global)
    → KeepsDropped env.queue
    → IsAccounted env.queue
        (staged_note name.path store sid session env.standard_info)
        g.stats.notify_dropped
        (announce env name store sid session
          (alloc_notify
            (2 * length name.path + 2)
            (2 * length store + 2)
            (2 * length sid + 2)
            env.note_pool).1
          g)
unfolding announce
announce-IsAccounted env name store sid session g keeps = elim (Bool-cases env.note_pool) [
  | inl e ↦
      simp
        (e, alloc_notify_lem (2 * length name.path + 2) (2 * length store + 2) (2 * length sid + 2))
        (queue_notify-IsAccounted env.queue
          (staged_note name.path store sid session env.standard_info) g
          (staged_note-well_formed name.path store sid session env.standard_info) keeps)
  | inr e ↦
      simp
        (
          e,
          alloc_notify-no_pool (2 * length name.path + 2) (2 * length store + 2)
              (2 * length sid + 2),
        )
        (inr (count_released g))
]

fail_delete-renamed : (g : Global) → (fail_delete g).renamed ≡ none
unfolding fail_delete
fail_delete-renamed g = ground arith

after_rename-IsAnnounced :
    (env : StageEnv) (name : FileName) (sid : WideString) (session : ℕ) (store : WideString)
    (ok : Bool) (g : Global)
    → KeepsDropped env.queue
    → IsAnnounced env name sid session g.stats.notify_dropped
        (after_rename env name sid session store ok g)
unfolding after_rename
after_rename-IsAnnounced env name sid session store true g keeps =
    inr (store, refl, announce-IsAccounted env name store sid session _ keeps)
after_rename-IsAnnounced env name sid session store false g keeps = inl (fail_delete-renamed _)

after_path-IsAnnounced :
    (env : StageEnv) (name : FileName) (sid : WideString) (session : ℕ) (o : Option WideString)
    (g : Global)
    → KeepsDropped env.queue
    → IsAnnounced env name sid session g.stats.notify_dropped (after_path env name sid session o g)
unfolding after_path
after_path-IsAnnounced env name sid session none g keeps = inl (fail_delete-renamed _)
after_path-IsAnnounced env name sid session (some store) g keeps =
    after_rename-IsAnnounced env name sid session store (move_to_store env store) g keeps

after_dir-IsAnnounced :
    (env : StageEnv) (name : FileName) (sid : WideString) (session : ℕ) (st : Status) (g : Global)
    → KeepsDropped env.queue
    → IsAnnounced env name sid session g.stats.notify_dropped (after_dir env name sid session st g)
unfolding after_dir
after_dir-IsAnnounced env name sid session success g keeps =
    after_path-IsAnnounced env name sid session _ _ keeps
after_dir-IsAnnounced env name sid session _ g keeps = inl (fail_delete-renamed _)

ensure_store_dir-dropped :
    (env : DirEnv) (volume sid : WideString) (g : Global)
    → (ensure_store_dir env volume sid g).1.stats.notify_dropped ≡ g.stats.notify_dropped
unfolding ensure_store_dir
ensure_store_dir-dropped env volume sid g = ground arith

after_reserve-IsAnnounced :
    (env : StageEnv) (name : FileName) (sid : WideString) (session : ℕ) (slot : Bool) (g : Global)
    → KeepsDropped env.queue
    → IsAnnounced env name sid session g.stats.notify_dropped
        (after_reserve env name sid session slot g)
unfolding after_reserve
after_reserve-IsAnnounced env name sid session false g keeps = inl (fail_delete-renamed _)
after_reserve-IsAnnounced env name sid session true g keeps =
    let dir = ensure_store_dir env.dir name.volume sid g in
    subst (λ d. IsAnnounced env name sid session d (after_dir env name sid session dir.0 dir.1))
      (ensure_store_dir-dropped env.dir name.volume sid g)
      (after_dir-IsAnnounced env name sid session dir.0 dir.1 keeps)

reserve-dropped :
    (g : Global) → (reserve_queue_slot g).1.stats.notify_dropped ≡ g.stats.notify_dropped
unfolding reserve_queue_slot
reserve-dropped g = ground arith

-- The SID string that the staging of a file uses.
abbrev pub IsFor : Option WideString → StageEnv → FileName → ℕ → ℕ → Outcome → Type 0
IsFor none env name session dropped o = o.renamed ≡ none
IsFor (some sid) env name session dropped o = IsAnnounced env name sid session dropped o

after_sid-IsFor :
    (env : StageEnv) (name : FileName) (session : ℕ) (o : Option WideString) (g : Global)
    → KeepsDropped env.queue
    → IsFor o env name session g.stats.notify_dropped (after_sid env name session o g)
unfolding after_sid
after_sid-IsFor env name session none g keeps = fail_delete-renamed g
after_sid-IsFor env name session (some sid) g keeps =
    let slot = reserve_queue_slot g in
    subst
      (λ d. IsAnnounced env name sid session d (after_reserve env name sid session slot.0 slot.1))
      (reserve-dropped g) (after_reserve-IsAnnounced env name sid session slot.0 slot.1 keeps)

-- A delete that the driver takes and that ends with the file renamed to a staging path leaves a
-- notification, made of the file's path, that staging path and the requestor's SID string, as the
-- last one in the queue for the connected client, or it counts one dropped notification; without a
-- SID string there is no rename. Other threads must not count drops in between.
pub intercept-IsFor :
    (k : Kernel) (env : StageEnv) (name : FileName) (g : Global)
    → KeepsDropped env.queue
    → IsFor
        (get_requestor_sid env.sid (session_of env.session)).1
        env
        name
        (session_of env.session)
        g.stats.notify_dropped
        (intercept k env name g)
unfolding intercept
intercept-IsFor k env name g keeps = after_sid-IsFor env name _ _ _ keeps
