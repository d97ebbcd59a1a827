-- ===== src/Driver/Notify/Layout.antt =====
-- driver/rbminiflt.c: the sizes of an allocated notification.
use recyclebin_svc.Base.{
  ℕ, ◌+◌, ◌*◌, ◌/◌, ◌%◌, ◌≤◌, true, false, none, some, ◌≡◌, refl, arith, length, length-replicate,
}
use recyclebin_svc.Driver.State.{
  success, Note, rbf_notify_magic, notification_size, rbf_notify_max_size,
}
use recyclebin_svc.Driver.Notify.{clamp_bytes, fresh_note, alloc_notify}

pub clamp_bytes-bounds :
    (b limit : ℕ)
    → limit % 2 ≡ 0
    → 2 ≤ limit
    → (2 ≤ clamp_bytes b limit) × (clamp_bytes b limit ≤ limit) × (clamp_bytes b limit % 2 ≡ 0)
unfolding clamp_bytes
clamp_bytes-bounds b limit even room = ground arith

-- The layout of a notification: three payload slots, in order, whole WCHARs, each with room for its
-- NUL, that fill the allocation exactly.
pub record IsLaidOut (n : Note) : Type 0 where
  pub tagged : n.magic ≡ rbf_notify_magic
  pub path_first : n.path_offset ≡ notification_size
  pub path_slot : n.path_offset + 2 ≤ n.store_path_offset
  pub store_slot : n.store_path_offset + 2 ≤ n.sid_offset
  pub sid_slot : n.sid_offset + 2 ≤ n.total_size
  pub aligned : (n.store_path_offset % 2 ≡ 0) × (n.sid_offset % 2 ≡ 0) × (n.total_size % 2 ≡ 0)
  pub bounded : n.total_size ≤ rbf_notify_max_size
  pub filled : n.total_size ≡ notification_size + 2 * length n.payload

pub fresh_note-IsLaidOut :
    (path store sid : ℕ)
    → (2 ≤ path) × (path ≤ 2048) × (path % 2 ≡ 0)
    → (2 ≤ store) × (store ≤ 2048) × (store % 2 ≡ 0)
    → (2 ≤ sid) × (sid ≤ 512) × (sid % 2 ≡ 0)
    → IsLaidOut (fresh_note path store sid)
fresh_note-IsLaidOut path store sid p s i = record {
  tagged = refl;
  path_first = refl;
  path_slot = omega arith;
  store_slot = omega arith;
  sid_slot = omega arith;
  aligned = omega arith;
  bounded = omega arith;
  filled = omega (arith, length-replicate {A = ℕ} ((path + store + sid) / 2) 0);
}

-- `RbfAllocNotify` never takes its STATUS_BUFFER_OVERFLOW exit.
pub alloc_notify_lem :
    (path store sid : ℕ)
    → alloc_notify path store sid true ≡ (
      success,
      some (fresh_note (clamp_bytes path 2048) (clamp_bytes store 2048) (clamp_bytes sid 512)),
    )
unfolding alloc_notify
alloc_notify_lem path store sid =
    ground (
      arith,
      clamp_bytes-bounds path 2048,
      clamp_bytes-bounds store 2048,
      clamp_bytes-bounds sid 512,
    )

-- Whatever three sizes are asked for, the size check never refuses, and if the pool gives the
-- memory then the notification is laid out within RBF_NOTIFY_MAX_SIZE bytes.
pub alloc_notify-IsLaidOut :
    (path store sid : ℕ)
    → (note : Note) × (alloc_notify path store sid true ≡ (success, some note)) × IsLaidOut note
alloc_notify-IsLaidOut path store sid = (
  fresh_note (clamp_bytes path 2048) (clamp_bytes store 2048) (clamp_bytes sid 512),
  alloc_notify_lem path store sid,
  fresh_note-IsLaidOut _ _ _ (clamp_bytes-bounds path 2048 refl (omega arith))
      (clamp_bytes-bounds store 2048 refl (omega arith))
      (clamp_bytes-bounds sid 512 refl (omega arith)),
)

pub alloc_notify-no_pool : (path store sid : ℕ) → (alloc_notify path store sid false).1 ≡ none
unfolding alloc_notify
alloc_notify-no_pool path store sid = ground arith
