-- ===== src/Driver/Notify/RoundTrip.antt =====
-- driver/rbminiflt.c: what is written into a notification is what its accessors read.
use mathlib.Core.Path.{ap₂}
use recyclebin_svc.Base.{
  ℕ, suc, ◌+◌, ◌*◌, Option, none, some, ◌≡◌, refl, ap, ◌∙◌, arith, WideString, length, take, drop,
  min,
}
use recyclebin_svc.Driver.State.{Note, notification_size}
use recyclebin_svc.Driver.Notify.{
  word_index, clamp_bytes, fresh_note, c_string, notify_path, notify_store_path, notify_sid,
  fill_note,
}
use recyclebin_svc.Driver.Notify.Slots.{
  HasNoNul, slots, cut, take-min, fill_note-payload, read_slots,
}

-- A notification with these offsets and this payload reads back its strings.
read_note :
    (n : Note) (a b c : ℕ) (name store sid : WideString)
    → n.payload ≡ slots (suc a) (suc b) (suc c) (cut a name) (cut b store) (cut c sid)
    → (n.path_offset ≡ notification_size)
      × (n.store_path_offset ≡ notification_size + (2 * a + 2))
      × (n.sid_offset ≡ notification_size + (2 * a + 2) + (2 * b + 2))
    → HasNoNul name × HasNoNul store × HasNoNul sid
    → (notify_path n ≡ take a name)
      × (notify_store_path n ≡ take b store)
      × (notify_sid n ≡ take c sid)
unfolding notify_path notify_store_path notify_sid
read_note n a b c name store sid e offs h =
    let r = read_slots a b c name store sid h.0 h.1 h.2 in
    let i : word_index n.path_offset ≡ 0 = omega arith in
    let j : word_index n.store_path_offset ≡ suc a = omega arith in
    let k : word_index n.sid_offset ≡ suc a + suc b = omega arith in
    (
      ap₂ (λ o p. c_string (drop o p)) i e ∙ r.0,
      ap₂ (λ o p. c_string (drop o p)) j e ∙ r.1,
      ap₂ (λ o p. c_string (drop o p)) k e ∙ r.2,
    )

pub fill_note-offsets :
    (name store sid : WideString) (session : ℕ) (info : Option (ℕ × ℕ)) (n : Note)
    → let filled = fill_note name store sid session info n in
      (filled.path_offset ≡ n.path_offset)
      × (filled.store_path_offset ≡ n.store_path_offset)
      × (filled.sid_offset ≡ n.sid_offset)
      × (filled.total_size ≡ n.total_size)
      × (filled.magic ≡ n.magic)
unfolding fill_note
fill_note-offsets name store sid session none n = (refl, refl, refl, refl, refl)
fill_note-offsets name store sid session (some info) n = (refl, refl, refl, refl, refl)

clamp_bytes-slot : (n k : ℕ) → clamp_bytes (2 * n + 2) (2 * k + 2) ≡ 2 * min n k + 2
unfolding clamp_bytes
clamp_bytes-slot n k = ground arith

take-min_left : (k : ℕ) (s : WideString) → take (min (length s) k) s ≡ take k s
take-min_left k s = ap (λ n. take n s) (omega arith) ∙ take-min k s

-- The notification that `RbfStageDelete` allocates for a path, a staging path and a SID, and fills.
abbrev pub staged_note : WideString → WideString → WideString → ℕ → Option (ℕ × ℕ) → Note
staged_note name store sid session info = fill_note name store sid session info (
    fresh_note (clamp_bytes (2 * length name + 2) 2048) (clamp_bytes (2 * length store + 2) 2048)
      (clamp_bytes (2 * length sid + 2) 512))

slotted-reads :
    (a b c : ℕ) (name store sid : WideString) (session : ℕ) (info : Option (ℕ × ℕ))
    → HasNoNul name × HasNoNul store × HasNoNul sid
    → let note =
        fill_note name store sid session info (fresh_note (2 * a + 2) (2 * b + 2) (2 * c + 2)) in
      (notify_path note ≡ take a name)
      × (notify_store_path note ≡ take b store)
      × (notify_sid note ≡ take c sid)
slotted-reads a b c name store sid session info h =
    let fresh = fresh_note (2 * a + 2) (2 * b + 2) (2 * c + 2) in
    let o = fill_note-offsets name store sid session info fresh in
    read_note (fill_note name store sid session info fresh) a b c name store sid
      (fill_note-payload a b c name store sid session info) (o.0, o.1, o.2) h

-- The service reads from a notification the path, the staging path and the SID that the driver put
-- in, cut to 1023, 1023 and 255 WCHARs, for strings with no NUL inside.
pub staged_note-reads :
    (name store sid : WideString) (session : ℕ) (info : Option (ℕ × ℕ))
    → HasNoNul name
    → HasNoNul store
    → HasNoNul sid
    → let note = staged_note name store sid session info in
      (notify_path note ≡ take 1023 name)
      × (notify_store_path note ≡ take 1023 store)
      × (notify_sid note ≡ take 255 sid)
staged_note-reads name store sid session info hn hs hi =
    rw
      (
        clamp_bytes-slot (length name) 1023,
        clamp_bytes-slot (length store) 1023,
        clamp_bytes-slot (length sid) 255,
        ← take-min_left 1023 name,
        ← take-min_left 1023 store,
        ← take-min_left 255 sid,
      )
      (slotted-reads (min (length name) 1023) (min (length store) 1023) (min (length sid) 255) name
        store sid session info (hn, hs, hi))
