-- ===== src/Driver/Notify.antt =====
-- driver/rbminiflt.c: variable-length notifications, and their payload accessors. Sizes and offsets are
-- bytes, as in the source; the payload is kept as WCHARs behind the 48-byte header.
pub mod Layout
pub mod Slots
pub mod RoundTrip
use recyclebin_svc.Base.{
  ℕ, zero, suc, ◌+◌, ◌-◌, ◌*◌, ◌/◌, ◌%◌, Bool, Option, none, some, List, [], ◌∷◌, ◌++◌, WideString,
  ltb, ◌==◌, if◌then◌else◌, length, take, drop, replicate, min,
}
use recyclebin_svc.Driver.State.{
  Status, success, buffer_overflow, insufficient_resources, Note, rbf_max_path, rbf_max_name,
  rbf_notify_magic, notification_size, rbf_notify_max_size,
}

-- RtlCopyMemory into the payload: WCHARs past its end would be written outside the allocation, and
-- are dropped here; the theorems show that there are none.
unfoldable pub write_at : WideString → ℕ → WideString → WideString
write_at xs i [] = xs
write_at [] i (w ∷ ws) = []
write_at (x ∷ xs) zero (w ∷ ws) = w ∷ write_at xs zero ws
write_at (x ∷ xs) (suc i) (w ∷ ws) = x ∷ write_at xs i (w ∷ ws)

-- The WCHAR index of a byte offset into the notification.
abbrev pub word_index : ℕ → ℕ
word_index offset = (offset - notification_size) / 2

-- The bytes that RbfNotifySetStr copies: a UNICODE_STRING of n WCHARs has Length 2 n.
abbrev pub copy_bytes : ℕ → WideString → ℕ
copy_bytes max_bytes src =
    let bytes = if ltb max_bytes (2 * length src) then max_bytes else 2 * length src in
    bytes - bytes % 2

-- `RbfNotifySetStr` on the payload; a NULL or empty source is the empty string. The result is the
-- payload and the length in bytes.
unfoldable pub notify_set_str : WideString → ℕ → ℕ → WideString → WideString × ℕ
unfolding write_at
notify_set_str payload offset capacity src =
    if ltb capacity 2
    then (payload, 0)
    else let bytes = copy_bytes (capacity - 2) src in
      (write_at payload (word_index offset) (take (bytes / 2) src ++ 0 ∷ []), bytes)

-- min(Bytes, limit), then at least one WCHAR, then whole WCHARs
unfoldable pub clamp_bytes : ℕ → ℕ → ℕ
clamp_bytes bytes limit = let b = min bytes limit in let c = if ltb b 2 then 2 else b in c - c % 2

-- A zeroed allocation with three payload slots of these sizes. With clamped sizes the sum is far
-- below 2^32, so ULONG does not wrap.
abbrev pub fresh_note : ℕ → ℕ → ℕ → Note
fresh_note path store sid = record {
  magic = rbf_notify_magic;
  total_size = notification_size + path + store + sid;
  path_offset = notification_size;
  path_length = 0;
  store_path_offset = notification_size + path;
  store_path_length = 0;
  sid_offset = notification_size + path + store;
  sid_length = 0;
  file_size = 0;
  session_id = 0;
  is_directory = 0;
  payload = replicate ((path + store + sid) / 2) 0;
}

unfoldable pub alloc_notify : ℕ → ℕ → ℕ → Bool → Status × Option Note
alloc_notify path_bytes store_bytes sid_bytes pool_ok =
    let path = clamp_bytes path_bytes (rbf_max_path * 2) in
    let store = clamp_bytes store_bytes (rbf_max_path * 2) in
    let sid = clamp_bytes sid_bytes (rbf_max_name * 2) in
    if ltb rbf_notify_max_size (notification_size + path + store + sid)
    then (buffer_overflow, none)
    else if pool_ok
    then (success, some (fresh_note path store sid))
    else (insufficient_resources, none)

unfoldable pub notify_set_path : Note → WideString → Note
notify_set_path note src =
    let set =
      notify_set_str note.payload note.path_offset (note.store_path_offset - note.path_offset)
        src in
    record note { payload = set.0; path_length = set.1 }

unfoldable pub notify_set_store_path : Note → WideString → Note
notify_set_store_path note src =
    let set =
      notify_set_str note.payload note.store_path_offset (note.sid_offset - note.store_path_offset)
        src in
    record note { payload = set.0; store_path_length = set.1 }

unfoldable pub notify_set_sid : Note → WideString → Note
notify_set_sid note src =
    let set = notify_set_str note.payload note.sid_offset (note.total_size - note.sid_offset) src in
    record note { payload = set.0; sid_length = set.1 }

-- The NUL-terminated string at the start of some WCHARs.
unfoldable pub c_string : WideString → WideString
c_string [] = []
c_string (x ∷ xs) = if x == 0 then [] else x ∷ c_string xs

-- RBF_NOTIFY_PATH, RBF_NOTIFY_STOREPATH and RBF_NOTIFY_SID
unfoldable pub notify_path : Note → WideString
notify_path n = c_string (drop (word_index n.path_offset) n.payload)

unfoldable pub notify_store_path : Note → WideString
notify_store_path n = c_string (drop (word_index n.store_path_offset) n.payload)

unfoldable pub notify_sid : Note → WideString
notify_sid n = c_string (drop (word_index n.sid_offset) n.payload)

-- What step 8 of `RbfStageDelete` does with a fresh notification. `standard_info` is the result of
-- FltQueryInformationFile: EndOfFile and Directory.
unfoldable pub fill_note : WideString → WideString → WideString → ℕ → Option (ℕ × ℕ) → Note → Note
unfolding notify_set_path notify_set_store_path notify_set_sid
fill_note name store sid session standard_info note =
    let n = notify_set_sid (notify_set_store_path (notify_set_path note name) store) sid in
    elim standard_info [
      | none ↦ record n { file_size = 0; session_id = session; is_directory = 0 }
      | some (size, directory) ↦ record n {
        file_size = size;
        session_id = session;
        is_directory = directory;
      }
    ]
