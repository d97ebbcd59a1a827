-- ===== src/Tests.antt =====
-- Concrete inputs: the data of the tests, and each theorem applied where its conditions hold.
pub mod Driver
pub mod Config
pub mod Service
pub mod Restore
pub mod Policy
pub mod Land
pub mod Sweep
pub mod Maintain
pub mod Port
pub mod Schema
use recyclebin_svc.Base.{
  ℕ, ◌-◌, Bool, true, false, ◌&&◌, Option, none, some, List, [], ◌∷◌, map, WideString, leb,
  if◌then◌else◌, ◌++◌, replicate,
}
use recyclebin_svc.Base.Wide.{wide, wide_eq}
use recyclebin_svc.Driver.State.{Global, Node, Note, zero_stats, rbf_notify_magic}
use recyclebin_svc.Driver.Kernel.{Kernel}
use recyclebin_svc.Driver.Stage.{FileName, StageEnv}

abbrev pub ascii_upcase : ℕ → ℕ
ascii_upcase c = if leb b'a' c && leb c b'z' then c - 32 else c

abbrev pub exact_kernel : Kernel
exact_kernel = record {
  upcase = ascii_upcase;
  name_in_expression = λ pattern name. wide_eq pattern (map ascii_upcase name);
}

-- A connected client on port 7 and one protected share.
abbrev pub ready : Global
ready = record {
  client_port = some 7;
  queue = [];
  queue_active = true;
  queue_depth = 0;
  max_queue_depth = 0;
  reserved = 0;
  sending = false;
  stats = zero_stats;
  fail_closed = true;
  stage_seq = 0;
  protected = wide "\\D\\V2\\S" ∷ [];
  exclude = wide "X.TMP" ∷ [];
  store_cache = replicate 16 0;
  cache_next = 0;
}

abbrev pub file_a : FileName
file_a = record { path = wide "\\D\\V2\\s\\a"; volume = wide "\\D\\V2"; final_component = wide "a" }

-- Everything succeeds.
abbrev pub fair : StageEnv
fair = record {
  session = some 1;
  name = some file_a;
  name_pool = true;
  sid = record { token_sid = some (wide "S-1"); real_pool = true; fallback_pool = true };
  dir = record { path_pool = true; create_directory = λ p. true };
  path_pool = true;
  rename_pool = true;
  rename = λ p. true;
  note_pool = true;
  standard_info = some (5, 0);
  queue = record { node_alloc = true; between = λ g. g };
}

abbrev pub small_note : Note
small_note = record {
  magic = rbf_notify_magic;
  total_size = 54;
  path_offset = 48;
  path_length = 0;
  store_path_offset = 50;
  store_path_length = 0;
  sid_offset = 52;
  sid_length = 0;
  file_size = 0;
  session_id = 0;
  is_directory = 0;
  payload = 0 ∷ 0 ∷ 0 ∷ [];
}
