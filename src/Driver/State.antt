-- ===== src/Driver/State.antt =====
-- The data of driver/rbminiflt.h: notifications, statistics and the global state `G`.
use recyclebin_svc.Base.{ℕ, Bool, true, false, List, [], Option, none, WideString, replicate}

-- NTSTATUS, the values that the driver returns
pub data Status : Type 0 where
  success invalid_parameter device_not_ready port_disconnected insufficient_resources : Status
  buffer_overflow buffer_too_small invalid_device_request access_denied failure : Status

-- RBF_NOTIFICATION: the header, and behind it the payload as its WCHARs
pub record Note : Type 0 where
  pub magic : ℕ
  pub total_size : ℕ
  pub path_offset : ℕ
  pub path_length : ℕ
  pub store_path_offset : ℕ
  pub store_path_length : ℕ
  pub sid_offset : ℕ
  pub sid_length : ℕ
  pub file_size : ℕ
  pub session_id : ℕ
  pub is_directory : ℕ
  pub payload : WideString

-- RBF_STATS
pub record Stats : Type 0 where
  pub intercepts : ℕ
  pub rename_ok : ℕ
  pub rename_fail : ℕ
  pub notify_sent : ℕ
  pub notify_dropped : ℕ
  pub notify_queue_full : ℕ
  pub delete_denied : ℕ
  pub queue_depth : ℕ
  pub max_queue_depth : ℕ
  pub protected_count : ℕ

-- RBF_NOTIFY_NODE; a port is the number that stands for its PFLT_PORT
pub record Node : Type 0 where
  pub port : ℕ
  pub size : ℕ
  pub notification : Note

-- RBF_GLOBAL, with the fingerprint cache `G_StoreCache` and its round-robin counter `sNext`.
-- `queue` is `NotifyQueue`, its head first.
pub record Global : Type 0 where
  pub client_port : Option ℕ
  pub queue : List Node
  pub queue_active : Bool
  pub queue_depth : ℕ
  pub max_queue_depth : ℕ
  pub reserved : ℕ
  pub sending : Bool
  pub stats : Stats
  pub fail_closed : Bool
  pub stage_seq : ℕ
  pub protected : List WideString
  pub exclude : List WideString
  pub store_cache : List ℕ
  pub cache_next : ℕ

abbrev pub rbf_max_path : ℕ
rbf_max_path = 1024

abbrev pub rbf_max_name : ℕ
rbf_max_name = 256

abbrev pub rbf_max_protected : ℕ
rbf_max_protected = 16

abbrev pub rbf_max_exclude : ℕ
rbf_max_exclude = 16

abbrev pub rbf_queue_max : ℕ
rbf_queue_max = 512

abbrev pub rbf_notify_magic : ℕ
rbf_notify_magic = 0x52424654

-- sizeof(RBF_NOTIFICATION), packed
abbrev pub notification_size : ℕ
notification_size = 48

abbrev pub rbf_notify_max_size : ℕ
rbf_notify_max_size = 4656

-- sizeof(RBF_STATS) and sizeof(RBF_REPLY)
abbrev pub stats_size : ℕ
stats_size = 68

abbrev pub reply_size : ℕ
reply_size = 4

abbrev pub rbf_cmd_query_stats : ℕ
rbf_cmd_query_stats = 1

abbrev pub zero_stats : Stats
zero_stats = record {
  intercepts = 0;
  rename_ok = 0;
  rename_fail = 0;
  notify_sent = 0;
  notify_dropped = 0;
  notify_queue_full = 0;
  delete_denied = 0;
  queue_depth = 0;
  max_queue_depth = 0;
  protected_count = 0;
}

abbrev pub rbf_store_cache_size : ℕ
rbf_store_cache_size = 16

-- `G` as `DriverEntry` leaves it before `RbfLoadConfig`
unfoldable pub entry_global : Global
entry_global = record {
  client_port = none;
  queue = [];
  queue_active = true;
  queue_depth = 0;
  max_queue_depth = 0;
  reserved = 0;
  sending = false;
  stats = zero_stats;
  fail_closed = true;
  stage_seq = 0;
  protected = [];
  exclude = [];
  store_cache = replicate rbf_store_cache_size 0;
  cache_next = 0;
}
