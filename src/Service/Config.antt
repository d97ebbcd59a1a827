-- ===== src/Service/Config.antt =====
-- service_c/rbconfig.c: the service's settings from the registry, and their reload.
pub mod Reload
pub mod Strings
use recyclebin_svc.Base.{
  ℕ, zero, suc, ◌-◌, Bool, true, false, Option, none, some, List, [], ◌∷◌, WideString, ◌==◌,
  if◌then◌else◌, length, take,
}
use recyclebin_svc.Base.Wide.{wide}
use recyclebin_svc.Service.Db.{def_terminal_keep_days}

-- RBSVC_CONFIG; ProtectedCount is the length of the list.
pub record Config : Type 0 where
  pub store_root : WideString
  pub port_name : WideString
  pub protected_paths : List WideString
  pub quota_mb : ℕ
  pub retention_days : ℕ
  pub disk_free_min_mb : ℕ
  pub staged_batch : ℕ
  pub orphan_grace_days : ℕ
  pub terminal_keep_days : ℕ

abbrev pub def_store_root : WideString
def_store_root = wide "C:\\RBStore"

abbrev pub def_port_name : WideString
def_port_name = wide "\\RecycleBinPort"

abbrev pub def_protected : WideString
def_protected = wide "D:\\Share"

abbrev pub def_staged_batch : ℕ
def_staged_batch = 500

-- The opened key: a REG_DWORD, the text of a REG_SZ or REG_EXPAND_SZ that fits the buffer of so many
-- WCHARs, or the units of a REG_MULTI_SZ with its NULs; none where Windows gives another type or an
-- error.
pub record RegKey : Type 0 where
  pub dword : WideString → Option ℕ
  pub text : WideString → ℕ → Option WideString
  pub multi : WideString → Option WideString

abbrev pub or_default : {A : Type 0} → Option A → A → A
or_default none d = d
or_default (some a) d = a

-- `RegReadDword` and `RegReadString`, which ends the text in its last WCHAR.
abbrev pub reg_read_dword : RegKey → WideString → ℕ → ℕ
reg_read_dword key name def = or_default (key.dword name) def

abbrev pub reg_read_string : RegKey → WideString → ℕ → WideString → WideString
reg_read_string key name cch def = take (cch - 1) (or_default (key.text name cch) def)

-- The string up to a NUL, and what follows it.
unfoldable pub first_string : WideString → WideString × WideString
first_string [] = ([], [])
first_string (c ∷ s) = let rest = first_string s in if c == 0 then ([], s) else (c ∷ rest.0, rest.1)

-- The walk up to an empty string, on fuel; the end of the value stands for one.
unfoldable pub split_strings : ℕ → WideString → List WideString
split_strings zero blob = []
split_strings (suc fuel) blob =
    let one = first_string blob in
    let rest = split_strings fuel one.1 in if length one.0 == 0 then [] else one.0 ∷ rest

abbrev pub reg_read_multi_sz : Option WideString → List WideString
reg_read_multi_sz none = []
reg_read_multi_sz (some blob) = split_strings (length blob) blob

abbrev pub protected_or_default : List WideString → List WideString
protected_or_default [] = def_protected ∷ []
protected_or_default (p ∷ ps) = p ∷ ps

-- No key is one that cannot be opened.
unfoldable pub config_load : Option RegKey → Config
config_load none = record {
  store_root = def_store_root;
  port_name = def_port_name;
  protected_paths = def_protected ∷ [];
  quota_mb = 5120;
  retention_days = 30;
  disk_free_min_mb = 5120;
  staged_batch = def_staged_batch;
  orphan_grace_days = 7;
  terminal_keep_days = def_terminal_keep_days;
}
config_load (some key) = record {
  store_root = reg_read_string key (wide "StoreRoot") 260 def_store_root;
  port_name = reg_read_string key (wide "PortName") 128 def_port_name;
  protected_paths = protected_or_default (reg_read_multi_sz (key.multi (wide "ProtectedPaths")));
  quota_mb = reg_read_dword key (wide "QuotaMB") 5120;
  retention_days = reg_read_dword key (wide "RetentionDays") 30;
  disk_free_min_mb = reg_read_dword key (wide "DiskFreeMinMB") 5120;
  staged_batch = reg_read_dword key (wide "StagedBatch") def_staged_batch;
  orphan_grace_days = reg_read_dword key (wide "OrphanGraceDays") 7;
  terminal_keep_days = reg_read_dword key (wide "TerminalKeepDays") def_terminal_keep_days;
}

-- `ReloadConfig`: whether the new settings were adopted, and those in force.
unfoldable pub reload_config : Option RegKey → Config → Bool × Config
reload_config key old =
    let next = config_load key in
    if next.retention_days == 0
    then (false, old)
    else if length next.store_root == 0
    then (false, old)
    else (true, next)
