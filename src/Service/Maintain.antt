-- ===== src/Service/Maintain.antt =====
-- service_c/rbservice.c: MaintenancePass, what one pass of the maintenance thread does in which order.
pub mod Pass
use recyclebin_svc.Base.{
  ℕ, zero, suc, ◌+◌, ◌-◌, ◌*◌, Bool, true, false, not, ◌&&◌, ◌||◌, Option, none, some, List, [],
  ◌∷◌, ◌++◌, WideString, ltb, leb, ◌==◌, if◌then◌else◌, length, take, filter_by,
}
use recyclebin_svc.Base.Wide.{wide}
use recyclebin_svc.Service.Db.{Item, Table, db_reap_terminal_rows}
use recyclebin_svc.Service.Restore.{World, Setup}
use recyclebin_svc.Service.IFile.{IFiles}
use recyclebin_svc.Service.Land.{LandEnv, store_land_item}
use recyclebin_svc.Service.Ops.{Op, restore_drain_ops}
use recyclebin_svc.Service.Policy.{is_staged, policy_purge_expired}
use recyclebin_svc.Service.Watermark.{sort_oldest, policy_disk_watermark}
use recyclebin_svc.Service.Quota.{policy_enforce_quota}
use recyclebin_svc.Service.Sweep.{Entries, ReconStats, reconcile_staging}
use recyclebin_svc.Service.Reconcile.{reconcile_landed}
use recyclebin_svc.Service.Session.{SessionTable, SessionEnum, session_refresh}
use recyclebin_svc.Service.Config.{Config, def_staged_batch}
use recyclebin_svc.Service.LandLoop.{
  db_list_staged, RunEnd, drained, stopped, out_of_fuel, LandRun, land_items, land_batch, land_loop,
}

abbrev pub rbsvc_recon_interval : ℕ
rbsvc_recon_interval = 3600

abbrev pub rbsvc_backup_interval : ℕ
rbsvc_backup_interval = 86400

-- What DbCheckIntegrity answers.
pub data Health : Type 0 where
  healthy corrupt unchecked : Health

-- The text of _snwprintf_s into MAX_PATH WCHARs, for `DbBackupTo`.
abbrev pub backup_path : WideString → Option WideString
backup_path root =
    let s = root ++ wide "\\recycle.db.bak" in if ltb (length s) 260 then some s else none

-- `g_LastBackup` behind a backup that is due. `copies` says whether `DbBackupTo` works. The last line of
-- the step is cut off at 0 here, where `now` is less than a day after 1970.
abbrev pub copied : (WideString → Bool) → ℕ → ℕ → Option WideString → ℕ
copied copies now last none = last
copied copies now last (some path) = if copies path then now else last

abbrev pub attempt : Health → (WideString → Bool) → WideString → ℕ → ℕ → ℕ
attempt healthy copies root now last = copied copies now last (backup_path root)
attempt corrupt copies root now last = last
attempt unchecked copies root now last = last

unfoldable pub backup_step : Health → (WideString → Bool) → WideString → ℕ → ℕ → ℕ
backup_step health copies root now last =
    let after = attempt health copies root now last in
    if leb (last + rbsvc_backup_interval) now
    then if after == 0 then now + rbsvc_recon_interval - rbsvc_backup_interval else after
    else last

-- What the threads of the service keep between passes.
pub record Service (F : Type 0) : Type 0 where
  pub world : World F
  pub ops : List Op
  pub sessions : SessionTable
  pub last_reconcile : ℕ
  pub last_backup : ℕ

-- What a pass asks of Windows and of SQLite. Of the statements of one pass, the queries have one answer,
-- the updates of `items` another, and so do the updates of `ops`; the batches of the reaper,
-- what they ask and the times that they read are told apart.
pub record PassEnv (F : Type 0) : Type 0 where
  pub list_ok : Bool
  pub set_ok : Bool
  pub ops_ok : Bool
  pub reap_ok : ℕ → Bool
  pub reap_now : ℕ → ℕ
  pub now : ℕ
  pub stops : ℕ → Bool
  pub tree_stops : ℕ → Bool
  pub clock : ℕ → LandEnv
  pub root_there : Bool
  pub tree : Entries
  pub enumerated : SessionEnum
  pub health : Health
  pub copies : WideString → Bool

-- The calls into Windows that the parts take.
pub record Calls (F : Type 0) : Type 0 where
  pub i_files : IFiles F
  pub list_dir : F → WideString → Option (List WideString)
  pub remove_directory : F → WideString → F
  pub disk_free : F → WideString → Option ℕ
  pub delete_file : F → WideString → Option F

module _ {F : Type 0} (setup : Setup F) (calls : Calls F) (cfg : Config) (env : PassEnv F) where
  -- Retention, watermark and quota.
  unfoldable pub run_policies : World F → World F
  run_policies w =
      let purged =
        (policy_purge_expired setup calls.remove_directory env.list_ok env.set_ok env.now
          cfg.retention_days w).1 in
      let freed =
        (policy_disk_watermark setup calls.remove_directory calls.disk_free env.list_ok env.set_ok
          cfg.disk_free_min_mb cfg.store_root cfg.protected_paths purged).1 in
      (policy_enforce_quota setup calls.remove_directory env.list_ok env.set_ok cfg.quota_mb
        freed).1

  -- The orphan sweep and the reaper, once an hour.
  unfoldable pub housekeep : Service F → Service F
  housekeep s =
      let files =
        (reconcile_staging setup.volumes calls.delete_file env.now cfg.orphan_grace_days env.list_ok
          s.world.table cfg.store_root env.root_there env.tree s.world.files).1 in
      let table =
        (db_reap_terminal_rows env.reap_ok env.reap_now cfg.terminal_keep_days s.world.table).1 in
      if leb (s.last_reconcile + rbsvc_recon_interval) env.now
      then record s { world = record { files = files; table = table }; last_reconcile = env.now }
      else s

  unfoldable pub refresh_and_backup : Service F → Service F
  refresh_and_backup s = record s {
    sessions = session_refresh env.enumerated s.sessions;
    last_backup = backup_step env.health env.copies cfg.store_root env.now s.last_backup;
  }

  -- The landed sweep as an op of the queue asks for it. A listing that fails counts as an empty one.
  abbrev pub sweep_landed : World F → Option ℕ × World F
  sweep_landed w =
      let r = reconcile_landed setup calls.list_dir env.list_ok env.set_ok w in (some r.0, r.1)

  unfoldable pub drain_if : Bool → Service F → Service F
  drain_if drain s =
      let r = restore_drain_ops setup env.tree_stops sweep_landed env.ops_ok s.ops s.world in
      if drain then record s { ops = r.1; world = r.2 } else s

  -- The DWORD as an int, the default where that is not positive.
  abbrev pub batch_of : ℕ → ℕ
  batch_of n = if n == 0 || leb 2147483648 n then def_staged_batch else n

  unfoldable pub after_landing : Bool → Service F → LandRun F → Service F
  after_landing drain s r =
      let at_landing = record s { world = r.world } in
      let drained_ops = drain_if drain at_landing in
      let rest =
        refresh_and_backup
          (housekeep (record drained_ops { world = run_policies drained_ops.world })) in
      elim r.end as (λ _. Service F) [
        | drained ↦ rest
        | stopped ↦ at_landing
        | out_of_fuel ↦ at_landing
      ]

  -- `MaintenancePass`, its first loop on fuel.
  unfoldable pub maintenance_pass : ℕ → Bool → Service F → Service F
  maintenance_pass fuel drain s = after_landing drain s (
      land_loop setup calls.i_files env.stops env.clock env.list_ok env.set_ok fuel
        (batch_of cfg.staged_batch) 0 0 s.world)
