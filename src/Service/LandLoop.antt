-- ===== src/Service/LandLoop.antt =====
-- service_c/rbservice.c: the landing loop of MaintenancePass, over batches of staged rows.
pub mod Staged
pub mod Progress
pub mod Ends
pub mod Starved
use recyclebin_svc.Base.{
  ℕ, zero, suc, ◌+◌, ◌-◌, ◌*◌, Bool, true, false, not, ◌&&◌, ◌||◌, Option, none, some, List, [],
  ◌∷◌, ◌++◌, WideString, ltb, leb, ◌==◌, if◌then◌else◌, length, take, filter_by,
}
use recyclebin_svc.Base.Wide.{wide}
use recyclebin_svc.Service.Db.{Item, Table, db_reap_terminal_rows}
use recyclebin_svc.Service.Restore.{World, Setup}
use recyclebin_svc.Service.IFile.{IFiles}
use recyclebin_svc.Service.Land.{LandEnv, store_land_item}
use recyclebin_svc.Service.Ops.{Op, restore_drain_ops}
use recyclebin_svc.Service.Policy.{is_staged, policy_purge_expired}
use recyclebin_svc.Service.Watermark.{sort_oldest, policy_disk_watermark}
use recyclebin_svc.Service.Quota.{policy_enforce_quota}
use recyclebin_svc.Service.Sweep.{Entries, ReconStats, reconcile_staging}
use recyclebin_svc.Service.Reconcile.{reconcile_landed}
use recyclebin_svc.Service.Session.{SessionTable, SessionEnum, session_refresh}
use recyclebin_svc.Service.Config.{Config, def_staged_batch}

unfoldable pub db_list_staged : Bool → ℕ → Table → List Item
db_list_staged sql_ok limit t =
    if sql_ok
    then take (if ltb 0 limit then limit else 500) (sort_oldest (filter_by is_staged t.rows))
    else []

-- How a run over rows, and the loop over the batches, comes to its end.
pub data RunEnd : Type 0 where
  drained stopped out_of_fuel : RunEnd

pub record LandRun (F : Type 0) : Type 0 where
  pub end : RunEnd
  pub tried : ℕ
  pub landed : ℕ
  pub world : World F

-- `stops n` says that the stop event is set when `n` rows have been tried, `clock n` what landing the
-- next one finds.
module _ {F : Type 0} (setup : Setup F) (i_files : IFiles F) (stops : ℕ → Bool)
    (clock : ℕ → LandEnv) (list_ok set_ok : Bool) where
  unfoldable pub land_items : List Item → ℕ → ℕ → World F → LandRun F
  land_items [] tried landed w = record { end = drained; tried = tried; landed = landed; world = w }
  land_items (i ∷ items) tried landed w =
      let one = store_land_item setup i_files (clock tried) set_ok i w in
      let rest = land_items items (suc tried) (if one.0 then suc landed else landed) one.1 in
      if stops tried
      then record { end = stopped; tried = tried; landed = landed; world = w }
      else rest

  abbrev pub after_batch : (LandRun F → LandRun F) → Bool → LandRun F → LandRun F
  after_batch next full r =
      let again = next r in
      elim r.end as (λ _. LandRun F) [
        | drained ↦ if full then again else r
        | stopped ↦ r
        | out_of_fuel ↦ r
      ]

  -- One round, `next` being the rounds after it.
  unfoldable pub land_batch : (LandRun F → LandRun F) → ℕ → List Item → ℕ → ℕ → World F → LandRun F
  land_batch next batch [] tried landed w = record {
    end = drained;
    tried = tried;
    landed = landed;
    world = w;
  }
  land_batch next batch (i ∷ items) tried landed w =
      after_batch next (not (ltb (length (i ∷ items)) batch))
        (land_items (i ∷ items) tried landed w)

  -- The loop over the batches, on fuel.
  unfoldable pub land_loop : ℕ → ℕ → ℕ → ℕ → World F → LandRun F
  land_loop zero batch tried landed w = record {
    end = out_of_fuel;
    tried = tried;
    landed = landed;
    world = w;
  }
  land_loop (suc fuel) batch tried landed w =
      land_batch (λ r. land_loop fuel batch r.tried r.landed r.world) batch
        (db_list_staged list_ok batch w.table) tried landed w
