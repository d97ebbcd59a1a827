-- ===== src/Service/Quota.antt =====
-- service_c/rbpolicy.c: PolicyEnforceQuota, with the sums of rbdb.c.
pub mod Trim
use recyclebin_svc.Base.{
  ℕ, zero, suc, ◌+◌, ◌-◌, ◌*◌, Bool, true, false, not, ◌&&◌, ◌||◌, List, [], ◌∷◌, WideString, ltb,
  ◌==◌, if◌then◌else◌, filter_by,
}
use recyclebin_svc.Base.Wide.{wide_eq}
use recyclebin_svc.Service.Db.{Item, purged, Table, sql_le, db_set_status}
use recyclebin_svc.Service.Restore.{World, Setup}
use recyclebin_svc.Service.Sid.{sid_equals}
use recyclebin_svc.Service.Policy.{is_landed, store_delete_entry}
use recyclebin_svc.Service.Watermark.{db_list_landed_oldest}

-- RBSVC_QUOTA_ROW
pub record QuotaRow : Type 0 where
  pub sid : WideString
  pub total : ℕ

-- GROUP BY sid: the groups come in the order of their SID.
unfoldable pub add_to_total : WideString → ℕ → List QuotaRow → List QuotaRow
add_to_total sid size [] = record { sid = sid; total = size } ∷ []
add_to_total sid size (q ∷ rows) =
    let rest = add_to_total sid size rows in
    if wide_eq sid q.sid
    then record q { total = q.total + size } ∷ rows
    else if sql_le sid q.sid
    then record { sid = sid; total = size } ∷ q ∷ rows
    else q ∷ rest

unfoldable pub sum_by_sid : List Item → List QuotaRow
sum_by_sid [] = []
sum_by_sid (i ∷ items) = add_to_total i.sid i.file_size (sum_by_sid items)

-- SUM(COALESCE(file_size,0)); the sums are taken to fit 64 bits.
unfoldable pub db_quota_totals : Bool → Table → List QuotaRow
db_quota_totals sql_ok t = if sql_ok then sum_by_sid (filter_by is_landed t.rows) else []

abbrev pub policy_quota_max_per_sid : ℕ
policy_quota_max_per_sid = 4096

module _ {F : Type 0} (setup : Setup F) (remove_directory : F → WideString → F) where
  -- The loop over the listed rows; `over` at 0 stands for one at or below 0. No row is without a SID,
  -- since `DbAddItem` stores a text.
  unfoldable pub trim_quota : Bool → WideString → ℕ → List Item → World F → ℕ × World F
  trim_quota set_ok sid over [] w = (0, w)
  trim_quota set_ok sid over (i ∷ items) w =
      let rest = trim_quota set_ok sid (over - i.file_size) items (record {
        files = store_delete_entry setup remove_directory i w.files;
        table = (db_set_status set_ok i.id purged w.table).1;
      }) in
      let skipped = trim_quota set_ok sid over items w in
      if not (ltb 0 over)
      then (0, w)
      else if not (sid_equals i.sid sid)
      then skipped
      else (suc rest.0, rest.1)

  unfoldable pub trim_each : Bool → Bool → ℕ → List QuotaRow → World F → ℕ × World F
  trim_each list_ok set_ok quota [] w = (0, w)
  trim_each list_ok set_ok quota (q ∷ rows) w =
      let one =
        trim_quota set_ok q.sid (q.total - quota)
          (db_list_landed_oldest list_ok policy_quota_max_per_sid w.table) w in
      let rest = trim_each list_ok set_ok quota rows one.1 in
      let skipped = trim_each list_ok set_ok quota rows w in
      if ltb quota q.total then (one.0 + rest.0, rest.1) else skipped

  unfoldable pub policy_enforce_quota : Bool → Bool → ℕ → World F → ℕ × World F
  policy_enforce_quota list_ok set_ok quota_mb w =
      if quota_mb == 0
      then (0, w)
      else trim_each list_ok set_ok (quota_mb * 1048576) (db_quota_totals list_ok w.table) w
