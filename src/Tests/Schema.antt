-- ===== src/Tests/Schema.antt =====
-- service_c/rbdb.c: opening databases.
use recyclebin_svc.Base.{true, false, none, some, [], ◌∷◌, ◌≡◌, List, refl}
use recyclebin_svc.Base.Wide.{wide}
use recyclebin_svc.Service.Ops.{Op, pending}
use recyclebin_svc.Service.Schema.{OpsTable, db_ensure_schema}
use recyclebin_svc.Service.Schema.Migrated.{
  always, at_version, rows_of, Succeeds, db_ensure_schema-IsCurrent, db_ensure_schema-loses,
}

abbrev waiting : List Op
waiting = record { id = 5; type_name = wide "restore"; item_id = 1; arg = []; state = pending } ∷ []

-- A table that does not take 'reconcile' yet.
abbrev old_ops : OpsTable
old_ops = record { takes_reconcile = false; has_preserve_acl = true; rows = waiting }

db_ensure_schema-IsCurrent_example :
    Succeeds waiting (db_ensure_schema always (at_version 1 (some old_ops) none))
db_ensure_schema-IsCurrent_example = db_ensure_schema-IsCurrent (some old_ops) none false refl

db_ensure_schema-loses_example :
    let old : OpsTable = record {
      takes_reconcile = false;
      has_preserve_acl = false;
      rows = waiting;
    } in
    let first = db_ensure_schema always (at_version 1 (some old) (some true)) in
    let second = db_ensure_schema always first.1 in
    (first.0 ≡ false)
    × (second.0 ≡ true)
    × (rows_of second.1.ops ≡ [])
    × (second.1.ops_v1 ≡ some old)
db_ensure_schema-loses_example = db_ensure_schema-loses waiting (some true)
