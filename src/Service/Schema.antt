-- ===== src/Service/Schema.antt =====
-- service_c/rbdb.c: what opening the database does to its tables.
pub mod Migrated
use recyclebin_svc.Base.{
  ℕ, Bool, true, false, not, ◌&&◌, ◌||◌, Option, none, some, List, [], ◌++◌, ◌==◌, if◌then◌else◌,
}
use recyclebin_svc.Service.Ops.{Op}

-- A table `ops`: whether the stored text of its creation has 'reconcile', whether it has the column
-- preserve_acl, and its rows.
pub record OpsTable : Type 0 where
  pub takes_reconcile : Bool
  pub has_preserve_acl : Bool
  pub rows : List Op

-- The database as far as the migrations go: PRAGMA user_version, the two tables of ops, and of
-- driver_stats whether it has protected_count.
pub record Schema : Type 0 where
  pub version : ℕ
  pub ops : Option OpsTable
  pub ops_v1 : Option OpsTable
  pub driver_stats : Option Bool

abbrev pub rb_schema_version : ℕ
rb_schema_version = 1

-- The statements that change the database, in the order of the source.
pub data Statement : Type 0 where
  rename_ops create_again copy_ops drop_ops create_all add_protected_count add_preserve_acl
        write_version :
      Statement

-- `accepts` says that SQLite carries a statement out, where the tables it names allow it. Each gives
-- whether it worked, and the database.
module _ (accepts : Statement → Bool) where
  abbrev pub attempt_one : Statement → Schema → Schema → Bool × Schema
  attempt_one st before after = if accepts st then (true, after) else (false, before)

  abbrev pub exec_rename : Schema → Option OpsTable → Option OpsTable → Bool × Schema
  exec_rename s (some t) none = attempt_one rename_ops s (record s { ops = none; ops_v1 = some t })
  exec_rename s none _ = (false, s)
  exec_rename s (some _) (some _) = (false, s)

  abbrev pub created_ops : Option OpsTable → OpsTable
  created_ops none = record { takes_reconcile = true; has_preserve_acl = true; rows = [] }
  created_ops (some t) = t

  abbrev pub created_stats : Option Bool → Bool
  created_stats none = true
  created_stats (some b) = b

  -- kSchema creates what is not there.
  abbrev pub exec_schema : Statement → Schema → Bool × Schema
  exec_schema st s = attempt_one st s (record s {
    ops = some (created_ops s.ops);
    driver_stats = some (created_stats s.driver_stats);
  })

  -- INSERT INTO ops(…) SELECT … FROM ops_v1, which names preserve_acl in both.
  abbrev pub exec_copy : Schema → Option OpsTable → Option OpsTable → Bool × Schema
  exec_copy s (some t) (some old) =
      if t.has_preserve_acl && old.has_preserve_acl
      then attempt_one copy_ops s (record s { ops = some (record t { rows = t.rows ++ old.rows }) })
      else (false, s)
  exec_copy s none _ = (false, s)
  exec_copy s (some _) none = (false, s)

  abbrev pub exec_drop : Schema → Bool × Schema
  exec_drop s = attempt_one drop_ops s (record s { ops_v1 = none })

  -- `&&` on the results, the later statement on what the former left.
  abbrev pub and_then : Bool × Schema → (Schema → Bool × Schema) → Bool × Schema
  and_then r next = let n = next r.1 in if r.0 then n else r

  unfoldable pub rebuild_ops : Schema → Bool × Schema
  rebuild_ops s =
      and_then
        (and_then (and_then (exec_rename s s.ops s.ops_v1) (exec_schema create_again))
          (λ t. exec_copy t t.ops t.ops_v1))
        exec_drop

  -- `DbMigrateOpsTypeCheck`
  unfoldable pub db_migrate_ops_type_check : Option OpsTable → Schema → Bool × Schema
  db_migrate_ops_type_check none s = (true, s)
  db_migrate_ops_type_check (some t) s =
      let r = rebuild_ops s in if t.takes_reconcile then (true, s) else r

  -- `DbEnsureColumn` for driver_stats.protected_count and ops.preserve_acl
  abbrev pub ensure_protected_count : Schema → Option Bool → Bool × Schema
  ensure_protected_count s (some true) = (true, s)
  ensure_protected_count s (some false) =
      attempt_one add_protected_count s (record s { driver_stats = some true })
  ensure_protected_count s none = (false, s)

  abbrev pub ensure_preserve_acl : Schema → Option OpsTable → Bool × Schema
  ensure_preserve_acl s none = (false, s)
  ensure_preserve_acl s (some t) =
      if t.has_preserve_acl
      then (true, s)
      else attempt_one add_preserve_acl s
          (record s { ops = some (record t { has_preserve_acl = true }) })

  abbrev pub stamp : ℕ → Schema → Bool × Schema
  stamp ver s =
      if ver == 0
      then attempt_one write_version s (record s { version = rb_schema_version })
      else (true, s)

  unfoldable pub db_ensure_schema : Schema → Bool × Schema
  db_ensure_schema s =
      let healed =
        and_then
          (and_then
            (and_then (and_then (db_migrate_ops_type_check s.ops s) (exec_schema create_all))
              (λ t. ensure_protected_count t t.driver_stats))
            (λ t. ensure_preserve_acl t t.ops))
          (stamp s.version) in
      if not (s.version == 0) && not (s.version == rb_schema_version) then (false, s) else healed
