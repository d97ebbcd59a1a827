-- ===== src/Service/Schema/Migrated.antt =====
-- service_c/rbdb.c: what a database is after it was opened, and what becomes of the ops of an old one.
use recyclebin_svc.Base.{
  ℕ, Bool, true, false, not, ◌&&◌, ◌||◌, Option, none, some, List, [], ◌==◌, ◌≡◌, ◌≢◌, refl, sym,
  subst, arith, if◌then◌else◌, if-cases,
}
use recyclebin_svc.Service.Ops.{Op}
use recyclebin_svc.Service.Schema.{
  OpsTable, Schema, rb_schema_version, Statement, rebuild_ops, db_migrate_ops_type_check,
  db_ensure_schema,
}

abbrev pub rows_of : Option OpsTable → List Op
rows_of none = []
rows_of (some t) = t.rows

-- A database that this build works on.
pub record IsCurrent (s : Schema) : Type 0 where
  pub version : s.version ≡ rb_schema_version
  pub ops : OpsTable
  pub there : s.ops ≡ some ops
  pub reconcile : ops.takes_reconcile ≡ true
  pub preserve : ops.has_preserve_acl ≡ true
  pub stats : s.driver_stats ≡ some true

abbrev pub always : Statement → Bool
always st = true

-- A table of ops that is migrated without loss: one that takes 'reconcile', or has preserve_acl.
abbrev pub CanMigrate : Option OpsTable → Type 0
CanMigrate none = Unit
CanMigrate (some t) = (t.takes_reconcile || t.has_preserve_acl) ≡ true

abbrev current : List Op → Schema
current rows = record {
  version = 1;
  ops = some (record { takes_reconcile = true; has_preserve_acl = true; rows = rows });
  ops_v1 = none;
  driver_stats = some true;
}

abbrev pub at_version : ℕ → Option OpsTable → Option Bool → Schema
at_version v ops stats = record { version = v; ops = ops; ops_v1 = none; driver_stats = stats }

-- Both versions, for any driver_stats.
abbrev Opens : Option OpsTable → Type 0
Opens ops =
    (stats : Option Bool)
    → (db_ensure_schema always (at_version 0 ops stats) ≡ (true, current (rows_of ops)))
      × (db_ensure_schema always (at_version 1 ops stats) ≡ (true, current (rows_of ops)))

opens :
    (takes has : Bool) (rows : List Op)
    → (takes || has) ≡ true
    → Opens (some (record { takes_reconcile = takes; has_preserve_acl = has; rows = rows }))
unfolding db_ensure_schema db_migrate_ops_type_check rebuild_ops
opens true true rows can none = (refl, refl)
opens true true rows can (some true) = (refl, refl)
opens true true rows can (some false) = (refl, refl)
opens true false rows can none = (refl, refl)
opens true false rows can (some true) = (refl, refl)
opens true false rows can (some false) = (refl, refl)
opens false true rows can none = (refl, refl)
opens false true rows can (some true) = (refl, refl)
opens false true rows can (some false) = (refl, refl)
opens false false rows can stats = absurd (ground (arith, can))

opens_any : (ops : Option OpsTable) → CanMigrate ops → Opens ops
unfolding db_ensure_schema db_migrate_ops_type_check
opens_any (some t) can stats = opens t.takes_reconcile t.has_preserve_acl t.rows can stats
opens_any none can none = (refl, refl)
opens_any none can (some true) = (refl, refl)
opens_any none can (some false) = (refl, refl)

abbrev pub Succeeds : List Op → Bool × Schema → Type 0
Succeeds rows r = (r.0 ≡ true) × IsCurrent r.1 × (rows_of r.1.ops ≡ rows) × (r.1.ops_v1 ≡ none)

current-IsCurrent : (rows : List Op) → Succeeds rows (true, current rows)
current-IsCurrent rows = (
  refl,
  record { version = refl; ops = _; there = refl; reconcile = refl; preserve = refl; stats = refl },
  refl,
  refl,
)

-- Opened with every statement carried out, a database that is new or of this build's version, with no
-- ops_v1 left in it, comes to what this build works on, with the ops that it had. A table of ops that
-- does not take 'reconcile' is taken to have preserve_acl.
pub db_ensure_schema-IsCurrent :
    (ops : Option OpsTable) (stats : Option Bool) (fresh : Bool)
    → CanMigrate ops
    → Succeeds
        (rows_of ops)
        (db_ensure_schema always (at_version (if fresh then 0 else 1) ops stats))
db_ensure_schema-IsCurrent ops stats true can =
    subst (Succeeds (rows_of ops)) (sym (opens_any ops can stats).0)
      (current-IsCurrent (rows_of ops))
db_ensure_schema-IsCurrent ops stats false can =
    subst (Succeeds (rows_of ops)) (sym (opens_any ops can stats).1)
      (current-IsCurrent (rows_of ops))

-- A database of another version is refused, and left as it is.
db_ensure_schema-refused :
    (accepts : Statement → Bool) (s : Schema)
    → s.version ≢ 0
    → s.version ≢ 1
    → db_ensure_schema accepts s ≡ (false, s)
unfolding db_ensure_schema
db_ensure_schema-refused accepts s a b =
    if-cases (λ (r : Bool × Schema). r ≡ (false, s)) (not (s.version == 0) && not (s.version == 1))
      (false, s) _ (λ _. refl) (λ e. absurd (ground (arith, a, b, e)))

-- An old table of ops, without 'reconcile' and without preserve_acl, is lost: opening the database
-- fails at the copy, with the table renamed, and opening it again works, on a table of ops with no rows.
pub db_ensure_schema-loses :
    (rows : List Op) (stats : Option Bool)
    → let old : OpsTable = record {
      takes_reconcile = false;
      has_preserve_acl = false;
      rows = rows;
    } in
      let first =
        db_ensure_schema always
          (record { version = 1; ops = some old; ops_v1 = none; driver_stats = stats }) in
      let second = db_ensure_schema always first.1 in
      (first.0 ≡ false)
      × (second.0 ≡ true)
      × (rows_of second.1.ops ≡ [])
      × (second.1.ops_v1 ≡ some old)
unfolding db_ensure_schema db_migrate_ops_type_check rebuild_ops
db_ensure_schema-loses rows none = (refl, refl, refl, refl)
db_ensure_schema-loses rows (some true) = (refl, refl, refl, refl)
db_ensure_schema-loses rows (some false) = (refl, refl, refl, refl)
