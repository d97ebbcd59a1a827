-- ===== src/Service/Ops.antt =====
-- service_c/rbdb.c and rbrestore.c: the command queue that the REST service fills, and its drain.
pub mod Finished
use recyclebin_svc.Base.{
  ℕ, zero, suc, Bool, true, false, not, ◌&&◌, Option, none, some, List, [], ◌∷◌, WideString, ltb,
  ◌==◌, if◌then◌else◌, length, take, filter_by,
}
use recyclebin_svc.Base.Wide.{wide, same_text}
use recyclebin_svc.Service.Restore.{
  World, Setup, is_ok, restore_item_by_id, restore_tree_by_prefix, tree_succeeds,
}

pub data OpState : Type 0 where
  pending finished failed_op : OpState

-- RBSVC_OP without its message and preserve_acl, since access lists are not modelled; a NULL text is
-- the empty one.
pub record Op : Type 0 where
  pub id : ℕ
  pub type_name : WideString
  pub item_id : ℕ
  pub arg : WideString
  pub state : OpState

abbrev pub is_pending : Op → Bool
is_pending o = elim o.state [ pending ↦ true | finished ↦ false | failed_op ↦ false ]

-- `DbOpsPending`: the rows are in the order of their id.
unfoldable pub db_ops_pending : Bool → ℕ → List Op → List Op
db_ops_pending sql_ok limit ops =
    if sql_ok then take (if ltb 0 limit then limit else 64) (filter_by is_pending ops) else []

-- UPDATE ops SET state=? WHERE id=?
unfoldable pub set_op_state : ℕ → OpState → List Op → List Op
set_op_state id state [] = []
set_op_state id state (o ∷ ops) =
    let rest = set_op_state id state ops in
    if o.id == id then record o { state = state } ∷ rest else o ∷ rest

unfoldable pub db_op_finish : Bool → ℕ → OpState → List Op → List Op
db_op_finish sql_ok id state ops = if sql_ok then set_op_state id state ops else ops

-- What one op comes to: whether it counts as handled, whether it succeeded, and the world behind it.
pub record Ran (F : Type 0) : Type 0 where
  pub handled : Bool
  pub good : Bool
  pub world : World F

-- The loop body of `RestoreDrainOps`. `stops` is the stop event within a tree restore, `reconcile`
-- the landed sweep of rbconcile.c, none for a sweep that could not run. SQLite answers the restores.
module _ {F : Type 0} (setup : Setup F) (stops : ℕ → Bool)
    (reconcile : World F → Option ℕ × World F) where
  abbrev pub refused : World F → Ran F
  refused w = record { handled = false; good = false; world = w }

  abbrev pub swept : Option ℕ × World F → Ran F
  swept (none, w) = record { handled = true; good = false; world = w }
  swept (some n, w) = record { handled = true; good = true; world = w }

  unfoldable pub run_op : Op → World F → Ran F
  run_op o w =
      let one = restore_item_by_id setup true true o.item_id o.arg w in
      let tree = restore_tree_by_prefix setup stops true true o.arg w in
      if length o.type_name == 0
      then refused w
      else if same_text o.type_name (wide "restore")
      then record { handled = true; good = is_ok one.0; world = one.1 }
      else if same_text o.type_name (wide "restore-tree")
      then if length o.arg == 0
        then refused w
        else record { handled = true; good = tree_succeeds tree.0; world = tree.1 }
      else if same_text o.type_name (wide "reconcile")
      then swept (reconcile w)
      else refused w

  abbrev pub state_of : Ran F → OpState
  state_of r = if r.good then finished else failed_op

  -- Over the fetched ops: the count of handled ones, the `ops` table and the world.
  unfoldable pub drain_each : Bool → List Op → List Op → World F → ℕ × List Op × World F
  drain_each sql_ok [] table w = (0, table, w)
  drain_each sql_ok (o ∷ ops) table w =
      let r = run_op o w in
      let rest = drain_each sql_ok ops (db_op_finish sql_ok o.id (state_of r) table) r.world in
      (if r.handled then suc rest.0 else rest.0, rest.1, rest.2)

  unfoldable pub restore_drain_ops : Bool → List Op → World F → ℕ × List Op × World F
  restore_drain_ops sql_ok table w = drain_each sql_ok (db_ops_pending sql_ok 64 table) table w
