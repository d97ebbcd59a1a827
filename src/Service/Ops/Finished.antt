-- ===== src/Service/Ops/Finished.antt =====
-- service_c/rbrestore.c: no command runs twice.
use recyclebin_svc.Base.{
  ℕ, ◌≤◌, Bool, true, false, ◌&&◌, Option, List, [], ◌∷◌, ◌≡◌, refl, arith, ◌==◌, length, take,
  filter_by, any, All, length-take,
}
use recyclebin_svc.Service.Restore.{World, Setup}
use recyclebin_svc.Service.Ops.{
  OpState, pending, finished, failed_op, Op, is_pending, db_ops_pending, set_op_state, db_op_finish,
  Ran, run_op, state_of, drain_each, restore_drain_ops,
}

-- The command with this id is waiting.
abbrev pub waits : ℕ → List Op → Bool
waits id ops = any (λ o. o.id == id && is_pending o) ops

abbrev pub is_final : OpState → Bool
is_final pending = false
is_final finished = true
is_final failed_op = true

set_op_state-waits :
    (id : ℕ) (state : OpState) (ops : List Op)
    → is_final state ≡ true
    → waits id (set_op_state id state ops) ≡ false
unfolding set_op_state
set_op_state-waits id state [] final = refl
set_op_state-waits id state (o ∷ ops) final = ground (arith, set_op_state-waits id state ops final)

set_op_state-keeps :
    (id other : ℕ) (state : OpState) (ops : List Op)
    → is_final state ≡ true
    → waits other ops ≡ false
    → waits other (set_op_state id state ops) ≡ false
unfolding set_op_state
set_op_state-keeps id other state [] final h = refl
set_op_state-keeps id other state (o ∷ ops) final h =
    ground (arith, set_op_state-keeps id other state ops final)

state_of-is_final :
    {F : Type 0} (setup : Setup F) (stops : ℕ → Bool) (reconcile : World F → Option ℕ × World F)
    (r : Ran F)
    → is_final (state_of setup stops reconcile r) ≡ true
state_of-is_final setup stops reconcile r = ground arith

module _ {F : Type 0} (setup : Setup F) (stops : ℕ → Bool)
    (reconcile : World F → Option ℕ × World F) where
  drain_each-keeps :
      (other : ℕ) (ops table : List Op) (w : World F)
      → waits other table ≡ false
      → waits other (drain_each setup stops reconcile true ops table w).1 ≡ false
  unfolding drain_each db_op_finish
  drain_each-keeps other [] table w h = h
  drain_each-keeps other (o ∷ ops) table w h =
      let r = run_op setup stops reconcile o w in
      drain_each-keeps other ops (set_op_state o.id (state_of setup stops reconcile r) table)
        r.world
        (set_op_state-keeps o.id other (state_of setup stops reconcile r) table
          (state_of-is_final setup stops reconcile r) h)

  drain_each-finished :
      (ops table : List Op) (w : World F)
      → All (λ o. waits o.id (drain_each setup stops reconcile true ops table w).1 ≡ false) ops
  unfolding drain_each db_op_finish
  drain_each-finished [] table w = tt
  drain_each-finished (o ∷ ops) table w =
      let r = run_op setup stops reconcile o w in
      let next = set_op_state o.id (state_of setup stops reconcile r) table in
      (
        drain_each-keeps o.id ops next r.world (
            set_op_state-waits o.id (state_of setup stops reconcile r) table
              (state_of-is_final setup stops reconcile r)),
        drain_each-finished ops next r.world,
      )

  -- The commands one after the other, each of them once, and where they leave the world.
  unfoldable pub run_each : List Op → World F → World F
  run_each [] w = w
  run_each (o ∷ ops) w = run_each ops (run_op setup stops reconcile o w).world

  drain_each-run_each :
      (sql_ok : Bool) (ops table : List Op) (w : World F)
      → (drain_each setup stops reconcile sql_ok ops table w).2 ≡ run_each ops w
  unfolding drain_each run_each
  drain_each-run_each sql_ok [] table w = refl
  drain_each-run_each sql_ok (o ∷ ops) table w = drain_each-run_each sql_ok ops _ _

  drain_each-handled :
      (sql_ok : Bool) (ops table : List Op) (w : World F)
      → (drain_each setup stops reconcile sql_ok ops table w).0 ≤ length ops
  unfolding drain_each
  drain_each-handled sql_ok [] table w = omega arith
  drain_each-handled sql_ok (o ∷ ops) table w =
      let r = run_op setup stops reconcile o w in
      let ih =
        drain_each-handled sql_ok ops
          (db_op_finish sql_ok o.id (state_of setup stops reconcile r) table) r.world in
      ground arith

  -- A drain of the queue leaves the world as the fetched commands do when each is run once, in their
  -- order. It counts at most 64 of them as handled; none of them is waiting afterwards, whether it
  -- succeeded, failed or was refused; and a command that was not waiting before is not waiting
  -- afterwards. SQLite is taken to run the query and the updates.
  pub restore_drain_ops-finished :
      (table : List Op) (w : World F)
      → let r = restore_drain_ops setup stops reconcile true table w in
        (r.0 ≤ 64)
        × (r.2 ≡ run_each (db_ops_pending true 64 table) w)
        × All (λ o. waits o.id r.1 ≡ false) (db_ops_pending true 64 table)
        × ((other : ℕ) → waits other table ≡ false → waits other r.1 ≡ false)
  unfolding restore_drain_ops db_ops_pending
  restore_drain_ops-finished table w =
      let ops = take 64 (filter_by is_pending table) in
      let few = drain_each-handled true ops table w in
      let most = length-take 64 (filter_by is_pending table) in
      let few_holds : (drain_each setup stops reconcile true ops table w).0 ≤ 64 =
        omega (arith, few, most) in
      (
        few_holds,
        drain_each-run_each true ops table w,
        drain_each-finished ops table w,
        λ other h. drain_each-keeps other ops table w h,
      )
