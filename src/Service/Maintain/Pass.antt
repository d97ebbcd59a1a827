-- ===== src/Service/Maintain/Pass.antt =====
-- service_c/rbservice.c: what a pass does once the service is stopping, what it leaves to the ops
-- thread, and when the next backup is due.
use recyclebin_svc.Base.{
  ℕ, suc, ◌+◌, ◌-◌, ◌<◌, ◌≤◌, Bool, true, false, Option, none, some, List, [], ◌∷◌, ◌≡◌, ◌⊎◌, inl,
  inr, refl, ap, arith, WideString, leb, ◌==◌, length, if◌then◌else◌, if-cases,
}
use recyclebin_svc.Service.Db.{Item}
use recyclebin_svc.Service.Restore.{World, Setup}
use recyclebin_svc.Service.Config.{Config}
use recyclebin_svc.Service.LandLoop.{
  db_list_staged, RunEnd, drained, stopped, out_of_fuel, LandRun, land_items, land_batch, land_loop,
}
use recyclebin_svc.Service.Maintain.{
  Service, PassEnv, Calls, housekeep, refresh_and_backup, drain_if, batch_of, after_landing,
  maintenance_pass, Health, healthy, corrupt, unchecked, backup_path, copied, attempt, backup_step,
  rbsvc_backup_interval, rbsvc_recon_interval,
}

module _ {F : Type 0} (setup : Setup F) (calls : Calls F) (cfg : Config) (env : PassEnv F) where
  land_batch-stopped :
      (next : LandRun F → LandRun F) (batch : ℕ) (items : List Item) (tried landed : ℕ)
      (w : World F)
      → env.stops tried ≡ true
      → 0 < length items
      → land_batch setup calls.i_files env.stops env.clock env.list_ok env.set_ok next batch items
          tried landed w
        ≡ record { end = stopped; tried = tried; landed = landed; world = w }
  unfolding land_batch land_items
  land_batch-stopped next batch [] tried landed w stop long = absurd (omega (arith, long))
  land_batch-stopped next batch (i ∷ items) tried landed w stop long = rw stop refl

  land_loop-stopped :
      (fuel batch tried landed : ℕ) (w : World F)
      → env.stops tried ≡ true
      → 0 < length (db_list_staged env.list_ok batch w.table)
      → land_loop setup calls.i_files env.stops env.clock env.list_ok env.set_ok
          (suc fuel)
          batch
          tried
          landed
          w
        ≡ record { end = stopped; tried = tried; landed = landed; world = w }
  unfolding land_loop
  land_loop-stopped fuel batch tried landed w = land_batch-stopped _ batch _ tried landed w

  after_landing-ops :
      (s : Service F) (e : RunEnd) (tried landed : ℕ) (w : World F)
      → (after_landing setup calls cfg env false s
          (record { end = e; tried = tried; landed = landed; world = w })).ops
        ≡ s.ops
  unfolding after_landing refresh_and_backup housekeep drain_if
  after_landing-ops s drained tried landed w =
      if-cases (λ (r : Service F). r.ops ≡ s.ops)
        (leb (s.last_reconcile + rbsvc_recon_interval) env.now) _ _ (λ _. refl) (λ _. refl)
  after_landing-ops s stopped tried landed w = refl
  after_landing-ops s out_of_fuel tried landed w = refl

  -- A pass made while the service runs leaves the `ops` table to the ops thread, whatever it does.
  maintenance_pass-ops :
      (fuel : ℕ) (s : Service F) → (maintenance_pass setup calls cfg env fuel false s).ops ≡ s.ops
  unfolding maintenance_pass
  maintenance_pass-ops fuel s =
      let r =
        land_loop setup calls.i_files env.stops env.clock env.list_ok env.set_ok fuel
          (batch_of setup calls cfg env cfg.staged_batch) 0 0 s.world in
      after_landing-ops s r.end r.tried r.landed r.world

  -- A pass with the stop event set, the one of the shutdown among them, that finds a staged row does
  -- nothing: it lands no file, serves no op and applies no policy.
  pub maintenance_pass-stopped :
      (fuel : ℕ) (drain : Bool) (s : Service F)
      → env.stops 0 ≡ true
      → 0
        < length (
            db_list_staged env.list_ok
              (batch_of setup calls cfg env cfg.staged_batch)
              s.world.table)
      → maintenance_pass setup calls cfg env (suc fuel) drain s ≡ s
  unfolding maintenance_pass after_landing
  maintenance_pass-stopped fuel drain s stop some_staged =
      ap (after_landing setup calls cfg env drain s)
        (land_loop-stopped fuel _ 0 0 s.world stop some_staged)

copied-either :
    (copies : WideString → Bool) (now last : ℕ) (path : Option WideString)
    → (copied copies now last path ≡ now) ⊎ (copied copies now last path ≡ last)
copied-either copies now last none = inr refl
copied-either copies now last (some path) =
    if-cases (λ (t : ℕ). (t ≡ now) ⊎ (t ≡ last)) (copies path) now last (λ _. inl refl)
      (λ _. inr refl)

attempt-either :
    (found : Health) (copies : WideString → Bool) (root : WideString) (now last : ℕ)
    → (attempt found copies root now last ≡ now) ⊎ (attempt found copies root now last ≡ last)
attempt-either healthy copies root now last = copied-either copies now last (backup_path root)
attempt-either corrupt copies root now last = inr refl
attempt-either unchecked copies root now last = inr refl

-- The time of the last backup behind one that is due: now, if it worked; what makes the next one due in
-- an hour, if none has worked yet; and else the time it was, which is still past due.
abbrev pub IsNext : ℕ → ℕ → ℕ → ℕ → Type 0
IsNext now last tried next =
    ((tried ≡ now) × (next ≡ now))
    ⊎ ((tried ≡ last) × (last ≡ 0) × (next + rbsvc_backup_interval ≡ now + rbsvc_recon_interval))
    ⊎ ((tried ≡ last) × (0 < last) × (next ≡ last))

due-IsNext :
    (now last tried : ℕ)
    → 86400 ≤ now
    → last + rbsvc_backup_interval ≤ now
    → (tried ≡ now) ⊎ (tried ≡ last)
    → IsNext now last tried (
        if leb (last + rbsvc_backup_interval) now
        then if tried == 0 then now + rbsvc_recon_interval - rbsvc_backup_interval else tried
        else last)
due-IsNext now last tried late due e = ground (arith, late, due, e)

-- A due backup is made, put off for an hour or left due: the hour's wait behind a failure is only for
-- a service that has made no backup and has not waited before. The time is at least a day after 1970.
backup_step-IsNext :
    (found : Health) (copies : WideString → Bool) (root : WideString) (now last : ℕ)
    → 86400 ≤ now
    → last + rbsvc_backup_interval ≤ now
    → IsNext now last (attempt found copies root now last) (backup_step found copies root now last)
unfolding backup_step
backup_step-IsNext found copies root now last late due =
    due-IsNext now last _ late due (attempt-either found copies root now last)
