-- ===== src/Service/LandLoop/Ends.antt =====
-- service_c/rbservice.c: when the landing loop of a pass comes to its end.
use recyclebin_svc.Base.{
  ℕ, zero, suc, ◌<◌, Bool, true, false, List, [], ◌∷◌, ◌≡◌, ◌⊎◌, inl, inr, refl, sym, ap, ◌∙◌,
  subst, arith, ltb, length, if◌then◌else◌, if-cases, not-true, not-false,
}
use recyclebin_svc.Service.Db.{Item}
use recyclebin_svc.Service.Restore.{World, Setup}
use recyclebin_svc.Service.IFile.{IFiles}
use recyclebin_svc.Service.Land.{LandEnv}
use recyclebin_svc.Service.LandLoop.{
  db_list_staged, RunEnd, drained, stopped, out_of_fuel, LandRun, land_items, after_batch,
  land_batch, land_loop,
}
use recyclebin_svc.Service.LandLoop.Staged.{count_staged, db_list_staged-All}
use recyclebin_svc.Service.LandLoop.Progress.{land_items-end, land_items-Goes}

module _ {F : Type 0} (setup : Setup F) (i_files : IFiles F) (stops : ℕ → Bool)
    (clock : ℕ → LandEnv) (list_ok : Bool) where
  -- Where the loop has come to behind some full batches.
  pub data Reached (batch : ℕ) (start : World F) : ℕ → ℕ → World F → Type 0 where
    here : Reached batch start 0 0 start
    behind :
        {tried count : ℕ} {w : World F}
        → Reached batch start tried count w
        → (r : LandRun F)
        → land_items setup i_files stops clock list_ok true
            (db_list_staged list_ok batch w.table)
            tried
            count
            w
          ≡ r
        → r.end ≡ drained
        → ltb (length (db_list_staged list_ok batch w.table)) batch ≡ false
        → Reached batch start r.tried r.landed r.world

  -- A full batch of which no row can be landed.
  pub record IsStuck (batch : ℕ) (start : World F) : Type 0 where
    pub tried : ℕ
    pub count : ℕ
    pub world : World F
    pub reached : Reached batch start tried count world
    pub full : ltb (length (db_list_staged list_ok batch world.table)) batch ≡ false
    pub nothing :
        (land_items setup i_files stops clock list_ok true
          (db_list_staged list_ok batch world.table)
          tried
          count
          world).landed
        ≡ count

  -- A batch that was not full, or empty, of which every row was tried: the last of the loop.
  pub record IsThrough (batch : ℕ) (start : World F) (r : LandRun F) : Type 0 where
    pub tried : ℕ
    pub count : ℕ
    pub world : World F
    pub reached : Reached batch start tried count world
    pub not_full :
        (db_list_staged list_ok batch world.table ≡ [])
        ⊎ (ltb (length (db_list_staged list_ok batch world.table)) batch ≡ true)
    pub last :
        r
        ≡ land_items setup i_files stops clock list_ok true
            (db_list_staged list_ok batch world.table)
            tried
            count
            world
    pub ended : r.end ≡ drained

  abbrev pub IsStopped : LandRun F → Type 0
  IsStopped r = (r.end ≡ stopped) × (stops r.tried ≡ true)

  abbrev pub Ends : ℕ → World F → LandRun F → Type 0
  Ends batch start r = IsThrough batch start r ⊎ IsStopped r ⊎ IsStuck batch start

  after_batch-Ends :
      (next : LandRun F → LandRun F) (batch : ℕ) (start : World F) (full : Bool) (r : LandRun F)
      → (r.end ≡ drained) ⊎ IsStopped r
      → (full ≡ true → r.end ≡ drained → Ends batch start (next r))
      → (full ≡ false → r.end ≡ drained → IsThrough batch start r)
      → Ends batch start (after_batch setup i_files stops clock list_ok true next full r)
  after_batch-Ends next batch start full r (inl e) h k =
      subst
        (λ (d : RunEnd). Ends batch start (elim d as (λ _. LandRun F) [
          | drained ↦ if full then next r else r
          | stopped ↦ r
          | out_of_fuel ↦ r
        ]))
        (sym e) (if-cases (Ends batch start) full (next r) r (λ f. h f e) (λ f. inl (k f e)))
  after_batch-Ends next batch start full r (inr e) h k =
      subst
        (λ (d : RunEnd). Ends batch start (elim d as (λ _. LandRun F) [
          | drained ↦ if full then next r else r
          | stopped ↦ r
          | out_of_fuel ↦ r
        ]))
        (sym e.0) (inr (inl e))

  land_batch-Ends :
      (next : LandRun F → LandRun F) (batch : ℕ) (start : World F) (items : List Item)
      (tried count : ℕ) (w : World F)
      → Reached batch start tried count w
      → db_list_staged list_ok batch w.table ≡ items
      → let r = land_items setup i_files stops clock list_ok true items tried count w in
        (ltb (length items) batch ≡ false → r.end ≡ drained → Ends batch start (next r))
        → Ends batch start
            (land_batch setup i_files stops clock list_ok true next batch items tried count w)
  unfolding land_batch land_items
  land_batch-Ends next batch start [] tried count w at listed h = inl (record {
    tried = tried;
    count = count;
    world = w;
    reached = at;
    not_full = inl listed;
    last = ap (λ l. land_items setup i_files stops clock list_ok true l tried count w) (sym listed);
    ended = refl;
  })
  land_batch-Ends next batch start (i ∷ items) tried count w at listed h =
      let r = land_items setup i_files stops clock list_ok true (i ∷ items) tried count w in
      after_batch-Ends next batch start _ r
        (land_items-end setup i_files stops clock list_ok (i ∷ items) tried count w)
        (λ f. h (not-true _ f))
        (λ f done. record {
          tried = tried;
          count = count;
          world = w;
          reached = at;
          not_full = inr (ap (λ l. ltb (length l) batch) listed ∙ not-false _ f);
          last =
              ap (λ l. land_items setup i_files stops clock list_ok true l tried count w)
                (sym listed);
          ended = done;
        })

  land_loop-EndsFrom :
      (fuel batch : ℕ) (start : World F) (tried count : ℕ) (w : World F)
      → Reached batch start tried count w
      → count_staged w.table.rows < fuel
      → Ends batch start (land_loop setup i_files stops clock list_ok true fuel batch tried count w)
  unfolding land_loop
  land_loop-EndsFrom zero batch start tried count w at enough = absurd (omega (arith, enough))
  land_loop-EndsFrom (suc fuel) batch start tried count w at enough =
      let items = db_list_staged list_ok batch w.table in
      let r = land_items setup i_files stops clock list_ok true items tried count w in
      land_batch-Ends _ batch start items tried count w at refl (λ full done.
        elim (land_items-Goes setup i_files stops clock list_ok items tried count w
          (db_list_staged-All list_ok batch w.table)) [
            | inl same ↦ inr (
                inr (record {
                  tried = tried;
                  count = count;
                  world = w;
                  reached = at;
                  full = full;
                  nothing = same.0;
                }))
            | inr less ↦
                land_loop-EndsFrom fuel batch start r.tried r.landed r.world
                  (behind at r refl done full) (omega (arith, enough, less.1))
          ])

  -- With more fuel than there are staged rows, the landing loop ends because it has worked through a
  -- batch that was not full, some rows of which may have stayed staged, or because the service stops; or
  -- it comes, behind some full batches, to a full batch that does not land a single row. SQLite is taken
  -- to accept the updates.
  pub land_loop-Ends :
      (fuel batch : ℕ) (w : World F)
      → count_staged w.table.rows < fuel
      → Ends batch w (land_loop setup i_files stops clock list_ok true fuel batch 0 0 w)
  land_loop-Ends fuel batch w = land_loop-EndsFrom fuel batch w 0 0 w here
