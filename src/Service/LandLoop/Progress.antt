-- ===== src/Service/LandLoop/Progress.antt =====
-- service_c/rbservice.c: how many rows are left staged behind a run over a batch.
use recyclebin_svc.Base.{
  ℕ, suc, ◌<◌, ◌≤◌, Bool, true, false, List, [], ◌∷◌, ◌≡◌, ◌⊎◌, inl, inr, refl, sym, ◌∙◌, subst,
  arith, WideString, All, if◌then◌else◌, if-cases,
}
use recyclebin_svc.Service.Db.{Item, Table, db_set_landed}
use recyclebin_svc.Service.Restore.{World, Setup}
use recyclebin_svc.Service.IFile.{IFiles}
use recyclebin_svc.Service.Land.{LandEnv, store_land_item}
use recyclebin_svc.Service.Land.Outcome.{store_land_item-IsOutcome}
use recyclebin_svc.Service.LandLoop.{drained, stopped, LandRun, land_items}
use recyclebin_svc.Service.LandLoop.Staged.{
  count_staged, has_staged, db_set_landed-fewer, db_set_landed-less,
}

module _ {F : Type 0} (setup : Setup F) (i_files : IFiles F) (stops : ℕ → Bool)
    (clock : ℕ → LandEnv) (list_ok : Bool) where
  -- What a run over rows does to the number of staged rows and to its count.
  abbrev pub Goes : ℕ → World F → LandRun F → Type 0
  Goes count w r =
      ((r.landed ≡ count) × (r.world.table ≡ w.table))
      ⊎ ((count < r.landed) × (count_staged r.world.table.rows < count_staged w.table.rows))

  abbrev Falls : ℕ → World F → LandRun F → Type 0
  Falls count w r =
      (count ≤ r.landed) × (count_staged r.world.table.rows ≤ count_staged w.table.rows)

  abbrev Result : Item → World F → Bool × World F → Type 0
  Result i w one =
      ((one.0 ≡ false) × (one.1.table ≡ w.table))
      ⊎ ((one.0 ≡ true)
          × ((path : WideString) × (dos : WideString) × (one.1.table
                ≡ (db_set_landed true i.id path dos w.table).1)))

  landing :
      (env : LandEnv) (i : Item) (w : World F)
      → Result i w (store_land_item setup i_files env true i w)
  landing env i w = elim (store_land_item-IsOutcome setup i_files env true i w) [
    | inl p ↦ inr (p.0, (_, _, p.1.recorded))
    | inr q ↦ inl (q.0, q.1.table)
  ]

  abbrev rest_of : List Item → ℕ → ℕ → Bool × World F → LandRun F
  rest_of items tried count one =
      land_items setup i_files stops clock list_ok true items (suc tried)
        (if one.0 then suc count else count) one.1

  pub land_items-end :
      (items : List Item) (tried count : ℕ) (w : World F)
      → let r = land_items setup i_files stops clock list_ok true items tried count w in
        (r.end ≡ drained) ⊎ ((r.end ≡ stopped) × (stops r.tried ≡ true))
  unfolding land_items
  land_items-end [] tried count w = inl refl
  land_items-end (i ∷ items) tried count w =
      let one = store_land_item setup i_files (clock tried) true i w in
      if-cases (λ (r : LandRun F). (r.end ≡ drained) ⊎ ((r.end ≡ stopped) × (stops r.tried ≡ true)))
        (stops tried) _ (rest_of items tried count one) (λ e. inr (refl, e))
        (λ _. land_items-end items (suc tried) _ _)

  step-Falls :
      (i : Item) (w : World F) (one : Bool × World F) (count : ℕ) (r : LandRun F)
      → Result i w one
      → Falls (if one.0 then suc count else count) one.1 r
      → Falls count w r
  step-Falls i w one count r (inl q) h = (
    ground (arith, q.0, h.0),
    subst (λ (t : Table). count_staged r.world.table.rows ≤ count_staged t.rows) q.1 h.1,
  )
  step-Falls i w one count r (inr p) h =
      let fewer = db_set_landed-fewer true i.id p.1.0 p.1.1 w.table in
      let below =
        subst (λ (t : Table). count_staged r.world.table.rows ≤ count_staged t.rows) p.1.2 h.1 in
      (ground (arith, p.0, h.0), omega (arith, fewer, below))

  step-Goes :
      (i : Item) (w : World F) (one : Bool × World F) (count : ℕ) (r : LandRun F)
      → Result i w one
      → has_staged w.table.rows i.id ≡ true
      → Falls (if one.0 then suc count else count) one.1 r
      → (one.1.table ≡ w.table → Goes (if one.0 then suc count else count) one.1 r)
      → Goes count w r
  step-Goes i w one count r (inl q) had falls goes = elim (goes q.1) [
    | inl same ↦ inl (ground (arith, q.0, same.0), same.1 ∙ q.1)
    | inr less ↦ inr (
      ground (arith, q.0, less.0),
      subst (λ (t : Table). count_staged r.world.table.rows < count_staged t.rows) q.1 less.1,
    )
  ]
  step-Goes i w one count r (inr p) had falls goes =
      let less = db_set_landed-less i.id p.1.0 p.1.1 w.table had in
      let below =
        subst (λ (t : Table). count_staged r.world.table.rows ≤ count_staged t.rows) p.1.2
          falls.1 in
      inr (ground (arith, p.0, falls.0), omega (arith, less, below))

  land_items-Falls :
      (items : List Item) (tried count : ℕ) (w : World F)
      → Falls count w (land_items setup i_files stops clock list_ok true items tried count w)
  unfolding land_items
  land_items-Falls [] tried count w = (omega arith, omega arith)
  land_items-Falls (i ∷ items) tried count w =
      let one = store_land_item setup i_files (clock tried) true i w in
      if-cases (Falls count w) (stops tried) _ (rest_of items tried count one)
        (λ _. (omega arith, omega arith))
        (λ _.
          step-Falls i w one count (rest_of items tried count one) (landing (clock tried) i w)
            (land_items-Falls items (suc tried) _ _))

  pub land_items-Goes :
      (items : List Item) (tried count : ℕ) (w : World F)
      → All (λ i. has_staged w.table.rows i.id ≡ true) items
      → Goes count w (land_items setup i_files stops clock list_ok true items tried count w)
  unfolding land_items
  land_items-Goes [] tried count w h = inl (refl, refl)
  land_items-Goes (i ∷ items) tried count w h =
      let one = store_land_item setup i_files (clock tried) true i w in
      if-cases (Goes count w) (stops tried) _ (rest_of items tried count one)
        (λ _. inl (refl, refl))
        (λ _.
          step-Goes i w one count (rest_of items tried count one) (landing (clock tried) i w) h.0
            (land_items-Falls items (suc tried) _ _)
            (λ same. land_items-Goes items (suc tried) _ _ (
              subst (λ (t : Table). All (λ j. has_staged t.rows j.id ≡ true) items) (sym same)
                h.1)))
