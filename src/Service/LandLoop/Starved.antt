-- ===== src/Service/LandLoop/Starved.antt =====
-- service_c/rbservice.c: the landing loop on a full batch that cannot be landed.
use recyclebin_svc.Base.{
  ℕ, zero, suc, ◌+◌, ◌<◌, Bool, false, List, [], ◌∷◌, ◌≡◌, refl, ap, ◌∙◌, arith, ltb, length, All,
}
use recyclebin_svc.Service.Db.{Item}
use recyclebin_svc.Service.Restore.{World, Setup}
use recyclebin_svc.Service.IFile.{IFiles}
use recyclebin_svc.Service.Land.{LandEnv, store_land_item}
use recyclebin_svc.Service.LandLoop.{
  db_list_staged, drained, out_of_fuel, LandRun, land_items, land_batch, land_loop,
}

module _ {F : Type 0} (setup : Setup F) (i_files : IFiles F) (stops : ℕ → Bool)
    (clock : ℕ → LandEnv) (list_ok set_ok : Bool) (w : World F) where
  -- A row whose landing fails at any time and leaves everything as it is.
  abbrev pub IsUnlandable : Item → Type 0
  IsUnlandable i = (n : ℕ) → store_land_item setup i_files (clock n) set_ok i w ≡ (false, w)

  abbrev at_end : ℕ → ℕ → LandRun F
  at_end tried count = record { end = drained; tried = tried; landed = count; world = w }

  module _ (runs : (n : ℕ) → stops n ≡ false) where
    land_items-unlandable :
        (items : List Item) (tried count : ℕ)
        → All IsUnlandable items
        → land_items setup i_files stops clock list_ok set_ok items tried count w
          ≡ at_end (length items + tried) count
    unfolding land_items
    land_items-unlandable [] tried count h = ap (λ n. at_end n count) (omega arith)
    land_items-unlandable (i ∷ items) tried count h = rw (runs tried) (
        rw (h.0 tried) (
          land_items-unlandable items (suc tried) count h.1
          ∙ ap (λ n. at_end n count) (omega arith)))

    land_batch-next :
        (next : LandRun F → LandRun F) (batch : ℕ) (items : List Item) (tried count : ℕ)
        → All IsUnlandable items
        → 0 < length items
        → ltb (length items) batch ≡ false
        → land_batch setup i_files stops clock list_ok set_ok next batch items tried count w
          ≡ next (at_end (length items + tried) count)
    unfolding land_batch
    land_batch-next next batch [] tried count h long full = absurd (omega (arith, long))
    land_batch-next next batch (i ∷ items) tried count h long full =
        rw (land_items-unlandable (i ∷ items) tried count h) (rw full refl)

    -- While the service runs, the landing loop never ends, whatever the fuel, once a full batch of staged
    -- rows is listed of which none can be landed: the same batch is listed again and again.
    pub land_loop-IsStarved :
        (fuel batch tried count : ℕ)
        → All IsUnlandable (db_list_staged list_ok batch w.table)
        → 0 < length (db_list_staged list_ok batch w.table)
        → ltb (length (db_list_staged list_ok batch w.table)) batch ≡ false
        → (land_loop setup i_files stops clock list_ok set_ok fuel batch tried count w).end
          ≡ out_of_fuel
    unfolding land_loop
    land_loop-IsStarved zero batch tried count h long full = refl
    land_loop-IsStarved (suc fuel) batch tried count h long full =
        ap (λ (r : LandRun F). r.end) (land_batch-next _ batch _ tried count h long full)
        ∙ land_loop-IsStarved fuel batch _ count h long full
