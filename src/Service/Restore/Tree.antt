-- ===== src/Service/Restore/Tree.antt =====
-- service_c/rbrestore.c: restoring the rows that the tree query lists.
use recyclebin_svc.Base.{
  ℕ, suc, ◌+◌, Bool, true, false, Option, none, some, List, [], ◌∷◌, ◌≡◌, ◌≢◌, inl, inr, refl, ap,
  ◌∙◌, arith, WideString, if◌then◌else◌, length, All, if-cases,
}
use recyclebin_svc.Service.Db.{Item, db_get_item}
use recyclebin_svc.Service.Restore.{
  RestoreResult, is_ok, World, Setup, restore_item_by_id, restore_each, tree_succeeds,
}
use recyclebin_svc.Service.Restore.Single.{IsOutcome, restore_item_by_id-IsOutcome}

one_more :
    (b : Bool) (c : ℕ × ℕ)
    → let n : ℕ × ℕ = if b then (suc c.0, c.1) else (c.0, suc c.1) in n.0 + n.1 ≡ c.0 + c.1 + 1
one_more true c = omega arith
one_more false c = omega arith

module _ {F : Type 0} (setup : Setup F) where
  others_kept :
      (set_ok : Bool) (id other : ℕ) (override : WideString) (w : World F) (o : Option Item)
      (r : RestoreResult × World F)
      → IsOutcome setup set_ok id o override w r
      → other ≢ id
      → db_get_item true other r.1.table ≡ db_get_item true other w.table
  others_kept set_ok id other override w none r h differ = ap (db_get_item true other) h.1.table
  others_kept set_ok id other override w (some item) r h differ = elim h.1 [
    | inl d ↦ d.1.row.1 other (λ e. differ (e ∙ h.0))
    | inr d ↦ ap (db_get_item true other) d.1.table
  ]

  restore_item-other :
      (get_ok set_ok : Bool) (id other : ℕ) (override : WideString) (w : World F)
      → other ≢ id
      → db_get_item true other (restore_item_by_id setup get_ok set_ok id override w).1.table
        ≡ db_get_item true other w.table
  restore_item-other get_ok set_ok id other override w differ =
      others_kept set_ok id other override w (db_get_item get_ok id w.table) _
        (restore_item_by_id-IsOutcome setup get_ok set_ok id override w) differ

  -- A tree restore changes no row that the query did not list, whatever fails and whenever it is
  -- stopped.
  pub restore_each-other :
      (stops : ℕ → Bool) (get_ok set_ok : Bool) (items : List Item) (counts : ℕ × ℕ) (w : World F)
      (other : ℕ)
      → All (λ i. other ≢ i.id) items
      → db_get_item true other (restore_each setup stops get_ok set_ok items counts w).1.table
        ≡ db_get_item true other w.table
  unfolding restore_each
  restore_each-other stops get_ok set_ok [] counts w other h = refl
  restore_each-other stops get_ok set_ok (i ∷ items) counts w other h =
      if-cases {A = (ℕ × ℕ) × World F}
        (λ r. db_get_item true other r.1.table ≡ db_get_item true other w.table)
        (stops (suc (length items))) _ _ (λ e. refl)
        (λ e.
          restore_each-other stops get_ok set_ok items _ _ other h.1
          ∙ restore_item-other get_ok set_ok i.id other [] w h.0)

  -- When the stop event is never set, each listed row is counted once, as restored or as failed.
  restore_each-counts :
      (get_ok set_ok : Bool) (items : List Item) (counts : ℕ × ℕ) (w : World F)
      → let r = restore_each setup (λ n. false) get_ok set_ok items counts w in
        r.0.0 + r.0.1 ≡ counts.0 + counts.1 + length items
  unfolding restore_each
  restore_each-counts get_ok set_ok [] counts w = omega arith
  restore_each-counts get_ok set_ok (i ∷ items) counts w =
      let r = restore_item_by_id setup get_ok set_ok i.id [] w in
      let counted : ℕ × ℕ =
        if is_ok r.0 then (suc counts.0, counts.1) else (counts.0, suc counts.1) in
      omega
        (arith, restore_each-counts get_ok set_ok items counted r.1, one_more (is_ok r.0) counts)

  -- A tree restore that is stopped after its first row, which succeeded, reports success, however many
  -- rows are left.
  restore_each-stopped :
      (stops : ℕ → Bool) (get_ok set_ok : Bool) (i j : Item) (items : List Item) (w : World F)
      → stops (suc (suc (length items))) ≡ false
      → stops (suc (length items)) ≡ true
      → is_ok (restore_item_by_id setup get_ok set_ok i.id [] w).0 ≡ true
      → let r = restore_each setup stops get_ok set_ok (i ∷ j ∷ items) (0, 0) w in
        (r.0 ≡ (1, 0)) × (tree_succeeds (some r.0) ≡ true)
  unfolding restore_each
  restore_each-stopped stops get_ok set_ok i j items w on off good = rw (on, off, good) (refl, refl)
