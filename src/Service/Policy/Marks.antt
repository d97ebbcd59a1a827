-- ===== src/Service/Policy/Marks.antt =====
-- service_c/rbpolicy.c: rows that are purged by their id, and rows that are purged by a test.
use recyclebin_svc.Base.{
  ℕ, ◌+◌, ◌≤◌, ◌<◌, Bool, false, ◌&&◌, List, [], ◌∷◌, ◌≡◌, ◌≢◌, inl, inr, refl, sym, ◌∙◌, arith,
  subst, ◌==◌, if◌then◌else◌, length, filter_by, any, map, All, Bool-cases, ==_refl, ==_iff,
}
use recyclebin_svc.Service.Db.{Item, is_live, purged, update_row}
use recyclebin_svc.Service.Db.Rows.{AreNumbered}
use recyclebin_svc.Service.Db.Order.{filter_keeps, filter_drops}
use recyclebin_svc.Service.Policy.{is_landed, is_staged, is_past}

abbrev pub purge_if : (Item → Bool) → Item → Item
purge_if p i = if p i then record i { status = purged } else i

abbrev pub is_in : List Item → Item → Bool
is_in items i = any (λ j. j.id == i.id) items

pub update_row-map :
    (id : ℕ) (rows : List Item)
    → update_row (λ i. record i { status = purged }) id rows ≡ map (purge_if (λ i. i.id == id)) rows
unfolding update_row
update_row-map id [] = refl
update_row-map id (i ∷ rows) = ground (arith, update_row-map id rows)

pub map-map_if :
    (f g h : Item → Item) (rows : List Item)
    → All (λ i. f (g i) ≡ h i) rows
    → map f (map g rows) ≡ map h rows
map-map_if f g h [] e = refl
map-map_if f g h (i ∷ rows) e = rw (e.0, map-map_if f g h rows e.1) refl

pub map_if :
    (f h : Item → Item) (rows : List Item) → All (λ i. f i ≡ h i) rows → map f rows ≡ map h rows
map_if f h [] e = refl
map_if f h (i ∷ rows) e = rw (e.0, map_if f h rows e.1) refl

pub map_same : (f : Item → Item) (rows : List Item) → All (λ i. f i ≡ i) rows → map f rows ≡ rows
map_same f [] e = refl
map_same f (i ∷ rows) e = rw (e.0, map_same f rows e.1) refl

pub all_of : (P : Item → Type 0) (rows : List Item) → ((i : Item) → P i) → All P rows
all_of P [] h = tt
all_of P (i ∷ rows) h = (h i, all_of P rows h)

eq_sym : (a b : ℕ) → a == b ≡ b == a
eq_sym a b = ground arith

pub purge_twice :
    (items : List Item) (j : Item) (i : Item)
    → purge_if (is_in items) (purge_if (λ k. k.id == j.id) i) ≡ purge_if (is_in (j ∷ items)) i
purge_twice items j i =
    let turn = eq_sym j.id i.id in
    elim (Bool-cases (i.id == j.id)) [
      | inl e ↦ elim (Bool-cases (is_in items i)) [
        | inl m ↦ rw (turn, e, m) refl
        | inr m ↦ rw (turn, e, m) refl
      ]
      | inr e ↦ rw (turn, e) refl
    ]

not_in :
    (p : Item → Bool) (x : Item) (rows : List Item)
    → All (λ j. j.id ≢ x.id) rows
    → is_in (filter_by p rows) x ≡ false
not_in p x [] h = refl
not_in p x (i ∷ rows) h = ground (arith, not_in p x rows h.1, h.0)

others_in :
    (x : Item) (found : List Item) (p : Item → Bool) (rows : List Item)
    → All (λ j. j.id ≢ x.id) rows
    → All (λ i. is_in found i ≡ p i) rows
    → All (λ i. is_in (x ∷ found) i ≡ p i) rows
others_in x found p [] h e = tt
others_in x found p (i ∷ rows) h e = (
  elim (Bool-cases (x.id == i.id)) [
    | inl q ↦ absurd (h.0 (sym ((==_iff x.id i.id).0 q)))
    | inr q ↦ rw q e.0
  ],
  others_in x found p rows h.1 e.1,
)

pub in_filter :
    (bound : ℕ) (p : Item → Bool) (rows : List Item)
    → AreNumbered bound rows
    → All (λ i. is_in (filter_by p rows) i ≡ p i) rows
in_filter bound p [] h = tt
in_filter bound p (i ∷ rows) h =
    let ih = in_filter bound p rows h.2 in
    elim (Bool-cases (p i)) [
      | inl e ↦
          subst (λ found. All (λ x. is_in found x ≡ p x) (i ∷ rows)) (sym (filter_keeps p i rows e))
            (rw (==_refl i.id) (sym e), others_in i (filter_by p rows) p rows h.1 ih)
      | inr e ↦
          subst (λ found. All (λ x. is_in found x ≡ p x) (i ∷ rows)) (sym (filter_drops p i rows e))
            (not_in p i rows h.1 ∙ sym e, ih)
    ]

pub same_marks :
    (found : List Item) (p : Item → Bool) (rows : List Item)
    → All (λ i. is_in found i ≡ p i) rows
    → All (λ i. purge_if (is_in found) i ≡ purge_if p i) rows
same_marks found p [] e = tt
same_marks found p (i ∷ rows) e = (rw e.0 refl, same_marks found p rows e.1)

moved_ids :
    (f : Item → Item) (x : Item) (rows : List Item)
    → ((i : Item) → (f i).id ≡ i.id)
    → All (λ j. j.id ≢ x.id) rows
    → All (λ j. j.id ≢ (f x).id) (map f rows)
moved_ids f x [] e h = tt
moved_ids f x (i ∷ rows) e h = ((λ q. h.0 (sym (e i) ∙ q ∙ e x)), moved_ids f x rows e h.1)

pub numbered_map :
    (f : Item → Item) (bound : ℕ) (rows : List Item)
    → ((i : Item) → (f i).id ≡ i.id)
    → AreNumbered bound rows
    → AreNumbered bound (map f rows)
numbered_map f bound [] e h = tt
numbered_map f bound (i ∷ rows) e h = (
  subst (λ n. n < bound) (sym (e i)) h.0,
  moved_ids f i rows e h.1,
  numbered_map f bound rows e h.2,
)

pub purge_if-id : (p : Item → Bool) (i : Item) → (purge_if p i).id ≡ i.id
purge_if-id p i = ground arith

-- The rows that a pass is after: staged or landed, and past the retention time.
abbrev pub is_due : ℕ → ℕ → Item → Bool
is_due now days i = is_live i && is_past now days i

abbrev pub landed_due : ℕ → ℕ → Item → Bool
landed_due now days i = is_landed i && is_past now days i

abbrev pub staged_due : ℕ → ℕ → Item → Bool
staged_due now days i = is_staged i && is_past now days i

pub due_apart :
    (now days : ℕ) (i : Item)
    → purge_if (staged_due now days) (purge_if (landed_due now days) i)
      ≡ purge_if (is_due now days) i
due_apart now days i = ground arith

pub due_count :
    (now days : ℕ) (rows : List Item)
    → length (filter_by (landed_due now days) rows)
        + length (filter_by (staged_due now days) (map (purge_if (landed_due now days)) rows))
      ≡ length (filter_by (is_due now days) rows)
due_count now days [] = omega arith
due_count now days (i ∷ rows) = ground (arith, due_count now days rows)

pub few_landed :
    (now days cap : ℕ) (rows : List Item)
    → length (filter_by (is_due now days) rows) ≤ cap
    → length (filter_by (landed_due now days) rows) ≤ cap
few_landed now days cap rows few = omega (arith, due_count now days rows, few)

pub few_staged :
    (now days cap : ℕ) (rows : List Item)
    → length (filter_by (is_due now days) rows) ≤ cap
    → length (filter_by (staged_due now days) (map (purge_if (landed_due now days)) rows)) ≤ cap
few_staged now days cap rows few = omega (arith, due_count now days rows, few)

pub not_zero : (n : ℕ) → n ≢ 0 → n == 0 ≡ false
not_zero n h = ground arith

pub else_branch : {A : Type 0} (b : Bool) (x y : A) → b ≡ false → (if b then x else y) ≡ y
else_branch b x y e = rw e refl
