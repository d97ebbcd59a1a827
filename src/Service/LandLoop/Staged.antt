-- ===== src/Service/LandLoop/Staged.antt =====
-- service_c/rbdb.c: the rows that DbListStaged gives, and how many are left when one lands.
use recyclebin_svc.Base.{
  ℕ, suc, ◌<◌, ◌≤◌, Bool, true, false, ◌&&◌, ◌||◌, List, [], ◌∷◌, ◌≡◌, inl, inr, refl, sym, subst,
  arith, WideString, ◌==◌, filter_by, All, if◌then◌else◌, if-cases, Bool-cases,
}
use recyclebin_svc.Service.Db.{Item, Table, landed, update_row, db_set_landed}
use recyclebin_svc.Service.Db.Order.{take-All, All-map, filter_keeps, filter_drops}
use recyclebin_svc.Service.Policy.{is_staged}
use recyclebin_svc.Service.Watermark.{sort_oldest}
use recyclebin_svc.Service.Watermark.Oldest.{sort_oldest-All}
use recyclebin_svc.Service.LandLoop.{db_list_staged}

abbrev pub count_staged : List Item → ℕ
count_staged [] = 0
count_staged (i ∷ rows) = let rest = count_staged rows in if is_staged i then suc rest else rest

abbrev pub has_staged : List Item → ℕ → Bool
has_staged [] id = false
has_staged (i ∷ rows) id = (is_staged i && (i.id == id)) || has_staged rows id

counted : Bool → ℕ → ℕ
counted b n = if b then suc n else n

counted-false : (n : ℕ) (b : Bool) → b ≡ false → counted b n ≡ n
unfolding counted
counted-false n b e = ground arith

fewer_step :
    (same b c : Bool) (m n : ℕ)
    → c ≡ false
    → m ≤ n
    → (if same then counted c m else counted b m) ≤ counted b n
unfolding counted
fewer_step same b c m n e h = ground arith

less_step :
    (same b c has : Bool) (m n : ℕ)
    → c ≡ false
    → m ≤ n
    → (has ≡ true → m < n)
    → (b && same) || has ≡ true
    → (if same then counted c m else counted b m) < counted b n
unfolding counted
less_step same b c has m n e h less k = ground arith

module _ (f : Item → Item) (lands : (i : Item) → is_staged (f i) ≡ false) (id : ℕ) where
  count-update :
      (i : Item) (rows : List Item)
      → count_staged (update_row f id (i ∷ rows)) ≡ (
          if i.id == id
          then counted (is_staged (f i)) (count_staged (update_row f id rows))
          else counted (is_staged i) (count_staged (update_row f id rows)))
  unfolding update_row counted
  count-update i rows =
      if-cases
        (λ (l : List Item). count_staged l ≡ (
          if i.id == id
          then counted (is_staged (f i)) (count_staged (update_row f id rows))
          else counted (is_staged i) (count_staged (update_row f id rows))))
        (i.id == id) (f i ∷ update_row f id rows) (i ∷ update_row f id rows) (λ e. rw e refl)
        (λ e. rw e refl)

  update_row-fewer : (rows : List Item) → count_staged (update_row f id rows) ≤ count_staged rows
  unfolding update_row counted
  update_row-fewer [] = omega arith
  update_row-fewer (i ∷ rows) =
      subst (λ n. n ≤ count_staged (i ∷ rows)) (sym (count-update i rows))
        (fewer_step (i.id == id) (is_staged i) (is_staged (f i)) _ (count_staged rows) (lands i)
          (update_row-fewer rows))

  update_row-less :
      (rows : List Item)
      → has_staged rows id ≡ true
      → count_staged (update_row f id rows) < count_staged rows
  unfolding update_row counted
  update_row-less [] h = absurd (ground (arith, h))
  update_row-less (i ∷ rows) h =
      subst (λ n. n < count_staged (i ∷ rows)) (sym (count-update i rows))
        (less_step (i.id == id) (is_staged i) (is_staged (f i)) (has_staged rows id) _
          (count_staged rows) (lands i) (update_row-fewer rows) (update_row-less rows) h)

has-more :
    (i : Item) (rows : List Item) (id : ℕ)
    → has_staged rows id ≡ true
    → has_staged (i ∷ rows) id ≡ true
has-more i rows id h = ground (arith, h)

has-first : (i : Item) (rows : List Item) → is_staged i ≡ true → has_staged (i ∷ rows) i.id ≡ true
has-first i rows e = ground arith

listed-All : (rows : List Item) → All (λ i. has_staged rows i.id ≡ true) (filter_by is_staged rows)
listed-All [] = tt
listed-All (i ∷ rows) =
    let rest =
      All-map (λ j. has_staged rows j.id ≡ true) (λ j. has_staged (i ∷ rows) j.id ≡ true)
        (filter_by is_staged rows) (λ j. has-more i rows j.id) (listed-All rows) in
    elim (Bool-cases (is_staged i)) [
      | inl e ↦
          subst (All (λ j. has_staged (i ∷ rows) j.id ≡ true))
            (sym (filter_keeps is_staged i rows e)) (has-first i rows e, rest)
      | inr e ↦
          subst (All (λ j. has_staged (i ∷ rows) j.id ≡ true))
            (sym (filter_drops is_staged i rows e)) rest
    ]

pub db_list_staged-All :
    (ok : Bool) (limit : ℕ) (t : Table)
    → All (λ i. has_staged t.rows i.id ≡ true) (db_list_staged ok limit t)
unfolding db_list_staged
db_list_staged-All true limit t =
    take-All _ _ (sort_oldest (filter_by is_staged t.rows))
      (sort_oldest-All _ (filter_by is_staged t.rows) (listed-All t.rows))
db_list_staged-All false limit t = tt

abbrev lands_at : WideString → WideString → Item → Item
lands_at path dos i = record i { status = landed; recycle_path = path; orig_path_dos = dos }

pub db_set_landed-fewer :
    (ok : Bool) (id : ℕ) (path dos : WideString) (t : Table)
    → count_staged (db_set_landed ok id path dos t).1.rows ≤ count_staged t.rows
unfolding db_set_landed
db_set_landed-fewer true id path dos t = update_row-fewer (lands_at path dos) (λ i. refl) id t.rows
db_set_landed-fewer false id path dos t = omega arith

pub db_set_landed-less :
    (id : ℕ) (path dos : WideString) (t : Table)
    → has_staged t.rows id ≡ true
    → count_staged (db_set_landed true id path dos t).1.rows < count_staged t.rows
unfolding db_set_landed
db_set_landed-less id path dos t h = update_row-less (lands_at path dos) (λ i. refl) id t.rows h
