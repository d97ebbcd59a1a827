-- ===== src/Service/Watermark/Least.antt =====
-- service_c/rbpolicy.c: how much the watermark frees.
use recyclebin_svc.Base.{
  ℕ, zero, suc, ◌+◌, ◌≤◌, ◌<◌, Bool, true, Option, some, List, [], ◌∷◌, ◌≡◌, inl, inr, refl, sym,
  arith, subst, WideString, leb, if◌then◌else◌, length, take, Bool-cases,
}
use recyclebin_svc.Base.Word.{u64}
use recyclebin_svc.Service.Policy.Marks.{else_branch}
use recyclebin_svc.Service.Db.{Item, purged, db_set_status}
use recyclebin_svc.Service.Restore.{World, Setup}
use recyclebin_svc.Service.Policy.{store_delete_entry, purge_each}
use recyclebin_svc.Service.Watermark.Oldest.{
  leb-true, leb-false, AreOldest, db_list_landed_oldest-AreOldest,
}
use recyclebin_svc.Service.Watermark.{
  free_oldest, free_volume, db_list_landed_oldest, policy_watermark_max_pass,
}

abbrev pub total_size : List Item → ℕ
total_size [] = 0
total_size (i ∷ items) = i.file_size + total_size items

-- The first `count` items were purged: with those before the last the volume was below the watermark,
-- with all of them it no longer is, unless nothing is left to purge.
pub record IsLeast {F : Type 0} (purge : List Item → ℕ × World F) (min_free have : ℕ)
    (items : List Item) (r : ℕ × World F) : Type 0 where
  pub few : r.0 ≤ length items
  pub state : r.1 ≡ (purge (take r.0 items)).1
  pub needed : (m : ℕ) → m < r.0 → have + total_size (take m items) < min_free
  pub enough : r.0 < length items → min_free ≤ have + total_size (take r.0 items)

u64_small : (n : ℕ) → n < 18446744073709551616 → u64 n ≡ n
u64_small n h = omega (arith, h)

then_case : {A : Type 0} (b : Bool) (x y : A) → b ≡ true → (if b then x else y) ≡ x
then_case b x y e = rw e refl

pub needed_first :
    (have min_free count : ℕ) (i : Item) (items : List Item)
    → have < min_free
    → ((m : ℕ) → m < count → have + i.file_size + total_size (take m items) < min_free)
    → (m : ℕ) → m < suc count
    → have + total_size (take m (i ∷ items)) < min_free
needed_first have min_free count i items short h zero less = omega (arith, short)
needed_first have min_free count i items short h (suc m) less =
    omega (arith, h m (omega (arith, less)))

module _ {F : Type 0} (setup : Setup F) (remove_directory : F → WideString → F)
    (disk_free : F → WideString → Option ℕ) (set_ok : Bool) (min_free free : ℕ) where
  abbrev pub purging : World F → List Item → ℕ × World F
  purging w items =
      purge_each setup remove_directory (store_delete_entry setup remove_directory) set_ok items w

  abbrev after_one : Item → World F → World F
  after_one i w = record {
    files = store_delete_entry setup remove_directory i w.files;
    table = (db_set_status set_ok i.id purged w.table).1;
  }

  one_more :
      (freed : ℕ) (i : Item) (items : List Item) (w : World F) (r : ℕ × World F)
      → free + freed < min_free
      → IsLeast (purging (after_one i w)) min_free (free + (freed + i.file_size)) items r
      → IsLeast (purging w) min_free (free + freed) (i ∷ items) (suc r.0, r.1)
  unfolding purge_each
  one_more freed i items w r short h = record {
    few = omega (arith, h.few);
    state = h.state;
    needed =
        needed_first (free + freed) min_free r.0 i items short
          (λ m less. omega (arith, h.needed m less));
    enough = λ e. omega (arith, h.enough (omega (arith, e)));
  }

  none_needed :
      (freed : ℕ) (items : List Item) (w : World F)
      → min_free ≤ free + freed
      → IsLeast (purging w) min_free (free + freed) items (0, w)
  unfolding purge_each
  none_needed freed items w h = record {
    few = omega arith;
    state = refl;
    needed = λ m less. absurd (omega (arith, less));
    enough = λ less. omega (arith, h);
  }

  free_oldest-IsLeast :
      (freed : ℕ) (items : List Item) (w : World F)
      → free + freed + total_size items < 18446744073709551616
      → IsLeast
          (purging w)
          min_free
          (free + freed)
          items
          (free_oldest setup remove_directory disk_free set_ok min_free free freed items w)
  unfolding free_oldest purge_each
  free_oldest-IsLeast freed [] w fits = record {
    few = omega arith;
    state = refl;
    needed = λ m h. absurd (omega (arith, h));
    enough = λ h. absurd (omega (arith, h));
  }
  free_oldest-IsLeast freed (i ∷ items) w fits =
      let next = u64 (freed + i.file_size) in
      let rest =
        free_oldest setup remove_directory disk_free set_ok min_free free next items
          (after_one i w) in
      let same = u64_small (freed + i.file_size) (omega (arith, fits)) in
      let here = u64_small (free + freed) (omega (arith, fits)) in
      elim (Bool-cases (leb min_free (u64 (free + freed)))) [
        | inl e ↦
            subst (IsLeast (purging w) min_free (free + freed) (i ∷ items))
              (sym (then_case (leb min_free (u64 (free + freed))) (0, w) (suc rest.0, rest.1) e))
              (none_needed freed (i ∷ items) w (subst (λ n. min_free ≤ n) here (leb-true _ _ e)))
        | inr e ↦
            subst (IsLeast (purging w) min_free (free + freed) (i ∷ items))
              (sym (else_branch (leb min_free (u64 (free + freed))) (0, w) (suc rest.0, rest.1) e))
              (one_more freed i items w rest (subst (λ n. n < min_free) here (leb-false _ _ e)) (
                subst (λ n. IsLeast (purging (after_one i w)) min_free (free + n) items rest) same
                  (free_oldest-IsLeast next items (after_one i w) (
                    subst (λ n. free + n + total_size items < 18446744073709551616) (sym same)
                      (omega (arith, fits))))))
      ]

  -- A volume whose free bytes are known is freed of as few of the oldest landed rows as will do. The
  -- query's rows are landed rows of the table, the oldest first, 200 at most, and none if SQLite does not
  -- answer it; if it does, each landed row of the table is among them or they are 200 that are no
  -- younger. The first of them are purged: with all
  -- but the last of those the free bytes and the sizes freed stay below the watermark, and with all of
  -- those they reach it, unless no row of the query is left. Nothing is purged if the watermark is
  -- reached already. The sums are taken to fit 64 bits.
  pub free_volume-IsLeast :
      (list_ok : Bool) (w : World F)
      → let items = db_list_landed_oldest list_ok policy_watermark_max_pass w.table in
        free + total_size items < 18446744073709551616
        → AreOldest list_ok w.table items
          × IsLeast
              (purging w)
              min_free
              free
              items
              (free_volume setup remove_directory disk_free list_ok set_ok min_free (some free) w)
  unfolding free_volume
  free_volume-IsLeast list_ok w fits =
      let items = db_list_landed_oldest list_ok policy_watermark_max_pass w.table in
      let nothing : free + 0 ≡ free = omega arith in
      (
        db_list_landed_oldest-AreOldest list_ok w.table,
        elim (Bool-cases (leb min_free free)) [
          | inl e ↦
              subst (IsLeast (purging w) min_free free items)
                (sym (then_case (leb min_free free) _ _ e))
                (subst (λ n. IsLeast (purging w) min_free n items (0, w)) nothing
                  (none_needed 0 items w (omega (arith, leb-true _ _ e))))
          | inr e ↦
              let r = free_oldest setup remove_directory disk_free set_ok min_free free 0 items w in
              subst (IsLeast (purging w) min_free free items)
                (sym (else_branch (leb min_free free) (0, w) r e))
                (subst (λ n. IsLeast (purging w) min_free n items r) nothing
                  (free_oldest-IsLeast 0 items w (omega (arith, fits))))
        ],
      )
