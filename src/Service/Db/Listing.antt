-- ===== src/Service/Db/Listing.antt =====
-- service_c/rbdb.c: the result of the tree query.
use recyclebin_svc.Base.{
  ℕ, ◌≤◌, ◌<◌, true, some, List, ◌≡◌, refl, sym, ◌∙◌, arith, subst, WideString, length, take,
  filter_by, All, length-take, take_all, &&-true,
}
use recyclebin_svc.Base.Wide.{starts_with_text}
use recyclebin_svc.Service.Db.{
  Item, Table, is_live, sort_items, is_restorable, db_list_by_orig_path_prefix,
  rbsvc_max_tree_prefix,
}
use recyclebin_svc.Service.Db.Like.{sql_like-escape}
use recyclebin_svc.Service.Db.Order.{
  IsIn, IsSorted, All-map, sort_items-All, sort_items-IsSorted, sort_items-IsIn, take-All,
  take-IsSorted, filter_by-All, filter_by-IsIn, length-sort,
}

-- A row that the tree query is for: its original path begins with the prefix, in any case of letters,
-- and it is staged or landed.
abbrev pub IsHit : WideString → Item → Type 0
IsHit prefix i = (starts_with_text prefix i.orig_path ≡ true) × (is_live i ≡ true)

restorable-IsHit : (prefix : WideString) (i : Item) → is_restorable prefix i ≡ true → IsHit prefix i
unfolding is_restorable
restorable-IsHit prefix i h =
    let t = &&-true _ _ h in (sym (sql_like-escape prefix i.orig_path) ∙ t.0, t.1)

IsHit-restorable : (prefix : WideString) (i : Item) → IsHit prefix i → is_restorable prefix i ≡ true
unfolding is_restorable
IsHit-restorable prefix i h = rw (sql_like-escape prefix i.orig_path, h.0, h.1) refl

some-injective : (a b : List Item) → some a ≡ some b → a ≡ b
some-injective a b e = cc

listed :
    (prefix : WideString) (limit : ℕ) (t : Table)
    → 0 < length prefix
    → length prefix ≤ rbsvc_max_tree_prefix
    → 0 < limit
    → db_list_by_orig_path_prefix true prefix limit t
      ≡ some (take limit (sort_items (filter_by (is_restorable prefix) t.rows)))
unfolding db_list_by_orig_path_prefix
listed prefix limit t low high room = ground arith

-- The tree query on a prefix of 1 to 512 characters, if SQLite answers it, gives rows in the order of
-- their original path by code points, and not of their age, at most `limit`, each of them live and with
-- a path that begins with the prefix.
pub db_list_by_orig_path_prefix_sound :
    (prefix : WideString) (limit : ℕ) (t : Table) (items : List Item)
    → 0 < length prefix
    → length prefix ≤ rbsvc_max_tree_prefix
    → 0 < limit
    → db_list_by_orig_path_prefix true prefix limit t ≡ some items
    → IsSorted items × All (IsHit prefix) items × (length items ≤ limit)
db_list_by_orig_path_prefix_sound prefix limit t items low high room answer =
    let hits = filter_by (is_restorable prefix) t.rows in
    let sound =
      All-map (λ i. is_restorable prefix i ≡ true) (IsHit prefix) hits (restorable-IsHit prefix)
        (filter_by-All (is_restorable prefix) t.rows) in
    let same : take limit (sort_items hits) ≡ items =
      some-injective _ _ (sym (listed prefix limit t low high room) ∙ answer) in
    subst (λ r. IsSorted r × All (IsHit prefix) r × (length r ≤ limit)) same
      (
        take-IsSorted limit (sort_items hits) (sort_items-IsSorted hits),
        take-All (IsHit prefix) limit (sort_items hits) (sort_items-All (IsHit prefix) hits sound),
        omega (arith, length-take limit (sort_items hits)),
      )

-- When no more rows than `limit` qualify, the tree query leaves none of them out.
db_list_by_orig_path_prefix_complete :
    (prefix : WideString) (limit : ℕ) (t : Table) (items : List Item) (i : Item)
    → 0 < length prefix
    → length prefix ≤ rbsvc_max_tree_prefix
    → 0 < limit
    → db_list_by_orig_path_prefix true prefix limit t ≡ some items
    → length (filter_by (is_restorable prefix) t.rows) ≤ limit
    → IsIn i t.rows
    → IsHit prefix i
    → IsIn i items
db_list_by_orig_path_prefix_complete prefix limit t items i low high room answer few inside hit =
    let hits = filter_by (is_restorable prefix) t.rows in
    let same : take limit (sort_items hits) ≡ items =
      some-injective _ _ (sym (listed prefix limit t low high room) ∙ answer) in
    subst (IsIn i) (sym (take_all limit (sort_items hits) (omega (arith, length-sort hits))) ∙ same)
      (sort_items-IsIn i hits
        (filter_by-IsIn (is_restorable prefix) i t.rows (IsHit-restorable prefix i hit) inside))
