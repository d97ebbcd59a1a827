-- ===== src/Service/Names.antt =====
-- service_c/rbconcile.c: the names of one directory, sorted without regard to case, and the search.
pub mod Slices
pub mod Search
use recyclebin_svc.Base.{
  ℕ, zero, suc, ◌+◌, ◌-◌, ◌/◌, Bool, true, false, not, ◌&&◌, ◌||◌, Option, none, some, List, [],
  ◌∷◌, WideString, ltb, ◌==◌, if◌then◌else◌, length, get_or, filter_by,
}
use recyclebin_svc.Base.Wide.{wide, wide_eq, lower, same_text}
use recyclebin_svc.Service.Db.{text_le}

-- `CompareWStrNoCase` gives at most 0.
abbrev pub name_le : WideString → WideString → Bool
name_le a b = text_le (lower a) (lower b)

unfoldable pub insert_name : WideString → List WideString → List WideString
insert_name x [] = x ∷ []
insert_name x (y ∷ ys) = let rest = insert_name x ys in if name_le x y then x ∷ y ∷ ys else y ∷ rest

unfoldable pub sort_names : List WideString → List WideString
sort_names [] = []
sort_names (x ∷ xs) = insert_name x (sort_names xs)

abbrev pub is_real_name : WideString → Bool
is_real_name name = not (wide_eq name (wide ".")) && not (wide_eq name (wide ".."))

-- `SnapshotDir` over what the enumeration gives; none if the directory cannot be opened.
abbrev pub snapshot : Option (List WideString) → Option (List WideString)
snapshot none = none
snapshot (some names) = some (sort_names (filter_by is_real_name names))

-- The loop of `NameArrayContains`, on fuel, with `end` for hi + 1.
unfoldable pub search_names : ℕ → List WideString → WideString → ℕ → ℕ → Bool
search_names zero names name lo end = false
search_names (suc fuel) names name lo end =
    let mid = (lo + (end - 1)) / 2 in
    let found = get_or names mid [] in
    let right = search_names fuel names name (mid + 1) end in
    let left = search_names fuel names name lo mid in
    if not (ltb lo end)
    then false
    else if same_text found name
    then true
    else if name_le found name
    then right
    else left

-- Each round leaves fewer names, so as much fuel as there are names, and one round more, is enough.
unfoldable pub name_array_contains : List WideString → WideString → Bool
unfolding search_names
name_array_contains names name = search_names (length names + 1) names name 0 (length names)
