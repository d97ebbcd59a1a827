-- ===== src/Service/Db/Reap.antt =====
-- service_c/rbdb.c, RB-09: what the reaper of terminal rows deletes, and that its loop ends by itself.
use recyclebin_svc.Base.{
  ℕ, ◌+◌, ◌≤◌, ◌<◌, Bool, true, false, Option, some, List, ◌≡◌, ◌⊎◌, filter_by, All, length,
}
use recyclebin_svc.Service.Db.{Item, is_live, rbsvc_max_reap_per_pass}

-- A batch: the live rows stay, in order; the count is how many went, at most `room`; and if it was not
-- full, none of those it is for is left.
pub record IsBatch (p : Item → Bool) (room : ℕ) (rows : List Item) (r : List Item × ℕ)
    : Type 0 where
  pub live : filter_by is_live r.0 ≡ filter_by is_live rows
  pub count : r.1 + length r.0 ≡ length rows
  pub most : r.1 ≤ room
  pub last : r.1 < room → All (λ i. p i ≡ false) r.0

-- A pass that ended by itself: the count it reports is the number of rows that went; the live rows are
-- all there, in order; and no row that it was for at its start is left, unless it deleted its fill.
pub record IsReaped (p : Item → Bool) (before total : ℕ) (rows : List Item)
    (r : Option ℕ × List Item) : Type 0 where
  pub gone : ℕ
  pub reported : r.0 ≡ some (total + gone)
  pub count : gone + length r.1 ≡ before
  pub bounded : total + gone < rbsvc_max_reap_per_pass + 1000
  pub live : filter_by is_live r.1 ≡ filter_by is_live rows
  pub thorough : All (λ i. p i ≡ false) r.1 ⊎ (rbsvc_max_reap_per_pass ≤ total + gone)

abbrev pub always : ℕ → Bool
always n = true
