-- ===== src/Service/Quota/Trim.antt =====
-- service_c/rbpolicy.c: how much a quota takes, and from whom.
use recyclebin_svc.Base.{ℕ, Bool, List, WideString, filter_by}
use recyclebin_svc.Service.Db.{Item, purged, db_set_status}
use recyclebin_svc.Service.Restore.{World, Setup}
use recyclebin_svc.Service.Sid.{sid_equals}
use recyclebin_svc.Service.Policy.{store_delete_entry, purge_each}
use recyclebin_svc.Service.Watermark.Least.{IsLeast}

module _ {F : Type 0} (setup : Setup F) (remove_directory : F → WideString → F) (set_ok : Bool)
    (sid : WideString) where
  abbrev pub purging_all : World F → List Item → ℕ × World F
  purging_all w items =
      purge_each setup remove_directory (store_delete_entry setup remove_directory) set_ok items w

  -- The listed rows of this SID.
  abbrev pub mine : List Item → List Item
  mine = filter_by (λ i. sid_equals i.sid sid)

  abbrev after_purge : Item → World F → World F
  after_purge i w = record {
    files = store_delete_entry setup remove_directory i w.files;
    table = (db_set_status set_ok i.id purged w.table).1;
  }

  abbrev Trims : ℕ → List Item → World F → ℕ × World F → Type 0
  Trims over items w r = IsLeast (purging_all w) over 0 items r
