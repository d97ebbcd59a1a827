-- ===== src/Tests/Sweep.antt =====
-- service_c/rbconcile.c, rbpolicy.c, rbsession.c, rbconfig.c and rbservice.c on concrete inputs.
use recyclebin_svc.Base.{
  length, Bool, true, false, not, Option, none, some, List, [], ◌∷◌, ◌≡◌, ◌⊎◌, WideString,
}
use recyclebin_svc.Base.Wide.{wide}
use recyclebin_svc.Service.FileSystem.{list_fs}
use recyclebin_svc.Service.Db.{Item, landed, db_store_path_exists}
use recyclebin_svc.Service.Restore.{World}
use recyclebin_svc.Service.Policy.{db_list_expired}
use recyclebin_svc.Service.Reconcile.{sort_by_dir, reconcile_landed}
use recyclebin_svc.Service.Reconcile.Verdict.{judge_each, reconcile_landed-judge_each}
use recyclebin_svc.Service.Sweep.{file, Entries, nil, cons}
use recyclebin_svc.Service.Session.{SessionTable}
use recyclebin_svc.Service.Config.{RegKey, Config, config_load, reload_config}
use recyclebin_svc.Service.Config.Reload.{IsSane, reload_config-IsSane}
use recyclebin_svc.Tests.Service.{row_1, table_1}
use recyclebin_svc.Tests.Restore.{small}

-- Of two landed rows, the directory holds the file of one, in other letters.
abbrev landed_rows : List Item
landed_rows =
    record row_1 { id = 1; status = landed; recycle_path = wide "D:\\R\\$Ra" }
    ∷ record row_1 { id = 2; status = landed; recycle_path = wide "D:\\R\\$Rb" }
    ∷ []

abbrev landed_world : World (List WideString)
landed_world = record {
  files = wide "D:\\R\\$ra" ∷ [];
  table = record { rows = landed_rows; next_id = 3 };
}

abbrev pub dir_r : List WideString → WideString → Option (List WideString)
dir_r files dir = some (wide "." ∷ wide "$ra" ∷ [])

reconcile_landed-judge_each_example :
    reconcile_landed small dir_r true true landed_world
    ≡ judge_each small dir_r true
        (sort_by_dir (db_list_expired true 253402300800 0 landed_world.table))
        landed_world
reconcile_landed-judge_each_example = reconcile_landed-judge_each small dir_r true true landed_world

-- Deletions keep the staged file that the table knows.
abbrev pub delete_listed : List WideString → WideString → Option (List WideString)
delete_listed files p = some (list_fs.delete files p)

abbrev KeepsStaged : List WideString → Type 0
KeepsStaged files = list_fs.exists files (wide "D:\\R\\1_b") ≡ true

abbrev is_unknown_answer : Option Bool → Bool
is_unknown_answer none = true
is_unknown_answer (some b) = not b

abbrev is_unknown : Option WideString → Bool
is_unknown none = true
is_unknown (some nt) = is_unknown_answer (db_store_path_exists true nt table_1)

abbrev pub tree_r : Entries
tree_r = cons (file (wide "1_b") 5) (cons (file (wide "2_c") 5) nil)

abbrev pub empty_sessions : SessionTable
empty_sessions = record { ready = true; sessions = [] }

abbrev pub defaults : Config
defaults = config_load none

abbrev no_days : Option RegKey
no_days = some (record { dword = λ name. some 0; text = λ name cch. none; multi = λ name. none })

-- A retention of 0 is refused.
reload_config-IsSane_example :
    let r = reload_config no_days defaults in
    ((r.0 ≡ true) × (r.1 ≡ config_load no_days) × IsSane r.1)
    ⊎ ((r.0 ≡ false)
        × (r.1 ≡ defaults)
        × (((config_load no_days).retention_days ≡ 0)
            ⊎ (length (config_load no_days).store_root ≡ 0)))
reload_config-IsSane_example = reload_config-IsSane no_days defaults
