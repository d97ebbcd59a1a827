-- ===== src/Tests/Maintain.antt =====
-- service_c/rbservice.c: the landing loop and a pass on concrete rows.
use recyclebin_svc.Base.{true, false, none, List, [], ◌≡◌, refl, arith, WideString}
use recyclebin_svc.Service.FileSystem.{list_fs}
use recyclebin_svc.Service.Vol.{vol_nt_to_dos, best_volume}
use recyclebin_svc.Service.Restore.{Setup}
use recyclebin_svc.Service.Land.{store_land_item, land_from}
use recyclebin_svc.Service.Sweep.{nil}
use recyclebin_svc.Service.Watermark.{sort_oldest, insert_oldest}
use recyclebin_svc.Service.Session.{enum_failed}
use recyclebin_svc.Service.Config.{config_load}
use recyclebin_svc.Service.LandLoop.{db_list_staged, out_of_fuel, land_loop}
use recyclebin_svc.Service.Maintain.{Service, PassEnv, Calls, healthy, maintenance_pass}
use recyclebin_svc.Service.LandLoop.Ends.{Ends, land_loop-Ends}
use recyclebin_svc.Service.LandLoop.Starved.{land_loop-IsStarved}
use recyclebin_svc.Service.Maintain.Pass.{maintenance_pass-stopped}
use recyclebin_svc.Tests.Restore.{small}
use recyclebin_svc.Tests.Policy.{no_directories}
use recyclebin_svc.Tests.Land.{path_files, noon, staged_world}
use recyclebin_svc.Tests.Sweep.{dir_r, delete_listed, empty_sessions, defaults}

land_loop-Ends_example :
    Ends small path_files
      (λ n. false)
      (λ n. noon)
      true
      1
      staged_world
      (land_loop small path_files (λ n. false) (λ n. noon) true true 2 1 0 0 staged_world)
land_loop-Ends_example =
    land_loop-Ends small path_files (λ n. false) (λ n. noon) true 2 1 staged_world (omega arith)

-- The volume of the staged file is not known, and a batch is one row.
abbrev no_volumes : Setup (List WideString)
no_volumes = record { fs = list_fs; volumes = []; protected = [] }

land_loop-IsStarved_example :
    (land_loop no_volumes path_files (λ n. false) (λ n. noon) true true 9 1 0 0 staged_world).end
    ≡ out_of_fuel
unfolding db_list_staged sort_oldest insert_oldest store_land_item land_from vol_nt_to_dos
    best_volume
land_loop-IsStarved_example =
    land_loop-IsStarved no_volumes path_files (λ n. false) (λ n. noon) true true staged_world
      (λ n. refl) 9 1 0 0 ((λ n. refl), tt) (omega arith) refl

abbrev stopping : PassEnv (List WideString)
stopping = record {
  list_ok = true;
  set_ok = true;
  ops_ok = true;
  reap_ok = λ n. true;
  reap_now = λ n. 100000;
  now = 100000;
  stops = λ n. true;
  tree_stops = λ n. true;
  clock = λ n. noon;
  root_there = true;
  tree = nil;
  enumerated = enum_failed;
  health = healthy;
  copies = λ p. true;
}

abbrev calls : Calls (List WideString)
calls = record {
  i_files = path_files;
  list_dir = dir_r;
  remove_directory = no_directories;
  disk_free = λ files p. none;
  delete_file = delete_listed;
}

abbrev at_shutdown : Service (List WideString)
at_shutdown = record {
  world = staged_world;
  ops = [];
  sessions = empty_sessions;
  last_reconcile = 0;
  last_backup = 0;
}

maintenance_pass-stopped_example :
    maintenance_pass small calls defaults stopping 3 true at_shutdown ≡ at_shutdown
unfolding db_list_staged sort_oldest insert_oldest config_load
maintenance_pass-stopped_example =
    maintenance_pass-stopped small calls defaults stopping 2 true at_shutdown refl (omega arith)
