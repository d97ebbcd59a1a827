-- ===== src/Driver/Entry.antt =====
-- driver/rbminiflt.c: DriverEntry with its ways out, and RbfUnload.
pub mod Held
use recyclebin_svc.Base.{Bool, true, false, not, if◌then◌else◌, Option, none, some}
use recyclebin_svc.Driver.State.{Status, success, Global, entry_global}
use recyclebin_svc.Driver.Kernel.{Kernel}
use recyclebin_svc.Driver.Config.{Registry, load_config, free_config}
use recyclebin_svc.Driver.Queue.{flush_queue}

-- `G`, and which of its handles are held: the filter, the server port, the send thread.
pub record Driver : Type 0 where
  pub global : Global
  pub filter : Bool
  pub server_port : Bool
  pub send_thread : Bool

-- What the calls of DriverEntry answer, none for success: FltRegisterFilter,
-- FltBuildDefaultSecurityDescriptor, FltCreateCommunicationPort, PsCreateSystemThread, and
-- FltStartFiltering.
pub record EntryEnv : Type 0 where
  pub register : Option Status
  pub descriptor : Option Status
  pub create_port : Option Status
  pub create_thread : Option Status
  pub start : Option Status

abbrev pub free_config_of : Driver → Driver
free_config_of d = record d { global = free_config d.global }

-- FltUnregisterFilter and RbfFreeConfig, which each later way out ends with.
abbrev pub unregister : Driver → Driver
unregister d = free_config_of (record d { filter = false })

abbrev pub close_port : Driver → Driver
close_port d = record d { server_port = false }

-- `RbfStopSendThread`: the handle is closed whether or not the thread could be waited for.
unfoldable pub rbf_stop_send_thread : Driver → Driver
rbf_stop_send_thread d = record d { send_thread = false }

abbrev pub deactivate : Driver → Driver
deactivate d = record d { global = record d.global { queue_active = false } }

unfoldable pub after_thread : Option Status → Driver → Status × Driver
after_thread none d = (success, d)
after_thread (some status) d =
    (status, unregister (close_port (rbf_stop_send_thread (deactivate d))))

unfoldable pub after_port : EntryEnv → Option Status → Driver → Status × Driver
after_port env none d = after_thread env.start (record d { send_thread = true })
after_port env (some status) d = (status, unregister (close_port d))

unfoldable pub after_descriptor : EntryEnv → Option Status → Driver → Status × Driver
after_descriptor env none d = after_port env env.create_thread (record d { server_port = true })
after_descriptor env (some status) d = (status, unregister d)

unfoldable pub after_register : EntryEnv → Option Status → Driver → Status × Driver
after_register env none d = after_descriptor env env.create_port d
after_register env (some status) d = (status, unregister d)

unfoldable pub driver_entry : Kernel → Registry → EntryEnv → Status × Driver
driver_entry k reg env =
    let loaded : Driver = record {
      global = load_config k reg entry_global;
      filter = false;
      server_port = false;
      send_thread = false;
    } in
    elim env.register [
      | none ↦ after_register env env.descriptor (record loaded { filter = true })
      | some status ↦ (status, free_config_of loaded)
    ]

-- `RbfUnload`; a handle that is not held is not closed.
unfoldable pub rbf_unload : Driver → Driver
rbf_unload d =
    let stopped = rbf_stop_send_thread (deactivate d) in
    unregister (close_port (record stopped { global = flush_queue stopped.global }))
