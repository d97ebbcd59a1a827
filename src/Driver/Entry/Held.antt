-- ===== src/Driver/Entry/Held.antt =====
-- driver/rbminiflt.c: the driver starts with everything it needs or keeps nothing, and unloads clean.
use recyclebin_svc.Base.{true, false, Option, none, some, [], ◌≡◌, ◌⊎◌, inl, inr, refl}
use recyclebin_svc.Driver.State.{Status, success, entry_global}
use recyclebin_svc.Driver.Kernel.{Kernel}
use recyclebin_svc.Driver.Config.{Registry, load_config, free_config}
use recyclebin_svc.Driver.Queue.{flush_queue}
use recyclebin_svc.Driver.Entry.{
  Driver, EntryEnv, rbf_stop_send_thread, after_thread, after_port, after_descriptor,
  after_register, driver_entry, rbf_unload,
}

-- Nothing is held, and no pattern or path of the configuration is left in the pool.
pub record IsReleased (d : Driver) : Type 0 where
  pub filter : d.filter ≡ false
  pub server_port : d.server_port ≡ false
  pub send_thread : d.send_thread ≡ false
  pub protected : d.global.protected ≡ []
  pub exclude : d.global.exclude ≡ []

pub record IsRunning (d : Driver) : Type 0 where
  pub filter : d.filter ≡ true
  pub server_port : d.server_port ≡ true
  pub send_thread : d.send_thread ≡ true

-- The calls fail with the status of one that failed.
abbrev pub Failed : EntryEnv → Status → Type 0
Failed env status =
    (env.register ≡ some status)
    ⊎ (env.descriptor ≡ some status)
    ⊎ (env.create_port ≡ some status)
    ⊎ (env.create_thread ≡ some status)
    ⊎ (env.start ≡ some status)

abbrev pub IsEntered : EntryEnv → Status × Driver → Type 0
IsEntered env r = ((r.0 ≡ success) × IsRunning r.1) ⊎ (Failed env r.0 × IsReleased r.1)

after_thread-IsEntered :
    (env : EntryEnv) (o : Option Status) (d : Driver)
    → env.start ≡ o
    → d.filter ≡ true
    → d.server_port ≡ true
    → d.send_thread ≡ true
    → IsEntered env (after_thread o d)
unfolding after_thread free_config rbf_stop_send_thread
after_thread-IsEntered env none d e f p t =
    inl (refl, record { filter = f; server_port = p; send_thread = t })
after_thread-IsEntered env (some status) d e f p t = inr (
  inr (inr (inr (inr e))),
  record {
    filter = refl;
    server_port = refl;
    send_thread = refl;
    protected = refl;
    exclude = refl;
  },
)

after_port-IsEntered :
    (env : EntryEnv) (o : Option Status) (d : Driver)
    → env.create_thread ≡ o
    → d.filter ≡ true
    → d.server_port ≡ true
    → d.send_thread ≡ false
    → IsEntered env (after_port env o d)
unfolding after_port free_config
after_port-IsEntered env none d e f p t = after_thread-IsEntered env env.start _ refl f p refl
after_port-IsEntered env (some status) d e f p t = inr (
  inr (inr (inr (inl e))),
  record { filter = refl; server_port = refl; send_thread = t; protected = refl; exclude = refl },
)

after_descriptor-IsEntered :
    (env : EntryEnv) (o : Option Status) (d : Driver)
    → env.create_port ≡ o
    → d.filter ≡ true
    → d.server_port ≡ false
    → d.send_thread ≡ false
    → IsEntered env (after_descriptor env o d)
unfolding after_descriptor free_config
after_descriptor-IsEntered env none d e f p t =
    after_port-IsEntered env env.create_thread _ refl f refl t
after_descriptor-IsEntered env (some status) d e f p t = inr (
  inr (inr (inl e)),
  record { filter = refl; server_port = p; send_thread = t; protected = refl; exclude = refl },
)

after_register-IsEntered :
    (env : EntryEnv) (o : Option Status) (d : Driver)
    → env.descriptor ≡ o
    → d.filter ≡ true
    → d.server_port ≡ false
    → d.send_thread ≡ false
    → IsEntered env (after_register env o d)
unfolding after_register free_config
after_register-IsEntered env none d e f p t =
    after_descriptor-IsEntered env env.create_port _ refl f p t
after_register-IsEntered env (some status) d e f p t = inr (
  inr (inl e),
  record { filter = refl; server_port = p; send_thread = t; protected = refl; exclude = refl },
)

-- The driver starts with its filter, its port and its send thread, or it fails with the status of a
-- call that failed, and then holds none of them and has freed its configuration.
pub driver_entry-IsEntered :
    (k : Kernel) (reg : Registry) (env : EntryEnv) → IsEntered env (driver_entry k reg env)
unfolding driver_entry free_config
driver_entry-IsEntered k reg env =
    elim env.register
        as (λ o.
          env.register ≡ o
          → IsEntered env (elim o as (λ _. Status × Driver) [
            | none ↦ after_register env env.descriptor (record {
              global = load_config k reg entry_global;
              filter = true;
              server_port = false;
              send_thread = false;
            })
            | some status ↦ (
              status,
              record {
                global = free_config (load_config k reg entry_global);
                filter = false;
                server_port = false;
                send_thread = false;
              },
            )
          ])) [
            | none ↦ λ e. after_register-IsEntered env env.descriptor _ refl refl refl refl
            | some status ↦ λ e. inr (
              inl e,
              record {
                filter = refl;
                server_port = refl;
                send_thread = refl;
                protected = refl;
                exclude = refl;
              },
            )
          ]
      refl

-- Unloading holds nothing back, and no notification is left in the queue.
rbf_unload-IsReleased :
    (d : Driver) → IsReleased (rbf_unload d) × ((rbf_unload d).global.queue ≡ [])
unfolding rbf_unload free_config flush_queue rbf_stop_send_thread
rbf_unload-IsReleased d = (
  record {
    filter = refl;
    server_port = refl;
    send_thread = refl;
    protected = refl;
    exclude = refl;
  },
  refl,
)
