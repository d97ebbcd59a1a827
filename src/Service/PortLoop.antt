-- ===== src/Service/PortLoop.antt =====
-- service_c/rbport.c: the port thread, which reads the driver's messages and connects again.
pub mod Messages
use recyclebin_svc.Base.{
  ℕ, zero, suc, ◌+◌, ◌-◌, Bool, true, false, not, Option, none, some, List, [], ◌∷◌, WideString,
  ltb, leb, if◌then◌else◌,
}
use recyclebin_svc.Driver.State.{Note, rbf_notify_max_size}
use recyclebin_svc.Service.Db.{Table}
use recyclebin_svc.Service.Port.{port_handle_message}

-- What one FilterGetMessage comes to: a message of so many bytes with its header, behind a wait; a read
-- cancelled in it, or failed; nothing within the read interval; a message at once; or a failure at once.
-- It is what the thread sees in its buffer and OVERLAPPED, whichever of the pending reads wrote them.
pub data Read : Type 0 where
  arrived : Note → ℕ → Read
  aborted broken quiet : Read
  at_once : Note → Read
  refused : Read

-- What one round of the loop meets: whether the stop event is set before it, the handle that
-- FilterConnectCommunicationPort gives if it is called, the read, the time, and whether the stop event
-- is set in the waits behind.
pub record Round : Type 0 where
  pub stop : Bool
  pub connects : Option ℕ
  pub read : Read
  pub now : ℕ
  pub stop_later : Bool

-- The thread's variables with g_Port and g_LastMsgTick, the table, how often it sampled, and how many
-- reads of this connection timed out and are still pending on the one buffer and OVERLAPPED that the
-- next rounds clear and use again; closing the port cancels them.
pub record PortState : Type 0 where
  pub connected : Bool
  pub port : Option ℕ
  pub last_msg : ℕ
  pub last_sample : ℕ
  pub samples : ℕ
  pub stale : ℕ
  pub table : Table

abbrev pub rbsvc_stats_interval : ℕ
rbsvc_stats_interval = 5

module _ (sql_ok : Bool) (client : WideString → WideString) where
  abbrev pub port_close : PortState → PortState
  port_close s = record s { port = none; stale = 0 }

  -- Behind a failure: whether the loop goes on, and the state.
  abbrev pub lost : Round → PortState → Bool × PortState
  lost r s = (not r.stop_later, record s { connected = false; port = none; stale = 0 })

  abbrev pub handled : Round → Note → ℕ → PortState → Bool × PortState
  handled r note avail s = (
    true,
    record s {
      last_msg = r.now;
      table = port_handle_message sql_ok r.now client note avail s.table;
    },
  )

  unfoldable pub port_read : Round → Read → PortState → Bool × PortState
  port_read r (arrived note bytes) s = handled r note (bytes - 16) s
  port_read r aborted s = (true, s)
  port_read r broken s = lost r s
  port_read r quiet s =
      if r.stop_later
      then (false, s)
      else if leb (s.last_sample + rbsvc_stats_interval) r.now
      then (true, record s { last_sample = r.now; samples = suc s.samples; stale = suc s.stale })
      else (true, record s { stale = suc s.stale })
  port_read r (at_once note) s = handled r note rbf_notify_max_size s
  port_read r refused s = lost r s

  -- `PortConnect`, and the read behind it.
  unfoldable pub port_connecting : Round → Option ℕ → PortState → Bool × PortState
  port_connecting r none s = (not r.stop_later, record s { port = none })
  port_connecting r (some h) s =
      port_read r r.read
        (record s { connected = true; port = some h; last_sample = 0; last_msg = r.now })

  unfoldable pub port_round : Round → PortState → Bool × PortState
  port_round r s = if s.connected then port_read r r.read s else port_connecting r r.connects s

  -- `PortThreadProc` over the rounds it makes: whether it has ended, and the state.
  unfoldable pub port_thread : List Round → PortState → Bool × PortState
  port_thread [] s = (false, s)
  port_thread (r ∷ rounds) s =
      let one = port_round r s in
      let rest = port_thread rounds one.1 in
      if r.stop then (true, port_close s) else if one.0 then rest else (true, port_close one.1)
