-- ===== src/Service/StatsQuery.antt =====
-- service_c/rbport.c: the query of the driver's statistics, whose context a caller and a worker share.
pub mod Counted
pub mod Shared
use recyclebin_svc.Base.{ℕ, ◌-◌, Bool, true, false, not, ◌||◌, List, [], ◌∷◌, ◌==◌, if◌then◌else◌}

-- Where the worker is in `PortSendWorker`: in FilterSendMessage, behind it, behind SetEvent, behind
-- clearing g_SendInFlight, behind closing its handle, at its end; or it never started.
pub data WorkerAt : Type 0 where
  sending replied woke cleared closed ended never : WorkerAt

-- Where the caller is: in its wait, on its way to the last release, behind it.
pub data CallerAt : Type 0 where
  waiting leaving gone : CallerAt

-- PORT_SEND_CTX without the reply; `port_open` says that the duplicated handle is open.
pub record SendCtx : Type 0 where
  pub refs : ℕ
  pub done : Bool
  pub port_open : Bool
  pub freed : Bool
  pub caller : CallerAt
  pub worker : WorkerAt

unfoldable pub port_send_ctx_release : SendCtx → SendCtx
port_send_ctx_release c =
    let left = c.refs - 1 in record c { refs = left; freed = if left == 0 then true else c.freed }

-- One step of the worker, and what it makes of g_SendInFlight.
unfoldable pub worker_from : WorkerAt → SendCtx → SendCtx
worker_from sending c = record c { worker = replied }
worker_from replied c = record c { done = true; worker = woke }
worker_from woke c = record c { worker = cleared }
worker_from cleared c = record c { port_open = false; worker = closed }
worker_from closed c = record (port_send_ctx_release c) { worker = ended }
worker_from ended c = c
worker_from never c = c

abbrev pub worker_step : SendCtx → SendCtx
worker_step c = worker_from c.worker c

unfoldable pub in_flight_behind : WorkerAt → Bool → Bool
in_flight_behind woke in_flight = false
in_flight_behind _ in_flight = in_flight

-- One step of the caller; `late` says that its wait times out.
unfoldable pub caller_from : Bool → CallerAt → SendCtx → SendCtx
caller_from late waiting c = if late || c.done then record c { caller = leaving } else c
caller_from late leaving c = record (port_send_ctx_release c) { caller = gone }
caller_from late gone c = c

abbrev pub caller_step : Bool → SendCtx → SendCtx
caller_step late c = caller_from late c.caller c

-- The contexts that were made, and g_SendInFlight.
pub record StatsState : Type 0 where
  pub in_flight : Bool
  pub contexts : List SendCtx

-- What `PortQueryStats` meets up to its wait: an open port, memory, a duplicate of the handle, an event
-- and a thread.
pub record QueryEnv : Type 0 where
  pub has_port : Bool
  pub alloc : Bool
  pub duplicate : Bool
  pub event : Bool
  pub thread : Bool

abbrev pub fresh_ctx : SendCtx
fresh_ctx = record {
  refs = 2;
  done = false;
  port_open = true;
  freed = false;
  caller = waiting;
  worker = sending;
}

-- Both references are dropped for a worker that never started.
abbrev pub abandoned : SendCtx → SendCtx
abandoned c = record (port_send_ctx_release (port_send_ctx_release c)) {
  caller = gone;
  worker = never;
}

abbrev pub is_unready : QueryEnv → Bool
is_unready env = not env.has_port || not env.alloc || not env.duplicate

unfoldable pub port_query_begin : QueryEnv → StatsState → StatsState
port_query_begin env s =
    if s.in_flight || is_unready env
    then s
    else if not env.event || not env.thread
    then record s { contexts = abandoned fresh_ctx ∷ s.contexts }
    else record { in_flight = true; contexts = fresh_ctx ∷ s.contexts }
