-- ===== src/Tests/Port.antt =====
-- service_c/rbport.c: a run of the port thread, and one query of the statistics.
use recyclebin_svc.Base.{◌≤◌, true, false, none, some, List, [], ◌∷◌, ◌≡◌, refl}
use recyclebin_svc.Service.PortLoop.{Read, arrived, broken, at_once, Round, PortState, port_thread}
use recyclebin_svc.Service.PortLoop.Messages.{store_reads, port_thread-table}
use recyclebin_svc.Service.StatsQuery.{
  StatsState, QueryEnv, fresh_ctx, port_query_begin, worker_from, in_flight_behind, worker_step,
}
use recyclebin_svc.Service.StatsQuery.Shared.{
  Reach, start, then_step, begins, worker_goes, IsSafe, Reach-IsSafe,
}
use recyclebin_svc.Tests.{small_note}
use recyclebin_svc.Tests.Service.{table_1, no_client}

abbrev round_of : Read → Round
round_of read = record {
  stop = false;
  connects = some 4;
  read = read;
  now = 100;
  stop_later = false;
}

-- A message, a failure, and a message on the next connection.
abbrev rounds : List Round
rounds = round_of (arrived small_note 70) ∷ round_of broken ∷ round_of (at_once small_note) ∷ []

abbrev unconnected : PortState
unconnected = record {
  connected = false;
  port = none;
  last_msg = 0;
  last_sample = 0;
  samples = 0;
  stale = 0;
  table = table_1;
}

port_thread-table_example :
    ((port_thread true no_client rounds unconnected).0 ≡ false)
    × ((port_thread true no_client rounds unconnected).1.table
        ≡ store_reads true no_client rounds table_1)
    × ((port_thread true no_client rounds unconnected).1.stale ≤ 0)
port_thread-table_example =
    port_thread-table true no_client rounds unconnected (
      (refl, refl, tt, (4, refl)),
      ((refl, refl, tt, (4, refl)), ((refl, refl, tt, (4, refl)), tt)),
    )

abbrev lucky : QueryEnv
lucky = record { has_port = true; alloc = true; duplicate = true; event = true; thread = true }

abbrev idle : StatsState
idle = record { in_flight = false; contexts = [] }

-- The query begins, and its worker comes back from FilterSendMessage.
abbrev under_way_state : StatsState
under_way_state = record { in_flight = true; contexts = worker_step fresh_ctx ∷ [] }

under_way-Reach : Reach under_way_state
unfolding port_query_begin worker_from in_flight_behind
under_way-Reach = then_step (then_step start (begins lucky idle)) (worker_goes true fresh_ctx [] [])

Reach-IsSafe_example : IsSafe under_way_state
Reach-IsSafe_example = Reach-IsSafe under_way_state under_way-Reach
