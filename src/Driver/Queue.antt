-- ===== src/Driver/Queue.antt =====
-- driver/rbminiflt.c: slot reservation, the notification queue, the send thread and the
-- communication port. Each function is one critical section under `QueueLock`, or a composition of
-- such; what another thread does between two of them is an argument.
pub mod Invariant
pub mod Ports
pub mod Capacity
use recyclebin_svc.Base.{
  ℕ, ◌-◌, Bool, true, false, not, ◌&&◌, Option, none, some, List, [], ◌∷◌, ◌++◌, ltb, ◌==◌,
  if◌then◌else◌, inc32, dec32, inc64,
}
use recyclebin_svc.Driver.State.{
  Status, success, invalid_parameter, device_not_ready, port_disconnected, insufficient_resources,
  Note, Node, Stats, Global, rbf_queue_max, rbf_notify_magic, notification_size,
  rbf_notify_max_size, buffer_too_small, invalid_device_request, stats_size, reply_size,
  rbf_cmd_query_stats,
}

-- if (G.Reserved > 0) G.Reserved--;
abbrev pub drop_reserved : ℕ → ℕ
drop_reserved r = if ltb 0 r then r - 1 else r

-- InterlockedIncrement64(&G.Stats.NotifyDropped)
abbrev pub count_dropped : Global → Global
count_dropped g = record g {
  stats = record g.stats { notify_dropped = inc64 g.stats.notify_dropped };
}

unfoldable pub reserve_queue_slot : Global → Bool × Global
reserve_queue_slot g =
    if ltb g.reserved rbf_queue_max
    then (true, record g { reserved = inc32 g.reserved })
    else (false, g)

unfoldable pub release_queue_slot : Global → Global
release_queue_slot g = record g { reserved = drop_reserved g.reserved }

-- The high-water mark after one more entry.
abbrev pub raise_max : ℕ → ℕ → ℕ
raise_max depth high = if ltb high depth then depth else high

unfoldable pub commit_queue_slot : Global → Global
commit_queue_slot g = record g {
  reserved = drop_reserved g.reserved;
  queue_depth = inc32 g.queue_depth;
  max_queue_depth = raise_max (inc32 g.queue_depth) g.max_queue_depth;
}

-- `G.ClientPort != port`, for a snapshot that is not NULL
abbrev pub port_is : Option ℕ → ℕ → Bool
port_is none p = false
port_is (some q) p = q == p

abbrev pub is_well_formed : Note → Bool
is_well_formed n =
    n.magic == rbf_notify_magic
    && not (ltb n.total_size notification_size)
    && not (ltb rbf_notify_max_size n.total_size)

-- The second critical section of `RbfQueueNotify`: re-check the port, and insert.
unfoldable pub queue_insert : Node → Global → Status × Global
unfolding release_queue_slot
queue_insert node g =
    if port_is g.client_port node.port
    then (
      success,
      record g {
        queue = g.queue ++ node ∷ [];
        reserved = drop_reserved g.reserved;
        queue_depth = inc32 g.queue_depth;
        max_queue_depth = raise_max (inc32 g.queue_depth) g.max_queue_depth;
        stats = record g.stats {
          queue_depth = inc32 g.queue_depth;
          max_queue_depth = raise_max (inc32 g.queue_depth) g.max_queue_depth;
        };
      },
    )
    else (port_disconnected, count_dropped (release_queue_slot g))

-- What the rest of the system answers while a callback queues its notification: whether the pool
-- gives a node, and what other threads do to `G` between the port snapshot and the insertion.
pub record QueueEnv : Type 0 where
  pub node_alloc : Bool
  pub between : Global → Global

-- `RbfQueueNotify` behind the two guards that need no port
unfoldable pub queue_with_port : QueueEnv → Note → Option ℕ → Global → Status × Global
unfolding release_queue_slot queue_insert
queue_with_port env note none g = (port_disconnected, count_dropped (release_queue_slot g))
queue_with_port env note (some p) g =
    if env.node_alloc
    then queue_insert (record { port = p; size = note.total_size; notification = note })
        (env.between g)
    else (insufficient_resources, count_dropped (release_queue_slot g))

unfoldable pub queue_notify : QueueEnv → Note → Global → Status × Global
unfolding release_queue_slot queue_with_port
queue_notify env note g =
    if not (is_well_formed note)
    then (invalid_parameter, release_queue_slot g)
    else if not g.queue_active
    then (device_not_ready, count_dropped (release_queue_slot g))
    else queue_with_port env note g.client_port g

-- The send thread takes the head of the queue and publishes that it is sending.
dequeue_from : List Node → Global → Option (Node × Global)
dequeue_from [] g = none
dequeue_from (node ∷ rest) g = some (
  node,
  record g {
    queue = rest;
    queue_depth = dec32 g.queue_depth;
    stats = record g.stats { queue_depth = dec32 g.queue_depth };
    sending = true;
  },
)

unfoldable pub send_begin : Global → Option (Node × Global)
unfolding dequeue_from
send_begin g = dequeue_from g.queue g

-- FltSendMessage has returned: count the result, then clear `Sending`.
unfoldable pub send_end : Bool → Global → Global
send_end sent g = record g {
  stats =
      if sent
      then record g.stats { notify_sent = inc64 g.stats.notify_sent }
      else record g.stats { notify_dropped = inc64 g.stats.notify_dropped };
  sending = false;
}

flush_from : List Node → Global → Option Global
flush_from [] g = none
flush_from (_ ∷ rest) g = some (record g { queue = rest; queue_depth = dec32 g.queue_depth })

-- The critical section in a round of the loop of `RbfFlushQueue`, none once the queue is empty: the
-- published depth stays as it is.
unfoldable pub flush_one : Global → Option Global
unfolding flush_from
flush_one g = flush_from g.queue g

-- `RbfFlushQueue`: the unload path empties the queue, and leaves the published depth as it is.
flush_nodes : List Node → ℕ → ℕ
flush_nodes [] depth = depth
flush_nodes (_ ∷ rest) depth = flush_nodes rest (dec32 depth)

unfoldable pub flush_queue : Global → Global
unfolding flush_nodes
flush_queue g = record g { queue = []; queue_depth = flush_nodes g.queue g.queue_depth }

unfoldable pub port_connect : ℕ → Global → Global
port_connect p g = record g { client_port = some p }

-- One round of the loop in `RbfPortDisconnect`: `none` is the wait while the send thread is inside
-- FltSendMessage.
unfoldable pub port_disconnect : Global → Option Global
unfolding flush_nodes
port_disconnect g =
    if g.sending
    then none
    else let depth = flush_nodes g.queue g.queue_depth in
      let published : ℕ = elim g.queue [ [] ↦ g.stats.queue_depth | _ ∷ _ ↦ depth ] in
      some (record g {
        client_port = none;
        queue = [];
        queue_depth = depth;
        stats = record g.stats { queue_depth = published };
      })

-- `RbfPortMessage` on the input buffer's `Ack` (none for no buffer), with the two lengths. The
-- result is the status, the returned length and the statistics copied out.
unfoldable pub port_message : Option ℕ → ℕ → ℕ → Global → Status × ℕ × Option Stats
port_message none in_len out_len g = (invalid_parameter, 0, none)
port_message (some ack) in_len out_len g =
    if ltb in_len reply_size
    then (invalid_parameter, 0, none)
    else if ack == rbf_cmd_query_stats
    then if ltb out_len stats_size
      then (buffer_too_small, 0, none)
      else (success, stats_size, some g.stats)
    else (invalid_device_request, 0, none)
