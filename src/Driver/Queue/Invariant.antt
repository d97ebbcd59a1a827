-- ===== src/Driver/Queue/Invariant.antt =====
-- driver/rbminiflt.c: interleavings of the callbacks, the send thread and the communication port, and
-- what holds of the queue in every state that they reach.
use recyclebin_svc.Base.{
  ℕ, ◌≤◌, ◌<◌, Bool, true, false, Option, none, some, List, [], ◌∷◌, ◌++◌, ◌≡◌, refl, arith, subst,
  length, All, All-append, length-append, ap, ◌⊎◌, inl, inr, Bool-cases, ==_iff, dec32,
}
use recyclebin_svc.Driver.State.{Node, Global, rbf_queue_max}
use recyclebin_svc.Driver.Queue.{
  reserve_queue_slot, release_queue_slot, count_dropped, queue_insert, send_begin, dequeue_from,
  send_end, flush_nodes, flush_from, flush_one, port_is, port_connect, port_disconnect,
}

-- The global state, and the node that the send thread has taken and not yet freed.
pub record System : Type 0 where
  pub global : Global
  pub in_flight : Option Node

-- One section of some thread under QueueLock that may change `G`, and the stop of the queue, which an
-- unload and a failed start of filtering make without the lock before anything is flushed. The snapshot that a callback took of the port is the port of
-- its node, any value at all. The filter manager connects one client at a time
-- (FltCreateCommunicationPort with MaxConnections = 1). The pool runs out long before it holds 2^32
-- nodes, which is the premise of `insert`. RbfCommitQueueSlot, which nothing calls, is left out.
pub data Step : System → System → Type 0 where
  reserve : (s : System) → Step s (record s { global = (reserve_queue_slot s.global).1 })
  release : (s : System) → Step s (record s { global = release_queue_slot s.global })
  lose : (s : System) → Step s (record s { global = count_dropped (release_queue_slot s.global) })
  insert :
      (s : System) (node : Node)
      → length s.global.queue < 4294967295
      → Step s (record s { global = (queue_insert node s.global).1 })
  begin :
      (s : System) (node : Node) (g : Global)
      → s.in_flight ≡ none
      → send_begin s.global ≡ some (node, g)
      → Step s (record { global = g; in_flight = some node })
  finish :
      (s : System) (node : Node) (sent : Bool)
      → s.in_flight ≡ some node
      → Step s (record { global = send_end sent s.global; in_flight = none })
  connect :
      (s : System) (port : ℕ)
      → s.global.client_port ≡ none
      → Step s (record s { global = port_connect port s.global })
  disconnect :
      (s : System) (g : Global)
      → port_disconnect s.global ≡ some g
      → Step s (record s { global = g })
  stop : (s : System) → Step s (record s { global = record s.global { queue_active = false } })
  flush :
      (s : System) (g : Global)
      → s.global.queue_active ≡ false
      → flush_one s.global ≡ some g
      → Step s (record s { global = g })

pub data Reach (s : System) : System → Type 0 where
  here : Reach s s
  next : {t u : System} → Reach s t → Step t u → Reach s u

abbrev pub is_flying : Option Node → Bool
is_flying none = false
is_flying (some _) = true

-- The node, if there is one, has the port that is connected.
abbrev pub FlyingIsLive : Option ℕ → Option Node → Type 0
FlyingIsLive port none = Unit
FlyingIsLive port (some n) = port ≡ some n.port

-- Every queued node, and the one in flight, has the port that is connected.
abbrev pub AreLive : Option ℕ → List Node → Type 0
AreLive port = All (λ n. port ≡ some n.port)

pub record Inv (s : System) : Type 0 where
  pub depth_exact : s.global.queue_depth ≡ length s.global.queue
  pub depth_fits : length s.global.queue < 4294967296
  pub depth_high : s.global.queue_depth ≤ s.global.max_queue_depth
  pub published :
      (s.global.queue_active ≡ false) ⊎ (s.global.stats.queue_depth ≡ s.global.queue_depth)
  pub reserved_capped : s.global.reserved ≤ rbf_queue_max
  pub flag_exact : s.global.sending ≡ is_flying s.in_flight
  pub queue_live : AreLive s.global.client_port s.global.queue
  pub flying_live : FlyingIsLive s.global.client_port s.in_flight

FlyingIsLive-none : (f : Option Node) (port : Option ℕ) → FlyingIsLive none f → FlyingIsLive port f
FlyingIsLive-none none port h = tt
FlyingIsLive-none (some n) port h = cc

AreLive-none : (q : List Node) → AreLive none q → q ≡ []
AreLive-none [] h = refl
AreLive-none (n ∷ q) h = cc (h.0)

reserve-Inv : (s : System) → Inv s → Inv (record s { global = (reserve_queue_slot s.global).1 })
unfolding reserve_queue_slot
reserve-Inv s i = ground arith

lose-Inv :
    (s : System) → Inv s → Inv (record s { global = count_dropped (release_queue_slot s.global) })
unfolding release_queue_slot
lose-Inv s i = ground arith

release-Inv : (s : System) → Inv s → Inv (record s { global = release_queue_slot s.global })
unfolding release_queue_slot
release-Inv s i = ground arith

AreLive-snoc :
    (port : Option ℕ) (q : List Node) (n : Node)
    → AreLive port q
    → port ≡ some n.port
    → AreLive port (q ++ n ∷ [])
AreLive-snoc port q n h e = All-append (λ m. port ≡ some m.port) q (n ∷ []) h (e, tt)

port_is-true : (o : Option ℕ) (p : ℕ) → port_is o p ≡ true → o ≡ some p
port_is-true none p h = cc
port_is-true (some q) p h = ap some ((==_iff q p).0 h)

insert-Inv :
    (s : System) (node : Node)
    → Inv s
    → length s.global.queue < 4294967295
    → Inv (record s { global = (queue_insert node s.global).1 })
unfolding queue_insert
insert-Inv s node i fits = elim (Bool-cases (port_is s.global.client_port node.port)) [
  | inl e ↦ rw e (record {
    depth_exact = omega (arith, length-append s.global.queue (node ∷ []), i.depth_exact);
    depth_fits = omega (arith, length-append s.global.queue (node ∷ []));
    depth_high = ground arith;
    published = inr refl;
    reserved_capped = ground arith;
    flag_exact = i.flag_exact;
    queue_live = AreLive-snoc _ _ node i.queue_live (port_is-true _ _ e);
    flying_live = i.flying_live;
  })
  | inr e ↦ rw e (ground arith)
]

flush_nodes-exact :
    (q : List Node) (depth : ℕ) → depth ≡ length q → length q < 4294967296 → flush_nodes q depth ≡ 0
unfolding flush_nodes
flush_nodes-exact [] depth h fits = h
flush_nodes-exact (_ ∷ q) depth h fits =
    flush_nodes-exact q (dec32 depth) (omega arith) (omega arith)

-- The send thread's first section, on the queue that it finds.
begin_from-Inv :
    (q : List Node) (g g' : Global) (node : Node)
    → Inv (record { global = record g { queue = q }; in_flight = none })
    → dequeue_from q g ≡ some (node, g')
    → Inv (record { global = g'; in_flight = some node })
unfolding dequeue_from
begin_from-Inv [] g g' node i h = cc
begin_from-Inv (n ∷ q) g g' node i h = ground (arith, i.queue_live)

begin-Inv :
    (s : System) (node : Node) (g : Global)
    → Inv s
    → s.in_flight ≡ none
    → send_begin s.global ≡ some (node, g)
    → Inv (record { global = g; in_flight = some node })
unfolding send_begin
begin-Inv s node g i idle h =
    begin_from-Inv s.global.queue s.global g node
      (subst (λ f. Inv (record s { in_flight = f })) idle i) h

finish-Inv :
    (s : System) (node : Node) (sent : Bool)
    → Inv s
    → Inv (record { global = send_end sent s.global; in_flight = none })
unfolding send_end
finish-Inv s node true i = ground arith
finish-Inv s node false i = ground arith

connect-Inv :
    (s : System) (port : ℕ)
    → Inv s
    → s.global.client_port ≡ none
    → Inv (record s { global = port_connect port s.global })
unfolding port_connect
connect-Inv s port i e = record {
  depth_exact = i.depth_exact;
  depth_fits = i.depth_fits;
  depth_high = i.depth_high;
  published = i.published;
  reserved_capped = i.reserved_capped;
  flag_exact = i.flag_exact;
  queue_live = rw (AreLive-none s.global.queue (rw e at i.queue_live)) tt;
  flying_live = FlyingIsLive-none s.in_flight _ (rw e at i.flying_live);
}

disconnect-Inv :
    (s : System) (g : Global)
    → Inv s
    → port_disconnect s.global ≡ some g
    → Inv (record s { global = g })
unfolding port_disconnect
disconnect-Inv s g i h = ground (arith, flush_nodes-exact s.global.queue s.global.queue_depth)

flush_from-Inv :
    (q : List Node) (g g' : Global) (f : Option Node)
    → Inv (record { global = record g { queue = q }; in_flight = f })
    → g.queue_active ≡ false
    → flush_from q g ≡ some g'
    → Inv (record { global = g'; in_flight = f })
unfolding flush_from
flush_from-Inv [] g g' f i idle h = cc
flush_from-Inv (n ∷ q) g g' f i idle h = ground (arith, i.queue_live)

flush-Inv :
    (s : System) (g : Global)
    → Inv s
    → s.global.queue_active ≡ false
    → flush_one s.global ≡ some g
    → Inv (record s { global = g })
unfolding flush_one
flush-Inv s g i idle h = flush_from-Inv s.global.queue s.global g s.in_flight i idle h

stop-Inv :
    (s : System) → Inv s → Inv (record s { global = record s.global { queue_active = false } })
stop-Inv s i = record {
  depth_exact = i.depth_exact;
  depth_fits = i.depth_fits;
  depth_high = i.depth_high;
  published = inl refl;
  reserved_capped = i.reserved_capped;
  flag_exact = i.flag_exact;
  queue_live = i.queue_live;
  flying_live = i.flying_live;
}

-- Every section under QueueLock that may change the queue, its counts, the port or the sending flag, be
-- it of a callback, the send thread, the port's callbacks or the flush of an unload, keeps the invariant,
-- and so does stopping the queue: the depth is the queue's length, and while the queue is not stopped it
-- is published; the peak is no lower, no more than RBF_QUEUE_MAX slots are reserved, the sending flag
-- says whether a node is in flight, and each node queued or in flight is for the port that is connected.
-- An insertion is taken to find fewer than 2^32 - 1 nodes.
pub Step-Inv : {s t : System} → Step s t → Inv s → Inv t
Step-Inv (reserve s) i = reserve-Inv s i
Step-Inv (release s) i = release-Inv s i
Step-Inv (lose s) i = lose-Inv s i
Step-Inv (insert s node fits) i = insert-Inv s node i fits
Step-Inv (begin s node g idle h) i = begin-Inv s node g i idle h
Step-Inv (finish s node sent h) i = finish-Inv s node sent i
Step-Inv (connect s port e) i = connect-Inv s port i e
Step-Inv (disconnect s g h) i = disconnect-Inv s g i h
Step-Inv (stop s) i = stop-Inv s i
Step-Inv (flush s g idle h) i = flush-Inv s g i idle h

pub Reach-Inv : {s t : System} → Inv s → Reach s t → Inv t
Reach-Inv i here = i
Reach-Inv i (next r st) = Step-Inv st (Reach-Inv i r)
