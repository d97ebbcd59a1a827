-- ===== src/Driver/Queue/Capacity.antt =====
-- driver/rbminiflt.c, RB-08: what the reservation bounds, and what it does not.
use recyclebin_svc.Base.{
  ℕ, zero, suc, ◌+◌, ◌<◌, true, [], ◌∷◌, ◌++◌, ◌≡◌, arith, length, length-append, ap,
}
use recyclebin_svc.Driver.State.{Node, Global, rbf_queue_max}
use recyclebin_svc.Driver.Queue.{reserve_queue_slot, queue_insert, port_is}

-- One intercepted delete as the queue sees it: take a slot, then honour it.
unfoldable pub admit : Node → Global → Global
unfolding reserve_queue_slot queue_insert
admit node g = (queue_insert node (reserve_queue_slot g).1).1

unfoldable pub burst : ℕ → Node → Global → Global
unfolding admit
burst zero node g = g
burst (suc n) node g = burst n node (admit node g)

abbrev IsReady : Node → Global → Type 0
IsReady node g = (port_is g.client_port node.port ≡ true) × (g.reserved < rbf_queue_max)

admit-IsReady : (node : Node) (g : Global) → IsReady node g → IsReady node (admit node g)
unfolding admit
admit-IsReady node g h = ground arith

admit-granted :
    (node : Node) (g : Global)
    → IsReady node g
    → ((reserve_queue_slot g).0 ≡ true) × ((admit node g).queue ≡ g.queue ++ node ∷ [])
unfolding admit
admit-granted node g h = ground arith

-- A burst of `n` deletes that finds a connected client and a free slot gets a slot for every one of
-- them and queues them all, whatever the depth of the queue: its length grows by `n`, past
-- RBF_QUEUE_MAX too.
burst_unbounded :
    (n : ℕ) (node : Node) (g : Global)
    → port_is g.client_port node.port ≡ true
    → g.reserved < rbf_queue_max
    → (length (burst n node g).queue ≡ length g.queue + n)
      × ((reserve_queue_slot (burst n node g)).0 ≡ true)
unfolding burst
burst_unbounded zero node g live room = (omega arith, (admit-granted node g (live, room)).0)
burst_unbounded (suc n) node g live room =
    let ready = admit-IsReady node g (live, room) in
    let rest = burst_unbounded n node (admit node g) ready.0 ready.1 in
    (
      omega (
        arith,
        rest.0,
        length-append g.queue (node ∷ []),
        ap length (admit-granted node g (live, room)).1,
      ),
      rest.1,
    )
