-- ===== src/Driver/Queue/Ports.antt =====
-- driver/rbminiflt.c, RB-23: no client port is used after the disconnect callback has returned.
use recyclebin_svc.Base.{false, Option, none, some, [], ◌≡◌, refl, arith, ◌∙◌, sym}
use recyclebin_svc.Driver.State.{Node, Global, entry_global}
use recyclebin_svc.Driver.Queue.{port_disconnect}
use recyclebin_svc.Driver.Queue.Invariant.{
  System, Reach, Inv, AreLive, FlyingIsLive, is_flying, Reach-Inv,
}

-- The driver after `DriverEntry`: no client, nothing queued, nothing in flight.
abbrev pub start : System
start = record { global = entry_global; in_flight = none }

pub start-Inv : Inv start
unfolding entry_global
start-Inv = ground arith

-- However callbacks, send thread, connects and disconnects interleave after the driver's start, each
-- queued notification and the one being sent has the port of the client that is connected now.
pub Reach-AreLive :
    {t : System}
    → Reach start t
    → AreLive t.global.client_port t.global.queue × FlyingIsLive t.global.client_port t.in_flight
Reach-AreLive r = ((Reach-Inv start-Inv r).queue_live, (Reach-Inv start-Inv r).flying_live)

not_flying : (f : Option Node) → is_flying f ≡ false → f ≡ none
not_flying none e = refl
not_flying (some n) e = cc

idle_disconnect :
    (g g' : Global)
    → port_disconnect g ≡ some g'
    → (g.sending ≡ false) × (g'.client_port ≡ none) × (g'.queue ≡ [])
unfolding port_disconnect
idle_disconnect g g' h = ground arith

-- When a disconnect callback gets past its wait, in any state that the driver reaches, nothing is
-- being sent, and it leaves no client port and no queued node that could still name the dead port.
pub disconnect_quiesces :
    {t : System} (g : Global)
    → Reach start t
    → port_disconnect t.global ≡ some g
    → (t.in_flight ≡ none) × (g.client_port ≡ none) × (g.queue ≡ [])
disconnect_quiesces {t} g r h =
    let idle = idle_disconnect t.global g h in
    (not_flying t.in_flight (sym (Reach-Inv start-Inv r).flag_exact ∙ idle.0), idle.1, idle.2)
