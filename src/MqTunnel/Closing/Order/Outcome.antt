-- ===== src/MqTunnel/Closing/Order/Outcome.antt =====
-- `closeAllTunnels`, with its three loops in any order.
use mqtt_tunnel.MqTunnel.Closing.Order.{Agree}
use mqtt_tunnel.MqTunnel.Closing.Order.Loops.{cancel_all-order, cancel_pending-order}
use mqtt_tunnel.MqTunnel.Closing.{cancel_all-Closes}
use mqtt_tunnel.World.{TunnelMaps}
use mqtt_tunnel.MqTunnel.{cancel_all, close_all_tunnels}
use mqtt_tunnel.World.{set_ack_waiting, set_connected, set_pending_confirms}
use mqtt_tunnel.MqTunnel.{cancel_pending}
use mqtt_tunnel.World.{TunnelRef, World}
use mqtt_tunnel.World.Effects.{Env}
use mathlib.Core.List.{Perm}
use mqtt_tunnel.Base.{◌≡◌, sym, ap, subst, ◌∙◌, [], Dict}

-- `closeAllTunnels` where the three `range` loops take the entries in the order of these lists
unfoldable pub close_in_order :
    Env → Dict TunnelRef → Dict TunnelRef → Dict TunnelRef → World → World
unfolding cancel_all cancel_pending
close_in_order env connected waiting pending w =
    let w1 = set_connected [] (cancel_all connected w) in
    let w2 = set_ack_waiting [] (cancel_all waiting w1) in
    set_pending_confirms [] (cancel_pending env pending w2)

-- In whatever order the loops of `closeAllTunnels` take the entries of the three maps, the outcome is
-- the same: the maps, the tunnels, the broker's topics and all else. The requests to unsubscribe are
-- the same too, and only their order may differ.
pub close_all_tunnels-order :
    (env : Env) (w : World) (connected waiting pending : Dict TunnelRef)
    → Perm w.connected connected
    → Perm w.ack_waiting waiting
    → Perm w.pending_confirms pending
    → Agree (close_all_tunnels env w) (close_in_order env connected waiting pending w)
unfolding close_all_tunnels close_in_order
close_all_tunnels-order env w connected waiting pending p q r =
    let (m1, h1, d1) = cancel_all-Closes w.connected w in
    let v1 : World = set_connected [] (cancel_all w.connected w) in
    let u1 : World = set_connected [] (cancel_all connected w) in
    let e1 : v1 ≡ u1 = ap (set_connected []) (cancel_all-order w.connected connected p w) in
    let acks : v1.ack_waiting ≡ w.ack_waiting = ap (λ (m : TunnelMaps). m.ack_waiting) m1 in
    let (m2, h2, d2) = cancel_all-Closes v1.ack_waiting v1 in
    let v2 : World = set_ack_waiting [] (cancel_all v1.ack_waiting v1) in
    let u2 : World = set_ack_waiting [] (cancel_all waiting u1) in
    let e2 : v2 ≡ u2 = ap (set_ack_waiting []) (
      cancel_all-order v1.ack_waiting waiting
        (subst (λ (m : Dict TunnelRef). Perm m waiting) (sym acks) q) v1
      ∙ ap (cancel_all waiting) e1) in
    let pendings : v2.pending_confirms ≡ w.pending_confirms =
      ap (λ (m : TunnelMaps). m.pending_confirms) m2
      ∙ ap (λ (m : TunnelMaps). m.pending_confirms) m1 in
    let (same, perm) =
      cancel_pending-order env v2.pending_confirms pending
        (subst (λ (m : Dict TunnelRef). Perm m pending) (sym pendings) r) v2 in
    subst
      (λ (u : World).
        Agree (set_pending_confirms [] (cancel_pending env v2.pending_confirms v2))
          (set_pending_confirms [] (cancel_pending env pending u)))
      e2 (ap (set_pending_confirms []) same, perm)
