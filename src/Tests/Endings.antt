-- ===== src/Tests/Endings.antt =====
-- How tunnels end, and a run of the whole process.
use mqtt_tunnel.Tests.{busy_tunnel, holding}
use mqtt_tunnel.World.{set_connected}
use mathlib.Core.List.Perm
use mqtt_tunnel.MqTunnel.Closing.Order.{Agree}
use mqtt_tunnel.MqTunnel.Closing.Order.Outcome.{close_all_tunnels-order, close_in_order}
use mqtt_tunnel.Tests.{with_pending}
use mqtt_tunnel.World.{set_pending_confirms}
use mqtt_tunnel.Base.{
  ◌≡◌, refl, ◌⊎◌, true, false, none, some, List, [], ◌∷◌, Text, codes, Dict, lookup,
}
use mqtt_tunnel.Control.{ControlPacket, zero_packet, connection_closed, from_server}
use mqtt_tunnel.World.{TunnelRef}
use mqtt_tunnel.World.Effects.{Env}
use mqtt_tunnel.MqTunnel.{close_all_tunnels}
use mqtt_tunnel.MqTunnel.Closing.{Cancels, close_all_tunnels_lem}
use mqtt_tunnel.MqTunnel.Loops.{tunnel_closed_turn, continues}
use mqtt_tunnel.MqTunnel.Forgetting.{main_loop_round-tunnel_closed_turn}
use mqtt_tunnel.Tunnel.Io.{main_loop_round, takes_closed}
use mqtt_tunnel.System.{initial, run, Event, takes_local, takes_control, connection_lost}
use mqtt_tunnel.System.Invariant.{IsConsistent}
use mqtt_tunnel.System.Invariant.Runs.{run-initial-IsConsistent}
use mqtt_tunnel.Tests.{World, friendly, test_config, test_broker, tunnel_id, with_connected}

abbrev the_notice : ControlPacket
the_notice = zero_packet connection_closed tunnel_id from_server

close_all_tunnels_lem_example :
    let w = with_connected true in
    let w' = close_all_tunnels friendly w in
    (w'.maps ≡ record { ack_waiting = []; pending_confirms = []; connected = [] })
    × Cancels w.heap w'.heap
    × ((id : Text) (r : TunnelRef)
        → (lookup id w.connected ≡ some r)
          ⊎ (lookup id w.ack_waiting ≡ some r)
          ⊎ (lookup id w.pending_confirms ≡ some r)
        → (w'.heap r).cancelled ≡ true)
close_all_tunnels_lem_example = close_all_tunnels_lem friendly (with_connected true)

abbrev a_run : List (Env × Event)
a_run = (friendly, takes_local) ∷ (friendly, takes_control) ∷ (friendly, connection_lost true) ∷ []

run-initial-IsConsistent_example :
    IsConsistent (run (initial test_config false (test_broker false)) a_run)
run-initial-IsConsistent_example =
    run-initial-IsConsistent test_config false (test_broker false) a_run

-- A server whose tunnel's reader has ended, and has nothing left to publish
abbrev with_ended : World
with_ended =
    set_connected ((tunnel_id, 0) ∷ [])
      (holding true (record busy_tunnel { publish_ch = []; publish_closed = true }))

main_loop_round-tunnel_closed_turn_example :
    let (w', goes_on) = main_loop_round friendly 0 takes_closed with_ended in
    (goes_on ≡ false)
    × ((u : World) × (tunnel_closed_turn w' ≡ continues u) × (lookup tunnel_id u.connected ≡ none))
unfolding initial
main_loop_round-tunnel_closed_turn_example =
    main_loop_round-tunnel_closed_turn friendly 0 with_ended refl refl refl refl

-- A server with two tunnels that wait for their confirms, and the same two in the other order
abbrev two_pending : Dict TunnelRef
two_pending = (tunnel_id, 0) ∷ (codes "ghijkl", 1) ∷ []

abbrev two_swapped : Dict TunnelRef
two_swapped = (codes "ghijkl", 1) ∷ (tunnel_id, 0) ∷ []

close_all_tunnels-order_example :
    let w = set_pending_confirms two_pending with_pending in
    Agree (close_all_tunnels friendly w) (close_in_order friendly [] [] two_swapped w)
unfolding initial
close_all_tunnels-order_example =
    close_all_tunnels-order friendly (set_pending_confirms two_pending with_pending) [] []
      two_swapped (Perm.refl []) (Perm.refl []) (Perm.swap (codes "ghijkl", 1) (tunnel_id, 0) [])
