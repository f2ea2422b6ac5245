-- ===== src/Tests/Messages.antt =====
-- Messages that arrive, the filter on control packets, and the data path.
use mqtt_tunnel.Base.{◌≡◌, refl, ◌≢◌, ◌↔◌, ◌⊎◌, true, false, Text, codes, has}
use mqtt_tunnel.Control.{
  connection_closed, connect_confirm, ControlPacket, zero_packet, connect_request, connect_ack,
  failure, from_client, from_server, missing,
}
use mqtt_tunnel.World.{World}
use mqtt_tunnel.Broker.Filter.{deliver, nil_maps, control_filter}
use mqtt_tunnel.Broker.Filter.Laws.{
  ServerAdmits, ClientAdmits, control_filter-server, control_filter-client, control_filter-nil_maps,
}
use mqtt_tunnel.System.{initial}
use mqtt_tunnel.Tests.{test_broker, a_client, a_server, tunnel_id, with_waiting}

abbrev a_request : ControlPacket
a_request = zero_packet connect_request tunnel_id from_client

control_filter-server_example : (control_filter a_request a_server ≡ deliver) ↔ (
    (a_request.origin ≢ from_server)
    × (a_request.origin ≢ missing)
    × ServerAdmits a_server a_request)
unfolding initial
control_filter-server_example = control_filter-server a_request a_server refl refl

abbrev an_ack : ControlPacket
an_ack = zero_packet connect_ack tunnel_id from_server

control_filter-client_example : (control_filter an_ack with_waiting ≡ deliver) ↔ (
    (an_ack.origin ≢ from_client)
    × ((has an_ack.tunnel_id with_waiting.connected ≡ true)
        ⊎ (has an_ack.tunnel_id with_waiting.ack_waiting ≡ true))
    × ClientAdmits an_ack)
unfolding initial
control_filter-client_example = control_filter-client an_ack with_waiting refl refl

-- A broker object whose maps are not set yet.
abbrev unset : World
unset = record a_client { broker = record (test_broker false) { maps_set = false } }

control_filter-nil_maps_example : (control_filter an_ack unset ≡ nil_maps) ↔ (
    (unset.broker.maps_set ≡ false)
    × (((unset.broker.server_side ≡ true)
          × (an_ack.origin ≢ from_server)
          × ((an_ack.type ≡ connect_confirm) ⊎ (an_ack.type ≡ connection_closed)))
        ⊎ ((unset.broker.server_side ≡ false)
            × (an_ack.origin ≢ from_client)
            × ((an_ack.type ≡ connect_ack)
                ⊎ (an_ack.type ≡ failure)
                ⊎ (an_ack.type ≡ connection_closed)))))
control_filter-nil_maps_example = control_filter-nil_maps an_ack unset

unset-faults : control_filter an_ack unset ≡ nil_maps
unfolding control_filter
unset-faults = refl

abbrev down : Text
down = codes "home/ssh/down"
