-- ===== src/Tests/Racing.antt =====
-- The races of an ack with the client's main loop and with its timeout.
use mqtt_tunnel.Broker.Message.{returns}
use mqtt_tunnel.Broker.Message.{on_message}
use mqtt_tunnel.Broker.Ping.{start_ping_timer, update_activity}
use mqtt_tunnel.Control.{ControlPacket, connect_ack, from_server, zero_packet}
use mqtt_tunnel.MqTunnel.Loops.{ack_timeout, open_tunnel}
use mqtt_tunnel.MqTunnel.Races.{await_ack, request_tunnel}
use mqtt_tunnel.MqTunnel.Races.Early.{Requested, early_ack}
use mqtt_tunnel.System.{initial}
use mqtt_tunnel.Tests.{a_client, friendly, tunnel_id}
use mqtt_tunnel.Tunnel.{client_tunnel}
use mqtt_tunnel.Tunnel.Packets.{create_ack}
use mqtt_tunnel.World.Effects.{Env}
use mqtt_tunnel.World.Monad.{final}
use mqtt_tunnel.Base.{◌≡◌, refl, some, lookup, pos}

abbrev the_ack : ControlPacket
the_ack = zero_packet connect_ack tunnel_id from_server

-- The ack for the tunnel that the client is about to open
abbrev quick_ack : ControlPacket
quick_ack = create_ack (client_tunnel friendly (pos 22))

abbrev quick : Env
quick = record friendly { unmarshal = λ bs. some quick_ack }

fresh_client : Requested (client_tunnel friendly (pos 22)).id a_client
unfolding initial lookup
fresh_client = record { client = refl; set = refl; fresh = (refl, refl) }

early_ack_example :
    let w = final (request_tunnel friendly (pos 22) a_client) in
    let w' = start_ping_timer quick (update_activity quick w) in
    (final (open_tunnel friendly (pos 22) a_client) ≡ await_ack 0 w)
    × (on_message quick w.broker.control_topic (friendly.marshal quick_ack) w ≡ returns w')
    × (w'.control_ch ≡ w.control_ch)
    × ((ack_timeout quick_ack.tunnel_id (await_ack 0 w')).exit_code ≡ some 1)
unfolding initial
early_ack_example =
    early_ack friendly quick (pos 22) a_client quick_ack (friendly.marshal quick_ack) refl
      fresh_client refl refl refl
