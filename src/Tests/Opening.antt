-- ===== src/Tests/Opening.antt =====
-- Opening tunnels: the handshake, refused requests, IDs, the broker URL.
use mqtt_tunnel.MqTunnel.{on_connect_request}
use mqtt_tunnel.MqTunnel.Loops.{confirm_timeout}
use mqtt_tunnel.MqTunnel.Unconfirmed.{AsBefore, confirm_timeout-on_connect_request}
use mqtt_tunnel.MqTunnel.Handshake.Steps.{AllAccepted, Answers, Joined, client2, server2}
use mqtt_tunnel.MqTunnel.Handshake.Together.{handshake}
use mqtt_tunnel.Base.{
  text_dec, ◌≡◌, refl, true, false, none, some, [], ◌∷◌, ◌++◌, arith, codes, lookup, pos,
}
use mqtt_tunnel.Config.Url.{to_lower, BrokerInfo, parse_broker_url, info, broker_addr}
use mqtt_tunnel.Control.{ControlPacket, zero_packet, connect_request, connect_confirm, from_client}
use mqtt_tunnel.Control.Random.{rand_str}
use mqtt_tunnel.World.{no_conn}
use mqtt_tunnel.World.Effects.{dials}
use mqtt_tunnel.World.Monad.{final}
use mqtt_tunnel.Tunnel.{client_tunnel}
use mqtt_tunnel.Tunnel.Id.{validate_tunnel_id}
use mqtt_tunnel.Tunnel.Id.Random.{KnowsAscii}
use mqtt_tunnel.Tunnel.Packets.{create_connect_request}
use mqtt_tunnel.MqTunnel.{on_connect_confirm}
use mqtt_tunnel.MqTunnel.Handshake.{Admissible}
use mqtt_tunnel.MqTunnel.Refusals.{on_connect_confirm-dial_failed}
use mqtt_tunnel.Std.Decimal.{atoi, show_ℤ}
use mqtt_tunnel.Std.HostPort.{split_host_port}
use mqtt_tunnel.System.{initial}
use mqtt_tunnel.Tests.{friendly, hostile, a_client, a_server, tunnel_id, with_pending}

abbrev pub four : Answers
four = record { opening = friendly; accepting = friendly; acking = friendly; confirming = friendly }

pub four-AllAccepted : AllAccepted four
four-AllAccepted = record {
  request_sent = refl;
  server_subscribed = refl;
  ack_sent = refl;
  client_subscribed = refl;
  dialled = refl;
}

pub request-Admissible :
    Admissible friendly (create_connect_request (client_tunnel friendly (pos 22))) a_server
unfolding validate_tunnel_id rand_str initial lookup
request-Admissible = record {
  valid = refl;
  not_pending = refl;
  not_connected = refl;
  same_version = refl;
}

pub addr-split : split_host_port (codes "localhost:22") ≡ some (codes "localhost", codes "22")
unfolding split_host_port
addr-split = refl

handshake_example :
    Joined
      (client_tunnel friendly (pos 22)).id
      (client2 four (pos 22) a_client a_server)
      0
      (server2 four (pos 22) a_client a_server)
      0
unfolding initial
handshake_example =
    handshake four (pos 22) a_client a_server (codes "localhost") (codes "22") refl refl
      four-AllAccepted request-Admissible addr-split

-- The request of the client, which the server accepts, and no confirm
confirm_timeout-on_connect_request_example :
    let ctl = create_connect_request (client_tunnel friendly (pos 22)) in
    AsBefore friendly friendly ctl a_server
      (codes "localhost")
      (codes "22")
      (confirm_timeout friendly ctl.tunnel_id (final (on_connect_request friendly ctl a_server)))
unfolding initial
confirm_timeout-on_connect_request_example =
    confirm_timeout-on_connect_request friendly friendly
      (create_connect_request (client_tunnel friendly (pos 22))) a_server (codes "localhost")
      (codes "22") refl request-Admissible addr-split refl refl refl

-- A request for an ID that is connected already.
abbrev duplicate : ControlPacket
duplicate = zero_packet connect_request tunnel_id from_client

abbrev the_confirm : ControlPacket
the_confirm = zero_packet connect_confirm tunnel_id from_client

on_connect_confirm-dial_failed_example :
    let w' = final (on_connect_confirm hostile the_confirm with_pending) in
    (lookup tunnel_id w'.pending_confirms ≡ none)
    × (lookup tunnel_id w'.connected ≡ none)
    × ((w'.heap 0).conn ≡ no_conn)
    × (w'.broker.tunnel_topics ≡ with_pending.broker.tunnel_topics)
    × (w'.trace ≡ with_pending.trace ++ (dials (with_pending.heap 0).addr ∷ []))
unfolding initial lookup text_dec
on_connect_confirm-dial_failed_example =
    on_connect_confirm-dial_failed hostile the_confirm with_pending 0 refl refl refl refl
      (λ e. ground arith)

friendly-KnowsAscii : KnowsAscii friendly
friendly-KnowsAscii = record { letter = λ c e. e; digit = λ c e. e }

abbrev the_broker : BrokerInfo
the_broker = record {
  host = codes "broker.example";
  port = pos 8884;
  tls = true;
  web_socket = false;
}

the_broker-parsed :
    parse_broker_url friendly (codes "MQTTS://broker.example:8884") ≡ info the_broker
unfolding parse_broker_url text_dec to_lower atoi
the_broker-parsed = refl

the_broker-addr : broker_addr the_broker ≡ codes "ssl://broker.example:8884"
unfolding broker_addr show_ℤ
the_broker-addr = refl
