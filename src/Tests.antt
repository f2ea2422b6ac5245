-- ===== src/Tests.antt =====
-- Concrete environments and states, on which the child modules run the code and apply the theorems.
mod Opening
mod Messages
mod Keepalive
mod Endings
mod Settings
mod Files
mod Starting
mod Launching
mod Reloading
mod Streams
mod Carrying
mod Parting
mod Racing
mod Refreshing
use Prim.Native.String.{String}
use mqtt_tunnel.Base.{◌+◌, ◌/◌, ◌%◌, Bool, true, false, none, some, [], ◌∷◌, ◌++◌, Text, codes, pos}
use mqtt_tunnel.Config.{Config, zero_config}
use mqtt_tunnel.Control.{ControlPacket, type_text, zero_packet, connect_request, from_client}
use mqtt_tunnel.World.{
  no_conn, World, Broker, Tunnel, nil_tunnel, open_conn, set_connected, set_pending_confirms,
  set_ack_waiting, set_tunnel_topics, store,
}
use mqtt_tunnel.World.Effects.{Env, Reply, accepted, refused, Url}
use mqtt_tunnel.Tunnel.Id.Random.{is_ascii_letter, is_ascii_digit}
use mqtt_tunnel.System.{initial}

-- Everything is accepted; the draws run through the letters in their order.
abbrev pub friendly : Env
friendly = record {
  now = 100;
  draw = λ i. i % 62;
  random_bytes = 0 ∷ 1 ∷ 2 ∷ 3 ∷ 4 ∷ 5 ∷ 6 ∷ 7 ∷ 8 ∷ 9 ∷ [];
  parse_url = λ s.
      some
        (record { scheme = codes "MQTTS"; hostname = codes "broker.example"; port = codes "8884" });
  subscribe_reply = accepted;
  unsubscribe_reply = λ t. accepted;
  publish_reply = accepted;
  connect_reply = λ i. accepted;
  context_ends = λ i. false;
  dial_reply = accepted;
  write_reply = accepted;
  marshal = λ p. type_text p.type ++ (b' ' ∷ p.tunnel_id);
  unmarshal = λ bs. none;
  read_ca = λ file. none;
  loads_pair = λ cert key. true;
  parses_leaf = λ cert key. true;
  is_letter = is_ascii_letter;
  is_digit = is_ascii_digit;
}

abbrev pub hostile : Env
hostile = record friendly { dial_reply = refused; connect_reply = λ i. refused }

abbrev pub test_config : Config
test_config = record zero_config {
  topic = codes "home/ssh";
  server_addr = codes "localhost:22";
  manual_keepalive = pos 30;
}

abbrev pub test_broker : Bool → Broker
test_broker is_server = record {
  broker_conf = test_config;
  control_topic = codes "home/ssh/ctl";
  tunnel_topics = [];
  server_side = is_server;
  maps_set = true;
  tunnel_done_ch = [];
  tunnel_closed_ch = [];
  ping = record {
    ping_topic = codes "home/ssh/ping/abcd";
    last_activity_time = 90;
    ping_pending = false;
    ping_timer = some 120;
    ping_timeout_timer = none;
  };
}

abbrev pub a_client : World
a_client = initial test_config false (test_broker false)

abbrev pub a_server : World
a_server = initial test_config true (test_broker true)

abbrev pub tunnel_id : Text
tunnel_id = codes "abcdef"

-- A tunnel in use, at reference 0.
abbrev pub busy_tunnel : Tunnel
busy_tunnel = record nil_tunnel {
  id = tunnel_id;
  client_pub_topic = codes "home/ssh/up";
  server_pub_topic = codes "home/ssh/down";
  addr = codes "localhost:22";
  conn = open_conn;
  confirmed = true;
  write_ch = codes "one" ∷ codes "two" ∷ [];
  publish_ch = codes "three" ∷ codes "four" ∷ [];
}

abbrev pub holding : Bool → Tunnel → World
holding is_server t =
    record (initial test_config is_server
      (record (test_broker is_server) { tunnel_topics = (codes "home/ssh/down", 0) ∷ [] })) {
        heap = λ r. t;
        next_ref = 1;
      }

-- A process whose tunnel is connected, one whose tunnel waits for its confirm, and one whose tunnel
-- waits for its ack.
abbrev pub with_connected : Bool → World
with_connected is_server = set_connected ((tunnel_id, 0) ∷ []) (holding is_server busy_tunnel)

abbrev pub with_pending : World
with_pending =
    set_pending_confirms ((tunnel_id, 0) ∷ [])
      (holding true (record busy_tunnel { conn = no_conn; confirmed = false }))

abbrev pub with_waiting : World
with_waiting = set_ack_waiting ((tunnel_id, 0) ∷ []) (holding false busy_tunnel)
