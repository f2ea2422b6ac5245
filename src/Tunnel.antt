-- ===== src/Tunnel.antt =====
-- tunnel/tunnel.go and tunnel/tcp.go: creating tunnels, their control packets, and their set-up.
pub mod Id
pub mod Packets
pub mod Io
pub mod Setup
use Prim.Native.String.{String}
use mqtt_tunnel.Base.{
  ℕ, suc, ◌+◌, true, false, Option, none, some, [], ◌∷◌, ◌++◌, Text, codes, ℤ, pos, ◌==◌,
  if◌then◌else◌,
}
use mqtt_tunnel.Std.Decimal.{atoi, value}
use mqtt_tunnel.Std.HostPort.{split_host_port}
use mqtt_tunnel.Control.{ControlPacket}
use mqtt_tunnel.Control.Random.{rand_str}
use mqtt_tunnel.World.{
  World, Tunnel, TunnelRef, Conn, no_conn, open_conn, closed_conn, Bytes, emit, store,
}
use mqtt_tunnel.World.Effects.{
  Env, Reply, accepted, refused, timed_out, dials, starts_read, starts_main_loop,
}
use mqtt_tunnel.World.Monad.{
  M, ◌>>=◌, ◌>>◌, return, throw, modify, wrap, Error, dial_failed, invalid_server_address,
  broker_open, tcp_connection, publish_control, publish_failed,
}
use mqtt_tunnel.Broker.{publish_wait, subscribe_tunnel_topic, data_topic_root}
use mqtt_tunnel.Tunnel.Packets.{create_connect_request, create_ack}

-- `&Tunnel{…}`: the next free reference.
abbrev pub alloc : Tunnel → M TunnelRef
alloc t w =
    return w.next_ref
      (record w { heap = λ q. if q == w.next_ref then t else w.heap q; next_ref = suc w.next_ref })

-- A tunnel on a fresh child context, with empty channels and no connection.
abbrev fresh_tunnel : Text → ℤ → ℤ → Text → Text → Text → Tunnel
fresh_tunnel id local remote client_topic server_topic addr = record {
  id = id;
  local_port = local;
  client_pub_topic = client_topic;
  remote_port = remote;
  server_pub_topic = server_topic;
  confirmed = false;
  closed_by_remote = false;
  addr = addr;
  conn = no_conn;
  cancelled = false;
  write_ch = [];
  publish_ch = [];
  publish_closed = false;
}

-- The client's tunnel, on an open connection.
abbrev pub client_tunnel : Env → ℤ → Tunnel
client_tunnel env remote =
    record (fresh_tunnel (rand_str 6 env.draw) (pos 0) remote (codes "") (codes "") (codes "")) {
      conn = open_conn;
    }

-- `NewTunnelFromConnect`, on the client: the connection is the process's stdin and stdout, and its
-- reader starts at once.
unfoldable pub new_tunnel_from_connect : Env → ℤ → ℤ → M TunnelRef
new_tunnel_from_connect env local remote = do
  r ← alloc (record (client_tunnel env remote) { local_port = local })
  modify (emit (starts_read r))
  return r

-- The two random topics take the first four draws and the next four.
abbrev pub random_topic : Text → (ℕ → ℕ) → Text
random_topic root draw = root ++ (b'/' ∷ rand_str 4 draw)

-- The server's tunnel for a request, on the topics that this call draws.
abbrev pub server_tunnel : Env → ControlPacket → World → Text → Tunnel
server_tunnel env ctl w port =
    fresh_tunnel ctl.tunnel_id (value (atoi port)) ctl.local_port
      (random_topic (data_topic_root w.broker.broker_conf.topic) env.draw)
      (random_topic (data_topic_root w.broker.broker_conf.topic) (λ i. env.draw (i + 4)))
      w.broker.broker_conf.server_addr

abbrev allocate_for : Env → ControlPacket → Option (Text × Text) → M TunnelRef
allocate_for env ctl none = throw invalid_server_address
allocate_for env ctl (some (host, port)) = λ w. alloc (server_tunnel env ctl w port) w

-- `NewTunnelFromControl`, on the server
unfoldable pub new_tunnel_from_control : Env → ControlPacket → M TunnelRef
new_tunnel_from_control env ctl w =
    allocate_for env ctl (split_host_port w.broker.broker_conf.server_addr) w

unfoldable pub setup_local_tunnel : Env → TunnelRef → M (Unit {0})
setup_local_tunnel env r w =
    wrap broker_open (subscribe_tunnel_topic env (w.heap r).server_pub_topic r) w

unfoldable pub setup_remote_tunnel : Env → TunnelRef → M (Unit {0})
setup_remote_tunnel env r w =
    (do
      wrap broker_open (subscribe_tunnel_topic env (w.heap r).server_pub_topic r)
      publish_wait env w.broker.control_topic 1 (env.marshal (create_ack (w.heap r))))
      w

abbrev connected_to : Reply → TunnelRef → M (Unit {0})
connected_to accepted r = do
  modify (λ w. store r (record (w.heap r) { conn = open_conn }) w)
  modify (emit (starts_read r))
connected_to _ r = throw dial_failed

-- `TCPConnection.connect`
unfoldable pub connect : Env → TunnelRef → M (Unit {0})
connect env r = do modify (λ w. emit (dials (w.heap r).addr) w); connected_to env.dial_reply r

unfoldable pub start_confirmed_tunnel : Env → TunnelRef → M (Unit {0})
unfolding connect
start_confirmed_tunnel env r = do
  modify (λ w. store r (record (w.heap r) { confirmed = true }) w)
  wrap tcp_connection (connect env r)
  modify (emit (starts_main_loop r))

unfoldable pub open_request : Env → TunnelRef → M (Unit {0})
open_request env r w =
    wrap publish_control
      (publish_wait env w.broker.control_topic 1 (env.marshal (create_connect_request (w.heap r))))
      w
