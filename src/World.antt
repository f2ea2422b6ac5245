-- ===== src/World.antt =====
-- The state of the running program: tunnels on a heap, the broker object, the three tunnel maps,
-- the channels, and the record of what the program did to its environment.
--   * `Tunnel` is the struct of tunnel/tunnel.go with the connection of tunnel/tcp.go in it. Tunnels
--     are shared by pointer, so they live on a heap and maps hold references.
--   * `Broker` is `mqttBroker` of tunnel/mqtt.go. `MqTunnel` is the struct of tunnel/mqtunnel.go.
--   * Log output is left out. The mutexes are left out: each operation is one atomic step.
pub mod Effects
pub mod Monad
use mqtt_tunnel.Base.{
  ℕ, ◌+◌, ◌*◌, Bool, true, false, Option, some, List, [], ◌∷◌, ◌++◌, ◌==◌, if◌then◌else◌, Text,
  Dict, ℤ, pos,
}
use mqtt_tunnel.Config.{Config}
use mqtt_tunnel.Control.{ControlPacket}
use mqtt_tunnel.World.Effects.{Effect}

abbrev pub TunnelRef : Type 0
TunnelRef = ℕ

abbrev pub Bytes : Type 0
Bytes = List ℕ

-- `net.Conn` of a tunnel: nil, open, or closed.
pub data Conn : Type 0 where
  no_conn open_conn closed_conn : Conn

-- `conn.Close()`, if there is a connection
abbrev pub close_conn : Conn → Conn
close_conn no_conn = no_conn
close_conn open_conn = closed_conn
close_conn closed_conn = closed_conn

pub record Tunnel : Type 0 where
  pub id : Text
  pub local_port : ℤ
  pub client_pub_topic : Text
  pub remote_port : ℤ
  pub server_pub_topic : Text
  pub confirmed : Bool
  pub closed_by_remote : Bool
  pub addr : Text
  pub conn : Conn
  pub cancelled : Bool
  pub write_ch : List Bytes
  pub publish_ch : List Bytes
  pub publish_closed : Bool

-- What an unallocated reference holds.
abbrev pub nil_tunnel : Tunnel
nil_tunnel = record {
  id = [];
  local_port = pos 0;
  client_pub_topic = [];
  remote_port = pos 0;
  server_pub_topic = [];
  confirmed = false;
  closed_by_remote = false;
  addr = [];
  conn = no_conn;
  cancelled = false;
  write_ch = [];
  publish_ch = [];
  publish_closed = false;
}

-- The manual keepalive fields. A timer is armed or not; times are seconds.
pub record Ping : Type 0 where
  pub ping_topic : Text
  pub last_activity_time : ℕ
  pub ping_pending : Bool
  pub ping_timer : Option ℕ
  pub ping_timeout_timer : Option ℕ

pub record Broker : Type 0 where
  pub broker_conf : Config
  pub control_topic : Text
  pub tunnel_topics : Dict TunnelRef
  pub server_side : Bool
  pub maps_set : Bool
  pub tunnel_done_ch : List (Unit {0})
  pub tunnel_closed_ch : List Text
  pub ping : Ping

pub record TunnelMaps : Type 0 where
  pub ack_waiting : Dict TunnelRef
  pub pending_confirms : Dict TunnelRef
  pub connected : Dict TunnelRef

pub record World : Type 0 where
  pub conf : Config
  pub is_server_mode : Bool
  pub maps : TunnelMaps
  pub open maps use *
  pub control_ch : List ControlPacket
  pub local_ch : List (Unit {0})
  pub reload_ch : List Config
  pub reconnect_wanted : Bool
  pub broker : Broker
  pub heap : TunnelRef → Tunnel
  pub next_ref : TunnelRef
  pub trace : List Effect
  pub exit_code : Option ℕ

abbrev pub emit : Effect → World → World
emit e w = record w { trace = w.trace ++ (e ∷ []) }

-- `*r = t`
abbrev pub store : TunnelRef → Tunnel → World → World
store r t w = record w { heap = λ q. if q == r then t else w.heap q }

abbrev pub set_ack_waiting : Dict TunnelRef → World → World
set_ack_waiting m w = record w { maps = record w.maps { ack_waiting = m } }

abbrev pub set_pending_confirms : Dict TunnelRef → World → World
set_pending_confirms m w = record w { maps = record w.maps { pending_confirms = m } }

abbrev pub set_connected : Dict TunnelRef → World → World
set_connected m w = record w { maps = record w.maps { connected = m } }

abbrev pub set_tunnel_topics : Dict TunnelRef → World → World
set_tunnel_topics m w = record w { broker = record w.broker { tunnel_topics = m } }

-- `os.Exit(n)`
abbrev pub exit : ℕ → World → World
exit n w = record w { exit_code = some n }

-- `tun.cancel()`
abbrev pub cancel : TunnelRef → World → World
cancel r w = store r (record (w.heap r) { cancelled = true }) w
