-- ===== src/System.antt =====
-- The whole process as a state machine: each event is one atomic step of one goroutine, in any
-- order, with the answers of the environment at that moment. A process that called `os.Exit`, or
-- whose main loop returned, takes no further step.
pub mod Invariant
pub mod Lifecycle
pub mod Transport
pub mod Arrival
pub mod Refusing
pub mod Reloading
pub mod Closing
use mqtt_tunnel.Base.{
  Bool, true, false, not, Option, none, some, List, [], ◌∷◌, if◌then◌else◌, is_some, Text, pos,
}
use mqtt_tunnel.Config.{Config}
use mqtt_tunnel.World.{World, Broker, TunnelRef, Tunnel, Bytes, TunnelMaps, nil_tunnel}
use mqtt_tunnel.World.Effects.{Env}
use mqtt_tunnel.World.Monad.{Outcome, ok, fail, final}
use mqtt_tunnel.Channel.{safe_send, send}
use mqtt_tunnel.Broker.Message.{Delivery, returns, blocks, panics, on_message}
use mqtt_tunnel.Broker.Ping.{
  start_ping_timer, send_ping, arm_ping_timeout, ping_timeout, on_connection_lost,
}
use mqtt_tunnel.Broker.Connect.{on_connect, new_mqtt_broker}
use mqtt_tunnel.Tunnel.Io.{Round, main_loop_round, ReadResult, read_round}
use mqtt_tunnel.MqTunnel.Loops.{
  Turn, not_ready, continues, stops, control_turn, local_turn, done_turn, ack_timeout,
  confirm_timeout, reconnect_turn, tunnel_closed_turn, reload_turn,
}

pub data Event : Type 0 where
  -- the MQTT client's callbacks
  message : Text → Bytes → Event
  connection_made : Event
  connection_lost : Bool → Event
  -- the main loop's cases
  takes_control takes_local takes_done takes_reconnect takes_tunnel_closed takes_reload : Event
  -- the goroutines
  ack_timer_fires confirm_timer_fires : Text → Event
  main_loop : TunnelRef → Round → Event
  reads : TunnelRef → ReadResult → Event
  ping_timer_fires ping_armed : Event
  ping_timeout_fires : Bool → Event
  -- `ReloadConfig`
  config_changed : Config → Event

abbrev pub after_turn : World → Turn → World
after_turn w not_ready = w
after_turn w (continues w') = w'
after_turn w (stops none w') = record w' { exit_code = some 0 }
after_turn w (stops (some e) w') = record w' { exit_code = some 1 }

abbrev pub after_delivery : Delivery → World
after_delivery (returns w) = w
after_delivery (blocks w) = w
after_delivery (panics w) = record w { exit_code = some 2 }

abbrev pub after_read : World → Option World → World
after_read w none = w
after_read w (some w') = w'

abbrev pub after_reload_send : World → Option (List Config) → World
after_reload_send w none = w
after_reload_send w (some ch) = record w { reload_ch = ch }

-- `main` starts the client with the remote port 0.
unfoldable pub on_event : Env → Event → World → World
on_event env (message topic payload) w = after_delivery (on_message env topic payload w)
on_event env connection_made w = on_connect env w
on_event env (connection_lost listening) w = on_connection_lost listening w
on_event env takes_control w = after_turn w (control_turn env w)
on_event env takes_local w = if w.is_server_mode then w else after_turn w (local_turn env (pos 0) w)
on_event env takes_done w = if w.is_server_mode then w else after_turn w (done_turn w)
on_event env takes_reconnect w = if w.is_server_mode then after_turn w (reconnect_turn env w) else w
on_event env takes_tunnel_closed w =
    if w.is_server_mode then after_turn w (tunnel_closed_turn w) else w
on_event env takes_reload w = if w.is_server_mode then after_turn w (reload_turn env w) else w
on_event env (ack_timer_fires id) w = ack_timeout id w
on_event env (confirm_timer_fires id) w = confirm_timeout env id w
on_event env (main_loop r round) w = (main_loop_round env r round w).0
on_event env (reads r result) w = after_read w (read_round r result w)
on_event env ping_timer_fires w = (send_ping env w).0
on_event env ping_armed w = arm_ping_timeout env w
on_event env (ping_timeout_fires listening) w = ping_timeout listening w
on_event env (config_changed c) w = after_reload_send w (send 1 c w.reload_ch)

abbrev pub running : World → Bool
running w = not (is_some w.exit_code)

unfoldable pub step : World → Env × Event → World
step w (env, e) = if running w then on_event env e w else w

unfoldable pub run : World → List (Env × Event) → World
run w [] = w
run w (e ∷ es) = run (step w e) es

-- `NewMQTunnel`: the channels and maps are empty, the broker is made, and the maps are set.
unfoldable pub initial : Config → Bool → Broker → World
initial conf is_server b = record {
  conf = conf;
  is_server_mode = is_server;
  maps = record { ack_waiting = []; pending_confirms = []; connected = [] };
  control_ch = [];
  local_ch = if is_server then [] else tt ∷ [];
  reload_ch = [];
  reconnect_wanted = false;
  broker = record b { maps_set = true };
  heap = λ r. nil_tunnel;
  next_ref = 0;
  trace = [];
  exit_code = none;
}
