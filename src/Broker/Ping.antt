-- ===== src/Broker/Ping.antt =====
-- The manual keepalive of tunnel/mqtt.go: a ping on a topic of our own, its echo and its timeout.
pub mod Laws
use Prim.Native.String.{String}
use mqtt_tunnel.Base.{
  ℕ, ◌+◌, Bool, true, false, ◌&&◌, none, some, codes, ℤ, pos, negsuc, leb_ℤ, text_eq, if◌then◌else◌,
}
use mqtt_tunnel.Config.{Config}
use mqtt_tunnel.World.{World, Broker, Ping, Bytes, emit, exit}
use mqtt_tunnel.World.Effects.{Env, publishes, disconnects}
use mqtt_tunnel.Broker.{publish}

abbrev pub set_ping : Ping → World → World
set_ping p w = record w { broker = record w.broker { ping = p } }

-- A positive Go `int` as a number of seconds.
abbrev pub seconds : ℤ → ℕ
seconds (pos n) = n
seconds (negsuc n) = 0

unfoldable pub update_activity : Env → World → World
update_activity env w = set_ping (record w.broker.ping { last_activity_time = env.now }) w

-- `startPingTimer`: the old timer is stopped, and a new one armed.
unfoldable pub start_ping_timer : Env → World → World
start_ping_timer env w =
    if leb_ℤ w.broker.broker_conf.manual_keepalive (pos 0)
    then w
    else set_ping
        (record w.broker.ping {
          ping_timer = some (env.now + seconds w.broker.broker_conf.manual_keepalive);
        })
        w

-- `sendPing` up to the publish. The flag says whether it goes on to arm the timeout.
unfoldable pub send_ping : Env → World → World × Bool
unfolding publish
send_ping env w = if w.broker.ping.ping_pending then (emit disconnects w, false) else (
  publish w.broker.ping.ping_topic 0 (codes "ping")
      (set_ping (record w.broker.ping { ping_pending = true }) w),
  true,
)

-- `sendPing` behind the publish: the timeout of five seconds.
unfoldable pub arm_ping_timeout : Env → World → World
arm_ping_timeout env w =
    set_ping (record w.broker.ping { ping_timeout_timer = some (env.now + 5) }) w

-- The send on the unbuffered `reconnectCh` gets through only if the main loop stands in its
-- `select`, and is dropped otherwise.
unfoldable pub signal_reconnect : Bool → World → World
signal_reconnect listening w = if listening then record w { reconnect_wanted = true } else w

-- The function that the timeout timer runs.
unfoldable pub ping_timeout : Bool → World → World
unfolding signal_reconnect
ping_timeout listening w =
    if w.broker.ping.ping_pending
    then emit disconnects
        (signal_reconnect listening (set_ping (record w.broker.ping { ping_pending = false }) w))
    else w

-- The echo of our ping: nothing is pending, and the timeout is stopped.
abbrev pub clear_pending : World → World
clear_pending w =
    set_ping (record w.broker.ping { ping_pending = false; ping_timeout_timer = none }) w

-- `handlePingMessage`
unfoldable pub handle_ping_message : Env → Bytes → World → World
unfolding start_ping_timer update_activity
handle_ping_message env payload w =
    let w' = update_activity env w in
    if w'.broker.ping.ping_pending && text_eq payload (codes "ping")
    then start_ping_timer env (clear_pending w')
    else w'

-- `onMqttConnectionLost`
unfoldable pub on_connection_lost : Bool → World → World
unfolding signal_reconnect
on_connection_lost listening w =
    let w' =
      set_ping
        (record w.broker.ping {
          ping_timer = none;
          ping_timeout_timer = none;
          ping_pending = false;
        })
        w in
    if w'.broker.server_side then signal_reconnect listening w' else exit 1 w'
