-- ===== src/Broker/Connect.antt =====
-- Connecting to the broker: `connect`, `connectWithRetry` and the broker object of
-- `NewMQTTBroker` in tunnel/mqtt.go. Durations are seconds; a factor of 2.0 on a float64 is exact here.
pub mod Retry
pub mod Resubscribing
use Prim.Native.String.{String}
use mqtt_tunnel.Base.{
  eqb_ℤ, ℕ, zero, suc, ◌+◌, ◌*◌, Bool, true, false, Option, none, some, List, [], ◌∷◌, ◌++◌, ltb,
  Text, codes, ℤ, pos, leb_ℤ, if◌then◌else◌,
}
use mqtt_tunnel.Config.{Config}
use mqtt_tunnel.Broker.Options.{MadeOptions, options, no_options, get_mqtt_options}
use mqtt_tunnel.Control.Random.{generate_random_id}
use mqtt_tunnel.World.{World, Broker, Ping, emit}
use mqtt_tunnel.World.Effects.{connects}
use mqtt_tunnel.World.Monad.{
  M, Outcome, ok, fail, ◌>>=◌, ◌>>◌, return, throw, modify, final, bad_broker_url, awaiting_random,
  connect_failed,
}
use mqtt_tunnel.Broker.{subscribe, control_topic_of}
use mqtt_tunnel.Broker.Ping.{update_activity, start_ping_timer}
use mqtt_tunnel.World.{World, Broker, Ping, TunnelRef}
use mqtt_tunnel.World.Effects.{Env, Reply, accepted, refused, timed_out}
use mqtt_tunnel.World.Monad.{
  Error, connect_timed_out, connect_refused, context_ended, retries_exhausted,
}

-- How a call of `connectWithRetry` ended, and the waits in between.
pub record Attempts : Type 0 where
  pub failure : Option Error
  pub waits : List ℕ
  pub made : ℕ

abbrev pub max_retries : ℕ
max_retries = 10

abbrev pub initial_delay : ℕ
initial_delay = 10

abbrev pub max_delay : ℕ
max_delay = 60

-- Exponential backoff with a cap.
abbrev pub next_delay : ℕ → ℕ
next_delay d = if ltb max_delay (d * 2) then max_delay else d * 2

abbrev and_then : ℕ → Attempts → Attempts
and_then d a = record { failure = a.failure; waits = d ∷ a.waits; made = suc a.made }

abbrev outcome : Option Error → Attempts
outcome e = record { failure = e; waits = []; made = 1 }

-- The loop, with `left` attempts to go, `n` being the number of the next one.
unfoldable pub retry : Env → ℕ → ℕ → ℕ → Attempts
retry env zero n delay = record { failure = some retries_exhausted; waits = []; made = 0 }
retry env (suc left) n delay = elim (env.connect_reply n) [
  | accepted ↦ outcome none
  | _ ↦ elim (env.context_ends n) [
    | true ↦ outcome (some context_ended)
    | false ↦ and_then delay (retry env left (suc n) (next_delay delay))
  ]
]

unfoldable pub connect_with_retry : Env → Attempts
unfolding retry
connect_with_retry env = retry env max_retries 1 initial_delay

-- The timeout of one attempt: the configured one, or 15 seconds.
unfoldable pub connect_timeout : Config → ℤ
connect_timeout conf =
    if eqb_ℤ conf.connection_timeout (pos 0) then pos 15 else conf.connection_timeout

-- The fields that `NewMQTTBroker` sets, with the random part of the ping topic. The maps are not
-- set yet.
unfoldable pub new_broker : Env → Config → Bool → Text → Broker
unfolding control_topic_of
new_broker env conf is_server ping_topic = record {
  broker_conf = conf;
  control_topic = control_topic_of conf.topic;
  tunnel_topics = [];
  server_side = is_server;
  maps_set = false;
  tunnel_done_ch = [];
  tunnel_closed_ch = [];
  ping = record {
    ping_topic = ping_topic;
    last_activity_time = env.now;
    ping_pending = false;
    ping_timer = none;
    ping_timeout_timer = none;
  };
}

-- A ping topic of our own, if the manual keepalive is on. `none`: a random byte is still awaited.
unfoldable pub new_ping_topic : Config → List ℕ → Option Text
new_ping_topic conf bs =
    if leb_ℤ conf.manual_keepalive (pos 0) then some [] else elim (generate_random_id (pos 4) bs) [
      | none ↦ none
      | some (s, rest) ↦ some (conf.topic ++ (codes "/ping/" ++ s))
    ]

abbrev pub try_connect : Env → Broker → Option Error → M Broker
try_connect env b none = return b
try_connect env b (some e) = throw (connect_failed e)

abbrev pub with_options : Env → Broker → MadeOptions → M Broker
with_options env b (no_options e) = throw e
with_options env b (options o) = do
  modify (emit connects)
  try_connect env b (connect_with_retry env).failure

-- `NewMQTTBroker`: the client ID, the fields, the options, the first connect.
unfoldable pub new_mqtt_broker : Env → Config → Bool → M Broker
unfolding new_broker new_ping_topic connect_with_retry get_mqtt_options
new_mqtt_broker env conf is_server w = elim (generate_random_id (pos 6) env.random_bytes) [
  | none ↦ fail awaiting_random w
  | some (client_id, bs) ↦ elim (new_ping_topic conf bs) [
    | none ↦ fail awaiting_random w
    | some topic ↦
        with_options env (new_broker env conf is_server topic) (get_mqtt_options env conf client_id)
          w
  ]
]

-- `onConnect`: subscribe to everything that is wanted, and start the keepalive afresh.
unfoldable pub on_connect : Env → World → World
unfolding subscribe update_activity start_ping_timer
on_connect env w =
    let w' = final (subscribe env w) in
    if leb_ℤ w'.broker.broker_conf.manual_keepalive (pos 0)
    then w'
    else start_ping_timer env (update_activity env w')
