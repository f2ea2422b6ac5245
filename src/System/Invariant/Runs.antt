-- ===== src/System/Invariant/Runs.antt =====
-- Every event, and so every run of the process, keeps the state consistent.
use mqtt_tunnel.Base.{ℕ, refl, Bool, List, [], ◌∷◌, arith, if-cases, lookup-nil, pos}
use mqtt_tunnel.Config.{Config}
use mqtt_tunnel.World.{World, Broker}
use mqtt_tunnel.World.Effects.{Env}
use mqtt_tunnel.Broker.Ping.{arm_ping_timeout}
use mqtt_tunnel.System.{
  Event, message, connection_made, connection_lost, takes_control, takes_local, takes_done,
  takes_reconnect, takes_tunnel_closed, takes_reload, ack_timer_fires, confirm_timer_fires,
  main_loop, reads, ping_timer_fires, ping_armed, ping_timeout_fires, config_changed, on_event,
  running, step, run, initial,
}
use mqtt_tunnel.System.Invariant.{IsConsistent}
use mqtt_tunnel.System.Invariant.Goroutines.{ack_timeout-IsConsistent, confirm_timeout-IsConsistent}
use mqtt_tunnel.System.Invariant.Quiet.{Quiet-IsConsistent}
use mqtt_tunnel.System.Invariant.Quiet.Events.{IsQuiet, on_event-Quiet}
use mqtt_tunnel.System.Invariant.Turns.{
  control_turn-IsConsistent, local_turn-IsConsistent, done_turn-IsConsistent,
  reconnect_turn-IsConsistent, tunnel_closed_turn-IsConsistent, reload_turn-IsConsistent,
}

quiet :
    (env : Env) (e : Event) (w : World)
    → IsQuiet e
    → IsConsistent w
    → IsConsistent (on_event env e w)
quiet env e w q v = Quiet-IsConsistent w (on_event env e w) (on_event-Quiet env e w q) v

pub on_event-IsConsistent :
    (env : Env) (e : Event) (w : World) → IsConsistent w → IsConsistent (on_event env e w)
unfolding on_event arm_ping_timeout
on_event-IsConsistent env (message topic payload) w v = quiet env (message topic payload) w tt v
on_event-IsConsistent env connection_made w v = quiet env connection_made w tt v
on_event-IsConsistent env (connection_lost l) w v = quiet env (connection_lost l) w tt v
on_event-IsConsistent env takes_control w v = control_turn-IsConsistent env w v
on_event-IsConsistent env takes_local w v =
    if-cases IsConsistent w.is_server_mode (λ _. v) (λ s. local_turn-IsConsistent env (pos 0) w s v)
on_event-IsConsistent env takes_done w v =
    if-cases IsConsistent w.is_server_mode (λ _. v) (λ _. done_turn-IsConsistent w v)
on_event-IsConsistent env takes_reconnect w v =
    if-cases IsConsistent w.is_server_mode (λ _. reconnect_turn-IsConsistent env w v) (λ _. v)
on_event-IsConsistent env takes_tunnel_closed w v =
    if-cases IsConsistent w.is_server_mode (λ _. tunnel_closed_turn-IsConsistent w v) (λ _. v)
on_event-IsConsistent env takes_reload w v =
    if-cases IsConsistent w.is_server_mode (λ _. reload_turn-IsConsistent env w v) (λ _. v)
on_event-IsConsistent env (ack_timer_fires id) w v = ack_timeout-IsConsistent id w v
on_event-IsConsistent env (confirm_timer_fires id) w v = confirm_timeout-IsConsistent env id w v
on_event-IsConsistent env (main_loop r x) w v = quiet env (main_loop r x) w tt v
on_event-IsConsistent env (reads r x) w v = quiet env (reads r x) w tt v
on_event-IsConsistent env ping_timer_fires w v = quiet env ping_timer_fires w tt v
on_event-IsConsistent env ping_armed w v = quiet env ping_armed w tt v
on_event-IsConsistent env (ping_timeout_fires l) w v = quiet env (ping_timeout_fires l) w tt v
on_event-IsConsistent env (config_changed c) w v = quiet env (config_changed c) w tt v

pub step-IsConsistent : (w : World) (e : Env × Event) → IsConsistent w → IsConsistent (step w e)
unfolding step
step-IsConsistent w (env, e) v =
    if-cases IsConsistent (running w) (λ _. on_event-IsConsistent env e w v) (λ _. v)

pub run-IsConsistent :
    (w : World) (es : List (Env × Event)) → IsConsistent w → IsConsistent (run w es)
unfolding run
run-IsConsistent w [] v = v
run-IsConsistent w (e ∷ es) v = run-IsConsistent (step w e) es (step-IsConsistent w e v)

pub initial-IsConsistent : (c : Config) (s : Bool) (b : Broker) → IsConsistent (initial c s b)
unfolding initial
initial-IsConsistent c s b = record {
  no_ack = λ p id. lookup-nil id;
  no_pending = λ p id. lookup-nil id;
  ack = λ id r e. ground (arith, lookup-nil {V = ℕ} id);
  pending = λ id r e. ground (arith, lookup-nil {V = ℕ} id);
  connected = λ id r e. ground (arith, lookup-nil {V = ℕ} id);
  confirmed = λ p id r e. ground (arith, lookup-nil {V = ℕ} id);
  apart = λ id r e. lookup-nil id;
  undialled = λ p r e. refl;
}

-- In every state that a process can reach, whatever messages arrive, timers fire, loops take turns,
-- and however the environment answers: a client has no pending confirms and a server waits for no
-- acks; a map's key is the ID of its tunnel; no ID is both pending and connected; on the server a
-- connected tunnel was confirmed, and an unconfirmed one has no connection.
pub run-initial-IsConsistent :
    (c : Config) (s : Bool) (b : Broker) (es : List (Env × Event))
    → IsConsistent (run (initial c s b) es)
run-initial-IsConsistent c s b es = run-IsConsistent (initial c s b) es (initial-IsConsistent c s b)
