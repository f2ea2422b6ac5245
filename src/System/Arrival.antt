-- ===== src/System/Arrival.antt =====
-- A control packet, from its arrival to the turn of the main loop that handles it.
use mqtt_tunnel.Broker.Filter.{control_filter, deliver}
use mqtt_tunnel.Broker.Message.{returns, act_on, control_packet_received, on_message}
use mqtt_tunnel.Broker.Ping.{set_ping, start_ping_timer, update_activity}
use mqtt_tunnel.Channel.{send}
use mqtt_tunnel.Control.{ControlPacket}
use mqtt_tunnel.MqTunnel.{handle_control}
use mqtt_tunnel.MqTunnel.Loops.{control_turn}
use mqtt_tunnel.System.{Event, after_delivery, message, on_event, run, step, takes_control}
use mqtt_tunnel.World.{Bytes, Ping, World}
use mqtt_tunnel.World.Effects.{Env}
use mqtt_tunnel.World.Monad.{final}
use mqtt_tunnel.Base.{
  ◌≡◌, refl, ap, ◌∙◌, none, some, List, [], ◌∷◌, arith, if-cases, text_eq, pos, leb_ℤ,
}

-- A process that runs takes a step.
pub step-running :
    (env : Env) (e : Event) (w : World) → w.exit_code ≡ none → step w (env, e) ≡ on_event env e w
unfolding step
step-running env e w live = rw live refl

-- `w` with packets in its queue, and the times of its keepalive changed
abbrev pub queued : Ping → List ControlPacket → World → World
queued x ps w = record (set_ping x w) { control_ch = ps }

start_ping_timer-queued :
    (env : Env) (ps : List ControlPacket) (w : World)
    → (x : Ping) × (start_ping_timer env (record (update_activity env w) { control_ch = ps })
        ≡ queued x ps w)
unfolding start_ping_timer update_activity
start_ping_timer-queued env ps w = (
  (start_ping_timer env (record (update_activity env w) { control_ch = ps })).broker.ping,
  if-cases (λ (u : World). u ≡ queued u.broker.ping ps w)
      (leb_ℤ w.broker.broker_conf.manual_keepalive (pos 0)) (λ _. refl) (λ _. refl),
)

-- A packet that can be read, and that the filter lets in; no other packet waits.
pub record Arrives (env : Env) (payload : Bytes) (p : ControlPacket) (w : World) : Type 0 where
  pub live : w.exit_code ≡ none
  pub readable : env.unmarshal payload ≡ some p
  pub admitted : control_filter p (update_activity env w) ≡ deliver
  pub no_packets : w.control_ch ≡ []

-- The events of its arrival, and of the turn behind it
abbrev pub arrival : Env → Bytes → World → List (Env × Event)
arrival env payload w = (env, message w.broker.control_topic payload) ∷ (env, takes_control) ∷ []

module _ (env : Env) (payload : Bytes) (p : ControlPacket) (w : World)
    (a : Arrives env payload p w) where
  received :
      control_packet_received env payload (start_ping_timer env) (update_activity env w)
      ≡ returns (start_ping_timer env (record (update_activity env w) { control_ch = p ∷ [] }))
  unfolding control_packet_received send update_activity
  received =
      rw (a.readable, control_packet_received)
        (rw (a.admitted, act_on) (rw (a.no_packets, send) refl))

  delivered :
      (x : Ping) × (on_message env w.broker.control_topic payload w ≡ returns (queued x (p ∷ []) w))
  unfolding on_message update_activity
  delivered =
      let (x, e) = start_ping_timer-queued env (p ∷ []) w in
      (
        x,
        if-cases (λ d. d ≡ returns (queued x (p ∷ []) w))
            (text_eq w.broker.control_topic w.broker.control_topic) (λ _. received ∙ ap returns e)
            (λ differs. absurd (ground arith)),
      )

  -- Such a packet is handled in the next turn.
  pub arrival-handled :
      (x : Ping) × (run w (arrival env payload w) ≡ final (handle_control env p (queued x [] w)))
  unfolding run on_event control_turn
  arrival-handled =
      let (x, e) = delivered in
      (
        x,
        ap (λ (u : World). step u (env, takes_control))
              (step-running env (message w.broker.control_topic payload) w a.live
                ∙ ap after_delivery e)
            ∙ step-running env takes_control (queued x (p ∷ []) w) a.live,
      )
