-- ===== src/System/Invariant/Quiet/Events.antt =====
-- The events that are quiet: all but the turns of the main loops and the timeouts of the handshake.
use mqtt_tunnel.Base.{inl, inr, Option-cases}
use mqtt_tunnel.Channel.{send}
use mqtt_tunnel.World.{World}
use mqtt_tunnel.World.Effects.{Env}
use mqtt_tunnel.Broker.Ping.{arm_ping_timeout}
use mqtt_tunnel.System.{
  takes_control, takes_local, takes_done, takes_reconnect, takes_tunnel_closed, takes_reload,
  ack_timer_fires, confirm_timer_fires, Event, message, connection_made, connection_lost, main_loop,
  reads, ping_timer_fires, ping_armed, ping_timeout_fires, config_changed, on_event,
}
use mqtt_tunnel.System.Invariant.Quiet.{Quiet, Quiet-refl}
use mqtt_tunnel.System.Invariant.Quiet.Goroutines.{
  on_message-Quiet, on_connect-Quiet, on_connection_lost-Quiet, send_ping-Quiet, ping_timeout-Quiet,
  main_loop_round-Quiet, read_round-Quiet,
}

abbrev pub IsQuiet : Event → Type 0
IsQuiet (message topic payload) = Unit
IsQuiet connection_made = Unit
IsQuiet (connection_lost l) = Unit
IsQuiet (main_loop r x) = Unit
IsQuiet (reads r x) = Unit
IsQuiet ping_timer_fires = Unit
IsQuiet ping_armed = Unit
IsQuiet (ping_timeout_fires l) = Unit
IsQuiet (config_changed c) = Unit
IsQuiet _ = ⊥

pub on_event-Quiet : (env : Env) (e : Event) (w : World) → IsQuiet e → Quiet w (on_event env e w)
unfolding on_event arm_ping_timeout
on_event-Quiet env (message topic payload) w q =
    on_message-Quiet w env topic payload w (Quiet-refl w)
on_event-Quiet env connection_made w q = on_connect-Quiet w env w (Quiet-refl w)
on_event-Quiet env (connection_lost l) w q = on_connection_lost-Quiet w l w (Quiet-refl w)
on_event-Quiet env (main_loop r x) w q = main_loop_round-Quiet w env r x w (Quiet-refl w)
on_event-Quiet env (reads r x) w q = read_round-Quiet w r x w (Quiet-refl w)
on_event-Quiet env ping_timer_fires w q = send_ping-Quiet w env w (Quiet-refl w)
on_event-Quiet env ping_armed w q = Quiet-refl w
on_event-Quiet env (ping_timeout_fires l) w q = ping_timeout-Quiet w l w (Quiet-refl w)
on_event-Quiet env (config_changed c) w q = elim (Option-cases (send 1 c w.reload_ch)) [
  | inl e ↦ rw e (Quiet-refl w)
  | inr (ch, e) ↦ rw e (Quiet-refl w)
]
on_event-Quiet env takes_control w q = absurd q
on_event-Quiet env takes_local w q = absurd q
on_event-Quiet env takes_done w q = absurd q
on_event-Quiet env takes_reconnect w q = absurd q
on_event-Quiet env takes_tunnel_closed w q = absurd q
on_event-Quiet env takes_reload w q = absurd q
on_event-Quiet env (ack_timer_fires id) w q = absurd q
on_event-Quiet env (confirm_timer_fires id) w q = absurd q
