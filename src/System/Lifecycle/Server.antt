-- ===== src/System/Lifecycle/Server.antt =====
-- The events of a server move each ID at most once.
use mqtt_tunnel.Base.{
  ◌≡◌, refl, sym, subst, ◌∙◌, true, false, Option, none, some, List, [], ◌∷◌, arith, if-cases,
  match-cases, Text, lookup, erase, has,
}
use mqtt_tunnel.World.{World}
use mqtt_tunnel.World.Effects.{Env}
use mathlib.Core.Bool.{false≢true}
use mqtt_tunnel.Config.{Config}
use mqtt_tunnel.Control.{ControlPacket}
use mqtt_tunnel.World.{TunnelMaps, cancel, emit}
use mqtt_tunnel.World.Effects.{disconnects}
use mqtt_tunnel.World.Monad.{Error, final}
use mqtt_tunnel.Broker.{unsubscribe}
use mqtt_tunnel.Broker.Connect.{connect_with_retry, new_mqtt_broker}
use mqtt_tunnel.MqTunnel.{close_all_tunnels}
use mqtt_tunnel.MqTunnel.Closing.{close_all_tunnels_lem}
use mqtt_tunnel.MqTunnel.Loops.{
  control_turn, take_control, reconnect_turn, reconnected, tunnel_closed_turn, take_closed_id,
  reload_turn, take_reload, install, ack_timeout, confirm_timeout,
}
use mqtt_tunnel.System.{
  Event, message, connection_made, connection_lost, takes_control, takes_local, takes_done,
  takes_reconnect, takes_tunnel_closed, takes_reload, ack_timer_fires, confirm_timer_fires,
  main_loop, reads, ping_timer_fires, ping_armed, ping_timeout_fires, config_changed, after_turn,
  on_event,
}
use mqtt_tunnel.System.Invariant.{IsConsistent}
use mqtt_tunnel.System.Invariant.Quiet.{Quiet, Quiet-refl, store-Quiet}
use mqtt_tunnel.System.Invariant.Quiet.Events.{IsQuiet, on_event-Quiet}
use mqtt_tunnel.System.Invariant.Quiet.Goroutines.{after_unsubscribe-Quiet}
use mqtt_tunnel.System.Invariant.Turns.{close_all_tunnels-is_server_mode, new_mqtt_broker-install}
use mqtt_tunnel.System.Lifecycle.{stays, Moves}
use mqtt_tunnel.System.Lifecycle.Maps.{
  Moves-refl, erase_pending-Moves, erase_connected-Moves, nothing-Moves,
}
use mqtt_tunnel.System.Lifecycle.Handlers.{Leaves, Leaves-refl, handle_control-Follows}

Quiet-Leaves : (w u : World) → Quiet w u → Leaves w u
Quiet-Leaves w u q = (subst (Moves true w.maps) (sym q.maps) (λ id. stays), q.mode)

-- All tunnels are closed, and what follows leaves the maps alone.
closed-Leaves : (env : Env) (w u : World) → Quiet (close_all_tunnels env w) u → Leaves w u
closed-Leaves env w u q =
    let (m, cancels, all) = close_all_tunnels_lem env w in
    (
      subst (Moves true w.maps) (sym (q.maps ∙ m)) (nothing-Moves true w.maps),
      q.mode ∙ close_all_tunnels-is_server_mode env w,
    )

module _ (env : Env) (w : World) (s : w.is_server_mode ≡ true) where
  take_control-Leaves : (ps : List ControlPacket) → Leaves w (after_turn w (take_control env ps w))
  take_control-Leaves [] = Leaves-refl w
  take_control-Leaves (p ∷ ps) = handle_control-Follows env p (record w { control_ch = ps }) s

  reconnect_turn-Leaves : Leaves w (after_turn w (reconnect_turn env w))
  unfolding reconnect_turn
  reconnect_turn-Leaves =
      if-cases (λ t. Leaves w (after_turn w t)) w.reconnect_wanted
        (λ _. settled (connect_with_retry env).failure) (λ _. Leaves-refl w)
    where
      all_closed : Leaves w (close_all_tunnels env (record w { reconnect_wanted = false }))
      all_closed =
          let u : World = close_all_tunnels env (record w { reconnect_wanted = false }) in
          closed-Leaves env (record w { reconnect_wanted = false }) u (Quiet-refl u)

      settled :
          (o : Option Error)
          → Leaves w (
              after_turn w
                (reconnected o (close_all_tunnels env (record w { reconnect_wanted = false }))))
      settled none = all_closed
      settled (some e) = all_closed

  take_closed_id-Leaves : (ids : List Text) → Leaves w (after_turn w (take_closed_id ids w))
  take_closed_id-Leaves [] = Leaves-refl w
  take_closed_id-Leaves (id ∷ ids) =
      if-cases (Leaves w) (has id w.connected) (λ _. (erase_connected-Moves w.maps id, refl))
        (λ _. (Moves-refl true w.maps, refl))

  take_reload-Leaves : (cs : List Config) → Leaves w (after_turn w (take_reload env cs w))
  take_reload-Leaves [] = Leaves-refl w
  take_reload-Leaves (c ∷ cs) =
      let closed : World = close_all_tunnels env (record w { reload_ch = cs }) in
      let u : World = emit disconnects (record closed { conf = c }) in
      closed-Leaves env (record w { reload_ch = cs })
        (after_turn w (install (new_mqtt_broker env c closed.is_server_mode u)))
        (new_mqtt_broker-install env c closed.is_server_mode w u)

  confirm_timeout-Leaves : (id : Text) → Leaves w (confirm_timeout env id w)
  unfolding confirm_timeout
  confirm_timeout-Leaves id =
      match-cases (Leaves w) (lookup id w.pending_confirms) (λ _. Leaves-refl w)
        (λ r _.
          let u : World = final (unsubscribe env (w.heap r).server_pub_topic (cancel r w)) in
          let q : Quiet w u =
            after_unsubscribe-Quiet w env (w.heap r).server_pub_topic (cancel r w) (
              store-Quiet w w r (record (w.heap r) { cancelled = true }) refl refl (λ k. k)
                (Quiet-refl w)) in
          (
            subst
                (λ (m : TunnelMaps).
                  Moves true w.maps (record m { pending_confirms = erase id m.pending_confirms }))
                (sym q.maps) (erase_pending-Moves w.maps id),
            q.mode,
          ))

  ack_timeout-Leaves : IsConsistent w → (id : Text) → Leaves w (ack_timeout id w)
  unfolding ack_timeout
  ack_timeout-Leaves v id =
      match-cases (Leaves w) (lookup id w.ack_waiting) (λ _. Leaves-refl w)
        (λ r e. absurd (ground (arith, v.no_ack s id)))

quiet : (env : Env) (e : Event) (w : World) → IsQuiet e → Leaves w (on_event env e w)
quiet env e w q = Quiet-Leaves w (on_event env e w) (on_event-Quiet env e w q)

pub on_event-Leaves :
    (env : Env) (e : Event) (w : World)
    → w.is_server_mode ≡ true
    → IsConsistent w
    → Leaves w (on_event env e w)
unfolding on_event control_turn tunnel_closed_turn reload_turn
on_event-Leaves env (message topic payload) w s v = quiet env (message topic payload) w tt
on_event-Leaves env connection_made w s v = quiet env connection_made w tt
on_event-Leaves env (connection_lost l) w s v = quiet env (connection_lost l) w tt
on_event-Leaves env takes_control w s v = take_control-Leaves env w s w.control_ch
on_event-Leaves env takes_local w s v =
    if-cases (Leaves w) w.is_server_mode (λ _. Leaves-refl w) (λ c. absurd (false≢true (sym c ∙ s)))
on_event-Leaves env takes_done w s v =
    if-cases (Leaves w) w.is_server_mode (λ _. Leaves-refl w) (λ c. absurd (false≢true (sym c ∙ s)))
on_event-Leaves env takes_reconnect w s v =
    if-cases (Leaves w) w.is_server_mode (λ _. reconnect_turn-Leaves env w s) (λ _. Leaves-refl w)
on_event-Leaves env takes_tunnel_closed w s v =
    if-cases (Leaves w) w.is_server_mode
      (λ _. take_closed_id-Leaves env w s w.broker.tunnel_closed_ch) (λ _. Leaves-refl w)
on_event-Leaves env takes_reload w s v =
    if-cases (Leaves w) w.is_server_mode (λ _. take_reload-Leaves env w s w.reload_ch)
      (λ _. Leaves-refl w)
on_event-Leaves env (ack_timer_fires id) w s v = ack_timeout-Leaves env w s v id
on_event-Leaves env (confirm_timer_fires id) w s v = confirm_timeout-Leaves env w s id
on_event-Leaves env (main_loop r x) w s v = quiet env (main_loop r x) w tt
on_event-Leaves env (reads r x) w s v = quiet env (reads r x) w tt
on_event-Leaves env ping_timer_fires w s v = quiet env ping_timer_fires w tt
on_event-Leaves env ping_armed w s v = quiet env ping_armed w tt
on_event-Leaves env (ping_timeout_fires l) w s v = quiet env (ping_timeout_fires l) w tt
on_event-Leaves env (config_changed c) w s v = quiet env (config_changed c) w tt
