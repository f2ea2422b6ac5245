-- ===== src/System/Lifecycle/Client/Handlers.antt =====
-- The handlers of control packets, in client mode: no ID comes up.
use mqtt_tunnel.World.Monad.{Outcome}
use mqtt_tunnel.Broker.{publish}
use mqtt_tunnel.Control.{
  ControlPacket, ControlType, connect_ack, connect_confirm, connect_request, connection_closed,
  failure, failure_reason_id_in_use, failure_reason_invalid_id, unknown,
}
use mqtt_tunnel.MqTunnel.{
  accept_ack, dispatch, drop_connected, drop_waiting, handle_control, on_connect_ack,
  on_connect_confirm, on_connect_request, on_connection_closed, on_failure,
}
use mqtt_tunnel.System.Invariant.Touches.{setup_local_tunnel-Touches, touch-cases}
use mqtt_tunnel.System.Lifecycle.Client.{
  Rests, Rests-refl, erase_ack-Settles, erase_connected-Settles, join-Settles,
}
use mqtt_tunnel.Tunnel.{setup_local_tunnel}
use mqtt_tunnel.World.{TunnelRef, World, store}
use mqtt_tunnel.World.Effects.{Env}
use mqtt_tunnel.World.Monad.{final, setup_local_tunnel_failed}
use mqtt_tunnel.Base.{
  ◌≡◌, refl, false, not, ◌||◌, Option, none, some, arith, if-cases, match-cases, text_eq, lookup,
}

abbrev Follows : World → Outcome (Unit {0}) → Type 0
Follows w o = Rests w (final o)

module _ (env : Env) (ctl : ControlPacket) (w : World) where
  accept_ack-Rests :
      (r : TunnelRef)
      → lookup ctl.tunnel_id w.ack_waiting ≡ some r
      → Rests w (final (accept_ack env ctl r w))
  unfolding accept_ack publish
  accept_ack-Rests r e =
      let w1 : World =
        store r
          (record (w.heap r) {
            client_pub_topic = ctl.client_pub_topic;
            server_pub_topic = ctl.server_pub_topic;
          })
          w in
      touch-cases (Rests w) setup_local_tunnel_failed (setup_local_tunnel env r) _ w1
        (setup_local_tunnel-Touches env r w1) (λ b log. Rests-refl w)
        (λ b log. (join-Settles w.maps ctl.tunnel_id r e, refl, refl))

  on_connect_ack-Rests : Rests w (final (on_connect_ack env ctl w))
  unfolding on_connect_ack
  on_connect_ack-Rests =
      if-cases (Follows w) w.is_server_mode (λ _. Rests-refl w)
        λ _.
          match-cases (Follows w) (lookup ctl.tunnel_id w.ack_waiting) (λ _. Rests-refl w)
            accept_ack-Rests

  on_failure-Rests : Rests w (final (on_failure ctl w))
  unfolding on_failure
  on_failure-Rests =
      if-cases (Follows w) w.is_server_mode (λ _. Rests-refl w)
        λ _.
          let dropped = drop_waiting-Rests (lookup ctl.tunnel_id w.ack_waiting) in
          if-cases (Rests w)
            (text_eq ctl.reason failure_reason_invalid_id
              || text_eq ctl.reason failure_reason_id_in_use)
            (λ _. dropped) (λ _. dropped)
    where
      drop_waiting-Rests : (o : Option TunnelRef) → Rests w (drop_waiting ctl.tunnel_id o w)
      drop_waiting-Rests none = Rests-refl w
      drop_waiting-Rests (some r) = (erase_ack-Settles w.maps ctl.tunnel_id, refl, refl)

  on_connection_closed-Rests : Rests w (final (on_connection_closed ctl w))
  unfolding on_connection_closed
  on_connection_closed-Rests =
      let dropped = drop_connected-Rests (lookup ctl.tunnel_id w.connected) in
      if-cases (Rests w) (not w.is_server_mode) (λ _. dropped) (λ _. dropped)
    where
      drop_connected-Rests : (o : Option TunnelRef) → Rests w (drop_connected ctl.tunnel_id o w)
      drop_connected-Rests none = Rests-refl w
      drop_connected-Rests (some r) = (erase_connected-Settles w.maps ctl.tunnel_id, refl, refl)

  module _ (s : w.is_server_mode ≡ false) where
    on_connect_request-Rests : Rests w (final (on_connect_request env ctl w))
    unfolding on_connect_request
    on_connect_request-Rests =
        if-cases (Follows w) (not w.is_server_mode) (λ _. Rests-refl w) (λ c. absurd (ground arith))

    on_connect_confirm-Rests : Rests w (final (on_connect_confirm env ctl w))
    unfolding on_connect_confirm
    on_connect_confirm-Rests =
        if-cases (Follows w) (not w.is_server_mode) (λ _. Rests-refl w) (λ c. absurd (ground arith))

    pub handle_control-Rests : Rests w (final (handle_control env ctl w))
    unfolding handle_control
    handle_control-Rests = go ctl.type
      where
        go : (t : ControlType) → Rests w (final (dispatch t env ctl w))
        go connect_request = on_connect_request-Rests
        go connect_ack = on_connect_ack-Rests
        go connect_confirm = on_connect_confirm-Rests
        go failure = on_failure-Rests
        go connection_closed = on_connection_closed-Rests
        go (unknown x) = Rests-refl w
