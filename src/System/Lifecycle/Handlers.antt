-- ===== src/System/Lifecycle/Handlers.antt =====
-- The handlers of control packets, in server mode, move each ID at most once.
use mqtt_tunnel.Base.{
  ◌≡◌, refl, sym, ap, ◌∙◌, inl, inr, true, not, ◌||◌, Option, none, some, arith, if-cases,
  match-cases, Text, lookup, has, eqb_ℤ,
}
use mathlib.Core.Bool.{false≢true}
use mqtt_tunnel.Control.{
  ControlPacket, ControlType, connect_request, connect_ack, connect_confirm, failure,
  connection_closed, unknown, protocol_version,
}
use mqtt_tunnel.World.{World, TunnelRef}
use mqtt_tunnel.World.Effects.{Env, Reply-cases}
use mqtt_tunnel.World.Monad.{Outcome, final, wrap, ◌>>=◌, ◌>>◌}
use mqtt_tunnel.Broker.{publish}
use mqtt_tunnel.Tunnel.{start_confirmed_tunnel}
use mqtt_tunnel.Tunnel.Id.{validate_tunnel_id}
use mqtt_tunnel.MqTunnel.{
  accept_request, on_connect_request, on_connect_ack, accept_confirm, on_connect_confirm,
  on_failure, on_connection_closed, handle_control, dispatch, drop_connected,
}
use mqtt_tunnel.System.Invariant.Operations.{
  with_tunnel, made, refused_addr, new_tunnel_from_control-Makes,
}
use mqtt_tunnel.System.Invariant.Touches.{done, failed, setup_remote_tunnel-Touches}
use mqtt_tunnel.System.Lifecycle.{Moves}
use mqtt_tunnel.System.Lifecycle.Maps.{
  Moves-refl, insert_pending-Moves, erase_pending-Moves, join-Moves, erase_connected-Moves,
}

-- Of what a step leaves behind.
abbrev pub Leaves : World → World → Type 0
Leaves w u = Moves true w.maps u.maps × (u.is_server_mode ≡ w.is_server_mode)

abbrev Follows : World → Outcome (Unit {0}) → Type 0
Follows w o = Leaves w (final o)

pub Leaves-refl : (w : World) → Leaves w w
Leaves-refl w = (Moves-refl true w.maps, refl)

module _ (env : Env) (ctl : ControlPacket) (w : World) where
  accept_request-Follows :
      lookup ctl.tunnel_id w.pending_confirms ≡ none
      → lookup ctl.tunnel_id w.connected ≡ none
      → Follows w (accept_request env ctl w)
  unfolding accept_request
  accept_request-Follows p f = elim (new_tunnel_from_control-Makes env ctl w) [
    | refused_addr e ↦ rw (e, wrap, ◌>>=◌) (Leaves-refl w)
    | made t e i c k ↦
        let w1 : World = with_tunnel w t in
        let here : (w1.heap w.next_ref).id ≡ ctl.tunnel_id = ground arith in
        rw (e, wrap, ◌>>=◌)
          (elim (setup_remote_tunnel-Touches env w.next_ref w1) [
            | failed x b log e' ↦ rw (e', wrap, ◌>>◌) (Leaves-refl w)
            | done b log e' ↦
                rw (e', wrap, ◌>>◌)
                  (
                    insert_pending-Moves w.maps (w1.heap w.next_ref).id w.next_ref
                        (ap (λ (j : Text). lookup j w.pending_confirms) here ∙ p)
                        (ap (λ (j : Text). lookup j w.connected) here ∙ f),
                    refl,
                  )
          ])
  ]

  on_connect_request-Follows : Follows w (on_connect_request env ctl w)
  unfolding on_connect_request publish
  on_connect_request-Follows =
      if-cases (Follows w) (not w.is_server_mode) (λ _. (Moves-refl true w.maps, refl))
        λ _.
          match-cases (Follows w) (validate_tunnel_id env ctl.tunnel_id)
            (λ _.
              if-cases (Follows w)
                (has ctl.tunnel_id w.pending_confirms || has ctl.tunnel_id w.connected)
                (λ _. (Moves-refl true w.maps, refl))
                (λ unused.
                  if-cases (Follows w) (not (eqb_ℤ ctl.version protocol_version))
                    (λ _. (Moves-refl true w.maps, refl))
                    (λ _. accept_request-Follows (ground arith) (ground arith))))
            (λ _ _. (Moves-refl true w.maps, refl))

  accept_confirm-Follows :
      (r : TunnelRef)
      → lookup ctl.tunnel_id w.pending_confirms ≡ some r
      → Follows w (accept_confirm env ctl r w)
  unfolding accept_confirm start_confirmed_tunnel
  accept_confirm-Follows r f = elim (Reply-cases env.dial_reply) [
    | inl e ↦ rw e (join-Moves w.maps ctl.tunnel_id r f, refl)
    | inr (inl e) ↦ rw e (erase_pending-Moves w.maps ctl.tunnel_id, refl)
    | inr (inr e) ↦ rw e (erase_pending-Moves w.maps ctl.tunnel_id, refl)
  ]

  on_connect_confirm-Follows : Follows w (on_connect_confirm env ctl w)
  unfolding on_connect_confirm
  on_connect_confirm-Follows =
      if-cases (Follows w) (not w.is_server_mode) (λ _. (Moves-refl true w.maps, refl))
        λ _.
          match-cases (Follows w) (lookup ctl.tunnel_id w.pending_confirms)
            (λ _. (Moves-refl true w.maps, refl)) accept_confirm-Follows

  on_connect_ack-Follows : w.is_server_mode ≡ true → Follows w (on_connect_ack env ctl w)
  unfolding on_connect_ack
  on_connect_ack-Follows s =
      if-cases (Follows w) w.is_server_mode (λ _. (Moves-refl true w.maps, refl))
        (λ c. absurd (false≢true (sym c ∙ s)))

  on_failure-Follows : w.is_server_mode ≡ true → Follows w (on_failure ctl w)
  unfolding on_failure
  on_failure-Follows s =
      if-cases (Follows w) w.is_server_mode (λ _. (Moves-refl true w.maps, refl))
        (λ c. absurd (false≢true (sym c ∙ s)))

  on_connection_closed-Follows : Follows w (on_connection_closed ctl w)
  unfolding on_connection_closed
  on_connection_closed-Follows =
      if-cases (Leaves w) (not w.is_server_mode) (λ _. dropped (lookup ctl.tunnel_id w.connected))
        (λ _. dropped (lookup ctl.tunnel_id w.connected))
    where
      dropped : (o : Option TunnelRef) → Leaves w (drop_connected ctl.tunnel_id o w)
      dropped none = (Moves-refl true w.maps, refl)
      dropped (some r) = (erase_connected-Moves w.maps ctl.tunnel_id, refl)

pub handle_control-Follows :
    (env : Env) (ctl : ControlPacket) (w : World)
    → w.is_server_mode ≡ true
    → Leaves w (final (handle_control env ctl w))
unfolding handle_control
handle_control-Follows env ctl w s = go ctl.type
  where
    go : (t : ControlType) → Leaves w (final (dispatch t env ctl w))
    go connect_request = on_connect_request-Follows env ctl w
    go connect_ack = on_connect_ack-Follows env ctl w s
    go connect_confirm = on_connect_confirm-Follows env ctl w
    go failure = on_failure-Follows env ctl w s
    go connection_closed = on_connection_closed-Follows env ctl w
    go (unknown x) = (Moves-refl true w.maps, refl)
