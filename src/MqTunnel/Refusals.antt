-- ===== src/MqTunnel/Refusals.antt =====
-- What becomes of an attempt that fails: refused requests, failed dials, reported failures.
use mathlib.Core.Option.{some-injective}
use mqtt_tunnel.Base.{
  ◌≡◌, refl, sym, ap, subst, ◌≢◌, inl, inr, true, false, not, ◌||◌, Option, none, some, [], ◌∷◌,
  ◌++◌, arith, if◌then◌else◌, is_some, if-cases, match-cases, Text, lookup, erase, has,
  lookup-erase_self, eqb_ℤ,
}
use mqtt_tunnel.Control.{
  ControlPacket, protocol_version, failure_reason_invalid_id, failure_reason_id_in_use,
}
use mqtt_tunnel.World.{World, TunnelRef, no_conn}
use mqtt_tunnel.World.Effects.{Env, accepted, Reply-cases, publishes, dials}
use mqtt_tunnel.World.Monad.{Outcome, ok, final}
use mqtt_tunnel.Broker.{publish}
use mqtt_tunnel.Tunnel.{start_confirmed_tunnel}
use mqtt_tunnel.Tunnel.Id.{validate_tunnel_id}
use mqtt_tunnel.Tunnel.Packets.{create_failure}
use mqtt_tunnel.MqTunnel.{
  version_mismatch, report_failure, on_connect_request, accept_confirm, on_connect_confirm,
  on_failure,
}
use mqtt_tunnel.MqTunnel.Handshake.{on_connect_confirm-pending}
use mqtt_tunnel.MqTunnel.Loops.{ack_timeout}

-- Why a server turns a request down, in the order in which the reasons count.
abbrev version_refusal : ControlPacket → Option Text
version_refusal ctl =
    if eqb_ℤ ctl.version protocol_version then none else some (version_mismatch ctl.version)

abbrev use_refusal : World → ControlPacket → Option Text
use_refusal w ctl =
    if has ctl.tunnel_id w.pending_confirms || has ctl.tunnel_id w.connected
    then some failure_reason_id_in_use
    else version_refusal ctl

abbrev pub refusal : Env → World → ControlPacket → Option Text
refusal env w ctl =
    if is_some (validate_tunnel_id env ctl.tunnel_id)
    then some failure_reason_invalid_id
    else use_refusal w ctl

-- A server that has a reason to refuse a request answers with one failure packet that gives the
-- reason, on the control topic with QoS 1, and changes nothing else.
pub on_connect_request-refused :
    (env : Env) (ctl : ControlPacket) (w : World) (why : Text)
    → w.is_server_mode ≡ true
    → refusal env w ctl ≡ some why
    → on_connect_request env ctl w
      ≡ ok tt (record w {
        trace =
            w.trace
            ++ (publishes w.broker.control_topic 1 (env.marshal (create_failure ctl.tunnel_id why))
                ∷ []);
      })
unfolding on_connect_request publish
on_connect_request-refused env ctl w why s e =
    if-cases Answers (not w.is_server_mode) (λ c. absurd (ground arith))
      λ _.
        match-cases Answers (validate_tunnel_id env ctl.tunnel_id)
          (λ valid.
            if-cases Answers (has ctl.tunnel_id w.pending_confirms || has ctl.tunnel_id w.connected)
              (λ used. answer failure_reason_id_in_use (ground arith))
              (λ unused.
                if-cases Answers (not (eqb_ℤ ctl.version protocol_version))
                  (λ old. answer (version_mismatch ctl.version) (ground arith))
                  (λ same. absurd (ground arith))))
          (λ x invalid. answer failure_reason_invalid_id (ground arith))
  where
    told : Text → Outcome (Unit {0})
    told reason = ok tt (report_failure env ctl.tunnel_id reason w)

    Answers : Outcome (Unit {0}) → Type 0
    Answers o = o ≡ told why

    answer : (reason : Text) → some reason ≡ some why → told reason ≡ told why
    answer reason p = ap told (some-injective reason why p)

-- A confirm whose dial fails leaves the tunnel in neither map and without a connection. Its topic
-- stays subscribed as it was, and nothing is sent: the dial is all that the environment sees.
pub on_connect_confirm-dial_failed :
    (env : Env) (ctl : ControlPacket) (w : World) (r : TunnelRef)
    → w.is_server_mode ≡ true
    → lookup ctl.tunnel_id w.pending_confirms ≡ some r
    → lookup ctl.tunnel_id w.connected ≡ none
    → (w.heap r).conn ≡ no_conn
    → env.dial_reply ≢ accepted
    → let w' = final (on_connect_confirm env ctl w) in
      (lookup ctl.tunnel_id w'.pending_confirms ≡ none)
      × (lookup ctl.tunnel_id w'.connected ≡ none)
      × ((w'.heap r).conn ≡ no_conn)
      × (w'.broker.tunnel_topics ≡ w.broker.tunnel_topics)
      × (w'.trace ≡ w.trace ++ (dials (w.heap r).addr ∷ []))
unfolding accept_confirm start_confirmed_tunnel
on_connect_confirm-dial_failed env ctl w r s f g n q =
    subst Left (sym (on_connect_confirm-pending env ctl w r s f))
      (elim (Reply-cases env.dial_reply) [
        | inl e ↦ absurd (q e)
        | inr (inl e) ↦ rw e (gone, g, ground arith, refl, ground arith)
        | inr (inr e) ↦ rw e (gone, g, ground arith, refl, ground arith)
      ])
  where
    gone : lookup ctl.tunnel_id (erase ctl.tunnel_id w.pending_confirms) ≡ none
    gone = lookup-erase_self ctl.tunnel_id w.pending_confirms

    Left : Outcome (Unit {0}) → Type 0
    Left o =
        (lookup ctl.tunnel_id (final o).pending_confirms ≡ none)
        × (lookup ctl.tunnel_id (final o).connected ≡ none)
        × (((final o).heap r).conn ≡ no_conn)
        × ((final o).broker.tunnel_topics ≡ w.broker.tunnel_topics)
        × ((final o).trace ≡ w.trace ++ (dials (w.heap r).addr ∷ []))

-- A client whose request failed for another reason than a bad or a used ID, such as another protocol
-- version: its tunnel no longer waits, the process does not exit, and the timeout that would end it
-- finds nothing to do.
pub on_failure_hangs :
    (ctl : ControlPacket) (w : World) (r : TunnelRef)
    → w.is_server_mode ≡ false
    → lookup ctl.tunnel_id w.ack_waiting ≡ some r
    → ctl.reason ≢ failure_reason_invalid_id
    → ctl.reason ≢ failure_reason_id_in_use
    → let w' = final (on_failure ctl w) in
      (w'.exit_code ≡ w.exit_code)
      × (lookup ctl.tunnel_id w'.ack_waiting ≡ none)
      × (lookup ctl.tunnel_id w'.connected ≡ lookup ctl.tunnel_id w.connected)
      × (ack_timeout ctl.tunnel_id w' ≡ w')
unfolding on_failure ack_timeout
on_failure_hangs ctl w r s f a b = ground (arith, lookup-erase_self ctl.tunnel_id w.ack_waiting)
