-- ===== src/MqTunnel/Races/Early.antt =====
-- An ack that arrives before the client's main loop waits for it.
use mqtt_tunnel.Stdio.Closing.{late}
use mqtt_tunnel.Tunnel.Io.{queue}
use mqtt_tunnel.MqTunnel.Loops.{open_tunnel}
use mqtt_tunnel.MqTunnel.Races.{request_tunnel-await_ack}
use mqtt_tunnel.World.Monad.{◌>>=◌}
use mqtt_tunnel.MqTunnel.Races.{request_tunnel, await_ack}
use mqtt_tunnel.MqTunnel.Handshake.{with_tunnel}
use mqtt_tunnel.Tunnel.{client_tunnel}
use mqtt_tunnel.World.Effects.{Effect}
use mqtt_tunnel.World.Monad.{ok}
use mqtt_tunnel.Broker.Filter.{drop}
use mqtt_tunnel.Broker.Filter.{Reason, control_filter, is_from_client, own_message, unknown_tunnel}
use mqtt_tunnel.Broker.Message.{act_on, control_packet_received}
use mqtt_tunnel.Broker.Message.{returns, on_message}
use mqtt_tunnel.Broker.Ping.{start_ping_timer, update_activity}
use mqtt_tunnel.Control.{connect_ack}
use mqtt_tunnel.World.{Bytes}
use mqtt_tunnel.Broker.{publish, publish_wait}
use mqtt_tunnel.Control.{ControlPacket}
use mqtt_tunnel.MqTunnel.Loops.{ack_timeout}
use mqtt_tunnel.World.Effects.{accepted}
use mqtt_tunnel.World.Monad.{final}
use mqtt_tunnel.World.{TunnelRef, World}
use mqtt_tunnel.World.Effects.{Env}
use mqtt_tunnel.Base.{
  ◌≡◌, refl, sym, ap, subst, ◌∙◌, inl, inr, true, false, none, some, List, arith, Bool-cases,
  if-cases, Text, text_eq, lookup, lookup-insert_self, ℤ,
}

-- The client's world between `openRequest` and the wait for the ack, for an ID that is not in use.
pub record Requested (id : Text) (w : World) : Type 0 where
  pub client : w.broker.server_side ≡ false
  pub set : w.broker.maps_set ≡ true
  pub fresh : (lookup id w.ack_waiting ≡ none) × (lookup id w.connected ≡ none)

module _ (env : Env) (ack : ControlPacket) (payload : Bytes) (w : World) (id : Text)
    (q : Requested id w) (parsed : env.unmarshal payload ≡ some ack) (kind : ack.type ≡ connect_ack)
    (same : ack.tunnel_id ≡ id) where
  refused_by_filter : (why : Reason) × (control_filter ack (update_activity env w) ≡ drop why)
  unfolding control_filter update_activity
  refused_by_filter = elim (Bool-cases (is_from_client ack.origin)) [
    | inl e ↦ (own_message, ground (arith, q.client, q.set, q.fresh))
    | inr e ↦ (unknown_tunnel, ground (arith, q.client, q.set, q.fresh))
  ]

  early_ack-dropped :
      on_message env w.broker.control_topic payload w
      ≡ returns (start_ping_timer env (update_activity env w))
  unfolding on_message control_packet_received update_activity
  early_ack-dropped =
      let (why, e) = refused_by_filter in
      if-cases (λ d. d ≡ returns (start_ping_timer env (update_activity env w)))
        (text_eq w.broker.control_topic w.broker.control_topic)
        (λ _. rw (parsed, control_packet_received) (rw (e, act_on) refl))
        (λ differs. absurd (ground arith))

-- The world in which `openRequest` has returned
pub requested :
    (env : Env) (z : ℤ) (c : World)
    → env.publish_reply ≡ accepted
    → (log : List Effect) × (request_tunnel env z c
        ≡ ok c.next_ref (record (with_tunnel c (client_tunnel env z)) { trace = log }))
unfolding request_tunnel publish_wait publish
requested env z c p = ((final (request_tunnel env z c)).trace, rw p refl)

dropped_before_wait :
    (env : Env) (ack : ControlPacket) (payload : Bytes) (id : Text) (r : TunnelRef) (w : World)
    → Requested id w
    → (w.heap r).id ≡ id
    → env.unmarshal payload ≡ some ack
    → ack.type ≡ connect_ack
    → ack.tunnel_id ≡ id
    → let w' = start_ping_timer env (update_activity env w) in
      (on_message env w.broker.control_topic payload w ≡ returns w')
      × (w'.control_ch ≡ w.control_ch)
      × ((ack_timeout id (await_ack r w')).exit_code ≡ some 1)
unfolding ack_timeout await_ack update_activity start_ping_timer
dropped_before_wait env ack payload id r w q named parsed kind same = (
  early_ack-dropped env ack payload w id q parsed kind same,
  ground arith,
  ground (arith, lookup-insert_self id r w.ack_waiting),
)

-- When `openRequest` has returned and its request was published, the main loop goes on to put the
-- tunnel into `ackWaiting`. An ack that arrives before it does so is dropped by the filter, and the
-- main loop never gets it. The tunnel then waits for an ack that came already, until the timeout ends
-- the client with 1.
pub early_ack :
    (requesting env : Env) (z : ℤ) (c : World) (ack : ControlPacket) (payload : Bytes)
    → requesting.publish_reply ≡ accepted
    → Requested (client_tunnel requesting z).id c
    → env.unmarshal payload ≡ some ack
    → ack.type ≡ connect_ack
    → ack.tunnel_id ≡ (client_tunnel requesting z).id
    → let w = final (request_tunnel requesting z c) in
      let w' = start_ping_timer env (update_activity env w) in
      (final (open_tunnel requesting z c) ≡ await_ack c.next_ref w)
      × (on_message env w.broker.control_topic payload w ≡ returns w')
      × (w'.control_ch ≡ w.control_ch)
      × ((ack_timeout ack.tunnel_id (await_ack c.next_ref w')).exit_code ≡ some 1)
early_ack requesting env z c ack payload p q parsed kind same =
    let (log, e) = requested requesting z c p in
    let w : World = record (with_tunnel c (client_tunnel requesting z)) { trace = log } in
    let (gone_by, queue, late) =
      dropped_before_wait env ack payload ack.tunnel_id c.next_ref w
        (record {
          client = q.client;
          set = q.set;
          fresh =
              subst
                (λ (id : Text). (lookup id w.ack_waiting ≡ none) × (lookup id w.connected ≡ none))
                (sym same) q.fresh;
        })
        (ground (arith, same)) parsed kind refl in
    let whole : open_tunnel requesting z c ≡ ok tt (await_ack c.next_ref w) =
      request_tunnel-await_ack requesting z c ∙ rw (e, ◌>>=◌) refl in
    subst
      (λ (u : World).
        let u' = start_ping_timer env (update_activity env u) in
        (final (open_tunnel requesting z c) ≡ await_ack c.next_ref u)
        × (on_message env u.broker.control_topic payload u ≡ returns u')
        × (u'.control_ch ≡ u.control_ch)
        × ((ack_timeout ack.tunnel_id (await_ack c.next_ref u')).exit_code ≡ some 1))
      (sym (ap final e)) (ap final whole, gone_by, queue, late)
