-- ===== src/MqTunnel/Handshake.antt =====
-- The four steps by which a client and a server open a tunnel, when the broker and the target accept.
pub mod Steps
pub mod Together
use mqtt_tunnel.Base.{
  suc, ◌+◌, ◌-◌, ◌≡◌, refl, ap, ◌∙◌, true, false, not, ◌||◌, none, some, List, [], ◌∷◌, ◌++◌, arith,
  ◌==◌, if◌then◌else◌, compare_self, if-cases, match-cases, Text, lookup, insert, erase, has, ℤ,
  eqb_ℤ,
}
use mqtt_tunnel.Std.HostPort.{split_host_port}
use mqtt_tunnel.Control.{ControlPacket, protocol_version}
use mqtt_tunnel.World.{
  World, Broker, Tunnel, TunnelRef, TunnelMaps, Conn, open_conn, emit, store, set_ack_waiting,
  set_pending_confirms, set_connected,
}
use mqtt_tunnel.World.Effects.{
  Env, Effect, Reply, accepted, publishes, starts_read, starts_main_loop, dials,
}
use mqtt_tunnel.World.Monad.{M, Outcome, ok, fail, final, wrap, ◌>>=◌, ◌>>◌}
use mqtt_tunnel.Broker.{publish, publish_wait}
use mqtt_tunnel.Tunnel.{
  client_tunnel, server_tunnel, new_tunnel_from_control, setup_remote_tunnel, setup_local_tunnel,
  start_confirmed_tunnel, open_request,
}
use mqtt_tunnel.Tunnel.Id.{validate_tunnel_id}
use mqtt_tunnel.Tunnel.Packets.{create_ack, create_connect_confirm}
use mqtt_tunnel.Tunnel.Setup.{
  subscribed, setup_local_tunnel-accepted, setup_remote_tunnel-accepted, open_request-accepted,
}
use mqtt_tunnel.MqTunnel.{
  accept_request, on_connect_request, accept_ack, on_connect_ack, accept_confirm,
  on_connect_confirm,
}
use mqtt_tunnel.MqTunnel.Loops.{open_tunnel}

-- `w` with a tunnel at its next reference
abbrev pub with_tunnel : World → Tunnel → World
with_tunnel w t = record w {
  heap = λ q. if q == w.next_ref then t else w.heap q;
  next_ref = suc w.next_ref;
}

-- The client creates its tunnel, publishes the request, and waits for the ack.
pub open_tunnel-accepted :
    (env : Env) (z : ℤ) (w : World)
    → env.publish_reply ≡ accepted
    → let t = client_tunnel env z in
      (log : List Effect) × (open_tunnel env z w
        ≡ ok tt (record (set_ack_waiting (insert t.id w.next_ref w.ack_waiting) (with_tunnel w t)) {
          trace = log;
        }))
unfolding open_tunnel publish_wait publish
open_tunnel-accepted env z w p =
    ((final (open_tunnel env z w)).trace, rw p (rw (compare_self w.next_ref, ◌==◌) refl))

-- What a server asks of a request: a valid ID that is not in use, and our protocol version.
pub record Admissible (env : Env) (ctl : ControlPacket) (w : World) : Type 0 where
  pub valid : validate_tunnel_id env ctl.tunnel_id ≡ none
  pub not_pending : lookup ctl.tunnel_id w.pending_confirms ≡ none
  pub not_connected : lookup ctl.tunnel_id w.connected ≡ none
  pub same_version : ctl.version ≡ protocol_version

on_connect_request-Admissible :
    (env : Env) (ctl : ControlPacket) (w : World)
    → w.is_server_mode ≡ true
    → Admissible env ctl w
    → on_connect_request env ctl w ≡ accept_request env ctl w
unfolding on_connect_request
on_connect_request-Admissible env ctl w s a =
    if-cases Accepts (not w.is_server_mode) (λ e. absurd (ground arith))
      λ _.
        match-cases Accepts (validate_tunnel_id env ctl.tunnel_id)
          (λ _.
            if-cases Accepts (has ctl.tunnel_id w.pending_confirms || has ctl.tunnel_id w.connected)
              (λ e. absurd (ground (arith, a.not_pending, a.not_connected)))
              (λ _.
                if-cases Accepts (not (eqb_ℤ ctl.version protocol_version))
                  (λ e. absurd (ground (arith, a.same_version))) (λ _. refl)))
          (λ x e. absurd (ground (arith, a.valid)))
  where
    Accepts : Outcome (Unit {0}) → Type 0
    Accepts o = o ≡ accept_request env ctl w

new_tunnel_from_control-some :
    (env : Env) (ctl : ControlPacket) (w : World) (host port : Text)
    → split_host_port w.broker.broker_conf.server_addr ≡ some (host, port)
    → new_tunnel_from_control env ctl w
      ≡ ok w.next_ref (with_tunnel w (server_tunnel env ctl w port))
unfolding new_tunnel_from_control
new_tunnel_from_control-some env ctl w host port h = rw h refl

-- The server makes the tunnel, subscribes to its topic, publishes the ack, and waits for the confirm.
pub on_connect_request-accepted :
    (env : Env) (ctl : ControlPacket) (w : World) (host port : Text)
    → w.is_server_mode ≡ true
    → Admissible env ctl w
    → split_host_port w.broker.broker_conf.server_addr ≡ some (host, port)
    → env.subscribe_reply ≡ accepted
    → env.publish_reply ≡ accepted
    → let t = server_tunnel env ctl w port in
      (log : List Effect) × (on_connect_request env ctl w
        ≡ ok tt (
            subscribed
              (set_pending_confirms (insert t.id w.next_ref w.pending_confirms) (with_tunnel w t))
              t.server_pub_topic
              w.next_ref
              log))
unfolding accept_request
on_connect_request-accepted env ctl w host port s a h q p =
    let w1 : World = with_tunnel w (server_tunnel env ctl w port) in
    let (log, e) = setup_remote_tunnel-accepted env w.next_ref w1 q p in
    (
      (final (accept_request env ctl w)).trace,
      on_connect_request-Admissible env ctl w s a
          ∙ rw (new_tunnel_from_control-some env ctl w host port h, wrap, ◌>>=◌)
              (rw (e, wrap, ◌>>◌) (rw (compare_self w.next_ref, ◌==◌) refl)),
    )

pub on_connect_ack-waiting :
    (env : Env) (ctl : ControlPacket) (w : World) (r : TunnelRef)
    → w.is_server_mode ≡ false
    → lookup ctl.tunnel_id w.ack_waiting ≡ some r
    → on_connect_ack env ctl w ≡ accept_ack env ctl r w
unfolding on_connect_ack
on_connect_ack-waiting env ctl w r s f =
    if-cases (λ (o : Outcome (Unit {0})). o ≡ accept_ack env ctl r w) w.is_server_mode
      (λ e. absurd (ground arith)) (λ _. rw f refl)

-- The client takes the ack's topics, subscribes to the server's one, and is connected.
pub on_connect_ack-accepted :
    (env : Env) (ctl : ControlPacket) (w : World) (r : TunnelRef)
    → w.is_server_mode ≡ false
    → lookup ctl.tunnel_id w.ack_waiting ≡ some r
    → env.subscribe_reply ≡ accepted
    → let t = record (w.heap r) {
      client_pub_topic = ctl.client_pub_topic;
      server_pub_topic = ctl.server_pub_topic;
    } in
      (log : List Effect) × (on_connect_ack env ctl w
        ≡ ok tt (
            set_connected (insert ctl.tunnel_id r w.connected) (
              set_ack_waiting
                (erase ctl.tunnel_id w.ack_waiting)
                (subscribed (store r t w) ctl.server_pub_topic r log))))
unfolding accept_ack publish
on_connect_ack-accepted env ctl w r s f q =
    let t : Tunnel = record (w.heap r) {
      client_pub_topic = ctl.client_pub_topic;
      server_pub_topic = ctl.server_pub_topic;
    } in
    let w1 : World = store r t w in
    let same : w1.heap r ≡ t = ground arith in
    let (log, e) = setup_local_tunnel-accepted env r w1 q in
    let confirm =
      publishes w.broker.control_topic 1 (env.marshal (create_connect_confirm (w1.heap r))) in
    let trace : List Effect = (log ++ (confirm ∷ [])) ++ (starts_main_loop r ∷ []) in
    (
      trace,
      on_connect_ack-waiting env ctl w r s f
          ∙ rw (e, wrap, ◌>>◌)
              (ap
                (λ (topic : Text). ok tt (
                  set_connected (insert ctl.tunnel_id r w.connected) (
                    set_ack_waiting (erase ctl.tunnel_id w.ack_waiting)
                      (subscribed w1 topic r trace))))
                (ap (λ (u : Tunnel). u.server_pub_topic) same)),
    )

pub on_connect_confirm-pending :
    (env : Env) (ctl : ControlPacket) (w : World) (r : TunnelRef)
    → w.is_server_mode ≡ true
    → lookup ctl.tunnel_id w.pending_confirms ≡ some r
    → on_connect_confirm env ctl w ≡ accept_confirm env ctl r w
unfolding on_connect_confirm
on_connect_confirm-pending env ctl w r s f =
    if-cases (λ (o : Outcome (Unit {0})). o ≡ accept_confirm env ctl r w) (not w.is_server_mode)
      (λ e. absurd (ground arith)) (λ _. rw f refl)

-- `w` after the tunnel at `r` stopped to be pending under `id` and was confirmed
abbrev pub confirmed_in : Text → TunnelRef → World → World
confirmed_in id r w =
    store r (record (w.heap r) { confirmed = true })
      (set_pending_confirms (erase id w.pending_confirms) w)

-- `w` after the connection of the tunnel at `r` was opened
abbrev pub opened : TunnelRef → World → World
opened r w = store r (record (w.heap r) { conn = open_conn }) w

-- The server dials the target, starts the data loop, and the tunnel is connected.
pub on_connect_confirm-accepted :
    (env : Env) (ctl : ControlPacket) (w : World) (r : TunnelRef)
    → w.is_server_mode ≡ true
    → lookup ctl.tunnel_id w.pending_confirms ≡ some r
    → env.dial_reply ≡ accepted
    → (log : List Effect) × (on_connect_confirm env ctl w
        ≡ ok tt
            (record (set_connected
              (insert ctl.tunnel_id r w.connected)
              (opened r (confirmed_in ctl.tunnel_id r w))) { trace = log }))
unfolding accept_confirm start_confirmed_tunnel
on_connect_confirm-accepted env ctl w r s f q = (
  (final (accept_confirm env ctl r w)).trace,
  on_connect_confirm-pending env ctl w r s f ∙ rw q refl,
)
