-- ===== src/System/Invariant/Operations.antt =====
-- Each handler of a control packet keeps the maps and tunnels consistent.
use mqtt_tunnel.Base.{
  suc, ◌≡◌, refl, sym, ◌∙◌, inl, inr, true, false, not, ◌||◌, Option, none, some, arith, ◌==◌,
  if◌then◌else◌, Option-cases, if-cases, match-cases, Text, text_eq, lookup, erase, has,
  lookup-erase, lookup-erase_self, eqb_ℤ,
}
use mqtt_tunnel.Control.{
  ControlPacket, ControlType, connect_request, connect_ack, connect_confirm, failure,
  connection_closed, unknown, protocol_version, failure_reason_invalid_id, failure_reason_id_in_use,
}
use mathlib.Core.Bool.{false≢true}
use mqtt_tunnel.Broker.{publish}
use mqtt_tunnel.Std.HostPort.{split_host_port}
use mqtt_tunnel.World.{
  close_conn, store, set_pending_confirms, World, Tunnel, TunnelRef, Conn, no_conn, open_conn,
}
use mqtt_tunnel.World.Effects.{Env, Reply-cases}
use mqtt_tunnel.World.Monad.{
  setup_local_tunnel_failed, Outcome, ok, fail, final, wrap, ◌>>=◌, ◌>>◌, invalid_server_address,
}
use mqtt_tunnel.Tunnel.{new_tunnel_from_control, setup_local_tunnel, start_confirmed_tunnel}
use mqtt_tunnel.Tunnel.Id.{validate_tunnel_id}
use mqtt_tunnel.MqTunnel.{
  accept_request, on_connect_request, accept_ack, on_connect_ack, accept_confirm,
  on_connect_confirm, on_failure, on_connection_closed, handle_control, dispatch, drop_waiting,
  drop_connected,
}
use mqtt_tunnel.System.Invariant.{
  IsConsistent, store-Consistent, alloc-Consistent, erase_ack-Consistent, erase_pending-Consistent,
  erase_connected-Consistent, insert_pending-Consistent, insert_connected-Consistent,
  confirm-Consistent,
}
use mqtt_tunnel.System.Invariant.Touches.{
  touch-cases, done, failed, setup_local_tunnel-Touches, setup_remote_tunnel-Touches,
}

-- `w` with a new tunnel at its next reference
abbrev pub with_tunnel : World → Tunnel → World
with_tunnel w t = record w {
  heap = λ q. if q == w.next_ref then t else w.heap q;
  next_ref = suc w.next_ref;
}

pub data Makes (ctl : ControlPacket) (w : World) (o : Outcome TunnelRef) : Type 0 where
  made :
      (t : Tunnel)
      → o ≡ ok w.next_ref (with_tunnel w t)
      → t.id ≡ ctl.tunnel_id
      → t.confirmed ≡ false
      → t.conn ≡ no_conn
      → Makes ctl w o
  refused_addr : o ≡ fail invalid_server_address w → Makes ctl w o

pub new_tunnel_from_control-Makes :
    (env : Env) (ctl : ControlPacket) (w : World) → Makes ctl w (new_tunnel_from_control env ctl w)
unfolding new_tunnel_from_control
new_tunnel_from_control-Makes env ctl w =
    elim (Option-cases (split_host_port w.broker.broker_conf.server_addr)) [
      | inl e ↦ rw e (refused_addr refl)
      | inr (p, e) ↦ rw e (made _ refl refl refl refl)
    ]

accept_request-IsConsistent :
    (env : Env) (ctl : ControlPacket) (w : World)
    → w.is_server_mode ≡ true
    → lookup ctl.tunnel_id w.connected ≡ none
    → IsConsistent w
    → IsConsistent (final (accept_request env ctl w))
unfolding accept_request
accept_request-IsConsistent env ctl w s f v = elim (new_tunnel_from_control-Makes env ctl w) [
  | refused_addr e ↦ rw (e, wrap, ◌>>=◌) v
  | made t e i c k ↦
      let w1 : World = with_tunnel w t in
      let v1 : IsConsistent w1 = alloc-Consistent v t c (λ _. k) in
      rw (e, wrap, ◌>>=◌)
        (elim (setup_remote_tunnel-Touches env w.next_ref w1) [
          | failed x b log e' ↦ rw (e', wrap, ◌>>◌) v1
          | done b log e' ↦
              rw (e', wrap, ◌>>◌)
                (insert_pending-Consistent v1 (w1.heap w.next_ref).id w.next_ref s refl
                  (omega arith) (ground arith) (ground (arith, f)))
        ])
]

-- Of what a handler leaves behind.
abbrev Keeps : Outcome (Unit {0}) → Type 0
Keeps o = IsConsistent (final o)

on_connect_request-IsConsistent :
    (env : Env) (ctl : ControlPacket) (w : World)
    → IsConsistent w
    → IsConsistent (final (on_connect_request env ctl w))
unfolding on_connect_request publish
on_connect_request-IsConsistent env ctl w v =
    if-cases Keeps (not w.is_server_mode) (λ _. v)
      λ e.
        match-cases Keeps (validate_tunnel_id env ctl.tunnel_id)
          (λ _.
            if-cases Keeps (has ctl.tunnel_id w.pending_confirms || has ctl.tunnel_id w.connected)
              (λ _. v)
              (λ unused.
                if-cases Keeps (not (eqb_ℤ ctl.version protocol_version)) (λ _. v)
                  (λ _. accept_request-IsConsistent env ctl w (ground arith) (ground arith) v)))
          (λ _ _. v)

accept_ack-IsConsistent :
    (env : Env) (ctl : ControlPacket) (r : TunnelRef) (w : World)
    → w.is_server_mode ≡ false
    → lookup ctl.tunnel_id w.ack_waiting ≡ some r
    → IsConsistent w
    → IsConsistent (final (accept_ack env ctl r w))
unfolding accept_ack publish
accept_ack-IsConsistent env ctl r w s f v =
    let t : Tunnel = record (w.heap r) {
      client_pub_topic = ctl.client_pub_topic;
      server_pub_topic = ctl.server_pub_topic;
    } in
    let w1 : World = store r t w in
    let v1 : IsConsistent w1 = store-Consistent v r t refl refl (λ e. e) in
    let known = v1.ack ctl.tunnel_id r f in
    touch-cases IsConsistent setup_local_tunnel_failed (setup_local_tunnel env r) _ w1
      (setup_local_tunnel-Touches env r w1) (λ b log. v1)
      (λ b log.
        insert_connected-Consistent (erase_ack-Consistent v1 ctl.tunnel_id) ctl.tunnel_id r known.0
          known.1 (λ p. absurd (false≢true (sym s ∙ p))) (v1.no_pending s ctl.tunnel_id))

on_connect_ack-IsConsistent :
    (env : Env) (ctl : ControlPacket) (w : World)
    → IsConsistent w
    → IsConsistent (final (on_connect_ack env ctl w))
unfolding on_connect_ack
on_connect_ack-IsConsistent env ctl w v =
    if-cases Keeps w.is_server_mode (λ _. v)
      λ e.
        match-cases Keeps (lookup ctl.tunnel_id w.ack_waiting) (λ _. v)
          (λ r e'. accept_ack-IsConsistent env ctl r w e e' v)

accept_confirm-IsConsistent :
    (env : Env) (ctl : ControlPacket) (r : TunnelRef) (w : World)
    → w.is_server_mode ≡ true
    → lookup ctl.tunnel_id w.pending_confirms ≡ some r
    → IsConsistent w
    → IsConsistent (final (accept_confirm env ctl r w))
unfolding accept_confirm start_confirmed_tunnel
accept_confirm-IsConsistent env ctl r w s f v =
    let known = v.pending ctl.tunnel_id r f in
    let gone : lookup (w.heap r).id (erase ctl.tunnel_id w.pending_confirms) ≡ none =
      ground (arith, lookup-erase ctl.tunnel_id ctl.tunnel_id w.pending_confirms) in
    let w1 : World =
      store r (record (w.heap r) { confirmed = true })
        (set_pending_confirms (erase ctl.tunnel_id w.pending_confirms) w) in
    let v1 : IsConsistent w1 =
      confirm-Consistent (erase_pending-Consistent v ctl.tunnel_id) r _ gone refl refl in
    let w2 : World = store r (record (w1.heap r) { conn = open_conn }) w1 in
    let v2 : IsConsistent w2 =
      confirm-Consistent v1 r _ (ground (arith, gone)) refl (ground arith) in
    elim (Reply-cases env.dial_reply) [
      | inl e ↦ rw e (
          insert_connected-Consistent v2 ctl.tunnel_id r (ground arith) (ground arith)
            (λ _. ground arith) (lookup-erase_self ctl.tunnel_id w.pending_confirms))
      | inr (inl e) ↦ rw e v1
      | inr (inr e) ↦ rw e v1
    ]

on_connect_confirm-IsConsistent :
    (env : Env) (ctl : ControlPacket) (w : World)
    → IsConsistent w
    → IsConsistent (final (on_connect_confirm env ctl w))
unfolding on_connect_confirm
on_connect_confirm-IsConsistent env ctl w v =
    if-cases Keeps (not w.is_server_mode) (λ _. v)
      λ e.
        match-cases Keeps (lookup ctl.tunnel_id w.pending_confirms) (λ _. v)
          (λ r e'. accept_confirm-IsConsistent env ctl r w (ground arith) e' v)

drop_waiting-IsConsistent :
    (id : Text) (o : Option TunnelRef) (w : World)
    → IsConsistent w
    → IsConsistent (drop_waiting id o w)
drop_waiting-IsConsistent id none w v = v
drop_waiting-IsConsistent id (some r) w v =
    store-Consistent (erase_ack-Consistent v id) r _ refl refl (λ e. e)

-- `conn.Close()` opens nothing.
pub close_conn-no_conn : (c : Conn) → c ≡ no_conn → close_conn c ≡ no_conn
close_conn-no_conn c e = ground arith

drop_connected-IsConsistent :
    (id : Text) (o : Option TunnelRef) (w : World)
    → IsConsistent w
    → IsConsistent (drop_connected id o w)
drop_connected-IsConsistent id none w v = v
drop_connected-IsConsistent id (some r) w v =
    erase_connected-Consistent
      (store-Consistent v r _ refl refl (close_conn-no_conn (w.heap r).conn)) id

on_failure-IsConsistent :
    (ctl : ControlPacket) (w : World) → IsConsistent w → IsConsistent (final (on_failure ctl w))
unfolding on_failure
on_failure-IsConsistent ctl w v =
    if-cases Keeps w.is_server_mode (λ _. v)
      λ _.
        let v' = drop_waiting-IsConsistent ctl.tunnel_id (lookup ctl.tunnel_id w.ack_waiting) w v in
        if-cases IsConsistent
          (text_eq ctl.reason failure_reason_invalid_id
            || text_eq ctl.reason failure_reason_id_in_use)
          (λ _. v') (λ _. v')

on_connection_closed-IsConsistent :
    (ctl : ControlPacket) (w : World)
    → IsConsistent w
    → IsConsistent (final (on_connection_closed ctl w))
unfolding on_connection_closed
on_connection_closed-IsConsistent ctl w v =
    let v' = drop_connected-IsConsistent ctl.tunnel_id (lookup ctl.tunnel_id w.connected) w v in
    if-cases IsConsistent (not w.is_server_mode) (λ _. v') (λ _. v')

-- Whatever packet is handled, and however the environment answers, the state stays consistent.
pub handle_control-IsConsistent :
    (env : Env) (ctl : ControlPacket) (w : World)
    → IsConsistent w
    → IsConsistent (final (handle_control env ctl w))
unfolding handle_control
handle_control-IsConsistent env ctl w v = go ctl.type
  where
    go : (t : ControlType) → IsConsistent (final (dispatch t env ctl w))
    go connect_request = on_connect_request-IsConsistent env ctl w v
    go connect_ack = on_connect_ack-IsConsistent env ctl w v
    go connect_confirm = on_connect_confirm-IsConsistent env ctl w v
    go failure = on_failure-IsConsistent ctl w v
    go connection_closed = on_connection_closed-IsConsistent ctl w v
    go (unknown s) = v
