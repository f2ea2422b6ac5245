-- ===== src/MqTunnel.antt =====
-- tunnel/mqtunnel.go: the handling of control packets, and closing all tunnels. The children model
-- the main loops of client and server, with the goroutines that wait for a timeout.
pub mod Loops
pub mod Handshake
pub mod Refusals
pub mod Closing
pub mod Forgetting
pub mod Races
pub mod Unconfirmed
use Prim.Native.String.{String}
use mqtt_tunnel.Base.{
  ◌+◌, true, not, ◌||◌, Option, none, some, [], ◌∷◌, ◌++◌, if◌then◌else◌, Text, codes, text_eq,
  Dict, lookup, insert, erase, has, ℤ, eqb_ℤ,
}
use mqtt_tunnel.Std.Decimal.{show_ℤ}
use mqtt_tunnel.Channel.{safe_send}
use mqtt_tunnel.Control.{
  ControlPacket, ControlType, connect_request, connect_ack, connect_confirm, failure,
  connection_closed, unknown, protocol_version, failure_reason_invalid_id, failure_reason_id_in_use,
}
use mqtt_tunnel.World.{
  close_conn, World, Tunnel, TunnelRef, Conn, no_conn, open_conn, closed_conn, Bytes, emit, store,
  cancel, exit, set_ack_waiting, set_pending_confirms, set_connected,
}
use mqtt_tunnel.World.Effects.{Env, starts_main_loop, starts_confirm_timer}
use mqtt_tunnel.World.Monad.{
  final, M, ◌>>=◌, ◌>>◌, return, throw, modify, wrap, Error, new_tunnel_from_control,
  setup_remote_tunnel_failed, setup_local_tunnel_failed, start_confirmed_tunnel_failed,
  unknown_control_type,
}
use mqtt_tunnel.Broker.{publish, unsubscribe}
use mqtt_tunnel.Tunnel.{
  new_tunnel_from_control as make_tunnel, setup_remote_tunnel, setup_local_tunnel,
  start_confirmed_tunnel,
}
use mqtt_tunnel.Tunnel.Id.{validate_tunnel_id}
use mqtt_tunnel.Tunnel.Packets.{create_failure, create_connect_confirm}

abbrev pub version_mismatch : ℤ → Text
version_mismatch v =
    codes "protocol version mismatch: got "
    ++ (show_ℤ v ++ (codes ", want " ++ show_ℤ protocol_version))

-- A failure packet on the control topic; its token is dropped.
abbrev pub report_failure : Env → Text → Text → World → World
report_failure env id reason w =
    publish w.broker.control_topic 1 (env.marshal (create_failure id reason)) w

-- The request is good: make the tunnel, subscribe, answer with an ack, and wait for the confirm.
unfoldable pub accept_request : Env → ControlPacket → M (Unit {0})
accept_request env ctl = do
  r ← wrap new_tunnel_from_control (make_tunnel env ctl)
  wrap setup_remote_tunnel_failed (setup_remote_tunnel env r)
  modify (λ w. set_pending_confirms (insert (w.heap r).id r w.pending_confirms) w)
  modify (λ w. emit (starts_confirm_timer (w.heap r).id) w)

unfoldable pub on_connect_request : Env → ControlPacket → M (Unit {0})
unfolding accept_request
on_connect_request env ctl w =
    if not w.is_server_mode then return tt w else elim (validate_tunnel_id env ctl.tunnel_id) [
      | some e ↦ return tt (report_failure env ctl.tunnel_id failure_reason_invalid_id w)
      | none ↦
          if has ctl.tunnel_id w.pending_confirms || has ctl.tunnel_id w.connected
          then return tt (report_failure env ctl.tunnel_id failure_reason_id_in_use w)
          else if not (eqb_ℤ ctl.version protocol_version)
          then return tt (report_failure env ctl.tunnel_id (version_mismatch ctl.version) w)
          else accept_request env ctl w
    ]

-- The ack is for a tunnel that waits for it: take its topics, subscribe, confirm, start.
unfoldable pub accept_ack : Env → ControlPacket → TunnelRef → M (Unit {0})
unfolding publish
accept_ack env ctl r = do
  modify (λ w.
      store r
        (record (w.heap r) {
          client_pub_topic = ctl.client_pub_topic;
          server_pub_topic = ctl.server_pub_topic;
        })
        w)
  wrap setup_local_tunnel_failed (setup_local_tunnel env r)
  modify (λ w. publish w.broker.control_topic 1 (env.marshal (create_connect_confirm (w.heap r))) w)
  modify (emit (starts_main_loop r))
  modify (λ w. set_ack_waiting (erase ctl.tunnel_id w.ack_waiting) w)
  modify (λ w. set_connected (insert ctl.tunnel_id r w.connected) w)

unfoldable pub on_connect_ack : Env → ControlPacket → M (Unit {0})
unfolding accept_ack
on_connect_ack env ctl w =
    if w.is_server_mode then return tt w else elim (lookup ctl.tunnel_id w.ack_waiting) [
      | none ↦ return tt w
      | some r ↦ accept_ack env ctl r w
    ]

unfoldable pub accept_confirm : Env → ControlPacket → TunnelRef → M (Unit {0})
accept_confirm env ctl r = do
  modify (λ w. set_pending_confirms (erase ctl.tunnel_id w.pending_confirms) w)
  wrap start_confirmed_tunnel_failed (start_confirmed_tunnel env r)
  modify (λ w. set_connected (insert ctl.tunnel_id r w.connected) w)

unfoldable pub on_connect_confirm : Env → ControlPacket → M (Unit {0})
unfolding accept_confirm
on_connect_confirm env ctl w =
    if not w.is_server_mode then return tt w else elim (lookup ctl.tunnel_id w.pending_confirms) [
      | none ↦ return tt w
      | some r ↦ accept_confirm env ctl r w
    ]

abbrev pub drop_waiting : Text → Option TunnelRef → World → World
drop_waiting id none w = w
drop_waiting id (some r) w = cancel r (set_ack_waiting (erase id w.ack_waiting) w)

unfoldable pub on_failure : ControlPacket → M (Unit {0})
on_failure ctl w =
    if w.is_server_mode
    then return tt w
    else let w' = drop_waiting ctl.tunnel_id (lookup ctl.tunnel_id w.ack_waiting) w in
      return tt (
        if text_eq ctl.reason failure_reason_invalid_id
          || text_eq ctl.reason failure_reason_id_in_use
        then exit 1 w'
        else w')

abbrev pub drop_connected : Text → Option TunnelRef → World → World
drop_connected id none w = w
drop_connected id (some r) w = set_connected (erase id w.connected) (
    store r
      (record (w.heap r) {
        closed_by_remote = true;
        cancelled = true;
        conn = close_conn (w.heap r).conn;
      })
      w)

-- The non-blocking send on `tunnelDoneCh`, which has room for one signal.
abbrev pub signal_done : World → World
signal_done w = record w {
  broker = record w.broker { tunnel_done_ch = (safe_send 1 tt w.broker.tunnel_done_ch).0 };
}

unfoldable pub on_connection_closed : ControlPacket → M (Unit {0})
unfolding safe_send
on_connection_closed ctl w =
    let w' = drop_connected ctl.tunnel_id (lookup ctl.tunnel_id w.connected) w in
    return tt (if not w.is_server_mode then signal_done w' else w')

abbrev pub dispatch : ControlType → Env → ControlPacket → M (Unit {0})
dispatch connect_request env ctl = on_connect_request env ctl
dispatch connect_ack env ctl = on_connect_ack env ctl
dispatch connect_confirm env ctl = on_connect_confirm env ctl
dispatch failure env ctl = on_failure ctl
dispatch connection_closed env ctl = on_connection_closed ctl
dispatch (unknown s) env ctl = throw unknown_control_type

-- `handleControl`
unfoldable pub handle_control : Env → ControlPacket → M (Unit {0})
handle_control env ctl = dispatch ctl.type env ctl

-- The loops of `closeAllTunnels` over the entries of a map: each entry is cancelled and deleted.
unfoldable pub cancel_all : Dict TunnelRef → World → World
cancel_all [] w = w
cancel_all ((id, r) ∷ m) w = cancel_all m (cancel r w)

-- Pending tunnels are also unsubscribed; the error of that is not looked at.
unfoldable pub cancel_pending : Env → Dict TunnelRef → World → World
cancel_pending env [] w = w
cancel_pending env ((id, r) ∷ m) w =
    let w' = cancel r w in
    cancel_pending env m (final (unsubscribe env (w'.heap r).server_pub_topic w'))

-- `closeAllTunnels`
unfoldable pub close_all_tunnels : Env → World → World
unfolding cancel_all cancel_pending
close_all_tunnels env w =
    let w1 = set_connected [] (cancel_all w.connected w) in
    let w2 = set_ack_waiting [] (cancel_all w1.ack_waiting w1) in
    set_pending_confirms [] (cancel_pending env w2.pending_confirms w2)
