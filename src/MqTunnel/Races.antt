-- ===== src/MqTunnel/Races.antt =====
-- Two races of tunnel/mqtunnel.go on the client: an ack that arrives before the main loop waits for
-- it, and one that is handled while the timeout's goroutine is between its two critical sections. Here are
-- the parts of the code between which they come; the child modules have the races.
pub mod Early
pub mod Late
use mqtt_tunnel.CommandLine.Start.{exit_code}
use mqtt_tunnel.MqTunnel.Handshake.{with_tunnel}
use mqtt_tunnel.Tunnel.{client_tunnel}
use mqtt_tunnel.World.Effects.{Effect}
use mqtt_tunnel.World.Monad.{ok}
use mqtt_tunnel.Broker.Filter.{drop}
use mqtt_tunnel.Broker.Filter.{Reason, control_filter, is_from_client, own_message, unknown_tunnel}
use mqtt_tunnel.Broker.Message.{act_on, control_packet_received}
use mqtt_tunnel.Broker.Message.{returns, on_message}
use mqtt_tunnel.Broker.Ping.{start_ping_timer, update_activity}
use mqtt_tunnel.Control.{connect_ack}
use mqtt_tunnel.MqTunnel.Closing.{close_conn-ne-open_conn}
use mqtt_tunnel.World.{Bytes}
use mqtt_tunnel.MqTunnel.Closing.{close_conn-ne-open_conn}
use mqtt_tunnel.World.{TunnelMaps}
use mqtt_tunnel.Broker.{publish, publish_wait}
use mqtt_tunnel.World.{Tunnel}
use mqtt_tunnel.World.Effects.{Reply-cases}
use mathlib.Core.Path.{fun_ext}
use mqtt_tunnel.Control.{ControlPacket}
use mqtt_tunnel.MqTunnel.{on_connect_ack}
use mqtt_tunnel.MqTunnel.Handshake.{on_connect_ack-accepted}
use mqtt_tunnel.MqTunnel.Loops.{ack_timeout}
use mqtt_tunnel.World.{open_conn}
use mqtt_tunnel.World.Effects.{accepted}
use mqtt_tunnel.World.Monad.{final}
use mqtt_tunnel.World.Monad.{◌>>=◌, ◌>>◌, modify, return, new_tunnel_from_connect}
use mqtt_tunnel.Tunnel.{new_tunnel_from_connect as make_tunnel}
use mqtt_tunnel.MqTunnel.Loops.{open_tunnel}
use mqtt_tunnel.Tunnel.{open_request}
use mqtt_tunnel.World.{TunnelRef, World, cancel, close_conn, emit, exit, set_ack_waiting, store}
use mqtt_tunnel.World.Effects.{Env, starts_ack_timer}
use mqtt_tunnel.World.Monad.{M, modify, open_request_failed, return, wrap}
use mqtt_tunnel.Base.{
  ◌≡◌, refl, sym, ap, subst, ◌∙◌, ◌≢◌, inl, inr, Bool, true, false, Option, none, some, List, arith,
  Bool-cases, if-cases, Text, text_eq, lookup, insert, erase, has, lookup-insert_self,
  lookup-erase_self, ℤ, pos,
}

-- `case <-mqt.localCh` up to the end of `openRequest`.
unfoldable pub request_tunnel : Env → ℤ → M TunnelRef
unfolding make_tunnel open_request
request_tunnel env remote_port = do
  r ← wrap new_tunnel_from_connect (make_tunnel env (pos 0) remote_port)
  wrap open_request_failed (open_request env r)
  return r

-- What follows it: from here on the tunnel waits for its ack.
unfoldable pub await_ack : TunnelRef → World → World
await_ack r w =
    emit (starts_ack_timer (w.heap r).id) (set_ack_waiting (insert (w.heap r).id r w.ack_waiting) w)

-- The two parts are the whole case.
pub request_tunnel-await_ack :
    (env : Env) (z : ℤ) (w : World)
    → open_tunnel env z w ≡ (do r ← request_tunnel env z; modify (await_ack r)) w
unfolding open_tunnel request_tunnel await_ack publish_wait publish
request_tunnel-await_ack env z w = elim (Reply-cases env.publish_reply) [
  | inl e ↦ rw e refl
  | inr (inl e) ↦ rw e refl
  | inr (inr e) ↦ rw e refl
]

-- The goroutine that waits for connect_ack, when its timer fires: its first critical section.
abbrev pub still_waiting : Text → World → Bool
still_waiting id w = has id w.ack_waiting

abbrev pub drop_if_waiting : Text → Option TunnelRef → World → World
drop_if_waiting id none w = w
drop_if_waiting id (some r) w = set_ack_waiting (erase id w.ack_waiting) (cancel r w)

-- What follows if the tunnel was waiting: the second critical section, `conn.Close()` on the
-- connection of the tunnel at `r`, and `os.Exit`.
unfoldable pub give_up : Text → TunnelRef → World → World
give_up id r w =
    let w' = drop_if_waiting id (lookup id w.ack_waiting) w in
    exit 1 (store r (record (w'.heap r) { conn = close_conn (w'.heap r).conn }) w')

-- Both sections together, with nothing between them, are the timeout.
pub ack_timeout-give_up :
    (id : Text) (r : TunnelRef) (w : World)
    → lookup id w.ack_waiting ≡ some r
    → ack_timeout id w ≡ give_up id r w
unfolding ack_timeout give_up
ack_timeout-give_up id r w e =
    rw (e, ack_timeout)
      (ap
        (λ (h : TunnelRef → Tunnel). record w {
          maps = record w.maps { ack_waiting = erase id w.ack_waiting };
          heap = h;
          exit_code = some 1;
        })
        (fun_ext (λ q. ground arith)))
