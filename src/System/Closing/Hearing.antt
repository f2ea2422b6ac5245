-- ===== src/System/Closing/Hearing.antt =====
-- A close notice of the other side, from its arrival to the turn that handles it.
use mqtt_tunnel.System.Arrival.{arrival-handled, arrival, queued}
use mqtt_tunnel.World.{Bytes}
use mqtt_tunnel.MqTunnel.{drop_connected, handle_control, signal_done}
use mqtt_tunnel.MqTunnel.{on_connection_closed}
use mqtt_tunnel.System.{run}
use mqtt_tunnel.World.Monad.{final}
use mqtt_tunnel.Broker.Filter.{deliver}
use mqtt_tunnel.Broker.Filter.{control_filter}
use mqtt_tunnel.Broker.Ping.{update_activity}
use mqtt_tunnel.Channel.{safe_send}
use mqtt_tunnel.Control.{ControlPacket, connection_closed, from_client, from_server, zero_packet}
use mqtt_tunnel.World.{Ping, Tunnel, TunnelRef, World, close_conn}
use mqtt_tunnel.World.Effects.{Env}
use mqtt_tunnel.Base.{
  ◌≡◌, refl, sym, subst, inl, inr, true, not, none, some, [], arith, if◌then◌else◌, Bool-cases,
  Text, lookup, erase,
}

-- The tunnel after the notice for it
abbrev closed_by_peer : Tunnel → Tunnel
closed_by_peer t = record t { closed_by_remote = true; cancelled = true; conn = close_conn t.conn }

-- What the notice for the tunnel `id` at `r` leaves of `w`.
pub record Heard (id : Text) (r : TunnelRef) (w u : World) : Type 0 where
  pub forgotten : u.maps ≡ record w.maps { connected = erase id w.connected }
  pub closed : u.heap r ≡ closed_by_peer (w.heap r)
  pub same_trace : u.trace ≡ w.trace
  pub same_mode : u.is_server_mode ≡ w.is_server_mode
  pub same_side : u.broker.server_side ≡ w.broker.server_side
  pub same_exit : u.exit_code ≡ w.exit_code
  pub closed_ch : u.broker.tunnel_closed_ch ≡ w.broker.tunnel_closed_ch
  pub done_ch : u.broker.tunnel_done_ch ≡ (
      if w.is_server_mode
      then w.broker.tunnel_done_ch
      else (safe_send 1 tt w.broker.tunnel_done_ch).0)

-- The other side's notice for a tunnel that this side has as connected.
pub record NoticeFor (id : Text) (r : TunnelRef) (w : World) : Type 0 where
  pub running : w.exit_code ≡ none
  pub known : lookup id w.connected ≡ some r
  pub no_packets : w.control_ch ≡ []
  pub set : w.broker.maps_set ≡ true
  -- the two fields by which the code tells its mode agree
  pub one_mode : w.broker.server_side ≡ w.is_server_mode

-- The packet that the other side sends for it.
abbrev pub peer_notice : Text → World → ControlPacket
peer_notice id w =
    zero_packet connection_closed id (if w.is_server_mode then from_client else from_server)

module _ (env : Env) (id : Text) (r : TunnelRef) (w : World) (payload : Bytes)
    (readable : env.unmarshal payload ≡ some (peer_notice id w)) (n : NoticeFor id r w) where
  admitted : control_filter (peer_notice id w) (update_activity env w) ≡ deliver
  unfolding control_filter update_activity
  admitted = elim (Bool-cases w.is_server_mode) [
    | inl m ↦ ground (arith, n.known, n.set, n.one_mode)
    | inr m ↦ ground (arith, n.known, n.set, n.one_mode)
  ]

  -- The world that the turn for the notice leaves.
  abbrev handled : Ping → World
  handled x = final (on_connection_closed (peer_notice id w) (queued x [] w))

  -- The world after the entry is dropped.
  abbrev dropped : Ping → World
  dropped x = drop_connected id (some r) (queued x [] w)

  handled-dropped :
      (x : Ping) → handled x ≡ (if not w.is_server_mode then signal_done (dropped x) else dropped x)
  unfolding on_connection_closed safe_send
  handled-dropped x = rw (n.known, on_connection_closed) refl

  handled-Heard : (x : Ping) → Heard id r w (handled x)
  unfolding safe_send
  handled-Heard x = subst (Heard id r w) (sym (handled-dropped x)) (record {
    forgotten = ground arith;
    closed = ground arith;
    same_trace = ground arith;
    same_mode = ground arith;
    same_side = ground arith;
    same_exit = ground arith;
    closed_ch = ground arith;
    done_ch = ground arith;
  })

  -- A notice from the other side makes this side forget the tunnel, and it gets through to the main
  -- loop's turn.
  pub notice-Heard : Heard id r w (run w (arrival env payload w))
  unfolding handle_control
  notice-Heard =
      let (x, e) = arrival-handled env payload (peer_notice id w) w (record {
        live = n.running;
        readable = readable;
        admitted = admitted;
        no_packets = n.no_packets;
      }) in
      subst (Heard id r w) (sym e) (handled-Heard x)
