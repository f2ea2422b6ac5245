-- ===== src/MqTunnel/Closing.antt =====
-- The ends of tunnels: the other side's close notice, the timeouts, and closing all of them.
pub mod Order
use mqtt_tunnel.Base.{
  ℕ, ◌≡◌, refl, sym, ap, subst, ◌∙◌, ◌≢◌, ◌⊎◌, inl, inr, true, none, some, [], ◌∷◌, arith,
  if◌then◌else◌, Bool-cases, Text, text_eq, Dict, lookup, lookup-nil, lookup-erase_self,
}
use mqtt_tunnel.Channel.{safe_send}
use mqtt_tunnel.Control.{ControlPacket}
use mqtt_tunnel.World.{
  World, Tunnel, TunnelRef, TunnelMaps, Conn, open_conn, close_conn, cancel, set_connected,
  set_ack_waiting,
}
use mqtt_tunnel.World.Effects.{Env}
use mqtt_tunnel.World.Monad.{final}
use mqtt_tunnel.Broker.{unsubscribe}
use mqtt_tunnel.System.Invariant.Touches.{final-Touches, unsubscribe-Touches, with_broker}
use mqtt_tunnel.MqTunnel.{on_connection_closed, close_all_tunnels, cancel_all, cancel_pending}

pub close_conn-ne-open_conn : (c : Conn) → close_conn c ≢ open_conn
close_conn-ne-open_conn c e = ground arith

-- A close notice for a connected tunnel forgets it, marks it as closed by the other side, and closes
-- its connection. On a client the main loop gets the signal to end, unless one waits already; a
-- server's is left alone.
pub on_connection_closed_known :
    (ctl : ControlPacket) (w : World) (r : TunnelRef)
    → lookup ctl.tunnel_id w.connected ≡ some r
    → let w' = final (on_connection_closed ctl w) in
      (lookup ctl.tunnel_id w'.connected ≡ none)
      × ((w'.heap r).closed_by_remote ≡ true)
      × ((w'.heap r).conn ≢ open_conn)
      × (w'.broker ≡ (
          if w.is_server_mode
          then w.broker
          else record w.broker { tunnel_done_ch = (safe_send 1 tt w.broker.tunnel_done_ch).0 }))
unfolding on_connection_closed
on_connection_closed_known ctl w r f = (
  ground (arith, lookup-erase_self ctl.tunnel_id w.connected),
  ground arith,
  ground (arith, close_conn-ne-open_conn (w.heap r).conn),
  ground arith,
)

-- What closing many tunnels does to the heap: it sets `cancelled` of some tunnels, and touches
-- nothing else of a tunnel; in particular no connection is closed.
abbrev pub Cancels : (TunnelRef → Tunnel) → (TunnelRef → Tunnel) → Type 0
Cancels h k =
    (r : TunnelRef)
    → (k r ≡ record (h r) { cancelled = (k r).cancelled })
      × ((h r).cancelled ≡ true → (k r).cancelled ≡ true)

Cancels-trans : {h k l : TunnelRef → Tunnel} → Cancels h k → Cancels k l → Cancels h l
Cancels-trans {h} {k} {l} a b r =
    let (e, keep) = a r in
    let (e', keep') = b r in
    (e' ∙ ap (λ (t : Tunnel). record t { cancelled = (l r).cancelled }) e, λ c. keep' (keep c))

cancel-Cancels : (r : TunnelRef) (w : World) → Cancels w.heap (cancel r w).heap
cancel-Cancels r w q = (ground arith, ground arith)

-- What the loop over the entries of a map does: it cancels each of them, and leaves the maps.
abbrev Closes : Dict TunnelRef → World → World → Type 0
Closes m w u =
    (u.maps ≡ w.maps)
    × Cancels w.heap u.heap
    × ((id : Text) (r : TunnelRef) → lookup id m ≡ some r → (u.heap r).cancelled ≡ true)

Closes-cons :
    (id : Text) (r : TunnelRef) (m : Dict TunnelRef) (w u : World)
    → Closes m (cancel r w) u
    → Closes ((id, r) ∷ m) w u
unfolding lookup
Closes-cons id r m w u (same, heap, done) = (same, Cancels-trans (cancel-Cancels r w) heap, all)
  where
    all : (j : Text) (q : TunnelRef) → lookup j ((id, r) ∷ m) ≡ some q → (u.heap q).cancelled ≡ true
    all j q e = elim (Bool-cases (text_eq id j)) [
      | inl hit ↦ (heap q).1 (ground arith)
      | inr miss ↦ done j q (ground arith)
    ]

Closes-nil : (w : World) → Closes [] w w
Closes-nil w = (refl, (λ r. (refl, λ c. c)), λ id r e. ground (arith, lookup-nil {V = ℕ} id))

pub cancel_pending-Closes :
    (env : Env) (m : Dict TunnelRef) (w : World) → Closes m w (cancel_pending env m w)
unfolding cancel_pending
cancel_pending-Closes env [] w = Closes-nil w
cancel_pending-Closes env ((id, r) ∷ m) w =
    let w1 : World = cancel r w in
    let (b, log, e) = final-Touches (unsubscribe-Touches env (w1.heap r).server_pub_topic w1) in
    let w2 : World = final (unsubscribe env (w1.heap r).server_pub_topic w1) in
    Closes-cons id r m w (cancel_pending env m w2) (
      subst (λ (u : World). Closes m w1 (cancel_pending env m u)) (sym e)
        (cancel_pending-Closes env m (with_broker w1 b log)))

pub cancel_all-Closes : (m : Dict TunnelRef) (w : World) → Closes m w (cancel_all m w)
unfolding cancel_all
cancel_all-Closes [] w = Closes-nil w
cancel_all-Closes ((id, r) ∷ m) w =
    Closes-cons id r m w (cancel_all m (cancel r w)) (cancel_all-Closes m (cancel r w))

-- `closeAllTunnels` empties the three maps and cancels every tunnel that was in one of them. It
-- changes nothing else of a tunnel: a connection that was open stays open.
pub close_all_tunnels_lem :
    (env : Env) (w : World)
    → let w' = close_all_tunnels env w in
      (w'.maps ≡ record { ack_waiting = []; pending_confirms = []; connected = [] })
      × Cancels w.heap w'.heap
      × ((id : Text) (r : TunnelRef)
          → (lookup id w.connected ≡ some r)
            ⊎ (lookup id w.ack_waiting ≡ some r)
            ⊎ (lookup id w.pending_confirms ≡ some r)
          → (w'.heap r).cancelled ≡ true)
unfolding close_all_tunnels
close_all_tunnels_lem env w =
    let (m1, h1, d1) = cancel_all-Closes w.connected w in
    let w1 : World = set_connected [] (cancel_all w.connected w) in
    let (m2, h2, d2) = cancel_all-Closes w1.ack_waiting w1 in
    let w2 : World = set_ack_waiting [] (cancel_all w1.ack_waiting w1) in
    let (m3, h3, d3) = cancel_pending-Closes env w2.pending_confirms w2 in
    let acks : w1.ack_waiting ≡ w.ack_waiting = ap (λ (m : TunnelMaps). m.ack_waiting) m1 in
    let pendings : w2.pending_confirms ≡ w.pending_confirms =
      ap (λ (m : TunnelMaps). m.pending_confirms) m2
      ∙ ap (λ (m : TunnelMaps). m.pending_confirms) m1 in
    (
      ap (λ (m : TunnelMaps). record m { pending_confirms = [] }) m3
          ∙ ap (λ (m : TunnelMaps). record m { pending_confirms = []; ack_waiting = [] }) m2,
      Cancels-trans h1 (Cancels-trans h2 h3),
      λ id r known. elim known [
        | inl e ↦ (h3 r).1 ((h2 r).1 (d1 id r e))
        | inr (inl e) ↦ (h3 r).1 (d2 id r (ap (lookup id) acks ∙ e))
        | inr (inr e) ↦ d3 id r (ap (lookup id) pendings ∙ e)
      ],
    )
