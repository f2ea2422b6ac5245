-- ===== src/MqTunnel/Forgetting.antt =====
-- How a server forgets a tunnel: the main loop's last round and the loop of `StartRemote`, and the
-- timeout for connect_confirm.
use mqtt_tunnel.Stdio.{closed}
use mqtt_tunnel.Tunnel.Io.Relay.{takes_closed-drained}
use mqtt_tunnel.Base.{
  ◌≡◌, refl, ap, ◌∙◌, inl, inr, true, false, none, some, [], ◌∷◌, arith, if◌then◌else◌, Text,
  lookup, erase, has, lookup-erase_self,
}
use mqtt_tunnel.Channel.{safe_send}
use mqtt_tunnel.World.{World, TunnelRef, cancel, set_connected}
use mqtt_tunnel.World.Effects.{Env, Reply-cases}
use mqtt_tunnel.World.Monad.{final}
use mqtt_tunnel.Broker.{publish, unsubscribe}
use mqtt_tunnel.Tunnel.Io.{main_loop_round, takes_closed, notify_closed, signal_closed, leave}
use mqtt_tunnel.MqTunnel.Loops.{continues, tunnel_closed_turn, confirm_timeout}

-- Unsubscribing touches the topics of the broker object and the trace only.
abbrev pub SameBut : World → World → Type 0
SameBut w u =
    (u ≡ record w {
      trace = u.trace;
      broker = record w.broker { tunnel_topics = u.broker.tunnel_topics };
    })

pub unsubscribe-SameBut :
    (env : Env) (topic : Text) (w : World) → SameBut w (final (unsubscribe env topic w))
unfolding unsubscribe
unsubscribe-SameBut env [] w = refl
unsubscribe-SameBut env (c ∷ t) w = elim (Reply-cases (env.unsubscribe_reply (c ∷ t))) [
  | inl e ↦ rw e refl
  | inr (inl e) ↦ rw e refl
  | inr (inr e) ↦ rw e refl
]

closed_turn-head :
    (id : Text) (w : World)
    → w.broker.tunnel_closed_ch ≡ id ∷ []
    → (u : World) × (tunnel_closed_turn w ≡ continues u) × (lookup id u.connected ≡ none)
unfolding tunnel_closed_turn
closed_turn-head id w e =
    let w' : World = record w { broker = record w.broker { tunnel_closed_ch = [] } } in
    (
      (if has id w'.connected then set_connected (erase id w'.connected) w' else w'),
      rw e refl,
      ground (arith, lookup-erase_self id w.connected),
    )

-- The IDs that wait for the server's loop behind the last round of a tunnel's main loop.
queued_id :
    (env : Env) (r : TunnelRef) (w : World)
    → w.broker.server_side ≡ true
    → w.broker.tunnel_closed_ch ≡ []
    → (leave env r (signal_closed r (notify_closed env r w))).broker.tunnel_closed_ch
      ≡ (w.heap r).id ∷ []
unfolding notify_closed signal_closed publish safe_send
queued_id env r w s e =
    let w0 : World = signal_closed r (notify_closed env r w) in
    let same : SameBut w0 (leave env r w0) =
      unsubscribe-SameBut env (w0.heap r).server_pub_topic w0 in
    ap (λ (u : World). u.broker.tunnel_closed_ch) same ∙ ground arith

-- When the reader of a tunnel has closed its channel, all chunks in it have been taken, and no other
-- closed tunnel waits for the server's loop, the next round that receives from the channel is the
-- last one of the tunnel's main loop, and the server's loop forgets the tunnel in its next turn for
-- closed tunnels: the tunnel's ID is not connected any more.
pub main_loop_round-tunnel_closed_turn :
    (env : Env) (r : TunnelRef) (w : World)
    → w.broker.server_side ≡ true
    → (w.heap r).publish_closed ≡ true
    → (w.heap r).publish_ch ≡ []
    → w.broker.tunnel_closed_ch ≡ []
    → let (w', goes_on) = main_loop_round env r takes_closed w in
      (goes_on ≡ false)
      × ((u : World) × (tunnel_closed_turn w' ≡ continues u)
          × (lookup (w.heap r).id u.connected ≡ none))
main_loop_round-tunnel_closed_turn env r w s closed taken e =
    let u : World = leave env r (signal_closed r (notify_closed env r w)) in
    let last : main_loop_round env r takes_closed w ≡ (u, false) =
      takes_closed-drained env r w closed taken in
    rw last (refl, closed_turn-head (w.heap r).id u (queued_id env r w s e))

-- If a tunnel's confirm does not come in time, the server forgets the tunnel and cancels it. The
-- other maps stay, every other tunnel stays as it is, and of this one only `cancelled` changes.
pub confirm_timeout_pending :
    (env : Env) (id : Text) (w : World) (r : TunnelRef)
    → lookup id w.pending_confirms ≡ some r
    → let w' = confirm_timeout env id w in
      (w'.maps ≡ record w.maps { pending_confirms = erase id w.pending_confirms })
      × (lookup id w'.pending_confirms ≡ none)
      × (w'.heap ≡ (cancel r w).heap)
unfolding confirm_timeout
confirm_timeout_pending env id w r e =
    let w0 : World = cancel r w in
    let same : SameBut w0 (final (unsubscribe env (w.heap r).server_pub_topic w0)) =
      unsubscribe-SameBut env (w.heap r).server_pub_topic w0 in
    rw (e, confirm_timeout)
      (
        ap (λ (u : World). record u.maps { pending_confirms = erase id u.pending_confirms }) same,
        (ap (λ (u : World). lookup id (erase id u.pending_confirms)) same
            ∙ lookup-erase_self id w.pending_confirms),
        ap (λ (u : World). u.heap) same,
      )
