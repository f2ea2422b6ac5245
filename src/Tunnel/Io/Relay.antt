-- ===== src/Tunnel/Io/Relay.antt =====
-- The data path from end to end: read on one side, published, delivered, and written on the other.
use mqtt_tunnel.Stdio.{closed}
use mqtt_tunnel.Tunnel.Io.{leave, notify_closed, signal_closed, takes_closed}
use mqtt_tunnel.World.Effects.{Reply, accepted, fails_to_write}
use mqtt_tunnel.Base.{
  ℕ, zero, suc, ◌≡◌, refl, sym, ap, ◌∙◌, inl, inr, true, false, List, [], ◌∷◌, ◌++◌, map,
  append-nil, append_assoc, arith, compare_self, length, Text,
}
use mqtt_tunnel.World.{World, TunnelRef, Bytes, open_conn}
use mqtt_tunnel.World.Effects.{Env, Effect, Reply-cases, publishes, writes}
use mqtt_tunnel.Broker.{publish}
use mqtt_tunnel.Tunnel.Io.{main_loop_round, takes_publish, takes_write, handle_write}

-- `n` rounds of the main loop that take from the same channel.
abbrev pub rounds : (World → World) → ℕ → World → World
rounds f zero w = w
rounds f (suc n) w = rounds f n (f w)

abbrev pub publish_round : Env → TunnelRef → World → World
publish_round env r w = (main_loop_round env r takes_publish w).0

abbrev pub write_round : Env → TunnelRef → World → World
write_round env r w = (main_loop_round env r takes_write w).0

-- The channel is closed, and what was in it has been taken.
pub takes_closed-drained :
    (env : Env) (r : TunnelRef) (w : World)
    → (w.heap r).publish_closed ≡ true
    → (w.heap r).publish_ch ≡ []
    → main_loop_round env r takes_closed w
      ≡ (leave env r (signal_closed r (notify_closed env r w)), false)
unfolding main_loop_round
takes_closed-drained env r w closed taken = rw (closed, taken, main_loop_round) refl

-- What a round takes with it: the tunnel's topics and connection stay as they are.
pub publish_round-cons :
    (env : Env) (r : TunnelRef) (b : Bytes) (bs : List Bytes) (w : World)
    → (w.heap r).publish_ch ≡ b ∷ bs
    → let w' = publish_round env r w in
      (w'.trace ≡ w.trace ++ (publishes (w.heap r).client_pub_topic 0 b ∷ []))
      × ((w'.heap r).publish_ch ≡ bs)
      × ((w'.heap r).client_pub_topic ≡ (w.heap r).client_pub_topic)
unfolding main_loop_round publish
publish_round-cons env r b bs w e = rw (e, publish) ground (arith, compare_self r)

-- What a write to the open connection puts on the trace
abbrev pub wrote : Reply → TunnelRef → Bytes → Effect
wrote accepted r b = writes r b
wrote _ r b = fails_to_write r b

pub write_round-cons :
    (env : Env) (r : TunnelRef) (b : Bytes) (bs : List Bytes) (w : World)
    → (w.heap r).write_ch ≡ b ∷ bs
    → (w.heap r).conn ≡ open_conn
    → let w' = write_round env r w in
      (w'.trace ≡ w.trace ++ (wrote env.write_reply r b ∷ []))
      × ((w'.heap r).write_ch ≡ bs)
      × ((w'.heap r).conn ≡ open_conn)
unfolding main_loop_round handle_write
write_round-cons env r b bs w e c = elim (Reply-cases env.write_reply) [
  | inl y ↦ rw (e, y) ground (arith, compare_self r)
  | inr (inl y) ↦ rw (e, y) ground (arith, compare_self r)
  | inr (inr y) ↦ rw (e, y) ground (arith, compare_self r)
]

-- As many publish rounds as chunks wait publish exactly these chunks, in their order, on the tunnel's
-- own topic to publish on (`ClientPubTopic`), and leave the channel empty.
pub publish_round-drains :
    (env : Env) (r : TunnelRef) (bs : List Bytes) (w : World)
    → (w.heap r).publish_ch ≡ bs
    → let w' = rounds (publish_round env r) (length bs) w in
      (w'.trace ≡ w.trace ++ map (publishes (w.heap r).client_pub_topic 0) bs)
      × ((w'.heap r).publish_ch ≡ [])
publish_round-drains env r [] w e = (sym (append-nil w.trace), e)
publish_round-drains env r (b ∷ bs) w e =
    let (t, rest, same) = publish_round-cons env r b bs w e in
    let (ih, drained) = publish_round-drains env r bs (publish_round env r w) rest in
    (
      ih
          ∙ (ap (λ (topic : Text). (publish_round env r w).trace ++ map (publishes topic 0) bs) same
              ∙ (ap (λ (l : List Effect). l ++ map (publishes (w.heap r).client_pub_topic 0) bs) t
                  ∙ append_assoc w.trace (publishes (w.heap r).client_pub_topic 0 b ∷ [])
                      (map (publishes (w.heap r).client_pub_topic 0) bs))),
      drained,
    )

-- As many write rounds as payloads wait write exactly these payloads to the tunnel's open
-- connection, in their order, and leave the channel empty, if the connection takes them.
pub write_round-drains :
    (env : Env) (r : TunnelRef) (bs : List Bytes) (w : World)
    → env.write_reply ≡ accepted
    → (w.heap r).write_ch ≡ bs
    → (w.heap r).conn ≡ open_conn
    → let w' = rounds (write_round env r) (length bs) w in
      (w'.trace ≡ w.trace ++ map (writes r) bs) × ((w'.heap r).write_ch ≡ [])
write_round-drains env r [] w a e c = (sym (append-nil w.trace), e)
write_round-drains env r (b ∷ bs) w a e c =
    let (t, rest, still) = write_round-cons env r b bs w e c in
    let (ih, drained) = write_round-drains env r bs (write_round env r w) a rest still in
    (
      ih
          ∙ (ap (λ (l : List Effect). l ++ map (writes r) bs)
                (t ∙ ap (λ (x : Reply). w.trace ++ (wrote x r b ∷ [])) a)
              ∙ append_assoc w.trace (writes r b ∷ []) (map (writes r) bs)),
      drained,
    )
