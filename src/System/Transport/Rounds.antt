-- ===== src/System/Transport/Rounds.antt =====
-- What one round of reading, publishing, taking a message or writing does to the chunks that wait.
use mqtt_tunnel.System.Transport.{written_in, failures}
use mqtt_tunnel.Tunnel.Io.Relay.{wrote}
use mqtt_tunnel.World.Effects.{Reply, accepted, refused, timed_out}
use mqtt_tunnel.Broker.{publish}
use mqtt_tunnel.Broker.Message.Routing.{on_message-data}
use mqtt_tunnel.Tunnel.Io.Relay.{publish_round-cons, write_round-cons}
use mqtt_tunnel.World.{Broker}
use mqtt_tunnel.World.Effects.{Effect, Reply-cases, publishes}
use mqtt_tunnel.Broker.Message.{on_message}
use mqtt_tunnel.Broker.Message.Routing.{IsData}
use mqtt_tunnel.Broker.Ping.{start_ping_timer, update_activity}
use mqtt_tunnel.Channel.{send}
use mqtt_tunnel.System.Transport.{new_effects, payloads}
use mqtt_tunnel.Tunnel.Io.{bytes, handle_write, main_loop_round, read_round}
use mqtt_tunnel.Tunnel.Io.Relay.{publish_round, write_round}
use mqtt_tunnel.World.{Bytes, TunnelRef, World, open_conn}
use mqtt_tunnel.World.Effects.{Env}
use mqtt_tunnel.Broker.Message.{returns}
use mqtt_tunnel.Base.{
  ◌≡◌, refl, sym, ap, subst, ◌∙◌, ◌⊎◌, inl, inr, some, List, [], ◌∷◌, ◌++◌, append-nil, arith,
  compare_self, length, drop, Text, lookup,
}

drop-length {ℓ} : {A : Type ℓ} (l m : List A) → drop (length l) (l ++ m) ≡ m
drop-length [] m = refl
drop-length (x ∷ l) m = drop-length l m

drop-length_self {ℓ} : {A : Type ℓ} (l : List A) → drop (length l) l ≡ []
drop-length_self [] = refl
drop-length_self (x ∷ l) = drop-length_self l

pub read_round-appends :
    (q : TunnelRef) (b : Bytes) (s s' : World)
    → read_round q (bytes b) s ≡ some s'
    → ((s'.heap q).publish_ch ≡ (s.heap q).publish_ch ++ (b ∷ []))
      × ((s'.heap q).client_pub_topic ≡ (s.heap q).client_pub_topic)
unfolding read_round send
read_round-appends q b s s' e = ground (arith, compare_self q)

pub publish_round-moves :
    (env : Env) (q : TunnelRef) (l : List Bytes) (s : World)
    → (s.heap q).publish_ch ≡ l
    → let s' = publish_round env q s in
      (payloads (s.heap q).client_pub_topic (new_effects s s') ++ (s'.heap q).publish_ch ≡ l)
      × ((s'.heap q).client_pub_topic ≡ (s.heap q).client_pub_topic)
unfolding main_loop_round publish
publish_round-moves env q [] s e = rw e (rw (drop-length_self s.trace) (e, refl))
publish_round-moves env q (b ∷ bs) s e =
    let topic = (s.heap q).client_pub_topic in
    let s' = publish_round env q s in
    let (t, rest, same) = publish_round-cons env q b bs s e in
    let new : new_effects s s' ≡ publishes topic 0 b ∷ [] =
      ap (λ (l : List Effect). drop (length s.trace) l) t
      ∙ drop-length s.trace (publishes topic 0 b ∷ []) in
    (ground (arith, new, rest), same)

-- A receiver is ready for a topic: it has the tunnel's data topic, and the connection is open.
abbrev pub IsReceiving : TunnelRef → Text → World → Type 0
IsReceiving r topic t =
    IsData topic t × (lookup topic t.broker.tunnel_topics ≡ some r) × ((t.heap r).conn ≡ open_conn)

pub on_message-appends :
    (env : Env) (r : TunnelRef) (topic : Text) (b : Bytes) (t t' : World)
    → IsReceiving r topic t
    → on_message env topic b t ≡ returns t'
    → IsReceiving r topic t'
      × (t'.trace ≡ t.trace)
      × ((t'.heap r).write_ch ≡ (t.heap r).write_ch ++ (b ∷ []))
unfolding start_ping_timer update_activity
on_message-appends env r topic b t t' (own, found, opened) e =
    ground (arith, sym (on_message-data env topic b t r own found) ∙ e, compare_self r)

write_round-broker :
    (env : Env) (r : TunnelRef) (b : Bytes) (bs : List Bytes) (t : World)
    → (t.heap r).write_ch ≡ b ∷ bs
    → (t.heap r).conn ≡ open_conn
    → (write_round env r t).broker ≡ t.broker
unfolding main_loop_round handle_write
write_round-broker env r b bs t e c = elim (Reply-cases env.write_reply) [
  | inl y ↦ rw (e, y) ground (arith, compare_self r)
  | inr (inl y) ↦ rw (e, y) ground (arith, compare_self r)
  | inr (inr y) ↦ rw (e, y) ground (arith, compare_self r)
]

-- What a write round makes of the chunks `l`: the first one is written, or it fails, or there is none.
abbrev pub Taken : TunnelRef → List Bytes → List Effect → List Bytes → Type 0
Taken r l log rest =
    ((l ≡ written_in r log ++ rest) × (failures log ≡ 0))
    ⊎ ((b : Bytes) × (l ≡ b ∷ rest) × (written_in r log ≡ []) × (failures log ≡ 1))

wrote-Taken :
    (x : Reply) (r : TunnelRef) (b : Bytes) (bs : List Bytes)
    → Taken r (b ∷ bs) (wrote x r b ∷ []) bs
wrote-Taken accepted r b bs = inl (ground (arith, compare_self r), refl)
wrote-Taken refused r b bs = inr (b, refl, refl, refl)
wrote-Taken timed_out r b bs = inr (b, refl, refl, refl)

pub write_round-moves :
    (env : Env) (r : TunnelRef) (topic : Text) (l : List Bytes) (t : World)
    → (t.heap r).write_ch ≡ l
    → IsReceiving r topic t
    → let t' = write_round env r t in
      IsReceiving r topic t'
      × (t'.trace ≡ t.trace ++ new_effects t t')
      × Taken r l (new_effects t t') (t'.heap r).write_ch
unfolding main_loop_round handle_write
write_round-moves env r topic [] t e (own, found, opened) = rw e (
    rw (drop-length_self t.trace)
      ((own, found, opened), sym (append-nil t.trace), inl (sym e, refl)))
write_round-moves env r topic (b ∷ bs) t e (own, found, opened) =
    let t' = write_round env r t in
    let (tr, rest, still) = write_round-cons env r b bs t e opened in
    let (mine, there) =
      subst
        (λ (x : Broker).
          IsData topic (record t { broker = x }) × (lookup topic x.tunnel_topics ≡ some r))
        (sym (write_round-broker env r b bs t e opened)) (own, found) in
    let new : new_effects t t' ≡ wrote env.write_reply r b ∷ [] =
      ap (λ (l : List Effect). drop (length t.trace) l) tr
      ∙ drop-length t.trace (wrote env.write_reply r b ∷ []) in
    (
      (mine, there, still),
      tr ∙ ap (λ (l : List Effect). t.trace ++ l) (sym new),
      subst (λ (l : List Effect). Taken r (b ∷ bs) l (t'.heap r).write_ch) (sym new)
          (subst (λ (l : List Bytes). Taken r (b ∷ bs) (wrote env.write_reply r b ∷ []) l)
            (sym rest) (wrote-Taken env.write_reply r b bs)),
    )
