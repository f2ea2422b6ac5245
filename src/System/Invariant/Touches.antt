-- ===== src/System/Invariant/Touches.antt =====
-- The calls of the MQTT client change the broker object and leave a trace, and nothing else.
use mqtt_tunnel.Base.{ℕ, ◌≡◌, refl, ap, inl, inr, List, [], ◌∷◌, Text, Dict, insert}
use mqtt_tunnel.World.{World, Broker, TunnelRef}
use mqtt_tunnel.World.Effects.{Env, Effect, Reply-cases}
use mqtt_tunnel.World.Monad.{
  Outcome, ok, fail, Error, final, M, wrap, ◌>>◌, broker_open, publish_control,
}
use mqtt_tunnel.Broker.{
  publish, publish_wait, subscribe, subscribe_tunnel_topic, subscribe_to, wanted_topics,
  unsubscribe,
}
use mqtt_tunnel.Tunnel.{setup_local_tunnel, setup_remote_tunnel, open_request}

-- `w` with another broker object and another trace
abbrev pub with_broker : World → Broker → List Effect → World
with_broker w b log = record w { broker = b; trace = log }

pub data Touches (w : World) (o : Outcome (Unit {0})) : Type 0 where
  done : (b : Broker) (log : List Effect) → o ≡ ok tt (with_broker w b log) → Touches w o
  failed :
      (e : Error) (b : Broker) (log : List Effect) → o ≡ fail e (with_broker w b log) → Touches w o

pub final-Touches :
    {w : World} {o : Outcome (Unit {0})}
    → Touches w o
    → (b : Broker) × (log : List Effect) × (final o ≡ with_broker w b log)
final-Touches (done b log e) = (b, log, ap final e)
final-Touches (failed x b log e) = (b, log, ap final e)

pub publish_wait-Touches :
    (env : Env) (topic : Text) (qos : ℕ) (payload : List ℕ) (w : World)
    → Touches w (publish_wait env topic qos payload w)
unfolding publish_wait publish
publish_wait-Touches env topic qos payload w = elim (Reply-cases env.publish_reply) [
  | inl e ↦ rw e (done _ _ refl)
  | inr (inl e) ↦ rw e (failed _ _ _ refl)
  | inr (inr e) ↦ rw e (failed _ _ _ refl)
]

subscribe_to-Touches : (env : Env) (ts : Dict ℕ) (w : World) → Touches w (subscribe_to env ts w)
subscribe_to-Touches env [] w = done w.broker w.trace refl
subscribe_to-Touches env (t ∷ ts) w = elim (Reply-cases env.subscribe_reply) [
  | inl e ↦ rw e (done _ _ refl)
  | inr (inl e) ↦ rw e (failed _ _ _ refl)
  | inr (inr e) ↦ rw e (failed _ _ _ refl)
]

pub subscribe-Touches : (env : Env) (w : World) → Touches w (subscribe env w)
unfolding subscribe
subscribe-Touches env w = subscribe_to-Touches env (wanted_topics w) w

-- A step that follows one that touched the broker only.
then-Touches :
    {w : World} {o : Outcome (Unit {0})} (b : Broker) (log : List Effect)
    → Touches (with_broker w b log) o
    → Touches w o
then-Touches b log (done b' log' e) = done b' log' e
then-Touches b log (failed x b' log' e) = failed x b' log' e

pub subscribe_tunnel_topic-Touches :
    (env : Env) (topic : Text) (r : TunnelRef) (w : World)
    → Touches w (subscribe_tunnel_topic env topic r w)
unfolding subscribe_tunnel_topic
subscribe_tunnel_topic-Touches env topic r w =
    then-Touches (record w.broker { tunnel_topics = insert topic r w.broker.tunnel_topics }) w.trace
      (subscribe-Touches env _)

pub unsubscribe-Touches :
    (env : Env) (topic : Text) (w : World) → Touches w (unsubscribe env topic w)
unfolding unsubscribe
unsubscribe-Touches env [] w = done w.broker w.trace refl
unsubscribe-Touches env (c ∷ t) w = elim (Reply-cases (env.unsubscribe_reply (c ∷ t))) [
  | inl e ↦ rw e (done _ _ refl)
  | inr (inl e) ↦ rw e (failed _ _ _ refl)
  | inr (inr e) ↦ rw e (failed _ _ _ refl)
]

wrap-Touches :
    (f : Error → Error) {w : World} (m : M (Unit {0})) → Touches w (m w) → Touches w (wrap f m w)
wrap-Touches f m (done b log e) = done b log (rw (e, wrap) refl)
wrap-Touches f m (failed x b log e) = failed (f x) b log (rw (e, wrap) refl)

pub setup_local_tunnel-Touches :
    (env : Env) (r : TunnelRef) (w : World) → Touches w (setup_local_tunnel env r w)
unfolding setup_local_tunnel
setup_local_tunnel-Touches env r w =
    wrap-Touches broker_open (subscribe_tunnel_topic env (w.heap r).server_pub_topic r)
      (subscribe_tunnel_topic-Touches env _ r w)

pub setup_remote_tunnel-Touches :
    (env : Env) (r : TunnelRef) (w : World) → Touches w (setup_remote_tunnel env r w)
unfolding setup_remote_tunnel
setup_remote_tunnel-Touches env r w =
    elim (subscribe_tunnel_topic-Touches env (w.heap r).server_pub_topic r w) [
      | done b log e ↦
          rw (e, wrap, ◌>>◌)
            (then-Touches b log (publish_wait-Touches env _ 1 _ (with_broker w b log)))
      | failed x b log e ↦ rw (e, wrap, ◌>>◌) (failed (broker_open x) b log refl)
    ]

pub open_request-Touches :
    (env : Env) (r : TunnelRef) (w : World) → Touches w (open_request env r w)
unfolding open_request
open_request-Touches env r w =
    wrap-Touches publish_control (publish_wait env _ 1 _) (publish_wait-Touches env _ 1 _ w)

-- What holds after a wrapped call that touched the broker only, and what follows it: of the world that
-- the call leaves if it fails, and of the world after the rest if not.
pub touch-cases {ℓ} :
    (P : World → Type ℓ) (f : Error → Error) (m k : M (Unit {0})) (w : World)
    → Touches w (m w)
    → ((b : Broker) (log : List Effect) → P (with_broker w b log))
    → ((b : Broker) (log : List Effect) → P (final (k (with_broker w b log))))
    → P (final ((wrap f m >> k) w))
touch-cases P f m k w (done b log e) bad good = rw (e, wrap, ◌>>◌) (good b log)
touch-cases P f m k w (failed x b log e) bad good = rw (e, wrap, ◌>>◌) (bad b log)
