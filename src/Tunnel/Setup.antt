-- ===== src/Tunnel/Setup.antt =====
-- What the set-up of a tunnel leaves behind when the broker accepts the calls.
use mqtt_tunnel.Base.{ℕ, ◌≡◌, refl, List, [], ◌∷◌, ◌++◌, Text, Dict, insert}
use mqtt_tunnel.World.{World, TunnelRef, emit, set_tunnel_topics}
use mqtt_tunnel.World.Effects.{Env, Effect, accepted, publishes, subscribes}
use mqtt_tunnel.World.Monad.{ok, wrap, ◌>>◌}
use mqtt_tunnel.Broker.{subscribe, subscribe_to, subscribe_tunnel_topic, publish_wait, publish}
use mqtt_tunnel.Tunnel.{setup_local_tunnel, setup_remote_tunnel, open_request}
use mqtt_tunnel.Tunnel.Packets.{create_ack, create_connect_request}

-- `w` after `topic` was subscribed for the tunnel at `r`, with another trace
abbrev pub subscribed : World → Text → TunnelRef → List Effect → World
subscribed w topic r log = record (set_tunnel_topics (insert topic r w.broker.tunnel_topics) w) {
  trace = log;
}

subscribe_to-accepted :
    (env : Env) (ts : Dict ℕ) (w : World)
    → env.subscribe_reply ≡ accepted
    → (log : List Effect) × (subscribe_to env ts w ≡ ok tt (record w { trace = log }))
subscribe_to-accepted env [] w a = (w.trace, refl)
subscribe_to-accepted env (t ∷ ts) w a = (w.trace ++ (subscribes (t ∷ ts) ∷ []), rw a refl)

pub subscribe_tunnel_topic-accepted :
    (env : Env) (topic : Text) (r : TunnelRef) (w : World)
    → env.subscribe_reply ≡ accepted
    → (log : List Effect) × (subscribe_tunnel_topic env topic r w
        ≡ ok tt (subscribed w topic r log))
unfolding subscribe_tunnel_topic subscribe
subscribe_tunnel_topic-accepted env topic r w a =
    subscribe_to-accepted env _ (set_tunnel_topics (insert topic r w.broker.tunnel_topics) w) a

pub setup_local_tunnel-accepted :
    (env : Env) (r : TunnelRef) (w : World)
    → env.subscribe_reply ≡ accepted
    → (log : List Effect) × (setup_local_tunnel env r w
        ≡ ok tt (subscribed w (w.heap r).server_pub_topic r log))
unfolding setup_local_tunnel
setup_local_tunnel-accepted env r w a =
    let (log, e) = subscribe_tunnel_topic-accepted env (w.heap r).server_pub_topic r w a in
    (log, rw (e, wrap) refl)

-- The ack goes out on the control topic with QoS 1.
pub setup_remote_tunnel-accepted :
    (env : Env) (r : TunnelRef) (w : World)
    → env.subscribe_reply ≡ accepted
    → env.publish_reply ≡ accepted
    → (log : List Effect) × (setup_remote_tunnel env r w
        ≡ ok tt (
            subscribed w (w.heap r).server_pub_topic r (
              log
              ++ (publishes w.broker.control_topic 1 (env.marshal (create_ack (w.heap r))) ∷ []))))
unfolding setup_remote_tunnel publish_wait publish
setup_remote_tunnel-accepted env r w a p =
    let (log, e) = subscribe_tunnel_topic-accepted env (w.heap r).server_pub_topic r w a in
    (log, rw (e, wrap, ◌>>◌) (rw p refl))

pub open_request-accepted :
    (env : Env) (r : TunnelRef) (w : World)
    → env.publish_reply ≡ accepted
    → open_request env r w
      ≡ ok tt (
          emit
            (publishes w.broker.control_topic 1 (env.marshal (create_connect_request (w.heap r))))
            w)
unfolding open_request publish_wait publish
open_request-accepted env r w p = rw p refl
