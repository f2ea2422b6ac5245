-- ===== src/Broker.antt =====
-- tunnel/mqtt.go: topics, publishing and subscribing. The children model the message callback, the
-- filter on control packets, the manual keepalive, and connecting.
pub mod Options
pub mod Filter
pub mod Ping
pub mod Message
pub mod Connect
pub mod Unsubscribing
use Prim.Native.String.{String}
use mqtt_tunnel.Base.{
  ℕ, List, [], ◌∷◌, ◌++◌, Text, codes, Dict, text_eq, insert, erase, if◌then◌else◌,
}
use mqtt_tunnel.World.{World, TunnelRef, emit, set_tunnel_topics}
use mqtt_tunnel.World.Effects.{
  Env, Reply, accepted, refused, timed_out, publishes, subscribes, unsubscribes,
}
use mqtt_tunnel.World.Monad.{
  M, ◌>>=◌, ◌>>◌, return, throw, modify, subscribe_timed_out, subscribe_failed,
  unsubscribe_timed_out, unsubscribe_failed, publish_failed, Error,
}

-- `ControlTopic` and `DataTopicRoot` of tunnel/config.go
unfoldable pub control_topic_of : Text → Text
control_topic_of base = base ++ codes "/ctl"

unfoldable pub data_topic_root : Text → Text
data_topic_root base = base

-- `publish` with the token dropped
unfoldable pub publish : Text → ℕ → List ℕ → World → World
publish topic qos payload = emit (publishes topic qos payload)

-- `publish`, `token.Wait()` and `token.Error()`
unfoldable pub publish_wait : Env → Text → ℕ → List ℕ → M (Unit {0})
unfolding publish
publish_wait env topic qos payload = do
  modify (publish topic qos payload)
  elim env.publish_reply [ accepted ↦ return tt | _ ↦ throw publish_failed ]

abbrev pub with_topic : Text → ℕ → Dict ℕ → Dict ℕ
with_topic t qos m = if text_eq t [] then m else insert t qos m

pub tunnel_entries : Dict TunnelRef → Dict ℕ → Dict ℕ
tunnel_entries [] m = m
tunnel_entries ((t, r) ∷ ts) m = tunnel_entries ts (insert t 0 m)

-- The map that `subscribe` builds: the control topic with QoS 1, tunnel topics and the ping topic
-- with QoS 0.
unfoldable pub wanted_topics : World → Dict ℕ
unfolding tunnel_entries
wanted_topics w =
    with_topic w.broker.ping.ping_topic 0
      (tunnel_entries w.broker.tunnel_topics (with_topic w.broker.control_topic 1 []))

abbrev pub subscribe_result : Reply → M (Unit {0})
subscribe_result accepted = return tt
subscribe_result refused = throw subscribe_failed
subscribe_result timed_out = throw subscribe_timed_out

abbrev pub subscribe_to : Env → Dict ℕ → M (Unit {0})
subscribe_to env [] = return tt
subscribe_to env (t ∷ ts) = do
  modify (emit (subscribes (t ∷ ts)))
  subscribe_result env.subscribe_reply

unfoldable pub subscribe : Env → M (Unit {0})
subscribe env w = subscribe_to env (wanted_topics w) w

unfoldable pub subscribe_tunnel_topic : Env → Text → TunnelRef → M (Unit {0})
unfolding subscribe
subscribe_tunnel_topic env topic r = do
  modify (λ w. set_tunnel_topics (insert topic r w.broker.tunnel_topics) w)
  subscribe env

abbrev unsubscribe_result : Reply → Text → M (Unit {0})
unsubscribe_result accepted topic =
    modify (λ w. set_tunnel_topics (erase topic w.broker.tunnel_topics) w)
unsubscribe_result refused topic = throw unsubscribe_failed
unsubscribe_result timed_out topic = throw unsubscribe_timed_out

unfoldable pub unsubscribe : Env → Text → M (Unit {0})
unsubscribe env [] = return tt
unsubscribe env (c ∷ topic) = do
  modify (emit (unsubscribes (c ∷ topic)))
  unsubscribe_result (env.unsubscribe_reply (c ∷ topic)) (c ∷ topic)
