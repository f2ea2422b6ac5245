-- ===== src/Broker/Unsubscribing.antt =====
-- What `unsubscribe` of tunnel/mqtt.go leaves.
use mqtt_tunnel.World.Effects.{Reply, accepted, refused, timed_out}
use mqtt_tunnel.Base.{erase_comm}
use mqtt_tunnel.Broker.{unsubscribe}
use mqtt_tunnel.World.{TunnelRef, World}
use mqtt_tunnel.World.Effects.{Effect, Env, Reply-cases, accepted, unsubscribes}
use mqtt_tunnel.World.Monad.{final}
use mqtt_tunnel.Base.{
  ◌≡◌, refl, sym, ap, inl, inr, List, [], ◌∷◌, ◌++◌, append-nil, Text, Dict, erase,
}

-- The request that goes to the MQTT broker: none without a topic
abbrev pub goodbye : Text → List Effect
goodbye [] = []
goodbye (c ∷ t) = unsubscribes (c ∷ t) ∷ []

-- The topics that are left: if the MQTT broker does not accept the request, the entry stays.
abbrev pub left_by : Reply → Text → Dict TunnelRef → Dict TunnelRef
left_by accepted topic m = erase topic m
left_by refused topic m = m
left_by timed_out topic m = m

abbrev pub topics_left : Env → Text → Dict TunnelRef → Dict TunnelRef
topics_left env [] m = m
topics_left env (c ∷ t) m = left_by (env.unsubscribe_reply (c ∷ t)) (c ∷ t) m

pub unsubscribe_lem :
    (env : Env) (topic : Text) (w : World)
    → final (unsubscribe env topic w) ≡ record w {
      trace = w.trace ++ goodbye topic;
      broker = record w.broker { tunnel_topics = topics_left env topic w.broker.tunnel_topics };
    }
unfolding unsubscribe
unsubscribe_lem env [] w =
    ap (λ (l : List Effect). record w { trace = l }) (sym (append-nil w.trace))
unsubscribe_lem env (c ∷ t) w = elim (Reply-cases (env.unsubscribe_reply (c ∷ t))) [
  | inl e ↦ rw (e, left_by) refl
  | inr (inl e) ↦ rw (e, left_by) refl
  | inr (inr e) ↦ rw (e, left_by) refl
]

left_by_comm :
    (a b : Reply) (s t : Text) (m : Dict TunnelRef)
    → left_by a s (left_by b t m) ≡ left_by b t (left_by a s m)
left_by_comm accepted accepted s t m = erase_comm s t m
left_by_comm accepted refused s t m = refl
left_by_comm accepted timed_out s t m = refl
left_by_comm refused b s t m = refl
left_by_comm timed_out b s t m = refl

-- The order of two requests does not matter for the topics that are left.
pub topics_left_comm :
    (env : Env) (s t : Text) (m : Dict TunnelRef)
    → topics_left env s (topics_left env t m) ≡ topics_left env t (topics_left env s m)
topics_left_comm env [] t m = refl
topics_left_comm env (c ∷ s) [] m = refl
topics_left_comm env (c ∷ s) (d ∷ t) m =
    left_by_comm (env.unsubscribe_reply (c ∷ s)) (env.unsubscribe_reply (d ∷ t)) (c ∷ s) (d ∷ t) m
