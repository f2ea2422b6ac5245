-- ===== src/Broker/Connect/Resubscribing.antt =====
-- What `onConnect` of tunnel/mqtt.go subscribes to, at the first connect and behind each lost one.
use mqtt_tunnel.Broker.{subscribe_to}
use mqtt_tunnel.Broker.Ping.{set_ping}
use mqtt_tunnel.World.Effects.{Reply-cases}
use mqtt_tunnel.World.Monad.{final}
use mqtt_tunnel.Broker.{subscribe, wanted_topics}
use mqtt_tunnel.Broker.Connect.{on_connect}
use mqtt_tunnel.Broker.Ping.{start_ping_timer, update_activity}
use mqtt_tunnel.World.Effects.{Env, subscribes}
use mqtt_tunnel.Broker.{tunnel_entries, with_topic}
use mqtt_tunnel.World.{TunnelRef, World}
use mqtt_tunnel.Base.{
  ℕ, ◌≡◌, refl, sym, ap, subst, ◌∙◌, ◌≢◌, inl, inr, Bool, not, ◌&&◌, ◌||◌, Option, none, some, [],
  ◌∷◌, ◌++◌, arith, if◌then◌else◌, if-cases, Text, text_eq, Dict, lookup, insert, has, lookup-nil,
  lookup-insert, pos, leb_ℤ,
}

-- A topic that is given, and is this one
abbrev pub is_named : Text → Text → Bool
is_named topic t = not (text_eq topic []) && text_eq topic t

-- The QoS that a topic is to be subscribed with, if it is
abbrev pub wanted_qos : World → Text → Option ℕ
wanted_qos w t =
    if is_named w.broker.ping.ping_topic t || has t w.broker.tunnel_topics
    then some 0
    else if is_named w.broker.control_topic t
    then some 1
    else none

lookup-with_topic :
    (t topic : Text) (qos : ℕ) (m : Dict ℕ)
    → lookup t (with_topic topic qos m) ≡ (if is_named topic t then some qos else lookup t m)
lookup-with_topic t topic qos m = ground (arith, lookup-insert t topic qos m)

lookup-tunnel_entries :
    (t : Text) (ts : Dict TunnelRef) (m : Dict ℕ)
    → lookup t (tunnel_entries ts m) ≡ (if has t ts then some 0 else lookup t m)
unfolding tunnel_entries lookup
lookup-tunnel_entries t [] m = refl
lookup-tunnel_entries t ((u, r) ∷ ts) m =
    ground (arith, lookup-tunnel_entries t ts (insert u 0 m), lookup-insert t u 0 m)

lookup-wanted_topics : (w : World) (t : Text) → lookup t (wanted_topics w) ≡ wanted_qos w t
unfolding wanted_topics
lookup-wanted_topics w t =
    let control : Dict ℕ = with_topic w.broker.control_topic 1 [] in
    let tunnels : Dict ℕ = tunnel_entries w.broker.tunnel_topics control in
    ground (
      arith,
      lookup-with_topic t w.broker.ping.ping_topic 0 tunnels,
      lookup-tunnel_entries t w.broker.tunnel_topics control,
      lookup-with_topic t w.broker.control_topic 1 [],
      lookup-nil {V = ℕ} t,
    )

wanted_topics-some : (w : World) → w.broker.control_topic ≢ [] → wanted_topics w ≢ []
wanted_topics-some w n e =
    let control = w.broker.control_topic in
    let asked : wanted_qos w control ≡ none =
      sym (lookup-wanted_topics w control) ∙ ap (lookup control) e ∙ lookup-nil {V = ℕ} control in
    ground arith

subscribe_to-some :
    (env : Env) (m : Dict ℕ) (w : World)
    → m ≢ []
    → final (subscribe_to env m w) ≡ record w { trace = w.trace ++ (subscribes m ∷ []) }
subscribe_to-some env [] w n = absurd (n refl)
subscribe_to-some env (t ∷ ts) w n = elim (Reply-cases env.subscribe_reply) [
  | inl e ↦ rw e refl
  | inr (inl e) ↦ rw e refl
  | inr (inr e) ↦ rw e refl
]

-- The keepalive changes its times only.
abbrev SameButPing : World → World → Type 0
SameButPing w u = (u ≡ set_ping u.broker.ping w)

keepalive-SameButPing :
    (env : Env) (w : World)
    → SameButPing w (
        if leb_ℤ w.broker.broker_conf.manual_keepalive (pos 0)
        then w
        else start_ping_timer env (update_activity env w))
unfolding start_ping_timer update_activity
keepalive-SameButPing env w =
    if-cases (SameButPing w) (leb_ℤ w.broker.broker_conf.manual_keepalive (pos 0)) (λ _. refl)
      (λ _.
        if-cases (SameButPing w) (leb_ℤ w.broker.broker_conf.manual_keepalive (pos 0)) (λ _. refl)
          (λ _. refl))

-- At the first connect and at every one behind a lost connection, a process with a control topic asks
-- the MQTT broker once, and for exactly these topics: its ping topic, if it has one, and the topics
-- of all its tunnels with QoS 0, and its control topic with QoS 1. Its tunnels and maps stay as they
-- are, whatever the answer is.
pub on_connect_lem :
    (env : Env) (w : World)
    → w.broker.control_topic ≢ []
    → let u = on_connect env w in
      ((m : Dict ℕ) × (u.trace ≡ w.trace ++ (subscribes m ∷ []))
        × ((t : Text) → lookup t m ≡ wanted_qos w t))
      × (u.maps ≡ w.maps)
      × (u.heap ≡ w.heap)
      × (u.broker.tunnel_topics ≡ w.broker.tunnel_topics)
unfolding on_connect subscribe
on_connect_lem env w n =
    let m : Dict ℕ = wanted_topics w in
    let w1 : World = record w { trace = w.trace ++ (subscribes m ∷ []) } in
    let same : SameButPing w1 (on_connect env w) =
      subst
        (λ (v : World). SameButPing w1 (
          if leb_ℤ v.broker.broker_conf.manual_keepalive (pos 0)
          then v
          else start_ping_timer env (update_activity env v)))
        (sym (subscribe_to-some env m w (wanted_topics-some w n))) (keepalive-SameButPing env w1) in
    (
      (m, ap (λ (u : World). u.trace) same, lookup-wanted_topics w),
      ap (λ (u : World). u.maps) same,
      ap (λ (u : World). u.heap) same,
      ap (λ (u : World). u.broker.tunnel_topics) same,
    )
