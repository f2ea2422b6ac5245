-- ===== src/Broker/Message/Topics.antt =====
-- The topics of tunnels are none of the broker's own topics.
use mqtt_tunnel.Base.{
  ℕ, zero, suc, ◌+◌, ◌≡◌, refl, ap, ◌⊎◌, inl, inr, Bool, Option, none, some, List, [], ◌∷◌, ◌++◌,
  arith, if-cases, match-cases, length, length-append, Text, codes, pos, leb_ℤ,
}
use mqtt_tunnel.Config.{Config}
use mqtt_tunnel.Control.Random.{
  rand_int, rand_str, length-rand_str, random_chars, generate_random_id,
}
use mqtt_tunnel.World.{World}
use mqtt_tunnel.World.Effects.{Env}
use mqtt_tunnel.Broker.{control_topic_of, data_topic_root}
use mqtt_tunnel.Broker.Connect.{new_broker, new_ping_topic}
use mqtt_tunnel.Broker.Message.Routing.{IsData}
use mqtt_tunnel.Tunnel.{random_topic}

-- What a random string that is drawn has in length.
abbrev HasLength : ℕ → Option (Text × List ℕ) → Type 0
HasLength n none = Unit
HasLength n (some (s, rest)) = length s ≡ n

random_chars-HasLength : (n : ℕ) (bs : List ℕ) → HasLength n (random_chars n bs)
unfolding random_chars
random_chars-HasLength zero bs = refl
random_chars-HasLength (suc n) bs =
    match-cases (HasLength (suc n)) (rand_int 62 bs) (λ _. tt)
      λ a _.
        match-cases (HasLength (suc n)) (random_chars n a.1) (λ _. tt)
          λ b e. ap suc (rw e at (random_chars-HasLength n a.1))

generate_random_id-HasLength : (bs : List ℕ) → HasLength 4 (generate_random_id (pos 4) bs)
unfolding generate_random_id
generate_random_id-HasLength bs =
    match-cases (HasLength 4) (rand_int 52 bs) (λ _. tt)
      λ a _.
        match-cases (HasLength 4) (random_chars 3 a.1) (λ _. tt)
          λ b e. ap suc (rw e at (random_chars-HasLength 3 a.1))

-- A ping topic is empty, or has its random part behind the base topic.
abbrev HasPingLength : Text → Option Text → Type 0
HasPingLength base none = Unit
HasPingLength base (some t) = (t ≡ []) ⊎ (length t ≡ length base + 10)

new_ping_topic-HasPingLength :
    (conf : Config) (bs : List ℕ) → HasPingLength conf.topic (new_ping_topic conf bs)
unfolding new_ping_topic
new_ping_topic-HasPingLength conf bs =
    if-cases (HasPingLength conf.topic) (leb_ℤ conf.manual_keepalive (pos 0)) (λ _. inl refl)
      λ _.
        match-cases (HasPingLength conf.topic) (generate_random_id (pos 4) bs) (λ _. tt)
          λ a e.
            let four : length a.0 ≡ 4 = rw e at (generate_random_id-HasLength bs) in
            inr (omega (arith, length-append conf.topic (codes "/ping/" ++ a.0), four))

length-random_topic :
    (root : Text) (draw : ℕ → ℕ) → length (random_topic root draw) ≡ length root + 5
length-random_topic root draw =
    omega (arith, length-append root (b'/' ∷ rand_str 4 draw), length-rand_str 4 draw)

-- With the topics that `NewMQTTBroker` sets, the ping topic, if there is one, being the base topic
-- with `/ping/` and four characters behind it, a random topic under the base topic, as a server
-- draws it for a tunnel, is neither the control topic nor the ping topic.
pub random_topic-IsData :
    (env : Env) (conf : Config) (is_server : Bool) (bs : List ℕ) (ping : Text) (draw : ℕ → ℕ)
    (w : World)
    → new_ping_topic conf bs ≡ some ping
    → w.broker ≡ new_broker env conf is_server ping
    → IsData (random_topic (data_topic_root conf.topic) draw) w
unfolding new_broker control_topic_of data_topic_root
random_topic-IsData env conf is_server bs ping draw w e b =
    let n : length (random_topic conf.topic draw) ≡ length conf.topic + 5 =
      length-random_topic conf.topic draw in
    let shape : HasPingLength conf.topic (some ping) =
      rw e at (new_ping_topic-HasPingLength conf bs) in
    rw b (
      (λ same. omega (arith, n, ap length same, length-append conf.topic (codes "/ctl"))),
      elim shape [
        | inl nil ↦ inl nil
        | inr long ↦ inr (λ same. omega (arith, n, long, ap length same))
      ],
    )
