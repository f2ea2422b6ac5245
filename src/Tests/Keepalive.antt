-- ===== src/Tests/Keepalive.antt =====
-- The keepalive and the connection to the broker.
use mqtt_tunnel.Base.{◌≡◌, refl, true, false, some, [], ◌∷◌, arith, codes}
use mqtt_tunnel.World.{World, emit}
use mqtt_tunnel.World.Effects.{publishes, disconnects}
use mqtt_tunnel.World.Monad.{retries_exhausted}
use mqtt_tunnel.Broker.Connect.{connect_with_retry}
use mqtt_tunnel.Broker.Connect.Retry.{connect_with_retry_hopeless}
use mqtt_tunnel.Broker.Ping.{send_ping, arm_ping_timeout, ping_timeout}
use mqtt_tunnel.Broker.Ping.Laws.{ping_timeout-send_ping}
use mqtt_tunnel.System.{initial}
use mqtt_tunnel.Tests.{friendly, hostile, a_server}

connect_with_retry_hopeless_example : connect_with_retry hostile ≡ record {
  failure = some retries_exhausted;
  waits = 10 ∷ 20 ∷ 40 ∷ 60 ∷ 60 ∷ 60 ∷ 60 ∷ 60 ∷ 60 ∷ 60 ∷ [];
  made = 10;
}
connect_with_retry_hopeless_example =
    connect_with_retry_hopeless hostile (λ i e. ground arith) (λ i. refl)

ping_timeout-send_ping_example :
    let pinged = arm_ping_timeout friendly (send_ping friendly a_server).0 in
    let lost = ping_timeout true pinged in
    ((send_ping friendly a_server).1 ≡ true)
    × (lost.trace ≡ publishes (codes "home/ssh/ping/abcd") 0 (codes "ping") ∷ disconnects ∷ [])
    × (lost.broker.ping.ping_pending ≡ false)
    × (lost.reconnect_wanted ≡ true)
    × (send_ping friendly pinged ≡ (emit disconnects pinged, false))
unfolding initial
ping_timeout-send_ping_example = ping_timeout-send_ping friendly friendly true a_server refl

-- A server whose ping is under way.
abbrev pinging : World
pinging = record a_server {
  broker = record a_server.broker { ping = record a_server.broker.ping { ping_pending = true } };
}
