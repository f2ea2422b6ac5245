-- ===== src/Broker/Ping/Laws.antt =====
-- The manual keepalive: an echo in time keeps the connection, a missing one gives it up.
use mqtt_tunnel.Base.{
  ◌≡◌, Bool, true, false, ◌||◌, none, some, [], ◌∷◌, ◌++◌, arith, if◌then◌else◌, codes,
}
use mqtt_tunnel.World.{World, emit}
use mqtt_tunnel.World.Effects.{Env, disconnects, publishes}
use mqtt_tunnel.Broker.Ping.{send_ping, arm_ping_timeout, ping_timeout, on_connection_lost}

-- A ping that stays without an echo: when its timeout fires, the client of the broker is
-- disconnected, and the main loop is asked to reconnect if it listens at that moment. A second
-- ping in between disconnects, too.
pub ping_timeout-send_ping :
    (env env' : Env) (listening : Bool) (w : World)
    → w.broker.ping.ping_pending ≡ false
    → let pinged = arm_ping_timeout env' (send_ping env w).0 in
      let lost = ping_timeout listening pinged in
      ((send_ping env w).1 ≡ true)
      × (lost.trace
          ≡ (w.trace ++ (publishes w.broker.ping.ping_topic 0 (codes "ping") ∷ []))
            ++ (disconnects ∷ []))
      × (lost.broker.ping.ping_pending ≡ false)
      × (lost.reconnect_wanted ≡ (listening || w.reconnect_wanted))
      × (send_ping env pinged ≡ (emit disconnects pinged, false))
unfolding ping_timeout send_ping arm_ping_timeout
ping_timeout-send_ping env env' listening w p = ground arith

-- When the connection is lost no ping is pending and no timer is left. A client exits with 1; a
-- server stays, and its main loop is asked to reconnect if it listens at that moment.
pub on_connection_lost_lem :
    (listening : Bool) (w : World)
    → let w' = on_connection_lost listening w in
      (w'.broker.ping.ping_pending ≡ false)
      × (w'.broker.ping.ping_timer ≡ none)
      × (w'.broker.ping.ping_timeout_timer ≡ none)
      × (w'.exit_code ≡ (if w.broker.server_side then w.exit_code else some 1))
      × (w'.reconnect_wanted
          ≡ (if w.broker.server_side then listening || w.reconnect_wanted else w.reconnect_wanted))
unfolding on_connection_lost
on_connection_lost_lem listening w = ground arith
