-- ===== src/Tests/Refreshing.antt =====
-- A server that gets a new configuration, and one that refuses a request.
use mqtt_tunnel.Broker.Connect.{on_connect}
use mqtt_tunnel.Broker.Connect.Resubscribing.{on_connect_lem, wanted_qos}
use mqtt_tunnel.World.Effects.{subscribes}
use mqtt_tunnel.Config.{Config}
use mqtt_tunnel.Control.{ControlPacket, failure_reason_id_in_use}
use mqtt_tunnel.Control.Random.{rand_str}
use mqtt_tunnel.MqTunnel.Loops.{reload_turn}
use mqtt_tunnel.System.{after_turn, initial}
use mqtt_tunnel.System.Refusing.{the_answer}
use mqtt_tunnel.System.Reloading.{AllCancelled, SetUpFor, reload_turn_lem}
use mqtt_tunnel.Tests.{busy_tunnel, friendly, holding, test_config, with_connected}
use mqtt_tunnel.World.{World, set_connected}
use mqtt_tunnel.World.Effects.{Env}
use mqtt_tunnel.Base.{
  ℕ, ◌≡◌, refl, ◌⊎◌, true, some, [], ◌∷◌, ◌++◌, arith, Text, codes, text_dec, Dict, lookup, pos,
}

abbrev next_config : Config
next_config = record test_config { topic = codes "office/ssh" }

abbrev to_reload : World
to_reload = record (with_connected true) { reload_ch = next_config ∷ [] }

reload_turn_lem_example :
    let u = after_turn to_reload (reload_turn friendly to_reload) in
    (u.maps ≡ record { ack_waiting = []; pending_confirms = []; connected = [] })
    × AllCancelled to_reload u.heap
    × (SetUpFor next_config u ⊎ (u.exit_code ≡ some 1))
unfolding initial
reload_turn_lem_example = reload_turn_lem friendly to_reload next_config [] refl

-- The failure for an ID in use, which the client can read
abbrev in_use : ControlPacket
in_use = the_answer friendly (pos 22) failure_reason_id_in_use

abbrev reading_client : Env
reading_client = record friendly { unmarshal = λ bs. some in_use }

-- A server that has the client's ID already
abbrev busy_server : World
busy_server = set_connected ((rand_str 6 friendly.draw, 0) ∷ []) (holding true busy_tunnel)

-- A server connects anew while a tunnel is in use.
on_connect_lem_example :
    let w = with_connected true in
    let u = on_connect friendly w in
    ((m : Dict ℕ) × (u.trace ≡ w.trace ++ (subscribes m ∷ []))
      × ((t : Text) → lookup t m ≡ wanted_qos w t))
    × (u.maps ≡ w.maps)
    × (u.heap ≡ w.heap)
    × (u.broker.tunnel_topics ≡ w.broker.tunnel_topics)
unfolding initial
on_connect_lem_example = on_connect_lem friendly (with_connected true) (λ e. ground arith)

tunnel_topic-wanted : wanted_qos (with_connected true) (codes "home/ssh/down") ≡ some 0
unfolding initial lookup text_dec
tunnel_topic-wanted = refl
