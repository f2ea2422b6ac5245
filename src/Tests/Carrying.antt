-- ===== src/Tests/Carrying.antt =====
-- Data through a tunnel that a handshake has opened.
use mqtt_tunnel.System.Transport.Order.{Accounted}
use mqtt_tunnel.Control.Random.{rand_str}
use mqtt_tunnel.MqTunnel.Handshake.Steps.{Joined, client2, server2, server_end}
use mqtt_tunnel.MqTunnel.Handshake.Together.{handshake}
use mqtt_tunnel.Tunnel.{client_tunnel}
use mqtt_tunnel.Base.{◌≡◌, refl, inr, some, [], ◌∷◌, arith, codes, pos}
use mqtt_tunnel.Broker.Message.Routing.{IsData}
use mqtt_tunnel.Channel.{send}
use mqtt_tunnel.System.{initial}
use mqtt_tunnel.System.Transport.{Flow, at_start, reads_chunk}
use mqtt_tunnel.System.Transport.EndToEnd.{handshake-Flow}
use mqtt_tunnel.Tunnel.Io.{bytes, read_round}
use mqtt_tunnel.World.{World, store}
use mqtt_tunnel.Tests.{a_client, a_server, friendly}
use mqtt_tunnel.Broker.{data_topic_root}
use mqtt_tunnel.Tests.Opening.{four, four-AllAccepted, request-Admissible, addr-split}

abbrev the_client : World
the_client = client2 four (pos 22) a_client a_server

abbrev the_server : World
the_server = server2 four (pos 22) a_client a_server

the_tunnel : Joined (client_tunnel friendly (pos 22)).id the_client 0 the_server 0
unfolding initial
the_tunnel =
    handshake four (pos 22) a_client a_server (codes "localhost") (codes "22") refl refl
      four-AllAccepted request-Admissible addr-split

-- The client has read a chunk.
abbrev fed : World
fed = store 0 (record (the_client.heap 0) { publish_ch = codes "one" ∷ [] }) the_client

reads-empty :
    (w : World)
    → (w.heap 0).publish_ch ≡ []
    → read_round 0 (bytes (codes "one")) w
      ≡ some (store 0 (record (w.heap 0) { publish_ch = codes "one" ∷ [] }) w)
unfolding read_round send
reads-empty w e = rw e refl

fed-Flow :
    Flow 0 0
      (the_client.heap 0).client_pub_topic
      the_client
      the_server
      fed
      the_server
      (codes "one" ∷ [])
      []
      0
fed-Flow = reads_chunk (codes "one") at_start (reads-empty the_client the_tunnel.client_idle.0)

drawn-IsData :
    IsData (server_end four (pos 22) a_client a_server (codes "22")).server_pub_topic a_server
unfolding initial rand_str data_topic_root
drawn-IsData = ((λ e. ground arith), inr (λ e. ground arith))

handshake-Flow_example : Accounted 0 0 the_server fed the_server (codes "one" ∷ []) [] 0
unfolding initial
handshake-Flow_example =
    handshake-Flow four (pos 22) a_client a_server (codes "localhost") (codes "22") fed the_server
      (codes "one" ∷ []) [] 0 refl refl four-AllAccepted request-Admissible addr-split drawn-IsData
      fed-Flow
