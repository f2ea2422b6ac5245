-- ===== src/System/Transport/EndToEnd.antt =====
-- The data path of a tunnel that a handshake has opened.
use mqtt_tunnel.Base.{ℕ}
use mqtt_tunnel.MqTunnel.Handshake.Steps.{
  AllAccepted, Answers, Joined, client2, server2, server_end,
}
use mqtt_tunnel.MqTunnel.Handshake.Together.{handshake, handshake-IsData}
use mqtt_tunnel.Broker.Message.Routing.{IsData}
use mqtt_tunnel.MqTunnel.Handshake.{Admissible}
use mqtt_tunnel.Std.HostPort.{split_host_port}
use mqtt_tunnel.System.Transport.{Flow}
use mqtt_tunnel.System.Transport.Rounds.{IsReceiving}
use mqtt_tunnel.System.Transport.Order.{Accounted, Flow_lem}
use mqtt_tunnel.Tunnel.{client_tunnel}
use mqtt_tunnel.Tunnel.Packets.{create_connect_request}
use mqtt_tunnel.World.{Bytes, TunnelRef, World}
use mqtt_tunnel.Base.{◌≡◌, true, false, some, List, Text, ℤ}

Joined-IsReceiving :
    {id : Text} {c s : World} {p q : TunnelRef}
    → Joined id c p s q
    → IsData (c.heap p).client_pub_topic s
    → IsReceiving q (c.heap p).client_pub_topic s
Joined-IsReceiving j own = (own, j.upstream, j.server_open)

module _ (a : Answers) (z : ℤ) (c s : World) (host port : Text) where
  -- From a handshake in which all is accepted, of a request with an ID that is valid and not in use
  -- and with the server's protocol version, and where the topic that the server draws to be sent to
  -- is neither its control topic nor its ping topic: at any time, under any order of the steps, the
  -- chunks that the client has read are, in their order, those that the server has written to its
  -- target, that wait there, that are on their way, and that wait to be published, with as many
  -- others in between as the network lost or writes failed for.
  pub handshake-Flow :
      (c' s' : World) (read on_way : List Bytes) (n : ℕ)
      → c.is_server_mode ≡ false
      → s.is_server_mode ≡ true
      → AllAccepted a
      → Admissible a.accepting (create_connect_request (client_tunnel a.opening z)) s
      → split_host_port s.broker.broker_conf.server_addr ≡ some (host, port)
      → IsData (server_end a z c s port).server_pub_topic s
      → Flow c.next_ref s.next_ref
          ((client2 a z c s).heap c.next_ref).client_pub_topic
          (client2 a z c s)
          (server2 a z c s)
          c'
          s'
          read
          on_way
          n
      → Accounted c.next_ref s.next_ref (server2 a z c s) c' s' read on_way n
  handshake-Flow c' s' read on_way n client_mode server_mode all good addr own flow =
      let j = handshake a z c s host port client_mode server_mode all good addr in
      let data_topic =
        handshake-IsData a z c s host port client_mode server_mode all good addr own in
      Flow_lem c.next_ref s.next_ref (client2 a z c s) (server2 a z c s) c' s' read on_way n
        j.client_idle.0 j.server_idle.1 (Joined-IsReceiving j data_topic) flow
