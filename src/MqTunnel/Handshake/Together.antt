-- ===== src/MqTunnel/Handshake/Together.antt =====
-- The whole handshake: a client's `openRequest`, the server's ack, the client's confirm, and the
-- server's dial, each packet being handled by the other side as it was created.
use mqtt_tunnel.Broker.Message.Routing.{IsData}
use mqtt_tunnel.MqTunnel.Handshake.{Admissible}
use mqtt_tunnel.MqTunnel.Handshake.Steps.{
  AllAccepted, Answers, Joined, client1-opened, client2, client2-connected, connected-Joined,
  connected_client, connected_server, server1-pending, server2, server2-connected, server_end,
}
use mqtt_tunnel.Std.HostPort.{split_host_port}
use mqtt_tunnel.Tunnel.{client_tunnel}
use mqtt_tunnel.Tunnel.Packets.{create_connect_request}
use mqtt_tunnel.World.{World}
use mqtt_tunnel.Base.{◌≡◌, sym, subst, true, false, some, arith, Text, ℤ}

module _ (a : Answers) (z : ℤ) (c s : World) (host port : Text) where
  -- If the request is admissible, the server's address is good, and the broker and the target
  -- accept, then the handshake joins the two tunnels: both sides have the client's ID as connected
  -- and no longer as waiting, the topic that either publishes on leads to the tunnel on the other
  -- side, the server's connection is open, and no data waits.
  pub handshake :
      c.is_server_mode ≡ false
      → s.is_server_mode ≡ true
      → AllAccepted a
      → Admissible a.accepting (create_connect_request (client_tunnel a.opening z)) s
      → split_host_port s.broker.broker_conf.server_addr ≡ some (host, port)
      → Joined
          (client_tunnel a.opening z).id
          (client2 a z c s)
          c.next_ref
          (server2 a z c s)
          s.next_ref
  handshake client_mode server_mode all good addr =
      let id : Text = (client_tunnel a.opening z).id in
      let (log1, p1) = client1-opened a z c s port all.request_sent in
      let (log2, p2) = server1-pending a z c s port host log1 server_mode all good addr p1 in
      let (log3, p3) = client2-connected a z c s port log1 log2 client_mode all p1 p2 in
      let (log4, p4) = server2-connected a z c s port log1 log2 log3 server_mode all p2 p3 in
      subst (λ w. Joined id w c.next_ref (server2 a z c s) s.next_ref) (sym p3)
        (subst (λ w. Joined id (connected_client a z c s port log1 log3) c.next_ref w s.next_ref)
          (sym p4) (connected-Joined a z c s port log1 log2 log3 log4))

  -- The topic that the client publishes on is the one that the server drew for its tunnel, so it is a
  -- data topic of the server if that one is.
  pub handshake-IsData :
      c.is_server_mode ≡ false
      → s.is_server_mode ≡ true
      → AllAccepted a
      → Admissible a.accepting (create_connect_request (client_tunnel a.opening z)) s
      → split_host_port s.broker.broker_conf.server_addr ≡ some (host, port)
      → IsData (server_end a z c s port).server_pub_topic s
      → IsData ((client2 a z c s).heap c.next_ref).client_pub_topic (server2 a z c s)
  handshake-IsData client_mode server_mode all good addr own =
      let (log1, p1) = client1-opened a z c s port all.request_sent in
      let (log2, p2) = server1-pending a z c s port host log1 server_mode all good addr p1 in
      let (log3, p3) = client2-connected a z c s port log1 log2 client_mode all p1 p2 in
      let (log4, p4) = server2-connected a z c s port log1 log2 log3 server_mode all p2 p3 in
      let drawn : ((connected_client a z c s port log1 log3).heap c.next_ref).client_pub_topic
          ≡ (server_end a z c s port).server_pub_topic =
        ground arith in
      subst (λ (w : World). IsData (w.heap c.next_ref).client_pub_topic (server2 a z c s)) (sym p3)
        (subst (IsData ((connected_client a z c s port log1 log3).heap c.next_ref).client_pub_topic)
          (sym p4)
          (subst (λ (t : Text). IsData t (connected_server a z c s port log2 log4)) (sym drawn)
            own))
