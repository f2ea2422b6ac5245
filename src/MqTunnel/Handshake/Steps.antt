-- ===== src/MqTunnel/Handshake/Steps.antt =====
-- The worlds that the four steps of a handshake leave behind, and what joins two tunnels.
use mqtt_tunnel.Base.{
  ◌≡◌, ap, ◌∙◌, List, [], true, false, none, some, arith, Text, lookup, insert, erase,
  lookup-insert_self, lookup-erase_self, ℤ,
}
use mqtt_tunnel.Std.HostPort.{split_host_port}
use mqtt_tunnel.Control.{zero_packet, connect_confirm, from_client}
use mqtt_tunnel.World.{
  World, Tunnel, TunnelRef, open_conn, store, set_ack_waiting, set_pending_confirms, set_connected,
}
use mqtt_tunnel.World.Effects.{Effect, Env, accepted}
use mqtt_tunnel.World.Monad.{final}
use mqtt_tunnel.Tunnel.{client_tunnel, server_tunnel}
use mqtt_tunnel.Tunnel.Packets.{create_connect_request, create_ack, create_connect_confirm}
use mqtt_tunnel.Tunnel.Setup.{subscribed}
use mqtt_tunnel.MqTunnel.{handle_control}
use mqtt_tunnel.MqTunnel.Loops.{open_tunnel}
use mqtt_tunnel.MqTunnel.Handshake.{
  with_tunnel, Admissible, confirmed_in, opened, open_tunnel-accepted, on_connect_request-accepted,
  on_connect_ack-accepted, on_connect_confirm-accepted,
}

-- The client's tunnel at `p` and the server's tunnel at `q` are the two ends of the tunnel `id`.
pub record Joined (id : Text) (c : World) (p : TunnelRef) (s : World) (q : TunnelRef) : Type 0 where
  pub client_connected : lookup id c.connected ≡ some p
  pub server_connected : lookup id s.connected ≡ some q
  pub not_waiting : lookup id c.ack_waiting ≡ none
  pub not_pending : lookup id s.pending_confirms ≡ none
  -- what either side publishes on is what the other side has subscribed for this tunnel
  pub upstream : lookup (c.heap p).client_pub_topic s.broker.tunnel_topics ≡ some q
  pub downstream : lookup (s.heap q).client_pub_topic c.broker.tunnel_topics ≡ some p
  pub server_open : (s.heap q).conn ≡ open_conn
  -- no data waits on either side
  pub client_idle : ((c.heap p).publish_ch ≡ []) × ((c.heap p).write_ch ≡ [])
  pub server_idle : ((s.heap q).publish_ch ≡ []) × ((s.heap q).write_ch ≡ [])

-- The answers of the environment in the four steps.
pub record Answers : Type 0 where
  pub opening : Env
  pub accepting : Env
  pub acking : Env
  pub confirming : Env

pub record AllAccepted (a : Answers) : Type 0 where
  pub request_sent : a.opening.publish_reply ≡ accepted
  pub server_subscribed : a.accepting.subscribe_reply ≡ accepted
  pub ack_sent : a.accepting.publish_reply ≡ accepted
  pub client_subscribed : a.acking.subscribe_reply ≡ accepted
  pub dialled : a.confirming.dial_reply ≡ accepted

module _ (a : Answers) (z : ℤ) (c s : World) where
  -- the client after `openRequest`, and the server after the request
  abbrev pub client1 : World
  client1 = final (open_tunnel a.opening z c)

  abbrev pub server1 : World
  server1 = final (handle_control a.accepting (create_connect_request (client1.heap c.next_ref)) s)

  -- the client after the ack, and the server after the confirm
  abbrev pub client2 : World
  client2 = final (handle_control a.acking (create_ack (server1.heap s.next_ref)) client1)

  abbrev pub server2 : World
  server2 =
      final (handle_control a.confirming (create_connect_confirm (client2.heap c.next_ref)) server1)

module _ (a : Answers) (z : ℤ) (c s : World) (port : Text) where
  abbrev pub client_end : Tunnel
  client_end = client_tunnel a.opening z

  abbrev pub server_end : Tunnel
  server_end = server_tunnel a.accepting (create_connect_request client_end) s port

  -- What the four steps make of the two worlds, but for the trace.
  abbrev pub opened_client : List Effect → World
  opened_client log =
      record (set_ack_waiting (insert client_end.id c.next_ref c.ack_waiting)
        (with_tunnel c client_end)) { trace = log }

  abbrev pub pending_server : List Effect → World
  pending_server log =
      subscribed
        (set_pending_confirms (insert server_end.id s.next_ref s.pending_confirms)
          (with_tunnel s server_end))
        server_end.server_pub_topic s.next_ref log

  abbrev pub connected_client : List Effect → List Effect → World
  connected_client log log' =
      let w = opened_client log in
      let t = record (w.heap c.next_ref) {
        client_pub_topic = server_end.server_pub_topic;
        server_pub_topic = server_end.client_pub_topic;
      } in
      set_connected (insert client_end.id c.next_ref w.connected) (
        set_ack_waiting (erase client_end.id w.ack_waiting)
          (subscribed (store c.next_ref t w) server_end.client_pub_topic c.next_ref log'))

  abbrev pub connected_server : List Effect → List Effect → World
  connected_server log log' =
      let w = pending_server log in
      record (set_connected (insert client_end.id s.next_ref w.connected)
        (opened s.next_ref (confirmed_in client_end.id s.next_ref w))) { trace = log' }

  pub client1-opened :
      a.opening.publish_reply ≡ accepted
      → (log : List Effect) × (client1 a z c s ≡ opened_client log)
  client1-opened sent = let (log, e) = open_tunnel-accepted a.opening z c sent in (log, ap final e)

  pub server1-pending :
      (host : Text) (log : List Effect)
      → s.is_server_mode ≡ true
      → AllAccepted a
      → Admissible a.accepting (create_connect_request client_end) s
      → split_host_port s.broker.broker_conf.server_addr ≡ some (host, port)
      → client1 a z c s ≡ opened_client log
      → (log' : List Effect) × (server1 a z c s ≡ pending_server log')
  unfolding handle_control
  server1-pending host log mode all good addr before =
      let here : (opened_client log).heap c.next_ref ≡ client_end = ground arith in
      let (log', e) =
        on_connect_request-accepted a.accepting (create_connect_request client_end) s host port mode
          good addr all.server_subscribed all.ack_sent in
      (
        log',
        ap
              (λ (w : World).
                final (handle_control a.accepting (create_connect_request (w.heap c.next_ref)) s))
              before
            ∙ ap (λ (x : Tunnel). final (handle_control a.accepting (create_connect_request x) s))
                here
            ∙ ap final e,
      )

  pub client2-connected :
      (log1 log2 : List Effect)
      → c.is_server_mode ≡ false
      → AllAccepted a
      → client1 a z c s ≡ opened_client log1
      → server1 a z c s ≡ pending_server log2
      → (log : List Effect) × (client2 a z c s ≡ connected_client log1 log)
  unfolding handle_control
  client2-connected log1 log2 mode all client server =
      let here : (pending_server log2).heap s.next_ref ≡ server_end = ground arith in
      let (log, e) =
        on_connect_ack-accepted a.acking (create_ack server_end) (opened_client log1) c.next_ref
          mode (lookup-insert_self client_end.id c.next_ref c.ack_waiting) all.client_subscribed in
      (
        log,
        ap
              (λ (w : World).
                final (handle_control a.acking (create_ack ((server1 a z c s).heap s.next_ref)) w))
              client
            ∙ ap
                (λ (w : World).
                  final
                    (handle_control a.acking (create_ack (w.heap s.next_ref)) (opened_client log1)))
                server
            ∙ ap
                (λ (x : Tunnel).
                  final (handle_control a.acking (create_ack x) (opened_client log1)))
                here
            ∙ ap final e,
      )

  pub server2-connected :
      (log1 log2 log3 : List Effect)
      → s.is_server_mode ≡ true
      → AllAccepted a
      → server1 a z c s ≡ pending_server log2
      → client2 a z c s ≡ connected_client log1 log3
      → (log : List Effect) × (server2 a z c s ≡ connected_server log2 log)
  unfolding handle_control
  server2-connected log1 log2 log3 mode all server client =
      let same_id : ((connected_client log1 log3).heap c.next_ref).id ≡ client_end.id =
        ground arith in
      let (log, e) =
        on_connect_confirm-accepted a.confirming (create_connect_confirm client_end)
          (pending_server log2) s.next_ref mode
          (lookup-insert_self server_end.id s.next_ref s.pending_confirms) all.dialled in
      (
        log,
        ap
              (λ (w : World). final (
                handle_control a.confirming (create_connect_confirm (w.heap c.next_ref))
                  (server1 a z c s)))
              client
            ∙ ap
                (λ (w : World). final (
                  handle_control a.confirming
                    (create_connect_confirm ((connected_client log1 log3).heap c.next_ref)) w))
                server
            ∙ ap
                (λ (i : Text). final (
                  handle_control a.confirming (zero_packet connect_confirm i from_client)
                    (pending_server log2)))
                same_id
            ∙ ap final e,
      )

  pub connected-Joined :
      (log1 log2 log3 log4 : List Effect)
      → Joined client_end.id
          (connected_client log1 log3)
          c.next_ref
          (connected_server log2 log4)
          s.next_ref
  connected-Joined log1 log2 log3 log4 = record {
    client_connected = lookup-insert_self client_end.id c.next_ref c.connected;
    server_connected = lookup-insert_self client_end.id s.next_ref s.connected;
    not_waiting = lookup-erase_self client_end.id (opened_client log1).ack_waiting;
    not_pending = lookup-erase_self client_end.id (pending_server log2).pending_confirms;
    upstream =
        ground
          (arith, lookup-insert_self server_end.server_pub_topic s.next_ref s.broker.tunnel_topics);
    downstream =
        ground
          (arith, lookup-insert_self server_end.client_pub_topic c.next_ref c.broker.tunnel_topics);
    server_open = ground arith;
    client_idle = (ground arith, ground arith);
    server_idle = (ground arith, ground arith);
  }
