-- ===== src/System/Invariant/Quiet/Goroutines.antt =====
-- The callbacks of the MQTT client, the ping timers, and the data path are quiet steps.
use mqtt_tunnel.Tunnel.Io.{is_drained}
use mqtt_tunnel.Base.{
  refl, inl, inr, Bool, not, ◌&&◌, Option, none, some, List, [], ◌∷◌, Option-cases, if-cases,
  match-cases, Text, codes, text_eq, lookup, pos, leb_ℤ,
}
use mqtt_tunnel.Control.{ControlPacket}
use mqtt_tunnel.Channel.{send}
use mqtt_tunnel.World.{World, TunnelRef, Conn, no_conn, open_conn, closed_conn, Bytes, store, emit}
use mqtt_tunnel.World.Effects.{disconnects, Env, Reply-cases}
use mqtt_tunnel.World.Monad.{final}
use mqtt_tunnel.Broker.{publish, unsubscribe}
use mqtt_tunnel.Broker.Filter.{Verdict, deliver, drop, nil_maps, control_filter}
use mqtt_tunnel.Broker.Ping.{
  clear_pending, update_activity, start_ping_timer, send_ping, signal_reconnect, ping_timeout,
  handle_ping_message, on_connection_lost,
}
use mqtt_tunnel.Broker.Message.{act_on, data_received, on_message, control_capacity, data_capacity}
use mqtt_tunnel.Broker.Connect.{on_connect}
use mqtt_tunnel.Tunnel.Io.{
  Round, takes_write, takes_publish, takes_closed, context_done, main_loop_round, pop_write,
  pop_publish, handle_write, write_to, notify_closed, signal_closed, ReadResult, bytes, ended,
  read_round, queue, close_publish,
}
use mqtt_tunnel.System.{after_delivery, after_read}
use mqtt_tunnel.System.Invariant.Quiet.{Quiet, store-Quiet}
use mqtt_tunnel.System.Invariant.Operations.{close_conn-no_conn}
use mqtt_tunnel.System.Invariant.Touches.{
  final-Touches, with_broker, unsubscribe-Touches, subscribe-Touches,
}

module _ (o : World) where
  abbrev pub Keeps : World → Type 0
  Keeps = Quiet o

  start_ping_timer-Quiet : (env : Env) (w : World) → Keeps w → Keeps (start_ping_timer env w)
  unfolding start_ping_timer
  start_ping_timer-Quiet env w v =
      if-cases Keeps (leb_ℤ w.broker.broker_conf.manual_keepalive (pos 0)) (λ _. v) (λ _. v)

  pub after_unsubscribe-Quiet :
      (env : Env) (topic : Text) (w : World) → Keeps w → Keeps (final (unsubscribe env topic w))
  after_unsubscribe-Quiet env topic w v =
      let (b, log, e) = final-Touches (unsubscribe-Touches env topic w) in rw e v

  act_on-Quiet :
      (env : Env) (x : Verdict) (p : ControlPacket) (w : World)
      → Keeps w
      → Keeps (after_delivery (act_on x p (start_ping_timer env) w))
  act_on-Quiet env deliver p w v = elim (Option-cases (send control_capacity p w.control_ch)) [
    | inl e ↦ rw e v
    | inr (ch, e) ↦ rw e (start_ping_timer-Quiet env (record w { control_ch = ch }) v)
  ]
  act_on-Quiet env (drop r) p w v = start_ping_timer-Quiet env w v
  act_on-Quiet env nil_maps p w v = v

  data_received-Quiet :
      (env : Env) (payload : Bytes) (o : Option TunnelRef) (w : World)
      → Keeps w
      → Keeps (after_delivery (data_received env payload o w))
  data_received-Quiet env payload none w v = v
  data_received-Quiet env payload (some r) w v =
      let v' = start_ping_timer-Quiet env w v in
      elim (Option-cases (send data_capacity payload ((start_ping_timer env w).heap r).write_ch)) [
        | inl e ↦ rw e v'
        | inr (ch, e) ↦ rw e (store-Quiet o (start_ping_timer env w) r _ refl refl (λ k. k) v')
      ]

  handle_ping_message-Quiet :
      (env : Env) (payload : Bytes) (w : World)
      → Keeps w
      → Keeps (handle_ping_message env payload w)
  unfolding handle_ping_message
  handle_ping_message-Quiet env payload w v =
      if-cases Keeps (w.broker.ping.ping_pending && text_eq payload (codes "ping"))
        (λ _. start_ping_timer-Quiet env (clear_pending (update_activity env w)) v) (λ _. v)

  pub on_message-Quiet :
      (env : Env) (topic : Text) (payload : Bytes) (w : World)
      → Keeps w
      → Keeps (after_delivery (on_message env topic payload w))
  unfolding on_message
  on_message-Quiet env topic payload w v =
      let w' : World = update_activity env w in
      if-cases (λ d. Keeps (after_delivery d)) (text_eq topic w.broker.control_topic)
        (λ _.
          match-cases (λ d. Keeps (after_delivery d)) (env.unmarshal payload)
            (λ _. start_ping_timer-Quiet env w' v)
            (λ p _. act_on-Quiet env (control_filter p w') p w' v))
        (λ _.
          if-cases (λ d. Keeps (after_delivery d))
            (not (text_eq w.broker.ping.ping_topic []) && text_eq topic w.broker.ping.ping_topic)
            (λ _. handle_ping_message-Quiet env payload w' v)
            (λ _. data_received-Quiet env payload (lookup topic w.broker.tunnel_topics) w' v))

  pub on_connect-Quiet : (env : Env) (w : World) → Keeps w → Keeps (on_connect env w)
  unfolding on_connect
  on_connect-Quiet env w v =
      let (b, log, e) = final-Touches (subscribe-Touches env w) in
      rw e (
        if-cases Keeps (leb_ℤ b.broker_conf.manual_keepalive (pos 0)) (λ _. v)
          (λ _. start_ping_timer-Quiet env (update_activity env (with_broker w b log)) v))

  pub on_connection_lost-Quiet :
      (listening : Bool) (w : World) → Keeps w → Keeps (on_connection_lost listening w)
  unfolding on_connection_lost signal_reconnect
  on_connection_lost-Quiet listening w v =
      if-cases Keeps w.broker.server_side (λ _. if-cases Keeps listening (λ _. v) (λ _. v)) (λ _. v)

  pub send_ping-Quiet : (env : Env) (w : World) → Keeps w → Keeps (send_ping env w).0
  unfolding send_ping publish
  send_ping-Quiet env w v =
      if-cases (λ (p : World × Bool). Keeps p.0) w.broker.ping.ping_pending (λ _. v) (λ _. v)

  pub ping_timeout-Quiet :
      (listening : Bool) (w : World) → Keeps w → Keeps (ping_timeout listening w)
  unfolding ping_timeout signal_reconnect
  ping_timeout-Quiet listening w v =
      if-cases Keeps w.broker.ping.ping_pending
        (λ _. if-cases (λ u. Keeps (emit disconnects u)) listening (λ _. v) (λ _. v)) (λ _. v)

  write_to-Quiet :
      (c : Conn) (env : Env) (r : TunnelRef) (b : Bytes) (w : World)
      → Keeps w
      → Keeps (final (write_to c env r b w))
  write_to-Quiet no_conn env r b w v = v
  write_to-Quiet closed_conn env r b w v = v
  write_to-Quiet open_conn env r b w v = elim (Reply-cases env.write_reply) [
    | inl e ↦ rw e v
    | inr (inl e) ↦ rw e v
    | inr (inr e) ↦ rw e v
  ]

  pop_write-Quiet :
      (env : Env) (r : TunnelRef) (bs : List Bytes) (w : World)
      → Keeps w
      → Keeps (pop_write env r bs w)
  unfolding handle_write
  pop_write-Quiet env r [] w v = v
  pop_write-Quiet env r (b ∷ bs) w v =
      let w' : World = store r (record (w.heap r) { write_ch = bs }) w in
      let v' : Keeps w' = store-Quiet o w r _ refl refl (λ k. k) v in
      write_to-Quiet (w'.heap r).conn env r b w' v'

  pop_publish-Quiet :
      (r : TunnelRef) (bs : List Bytes) (w : World) → Keeps w → Keeps (pop_publish r bs w)
  unfolding publish
  pop_publish-Quiet r [] w v = v
  pop_publish-Quiet r (b ∷ bs) w v = store-Quiet o w r _ refl refl (λ k. k) v

  notify_closed-Quiet :
      (env : Env) (r : TunnelRef) (w : World) → Keeps w → Keeps (notify_closed env r w)
  unfolding notify_closed
  notify_closed-Quiet env r w v = if-cases Keeps (w.heap r).closed_by_remote (λ _. v) (λ _. v)

  signal_closed-Quiet : (r : TunnelRef) (w : World) → Keeps w → Keeps (signal_closed r w)
  unfolding signal_closed
  signal_closed-Quiet r w v = if-cases Keeps w.broker.server_side (λ _. v) (λ _. v)

  pub main_loop_round-Quiet :
      (env : Env) (r : TunnelRef) (x : Round) (w : World)
      → Keeps w
      → Keeps (main_loop_round env r x w).0
  unfolding main_loop_round
  main_loop_round-Quiet env r takes_write w v = pop_write-Quiet env r _ w v
  main_loop_round-Quiet env r takes_publish w v = pop_publish-Quiet r _ w v
  main_loop_round-Quiet env r takes_closed w v =
      let w' : World = signal_closed r (notify_closed env r w) in
      if-cases (λ (p : World × Bool). Keeps p.0)
        (is_drained (w.heap r).publish_closed (w.heap r).publish_ch)
        (λ _.
          after_unsubscribe-Quiet env (w'.heap r).server_pub_topic w'
            (signal_closed-Quiet r (notify_closed env r w) (notify_closed-Quiet env r w v)))
        (λ _. v)
  main_loop_round-Quiet env r context_done w v =
      after_unsubscribe-Quiet env (w.heap r).server_pub_topic w v

  close_publish-Quiet :
      (r : TunnelRef) (w : World) (o : Option World)
      → Keeps w
      → Keeps (after_read w o)
      → Keeps (after_read w (close_publish r o))
  close_publish-Quiet r w none v v' = v
  close_publish-Quiet r w (some u) v v' =
      store-Quiet o u r _ refl refl (close_conn-no_conn (u.heap r).conn) v'

  queue-Quiet :
      (r : TunnelRef) (w : World) (o : Option (List Bytes))
      → Keeps w
      → Keeps (after_read w (queue r w o))
  queue-Quiet r w none v = v
  queue-Quiet r w (some ch) v = store-Quiet o w r _ refl refl (λ k. k) v

  pub read_round-Quiet :
      (r : TunnelRef) (x : ReadResult) (w : World)
      → Keeps w
      → Keeps (after_read w (read_round r x w))
  unfolding read_round
  read_round-Quiet r (bytes b) w v = queue-Quiet r w (send data_capacity b (w.heap r).publish_ch) v
  read_round-Quiet r (ended []) w v = close_publish-Quiet r w (some w) v v
  read_round-Quiet r (ended (c ∷ b)) w v =
      let ch = send data_capacity (c ∷ b) (w.heap r).publish_ch in
      close_publish-Quiet r w (queue r w ch) v (queue-Quiet r w ch v)
