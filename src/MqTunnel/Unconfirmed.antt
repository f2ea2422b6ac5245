-- ===== src/MqTunnel/Unconfirmed.antt =====
-- A request that the server accepts and that no confirm follows: `handleControl` and the goroutine
-- that waits for connect_confirm, of tunnel/mqtunnel.go.

use mqtt_tunnel.MqTunnel.{on_connect_request}
use mqtt_tunnel.Std.HostPort.{split_host_port}
use mqtt_tunnel.World.Monad.{Outcome, final}
use mqtt_tunnel.Broker.{data_topic_root}
use mqtt_tunnel.Control.Random.{rand_str}
use mqtt_tunnel.Control.{ControlPacket}
use mqtt_tunnel.Tunnel.{server_tunnel}
use mqtt_tunnel.World.{Tunnel, set_pending_confirms}
use mqtt_tunnel.World.Effects.{Effect}
use mqtt_tunnel.Broker.Unsubscribing.{goodbye}
use mqtt_tunnel.MqTunnel.Loops.{confirm_timeout}
use mqtt_tunnel.World.{TunnelRef, World, cancel}
use mqtt_tunnel.World.Effects.{Env, accepted}
use mqtt_tunnel.Base.{
  ℕ, ◌+◌, ◌≡◌, refl, sym, ap, subst, ◌∙◌, ◌≢◌, true, none, some, List, [], ◌∷◌, ◌++◌, arith,
  if◌then◌else◌, Text, text_eq, Dict, lookup, insert, erase, lookup-insert, lookup-erase,
  lookup-insert_self, lookup-erase_self,
}
use mqtt_tunnel.Broker.Unsubscribing.{topics_left, unsubscribe_lem}
use mqtt_tunnel.MqTunnel.Handshake.{Admissible, on_connect_request-accepted, with_tunnel}
use mqtt_tunnel.Tunnel.Setup.{subscribed}

topics_left-accepted :
    (env : Env) (root : Text) (c : ℕ) (s : Text) (m : Dict TunnelRef)
    → env.unsubscribe_reply (root ++ (c ∷ s)) ≡ accepted
    → topics_left env (root ++ (c ∷ s)) m ≡ erase (root ++ (c ∷ s)) m
topics_left-accepted env [] c s m a = rw a refl
topics_left-accepted env (b ∷ root) c s m a = rw a refl

-- What the timer for `id` makes of a world in which the tunnel at `r`, which the server reads at
-- `topic`, is pending under `id`
abbrev given_up : Env → Text → TunnelRef → Text → World → World
given_up env id r topic w =
    let u : World = record (cancel r w) {
      trace = w.trace ++ goodbye topic;
      broker = record w.broker { tunnel_topics = topics_left env topic w.broker.tunnel_topics };
    } in
    set_pending_confirms (erase id w.pending_confirms) u

confirm_timeout-given_up :
    (env : Env) (id topic : Text) (w : World) (r : TunnelRef)
    → lookup id w.pending_confirms ≡ some r
    → (w.heap r).server_pub_topic ≡ topic
    → confirm_timeout env id w ≡ given_up env id r topic w
unfolding confirm_timeout
confirm_timeout-given_up env id topic w r e t =
    subst (λ (s : Text). confirm_timeout env id w ≡ given_up env id r s w) t
      (rw (e, confirm_timeout)
        (ap (λ (u : World). set_pending_confirms (erase id u.pending_confirms) u)
          (unsubscribe_lem env (w.heap r).server_pub_topic (cancel r w))))

module _ (accepting timing : Env) (ctl : ControlPacket) (w : World) (host port : Text) where
  abbrev the_tunnel : Tunnel
  the_tunnel = server_tunnel accepting ctl w port

  abbrev asked_for : List Effect → World
  asked_for log =
      subscribed
        (set_pending_confirms (insert ctl.tunnel_id w.next_ref w.pending_confirms)
          (with_tunnel w the_tunnel))
        the_tunnel.server_pub_topic w.next_ref log

  -- `u` is `w` but for a tunnel that nothing knows any more.
  pub record AsBefore (u : World) : Type 0 where
    pub pending : (id : Text) → lookup id u.pending_confirms ≡ lookup id w.pending_confirms
    pub connected : u.connected ≡ w.connected
    pub topics :
        (t : Text)
        → lookup t u.broker.tunnel_topics ≡ (
            if text_eq the_tunnel.server_pub_topic t then none else lookup t w.broker.tunnel_topics)
    pub cancelled : (u.heap w.next_ref).cancelled ≡ true
    pub others : (q : TunnelRef) → q ≢ w.next_ref → u.heap q ≡ w.heap q
    -- the ID can be requested again
    pub again : Admissible accepting ctl u

  asked_for-AsBefore :
      Admissible accepting ctl w
      → timing.unsubscribe_reply the_tunnel.server_pub_topic ≡ accepted
      → (log : List Effect)
      → AsBefore
          (given_up timing ctl.tunnel_id w.next_ref the_tunnel.server_pub_topic (asked_for log))
  asked_for-AsBefore a left log =
      let r = w.next_ref in
      let topic = the_tunnel.server_pub_topic in
      let w1 : World = asked_for log in
      let here : w1.heap r ≡ the_tunnel = ground arith in
      record {
        pending = λ id. ground (
          arith,
          lookup-erase id ctl.tunnel_id w1.pending_confirms,
          lookup-insert id ctl.tunnel_id r w.pending_confirms,
          a.not_pending,
        );
        connected = refl;
        topics = λ t.
            ap (lookup t) (
              topics_left-accepted timing (data_topic_root w.broker.broker_conf.topic) b'/'
                (rand_str 4 (λ i. accepting.draw (i + 4))) w1.broker.tunnel_topics left)
            ∙ ground (
              arith,
              lookup-erase t topic w1.broker.tunnel_topics,
              lookup-insert t topic r w.broker.tunnel_topics,
            );
        cancelled = ground arith;
        others = λ q n. ground arith;
        again = record {
          valid = a.valid;
          not_pending = lookup-erase_self ctl.tunnel_id w1.pending_confirms;
          not_connected = a.not_connected;
          same_version = a.same_version;
        };
      }

  -- A server that accepts a request and sees no confirm for it is, once its timer has fired and the
  -- MQTT broker has accepted to unsubscribe, as it was before: the same tunnels are pending and
  -- connected, it is subscribed to the same topics but the one of the new tunnel, every other tunnel
  -- is as it was, the new one is cancelled, and the same ID can be requested again. The timer knows
  -- the tunnel by its ID only, so this holds as well for one that an earlier request started.
  pub confirm_timeout-on_connect_request :
      w.is_server_mode ≡ true
      → Admissible accepting ctl w
      → split_host_port w.broker.broker_conf.server_addr ≡ some (host, port)
      → accepting.subscribe_reply ≡ accepted
      → accepting.publish_reply ≡ accepted
      → timing.unsubscribe_reply the_tunnel.server_pub_topic ≡ accepted
      → AsBefore (confirm_timeout timing ctl.tunnel_id (final (on_connect_request accepting ctl w)))
  confirm_timeout-on_connect_request mode a addr subscribes_it sends_it left =
      let (log, e) =
        on_connect_request-accepted accepting ctl w host port mode a addr subscribes_it sends_it in
      let w1 : World = asked_for log in
      let times_out : confirm_timeout timing ctl.tunnel_id w1
          ≡ given_up timing ctl.tunnel_id w.next_ref the_tunnel.server_pub_topic w1 =
        confirm_timeout-given_up timing ctl.tunnel_id the_tunnel.server_pub_topic w1 w.next_ref
          (lookup-insert_self ctl.tunnel_id w.next_ref w.pending_confirms) (ground arith) in
      subst AsBefore
        (sym (
          ap (λ (o : Outcome (Unit {0})). confirm_timeout timing ctl.tunnel_id (final o)) e
          ∙ times_out))
        (asked_for-AsBefore a left log)
