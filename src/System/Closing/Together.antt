-- ===== src/System/Closing/Together.antt =====
-- The end of a tunnel on both sides: one side's reader comes to the end of the input, and the other
-- side gets its notice.

use mqtt_tunnel.Broker.Unsubscribing.{goodbye}
use mqtt_tunnel.MqTunnel.Closing.{close_conn-ne-open_conn}
use mqtt_tunnel.Control.{ControlPacket, connection_closed, from_client, from_server, zero_packet}
use mqtt_tunnel.System.Closing.Sides.{hangs_up}
use mqtt_tunnel.System.Closing.{close_notice}
use mqtt_tunnel.System.Closing.Sides.{safe_send-one}
use mqtt_tunnel.Tunnel.Packets.{create_connection_closed}
use mqtt_tunnel.World.{Tunnel, open_conn}
use mqtt_tunnel.World.Effects.{publishes}
use mqtt_tunnel.System.{Event, message, run, takes_control, takes_done}
use mqtt_tunnel.System.Closing.Hearing.{Heard, NoticeFor, notice-Heard, peer_notice}
use mqtt_tunnel.System.Closing.Sides.{CanLeave, Over, leaving, leaving-Over, turn-Over}
use mqtt_tunnel.World.{Bytes, TunnelRef, World}
use mqtt_tunnel.World.Effects.{Effect, Env, disconnects}
use mqtt_tunnel.Base.{
  ◌≡◌, refl, sym, ap, subst, ◌∙◌, ◌≢◌, Bool, true, false, not, some, List, [], ◌∷◌, ◌++◌,
  append-nil, arith, if◌then◌else◌, Text,
}

-- The steps of the side that gets the notice. A client's main loop ends at once; a server's reader
-- fails on the connection that the notice closed.
abbrev pub hearing : Env → TunnelRef → Bool → Text → Bytes → List (Env × Event)
hearing env r true topic payload =
    (env, message topic payload) ∷ (env, takes_control) ∷ leaving env r true
hearing env r false topic payload =
    (env, message topic payload) ∷ (env, takes_control) ∷ (env, takes_done) ∷ []

-- What the side that gets the notice sends: no notice of its own.
abbrev pub last_words : Bool → Text → List Effect
last_words true topic = goodbye topic
last_words false topic = disconnects ∷ []

-- A process that knows the tunnel `id` at `r`, and can hear of its end.
pub record CanHear (id : Text) (r : TunnelRef) (server : Bool) (w : World) : Type 0 where
  pub notified : NoticeFor id r w
  pub leaves : CanLeave id r server w

module _ (env : Env) (id : Text) (r : TunnelRef) (w u : World) (h : Heard id r w u) where
  Heard-CanLeave : {server : Bool} → CanLeave id r server w → CanLeave id r server u
  Heard-CanLeave can = record {
    running = h.same_exit ∙ can.running;
    mode = h.same_mode ∙ can.mode;
    side = h.same_side ∙ can.side;
    named = ap (λ (t : Tunnel). t.id) h.closed ∙ can.named;
    no_closed = h.closed_ch ∙ can.no_closed;
    published = ap (λ (t : Tunnel). t.publish_ch) h.closed ∙ can.published;
  }

  Heard-shut : (u.heap r).conn ≢ open_conn
  Heard-shut e =
      close_conn-ne-open_conn (w.heap r).conn (sym (ap (λ (t : Tunnel). t.conn) h.closed) ∙ e)

  -- This side sends no notice.
  Heard-quiet :
      close_notice env r u ++ goodbye (u.heap r).server_pub_topic
      ≡ goodbye (w.heap r).server_pub_topic
  Heard-quiet =
      ap
        (λ (t : Tunnel).
          (if t.closed_by_remote
            then []
            else publishes u.broker.control_topic 0
                (env.marshal (create_connection_closed u.broker.server_side t))
              ∷ [])
          ++ goodbye t.server_pub_topic)
        h.closed

  Heard-done :
      w.is_server_mode ≡ false → (rest : List (Unit {0})) × (u.broker.tunnel_done_ch ≡ tt ∷ rest)
  Heard-done m = let (rest, e) = safe_send-one w.broker.tunnel_done_ch in (rest, h.done_ch ∙ rw m e)

module _ (env : Env) (id : Text) (r : TunnelRef) (w : World) (payload : Bytes)
    (readable : env.unmarshal payload ≡ some (peer_notice id w)) where
  abbrev heard : World
  heard = run w ((env, message w.broker.control_topic payload) ∷ (env, takes_control) ∷ [])

  hearing-Over :
      (server : Bool)
      → CanHear id r server w
      → let u = run w (hearing env r server w.broker.control_topic payload) in
        Over id r server u × (u.trace ≡ w.trace ++ last_words server (w.heap r).server_pub_topic)
  unfolding run
  hearing-Over true can =
      let h : Heard id r w heard = notice-Heard env id r w payload readable can.notified in
      let (over, t) =
        leaving-Over env id r true heard (Heard-CanLeave env id r w heard h can.leaves) in
      (
        over,
        t
            ∙ append-nil (heard.trace ++ _)
            ∙ ap (λ (l : List Effect). heard.trace ++ l) (Heard-quiet env id r w heard h)
            ∙ ap (λ (l : List Effect). l ++ goodbye (w.heap r).server_pub_topic) h.same_trace,
      )
  hearing-Over false can =
      let h : Heard id r w heard = notice-Heard env id r w payload readable can.notified in
      let (over, t) =
        turn-Over env id r false heard (h.same_mode ∙ can.leaves.mode)
          (h.same_exit ∙ can.leaves.running) (Heard-shut env id r w heard h)
          (λ e. absurd (ground arith)) (λ _. Heard-done env id r w heard h can.leaves.mode) in
      (over, t ∙ ap (λ (l : List Effect). l ++ (disconnects ∷ [])) h.same_trace)

-- The two ends of the tunnel `id`: at `r` of `w`, where the other side has not closed, and at `q` of
-- `v`. On neither side a chunk waits to be published.
pub record Ends (id : Text) (server : Bool) (w : World) (r : TunnelRef) (v : World) (q : TunnelRef)
    : Type 0 where
  pub leaves : CanLeave id r server w
  pub first : (w.heap r).closed_by_remote ≡ false
  pub hears : CanHear id q (not server) v
  pub one_topic : v.broker.control_topic ≡ w.broker.control_topic

module _ (a b : Env) (id : Text) (server : Bool) (w : World) (r : TunnelRef) (v : World)
    (q : TunnelRef) where
  -- The notice that the first side sends
  abbrev pub sent_notice : ControlPacket
  sent_notice = create_connection_closed server (w.heap r)

  is_peer_notice : Ends id server w r v q → sent_notice ≡ peer_notice id v
  is_peer_notice ends =
      ap
        (λ (i : Text).
          zero_packet connection_closed i (if server then from_server else from_client))
        ends.leaves.named
      ∙ ap (zero_packet connection_closed id) origin
    where
      origin :
          (if server then from_server else from_client)
          ≡ (if v.is_server_mode then from_client else from_server)
      origin = ground (arith, ends.hears.leaves.mode)

  pub closing :
      Ends id server w r v q
      → b.unmarshal (a.marshal sent_notice) ≡ some sent_notice
      → let topic = (w.heap r).server_pub_topic in
        let w' = run w (leaving a r server) in
        let v' = run v (hearing b q (not server) w.broker.control_topic (a.marshal sent_notice)) in
        Over id r server w'
        × Over id q (not server) v'
        × (w'.trace
            ≡ (w.trace
                ++ (publishes w.broker.control_topic 0 (a.marshal sent_notice) ∷ goodbye topic))
              ++ hangs_up server)
        × (v'.trace ≡ v.trace ++ last_words (not server) (v.heap q).server_pub_topic)
  closing ends readable =
      let (over, t) = leaving-Over a id r server w ends.leaves in
      let (over', t') =
        hearing-Over b id q v (a.marshal sent_notice)
          (readable ∙ ap (λ (n : ControlPacket). some n) (is_peer_notice ends)) (not server)
          ends.hears in
      let said : close_notice a r w
          ≡ publishes w.broker.control_topic 0 (a.marshal sent_notice) ∷ [] =
        rw (ends.first, ends.leaves.side) refl in
      (
        over,
        subst
            (λ (topic : Text).
              Over id q (not server)
                (run v (hearing b q (not server) topic (a.marshal sent_notice))))
            ends.one_topic over',
        t
            ∙ ap
                (λ (l : List Effect).
                  (w.trace ++ (l ++ goodbye (w.heap r).server_pub_topic)) ++ hangs_up server)
                said,
        subst
            (λ (topic : Text).
              (run v (hearing b q (not server) topic (a.marshal sent_notice))).trace
              ≡ v.trace ++ last_words (not server) (v.heap q).server_pub_topic)
            ends.one_topic t',
      )
