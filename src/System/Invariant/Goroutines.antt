-- ===== src/System/Invariant/Goroutines.antt =====
-- The timeouts of the handshake keep the state consistent.
use mqtt_tunnel.Base.{refl, match-cases, Text, lookup}
use mqtt_tunnel.World.{World, cancel}
use mqtt_tunnel.World.Effects.{Env}
use mqtt_tunnel.World.Monad.{final}
use mqtt_tunnel.Broker.{unsubscribe}
use mqtt_tunnel.MqTunnel.Loops.{ack_timeout, confirm_timeout}
use mqtt_tunnel.System.Invariant.{
  IsConsistent, store-Consistent, erase_ack-Consistent, erase_pending-Consistent,
}
use mqtt_tunnel.System.Invariant.Operations.{close_conn-no_conn}
use mqtt_tunnel.System.Invariant.Quiet.{Quiet-refl, Quiet-IsConsistent}
use mqtt_tunnel.System.Invariant.Quiet.Goroutines.{after_unsubscribe-Quiet}

pub after_unsubscribe-IsConsistent :
    (env : Env) (topic : Text) (w : World)
    → IsConsistent w
    → IsConsistent (final (unsubscribe env topic w))
after_unsubscribe-IsConsistent env topic w v =
    Quiet-IsConsistent w (final (unsubscribe env topic w))
      (after_unsubscribe-Quiet w env topic w (Quiet-refl w)) v

pub ack_timeout-IsConsistent :
    (id : Text) (w : World) → IsConsistent w → IsConsistent (ack_timeout id w)
unfolding ack_timeout
ack_timeout-IsConsistent id w v =
    match-cases IsConsistent (lookup id w.ack_waiting) (λ _. v)
      (λ r _.
        erase_ack-Consistent (store-Consistent v r _ refl refl (close_conn-no_conn (w.heap r).conn))
          id)

pub confirm_timeout-IsConsistent :
    (env : Env) (id : Text) (w : World) → IsConsistent w → IsConsistent (confirm_timeout env id w)
unfolding confirm_timeout
confirm_timeout-IsConsistent env id w v =
    match-cases IsConsistent (lookup id w.pending_confirms) (λ _. v)
      (λ r _.
        erase_pending-Consistent
          (after_unsubscribe-IsConsistent env (w.heap r).server_pub_topic (cancel r w)
            (store-Consistent v r _ refl refl (λ k. k)))
          id)
