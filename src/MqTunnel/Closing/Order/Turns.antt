-- ===== src/MqTunnel/Closing/Order/Turns.antt =====
-- One turn of a loop of `closeAllTunnels`, and two of them in either order.
use mqtt_tunnel.MqTunnel.Closing.Order.{Agree}
use mqtt_tunnel.Broker.Unsubscribing.{topics_left_comm}
use mqtt_tunnel.World.Effects.{unsubscribes}
use mqtt_tunnel.Broker.Unsubscribing.{goodbye}
use mqtt_tunnel.Broker.{unsubscribe}
use mqtt_tunnel.Broker.Unsubscribing.{topics_left, unsubscribe_lem}
use mqtt_tunnel.World.{Tunnel, TunnelRef, World, cancel}
use mqtt_tunnel.World.Effects.{Effect, Env}
use mqtt_tunnel.World.Monad.{final}
use mathlib.Core.List.{Perm}
use mathlib.Core.List.Perm
use mathlib.Core.Path.{fun_ext}
use mqtt_tunnel.Base.{
  ◌≡◌, refl, sym, ap, subst, ◌∙◌, true, List, [], ◌∷◌, ◌++◌, append_assoc, arith, ◌==◌,
  if◌then◌else◌, Text, Dict,
}

-- The tunnel at `r` is cancelled.
abbrev pub mark : TunnelRef → (TunnelRef → Tunnel) → TunnelRef → Tunnel
mark r h q = if q == r then record (h r) { cancelled = true } else h q

pub mark_comm : (r s : TunnelRef) (h : TunnelRef → Tunnel) → mark r (mark s h) ≡ mark s (mark r h)
mark_comm r s h = fun_ext (λ q. ground arith)

-- One turn of the loop over `pendingConfirms`
abbrev pub drop_pending : Env → TunnelRef → World → World
drop_pending env r w =
    let w' = cancel r w in final (unsubscribe env (w'.heap r).server_pub_topic w')

abbrev pub dropped : Env → TunnelRef → World → World
dropped env r w =
    let topic = (w.heap r).server_pub_topic in
    record w {
      heap = mark r w.heap;
      trace = w.trace ++ goodbye topic;
      broker = record w.broker { tunnel_topics = topics_left env topic w.broker.tunnel_topics };
    }

pub drop_pending-dropped :
    (env : Env) (r : TunnelRef) (w : World) → drop_pending env r w ≡ dropped env r w
drop_pending-dropped env r w =
    let here : ((cancel r w).heap r).server_pub_topic ≡ (w.heap r).server_pub_topic =
      ground arith in
    unsubscribe_lem env ((cancel r w).heap r).server_pub_topic (cancel r w)
    ∙ ap
        (λ (topic : Text). record w {
          heap = mark r w.heap;
          trace = w.trace ++ goodbye topic;
          broker = record w.broker { tunnel_topics = topics_left env topic w.broker.tunnel_topics };
        })
        here

mark-topic :
    (r s : TunnelRef) (h : TunnelRef → Tunnel)
    → (mark r h s).server_pub_topic ≡ (h s).server_pub_topic
mark-topic r s h = ground arith

goodbye-Perm : (s t : Text) → Perm (goodbye s ++ goodbye t) (goodbye t ++ goodbye s)
goodbye-Perm [] [] = Perm.refl []
goodbye-Perm [] (c ∷ t) = Perm.refl (goodbye (c ∷ t))
goodbye-Perm (c ∷ s) [] = Perm.refl (goodbye (c ∷ s))
goodbye-Perm (c ∷ s) (d ∷ t) = Perm.swap (unsubscribes (d ∷ t)) (unsubscribes (c ∷ s)) []

-- Two turns go in any order.
module _ (env : Env) (r s : TunnelRef) (w : World) where
  topics_path :
      (dropped env r (dropped env s w)).broker.tunnel_topics
      ≡ (dropped env s (dropped env r w)).broker.tunnel_topics
  topics_path =
      let one = (w.heap r).server_pub_topic in
      let second = (w.heap s).server_pub_topic in
      let m : Dict TunnelRef = w.broker.tunnel_topics in
      ap (λ (t : Text). topics_left env t (topics_left env second m)) (mark-topic s r w.heap)
      ∙ topics_left_comm env one second m
      ∙ ap (λ (t : Text). topics_left env t (topics_left env one m)) (sym (mark-topic r s w.heap))

  trace_perm : Perm (dropped env s (dropped env r w)).trace (dropped env r (dropped env s w)).trace
  trace_perm =
      let h : TunnelRef → Tunnel = w.heap in
      let one = (h r).server_pub_topic in
      let second = (h s).server_pub_topic in
      let log : List Effect = w.trace in
      let moved : Perm ((log ++ goodbye one) ++ goodbye second)
          ((log ++ goodbye second) ++ goodbye one) =
        subst (λ (l : List Effect). Perm l ((log ++ goodbye second) ++ goodbye one))
          (sym (append_assoc log (goodbye one) (goodbye second)))
          (subst (Perm (log ++ (goodbye one ++ goodbye second)))
            (sym (append_assoc log (goodbye second) (goodbye one)))
            (Perm.append_left log (goodbye-Perm one second))) in
      subst
        (λ (x : Text).
          Perm ((log ++ goodbye one) ++ goodbye x)
            ((log ++ goodbye second) ++ goodbye (mark s h r).server_pub_topic))
        (sym (mark-topic r s h))
        (subst
          (λ (y : Text).
            Perm ((log ++ goodbye one) ++ goodbye second) ((log ++ goodbye second) ++ goodbye y))
          (sym (mark-topic s r h)) moved)

  pub dropped_comm : Agree (dropped env s (dropped env r w)) (dropped env r (dropped env s w))
  dropped_comm = (
    λ i. record w {
      heap = mark_comm r s w.heap i;
      trace = (dropped env r (dropped env s w)).trace;
      broker = record w.broker { tunnel_topics = topics_path i };
    },
    trace_perm,
  )

-- A turn keeps the agreement.
pub dropped-Agree :
    (env : Env) (r : TunnelRef) (w u : World)
    → Agree w u
    → Agree (dropped env r w) (dropped env r u)
dropped-Agree env r w u (e, p) =
    subst (λ (x : World). Agree (dropped env r w) (dropped env r x)) (sym e)
      (refl, Perm.append_right (goodbye (w.heap r).server_pub_topic) p)
