-- ===== src/MqTunnel/Closing/Order/Loops.antt =====
-- A loop of `closeAllTunnels` over the entries of a map, in two orders.
use mqtt_tunnel.MqTunnel.Closing.Order.{World-set, Agree, Agree-prop, Agree-refl, Agree-trans}
use mqtt_tunnel.MqTunnel.Closing.Order.Turns.{
  mark_comm, dropped, drop_pending-dropped, dropped_comm, dropped-Agree,
}
use mathlib.Core.Logic.{∥∥₁_elim}
use mqtt_tunnel.MqTunnel.{cancel_all}
use mqtt_tunnel.MqTunnel.{cancel_pending}
use mqtt_tunnel.World.{Tunnel, TunnelRef, World, cancel}
use mqtt_tunnel.World.Effects.{Env}
use mathlib.Core.List.{Perm, Permᴰ}
use mqtt_tunnel.Base.{◌≡◌, refl, sym, ap, subst, ◌∙◌, [], ◌∷◌, Text, Dict}

cancel_pending-cons :
    (env : Env) (e : Text × TunnelRef) (m : Dict TunnelRef) (w : World)
    → cancel_pending env (e ∷ m) w ≡ cancel_pending env m (dropped env e.1 w)
unfolding cancel_pending
cancel_pending-cons env (id, r) m w = ap (cancel_pending env m) (drop_pending-dropped env r w)

cancel_pending-Agree :
    (env : Env) (m : Dict TunnelRef) (w u : World)
    → Agree w u
    → Agree (cancel_pending env m w) (cancel_pending env m u)
unfolding cancel_pending
cancel_pending-Agree env [] w u a = a
cancel_pending-Agree env (e ∷ m) w u a =
    subst (λ (x : World). Agree x (cancel_pending env (e ∷ m) u))
      (sym (cancel_pending-cons env e m w))
      (subst (Agree (cancel_pending env m (dropped env e.1 w)))
        (sym (cancel_pending-cons env e m u))
        (cancel_pending-Agree env m (dropped env e.1 w) (dropped env e.1 u)
          (dropped-Agree env e.1 w u a)))

-- The loop over one and the same entry first
head-Agree :
    (env : Env) (e : Text × TunnelRef) (m n : Dict TunnelRef) (w : World)
    → ((u : World) → Agree (cancel_pending env m u) (cancel_pending env n u))
    → Agree (cancel_pending env (e ∷ m) w) (cancel_pending env (e ∷ n) w)
head-Agree env e m n w a =
    subst (λ (x : World). Agree x (cancel_pending env (e ∷ n) w))
      (sym (cancel_pending-cons env e m w))
      (subst (Agree (cancel_pending env m (dropped env e.1 w)))
        (sym (cancel_pending-cons env e n w)) (a (dropped env e.1 w)))

two-Agree :
    (env : Env) (d e : Text × TunnelRef) (m : Dict TunnelRef) (w : World)
    → Agree (cancel_pending env (d ∷ e ∷ m) w) (cancel_pending env (e ∷ d ∷ m) w)
two-Agree env d e m w =
    subst (λ (x : World). Agree x (cancel_pending env (e ∷ d ∷ m) w)) (sym (two d e))
      (subst (Agree (cancel_pending env m (dropped env e.1 (dropped env d.1 w)))) (sym (two e d)) (
        cancel_pending-Agree env m (dropped env e.1 (dropped env d.1 w))
          (dropped env d.1 (dropped env e.1 w)) (dropped_comm env d.1 e.1 w)))
  where
    two :
        (a b : Text × TunnelRef)
        → cancel_pending env (a ∷ b ∷ m) w
          ≡ cancel_pending env m (dropped env b.1 (dropped env a.1 w))
    two a b = cancel_pending-cons env a (b ∷ m) w ∙ cancel_pending-cons env b m (dropped env a.1 w)

order-Agree :
    (env : Env) {m n : Dict TunnelRef}
    → Permᴰ m n
    → (w : World) → Agree (cancel_pending env m w) (cancel_pending env n w)
order-Agree env Permᴰ.nil w = Agree-refl (cancel_pending env [] w)
order-Agree env (Permᴰ.cons {a = a} {l₁ = l} {l₂ = k} e d) w =
    subst (λ b. Agree (cancel_pending env (a ∷ l) w) (cancel_pending env (b ∷ k) w)) e
      (head-Agree env a l k w (λ u. order-Agree env d u))
order-Agree env (Permᴰ.swap {a = a} {b = b} {b' = b'} {l = l} e f) w =
    subst (λ a'. Agree (cancel_pending env (a ∷ b ∷ l) w) (cancel_pending env (a' ∷ b' ∷ l) w)) f
      (subst (λ c. Agree (cancel_pending env (a ∷ b ∷ l) w) (cancel_pending env (b ∷ c ∷ l) w)) e
        (two-Agree env a b l w))
order-Agree env (Permᴰ.trans {l₁ = m} {l₂ = n} {l₃ = o} d e) w =
    Agree-trans (cancel_pending env m w) (cancel_pending env n w) (cancel_pending env o w)
      (order-Agree env d w) (order-Agree env e w)

-- The loops that send nothing end in one and the same world.
cancel_comm : (r s : TunnelRef) (w : World) → cancel s (cancel r w) ≡ cancel r (cancel s w)
cancel_comm r s w = ap (λ (h : TunnelRef → Tunnel). record w { heap = h }) (mark_comm s r w.heap)

order-same : {m n : Dict TunnelRef} → Permᴰ m n → (w : World) → cancel_all m w ≡ cancel_all n w
unfolding cancel_all
order-same Permᴰ.nil w = refl
order-same (Permᴰ.cons {a = a} {l₁ = l} {l₂ = k} e d) w =
    order-same d (cancel a.1 w) ∙ ap (λ b. cancel_all (b ∷ k) w) e
order-same (Permᴰ.swap {a = a} {b = b} {b' = b'} {l = l} e f) w =
    ap (cancel_all l) (cancel_comm a.1 b.1 w)
    ∙ ap (λ c. cancel_all (b ∷ c ∷ l) w) e
    ∙ ap (λ c. cancel_all (c ∷ b' ∷ l) w) f
order-same (Permᴰ.trans d e) w = order-same d w ∙ order-same e w

pub cancel_all-order :
    (m n : Dict TunnelRef) → Perm m n → (w : World) → cancel_all m w ≡ cancel_all n w
cancel_all-order m n p w =
    ∥∥₁_elim p (World-set (cancel_all m w) (cancel_all n w)) (λ d. order-same d w)

pub cancel_pending-order :
    (env : Env) (m n : Dict TunnelRef)
    → Perm m n
    → (w : World) → Agree (cancel_pending env m w) (cancel_pending env n w)
cancel_pending-order env m n p w =
    ∥∥₁_elim p (Agree-prop (cancel_pending env m w) (cancel_pending env n w))
      (λ d. order-Agree env d w)
