-- ===== src/MqTunnel/Closing/Order.antt =====
-- `closeAllTunnels` ranges over three Go maps, in an order that the language leaves open. The
-- outcome does not depend on it.
pub mod Turns
pub mod Loops
pub mod Outcome
use mqtt_tunnel.MqTunnel.Closing.{cancel_all-Closes}
use mqtt_tunnel.World.{TunnelMaps}
use mathlib.Core.Logic.{∥∥₁_elim}
use mqtt_tunnel.MqTunnel.{cancel_all, close_all_tunnels}
use mqtt_tunnel.System.Lifecycle.{waiting}
use mqtt_tunnel.World.{set_ack_waiting, set_connected, set_pending_confirms}
use mqtt_tunnel.Broker.Unsubscribing.{topics_left_comm}
use mqtt_tunnel.MqTunnel.{cancel_pending}
use mqtt_tunnel.World.Effects.{unsubscribes}
use mqtt_tunnel.Broker.Unsubscribing.{goodbye}
use mqtt_tunnel.Broker.{unsubscribe}
use mqtt_tunnel.Broker.Unsubscribing.{topics_left, unsubscribe_lem}
use mqtt_tunnel.World.{Tunnel, TunnelRef, World, cancel}
use mqtt_tunnel.World.Effects.{Effect, Env}
use mqtt_tunnel.World.Monad.{final}
use mathlib.Core.List.{Perm, Permᴰ, Perm-prop}
use mathlib.Core.List.Perm
use mathlib.Core.Path.{fun_ext}
use mqtt_tunnel.Base.{
  ◌≡◌, refl, sym, ap, subst, ◌∙◌, true, List, [], ◌∷◌, ◌++◌, append_assoc, arith, ℕ_discrete, ◌==◌,
  if◌then◌else◌, Text, Dict,
}

pub World-set : IsSet World
World-set = hlevel ℕ_discrete

-- The two worlds differ in the order of their effects at most.
abbrev pub Agree : World → World → Type 0
Agree w u = (u ≡ record w { trace = u.trace }) × Perm w.trace u.trace

pub Agree-prop : (w u : World) → IsProp (Agree w u)
Agree-prop w u = hlevel (World-set, Perm-prop {A = Effect})

pub Agree-refl : (w : World) → Agree w w
Agree-refl w = (refl, Perm.refl w.trace)

pub Agree-trans : (w u x : World) → Agree w u → Agree u x → Agree w x
Agree-trans w u x (e, p) (f, q) =
    (f ∙ ap (λ (y : World). record y { trace = x.trace }) e, Perm.trans p q)
