-- ===== src/System/Lifecycle/Client/Runs.antt =====
-- The runs of a client whose signal to open a tunnel was taken, or never sent: no ID comes up any
-- more.
use mqtt_tunnel.MqTunnel.Loops.{take_local}
use mqtt_tunnel.System.{after_turn}
use mathlib.Core.Bool.{false≢true}
use mqtt_tunnel.MqTunnel.Loops.{local_turn}
use mqtt_tunnel.System.{Event, on_event, run, running, step, takes_local}
use mqtt_tunnel.System.Invariant.{IsConsistent}
use mqtt_tunnel.System.Invariant.Runs.{step-IsConsistent}
use mqtt_tunnel.System.Lifecycle.{Status, status}
use mqtt_tunnel.System.Lifecycle.Client.{Rests, Rests-refl, Settles, may_settle}
use mqtt_tunnel.System.Lifecycle.Client.Events.{on_event-Rests, opens, opens-takes_local}
use mqtt_tunnel.World.{TunnelMaps, World}
use mqtt_tunnel.World.Effects.{Env}
use mqtt_tunnel.Base.{
  ◌≡◌, sym, subst, ◌∙◌, inl, inr, true, false, List, [], ◌∷◌, arith, Bool-cases, if-cases, pos,
}

Settles-trans : (m n o : TunnelMaps) → Settles m n → Settles n o → Settles m o
Settles-trans m n o a b j =
    may_settle-trans (status false m j) (status false n j) (status false o j) (a j) (b j)
  where
    may_settle-trans :
        (s t u : Status) → may_settle s t ≡ true → may_settle t u ≡ true → may_settle s u ≡ true
    may_settle-trans s t u p q = ground arith

Rests-trans : (w u x : World) → Rests w u → Rests u x → Rests w x
Rests-trans w u x (m, s, l) (m', s', l') = (Settles-trans w.maps u.maps x.maps m m', s' ∙ s, l' ∙ l)

module _ (w : World) (s : w.is_server_mode ≡ false) (v : IsConsistent w) (l : w.local_ch ≡ []) where
  takes_local-Rests : (env : Env) → Rests w (on_event env takes_local w)
  unfolding on_event local_turn
  takes_local-Rests env =
      if-cases (Rests w) w.is_server_mode (λ c. absurd (false≢true (sym s ∙ c)))
        (λ _. not_taken w.local_ch l)
    where
      not_taken :
          (cs : List (Unit {0})) → cs ≡ [] → Rests w (after_turn w (take_local env (pos 0) cs w))
      not_taken [] e = Rests-refl w
      not_taken (c ∷ cs) e = absurd (ground arith)

  any_event-Rests : (env : Env) (e : Event) → Rests w (on_event env e w)
  any_event-Rests env e = elim (Bool-cases (opens e)) [
    | inl o ↦
        subst (λ (x : Event). Rests w (on_event env x w)) (sym (opens-takes_local e o))
          (takes_local-Rests env)
    | inr o ↦ on_event-Rests env e w o s v
  ]

  step-Rests : (e : Env × Event) → Rests w (step w e)
  unfolding step
  step-Rests (env, e) =
      if-cases (Rests w) (running w) (λ _. any_event-Rests env e) (λ _. Rests-refl w)

pub run-Rests :
    (w : World) (es : List (Env × Event))
    → w.is_server_mode ≡ false
    → IsConsistent w
    → w.local_ch ≡ []
    → Rests w (run w es)
unfolding run
run-Rests w [] s v l = Rests-refl w
run-Rests w (e ∷ es) s v l =
    let (m, s', l') = step-Rests w s v l e in
    Rests-trans w (step w e) (run (step w e) es) (m, s', l')
      (run-Rests (step w e) es (s' ∙ s) (step-IsConsistent w e v) (l' ∙ l))
