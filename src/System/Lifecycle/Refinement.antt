-- ===== src/System/Lifecycle/Refinement.antt =====
-- Server and client refine the state machine of a tunnel ID.

use mathlib.Core.Bool.{false≢true}
use mqtt_tunnel.Config.{Config}
use mqtt_tunnel.System.{Event, initial, on_event, run, running, step}
use mqtt_tunnel.System.Invariant.{IsConsistent}
use mqtt_tunnel.System.Invariant.Runs.{initial-IsConsistent, on_event-IsConsistent}
use mqtt_tunnel.System.Lifecycle.{Moves}
use mqtt_tunnel.System.Lifecycle.Client.Events.{Ready, on_event-Advances}
use mqtt_tunnel.System.Lifecycle.Maps.{Moves-refl}
use mqtt_tunnel.System.Lifecycle.Server.{on_event-Leaves}
use mqtt_tunnel.World.{Broker, TunnelRef, World}
use mqtt_tunnel.World.Effects.{Env}
use mqtt_tunnel.Base.{
  ◌≡◌, refl, sym, ◌∙◌, inr, Bool, true, false, List, [], ◌∷◌, arith, if-cases, lookup-nil,
}

-- What every step keeps: a server stays a server; a client stays one that has not opened its tunnel,
-- or that has and opens no other.
abbrev Holds : Bool → World → Type 0
Holds server w = (w.is_server_mode ≡ server) × IsConsistent w × (server ≡ false → Ready w)

-- What a step does to a state in which that holds.
abbrev Progress : Bool → World → World → Type 0
Progress server w u = Moves server w.maps u.maps × Holds server u

idle-Progress : (server : Bool) (w : World) → Holds server w → Progress server w w
idle-Progress server w h = (Moves-refl server w.maps, h)

on_event-Progress :
    (server : Bool) (env : Env) (e : Event) (w : World)
    → Holds server w
    → Progress server w (on_event env e w)
on_event-Progress true env e w (s, v, r) =
    let (m, s') = on_event-Leaves env e w s v in
    (m, (s' ∙ s, on_event-IsConsistent env e w v, λ c. absurd (false≢true (sym c))))
on_event-Progress false env e w (s, v, r) =
    let (m, s', r') = on_event-Advances env e w s v (r refl) in
    (m, (s' ∙ s, on_event-IsConsistent env e w v, λ _. r'))

step-Progress :
    (server : Bool) (w : World) (e : Env × Event) → Holds server w → Progress server w (step w e)
unfolding step
step-Progress server w (env, e) h =
    if-cases (Progress server w) (running w) (λ _. on_event-Progress server env e w h)
      (λ _. idle-Progress server w h)

run-Holds :
    (server : Bool) (w : World) (es : List (Env × Event)) → Holds server w → Holds server (run w es)
unfolding run
run-Holds server w [] h = h
run-Holds server w (e ∷ es) h = run-Holds server (step w e) es (step-Progress server w e h).1

initial-Ready : (c : Config) (b : Broker) → Ready (initial c false b)
unfolding initial
initial-Ready c b = inr (refl, λ j. ground (arith, lookup-nil {V = TunnelRef} j))

initial-Holds : (c : Config) (server : Bool) (b : Broker) → Holds server (initial c server b)
unfolding initial
initial-Holds c true b = (refl, initial-IsConsistent c true b, λ e. absurd (false≢true (sym e)))
initial-Holds c false b = (refl, initial-IsConsistent c false b, λ _. initial-Ready c b)

-- In every state that a server or a client can reach, whatever event comes next and however the
-- environment answers: each tunnel ID stays as it is or moves along one edge of the state machine.
-- So an ID becomes connected only when it awaited its confirm, or on the client its ack; a
-- connected ID does not await an answer again before it is gone; and one event is at most one move
-- of each ID.
pub step-Moves :
    (c : Config) (server : Bool) (b : Broker) (es : List (Env × Event)) (e : Env × Event)
    → let w = run (initial c server b) es in Moves server w.maps (step w e).maps
step-Moves c server b es e =
    let w : World = run (initial c server b) es in
    (step-Progress server w e
      (run-Holds server (initial c server b) es (initial-Holds c server b))).0
