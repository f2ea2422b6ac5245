-- ===== src/System/Lifecycle/Client/Events.antt =====
-- The events of a client: the turn that opens the tunnel brings one ID up, and comes once.

use mathlib.Core.Bool.{false≢true}
use mqtt_tunnel.MqTunnel.Loops.{control_turn, done_turn, local_turn, stop_on_error}
use mqtt_tunnel.System.{
  Event, ack_timer_fires, config_changed, confirm_timer_fires, connection_lost, connection_made,
  main_loop, message, on_event, ping_armed, ping_timeout_fires, ping_timer_fires, reads,
  takes_control, takes_done, takes_local, takes_reconnect, takes_reload, takes_tunnel_closed,
}
use mqtt_tunnel.System.Invariant.Quiet.Events.{IsQuiet, on_event-Quiet}
use mqtt_tunnel.World.Monad.{Outcome, fail, ok}
use mqtt_tunnel.System.Lifecycle.Client.Handlers.{handle_control-Rests}
use mqtt_tunnel.System.Lifecycle.Maps.{insert_ack-Moves}
use mqtt_tunnel.System.Invariant.Operations.{with_tunnel}
use mqtt_tunnel.Control.{ControlPacket}
use mqtt_tunnel.MqTunnel.Loops.{
  ack_timeout, confirm_timeout, open_tunnel, take_control, take_done, take_local,
}
use mqtt_tunnel.System.{after_turn}
use mqtt_tunnel.System.Invariant.{IsConsistent}
use mqtt_tunnel.System.Invariant.Quiet.{Quiet}
use mqtt_tunnel.System.Invariant.Touches.{open_request-Touches, touch-cases}
use mqtt_tunnel.System.Lifecycle.{Moves, gone, status}
use mqtt_tunnel.System.Lifecycle.Client.{
  Rests, Rests-refl, Settles, Settles-Moves, Settles-gone, Settles-refl, erase_ack-Settles,
}
use mqtt_tunnel.System.Lifecycle.Maps.{Moves-refl}
use mqtt_tunnel.Tunnel.{client_tunnel, open_request}
use mqtt_tunnel.World.{World, emit}
use mqtt_tunnel.World.Effects.{Env, starts_read}
use mqtt_tunnel.World.Monad.{final, open_request_failed}
use mqtt_tunnel.Base.{
  ◌≡◌, refl, sym, subst, ◌∙◌, ◌⊎◌, inl, inr, Bool, true, false, List, [], ◌∷◌, arith, if◌then◌else◌,
  Bool-cases, if-cases, match-cases, Text, lookup, ℤ, pos,
}

-- The client has opened its tunnel, or it has not and all IDs are gone.
abbrev pub Ready : World → Type 0
Ready w = (w.local_ch ≡ []) ⊎ ((w.local_ch ≡ tt ∷ []) × ((j : Text) → status false w.maps j ≡ gone))

-- Of what an event leaves behind.
abbrev pub Advances : World → World → Type 0
Advances w u = Moves false w.maps u.maps × (u.is_server_mode ≡ w.is_server_mode) × Ready u

Rests-Advances : (w u : World) → Ready w → Rests w u → Advances w u
Rests-Advances w u (inl e) (m, s, l) = (Settles-Moves w.maps u.maps m, s, inl (l ∙ e))
Rests-Advances w u (inr (e, all)) (m, s, l) =
    (Settles-Moves w.maps u.maps m, s, inr (l ∙ e, λ j. Settles-gone w.maps u.maps j m (all j)))

Quiet-Rests : (w u : World) → Quiet w u → Rests w u
Quiet-Rests w u q = (subst (Settles w.maps) (sym q.maps) (Settles-refl w.maps), q.mode, q.local)

module _ (env : Env) (w : World) (s : w.is_server_mode ≡ false) where
  take_control-Rests : (ps : List ControlPacket) → Rests w (after_turn w (take_control env ps w))
  take_control-Rests [] = Rests-refl w
  take_control-Rests (p ∷ ps) = handle_control-Rests env p (record w { control_ch = ps }) s

  take_done-Rests : (cs : List (Unit {0})) → Rests w (after_turn w (take_done cs w))
  take_done-Rests [] = Rests-refl w
  take_done-Rests (c ∷ cs) = Rests-refl w

  ack_timeout-Rests : (id : Text) → Rests w (ack_timeout id w)
  unfolding ack_timeout
  ack_timeout-Rests id =
      match-cases (Rests w) (lookup id w.ack_waiting) (λ _. Rests-refl w)
        (λ r _. (erase_ack-Settles w.maps id, refl, refl))

  confirm_timeout-Rests : IsConsistent w → (id : Text) → Rests w (confirm_timeout env id w)
  unfolding confirm_timeout
  confirm_timeout-Rests v id =
      match-cases (Rests w) (lookup id w.pending_confirms) (λ _. Rests-refl w)
        (λ r e. absurd (ground (arith, v.no_pending s id)))

  -- The one turn that brings an ID up: all IDs are gone before it.
  open_tunnel-Advances :
      (z : ℤ)
      → w.local_ch ≡ []
      → ((j : Text) → status false w.maps j ≡ gone)
      → Advances w (final (open_tunnel env z w))
  unfolding open_tunnel
  open_tunnel-Advances z l all =
      let w1 : World = emit (starts_read w.next_ref) (with_tunnel w (client_tunnel env z)) in
      touch-cases (Advances w) open_request_failed (open_request env w.next_ref) _ w1
        (open_request-Touches env w.next_ref w1) (λ b log. (Moves-refl false w.maps, refl, inl l))
        (λ b log. (insert_ack-Moves w.maps (w1.heap w.next_ref).id w.next_ref all, refl, inl l))

ends :
    (o : Outcome (Unit {0})) (w : World)
    → Advances w (final o)
    → Advances w (after_turn w (stop_on_error o))
ends (ok a u) w h = h
ends (fail e u) w h = h

take_local-Advances :
    (env : Env) (z : ℤ) (cs : List (Unit {0})) (w : World)
    → w.is_server_mode ≡ false
    → w.local_ch ≡ cs
    → Ready w
    → Advances w (after_turn w (take_local env z cs w))
take_local-Advances env z [] w s e r = (Moves-refl false w.maps, refl, r)
take_local-Advances env z (c ∷ cs) w s e (inl l) = absurd (ground arith)
take_local-Advances env z (c ∷ cs) w s e (inr (l, all)) =
    let w' : World = record w { local_ch = cs } in
    ends (open_tunnel env z w') w (open_tunnel-Advances env w' s z (ground arith) all)

quiet : (env : Env) (e : Event) (w : World) → IsQuiet e → Rests w (on_event env e w)
quiet env e w q = Quiet-Rests w (on_event env e w) (on_event-Quiet env e w q)

-- A case that only the server's main loop has.
idle :
    (w : World)
    → w.is_server_mode ≡ false
    → (u : World) → Rests w (if w.is_server_mode then u else w)
idle w s u =
    if-cases (Rests w) w.is_server_mode (λ c. absurd (false≢true (sym s ∙ c))) (λ _. Rests-refl w)

-- The client's one signal to open a tunnel, if it still waits.
abbrev pub opens : Event → Bool
opens takes_local = true
opens _ = false

pub on_event-Rests :
    (env : Env) (e : Event) (w : World)
    → opens e ≡ false
    → w.is_server_mode ≡ false
    → IsConsistent w
    → Rests w (on_event env e w)
unfolding on_event control_turn done_turn
on_event-Rests env (message topic payload) w o s v = quiet env (message topic payload) w tt
on_event-Rests env connection_made w o s v = quiet env connection_made w tt
on_event-Rests env (connection_lost l) w o s v = quiet env (connection_lost l) w tt
on_event-Rests env takes_control w o s v = take_control-Rests env w s w.control_ch
on_event-Rests env takes_local w o s v = absurd (ground arith)
on_event-Rests env takes_done w o s v =
    if-cases (Rests w) w.is_server_mode (λ c. absurd (false≢true (sym s ∙ c)))
      (λ _. take_done-Rests env w s w.broker.tunnel_done_ch)
on_event-Rests env takes_reconnect w o s v = idle w s _
on_event-Rests env takes_tunnel_closed w o s v = idle w s _
on_event-Rests env takes_reload w o s v = idle w s _
on_event-Rests env (ack_timer_fires id) w o s v = ack_timeout-Rests env w s id
on_event-Rests env (confirm_timer_fires id) w o s v = confirm_timeout-Rests env w s v id
on_event-Rests env (main_loop q x) w o s v = quiet env (main_loop q x) w tt
on_event-Rests env (reads q x) w o s v = quiet env (reads q x) w tt
on_event-Rests env ping_timer_fires w o s v = quiet env ping_timer_fires w tt
on_event-Rests env ping_armed w o s v = quiet env ping_armed w tt
on_event-Rests env (ping_timeout_fires l) w o s v = quiet env (ping_timeout_fires l) w tt
on_event-Rests env (config_changed c) w o s v = quiet env (config_changed c) w tt

pub opens-takes_local : (e : Event) → opens e ≡ true → e ≡ takes_local
opens-takes_local e o = ground arith

takes_local-Advances :
    (env : Env) (w : World)
    → w.is_server_mode ≡ false
    → Ready w
    → Advances w (on_event env takes_local w)
unfolding on_event local_turn
takes_local-Advances env w s r =
    if-cases (Advances w) w.is_server_mode (λ c. absurd (false≢true (sym s ∙ c)))
      (λ _. take_local-Advances env (pos 0) w.local_ch w s refl r)

pub on_event-Advances :
    (env : Env) (e : Event) (w : World)
    → w.is_server_mode ≡ false
    → IsConsistent w
    → Ready w
    → Advances w (on_event env e w)
on_event-Advances env e w s v r = elim (Bool-cases (opens e)) [
  | inl o ↦
      subst (λ (x : Event). Advances w (on_event env x w)) (sym (opens-takes_local e o))
        (takes_local-Advances env w s r)
  | inr o ↦ Rests-Advances w (on_event env e w) r (on_event-Rests env e w o s v)
]
