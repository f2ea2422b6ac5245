-- ===== src/System/Invariant/Turns.antt =====
-- Each case of the main loops' `select` keeps the state consistent.
use mathlib.Core.Bool.{false≢true}
use mqtt_tunnel.Base.{
  ◌≡◌, refl, sym, ◌∙◌, Bool, true, false, Option, none, some, List, [], ◌∷◌, arith, if-cases,
  match-cases, Text, Dict, has, ℤ, pos,
}
use mqtt_tunnel.Config.{Config}
use mqtt_tunnel.Broker.Options.{MadeOptions, options, no_options, get_mqtt_options}
use mqtt_tunnel.Control.{ControlPacket}
use mqtt_tunnel.Control.Random.{generate_random_id}
use mqtt_tunnel.World.{set_ack_waiting, set_connected, emit, World, Broker, TunnelRef, cancel}
use mqtt_tunnel.World.Effects.{Env, starts_read, connects, disconnects}
use mqtt_tunnel.World.Monad.{final, Outcome, ok, fail, Error, open_request_failed}
use mqtt_tunnel.Broker.{unsubscribe}
use mqtt_tunnel.Broker.Connect.{
  connect_with_retry, new_mqtt_broker, new_ping_topic, new_broker, with_options, try_connect,
}
use mqtt_tunnel.Tunnel.{open_request, client_tunnel}
use mqtt_tunnel.MqTunnel.{close_all_tunnels, cancel_all, cancel_pending}
use mqtt_tunnel.MqTunnel.Loops.{
  stop_on_error, Turn, control_turn, take_control, open_tunnel, local_turn, take_local, done_turn,
  take_done, reconnect_turn, reconnected, tunnel_closed_turn, take_closed_id, reload_turn,
  take_reload, install,
}
use mqtt_tunnel.System.{after_turn}
use mqtt_tunnel.System.Invariant.{
  IsConsistent, alloc-Consistent, erase_connected-Consistent, insert_ack-Consistent,
  clear_ack-Consistent, clear_pending-Consistent, clear_connected-Consistent,
}
use mqtt_tunnel.System.Invariant.Operations.{with_tunnel, handle_control-IsConsistent}
use mqtt_tunnel.System.Invariant.Touches.{touch-cases, open_request-Touches}
use mqtt_tunnel.System.Invariant.Quiet.{Quiet, Quiet-refl, store-Quiet, Quiet-IsConsistent}
use mqtt_tunnel.System.Invariant.Quiet.Goroutines.{after_unsubscribe-Quiet}

abbrev Keeps : World → Turn → Type 0
Keeps w t = IsConsistent (after_turn w t)

take_control-IsConsistent :
    (env : Env) (ps : List ControlPacket) (w : World)
    → IsConsistent w
    → Keeps w (take_control env ps w)
take_control-IsConsistent env [] w v = v
take_control-IsConsistent env (p ∷ ps) w v =
    handle_control-IsConsistent env p (record w { control_ch = ps }) v

pub control_turn-IsConsistent :
    (env : Env) (w : World) → IsConsistent w → Keeps w (control_turn env w)
unfolding control_turn
control_turn-IsConsistent env w v = take_control-IsConsistent env w.control_ch w v

cancel_all-Quiet :
    (o : World) (m : Dict TunnelRef) (w : World) → Quiet o w → Quiet o (cancel_all m w)
unfolding cancel_all
cancel_all-Quiet o [] w v = v
cancel_all-Quiet o ((id, r) ∷ m) w v =
    cancel_all-Quiet o m (cancel r w)
      (store-Quiet o w r (record (w.heap r) { cancelled = true }) refl refl (λ k. k) v)

cancel_pending-Quiet :
    (o : World) (env : Env) (m : Dict TunnelRef) (w : World)
    → Quiet o w
    → Quiet o (cancel_pending env m w)
unfolding cancel_pending
cancel_pending-Quiet o env [] w v = v
cancel_pending-Quiet o env ((id, r) ∷ m) w v =
    let w' : World = cancel r w in
    cancel_pending-Quiet o env m (final (unsubscribe env (w'.heap r).server_pub_topic w')) (
      after_unsubscribe-Quiet o env (w'.heap r).server_pub_topic w'
        (store-Quiet o w r (record (w.heap r) { cancelled = true }) refl refl (λ k. k) v))

pub close_all_tunnels-is_server_mode :
    (env : Env) (w : World) → (close_all_tunnels env w).is_server_mode ≡ w.is_server_mode
unfolding close_all_tunnels
close_all_tunnels-is_server_mode env w =
    let w1 : World = set_connected [] (cancel_all w.connected w) in
    let w2 : World = set_ack_waiting [] (cancel_all w1.ack_waiting w1) in
    (cancel_pending-Quiet w2 env w2.pending_confirms w2 (Quiet-refl w2)).mode
    ∙ (cancel_all-Quiet w1 w1.ack_waiting w1 (Quiet-refl w1)).mode
    ∙ (cancel_all-Quiet w w.connected w (Quiet-refl w)).mode

pub close_all_tunnels-IsConsistent :
    (env : Env) (w : World) → IsConsistent w → IsConsistent (close_all_tunnels env w)
unfolding close_all_tunnels
close_all_tunnels-IsConsistent env w v =
    let kept : (m : Dict TunnelRef) (u : World) → IsConsistent u → IsConsistent (cancel_all m u) =
      λ m u x. Quiet-IsConsistent u (cancel_all m u) (cancel_all-Quiet u m u (Quiet-refl u)) x in
    let w1 : World = set_connected [] (cancel_all w.connected w) in
    let v1 : IsConsistent w1 = clear_connected-Consistent (kept w.connected w v) in
    let w2 : World = set_ack_waiting [] (cancel_all w1.ack_waiting w1) in
    let v2 : IsConsistent w2 = clear_ack-Consistent (kept w1.ack_waiting w1 v1) in
    let w3 : World = cancel_pending env w2.pending_confirms w2 in
    clear_pending-Consistent (
      Quiet-IsConsistent w2 w3 (cancel_pending-Quiet w2 env w2.pending_confirms w2 (Quiet-refl w2))
        v2)

open_tunnel-IsConsistent :
    (env : Env) (z : ℤ) (w : World)
    → w.is_server_mode ≡ false
    → IsConsistent w
    → IsConsistent (final (open_tunnel env z w))
unfolding open_tunnel
open_tunnel-IsConsistent env z w s v =
    let w1 : World = emit (starts_read w.next_ref) (with_tunnel w (client_tunnel env z)) in
    let v1 : IsConsistent w1 =
      alloc-Consistent v (client_tunnel env z) refl (λ p. absurd (false≢true (sym s ∙ p))) in
    touch-cases IsConsistent open_request_failed (open_request env w.next_ref) _ w1
      (open_request-Touches env w.next_ref w1) (λ b log. v1)
      (λ b log. insert_ack-Consistent v1 (w1.heap w.next_ref).id w.next_ref s refl (omega arith))

take_local-IsConsistent :
    (env : Env) (z : ℤ) (cs : List (Unit {0})) (w : World)
    → w.is_server_mode ≡ false
    → IsConsistent w
    → Keeps w (take_local env z cs w)
take_local-IsConsistent env z [] w s v = v
take_local-IsConsistent env z (c ∷ cs) w s v =
    ends (open_tunnel env z (record w { local_ch = cs }))
      (open_tunnel-IsConsistent env z (record w { local_ch = cs }) s v)
  where
    ends : (o : Outcome (Unit {0})) → IsConsistent (final o) → Keeps w (stop_on_error o)
    ends (ok a u) x = x
    ends (fail e u) x = x

pub local_turn-IsConsistent :
    (env : Env) (z : ℤ) (w : World)
    → w.is_server_mode ≡ false
    → IsConsistent w
    → Keeps w (local_turn env z w)
unfolding local_turn
local_turn-IsConsistent env z w s v = take_local-IsConsistent env z w.local_ch w s v

take_done-IsConsistent :
    (cs : List (Unit {0})) (w : World) → IsConsistent w → Keeps w (take_done cs w)
take_done-IsConsistent [] w v = v
take_done-IsConsistent (c ∷ cs) w v = v

pub done_turn-IsConsistent : (w : World) → IsConsistent w → Keeps w (done_turn w)
unfolding done_turn
done_turn-IsConsistent w v = take_done-IsConsistent w.broker.tunnel_done_ch w v

reconnected-IsConsistent :
    (o : Option Error) (w u : World) → IsConsistent u → Keeps w (reconnected o u)
reconnected-IsConsistent none w u v = v
reconnected-IsConsistent (some e) w u v = v

pub reconnect_turn-IsConsistent :
    (env : Env) (w : World) → IsConsistent w → Keeps w (reconnect_turn env w)
unfolding reconnect_turn
reconnect_turn-IsConsistent env w v =
    if-cases (Keeps w) w.reconnect_wanted
      (λ _.
        reconnected-IsConsistent (connect_with_retry env).failure w
          (close_all_tunnels env (record w { reconnect_wanted = false }))
          (close_all_tunnels-IsConsistent env (record w { reconnect_wanted = false }) v))
      (λ _. v)

take_closed_id-IsConsistent :
    (ids : List Text) (w : World) → IsConsistent w → Keeps w (take_closed_id ids w)
take_closed_id-IsConsistent [] w v = v
take_closed_id-IsConsistent (id ∷ ids) w v =
    if-cases IsConsistent (has id w.connected) (λ _. erase_connected-Consistent v id) (λ _. v)

pub tunnel_closed_turn-IsConsistent : (w : World) → IsConsistent w → Keeps w (tunnel_closed_turn w)
unfolding tunnel_closed_turn
tunnel_closed_turn-IsConsistent w v = take_closed_id-IsConsistent w.broker.tunnel_closed_ch w v

-- Making a broker changes the trace at most.
abbrev Settles : World → World → Turn → Type 0
Settles w u t = Quiet u (after_turn w t)

try_connect-install :
    (env : Env) (b : Broker) (o : Option Error) (w u : World)
    → Settles w u (install (try_connect env b o u))
try_connect-install env b none w u = Quiet-refl u
try_connect-install env b (some e) w u = Quiet-refl u

with_options-install :
    (env : Env) (b : Broker) (p : MadeOptions) (w u : World)
    → Settles w u (install (with_options env b p u))
with_options-install env b (no_options e) w u = Quiet-refl u
with_options-install env b (options o) w u =
    try_connect-install env b (connect_with_retry env).failure w (emit connects u)

pub new_mqtt_broker-install :
    (env : Env) (c : Config) (s : Bool) (w u : World)
    → Settles w u (install (new_mqtt_broker env c s u))
unfolding new_mqtt_broker
new_mqtt_broker-install env c s w u =
    match-cases (λ o. Settles w u (install o)) (generate_random_id (pos 6) env.random_bytes)
      (λ _. Quiet-refl u)
      (λ (id, bs) _.
        match-cases (λ o. Settles w u (install o)) (new_ping_topic c bs) (λ _. Quiet-refl u)
          (λ topic _.
            with_options-install env (new_broker env c s topic) (get_mqtt_options env c id) w u))

take_reload-IsConsistent :
    (env : Env) (cs : List Config) (w : World) → IsConsistent w → Keeps w (take_reload env cs w)
take_reload-IsConsistent env [] w v = v
take_reload-IsConsistent env (c ∷ cs) w v =
    let closed : World = close_all_tunnels env (record w { reload_ch = cs }) in
    Quiet-IsConsistent closed
      (after_turn w (
        install (
          new_mqtt_broker env c closed.is_server_mode
            (emit disconnects (record closed { conf = c })))))
      (new_mqtt_broker-install env c closed.is_server_mode w
        (emit disconnects (record closed { conf = c })))
      (close_all_tunnels-IsConsistent env (record w { reload_ch = cs }) v)

pub reload_turn-IsConsistent :
    (env : Env) (w : World) → IsConsistent w → Keeps w (reload_turn env w)
unfolding reload_turn
reload_turn-IsConsistent env w v = take_reload-IsConsistent env w.reload_ch w v
