-- ===== src/Stdio/StdioTunnel.antt =====
-- `StdioTunnel` of tunnel/stdio.go: a tunnel that is opened on the standard streams without the loop of
-- `StartStdio`. No code of the program calls it.
use mqtt_tunnel.MqTunnel.Races.Early.{requested}
use mqtt_tunnel.System.Invariant.{alloc-Consistent}
use mathlib.Core.Bool.{false≢true}
use mqtt_tunnel.MqTunnel.Handshake.{with_tunnel}
use mqtt_tunnel.Broker.{publish, publish_wait}
use mqtt_tunnel.System.Lifecycle.Client.{Settles-gone}
use mqtt_tunnel.System.Lifecycle.Client.Runs.{run-Rests}
use mqtt_tunnel.World.Effects.{Reply-cases, accepted}
use mqtt_tunnel.World.Monad.{◌>>=◌, ◌>>◌, new_tunnel_from_connect}
use mqtt_tunnel.Tunnel.{new_tunnel_from_connect as make_tunnel}
use mqtt_tunnel.MqTunnel.Races.{request_tunnel}
use mqtt_tunnel.System.{Event, run}
use mqtt_tunnel.System.Invariant.{IsConsistent}
use mqtt_tunnel.System.Lifecycle.{gone, status}
use mqtt_tunnel.Tunnel.{client_tunnel, open_request}
use mqtt_tunnel.World.{TunnelRef, World}
use mqtt_tunnel.World.Effects.{Env}
use mqtt_tunnel.World.Monad.{
  Error, M, Outcome, context_ended, fail, ok, open_request_failed, return,
  tunnel_connection_timeout, wrap,
}
use mqtt_tunnel.Base.{
  ◌≡◌, refl, sym, ap, ◌∙◌, ◌≢◌, inl, inr, false, Option, none, some, List, [], arith, if◌then◌else◌,
  Text, has, ℤ, pos,
}

-- `Start` up to its `select`: the tunnel is created, and the request is sent.
unfoldable pub begin_start : Env → ℤ → M TunnelRef
unfolding make_tunnel open_request
begin_start env remote_port = do
  r ← wrap new_tunnel_from_connect (make_tunnel env (pos 0) remote_port)
  wrap open_request_failed (open_request env r)
  return r

-- How the `select` ends.
pub data Waited : Type 0 where
  ctx_done five_seconds : Waited

-- What `Start` returns behind it: the error of the context, or whether the tunnel is connected.
unfoldable pub end_start : Waited → Text → World → Option Error
end_start ctx_done id w = some context_ended
end_start five_seconds id w = if has id w.connected then none else some tunnel_connection_timeout

abbrev return_from : Option Error → World → Outcome (Unit {0})
return_from none w = ok tt w
return_from (some e) w = fail e w

-- `Start`, where `es` is what the process does while `Start` waits.
unfoldable pub start_tunnel : Env → ℤ → List (Env × Event) → Waited → M (Unit {0})
unfolding begin_start end_start
start_tunnel env remote_port es waited = do
  r ← begin_start env remote_port
  λ w. let w' = run w es in return_from (end_start waited (w.heap r).id w') w'

begin_start-request_tunnel :
    (env : Env) (z : ℤ) (w : World) → begin_start env z w ≡ request_tunnel env z w
unfolding begin_start request_tunnel
begin_start-request_tunnel env z w = refl

-- Behind the request: the ID stays gone, so it is not connected when the time is over.
still_gone :
    (w : World) (id : Text) (es : List (Env × Event)) (waited : Waited)
    → w.is_server_mode ≡ false
    → IsConsistent w
    → w.local_ch ≡ []
    → status false w.maps id ≡ gone
    → (e : Error) × (end_start waited id (run w es) ≡ some e)
unfolding end_start
still_gone w id es ctx_done s v l g = (context_ended, refl)
still_gone w id es five_seconds s v l g =
    let (m, s', l') = run-Rests w es s v l in
    let after : status false (run w es).maps id ≡ gone =
      Settles-gone w.maps (run w es).maps id m g in
    (tunnel_connection_timeout, ground (arith, after))

not_sent :
    (env : Env) (z : ℤ) (es : List (Env × Event)) (waited : Waited) (w : World)
    → env.publish_reply ≢ accepted
    → (e : Error) × (u : World) × (start_tunnel env z es waited w ≡ fail e u)
unfolding start_tunnel publish_wait publish
not_sent env z es waited w n = elim (Reply-cases env.publish_reply) [
  | inl e ↦ absurd (n e)
  | inr (inl e) ↦ rw e (_, _, refl)
  | inr (inr e) ↦ rw e (_, _, refl)
]

-- In a client whose main loop opens no tunnel of its own, and has none under the new ID, `Start` never
-- succeeds, whatever happens while it waits and however the server answers: the tunnel is never put
-- among those that wait for an ack.
pub start_tunnel-fails :
    (env : Env) (z : ℤ) (es : List (Env × Event)) (waited : Waited) (w : World)
    → w.is_server_mode ≡ false
    → IsConsistent w
    → w.local_ch ≡ []
    → status false w.maps (client_tunnel env z).id ≡ gone
    → (e : Error) × (u : World) × (start_tunnel env z es waited w ≡ fail e u)
unfolding start_tunnel
start_tunnel-fails env z es waited w s v l g = elim (Reply-cases env.publish_reply) [
  | inl e ↦
      let (log, q) = requested env z w e in
      let u : World = record (with_tunnel w (client_tunnel env z)) { trace = log } in
      let here : (u.heap w.next_ref).id ≡ (client_tunnel env z).id = ground arith in
      let (err, fails) =
        still_gone u (u.heap w.next_ref).id es waited s
          (alloc-Consistent v (client_tunnel env z) refl (λ p. absurd (false≢true (sym s ∙ p)))) l
          (ap (status false w.maps) here ∙ g) in
      (
        err,
        run u es,
        rw (begin_start-request_tunnel env z w ∙ q, start_tunnel, ◌>>=◌)
            (rw (fails, return_from) refl),
      )
  | inr (inl e) ↦ not_sent env z es waited w (λ p. absurd (ground arith))
  | inr (inr e) ↦ not_sent env z es waited w (λ p. absurd (ground arith))
]
