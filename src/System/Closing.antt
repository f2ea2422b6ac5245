-- ===== src/System/Closing.antt =====
-- The steps by which a tunnel ends on one side, when nothing else comes between them.
pub mod Hearing
pub mod Sides
pub mod Together
use mqtt_tunnel.Stdio.{closed}
use mqtt_tunnel.Tunnel.Io.Relay.{takes_closed-drained}
use mqtt_tunnel.System.Arrival.{step-running}
use mqtt_tunnel.Broker.Unsubscribing.{goodbye, unsubscribe_lem}
use mqtt_tunnel.World.{Tunnel}
use mqtt_tunnel.Broker.{publish}
use mqtt_tunnel.MqTunnel.Forgetting.{SameBut, unsubscribe-SameBut}
use mqtt_tunnel.Tunnel.Io.{leave, notify_closed, signal_closed}
use mqtt_tunnel.Broker.{unsubscribe}
use mqtt_tunnel.Channel.{safe_send}
use mqtt_tunnel.System.{Event, main_loop, on_event, reads, step}
use mqtt_tunnel.Tunnel.Io.{ended, main_loop_round, read_round, takes_closed}
use mqtt_tunnel.Tunnel.Packets.{create_connection_closed}
use mqtt_tunnel.World.{TunnelRef, World, close_conn, store}
use mqtt_tunnel.World.Effects.{Effect, Env, Reply-cases, publishes, unsubscribes}
use mqtt_tunnel.World.Monad.{final}
use mqtt_tunnel.Base.{
  ℕ, zero, suc, ◌+◌, ◌-◌, ◌*◌, ◌/◌, ◌%◌, ◌^◌, ◌≤◌, ◌<◌, ◌≡◌, refl, sym, ap, subst, ◌∙◌, ◌≢◌, ◌↔◌,
  ◌⊎◌, inl, inr, ite, dite, if_pos, if_neg, Bool, true, false, not, ◌&&◌, ◌||◌, Option, none, some,
  List, [], ◌∷◌, ◌++◌, map, append-nil, append_assoc, arith, dec_lt, dec_le, ℕ_discrete, ltb, leb,
  ◌==◌, if◌then◌else◌, ==_iff, Bool-cases, Option-cases, is_some, compare_self, if-cases,
  match-cases, length, take, drop, all_of, length-append, all_of-append, All, Text, codes, text_dec,
  text_eq, has_prefix, rune_len, byte_len, Dict, lookup, insert, erase, has, keys, lookup-nil,
  lookup-insert, lookup-erase, lookup-insert_self, lookup-erase_self, ℤ, pos, negsuc, eqb_ℤ, ltb_ℤ,
  leb_ℤ, eqb_ℤ_iff,
}

-- The tunnel at `r` after its reader came to the end of the input: `publishCh` and the connection are
-- closed.
abbrev pub at_end : TunnelRef → World → World
at_end r w =
    store r (record (w.heap r) { publish_closed = true; conn = close_conn (w.heap r).conn }) w

pub reads-at_end :
    (env : Env) (r : TunnelRef) (w : World)
    → w.exit_code ≡ none
    → step w (env, reads r (ended [])) ≡ at_end r w
unfolding on_event read_round
reads-at_end env r w live = step-running env (reads r (ended [])) w live ∙ refl

-- The notice, unless the other side closed first.
abbrev pub close_notice : Env → TunnelRef → World → List Effect
close_notice env r w =
    if (w.heap r).closed_by_remote
    then []
    else publishes w.broker.control_topic 0
        (env.marshal (create_connection_closed w.broker.server_side (w.heap r)))
      ∷ []

-- What the last round of a tunnel's main loop does: it sends the notice and unsubscribes, signals to
-- its own main loop, and leaves all else.
pub record LastRound (env : Env) (r : TunnelRef) (w u : World) : Type 0 where
  pub sent : u.trace ≡ w.trace ++ (close_notice env r w ++ goodbye (w.heap r).server_pub_topic)
  pub same_maps : u.maps ≡ w.maps
  pub same_heap : u.heap ≡ w.heap
  pub same_mode : u.is_server_mode ≡ w.is_server_mode
  pub same_exit : u.exit_code ≡ w.exit_code
  pub done_ch : u.broker.tunnel_done_ch ≡ (
      if w.broker.server_side
      then w.broker.tunnel_done_ch
      else (safe_send 1 tt w.broker.tunnel_done_ch).0)
  pub closed_ch : u.broker.tunnel_closed_ch ≡ (
      if w.broker.server_side
      then (safe_send 10 (w.heap r).id w.broker.tunnel_closed_ch).0
      else w.broker.tunnel_closed_ch)

signalled-trace :
    (env : Env) (r : TunnelRef) (w : World)
    → (signal_closed r (notify_closed env r w)).trace ≡ w.trace ++ close_notice env r w
unfolding notify_closed signal_closed publish
signalled-trace env r w = elim (Bool-cases (w.heap r).closed_by_remote) [
  | inl e ↦ ground (arith, append-nil w.trace)
  | inr e ↦ ground arith
]

last_round :
    (env : Env) (r : TunnelRef) (w : World)
    → LastRound env r w (leave env r (signal_closed r (notify_closed env r w)))
unfolding notify_closed signal_closed publish
last_round env r w =
    let w0 : World = signal_closed r (notify_closed env r w) in
    let same : SameBut w0 (leave env r w0) =
      unsubscribe-SameBut env (w0.heap r).server_pub_topic w0 in
    let before : w0.heap ≡ w.heap = ground arith in
    record {
      sent =
          ap (λ (u : World). u.trace) (unsubscribe_lem env (w0.heap r).server_pub_topic w0)
          ∙ ap (λ (h : TunnelRef → Tunnel). w0.trace ++ goodbye (h r).server_pub_topic) before
          ∙ ap (λ (l : List Effect). l ++ goodbye (w.heap r).server_pub_topic)
              (signalled-trace env r w)
          ∙ append_assoc w.trace (close_notice env r w) (goodbye (w.heap r).server_pub_topic);
      same_maps = ap (λ (u : World). u.maps) same ∙ ground arith;
      same_heap = ap (λ (u : World). u.heap) same ∙ before;
      same_mode = ap (λ (u : World). u.is_server_mode) same ∙ ground arith;
      same_exit = ap (λ (u : World). u.exit_code) same ∙ ground arith;
      done_ch = ap (λ (u : World). u.broker.tunnel_done_ch) same ∙ ground arith;
      closed_ch = ap (λ (u : World). u.broker.tunnel_closed_ch) same ∙ ground arith;
    }

pub main_loop-LastRound :
    (env : Env) (r : TunnelRef) (w : World)
    → w.exit_code ≡ none
    → (w.heap r).publish_closed ≡ true
    → (w.heap r).publish_ch ≡ []
    → LastRound env r w (step w (env, main_loop r takes_closed))
unfolding on_event
main_loop-LastRound env r w live closed taken =
    subst (LastRound env r w)
      (sym (
        step-running env (main_loop r takes_closed) w live
        ∙ ap (λ (p : World × Bool). p.0) (takes_closed-drained env r w closed taken)))
      (last_round env r w)
