-- ===== src/System/Closing/Sides.antt =====
-- How one side ends a tunnel: by itself, when its reader comes to the end of the input, and behind the
-- other side's notice.

use mqtt_tunnel.System.Arrival.{step-running}
use mqtt_tunnel.Broker.Unsubscribing.{goodbye}
use mqtt_tunnel.MqTunnel.Closing.{close_conn-ne-open_conn}
use mqtt_tunnel.System.Closing.{ended, close_notice, reads-at_end}
use mqtt_tunnel.Tunnel.Packets.{create_connection_closed}
use mqtt_tunnel.World.{Tunnel}
use mqtt_tunnel.World.Effects.{publishes}
use mqtt_tunnel.System.{main_loop, reads, run}
use mqtt_tunnel.System.Closing.{close_notice, LastRound, at_end, main_loop-LastRound, reads-at_end}
use mqtt_tunnel.Tunnel.Io.{takes_closed}
use mqtt_tunnel.World.{close_conn}
use mqtt_tunnel.MqTunnel.Loops.{done_turn, tunnel_closed_turn}
use mqtt_tunnel.System.{on_event}
use mqtt_tunnel.System.Closing.{step-running}
use mqtt_tunnel.World.{emit, set_connected}
use mqtt_tunnel.Channel.{safe_send}
use mqtt_tunnel.System.{Event, step, takes_done, takes_tunnel_closed}
use mqtt_tunnel.World.{TunnelRef, World, open_conn}
use mqtt_tunnel.World.Effects.{Effect, Env, disconnects}
use mqtt_tunnel.Base.{
  ◌≡◌, refl, sym, ap, subst, ◌∙◌, ◌≢◌, Bool, true, false, none, some, List, [], ◌∷◌, ◌++◌,
  append-nil, arith, if◌then◌else◌, Text, lookup, erase, has, lookup-erase_self,
}

-- The turn of the main loop in which a client ends, and a server forgets the tunnel.
abbrev pub last_turn : Bool → Event
last_turn true = takes_tunnel_closed
last_turn false = takes_done

-- What is left of a tunnel: its connection is not open; a client ended with success, and a server runs
-- on without it.
pub record Over (id : Text) (r : TunnelRef) (server : Bool) (w : World) : Type 0 where
  pub closed : (w.heap r).conn ≢ open_conn
  pub client_exit : server ≡ false → w.exit_code ≡ some 0
  pub server_runs : server ≡ true → w.exit_code ≡ none
  pub server_forgot : server ≡ true → lookup id w.connected ≡ none

-- What a client does at its end
abbrev pub hangs_up : Bool → List Effect
hangs_up true = []
hangs_up false = disconnects ∷ []

pub safe_send-one :
    (ch : List (Unit {0})) → (rest : List (Unit {0})) × ((safe_send 1 tt ch).0 ≡ tt ∷ rest)
unfolding safe_send
safe_send-one [] = ([], refl)
safe_send-one (c ∷ cs) = (cs, ground arith)

module _ (env : Env) (id : Text) (r : TunnelRef) (w : World) where
  -- The server without the tunnel
  abbrev without : World
  without =
      let w' = record w { broker = record w.broker { tunnel_closed_ch = [] } } in
      if has id w'.connected then set_connected (erase id w'.connected) w' else w'

  forgets :
      w.is_server_mode ≡ true
      → w.exit_code ≡ none
      → w.broker.tunnel_closed_ch ≡ id ∷ []
      → step w (env, takes_tunnel_closed) ≡ without
  unfolding on_event tunnel_closed_turn
  forgets m live q =
      step-running env takes_tunnel_closed w live
      ∙ rw (m, on_event) (rw (q, tunnel_closed_turn) refl)

  without-Over :
      w.exit_code ≡ none
      → (w.heap r).conn ≢ open_conn
      → Over id r true without × (without.trace ≡ w.trace ++ [])
  without-Over live shut = (
    record {
      closed = λ e. shut (ground arith);
      client_exit = λ e. absurd (ground arith);
      server_runs = λ _. ground arith;
      server_forgot = λ _. ground (arith, lookup-erase_self id w.connected);
    },
    ground (arith, append-nil w.trace),
  )

  -- The client after its last turn
  abbrev ended_client : List (Unit {0}) → World
  ended_client rest =
      record (emit disconnects (record w { broker = record w.broker { tunnel_done_ch = rest } })) {
        exit_code = some 0;
      }

  stops_with :
      (rest : List (Unit {0}))
      → w.is_server_mode ≡ false
      → w.exit_code ≡ none
      → w.broker.tunnel_done_ch ≡ tt ∷ rest
      → step w (env, takes_done) ≡ ended_client rest
  unfolding on_event done_turn
  stops_with rest m live q =
      step-running env takes_done w live ∙ rw (m, on_event) (rw (q, done_turn) refl)

-- The last turn, behind the tunnel's signal to the main loop.
pub turn-Over :
    (env : Env) (id : Text) (r : TunnelRef) (server : Bool) (w : World)
    → w.is_server_mode ≡ server
    → w.exit_code ≡ none
    → (w.heap r).conn ≢ open_conn
    → (server ≡ true → w.broker.tunnel_closed_ch ≡ id ∷ [])
    → (server ≡ false → (rest : List (Unit {0})) × (w.broker.tunnel_done_ch ≡ tt ∷ rest))
    → let u = step w (env, last_turn server) in
      Over id r server u × (u.trace ≡ w.trace ++ hangs_up server)
turn-Over env id r true w m live shut q d =
    subst (λ (u : World). Over id r true u × (u.trace ≡ w.trace ++ []))
      (sym (forgets env id r w m live (q refl))) (without-Over env id r w live shut)
turn-Over env id r false w m live shut q d =
    let (rest, e) = d refl in
    subst (λ (u : World). Over id r false u × (u.trace ≡ w.trace ++ (disconnects ∷ [])))
      (sym (stops_with env id r w rest m live e))
      (
        record {
          closed = shut;
          client_exit = λ _. refl;
          server_runs = λ e. absurd (ground arith);
          server_forgot = λ e. absurd (ground arith);
        },
        refl,
      )

-- A process whose tunnel at `r` can end: no other closed tunnel waits for a server's main loop, and
-- all that was read has been published.
pub record CanLeave (id : Text) (r : TunnelRef) (server : Bool) (w : World) : Type 0 where
  pub running : w.exit_code ≡ none
  pub mode : w.is_server_mode ≡ server
  pub side : w.broker.server_side ≡ server
  pub named : (w.heap r).id ≡ id
  pub no_closed : w.broker.tunnel_closed_ch ≡ []
  pub published : (w.heap r).publish_ch ≡ []

-- The steps of a side whose reader comes to the end of the input.
abbrev pub leaving : Env → TunnelRef → Bool → List (Env × Event)
leaving env r server =
    (env, reads r (ended [])) ∷ (env, main_loop r takes_closed) ∷ (env, last_turn server) ∷ []

module _ (env : Env) (id : Text) (r : TunnelRef) (server : Bool) (w : World)
    (can : CanLeave id r server w) (u : World) (last : LastRound env r (at_end r w) u) where
  here :
      (at_end r w).heap r
      ≡ record (w.heap r) { publish_closed = true; conn = close_conn (w.heap r).conn }
  here = ground arith

  shut : (u.heap r).conn ≢ open_conn
  shut e =
      let to_w = ap (λ (h : TunnelRef → Tunnel). (h r).conn) last.same_heap in
      close_conn-ne-open_conn (w.heap r).conn (sym (to_w ∙ ap (λ (t : Tunnel). t.conn) here) ∙ e)

  signals_closed : server ≡ true → u.broker.tunnel_closed_ch ≡ id ∷ []
  unfolding safe_send
  signals_closed s = last.closed_ch ∙ ground (arith, can.side, can.no_closed, can.named)

  signals_done : server ≡ false → (rest : List (Unit {0})) × (u.broker.tunnel_done_ch ≡ tt ∷ rest)
  signals_done s =
      let (rest, e) = safe_send-one w.broker.tunnel_done_ch in
      (rest, last.done_ch ∙ rw (can.side ∙ s) e)

  -- What the last round sends, as a function of the tunnel
  abbrev said : Tunnel → List Effect
  said t =
      (if t.closed_by_remote
        then []
        else publishes w.broker.control_topic 0
            (env.marshal (create_connection_closed w.broker.server_side t))
          ∷ [])
      ++ goodbye t.server_pub_topic

  says : u.trace ≡ w.trace ++ (close_notice env r w ++ goodbye (w.heap r).server_pub_topic)
  says = last.sent ∙ ap (λ (t : Tunnel). w.trace ++ said t) here

-- A side whose reader comes to the end of the input ends the tunnel: it sends the notice, unless the
-- other side closed first, unsubscribes from the tunnel's topic, and a client hangs up.
pub leaving-Over :
    (env : Env) (id : Text) (r : TunnelRef) (server : Bool) (w : World)
    → CanLeave id r server w
    → let u = run w (leaving env r server) in
      Over id r server u
      × (u.trace
          ≡ (w.trace ++ (close_notice env r w ++ goodbye (w.heap r).server_pub_topic))
            ++ hangs_up server)
unfolding run
leaving-Over env id r server w can =
    let u : World = step (at_end r w) (env, main_loop r takes_closed) in
    let last : LastRound env r (at_end r w) u =
      main_loop-LastRound env r (at_end r w) can.running (ground arith)
        (ground (arith, can.published)) in
    let (over, t) =
      turn-Over env id r server u (last.same_mode ∙ can.mode) (last.same_exit ∙ can.running)
        (shut env id r server w can u last) (signals_closed env id r server w can u last)
        (signals_done env id r server w can u last) in
    let steps : run w (leaving env r server) ≡ step u (env, last_turn server) =
      ap (λ (x : World). step (step x (env, main_loop r takes_closed)) (env, last_turn server))
        (reads-at_end env r w can.running) in
    subst
      (λ (x : World).
        Over id r server x
        × (x.trace
            ≡ (w.trace ++ (close_notice env r w ++ goodbye (w.heap r).server_pub_topic))
              ++ hangs_up server))
      (sym steps)
      (over, t ∙ ap (λ (l : List Effect). l ++ hangs_up server) (says env id r server w can u last))
