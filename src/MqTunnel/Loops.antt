-- ===== src/MqTunnel/Loops.antt =====
-- The main loops `StartStdio` and `StartRemote` of tunnel/mqtunnel.go, one case of their `select` at a
-- time, and the goroutines that wait for connect_ack and connect_confirm.
use mqtt_tunnel.Base.{
  true, false, Option, none, some, List, [], ◌∷◌, if◌then◌else◌, Text, lookup, insert, erase, has,
  ℤ, pos,
}
use mqtt_tunnel.Config.{Config}
use mqtt_tunnel.Control.{ControlPacket}
use mqtt_tunnel.World.{
  close_conn, World, Broker, emit, store, cancel, exit, set_ack_waiting, set_pending_confirms,
  set_connected,
}
use mqtt_tunnel.World.Effects.{Env, disconnects, starts_ack_timer}
use mqtt_tunnel.World.Monad.{
  M, Outcome, ok, fail, ◌>>=◌, ◌>>◌, modify, wrap, final, Error, new_tunnel_from_connect,
  open_request_failed, failed_to_reconnect, broker_after_reload,
}
use mqtt_tunnel.Broker.{unsubscribe}
use mqtt_tunnel.Broker.Connect.{connect_with_retry, new_mqtt_broker}
use mqtt_tunnel.Tunnel.{new_tunnel_from_connect as make_tunnel, open_request}
use mqtt_tunnel.MqTunnel.{handle_control, close_all_tunnels}

-- What a case of the `select` does: its channel was not ready, the loop goes on, or it returns.
pub data Turn : Type 0 where
  not_ready : Turn
  continues : World → Turn
  stops : Option Error → World → Turn

-- `case ctl := <-controlCh`: an error is logged, and the loop goes on.
abbrev pub take_control : Env → List ControlPacket → World → Turn
take_control env [] w = not_ready
take_control env (p ∷ ps) w =
    continues (final (handle_control env p (record w { control_ch = ps })))

unfoldable pub control_turn : Env → World → Turn
control_turn env w = take_control env w.control_ch w

abbrev pub stop_on_error : Outcome (Unit {0}) → Turn
stop_on_error (ok a w) = continues w
stop_on_error (fail e w) = stops (some e) w

-- The client's one tunnel: create it, send the request, and wait for the ack.
unfoldable pub open_tunnel : Env → ℤ → M (Unit {0})
unfolding make_tunnel open_request
open_tunnel env remote_port = do
  r ← wrap new_tunnel_from_connect (make_tunnel env (pos 0) remote_port)
  wrap open_request_failed (open_request env r)
  modify (λ w. set_ack_waiting (insert (w.heap r).id r w.ack_waiting) w)
  modify (λ w. emit (starts_ack_timer (w.heap r).id) w)

abbrev pub take_local : Env → ℤ → List (Unit {0}) → World → Turn
take_local env remote_port [] w = not_ready
take_local env remote_port (c ∷ cs) w =
    stop_on_error (open_tunnel env remote_port (record w { local_ch = cs }))

-- `case <-mqt.localCh`
unfoldable pub local_turn : Env → ℤ → World → Turn
unfolding open_tunnel
local_turn env remote_port w = take_local env remote_port w.local_ch w

abbrev pub take_done : List (Unit {0}) → World → Turn
take_done [] w = not_ready
take_done (c ∷ cs) w =
    stops none (emit disconnects (record w { broker = record w.broker { tunnel_done_ch = cs } }))

-- `case <-mqt.mqttBroker.tunnelDoneCh`, on the client
unfoldable pub done_turn : World → Turn
done_turn w = take_done w.broker.tunnel_done_ch w

-- The goroutine that waits for connect_ack, when its timer fires.
unfoldable pub ack_timeout : Text → World → World
ack_timeout id w = elim (lookup id w.ack_waiting) [
  | none ↦ w
  | some r ↦ exit 1 (
      set_ack_waiting (erase id w.ack_waiting)
        (store r (record (w.heap r) { cancelled = true; conn = close_conn (w.heap r).conn }) w))
]

-- The goroutine that waits for connect_confirm, when its timer fires.
unfoldable pub confirm_timeout : Env → Text → World → World
confirm_timeout env id w = elim (lookup id w.pending_confirms) [
  | none ↦ w
  | some r ↦
      let w' = final (unsubscribe env (w.heap r).server_pub_topic (cancel r w)) in
      set_pending_confirms (erase id w'.pending_confirms) w'
]

abbrev pub reconnected : Option Error → World → Turn
reconnected none w = continues w
reconnected (some e) w = stops (some (failed_to_reconnect e)) w

-- `case <-ReconnectCh()`, on the server: close all tunnels, then connect anew.
unfoldable pub reconnect_turn : Env → World → Turn
unfolding connect_with_retry
reconnect_turn env w =
    if w.reconnect_wanted
    then reconnected (connect_with_retry env).failure
        (close_all_tunnels env (record w { reconnect_wanted = false }))
    else not_ready

abbrev pub take_closed_id : List Text → World → Turn
take_closed_id [] w = not_ready
take_closed_id (id ∷ ids) w =
    let w' = record w { broker = record w.broker { tunnel_closed_ch = ids } } in
    continues (if has id w'.connected then set_connected (erase id w'.connected) w' else w')

-- `case tunnelID := <-tunnelClosedCh`, on the server
unfoldable pub tunnel_closed_turn : World → Turn
tunnel_closed_turn w = take_closed_id w.broker.tunnel_closed_ch w

abbrev pub install : Outcome Broker → Turn
install (ok b w) = continues (record w { broker = record b { maps_set = true } })
install (fail e w) = stops (some (broker_after_reload e)) w

abbrev pub take_reload : Env → List Config → World → Turn
take_reload env [] w = not_ready
take_reload env (c ∷ cs) w =
    let closed = close_all_tunnels env (record w { reload_ch = cs }) in
    let w' = emit disconnects (record closed { conf = c }) in
    install (new_mqtt_broker env c w'.is_server_mode w')

-- `case newConf := <-mqt.reloadCh`, on the server: everything is closed, and a new broker object with
-- the new configuration takes the place of the old one.
unfoldable pub reload_turn : Env → World → Turn
reload_turn env w = take_reload env w.reload_ch w
