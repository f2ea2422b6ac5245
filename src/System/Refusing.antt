-- ===== src/System/Refusing.antt =====
-- A request that the server refuses, on both sides: the server's answer, and what the client makes of
-- it.

use mqtt_tunnel.World.{set_ack_waiting}
use mqtt_tunnel.World.Effects.{Effect}
use mqtt_tunnel.MqTunnel.Handshake.{with_tunnel}
use mqtt_tunnel.Control.{ControlPacket, failure_reason_id_in_use, failure_reason_invalid_id}
use mqtt_tunnel.MqTunnel.Loops.{open_tunnel}
use mqtt_tunnel.MqTunnel.Refusals.{refusal}
use mqtt_tunnel.System.{run}
use mqtt_tunnel.System.Arrival.{arrival}
use mqtt_tunnel.Tunnel.{client_tunnel}
use mqtt_tunnel.Tunnel.Packets.{create_connect_request, create_failure}
use mqtt_tunnel.World.{World}
use mqtt_tunnel.World.Effects.{Env, accepted}
use mqtt_tunnel.World.Monad.{final}
use mqtt_tunnel.Base.{
  ◌≡◌, Bool, true, false, ◌||◌, none, some, List, [], if◌then◌else◌, Text, text_eq, lookup, insert,
  ℤ,
}

-- The reasons at which a client gives up at once
abbrev pub is_fatal : Text → Bool
is_fatal why = text_eq why failure_reason_invalid_id || text_eq why failure_reason_id_in_use

abbrev pub request : Env → ℤ → ControlPacket
request env z = create_connect_request (client_tunnel env z)

abbrev pub the_answer : Env → ℤ → Text → ControlPacket
the_answer env z why = create_failure (client_tunnel env z).id why

-- The client behind its request
abbrev pub asking : Env → ℤ → World → World
asking env z c = final (open_tunnel env z c)

module _ (requesting refusing reading : Env) (z : ℤ) (c s : World) (why : Text) where
  -- A client that can send its request and read the answer, and a server that has a reason to refuse it
  pub record Refused : Type 0 where
    pub client_mode : c.is_server_mode ≡ false
    pub client_side : c.broker.server_side ≡ false
    pub set : c.broker.maps_set ≡ true
    pub live : c.exit_code ≡ none
    pub no_packets : c.control_ch ≡ []
    pub sent : requesting.publish_reply ≡ accepted
    pub server_mode : s.is_server_mode ≡ true
    pub refused : refusal refusing s (request requesting z) ≡ some why
    pub readable :
        reading.unmarshal (refusing.marshal (the_answer requesting z why))
        ≡ some (the_answer requesting z why)

  -- The client's world behind its request, and what becomes of it when the answer comes
  abbrev asked : List Effect → World
  asked log =
      let t = client_tunnel requesting z in
      record (set_ack_waiting (insert t.id c.next_ref c.ack_waiting) (with_tunnel c t)) {
        trace = log;
      }

  abbrev GivesUp : World → Type 0
  GivesUp w =
      let c' = run w (arrival reading (refusing.marshal (the_answer requesting z why)) w) in
      (lookup (the_answer requesting z why).tunnel_id c'.ack_waiting ≡ none)
      × (c'.exit_code ≡ (if is_fatal why then some 1 else none))
