-- ===== src/System/Lifecycle.antt =====
-- What a server or a client promises of each tunnel ID, as a small state machine: an ID is gone,
-- awaits the other side's answer, or is joined, and moves along four edges only.
pub mod Maps
pub mod Handlers
pub mod Server
pub mod Client
pub mod Refinement
use mqtt_tunnel.Base.{Bool, true, false, if◌then◌else◌, Text, Dict, has}
use mqtt_tunnel.World.{TunnelMaps, TunnelRef}

pub data Status : Type 0 where
  gone awaited joined : Status

-- The map of the tunnels that wait for an answer: for a confirm on the server, for an ack on the
-- client.
abbrev pub waiting : Bool → TunnelMaps → Dict TunnelRef
waiting true m = m.pending_confirms
waiting false m = m.ack_waiting

-- The status of an ID in the maps of a server or of a client.
abbrev pub status : Bool → TunnelMaps → Text → Status
status server m id =
    if has id (waiting server m) then awaited else if has id m.connected then joined else gone

pub data Move : Status → Status → Type 0 where
  stays : {s : Status} → Move s s
  -- the server accepts a request, the client sends one
  accepts : Move gone awaited
  -- its confirm comes and the target is reached, or its ack comes
  joins : Move awaited joined
  -- the answer does not come in time or is a failure, the target is not reached, or all tunnels
  -- are closed
  gives_up : Move awaited gone
  -- either side closes, or all tunnels are closed
  closes : Move joined gone

-- Each ID makes one move.
abbrev pub Moves : Bool → TunnelMaps → TunnelMaps → Type 0
Moves server m n = (id : Text) → Move (status server m id) (status server n id)
