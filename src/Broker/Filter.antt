-- ===== src/Broker/Filter.antt =====
-- `controlPacketReceived` of tunnel/mqtt.go: which control packets reach the main loop. The maps are
-- pointers that are nil until `SetTunnelMaps`; a packet that reads them before that is a fault.
pub mod Laws
use mqtt_tunnel.Base.{Bool, true, false, ◌&&◌, ◌||◌, not, Option, none, some, has, if◌then◌else◌}
use mqtt_tunnel.Control.{
  ControlPacket, ControlType, connect_request, connect_ack, connect_confirm, failure,
  connection_closed, unknown, Origin, from_client, from_server, missing, other,
}
use mqtt_tunnel.World.{World, TunnelMaps, TunnelRef}

pub data Reason : Type 0 where
  invalid_type own_message unknown_tunnel origin_missing : Reason

pub data Verdict : Type 0 where
  deliver : Verdict
  drop : Reason → Verdict
  nil_maps : Verdict

abbrev pub is_confirm : ControlType → Bool
is_confirm connect_confirm = true
is_confirm _ = false

abbrev pub is_closed : ControlType → Bool
is_closed connection_closed = true
is_closed _ = false

abbrev pub is_failure : ControlType → Bool
is_failure failure = true
is_failure _ = false

abbrev pub server_accepts : ControlType → Bool
server_accepts connect_request = true
server_accepts connect_confirm = true
server_accepts connection_closed = true
server_accepts _ = false

abbrev pub client_accepts : ControlType → Bool
client_accepts connect_ack = true
client_accepts failure = true
client_accepts connection_closed = true
client_accepts _ = false

abbrev pub is_from_server : Origin → Bool
is_from_server from_server = true
is_from_server _ = false

abbrev pub is_from_client : Origin → Bool
is_from_client from_client = true
is_from_client _ = false

abbrev pub is_missing : Origin → Bool
is_missing missing = true
is_missing _ = false

-- The last check of both modes.
abbrev check_origin : ControlPacket → Verdict
check_origin p =
    if is_missing p.origin && not (is_failure p.type) then drop origin_missing else deliver

-- A request reads no map, so it passes while the maps are nil.
abbrev server_known : ControlPacket → Option TunnelMaps → Verdict
server_known p none = if is_confirm p.type || is_closed p.type then nil_maps else check_origin p
server_known p (some m) =
    if is_confirm p.type && not (has p.tunnel_id m.pending_confirms)
    then drop unknown_tunnel
    else if is_closed p.type
        && (not (has p.tunnel_id m.connected) && not (has p.tunnel_id m.pending_confirms))
    then drop unknown_tunnel
    else check_origin p

pub server_filter : ControlPacket → Option TunnelMaps → Verdict
server_filter p m =
    if not (server_accepts p.type)
    then drop invalid_type
    else if is_from_server p.origin
    then drop own_message
    else server_known p m

abbrev client_known : ControlPacket → Option TunnelMaps → Verdict
client_known p none = nil_maps
client_known p (some m) =
    if not (has p.tunnel_id m.connected || has p.tunnel_id m.ack_waiting)
    then drop unknown_tunnel
    else check_origin p

pub client_filter : ControlPacket → Option TunnelMaps → Verdict
client_filter p m =
    if not (client_accepts p.type)
    then drop invalid_type
    else if is_from_client p.origin
    then drop own_message
    else client_known p m

abbrev maps_of : World → Option TunnelMaps
maps_of w = if w.broker.maps_set then some w.maps else none

unfoldable pub control_filter : ControlPacket → World → Verdict
unfolding server_filter client_filter
control_filter p w =
    if w.broker.server_side then server_filter p (maps_of w) else client_filter p (maps_of w)
