-- ===== src/Tunnel/Packets.antt =====
-- The control packets that tunnel/tunnel.go creates.
use mqtt_tunnel.Base.{Bool, Text, if◌then◌else◌}
use mqtt_tunnel.Control.{
  ControlPacket, connect_request, connect_ack, connect_confirm, failure, connection_closed,
  from_client, from_server, protocol_version, zero_packet,
}
use mqtt_tunnel.World.{Tunnel}

abbrev pub create_connect_request : Tunnel → ControlPacket
create_connect_request t = record (zero_packet connect_request t.id from_client) {
  version = protocol_version;
  local_port = t.local_port;
  remote_port = t.remote_port;
}

-- The two topics change places: each side reads them as its own.
abbrev pub create_ack : Tunnel → ControlPacket
create_ack t = record (zero_packet connect_ack t.id from_server) {
  client_pub_topic = t.server_pub_topic;
  server_pub_topic = t.client_pub_topic;
}

abbrev pub create_connection_closed : Bool → Tunnel → ControlPacket
create_connection_closed is_server t =
    zero_packet connection_closed t.id (if is_server then from_server else from_client)

abbrev pub create_connect_confirm : Tunnel → ControlPacket
create_connect_confirm t = zero_packet connect_confirm t.id from_client

abbrev pub create_failure : Text → Text → ControlPacket
create_failure id reason = record (zero_packet failure id from_server) { reason = reason }
