-- ===== src/Tests/Parting.antt =====
-- The two ends of a tunnel, of which the client's reader comes to the end of its input.
use mqtt_tunnel.CommandLine.Start.{is_server}
use mqtt_tunnel.World.{World, set_connected}
use mqtt_tunnel.Control.{ControlPacket}
use mqtt_tunnel.Tests.{busy_tunnel, friendly, holding, tunnel_id}
use mqtt_tunnel.Tunnel.Packets.{create_connection_closed}
use mqtt_tunnel.World.Effects.{Env}
use mqtt_tunnel.Base.{Bool, false, some, [], ◌∷◌}

-- Each side has the tunnel as connected, and has published what it read.
abbrev parted : Bool → World
parted is_server =
    set_connected ((tunnel_id, 0) ∷ []) (holding is_server (record busy_tunnel { publish_ch = [] }))

abbrev left_notice : ControlPacket
left_notice = create_connection_closed false busy_tunnel

-- A server that can read the notice.
abbrev reading_server : Env
reading_server = record friendly { unmarshal = λ bs. some left_notice }
