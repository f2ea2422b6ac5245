-- ===== src/MqTunnel/Races/Late.antt =====
-- An ack that is handled while the timeout's goroutine is between its two critical sections.
use mqtt_tunnel.MqTunnel.Closing.{close_conn-ne-open_conn}
use mqtt_tunnel.MqTunnel.Closing.{close_conn-ne-open_conn}
use mqtt_tunnel.World.{World}
