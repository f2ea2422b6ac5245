-- ===== src/CommandLine/Address.antt =====
-- The shorthand for a server on the same machine.
use mqtt_tunnel.Base.{◌≡◌, ◌≢◌, some, ◌∷◌, All, Text, has_prefix}
use mqtt_tunnel.Std.HostPort.{split_host_port}
use mqtt_tunnel.Std.HostPort.Loopback.{loopback, split_host_port-loopback}
use mqtt_tunnel.CommandLine.{expand_server_addr}

-- A server address that is a colon and a port without further colons and brackets is expanded to an
-- address that a server can split: its host is 127.0.0.1, and its port is the given one.
pub split_host_port-expand_server_addr :
    (port : Text)
    → All (λ c. c ≢ b':') port
    → All (λ c. c ≢ b'[') port
    → All (λ c. c ≢ b']') port
    → split_host_port (expand_server_addr (b':' ∷ port)) ≡ some (loopback, port)
unfolding expand_server_addr has_prefix
split_host_port-expand_server_addr port a b c = split_host_port-loopback port a b c
