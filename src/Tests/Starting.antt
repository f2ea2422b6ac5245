-- ===== src/Tests/Starting.antt =====
-- The start of the process and its log.
use mqtt_tunnel.Broker.Options.{Options, get_mqtt_options, no_options, options}
use mqtt_tunnel.Broker.Options.Laws.{Encrypted, get_mqtt_options-Encrypted}
use mqtt_tunnel.CommandLine.Start.Connecting.{start_up-get_mqtt_options}
use mqtt_tunnel.Config.Url.{BrokerInfo, info, parse_broker_url}
use mqtt_tunnel.World.Monad.{bad_certificate}
use mqtt_tunnel.Base.{
  ℕ, ◌≤◌, ◌<◌, ◌≡◌, refl, ◌↔◌, ◌⊎◌, true, false, some, List, [], ◌∷◌, ◌++◌, length, codes, text_dec,
  has_prefix, pos, ltb_ℤ,
}
use mqtt_tunnel.CommandLine.Keepalive.{default_platform, server_keepalive, termux}
use mqtt_tunnel.CommandLine.Log.{rotated}
use mqtt_tunnel.CommandLine.Log.Rotation.{rotated-split}
use mqtt_tunnel.CommandLine.Start.{
  Args, acquire_server_lock, effective_file, is_server, resolve_config_path, runs, start_up,
}
use mqtt_tunnel.CommandLine.Start.Accepted.{IsReady, start_up-runs}
use mqtt_tunnel.Config.{Config}
use mqtt_tunnel.Config.File.{lock_taken}
use mqtt_tunnel.Config.Url.{to_lower}
use mqtt_tunnel.Std.Decimal.{atoi}
use mqtt_tunnel.Tests.{friendly}
use mqtt_tunnel.Tests.Files.{a_host, host_config}

abbrev pub the_args : Args
the_args = record {
  config_file = [];
  config_file_full = codes "/etc/tunnel.json";
  generate = false;
}

abbrev pub started_config : Config
started_config = record host_config {
  server_addr = codes "127.0.0.1:22";
  connection_timeout = pos 15;
  mqtt_keepalive = pos 60;
}

pub server-starts :
    start_up friendly a_host default_platform the_args
    ≡ runs (codes "/etc/tunnel.json") started_config true
unfolding start_up text_dec has_prefix to_lower atoi
server-starts = refl

start_up-runs_example :
    (codes "/etc/tunnel.json" ≡ resolve_config_path a_host (effective_file the_args))
    × (true ≡ is_server started_config)
    × IsReady friendly started_config
    × ((true ≡ false) ⊎ (acquire_server_lock a_host (codes "/etc/tunnel.json") ≡ lock_taken))
start_up-runs_example =
    start_up-runs friendly a_host default_platform the_args (codes "/etc/tunnel.json")
      started_config true server-starts

start_up-get_mqtt_options_example :
    (get_mqtt_options friendly started_config (codes "mqtunnel") ≡ no_options bad_certificate)
    ⊎ ((o : Options) × (get_mqtt_options friendly started_config (codes "mqtunnel") ≡ options o)
        × ((k : ℕ) × (o.keep_alive ≡ pos k)
            × (1 ≤ k)
            × (k ≤ 3600)
            × ((ltb_ℤ (pos 0) started_config.manual_keepalive ≡ true) ↔ (k ≡ 3600))))
start_up-get_mqtt_options_example =
    start_up-get_mqtt_options friendly a_host default_platform the_args (codes "/etc/tunnel.json")
      started_config (codes "mqtunnel") server-starts

abbrev the_info : BrokerInfo
the_info = record { host = codes "broker.example"; port = pos 8884; tls = true; web_socket = false }

url-parsed : parse_broker_url friendly started_config.broker_url ≡ info the_info
unfolding parse_broker_url text_dec to_lower atoi
url-parsed = refl

get_mqtt_options-Encrypted_example :
    Encrypted friendly the_info (get_mqtt_options friendly started_config (codes "mqtunnel"))
get_mqtt_options-Encrypted_example =
    get_mqtt_options-Encrypted friendly started_config (codes "mqtunnel") the_info url-parsed

termux-keepalive : (server_keepalive termux host_config).manual_keepalive ≡ pos 60
unfolding server_keepalive
termux-keepalive = refl

log-rotated : rotated 4 (codes "ab\ncd\nef") ≡ some (codes "ef")
unfolding rotated
log-rotated = refl

rotated-split_example :
    (4 < length (codes "ab\ncd\nef"))
    × (length (codes "ef") < 4)
    × ((t : List ℕ) × (codes "ab\ncd\nef" ≡ t ++ (10 ∷ codes "ef")))
rotated-split_example = rotated-split 4 (codes "ab\ncd\nef") (codes "ef") log-rotated
