-- ===== src/CommandLine/Reload.antt =====
-- The reload function that `main` gives to the watcher of the configuration file.
pub mod Fatal
use mqtt_tunnel.Base.{Option, none, some, [], if◌then◌else◌, Text, text_eq}
use mqtt_tunnel.Config.{Config}
use mqtt_tunnel.Config.Topic.{validate_topic}
use mqtt_tunnel.Config.File.{Host, Loaded, loaded, not_loaded, read_config}
use mqtt_tunnel.World.Effects.{Env}
use mqtt_tunnel.CommandLine.Keepalive.{Platform, with_timeout, reload_keepalive}
use mqtt_tunnel.CommandLine.Start.{with_server_addr}

-- The configuration that goes to `ReloadConfig`; `none`: an error is logged, and nothing changes.
unfoldable pub accept_reload : Env → Config → Option Config
unfolding validate_topic
accept_reload env c =
    if text_eq c.broker_url []
    then none
    else if text_eq c.topic []
    then none
    else elim (validate_topic env c.topic) [ none ↦ some c | some e ↦ none ]

abbrev pub reload_loaded : Env → Platform → Loaded → Option Config
reload_loaded env p (not_loaded e ws) = none
reload_loaded env p (loaded c ws) =
    accept_reload env (reload_keepalive p (with_timeout (with_server_addr c)))

unfoldable pub reload : Env → Host → Platform → Text → Option Config
unfolding accept_reload reload_keepalive with_timeout read_config
reload env h p path = reload_loaded env p (read_config h path)
