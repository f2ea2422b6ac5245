-- ===== src/CommandLine/Launch.antt =====
-- The rest of `main` of main.go: the log, `NewMQTunnel` of tunnel/mqtunnel.go, and the watcher of the
-- configuration file, up to the main loop.
pub mod Running
use mqtt_tunnel.Broker.Connect.{new_mqtt_broker}
use mqtt_tunnel.CommandLine.Keepalive.{Platform}
use mqtt_tunnel.CommandLine.Log.{LogHost, Target, fatal, setup_log}
use mqtt_tunnel.CommandLine.Start.{Args, Start, exit_code, exits, is_server, runs, start_up}
use mqtt_tunnel.Config.{Config, zero_config}
use mqtt_tunnel.Config.File.{Host}
use mqtt_tunnel.Reloader.{start, Reloader, Watching, new_config_reloader}
use mqtt_tunnel.System.{initial}
use mqtt_tunnel.World.{Broker, World}
use mqtt_tunnel.World.Effects.{Env}
use mqtt_tunnel.World.Monad.{Outcome, fail, ok}
use mqtt_tunnel.Base.{
  ℕ, zero, suc, ◌+◌, ◌-◌, ◌*◌, ◌/◌, ◌%◌, ◌^◌, ◌≤◌, ◌<◌, ◌≡◌, refl, sym, ap, subst, ◌∙◌, ◌≢◌, ◌↔◌,
  ◌⊎◌, inl, inr, ite, dite, if_pos, if_neg, Bool, true, false, not, ◌&&◌, ◌||◌, Option, none, some,
  List, [], ◌∷◌, ◌++◌, map, append-nil, append_assoc, arith, dec_lt, dec_le, ℕ_discrete, ltb, leb,
  ◌==◌, if◌then◌else◌, ==_iff, Bool-cases, Option-cases, is_some, compare_self, if-cases,
  match-cases, length, take, drop, all_of, length-append, all_of-append, All, Text, codes, text_dec,
  text_eq, has_prefix, rune_len, byte_len, Dict, lookup, insert, erase, has, keys, lookup-nil,
  lookup-insert, lookup-erase, lookup-insert_self, lookup-erase_self, ℤ, pos, negsuc, eqb_ℤ, ltb_ℤ,
  leb_ℤ, eqb_ℤ_iff,
}

-- The broker of a process before it is made: a nil pointer.
abbrev pub no_broker : Broker
no_broker = record {
  broker_conf = zero_config;
  control_topic = [];
  tunnel_topics = [];
  server_side = false;
  maps_set = false;
  tunnel_done_ch = [];
  tunnel_closed_ch = [];
  ping = record {
    ping_topic = [];
    last_activity_time = 0;
    ping_pending = false;
    ping_timer = none;
    ping_timeout_timer = none;
  };
}

abbrev pub with_made_broker : Config → Bool → Outcome Broker → Option World
with_made_broker c is_server (fail e w) = none
with_made_broker c is_server (ok b w) = some (record (initial c is_server b) { trace = w.trace })

-- `NewMQTunnel`; `none` is an error.
unfoldable pub new_mq_tunnel : Env → Config → Bool → Option World
unfolding new_mqtt_broker initial
new_mq_tunnel env c is_server =
    with_made_broker c is_server (new_mqtt_broker env c is_server (initial c is_server no_broker))

-- `main` exits with a code, or its main loop runs, with a watcher of the configuration file or
-- without.
pub data Launched : Type 0 where
  exited : ℕ → Launched
  running_with : World → Option Reloader → Launched

-- A watcher that cannot be set up is logged only.
abbrev pub started_reloader : Option Reloader → Option Reloader
started_reloader none = none
started_reloader (some c) = some (start c)

abbrev pub reloader_of : Watching → Text → Bool → Option Reloader
reloader_of e path true = started_reloader (new_config_reloader e path 10)
reloader_of e path false = none

abbrev pub with_tunnel_of : Watching → Text → Bool → Option World → Launched
with_tunnel_of e path is_server none = exited 1
with_tunnel_of e path is_server (some w) = running_with w (reloader_of e path is_server)

abbrev pub with_log : Target → Launched → Launched
with_log fatal next = exited 1
with_log _ next = next

-- From the checked configuration on.
unfoldable pub launch : Env → LogHost → Watching → Start → Launched
unfolding new_mq_tunnel setup_log new_config_reloader
launch env l e (exits x) = exited (exit_code x)
launch env l e (runs path c is_server) =
    with_log (setup_log l c (not is_server)).target
      (with_tunnel_of e path is_server (new_mq_tunnel env c is_server))

-- `main` up to its main loop.
unfoldable pub main : Env → Host → LogHost → Watching → Platform → Args → Launched
unfolding launch start_up
main env h l e p a = launch env l e (start_up env h p a)
