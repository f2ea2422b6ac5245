-- ===== src/Tests/Launching.antt =====
-- The whole of `main` up to its main loop.

use mqtt_tunnel.System.{takes_control, takes_reload}
use mqtt_tunnel.Base.{◌≡◌, refl, ap, ◌∙◌, true, false, none, some, [], ◌∷◌, codes, text_dec}
use mqtt_tunnel.Broker.Connect.{new_broker}
use mqtt_tunnel.CommandLine.Keepalive.{default_platform}
use mqtt_tunnel.CommandLine.Launch.{launch, main, running_with}
use mqtt_tunnel.CommandLine.Launch.Running.{Begins, main_lem}
use mqtt_tunnel.CommandLine.Log.{LogHost}
use mqtt_tunnel.CommandLine.Start.{effective_file, resolve_config_path, runs}
use mqtt_tunnel.Reloader.{Reloader, Watching}
use mqtt_tunnel.System.{initial}
use mqtt_tunnel.World.{Broker, World}
use mqtt_tunnel.World.Effects.{connects}
use mqtt_tunnel.Tests.{hostile, friendly}
use mqtt_tunnel.Config.Url.{to_lower}
use mqtt_tunnel.Std.Decimal.{atoi}
use mqtt_tunnel.Config.File.{expand_path}
use mqtt_tunnel.Control.Random.{generate_random_id}
use mqtt_tunnel.Tests.Files.{a_host}
use mqtt_tunnel.Tests.Starting.{the_args, started_config, server-starts}

abbrev a_log_host : LogHost
a_log_host = record {
  stat = λ file. none;
  read_file = λ file. none;
  open_append = λ file create. true;
  open_tty = false;
}

abbrev a_directory : Watching
a_directory = record {
  new_watcher = true;
  eval_symlinks = λ path. some (codes "/srv/tunnel.json");
  add_watch = λ path. true;
}

abbrev the_broker : Broker
the_broker = new_broker friendly started_config true []

abbrev the_world : World
the_world = record (initial started_config true the_broker) { trace = connects ∷ [] }

abbrev the_watcher : Reloader
the_watcher = record {
  config_path = codes "/srv/tunnel.json";
  original_path = codes "/etc/tunnel.json";
  debounce = 10;
  timer = none;
  watching = true;
  cancelled = false;
  watcher_closed = false;
}

server-launched :
    launch friendly a_log_host a_directory (runs (codes "/etc/tunnel.json") started_config true)
    ≡ running_with the_world (some the_watcher)
unfolding launch text_dec expand_path generate_random_id to_lower atoi
server-launched = refl

main-run :
    main friendly a_host a_log_host a_directory default_platform the_args
    ≡ running_with the_world (some the_watcher)
unfolding main
main-run = ap (launch friendly a_log_host a_directory) server-starts ∙ server-launched

main_lem_example :
    Begins friendly a_directory
      (resolve_config_path a_host (effective_file the_args))
      the_world
      (some the_watcher)
      ((friendly, takes_control) ∷ (hostile, takes_reload) ∷ [])
main_lem_example =
    main_lem friendly a_host a_log_host a_directory default_platform the_args the_world
      (some the_watcher) ((friendly, takes_control) ∷ (hostile, takes_reload) ∷ []) main-run
