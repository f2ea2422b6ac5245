-- ===== src/Tests/Reloading.antt =====
-- The reload of the configuration, and the life of a tunnel.
use mqtt_tunnel.System.{ack_timer_fires, takes_local}
use mqtt_tunnel.Config.Topic.{contains_double_slash, validate_topic}
use mqtt_tunnel.Base.{
  ℕ, ◌+◌, ◌≤◌, ◌≡◌, refl, ◌↔◌, true, false, none, some, List, [], ◌∷◌, arith, codes, text_dec,
  has_prefix,
}
use mqtt_tunnel.CommandLine.Keepalive.{default_platform}
use mqtt_tunnel.CommandLine.Reload.{reload}
use mqtt_tunnel.CommandLine.Reload.Fatal.{reload-rejected}
use mqtt_tunnel.Config.{Config}
use mqtt_tunnel.Config.Commas.{missing_comma}
use mqtt_tunnel.Config.Url.{parse_broker_url, rejected}
use mqtt_tunnel.Reloader.{
  stops, Happening, Notice, Reloader, Run, Step, begun, goes, is_change, notice, notified,
  on_notice, reloads, start, wait, waits,
}
use mqtt_tunnel.Reloader.Debounce.{LastChange, Run-reloads}
use mqtt_tunnel.Reloader.Path.{base}
use mqtt_tunnel.Reloader.Stopping.{stop-reloads}
use mqtt_tunnel.System.{Event, config_changed, initial, run, step, takes_control, takes_reload}
use mqtt_tunnel.System.Lifecycle.{Moves}
use mqtt_tunnel.System.Lifecycle.Refinement.{step-Moves}
use mqtt_tunnel.World.Effects.{Env}
use mqtt_tunnel.Config.Url.{invalid_url}
use mqtt_tunnel.Reloader.{stops}
use mqtt_tunnel.Tests.{friendly, hostile, a_server, test_config, test_broker}
use mqtt_tunnel.Tests.Files.{a_host, host_config, host-reads}

-- An environment in which no URL parses.
abbrev no_url : Env
no_url = record friendly { parse_url = λ s. none }

host-rejected : parse_broker_url no_url host_config.broker_url ≡ rejected invalid_url
unfolding parse_broker_url text_dec
host-rejected = refl

valid-topic : validate_topic no_url host_config.topic ≡ none
unfolding validate_topic contains_double_slash text_dec has_prefix
valid-topic = refl

reload-rejected_example :
    (c : Config) × (reload no_url a_host default_platform (codes "/etc/tunnel.json") ≡ some c)
    × ((run a_server ((no_url, config_changed c) ∷ (no_url, takes_reload) ∷ [])).exit_code ≡ some 1)
unfolding initial
reload-rejected_example =
    reload-rejected no_url a_host default_platform (codes "/etc/tunnel.json") host_config
      (missing_comma 3 ∷ []) invalid_url a_server host-reads host-rejected (λ e. ground arith)
      (λ e. ground arith) valid-topic refl refl refl

abbrev a_reloader : Reloader
a_reloader = record {
  config_path = codes "/etc/tunnel.json";
  original_path = codes "/etc/tunnel.json";
  debounce = 10;
  timer = none;
  watching = false;
  cancelled = false;
  watcher_closed = false;
}

abbrev written : Notice
written = record { name = codes "/etc/tunnel.json"; is_write = true; is_create = false }

-- The file changes at 0 and at 4, and time goes by until 14.
abbrev twice : List (ℕ × Happening)
twice = (4, waits 10) ∷ (4, notified written) ∷ (0, waits 4) ∷ (0, notified written) ∷ []

abbrev watched : Reloader
watched = record (start a_reloader) { timer = some 14 }

two-changes : Run a_reloader 14 watched twice
unfolding on_notice base text_dec
two-changes =
    goes (goes (goes (goes begun (notice written refl)) (wait 4)) (notice written refl)) (wait 10)

Run-reloads_example :
    ((d : Reloader) × Step 14 watched reloads 14 d)
    ↔ ((t : ℕ) × (t + 10 ≤ 14) × LastChange a_reloader t twice)
Run-reloads_example = Run-reloads refl two-changes

written-is_change : is_change a_reloader written ≡ true
unfolding is_change base text_dec
written-is_change = refl

stop-reloads_example :
    (d : Reloader) × Run a_reloader 10 d
      ((10, reloads) ∷ (0, waits 10) ∷ (0, notified written) ∷ (0, stops) ∷ [])
    × (d.cancelled ≡ true)
stop-reloads_example = stop-reloads a_reloader written written-is_change

abbrev events : List (Env × Event)
events = (friendly, takes_local) ∷ (friendly, takes_control) ∷ []

step-Moves_example :
    let w = run (initial test_config false (test_broker false)) events in
    Moves false w.maps (step w (hostile, ack_timer_fires (codes "abcdef"))).maps
step-Moves_example =
    step-Moves test_config false (test_broker false) events
      (hostile, ack_timer_fires (codes "abcdef"))
