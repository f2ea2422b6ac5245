-- ===== src/CommandLine/Launch/Running.antt =====
-- In what state the main loop begins.

use mqtt_tunnel.CommandLine.Launch.{started_reloader}
use mqtt_tunnel.Broker.Connect.{new_mqtt_broker}
use mqtt_tunnel.CommandLine.Keepalive.{Platform}
use mqtt_tunnel.CommandLine.Launch.{
  with_made_broker, start, Launched, exited, launch, main, new_mq_tunnel, no_broker, reloader_of,
  running_with, with_log, with_tunnel_of,
}
use mqtt_tunnel.CommandLine.Log.{
  LogHost, Target, appends_to, discards, fatal, setup_log, to_stderr, to_tty,
}
use mqtt_tunnel.CommandLine.Start.{
  Args, Start, effective_file, exits, is_server, resolve_config_path, runs, start_up,
}
use mqtt_tunnel.CommandLine.Start.Accepted.{IsReady, start_up-runs}
use mqtt_tunnel.Config.{Config}
use mqtt_tunnel.Config.File.{Host}
use mqtt_tunnel.Reloader.{Reloader, Watching, new_config_reloader, real_path}
use mqtt_tunnel.System.{Event, initial, run}
use mqtt_tunnel.System.Invariant.{IsConsistent}
use mqtt_tunnel.System.Invariant.Runs.{initial-IsConsistent, run-IsConsistent}
use mqtt_tunnel.World.{Broker, World}
use mqtt_tunnel.World.Effects.{Env}
use mqtt_tunnel.World.Monad.{Outcome, fail, ok}
use mqtt_tunnel.Base.{
  ◌≡◌, refl, subst, Bool, true, false, not, Option, none, some, List, arith, Text,
}

-- The watcher of a path, before its first step.
abbrev pub Watches : Watching → Text → Reloader → Type 0
Watches e path d =
    (c : Reloader) × (d ≡ start c)
    × (c.timer ≡ none)
    × (c.debounce ≡ 10)
    × (c.config_path ≡ real_path e path)

new_config_reloader-Watches :
    (e : Watching) (path : Text) (c : Reloader)
    → new_config_reloader e path 10 ≡ some c
    → (c.timer ≡ none) × (c.debounce ≡ 10) × (c.config_path ≡ real_path e path)
unfolding new_config_reloader
new_config_reloader-Watches e path c h = ground arith

-- A watcher, if there is one, is a server's.
abbrev pub Watched : Watching → Text → Bool → Option Reloader → Type 0
Watched e path is_server none = Unit
Watched e path is_server (some d) = (is_server ≡ true) × Watches e path d

reloader_of-Watched :
    (e : Watching) (path : Text) (is_server : Bool)
    → Watched e path is_server (reloader_of e path is_server)
reloader_of-Watched e path false = tt
reloader_of-Watched e path true = started (new_config_reloader e path 10) refl
  where
    started :
        (o : Option Reloader)
        → new_config_reloader e path 10 ≡ o
        → Watched e path true (started_reloader o)
    started none m = tt
    started (some c) m =
        let (z, ten, real) = new_config_reloader-Watches e path c m in
        (refl, (c, refl, z, ten, real))

-- What the main loop begins with.
abbrev pub Begins : Env → Watching → Text → World → Option Reloader → List (Env × Event) → Type 0
Begins env e path w watcher es =
    IsReady env w.conf
    × (w.is_server_mode ≡ is_server w.conf)
    × (w.exit_code ≡ none)
    × IsConsistent (run w es)
    × Watched e path w.is_server_mode watcher

abbrev BeginsIf : Env → Watching → Text → List (Env × Event) → Launched → Type 0
BeginsIf env e path es (exited n) = Unit
BeginsIf env e path es (running_with w watcher) = Begins env e path w watcher es

with_made_broker-BeginsIf :
    (env : Env) (e : Watching) (path : Text) (es : List (Env × Event)) (c : Config) (s : Bool)
    (o : Outcome Broker)
    → IsReady env c
    → s ≡ is_server c
    → BeginsIf env e path es (with_tunnel_of e path s (with_made_broker c s o))
unfolding initial
with_made_broker-BeginsIf env e path es c s (fail x w) r m = tt
with_made_broker-BeginsIf env e path es c s (ok b w) r m =
    let u : World = record (initial c s b) { trace = w.trace } in
    (r, m, refl, run-IsConsistent u es (initial-IsConsistent c s b), reloader_of-Watched e path s)

with_log-BeginsIf :
    (env : Env) (e : Watching) (path : Text) (es : List (Env × Event)) (t : Target) (n : Launched)
    → BeginsIf env e path es n
    → BeginsIf env e path es (with_log t n)
with_log-BeginsIf env e path es fatal n b = tt
with_log-BeginsIf env e path es discards n b = b
with_log-BeginsIf env e path es to_tty n b = b
with_log-BeginsIf env e path es to_stderr n b = b
with_log-BeginsIf env e path es (appends_to f) n b = b

launch-BeginsIf :
    (env : Env) (h : Host) (l : LogHost) (e : Watching) (p : Platform) (a : Args)
    (es : List (Env × Event)) (st : Start)
    → start_up env h p a ≡ st
    → BeginsIf env e (resolve_config_path h (effective_file a)) es (launch env l e st)
unfolding launch new_mq_tunnel
launch-BeginsIf env h l e p a es (exits x) u = tt
launch-BeginsIf env h l e p a es (runs path c s) u =
    let (q, m, r, k) = start_up-runs env h p a path c s u in
    subst (λ (x : Text). BeginsIf env e x es (launch env l e (runs path c s))) q
      (with_log-BeginsIf env e path es (setup_log l c (not s)).target
        (with_tunnel_of e path s (new_mq_tunnel env c s))
        (with_made_broker-BeginsIf env e path es c s
          (new_mqtt_broker env c s (initial c s no_broker)) r m))

-- If the main loop begins, then with a configuration that passed every check, in the mode that it
-- asks for, on a server with one keepalive on whatever the file says, and every run from there keeps the state consistent; a watcher runs on a server only,
-- with ten seconds to wait, no reload due, and the real path of the configuration file.
pub main_lem :
    (env : Env) (h : Host) (l : LogHost) (e : Watching) (p : Platform) (a : Args) (w : World)
    (watcher : Option Reloader) (es : List (Env × Event))
    → main env h l e p a ≡ running_with w watcher
    → Begins env e (resolve_config_path h (effective_file a)) w watcher es
unfolding main
main_lem env h l e p a w watcher es x =
    subst (BeginsIf env e (resolve_config_path h (effective_file a)) es) x
      (launch-BeginsIf env h l e p a es (start_up env h p a) refl)
