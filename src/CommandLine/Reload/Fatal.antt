-- ===== src/CommandLine/Reload/Fatal.antt =====
-- A reload that `main` lets pass and that ends the server.
use mqtt_tunnel.Base.{
  ◌≡◌, refl, ap, ◌∙◌, ◌≢◌, Bool, true, none, some, List, [], ◌∷◌, arith, match-cases, Text, pos,
}
use mqtt_tunnel.Channel.{send}
use mqtt_tunnel.Config.{Config}
use mqtt_tunnel.Config.Url.{UrlError, rejected, parse_broker_url}
use mqtt_tunnel.Config.Topic.{validate_topic}
use mqtt_tunnel.Config.Commas.{Warning}
use mqtt_tunnel.Config.File.{Host, loaded, read_config}
use mqtt_tunnel.Control.Random.{generate_random_id}
use mqtt_tunnel.World.{World, Broker}
use mqtt_tunnel.World.Effects.{Env}
use mqtt_tunnel.World.Monad.{Outcome, fail, Error}
use mqtt_tunnel.Broker.Options.{get_mqtt_options}
use mqtt_tunnel.Broker.Connect.{new_mqtt_broker, new_ping_topic}
use mqtt_tunnel.MqTunnel.Loops.{install, reload_turn, take_reload}
use mqtt_tunnel.System.{config_changed, takes_reload, on_event, step, run, after_turn}
use mqtt_tunnel.CommandLine.Keepalive.{Platform, with_timeout, reload_keepalive}
use mqtt_tunnel.CommandLine.Start.{with_server_addr}
use mqtt_tunnel.CommandLine.Reload.{reload, accept_reload}

Fails : Outcome Broker → Type 0
Fails o = (e : Error) × (w : World) × (o ≡ fail e w)

new_mqtt_broker-rejected :
    (env : Env) (c : Config) (s : Bool) (w : World) (x : UrlError)
    → parse_broker_url env c.broker_url ≡ rejected x
    → Fails (new_mqtt_broker env c s w)
unfolding new_mqtt_broker get_mqtt_options Fails
new_mqtt_broker-rejected env c s w x bad =
    match-cases Fails (generate_random_id (pos 6) env.random_bytes) (λ _. (_, _, refl))
      λ a _. match-cases Fails (new_ping_topic c a.1) (λ _. (_, _, refl)) λ t _. rw bad (_, _, refl)

-- The loop of the server returns an error, so the process exits with 1.
take_reload-rejected :
    (env : Env) (c : Config) (w : World) (x : UrlError)
    → parse_broker_url env c.broker_url ≡ rejected x
    → (after_turn w (take_reload env (c ∷ []) w)).exit_code ≡ some 1
unfolding Fails
take_reload-rejected env c w x bad =
    let (e, u, same) = new_mqtt_broker-rejected env c _ _ x bad in
    ap (λ (o : Outcome Broker). (after_turn w (install o)).exit_code) same

turn-rejected :
    (env : Env) (c : Config) (w : World) (x : UrlError)
    → w.is_server_mode ≡ true
    → w.exit_code ≡ none
    → w.reload_ch ≡ []
    → parse_broker_url env c.broker_url ≡ rejected x
    → (run w ((env, config_changed c) ∷ (env, takes_reload) ∷ [])).exit_code ≡ some 1
unfolding run step on_event send reload_turn
turn-rejected env c w x s r empty bad =
    rw (r, empty, s)
      (take_reload-rejected env c
        (record w { is_server_mode = true; reload_ch = c ∷ []; exit_code = none }) x bad)

defaults-fields :
    (p : Platform) (c : Config)
    → let c' = reload_keepalive p (with_timeout (with_server_addr c)) in
      (c'.topic ≡ c.topic) × (c'.broker_url ≡ c.broker_url)
unfolding reload_keepalive with_timeout
defaults-fields p c = ground arith

-- A server whose file changes to a configuration with a broker URL that does not parse, but is not
-- empty, and with a valid topic, takes the reload, and exits with 1 in its next turn, although the
-- reload function means to go on with the old configuration where the new one is wrong.
pub reload-rejected :
    (env : Env) (h : Host) (p : Platform) (path : Text) (d : Config) (ws : List Warning)
    (x : UrlError) (w : World)
    → read_config h path ≡ loaded d ws
    → parse_broker_url env d.broker_url ≡ rejected x
    → d.broker_url ≢ []
    → d.topic ≢ []
    → validate_topic env d.topic ≡ none
    → w.is_server_mode ≡ true
    → w.exit_code ≡ none
    → w.reload_ch ≡ []
    → (c : Config) × (reload env h p path ≡ some c)
      × ((run w ((env, config_changed c) ∷ (env, takes_reload) ∷ [])).exit_code ≡ some 1)
unfolding reload accept_reload
reload-rejected env h p path d ws x w load bad url topic valid s r empty =
    let c : Config = reload_keepalive p (with_timeout (with_server_addr d)) in
    let (t, u) = defaults-fields p d in
    let good : validate_topic env c.topic ≡ none = ap (validate_topic env) t ∙ valid in
    (
      c,
      rw (load, reload) (ground (arith, good, t, u, url, topic)),
      turn-rejected env c w x s r empty (ap (parse_broker_url env) u ∙ bad),
    )
