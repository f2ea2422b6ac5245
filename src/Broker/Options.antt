-- ===== src/Broker/Options.antt =====
-- The options of the MQTT client: `newTLSConfig` and `getMQTTOptions` of tunnel/mqtt.go. Durations are
-- seconds; in Go a keepalive wraps if it has more than 2 ^ 63 nanoseconds.
pub mod Laws
use mqtt_tunnel.Config.{Config}
use mqtt_tunnel.Config.Url.{BrokerInfo, Parsed, broker_addr, info, parse_broker_url, rejected}
use mqtt_tunnel.World.Effects.{Env}
use mqtt_tunnel.World.Monad.{Error, bad_broker_url, bad_certificate}
use mqtt_tunnel.Base.{
  ℕ, ◌-◌, Bool, true, not, ◌&&◌, Option, none, some, List, [], ◌∷◌, if◌then◌else◌, Text, codes,
  text_eq, ℤ, pos, ltb_ℤ,
}
use Prim.Native.String.{String}

-- The fields of `tls.Config` that are set. A pool of CAs is what was appended to it, and a certificate
-- the files that it came from.
pub record TlsConfig : Type 0 where
  pub insecure_skip_verify : Bool
  pub root_cas : Option (List ℕ)
  pub certificate : Option (Text × Text)
  pub next_protos : List Text

abbrev pub plain_tls : TlsConfig
plain_tls = record {
  insecure_skip_verify = true;
  root_cas = none;
  certificate = none;
  next_protos = [];
}

-- The client certificate, if both of its files are given.
unfoldable pub with_certificate : Env → Config → TlsConfig → Option TlsConfig
with_certificate env c t =
    if not (text_eq c.client_cert []) && not (text_eq c.private_key [])
    then if env.loads_pair c.client_cert c.private_key
        && env.parses_leaf c.client_cert c.private_key
      then some (record t {
        certificate = some (c.client_cert, c.private_key);
        next_protos = codes "x-amzn-mqtt-ca" ∷ [];
      })
      else none
    else some t

-- `newTLSConfig`; `none` is an error.
unfoldable pub new_tls_config : Env → Config → Option TlsConfig
unfolding with_certificate
new_tls_config env c =
    if not (text_eq c.ca_cert [])
    then elim (env.read_ca c.ca_cert) [
      | none ↦ none
      | some pem ↦ with_certificate env c (record plain_tls { root_cas = some pem })
    ]
    else with_certificate env c plain_tls

-- The fields of `mqtt.ClientOptions` that are set.
pub record Options : Type 0 where
  pub broker : Text
  pub tls_config : Option TlsConfig
  pub client_id : Text
  pub clean_session : Bool
  pub auto_reconnect : Bool
  pub connect_retry_interval : ℕ
  pub keep_alive : ℤ

pub data MadeOptions : Type 0 where
  options : Options → MadeOptions
  no_options : Error → MadeOptions

abbrev pub options_for : Config → Text → BrokerInfo → Option TlsConfig → Options
options_for c client_id i t = record {
  broker = broker_addr i;
  tls_config = t;
  client_id = client_id;
  clean_session = true;
  auto_reconnect = true;
  connect_retry_interval = 20;
  keep_alive = if ltb_ℤ (pos 0) c.manual_keepalive then pos 3600 else c.mqtt_keepalive;
}

abbrev pub with_tls : Config → Text → BrokerInfo → Option TlsConfig → MadeOptions
with_tls c client_id i none = no_options bad_certificate
with_tls c client_id i (some t) = options (options_for c client_id i (some t))

abbrev pub with_info : Env → Config → Text → Parsed → MadeOptions
with_info env c client_id (rejected e) = no_options bad_broker_url
with_info env c client_id (info i) =
    if not i.web_socket && i.tls
    then with_tls c client_id i (new_tls_config env c)
    else options (options_for c client_id i none)

-- `getMQTTOptions`
unfoldable pub get_mqtt_options : Env → Config → Text → MadeOptions
unfolding new_tls_config broker_addr parse_broker_url
get_mqtt_options env c client_id = with_info env c client_id (parse_broker_url env c.broker_url)
