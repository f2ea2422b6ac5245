-- ===== src/Broker/Options/Laws.antt =====
-- The encryption and the keepalive of the MQTT client.

use mqtt_tunnel.Broker.Options.{
  MadeOptions, TlsConfig, get_mqtt_options, new_tls_config, no_options, options, options_for,
  plain_tls, with_certificate, with_info, with_tls,
}
use mqtt_tunnel.Config.{Config}
use mqtt_tunnel.Config.Url.{BrokerInfo, Parsed, broker_addr, info, parse_broker_url}
use mqtt_tunnel.World.Effects.{Env}
use mqtt_tunnel.World.Monad.{bad_certificate}
use mqtt_tunnel.Base.{
  ◌≡◌, refl, sym, subst, ◌⊎◌, inl, inr, true, not, ◌&&◌, Option, none, some, [], arith, Bool-cases,
  Option-cases, is_some, if-cases, Text, text_eq,
}

with_certificate-insecure :
    (env : Env) (c : Config) (s t : TlsConfig)
    → with_certificate env c s ≡ some t
    → t.insecure_skip_verify ≡ s.insecure_skip_verify
unfolding with_certificate
with_certificate-insecure env c s t e = ground arith

new_tls_config-insecure :
    (env : Env) (c : Config) (t : TlsConfig)
    → new_tls_config env c ≡ some t
    → t.insecure_skip_verify ≡ true
unfolding new_tls_config
new_tls_config-insecure env c t e = elim (Bool-cases (text_eq c.ca_cert [])) [
  | inl y ↦ with_certificate-insecure env c plain_tls t (rw y at e)
  | inr y ↦ elim (Option-cases (env.read_ca c.ca_cert)) [
    | inl n ↦ absurd (ground arith)
    | inr (pem, m) ↦
        with_certificate-insecure env c (record plain_tls { root_cas = some pem }) t (ground arith)
  ]
]

-- A TLS configuration, if there is one, skips the verification.
abbrev pub Unverified : Option TlsConfig → Type 0
Unverified none = Unit
Unverified (some t) = t.insecure_skip_verify ≡ true

-- What the options say of the encryption.
abbrev pub Encrypted : Env → BrokerInfo → MadeOptions → Type 0
Encrypted env i (no_options e) = Unit
Encrypted env i (options o) =
    (o.broker ≡ broker_addr i)
    × (is_some o.tls_config ≡ (i.tls && not i.web_socket))
    × Unverified o.tls_config

with_tls-Encrypted :
    (env : Env) (c : Config) (id : Text) (i : BrokerInfo)
    → (not i.web_socket && i.tls) ≡ true
    → (o : Option TlsConfig) → new_tls_config env c ≡ o
    → Encrypted env i (with_tls c id i o)
with_tls-Encrypted env c id i p none e = tt
with_tls-Encrypted env c id i p (some t) e = (refl, ground arith, new_tls_config-insecure env c t e)

with_info-Encrypted :
    (env : Env) (c : Config) (id : Text) (i : BrokerInfo)
    → Encrypted env i (with_info env c id (info i))
with_info-Encrypted env c id i =
    if-cases (Encrypted env i) (not i.web_socket && i.tls)
      (λ p. with_tls-Encrypted env c id i p (new_tls_config env c) refl)
      (λ p. (refl, ground arith, tt))

-- For a broker URL that parses, the options carry a TLS configuration exactly if it asks for TLS and
-- not for WebSockets, and a TLS configuration never has the certificate of the broker verified,
-- with or without a CA certificate.
pub get_mqtt_options-Encrypted :
    (env : Env) (c : Config) (id : Text) (i : BrokerInfo)
    → parse_broker_url env c.broker_url ≡ info i
    → Encrypted env i (get_mqtt_options env c id)
unfolding get_mqtt_options
get_mqtt_options-Encrypted env c id i url =
    subst (λ (r : Parsed). Encrypted env i (with_info env c id r)) (sym url)
      (with_info-Encrypted env c id i)

-- The options are made, or a certificate is to blame.
abbrev pub Made : Config → Text → BrokerInfo → MadeOptions → Type 0
Made c id i m =
    (m ≡ no_options bad_certificate)
    ⊎ ((t : Option TlsConfig) × (m ≡ options (options_for c id i t)))

pub get_mqtt_options-Made :
    (env : Env) (c : Config) (id : Text) (i : BrokerInfo)
    → parse_broker_url env c.broker_url ≡ info i
    → Made c id i (get_mqtt_options env c id)
unfolding get_mqtt_options
get_mqtt_options-Made env c id i url =
    subst (λ (r : Parsed). Made c id i (with_info env c id r)) (sym url)
      (if-cases (Made c id i) (not i.web_socket && i.tls) (λ _. tls (new_tls_config env c))
        (λ _. inr (none, refl)))
  where
    tls : (o : Option TlsConfig) → Made c id i (with_tls c id i o)
    tls none = inl refl
    tls (some t) = inr (some t, refl)
