-- ===== src/Config/Url.antt =====
-- `ParseBrokerURL` of tunnel/config.go, and the broker address that `getMQTTOptions` of
-- tunnel/mqtt.go makes of its result. `url.Parse` is an argument.
use mqtt_tunnel.Base.{
  ℕ, ◌+◌, ◌≤◌, ◌≡◌, refl, inl, inr, Bool, true, false, ◌&&◌, ◌||◌, Option, none, some, [], ◌∷◌,
  ◌++◌, map, arith, ltb, leb, if◌then◌else◌, Bool-cases, Option-cases, Text, codes, text_eq, ℤ, pos,
  negsuc, ltb_ℤ,
}
use mqtt_tunnel.Std.Decimal.{Atoi, atoi, number, bad_syntax, out_of_range, show_ℤ}
use mqtt_tunnel.World.Effects.{Env, Url}

pub record BrokerInfo : Type 0 where
  pub host : Text
  pub port : ℤ
  pub tls : Bool
  pub web_socket : Bool

pub data UrlError : Type 0 where
  url_required invalid_url host_required invalid_port port_range : UrlError
  unsupported_scheme : Text → UrlError

pub data Parsed : Type 0 where
  info : BrokerInfo → Parsed
  rejected : UrlError → Parsed

-- `strings.ToLower` on ASCII, which is all that a URL scheme may hold.
unfoldable pub to_lower : ℕ → ℕ
to_lower c = if leb b'A' c && leb c b'Z' then c + 32 else c

pub record Scheme : Type 0 where
  pub default_port : ℕ
  pub secure : Bool
  pub socket : Bool

-- The switch over the scheme.
unfoldable pub scheme_of : Text → Option Scheme
scheme_of s =
    if text_eq s (codes "mqtt")
    then some (record { default_port = 1883; secure = false; socket = false })
    else if text_eq s (codes "mqtts")
    then some (record { default_port = 8883; secure = true; socket = false })
    else if text_eq s (codes "ws")
    then some (record { default_port = 80; secure = false; socket = true })
    else if text_eq s (codes "wss")
    then some (record { default_port = 443; secure = true; socket = true })
    else none

abbrev check_port : Text → Scheme → ℤ → Parsed
check_port host s port =
    if ltb_ℤ port (pos 1) || ltb_ℤ (pos 65535) port
    then rejected port_range
    else info (record { host = host; port = port; tls = s.secure; web_socket = s.socket })

abbrev explicit_port : Text → Scheme → Atoi → Parsed
explicit_port host s (number port) = check_port host s port
explicit_port host s bad_syntax = rejected invalid_port
explicit_port host s (out_of_range z) = rejected invalid_port

abbrev with_scheme : Url → Option Scheme → Parsed
with_scheme u none = rejected (unsupported_scheme (map to_lower u.scheme))
with_scheme u (some s) =
    if text_eq u.hostname []
    then rejected host_required
    else if text_eq u.port []
    then check_port u.hostname s (pos s.default_port)
    else explicit_port u.hostname s (atoi u.port)

unfoldable pub parse_broker_url : Env → Text → Parsed
unfolding scheme_of
parse_broker_url env s = if text_eq s [] then rejected url_required else elim (env.parse_url s) [
  | none ↦ rejected invalid_url
  | some u ↦ with_scheme u (scheme_of (map to_lower u.scheme))
]

-- The address that goes to `opts.AddBroker`.
unfoldable pub broker_addr : BrokerInfo → Text
broker_addr b =
    let at = b.host ++ (b':' ∷ show_ℤ b.port) in
    if b.web_socket
    then (if b.tls then codes "wss://" else codes "ws://") ++ (at ++ codes "/mqtt")
    else (if b.tls then codes "ssl://" else codes "tcp://") ++ at

abbrev InRange : Parsed → Type 0
InRange (info b) = (n : ℕ) × (b.port ≡ pos n) × (1 ≤ n) × (n ≤ 65535)
InRange (rejected e) = Unit

check_port-InRange : (host : Text) (s : Scheme) (z : ℤ) → InRange (check_port host s z)
check_port-InRange host s (negsuc n) = tt
check_port-InRange host s (pos n) = elim (Bool-cases (ltb n 1)) [
  | inl e ↦ rw e tt
  | inr e ↦ rw e (elim (Bool-cases (ltb 65535 n)) [
    | inl e' ↦ rw e' tt
    | inr e' ↦ rw e' (n, refl, ground arith, ground arith)
  ])
]

explicit_port-InRange : (host : Text) (s : Scheme) (a : Atoi) → InRange (explicit_port host s a)
explicit_port-InRange host s (number z) = check_port-InRange host s z
explicit_port-InRange host s bad_syntax = tt
explicit_port-InRange host s (out_of_range z) = tt

with_scheme-InRange : (u : Url) (s : Option Scheme) → InRange (with_scheme u s)
with_scheme-InRange u none = tt
with_scheme-InRange u (some s) = elim (Bool-cases (text_eq u.hostname [])) [
  | inl e ↦ rw e tt
  | inr e ↦ rw e (elim (Bool-cases (text_eq u.port [])) [
    | inl e' ↦ rw e' (check_port-InRange u.hostname s (pos s.default_port))
    | inr e' ↦ rw e' (explicit_port-InRange u.hostname s (atoi u.port))
  ])
]

parse_broker_url-InRange : (env : Env) (s : Text) → InRange (parse_broker_url env s)
unfolding parse_broker_url
parse_broker_url-InRange env s = elim (Bool-cases (text_eq s [])) [
  | inl e ↦ rw e tt
  | inr e ↦ rw e (elim (Option-cases (env.parse_url s)) [
    | inl e' ↦ rw e' tt
    | inr (u, e') ↦ rw e' (with_scheme-InRange u (scheme_of (map to_lower u.scheme)))
  ])
]

-- A broker URL that is accepted gives a port that TCP knows, from 1 to 65535.
pub parse_broker_url-port :
    (env : Env) (s : Text) {b : BrokerInfo}
    → parse_broker_url env s ≡ info b
    → (n : ℕ) × (b.port ≡ pos n) × (1 ≤ n) × (n ≤ 65535)
parse_broker_url-port env s h = rw h at (parse_broker_url-InRange env s)
