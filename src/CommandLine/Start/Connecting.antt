-- ===== src/CommandLine/Start/Connecting.antt =====
-- From the configuration that `main` accepts to the options of the MQTT client.

use mqtt_tunnel.Broker.Options.{
  Options, TlsConfig, get_mqtt_options, no_options, options, options_for,
}
use mqtt_tunnel.Broker.Options.Laws.{get_mqtt_options-Made}
use mqtt_tunnel.CommandLine.Keepalive.{Platform}
use mqtt_tunnel.CommandLine.Keepalive.Laws.{OneKeepalive}
use mqtt_tunnel.CommandLine.Start.{Args, runs, start_up}
use mqtt_tunnel.CommandLine.Start.Accepted.{start_up-runs}
use mqtt_tunnel.Config.{Config}
use mqtt_tunnel.Config.File.{Host}
use mqtt_tunnel.Config.Url.{BrokerInfo}
use mqtt_tunnel.World.Effects.{Env}
use mqtt_tunnel.World.Monad.{bad_certificate}
use mathlib.Core.Bool.{false≢true}
use mqtt_tunnel.Base.{
  ℕ, ◌≤◌, ◌<◌, ◌≡◌, refl, sym, ◌∙◌, ◌↔◌, ◌⊎◌, inl, inr, true, ◌&&◌, Option, arith, Text, ℤ, pos,
  negsuc, ltb_ℤ,
}

in_range :
    (z : ℤ)
    → (ltb_ℤ (pos 0) z && ltb_ℤ z (pos 3600)) ≡ true
    → (k : ℕ) × (z ≡ pos k) × (1 ≤ k) × (k < 3600)
in_range (pos n) e = (n, refl, ground arith, ground arith)
in_range (negsuc n) e = absurd (ground arith)

-- Paho's keepalive, if exactly one of the two is on.
keep_alive-OneKeepalive :
    (c : Config) (id : Text) (i : BrokerInfo) (t : Option TlsConfig)
    → OneKeepalive c
    → (k : ℕ) × ((options_for c id i t).keep_alive ≡ pos k)
      × (1 ≤ k)
      × (k ≤ 3600)
      × ((ltb_ℤ (pos 0) c.manual_keepalive ≡ true) ↔ (k ≡ 3600))
keep_alive-OneKeepalive c id i t (inl (m, z)) =
    (3600, ground arith, omega arith, omega arith, ((λ _. refl), λ _. m))
keep_alive-OneKeepalive c id i t (inr (m, on)) =
    let (k, e, l, u) = in_range c.mqtt_keepalive on in
    (k, ground arith, l, omega arith, ((λ y. absurd (ground arith)), λ y. absurd (omega arith)))

-- If `main` goes on as a server, then making the options of its MQTT client fails at most for a
-- certificate, and Paho's keepalive is between 1 second and an hour; it is an hour exactly if our
-- own keepalive is on. So it is with every mqtt-keepalive that the file may give.
pub start_up-get_mqtt_options :
    (env : Env) (h : Host) (p : Platform) (a : Args) (path : Text) (c : Config) (id : Text)
    → start_up env h p a ≡ runs path c true
    → (get_mqtt_options env c id ≡ no_options bad_certificate)
      ⊎ ((o : Options) × (get_mqtt_options env c id ≡ options o)
          × ((k : ℕ) × (o.keep_alive ≡ pos k)
              × (1 ≤ k)
              × (k ≤ 3600)
              × ((ltb_ℤ (pos 0) c.manual_keepalive ≡ true) ↔ (k ≡ 3600))))
start_up-get_mqtt_options env h p a path c id e =
    let (q, m, r, l) = start_up-runs env h p a path c true e in
    let (i, url) = r.good_url in
    let one : OneKeepalive c = elim r.one_keepalive [
      | inl s ↦ absurd (false≢true (sym s ∙ sym m))
      | inr o ↦ o
    ] in
    elim (get_mqtt_options-Made env c id i url) [
      | inl x ↦ inl x
      | inr (t, x) ↦ inr (options_for c id i t, x, keep_alive-OneKeepalive c id i t one)
    ]
