-- ===== src/CommandLine/Keepalive/Laws.antt =====
-- Which keepalive runs under the defaults.
use mqtt_tunnel.Base.{◌≡◌, ◌⊎◌, true, arith, if◌then◌else◌, pos, ltb_ℤ, leb_ℤ}
use mqtt_tunnel.Config.{Config}
use mqtt_tunnel.CommandLine.Keepalive.{
  termux, default_platform, Platform, paho_on, server_keepalive, reload_keepalive,
}

-- Exactly one keepalive is on: our own one with Paho's put off to an hour, or Paho's one alone.
abbrev pub OneKeepalive : Config → Type 0
OneKeepalive c =
    ((ltb_ℤ (pos 0) c.manual_keepalive ≡ true) × (c.mqtt_keepalive ≡ pos 3600))
    ⊎ ((leb_ℤ c.manual_keepalive (pos 0) ≡ true) × (paho_on c ≡ true))

pub server_keepalive-OneKeepalive :
    (p : Platform) (c : Config) → OneKeepalive (server_keepalive p c)
unfolding server_keepalive
server_keepalive-OneKeepalive default_platform c = ground arith
server_keepalive-OneKeepalive termux c = ground arith

-- A manual keepalive below zero means the same as zero.
abbrev pub without_negative : Config → Config
without_negative c =
    if ltb_ℤ c.manual_keepalive (pos 0) then record c { manual_keepalive = pos 0 } else c

pub reload_keepalive-server_keepalive :
    (p : Platform) (c : Config) → without_negative (reload_keepalive p c) ≡ server_keepalive p c
unfolding server_keepalive reload_keepalive
reload_keepalive-server_keepalive default_platform c = ground arith
reload_keepalive-server_keepalive termux c = ground arith
