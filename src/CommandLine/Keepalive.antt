-- ===== src/CommandLine/Keepalive.antt =====
-- The defaults of `main` and of its reload function for timeouts and keepalives, and those of the
-- two platforms (platform_default.go, platform_termux.go).
pub mod Laws
use mqtt_tunnel.Base.{Bool, ◌&&◌, ◌||◌, if◌then◌else◌, ℤ, pos, eqb_ℤ, ltb_ℤ, leb_ℤ}
use mqtt_tunnel.Config.{Config}

-- The build tag.
pub data Platform : Type 0 where
  default_platform termux : Platform

-- `getDefaultManualKeepalive`
unfoldable pub default_manual_keepalive : Platform → ℤ
default_manual_keepalive default_platform = pos 0
default_manual_keepalive termux = pos 60

-- The default of 15 seconds, in `main` and on a reload.
unfoldable pub with_timeout : Config → Config
with_timeout c =
    if leb_ℤ c.connection_timeout (pos 0) then record c { connection_timeout = pos 15 } else c

-- The Paho keepalive is on.
abbrev pub paho_on : Config → Bool
paho_on c = ltb_ℤ (pos 0) c.mqtt_keepalive && ltb_ℤ c.mqtt_keepalive (pos 3600)

abbrev pub platform_keepalive : Platform → Config → Config
platform_keepalive p c = record c {
  manual_keepalive = default_manual_keepalive p;
  mqtt_keepalive = if ltb_ℤ (pos 0) (default_manual_keepalive p) then pos 3600 else pos 60;
}

-- `main`, in server mode
unfoldable pub server_keepalive : Platform → Config → Config
unfolding default_manual_keepalive
server_keepalive p c =
    if ltb_ℤ (pos 0) c.manual_keepalive
    then record c { mqtt_keepalive = pos 3600 }
    else if paho_on c
    then record c { manual_keepalive = pos 0 }
    else platform_keepalive p c

-- `main`, in client mode
unfoldable pub client_keepalive : Config → Config
client_keepalive c =
    let c' =
      if eqb_ℤ c.mqtt_keepalive (pos 0) || leb_ℤ (pos 3600) c.mqtt_keepalive
      then record c { mqtt_keepalive = pos 3600 }
      else c in
    if ltb_ℤ c'.manual_keepalive (pos 0) then record c' { manual_keepalive = pos 0 } else c'

-- The reload function
unfoldable pub reload_keepalive : Platform → Config → Config
unfolding default_manual_keepalive
reload_keepalive p c =
    if ltb_ℤ (pos 0) c.manual_keepalive
    then record c { mqtt_keepalive = pos 3600 }
    else if leb_ℤ c.mqtt_keepalive (pos 0) || leb_ℤ (pos 3600) c.mqtt_keepalive
    then record c {
      manual_keepalive = default_manual_keepalive p;
      mqtt_keepalive = if eqb_ℤ (default_manual_keepalive p) (pos 0) then pos 60 else pos 3600;
    }
    else c
