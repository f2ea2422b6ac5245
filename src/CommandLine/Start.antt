-- ===== src/CommandLine/Start.antt =====
-- `main` of main.go up to the tunnel, `resolveConfigPath`, and `acquireServerLock` of flock.go.
pub mod Accepted
pub mod Connecting
use Prim.Native.String.{String}
use mqtt_tunnel.Base.{
  ℕ, ◌+◌, ◌/◌, Bool, false, not, ◌||◌, none, some, [], ◌∷◌, ◌++◌, ◌==◌, if◌then◌else◌, Text, codes,
  text_eq,
}
use mqtt_tunnel.Config.{Config}
use mqtt_tunnel.Config.Url.{Parsed, info, rejected, parse_broker_url}
use mqtt_tunnel.Config.Topic.{validate_topic}
use mqtt_tunnel.Config.File.{
  Host, LockReply, lock_taken, lock_busy, lock_error, Loaded, loaded, not_loaded, read_config,
}
use mqtt_tunnel.Control.Random.{generate_random_id}
use mqtt_tunnel.World.Effects.{Env}
use mqtt_tunnel.CommandLine.{expand_server_addr}
use mqtt_tunnel.CommandLine.Keepalive.{Platform, with_timeout, server_keepalive, client_keepalive}

-- `strings.ContainsAny(filename, "/\\")`
pub has_separator : Text → Bool
has_separator [] = false
has_separator (c ∷ s) = let rest = has_separator s in c == b'/' || c == b'\\' || rest

-- `resolveConfigPath`
unfoldable pub resolve_config_path : Host → Text → Text
unfolding has_separator
resolve_config_path h filename =
    if has_separator filename
    then filename
    else if text_eq h.home []
    then filename
    else h.in_config_dir filename

-- The lock file of `acquireServerLock`.
unfoldable pub lock_file : Host → Text → Text
lock_file h path = elim (h.eval_symlinks path) [
  | none ↦ path ++ codes ".lock"
  | some real ↦ real ++ codes ".lock"
]

-- `acquireServerLock`
unfoldable pub acquire_server_lock : Host → Text → LockReply
unfolding lock_file
acquire_server_lock h path = h.try_lock (lock_file h path)

-- The flags `-c`, `-config` and `-generate`.
pub record Args : Type 0 where
  pub config_file : Text
  pub config_file_full : Text
  pub generate : Bool

-- Why `main` exits before the tunnel is created.
pub data Exit : Type 0 where
  printed_id printed_sample : Exit
  no_config_file cannot_load no_lock invalid_url no_url no_topic invalid_topic example_topic : Exit

abbrev pub exit_code : Exit → ℕ
exit_code printed_id = 0
exit_code printed_sample = 0
exit_code _ = 1

-- `main` exits, or goes on with the path of the file, the configuration, and the mode.
pub data Start : Type 0 where
  exits : Exit → Start
  runs : Text → Config → Bool → Start

abbrev pub is_server : Config → Bool
is_server c = not (text_eq c.server_addr [])

abbrev pub is_example : Text → Bool
is_example topic = text_eq topic (codes "gFAftaCLyD") || text_eq topic (codes "gFAftaCL")

-- From the expansion of the server address on.
abbrev pub with_keepalive : Platform → Config → Config
with_keepalive p c = if is_server c then server_keepalive p c else client_keepalive c

abbrev pub with_server_addr : Config → Config
with_server_addr c =
    if is_server c then record c { server_addr = expand_server_addr c.server_addr } else c

abbrev pub finished : Platform → Text → Config → Start
finished p path c = let c' = with_server_addr c in runs path (with_keepalive p c') (is_server c')

-- The checks of the topic.
unfoldable pub check_topic : Env → Platform → Text → Config → Start
unfolding validate_topic expand_server_addr server_keepalive client_keepalive
check_topic env p path c =
    if text_eq c.topic [] then exits no_topic else elim (validate_topic env c.topic) [
      | some e ↦ exits invalid_topic
      | none ↦ if is_example c.topic then exits example_topic else finished p path c
    ]

abbrev pub check_url : Env → Platform → Text → Config → Parsed → Start
check_url env p path c (rejected e) = exits invalid_url
check_url env p path c (info i) =
    if text_eq c.broker_url [] then exits no_url else check_topic env p path c

-- Behind the lock.
unfoldable pub check_config : Env → Platform → Text → Config → Start
unfolding check_topic with_timeout parse_broker_url
check_config env p path c =
    let c' = with_timeout c in check_url env p path c' (parse_broker_url env c'.broker_url)

abbrev pub when_locked : LockReply → Start → Start
when_locked lock_taken next = next
when_locked lock_busy next = exits no_lock
when_locked lock_error next = exits no_lock

abbrev pub with_config : Env → Host → Platform → Text → Loaded → Start
with_config env h p path (not_loaded e ws) = exits cannot_load
with_config env h p path (loaded c ws) =
    if is_server c
    then when_locked (acquire_server_lock h path) (check_config env p path c)
    else check_config env p path c

-- `-config` wins over `-c`.
abbrev pub effective_file : Args → Text
effective_file a = if text_eq a.config_file_full [] then a.config_file else a.config_file_full

unfoldable pub start_up : Env → Host → Platform → Args → Start
unfolding check_config acquire_server_lock resolve_config_path read_config
start_up env h p a =
    if a.generate
    then exits printed_id
    else if text_eq (effective_file a) (codes "help")
    then exits printed_sample
    else if text_eq (effective_file a) []
    then exits no_config_file
    else let path = resolve_config_path h (effective_file a) in
      with_config env h p path (read_config h path)
