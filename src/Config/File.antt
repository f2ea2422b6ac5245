-- ===== src/Config/File.antt =====
-- `ReadConfig` and `expandPath` of tunnel/config.go. The file system, the environment variables and
-- the JSON decoder are an argument.
pub mod Reading
use Prim.Native.String.{String}
use mqtt_tunnel.Base.{
  ℕ, ◌+◌, ◌-◌, Bool, false, not, ◌&&◌, ◌||◌, Option, none, some, List, [], ◌∷◌, ◌++◌, if◌then◌else◌,
  drop, Text, codes, text_eq, has_prefix, keys,
}
use mqtt_tunnel.Config.{Config}
use mqtt_tunnel.Config.Comments.{strip_json_comments}
use mqtt_tunnel.Config.Commas.{Warning, fix_json_commas}

-- How `TryLock` of a lock file ends.
pub data LockReply : Type 0 where
  lock_taken lock_busy lock_error : LockReply

pub record Host : Type 0 where
  -- `os.ReadFile`
  pub read_file : Text → Option (List ℕ)
  -- `json.Unmarshal` into a map, of which only the keys count (in the order in which a `range` over
  -- the map yields them), and into a `Config`
  pub json_keys : List ℕ → Option (List Text)
  pub json_config : List ℕ → Option Config
  -- `os.UserHomeDir`, empty if there is none, and `os.ExpandEnv`
  pub home : Text
  pub expand_env : Text → Text
  -- `filepath.EvalSymlinks`, and `filepath.Join(home, ".config", "mqtt-tunnel", name)`
  pub eval_symlinks : Text → Option Text
  pub in_config_dir : Text → Text
  -- `flock.New(path).TryLock()`
  pub try_lock : Text → LockReply

pub data ReadError : Type 0 where
  cannot_read invalid_json cannot_decode : ReadError
  unknown_key : Text → ReadError

-- What `ReadConfig` returns; the warnings come with some of the errors.
pub data Loaded : Type 0 where
  loaded : Config → List Warning → Loaded
  not_loaded : ReadError → List Warning → Loaded

-- `expandPath`
unfoldable pub expand_path : Host → Text → Text
expand_path h path =
    if text_eq path []
    then []
    else if has_prefix path (codes "~") && not (text_eq h.home [])
    then h.expand_env (h.home ++ drop 1 path)
    else h.expand_env path

abbrev pub known_keys : List Text
known_keys =
    codes "broker"
    ∷ codes "username"
    ∷ codes "password"
    ∷ codes "ca-cert"
    ∷ codes "client-cert"
    ∷ codes "private-key"
    ∷ codes "topic"
    ∷ codes "server"
    ∷ codes "log-file"
    ∷ codes "log-file-size"
    ∷ codes "debug"
    ∷ codes "verbose"
    ∷ codes "print-lines"
    ∷ codes "connection-timeout"
    ∷ codes "mqtt-keepalive"
    ∷ codes "manual-keepalive"
    ∷ []

pub one_of : List Text → Text → Bool
one_of [] key = false
one_of (k ∷ ks) key = let rest = one_of ks key in text_eq k key || rest

-- The first key that is not known.
pub first_unknown : List Text → Option Text
unfolding one_of
first_unknown [] = none
first_unknown (k ∷ ks) = let rest = first_unknown ks in if one_of known_keys k then rest else some k

-- The fields that `ReadConfig` changes behind the decoder.
abbrev pub completed : Host → Config → Config
completed h c = record c {
  debug = c.debug || c.verbose;
  ca_cert = expand_path h c.ca_cert;
  client_cert = expand_path h c.client_cert;
  private_key = expand_path h c.private_key;
  log_file = expand_path h c.log_file;
}

abbrev pub decode : Host → List ℕ → List Warning → Option Text → Loaded
decode h text warnings (some key) = not_loaded (unknown_key key) warnings
decode h text warnings none = elim (h.json_config text) [
  | none ↦ not_loaded cannot_decode warnings
  | some c ↦ loaded (completed h c) warnings
]

-- From the clean text on.
unfoldable pub parse_config : Host → List ℕ → List Warning → Loaded
unfolding first_unknown expand_path
parse_config h text warnings = elim (h.json_keys text) [
  | none ↦ not_loaded invalid_json []
  | some keys ↦ decode h text warnings (first_unknown keys)
]

unfoldable pub read_config : Host → Text → Loaded
unfolding parse_config strip_json_comments fix_json_commas
read_config h path = elim (h.read_file path) [
  | none ↦ not_loaded cannot_read []
  | some buf ↦
      let (clean, warnings) = fix_json_commas (strip_json_comments buf) in
      parse_config h clean warnings
]
