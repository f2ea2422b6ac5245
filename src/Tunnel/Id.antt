-- ===== src/Tunnel/Id.antt =====
-- `validateTunnelID` of tunnel/tunnel.go. `len` counts bytes of UTF-8, and the loop runs over code
-- points, whose classes come from the `unicode` package.
pub mod Random
use mqtt_tunnel.Base.{
  ℕ, Bool, ◌||◌, Option, none, some, ltb, ◌==◌, if◌then◌else◌, Text, byte_len, all_of,
}
use mqtt_tunnel.World.Effects.{Env}

pub data IdError : Type 0 where
  bad_length not_alphanumeric : IdError

abbrev pub is_alphanumeric : Env → ℕ → Bool
is_alphanumeric env c = env.is_letter c || env.is_digit c

-- `none` means that the ID is valid.
unfoldable pub validate_tunnel_id : Env → Text → Option IdError
validate_tunnel_id env id =
    if byte_len id == 0 || ltb 6 (byte_len id)
    then some bad_length
    else if all_of (is_alphanumeric env) id
    then none
    else some not_alphanumeric
