-- ===== src/Config/Topic.antt =====
-- `ValidateTopic` of tunnel/config.go, on code points, whose classes come from the `unicode` package.
pub mod Laws
use mqtt_tunnel.Base.{
  ℕ, ◌/◌, Bool, false, ◌&&◌, ◌||◌, Option, none, some, [], ◌∷◌, ◌==◌, if◌then◌else◌, all_of, Text,
  text_eq, has_prefix,
}
use mqtt_tunnel.World.Effects.{Env}

pub data TopicError : Type 0 where
  empty_topic double_slashes trailing_slash bad_character : TopicError

-- `strings.Contains(topic, "//")`
unfoldable pub contains_double_slash : Text → Bool
contains_double_slash [] = false
contains_double_slash (c ∷ t) =
    let rest = contains_double_slash t in (c == b'/' && has_prefix t (b'/' ∷ [])) || rest

-- `strings.HasSuffix(topic, "/")`
unfoldable pub ends_with_slash : Text → Bool
ends_with_slash [] = false
ends_with_slash (c ∷ []) = c == b'/'
ends_with_slash (c ∷ d ∷ t) = ends_with_slash (d ∷ t)

abbrev pub topic_character : Env → ℕ → Bool
topic_character env c = env.is_letter c || env.is_digit c || c == b'/'

-- `none` means that the topic is valid.
unfoldable pub validate_topic : Env → Text → Option TopicError
unfolding contains_double_slash ends_with_slash
validate_topic env topic =
    if text_eq topic []
    then some empty_topic
    else if contains_double_slash topic
    then some double_slashes
    else if ends_with_slash topic
    then some trailing_slash
    else if all_of (topic_character env) topic
    then none
    else some bad_character
