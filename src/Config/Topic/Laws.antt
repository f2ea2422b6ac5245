-- ===== src/Config/Topic/Laws.antt =====
-- The valid topics by their segments.
use mqtt_tunnel.Base.{
  ◌≡◌, refl, ◌≢◌, ◌↔◌, Bool, true, false, not, ◌&&◌, ◌||◌, none, List, [], ◌∷◌, arith, ◌==◌,
  if◌then◌else◌, all_of, Text, has_prefix,
}
use mqtt_tunnel.World.Effects.{Env}
use mqtt_tunnel.Config.Topic.{
  contains_double_slash, ends_with_slash, topic_character, validate_topic,
}

-- The segments between slashes: the first, and the others.
pub first_segment : Text → Text
first_segment [] = []
first_segment (c ∷ t) = let rest = first_segment t in if c == b'/' then [] else c ∷ rest

pub other_segments : Text → List Text
other_segments [] = []
other_segments (c ∷ t) =
    let rest = other_segments t in if c == b'/' then first_segment t ∷ rest else rest

abbrev pub is_word : Env → Text → Bool
is_word env s = all_of (λ c. env.is_letter c || env.is_digit c) s

abbrev pub is_full_word : Env → Text → Bool
is_full_word env [] = false
is_full_word env (c ∷ s) = is_word env (c ∷ s)

abbrev accepts : Env → Text → Bool
accepts env t =
    not (contains_double_slash t) && not (ends_with_slash t) && all_of (topic_character env) t

accepts-segments :
    (env : Env) (t : Text)
    → accepts env t
      ≡ (is_word env (first_segment t) && all_of (is_full_word env) (other_segments t))
unfolding contains_double_slash ends_with_slash first_segment other_segments has_prefix
accepts-segments env [] = refl
accepts-segments env (c ∷ []) = ground arith
accepts-segments env (c ∷ d ∷ t) = ground (arith, accepts-segments env (d ∷ t))

-- A topic is valid exactly if it is not empty, its first segment consists of letters and digits, and
-- every other segment does and is not empty.
pub validate_topic-segments :
    (env : Env) (topic : Text)
    → (validate_topic env topic ≡ none) ↔ (
        (topic ≢ [])
        × (is_word env (first_segment topic) ≡ true)
        × (all_of (is_full_word env) (other_segments topic) ≡ true))
unfolding validate_topic
validate_topic-segments env topic =
    (ground (arith, accepts-segments env topic), ground (arith, accepts-segments env topic))
