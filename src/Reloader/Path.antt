-- ===== src/Reloader/Path.antt =====
-- `filepath.Base` of Go's library on a slash-separated path.
use mqtt_tunnel.Base.{◌&&◌, [], ◌∷◌, ◌++◌, ◌==◌, if◌then◌else◌, Text, codes, text_eq}

-- A path without its trailing slashes.
pub without_slashes : Text → Text
without_slashes [] = []
without_slashes (c ∷ s) =
    let rest = without_slashes s in if c == b'/' && text_eq rest [] then [] else c ∷ rest

-- What stands behind the last slash, `read` being what stands behind the last one so far.
pub last_element : Text → Text → Text
last_element read [] = read
last_element read (c ∷ s) = last_element (if c == b'/' then [] else read ++ (c ∷ [])) s

abbrev or_slash : Text → Text
or_slash [] = codes "/"
or_slash (c ∷ s) = last_element [] (c ∷ s)

unfoldable pub base : Text → Text
unfolding without_slashes last_element
base [] = codes "."
base (c ∷ s) = or_slash (without_slashes (c ∷ s))
