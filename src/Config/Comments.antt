-- ===== src/Config/Comments.antt =====
-- `stripJSONComments` of tunnel/config.go, on bytes. The two flags and the inner loops of the code are
-- the modes of one pass: an inner loop is a mode that drops its bytes.
pub mod Laws
pub mod Pieces
use mqtt_tunnel.Base.{
  ℕ, ◌*◌, ◌/◌, Bool, true, false, not, ◌&&◌, ◌||◌, List, [], ◌∷◌, ◌==◌, if◌then◌else◌,
}

pub data Mode : Type 0 where
  -- `inString` and `escapeNext`
  plain in_string escaped : Mode
  -- the loop of a `//` comment, and that of a `/*` comment with the two bytes that the code skips
  -- behind the slash and behind the star
  line opening block closing : Mode

abbrev pub next_is : ℕ → List ℕ → Bool
next_is b [] = false
next_is b (c ∷ s) = c == b

-- The mode behind a byte, given the bytes that follow it.
unfoldable pub next_mode : Mode → ℕ → List ℕ → Mode
next_mode plain c s =
    if c == b'"'
    then in_string
    else if c == b'/' && next_is b'/' s
    then line
    else if c == b'/' && next_is b'*' s
    then opening
    else plain
next_mode in_string c s = if c == b'\\' then escaped else if c == b'"' then plain else in_string
next_mode escaped c s = in_string
next_mode line c s = if c == 10 then plain else line
next_mode opening c s = block
next_mode block c s = if c == b'*' && next_is b'/' s then closing else block
next_mode closing c s = plain

-- Whether the byte goes to the result.
unfoldable pub keeps : Mode → ℕ → List ℕ → Bool
keeps plain c s = not (c == b'/' && (next_is b'/' s || next_is b'*' s))
keeps in_string c s = true
keeps escaped c s = true
keeps line c s = c == 10
keeps opening c s = false
keeps block c s = false
keeps closing c s = false

unfoldable pub strip : Mode → List ℕ → List ℕ
unfolding next_mode keeps
strip m [] = []
strip m (c ∷ s) = let rest = strip (next_mode m c s) s in if keeps m c s then c ∷ rest else rest

unfoldable pub strip_json_comments : List ℕ → List ℕ
unfolding strip
strip_json_comments data_bytes = strip plain data_bytes
