-- ===== src/Config/Commas.antt =====
-- `fixJSONCommas` of tunnel/config.go, on bytes.
pub mod Repair
use Prim.Native.String.{String}
use mqtt_tunnel.Base.{
  ℕ, suc, ◌+◌, ◌*◌, ◌/◌, Bool, true, false, not, ◌&&◌, ◌||◌, List, [], ◌∷◌, ◌++◌, ◌==◌,
  if◌then◌else◌, codes, text_eq, has_prefix,
}
use mqtt_tunnel.Std.Space.{trim_space}
use mqtt_tunnel.Std.Lines.{split_lines, join_lines}

pub data Warning : Type 0 where
  trailing_comma missing_comma : ℕ → Warning

-- `strings.Contains(trimmed, "\":")`
unfoldable pub contains_key_end : List ℕ → Bool
contains_key_end [] = false
contains_key_end (c ∷ s) =
    let rest = contains_key_end s in (c == b'"' && has_prefix s (b':' ∷ [])) || rest

-- `strings.HasSuffix(trimmed, ",")`
unfoldable pub ends_in_comma : List ℕ → Bool
ends_in_comma [] = false
ends_in_comma (c ∷ []) = c == b','
ends_in_comma (c ∷ d ∷ s) = ends_in_comma (d ∷ s)

-- `line[:len(line)-1]`
pub drop_last : List ℕ → List ℕ
drop_last [] = []
drop_last (c ∷ []) = []
drop_last (c ∷ d ∷ s) = c ∷ drop_last (d ∷ s)

-- Whether a trimmed line looks like a property.
unfoldable pub looks_like_property : List ℕ → Bool
unfolding contains_key_end
looks_like_property t =
    not (
      text_eq t []
      || text_eq t (codes "}")
      || has_prefix t (codes "//")
      || has_prefix t (codes "/*"))
    && (has_prefix t (b'"' ∷ []) && contains_key_end t)

unfoldable pub is_property : List ℕ → Bool
unfolding looks_like_property trim_space
is_property line = looks_like_property (trim_space line)

abbrev pub any_property : List (List ℕ) → Bool
any_property [] = false
any_property (l ∷ ls) = let rest = any_property ls in is_property l || rest

-- A property line, given whether another one follows, and its number.
pub fix_property : ℕ → Bool → List ℕ → List ℕ × List Warning
unfolding ends_in_comma drop_last trim_space
fix_property n true line =
    if ends_in_comma (trim_space line)
    then (line, [])
    else (line ++ (b',' ∷ []), missing_comma n ∷ [])
fix_property n false line =
    if ends_in_comma (trim_space line) then (drop_last line, trailing_comma n ∷ []) else (line, [])

-- The lines from number `n` on. The list of property lines is taken before any line is changed; a
-- line is the last one of it if no property line follows.
pub fix_lines : ℕ → List (List ℕ) → List (List ℕ) × List Warning
unfolding fix_property is_property
fix_lines n [] = ([], [])
fix_lines n (l ∷ ls) =
    let (ms, ws) = fix_lines (suc n) ls in
    let (m, w) = if is_property l then fix_property n (any_property ls) l else (l, []) in
    (m ∷ ms, w ++ ws)

unfoldable pub fix_json_commas : List ℕ → List ℕ × List Warning
unfolding fix_lines split_lines join_lines
fix_json_commas text =
    let lines = split_lines text in
    if any_property lines
    then (let (ms, ws) = fix_lines 1 lines in (join_lines ms, ws))
    else (text, [])
