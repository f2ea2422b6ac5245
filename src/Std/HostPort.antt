-- ===== src/Std/HostPort.antt =====
-- `net.SplitHostPort`: the last colon divides host and port, and a host in brackets may hold colons.
pub mod Loopback
use mqtt_tunnel.Base.{
  ℕ, suc, Bool, true, false, ◌||◌, Option, none, some, [], ◌∷◌, ◌==◌, if◌then◌else◌, Text, take,
  drop, length,
}

-- `strings.IndexByte`
pub index_byte : ℕ → Text → Option ℕ
index_byte b [] = none
index_byte b (c ∷ s) =
    if c == b then some 0 else elim (index_byte b s) [ none ↦ none | some i ↦ some (suc i) ]

-- `strings.LastIndexByte`
pub last_index_byte : ℕ → Text → Option ℕ
last_index_byte b [] = none
last_index_byte b (c ∷ s) = elim (last_index_byte b s) [
  | none ↦ if c == b then some 0 else none
  | some i ↦ some (suc i)
]

abbrev present : Option ℕ → Bool
present none = false
present (some i) = true

-- The checks behind the split: no `[` from `j` on and no `]` from `k` on.
finish : Text → Text → ℕ → ℕ → ℕ → Option (Text × Text)
unfolding index_byte
finish s host j k i =
    if present (index_byte b'[' (drop j s)) || present (index_byte b']' (drop k s))
    then none
    else some (host, drop (suc i) s)

bracketed : Text → ℕ → Option (Text × Text)
unfolding index_byte finish
bracketed s i = elim (index_byte b']' s) [
  | none ↦ none
  | some end ↦
      if suc end == length s
      then none
      else if suc end == i
      then finish s (drop 1 (take end s)) 1 (suc end) i
      else none
]

plain : Text → ℕ → Option (Text × Text)
unfolding index_byte finish
plain s i = if present (index_byte b':' (take i s)) then none else finish s (take i s) 0 0 i

starts_bracket : Text → Bool
starts_bracket [] = false
starts_bracket (c ∷ s) = c == b'['

-- `none` stands for an address error.
unfoldable pub split_host_port : Text → Option (Text × Text)
unfolding last_index_byte bracketed plain starts_bracket
split_host_port s = elim (last_index_byte b':' s) [
  | none ↦ none
  | some i ↦ if starts_bracket s then bracketed s i else plain s i
]
