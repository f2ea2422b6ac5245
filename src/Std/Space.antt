-- ===== src/Std/Space.antt =====
-- `strings.TrimSpace` of Go's library on the bytes of UTF-8: what `unicode.IsSpace` takes as white space.
pub mod Laws
use mathlib.Core.List.{reverse}
use mqtt_tunnel.Base.{ℕ, zero, suc, Bool, ◌&&◌, ◌||◌, List, [], ◌∷◌, leb, ◌==◌, if◌then◌else◌}

abbrev pub is_ascii_space : ℕ → Bool
is_ascii_space c = (leb 9 c && leb c 13) || c == 32

-- U+0085 and U+00A0; U+1680; U+2000 to U+200A, U+2028, U+2029 and U+202F; U+205F; U+3000.
abbrev pub is_space_2 : ℕ → ℕ → Bool
is_space_2 a b = a == 0xc2 && (b == 0x85 || b == 0xa0)

abbrev pub is_space_3 : ℕ → ℕ → ℕ → Bool
is_space_3 a b c =
    (a == 0xe1 && b == 0x9a && c == 0x80)
    || (a == 0xe2
        && b == 0x80
        && ((leb 0x80 c && leb c 0x8a) || c == 0xa8 || c == 0xa9 || c == 0xaf))
    || (a == 0xe2 && b == 0x81 && c == 0x9f)
    || (a == 0xe3 && b == 0x80 && c == 0x80)

-- How many bytes of white space a text starts with, in its first code point.
pub space_len : List ℕ → ℕ
space_len [] = 0
space_len (a ∷ []) = if is_ascii_space a then 1 else 0
space_len (a ∷ b ∷ []) = if is_ascii_space a then 1 else if is_space_2 a b then 2 else 0
space_len (a ∷ b ∷ c ∷ s) =
    if is_ascii_space a then 1 else if is_space_2 a b then 2 else if is_space_3 a b c then 3 else 0

-- The same for a text that is read backwards.
pub back_space_len : List ℕ → ℕ
back_space_len [] = 0
back_space_len (a ∷ []) = if is_ascii_space a then 1 else 0
back_space_len (a ∷ b ∷ []) = if is_ascii_space a then 1 else if is_space_2 b a then 2 else 0
back_space_len (a ∷ b ∷ c ∷ s) =
    if is_ascii_space a then 1 else if is_space_2 b a then 2 else if is_space_3 c b a then 3 else 0

-- Without the white space at the start, `k` bytes of it being still to skip.
pub trim_from : (List ℕ → ℕ) → ℕ → List ℕ → List ℕ
trim_from len k [] = []
trim_from len (suc k) (c ∷ s) = trim_from len k s
trim_from len zero (c ∷ s) = elim (len (c ∷ s)) [ zero ↦ c ∷ s | suc k ↦ trim_from len k s ]

unfoldable pub trim_space : List ℕ → List ℕ
unfolding trim_from space_len back_space_len
trim_space s = reverse (trim_from back_space_len 0 (reverse (trim_from space_len 0 s)))
