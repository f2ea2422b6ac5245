-- ===== src/Base/Texts.antt =====
-- Texts. A Go string is the list of its code points (or of its bytes, where the program walks
-- bytes). Equality is a decision, so that a split on a test hands over the equation.
use Prim.Native.Char.{code}
use Prim.Native.String.{String}
use Prim.Native.Nat.{ℕ, ◌+◌}
use mathlib.Core.Path.{◌≡◌, refl, ap, ap₂}
use mathlib.Core.Bool.{Bool, true, false, ◌&&◌}
use mathlib.Core.List.{List, [], ◌∷◌}
use mathlib.Core.Logic.{ite}
use native.Mathlib.Decide.{ℕ_discrete}
use mqtt_tunnel.Base.Tests.{◌==◌, ltb, if◌then◌else◌}

abbrev pub Text : Type 0
Text = List ℕ

-- The code points of a literal.
abbrev pub codes : String → Text
codes String.[] = []
codes (String.◌∷◌ c s) = code c ∷ codes s

abbrev head_of : Text → ℕ
head_of [] = 0
head_of (c ∷ s) = c

abbrev tail_of : Text → Text
tail_of [] = []
tail_of (c ∷ s) = s

join_dec : {c d : ℕ} {s t : Text} → Dec (c ≡ d) → Dec (s ≡ t) → Dec (◌≡◌ {A = Text} (c ∷ s) (d ∷ t))
join_dec (yes p) (yes q) = yes (ap₂ ◌∷◌ p q)
join_dec (yes p) (no n) = no (λ e. n (ap tail_of e))
join_dec (no n) q = no (λ e. n (ap head_of e))

unfoldable pub text_dec : Discrete Text
unfolding join_dec ℕ_discrete
text_dec [] [] = yes refl
text_dec [] (c ∷ s) = no (λ e. cc)
text_dec (c ∷ s) [] = no (λ e. cc)
text_dec (c ∷ s) (d ∷ t) = join_dec (ℕ_discrete c d) (text_dec s t)

-- `s == t` on strings.
abbrev pub text_eq : Text → Text → Bool
text_eq s t = ite (text_dec s t) true false

-- `strings.HasPrefix`
unfoldable pub has_prefix : Text → Text → Bool
has_prefix s [] = true
has_prefix [] (d ∷ p) = false
has_prefix (c ∷ s) (d ∷ p) = c == d && has_prefix s p

-- The bytes that UTF-8 takes for a code point.
abbrev pub rune_len : ℕ → ℕ
rune_len c = if ltb c 0x80 then 1 else if ltb c 0x800 then 2 else if ltb c 0x10000 then 3 else 4

-- `len` of a string that is given by its code points.
abbrev pub byte_len : Text → ℕ
byte_len [] = 0
byte_len (c ∷ s) = rune_len c + byte_len s
