-- ===== src/Control/Random.antt =====
-- `randStr` of tunnel/control.go and the random IDs of tunnel/mqtt.go. The draws of the random
-- number generator are an argument: `draw i` is what its call number `i` returns.
use mqtt_tunnel.Base.{
  ℕ, zero, suc, ◌-◌, ◌%◌, ◌≡◌, refl, ap, Option, none, some, List, [], ◌∷◌, ltb, if◌then◌else◌,
  length, Text, codes, ℤ, pos, negsuc,
}

abbrev pub random_letters : Text
random_letters = codes "abcdefghijklmnopqrstuvwxyzABCDEFGHIJKLMNOPQRSTUVWXYZ0123456789"

-- `s[i]`; the callers keep `i` in range.
unfoldable pub byte_at : Text → ℕ → ℕ
byte_at [] i = 0
byte_at (c ∷ s) zero = c
byte_at (c ∷ s) (suc i) = byte_at s i

-- `randStr`: `draw i` is `rand.Intn(len(randomLetters))` in round `i`.
unfoldable pub rand_str : ℕ → (ℕ → ℕ) → Text
unfolding byte_at
rand_str zero draw = []
rand_str (suc n) draw = byte_at random_letters (draw 0) ∷ rand_str n (λ i. draw (suc i))

pub length-rand_str : (n : ℕ) (draw : ℕ → ℕ) → length (rand_str n draw) ≡ n
unfolding rand_str
length-rand_str zero draw = refl
length-rand_str (suc n) draw = ap suc (length-rand_str n (λ i. draw (suc i)))

-- `randInt` of tunnel/mqtt.go, on the bytes of `crypto/rand` to come: a byte from the uneven rest of
-- the range is rejected. `none` means that the bytes ran out, so the loop still waits for one.
unfoldable pub rand_int : ℕ → List ℕ → Option (ℕ × List ℕ)
rand_int max [] = none
rand_int max (b ∷ bs) =
    let next = rand_int max bs in if ltb b (256 - 256 % max) then some (b % max, bs) else next

abbrev pub letters : Text
letters = codes "abcdefghijklmnopqrstuvwxyzABCDEFGHIJKLMNOPQRSTUVWXYZ"

abbrev pub alphanum : Text
alphanum = codes "abcdefghijklmnopqrstuvwxyzABCDEFGHIJKLMNOPQRSTUVWXYZ0123456789"

-- `result.WriteByte(…)` of one random character, in front of what the loop still writes.
unfoldable pub random_chars : ℕ → List ℕ → Option (Text × List ℕ)
unfolding rand_int byte_at
random_chars zero bs = some ([], bs)
random_chars (suc n) bs = elim (rand_int 62 bs) [
  | none ↦ none
  | some (i, rest) ↦ elim (random_chars n rest) [
    | none ↦ none
    | some (s, rest') ↦ some (byte_at alphanum i ∷ s, rest')
  ]
]

abbrev effective_length : ℤ → ℕ
effective_length (pos zero) = 6
effective_length (pos (suc n)) = suc n
effective_length (negsuc n) = 6

-- `GenerateRandomID`: a letter, then letters and digits.
unfoldable pub generate_random_id : ℤ → List ℕ → Option (Text × List ℕ)
unfolding rand_int random_chars byte_at
generate_random_id len bs = elim (rand_int 52 bs) [
  | none ↦ none
  | some (i, rest) ↦ elim (random_chars (effective_length len - 1) rest) [
    | none ↦ none
    | some (s, rest') ↦ some (byte_at letters i ∷ s, rest')
  ]
]
