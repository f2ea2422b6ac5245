-- ===== src/Tunnel/Id/Random.antt =====
-- The IDs that a client draws are IDs that a server takes.
use mqtt_tunnel.Base.{
  ℕ, zero, suc, ◌≤◌, ◌<◌, ◌≡◌, refl, inl, inr, Bool, true, ◌&&◌, ◌||◌, none, [], ◌∷◌, arith, leb,
  Bool-cases, length, all_of, All, Text, rune_len, byte_len,
}
use mqtt_tunnel.Control.Random.{random_letters, byte_at, rand_str, length-rand_str}
use mqtt_tunnel.World.Effects.{Env}
use mqtt_tunnel.Tunnel.Id.{is_alphanumeric, validate_tunnel_id}

abbrev pub between : ℕ → ℕ → ℕ → Bool
between a b c = leb a c && leb c b

abbrev pub is_ascii_letter : ℕ → Bool
is_ascii_letter c = between 97 122 c || between 65 90 c

abbrev pub is_ascii_digit : ℕ → Bool
is_ascii_digit c = between 48 57 c

-- What the `unicode` package says of ASCII.
pub record KnowsAscii (env : Env) : Type 0 where
  pub letter : (c : ℕ) → is_ascii_letter c ≡ true → env.is_letter c ≡ true
  pub digit : (c : ℕ) → is_ascii_digit c ≡ true → env.is_digit c ≡ true

abbrev Plain : ℕ → Type 0
Plain c = (is_ascii_letter c || is_ascii_digit c) ≡ true

-- A byte of a table on which a predicate holds throughout.
byte_at-All : (P : ℕ → Type 0) (s : Text) (i : ℕ) → All P s → i < length s → P (byte_at s i)
unfolding byte_at
byte_at-All P [] i all h = absurd (ground arith)
byte_at-All P (c ∷ s) zero (p, all) h = p
byte_at-All P (c ∷ s) (suc i) (p, all) h = byte_at-All P s i all (omega arith)

random_letters-Plain : All Plain random_letters
random_letters-Plain = ground arith

rand_str-Plain : (n : ℕ) (draw : ℕ → ℕ) → ((i : ℕ) → draw i < 62) → All Plain (rand_str n draw)
unfolding rand_str
rand_str-Plain zero draw h = tt
rand_str-Plain (suc n) draw h = (
  byte_at-All Plain random_letters (draw 0) random_letters-Plain (h 0),
  rand_str-Plain n (λ i. draw (suc i)) (λ i. h (suc i)),
)

Plain-alphanumeric : (env : Env) (c : ℕ) → KnowsAscii env → Plain c → is_alphanumeric env c ≡ true
Plain-alphanumeric env c u p = elim (Bool-cases (is_ascii_letter c)) [
  | inl e ↦ ground (arith, u.letter c e)
  | inr e ↦ ground (arith, u.digit c (ground arith))
]

Plain-rune_len : (c : ℕ) → Plain c → rune_len c ≡ 1
Plain-rune_len c p = ground arith

byte_len-Plain : (s : Text) → All Plain s → byte_len s ≡ length s
byte_len-Plain [] all = refl
byte_len-Plain (c ∷ s) (p, all) = omega (arith, Plain-rune_len c p, byte_len-Plain s all)

all_of-Plain :
    (env : Env) (s : Text) → KnowsAscii env → All Plain s → all_of (is_alphanumeric env) s ≡ true
all_of-Plain env [] u all = refl
all_of-Plain env (c ∷ s) u (p, all) =
    ground (arith, Plain-alphanumeric env c u p, all_of-Plain env s u all)

-- If the `unicode` package knows the ASCII letters and digits, a random string of one to six
-- characters is a valid tunnel ID, whatever numbers below 62 are drawn; a client draws six.
pub validate_tunnel_id-rand_str :
    (env : Env) (n : ℕ) (draw : ℕ → ℕ)
    → KnowsAscii env
    → ((i : ℕ) → draw i < 62)
    → 0 < n
    → n ≤ 6
    → validate_tunnel_id env (rand_str n draw) ≡ none
unfolding validate_tunnel_id
validate_tunnel_id-rand_str env n draw u h lo hi =
    let plain : All Plain (rand_str n draw) = rand_str-Plain n draw h in
    ground (
      arith,
      length-rand_str n draw,
      byte_len-Plain (rand_str n draw) plain,
      all_of-Plain env (rand_str n draw) u plain,
    )
