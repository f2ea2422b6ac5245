-- ===== src/CommandLine/Newlines.antt =====
-- What the writer for raw terminals puts out.
use mqtt_tunnel.Interleaving.{Interleaves, nothing, from_first, from_second}
use mqtt_tunnel.Base.{
  ℕ, ◌≡◌, refl, inl, inr, Bool, true, not, ◌&&◌, Option, none, some, List, [], ◌∷◌, arith, ◌==◌,
  if◌then◌else◌, Bool-cases,
}
use mqtt_tunnel.CommandLine.{needs_return, with_returns, crlf}

-- A newline, given the byte before it, that does not stand behind a carriage return
abbrev pub is_bare : Option ℕ → ℕ → Bool
is_bare none c = c == b'\n'
is_bare (some b) c = not (b == b'\r') && c == b'\n'

-- Every newline stands behind a carriage return.
abbrev pub is_returned : Option ℕ → List ℕ → Bool
is_returned before [] = true
is_returned before (c ∷ s) = let rest = is_returned (some c) s in not (is_bare before c) && rest

-- A carriage return for each newline that has none
abbrev pub missing : Option ℕ → List ℕ → List ℕ
missing before [] = []
missing before (c ∷ s) =
    let rest = missing (some c) s in if is_bare before c then b'\r' ∷ rest else rest

with_returns-returned : (b : Option ℕ) (s : List ℕ) → is_returned b (with_returns b s) ≡ true
unfolding with_returns
with_returns-returned b [] = refl
with_returns-returned none (c ∷ s) = ground (arith, with_returns-returned (some c) s)
with_returns-returned (some b) (c ∷ s) = ground (arith, with_returns-returned (some c) s)

needs_return-bare : (b : Option ℕ) (c : ℕ) → needs_return b c ≡ is_bare b c
needs_return-bare none c = refl
needs_return-bare (some b) c = ground arith

with_returns-Interleaves :
    (b : Option ℕ) (s : List ℕ) → Interleaves (missing b s) s (with_returns b s)
unfolding with_returns
with_returns-Interleaves b [] = nothing
with_returns-Interleaves b (c ∷ s) = elim (Bool-cases (is_bare b c)) [
  | inl y ↦
      rw (needs_return-bare b c, y)
        (from_first b'\r' (from_second c (with_returns-Interleaves (some c) s)))
  | inr n ↦ rw (needs_return-bare b c, n) (from_second c (with_returns-Interleaves (some c) s))
]

-- What goes to the terminal is the text with one carriage return put in for each newline that does
-- not stand behind one, and nothing else, and there every newline stands behind a carriage return.
pub crlf_lem :
    (p : List ℕ) → Interleaves (missing none p) p (crlf p) × (is_returned none (crlf p) ≡ true)
unfolding crlf
crlf_lem p = (with_returns-Interleaves none p, with_returns-returned none p)
