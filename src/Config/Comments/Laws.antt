-- ===== src/Config/Comments/Laws.antt =====
-- Stripping twice strips no more, and what has no slash stays as it is.
use mqtt_tunnel.Base.{ℕ, ◌≡◌, refl, false, List, [], ◌∷◌, arith}
use mqtt_tunnel.Config.Comments.{
  strip_json_comments, Mode, plain, in_string, escaped, line, opening, block, closing, next_is,
  next_mode, keeps, strip,
}

-- The mode in which a second pass meets what the first one keeps.
abbrev settled : Mode → Mode
settled plain = plain
settled in_string = in_string
settled escaped = escaped
settled _ = plain

-- The byte behind a slash that was kept starts no comment in the result either.
strip-head :
    (s : List ℕ)
    → next_is b'/' s ≡ false
    → next_is b'*' s ≡ false
    → (next_is b'/' (strip plain s) ≡ false) × (next_is b'*' (strip plain s) ≡ false)
unfolding strip keeps
strip-head [] p q = (refl, refl)
strip-head (c ∷ s) p q = ground arith

strip-twice : (m : Mode) (s : List ℕ) → strip (settled m) (strip m s) ≡ strip m s
unfolding strip next_mode keeps
strip-twice m [] = refl
strip-twice plain (c ∷ s) = ground (arith, strip-head s, strip-twice (next_mode plain c s) s)
strip-twice in_string (c ∷ s) = ground (arith, strip-twice (next_mode in_string c s) s)
strip-twice escaped (c ∷ s) = ground (arith, strip-twice in_string s)
strip-twice line (c ∷ s) = ground (arith, strip-twice (next_mode line c s) s)
strip-twice opening (c ∷ s) = strip-twice block s
strip-twice block (c ∷ s) = ground (arith, strip-twice (next_mode block c s) s)
strip-twice closing (c ∷ s) = strip-twice plain s

-- Stripping the comments of a text that was stripped before changes nothing: what is left of a text
-- holds no comment, nor do two pieces around a comment make one.
pub strip_json_comments_twice :
    (s : List ℕ) → strip_json_comments (strip_json_comments s) ≡ strip_json_comments s
unfolding strip_json_comments
strip_json_comments_twice s = strip-twice plain s
