-- ===== src/Config/Comments/Pieces.antt =====
-- A text described by its pieces, and what `stripJSONComments` leaves of each.
use mqtt_tunnel.Base.{
  ℕ, ◌≡◌, refl, sym, ap, ◌∙◌, ◌≢◌, ◌⊎◌, false, List, [], ◌∷◌, ◌++◌, append-nil, append_assoc, arith,
  All,
}
use mqtt_tunnel.Config.Comments.{
  plain, in_string, line, block, next_is, next_mode, keeps, strip, strip_json_comments,
}

-- What a string literal is made of: a byte, or a backslash and the byte that it escapes.
pub data Letter : Type 0 where
  letter escape : ℕ → Letter

-- A string literal, a comment to the end of the line, a comment in between, or another byte.
pub data Piece : Type 0 where
  quoted : List Letter → Piece
  remark aside : List ℕ → Piece
  other : ℕ → Piece

-- How the text ends: with its last piece, or within a literal or a comment.
pub data Ending : Type 0 where
  complete : Ending
  in_quotes : List Letter → Ending
  in_remark in_aside : List ℕ → Ending

abbrev pub spelled : List Letter → List ℕ
spelled [] = []
spelled (letter c ∷ ls) = c ∷ spelled ls
spelled (escape c ∷ ls) = b'\\' ∷ c ∷ spelled ls

abbrev pub written : Piece → List ℕ
written (quoted ls) = b'"' ∷ (spelled ls ++ (b'"' ∷ []))
written (remark b) = b'/' ∷ b'/' ∷ (b ++ (10 ∷ []))
written (aside b) = b'/' ∷ b'*' ∷ (b ++ (b'*' ∷ b'/' ∷ []))
written (other c) = c ∷ []

abbrev pub written_end : Ending → List ℕ
written_end complete = []
written_end (in_quotes ls) = b'"' ∷ spelled ls
written_end (in_remark b) = b'/' ∷ b'/' ∷ b
written_end (in_aside b) = b'/' ∷ b'*' ∷ b

-- Literals stay, whatever they hold; a comment goes, up to its newline.
abbrev pub left_of : Piece → List ℕ
left_of (quoted ls) = b'"' ∷ (spelled ls ++ (b'"' ∷ []))
left_of (remark b) = 10 ∷ []
left_of (aside b) = []
left_of (other c) = c ∷ []

abbrev pub left_of_end : Ending → List ℕ
left_of_end complete = []
left_of_end (in_quotes ls) = b'"' ∷ spelled ls
left_of_end (in_remark b) = []
left_of_end (in_aside b) = []

-- A quote or a backslash within a literal is escaped.
abbrev pub IsLetter : Letter → Type 0
IsLetter (letter c) = (c ≢ b'"') × (c ≢ b'\\')
IsLetter (escape c) = Unit

-- No star stands before a slash.
abbrev pub IsOpen : List ℕ → Type 0
IsOpen [] = Unit
IsOpen (c ∷ b) = ((c ≢ b'*') ⊎ (next_is b'/' b ≡ false)) × IsOpen b

-- The piece is what it says, in front of the text `s`: a slash by itself starts no comment there.
abbrev pub Fits : Piece → List ℕ → Type 0
Fits (quoted ls) s = All IsLetter ls
Fits (remark b) s = All (λ c. c ≢ 10) b
Fits (aside b) s = IsOpen b
Fits (other c) s = (c ≢ b'"') × ((c ≢ b'/') ⊎ ((next_is b'/' s ≡ false) × (next_is b'*' s ≡ false)))

abbrev pub EndFits : Ending → Type 0
EndFits complete = Unit
EndFits (in_quotes ls) = All IsLetter ls
EndFits (in_remark b) = All (λ c. c ≢ 10) b
EndFits (in_aside b) = IsOpen b

abbrev pub text_of : List Piece → Ending → List ℕ
text_of [] e = written_end e
text_of (p ∷ ps) e = written p ++ text_of ps e

abbrev pub left_in : List Piece → Ending → List ℕ
left_in [] e = left_of_end e
left_in (p ∷ ps) e = left_of p ++ left_in ps e

abbrev pub AllFit : List Piece → Ending → Type 0
AllFit [] e = EndFits e
AllFit (p ∷ ps) e = Fits p (text_of ps e) × AllFit ps e

strip-spelled :
    (ls : List Letter) (s : List ℕ)
    → All IsLetter ls
    → strip in_string (spelled ls ++ s) ≡ spelled ls ++ strip in_string s
unfolding strip next_mode keeps
strip-spelled [] s all = refl
strip-spelled (letter c ∷ ls) s ((q, e), all) = ground (arith, q, e, strip-spelled ls s all)
strip-spelled (escape c ∷ ls) s (u, all) =
    ap (λ (t : List ℕ). b'\\' ∷ c ∷ t) (strip-spelled ls s all)

strip-quoted :
    (ls : List Letter) (s : List ℕ)
    → All IsLetter ls
    → strip in_string ((spelled ls ++ (b'"' ∷ [])) ++ s)
      ≡ (spelled ls ++ (b'"' ∷ [])) ++ strip plain s
unfolding strip next_mode keeps
strip-quoted ls s all =
    ap (strip in_string) (append_assoc (spelled ls) (b'"' ∷ []) s)
    ∙ strip-spelled ls (b'"' ∷ s) all
    ∙ sym (append_assoc (spelled ls) (b'"' ∷ []) (strip plain s))

strip-remark :
    (b s : List ℕ) → All (λ c. c ≢ 10) b → strip line ((b ++ (10 ∷ [])) ++ s) ≡ 10 ∷ strip plain s
unfolding strip next_mode keeps
strip-remark [] s all = refl
strip-remark (c ∷ b) s (n, all) = ground (arith, n, strip-remark b s all)

strip-aside :
    (b s : List ℕ) → IsOpen b → strip block ((b ++ (b'*' ∷ b'/' ∷ [])) ++ s) ≡ strip plain s
unfolding strip next_mode keeps
strip-aside [] s all = refl
strip-aside (c ∷ []) s (n, all) = ground (arith, n)
strip-aside (c ∷ d ∷ b) s (n, all) = ground (arith, n, strip-aside (d ∷ b) s all)

strip-piece :
    (p : Piece) (s : List ℕ) → Fits p s → strip plain (written p ++ s) ≡ left_of p ++ strip plain s
unfolding strip next_mode keeps
strip-piece (quoted ls) s h = ap (◌∷◌ b'"') (strip-quoted ls s h)
strip-piece (remark b) s h = strip-remark b s h
strip-piece (aside b) s h = strip-aside b s h
strip-piece (other c) s (q, n) = ground (arith, q, n)

strip-in_remark : (b : List ℕ) → All (λ c. c ≢ 10) b → strip line b ≡ []
unfolding strip next_mode keeps
strip-in_remark [] all = refl
strip-in_remark (c ∷ b) (n, all) = ground (arith, n, strip-in_remark b all)

strip-in_aside : (b : List ℕ) → IsOpen b → strip block b ≡ []
unfolding strip next_mode keeps
strip-in_aside [] all = refl
strip-in_aside (c ∷ b) (n, all) = ground (arith, n, strip-in_aside b all)

strip-end : (e : Ending) → EndFits e → strip plain (written_end e) ≡ left_of_end e
unfolding strip next_mode keeps
strip-end complete h = refl
strip-end (in_quotes ls) h = ap (◌∷◌ b'"') (
    ap (strip in_string) (sym (append-nil (spelled ls)))
    ∙ strip-spelled ls [] h
    ∙ append-nil (spelled ls))
strip-end (in_remark b) h = strip-in_remark b h
strip-end (in_aside b) h = strip-in_aside b h

-- In a text that is made of string literals, comments and other bytes, and may end within a literal
-- or a comment, `stripJSONComments` leaves the literals and the other bytes as they are, the newline
-- of each `//` comment that has one, and nothing of each `/*` comment. Literals may hold escapes,
-- comments anything but their end, and a slash that starts no comment is one of the other bytes. A
-- text that ends with a backslash in a literal is not described.
pub strip_json_comments-written :
    (ps : List Piece) (e : Ending) → AllFit ps e → strip_json_comments (text_of ps e) ≡ left_in ps e
unfolding strip_json_comments strip
strip_json_comments-written [] e h = strip-end e h
strip_json_comments-written (p ∷ ps) e (h, all) =
    strip-piece p (text_of ps e) h
    ∙ ap (λ (s : List ℕ). left_of p ++ s) (strip_json_comments-written ps e all)
