-- ===== src/Config/Commas/Repair.antt =====
-- A file whose properties miss commas, or whose last one has one too many, is repaired.
use mqtt_tunnel.Base.{
  ℕ, suc, ◌≡◌, refl, sym, ap, ◌∙◌, ◌≢◌, inl, inr, Bool, true, false, List, [], ◌∷◌, ◌++◌, map,
  arith, if◌then◌else◌, Bool-cases, All, append_assoc,
}
use mqtt_tunnel.Std.Space.{trim_space}
use mqtt_tunnel.Std.Space.Laws.{AllSpaces, trim_space-EndsInComma}
use mqtt_tunnel.Std.Lines.{split_lines, join_lines}
use mqtt_tunnel.Std.Lines.Laws.{split_lines-join_lines}
use mqtt_tunnel.Config.Commas.{
  trailing_comma, missing_comma, fix_json_commas, Warning, ends_in_comma, drop_last, is_property,
  any_property, fix_property, fix_lines,
}

-- A line that is no property, a property whose line does not end in a comma, and one with a comma at
-- its end, which white space may follow.
pub data Entry : Type 0 where
  other_line lacks has : List ℕ → Entry
  has_and : List ℕ → List ℕ → ℕ → Entry

abbrev pub line_of : Entry → List ℕ
line_of (other_line l) = l
line_of (lacks l) = l
line_of (has l) = l ++ (b',' ∷ [])
line_of (has_and l ws c) = l ++ (b',' ∷ (ws ++ (c ∷ [])))

abbrev pub some_property : List Entry → Bool
some_property [] = false
some_property (other_line l ∷ es) = some_property es
some_property (_ ∷ es) = true

-- What becomes of the line of a property, if another property follows, and if none does: the last
-- property loses its last byte, which need not be the comma.
abbrev pub fixed_line : Bool → Entry → List ℕ
fixed_line later (other_line l) = l
fixed_line true (lacks l) = l ++ (b',' ∷ [])
fixed_line true (has l) = l ++ (b',' ∷ [])
fixed_line true (has_and l ws c) = l ++ (b',' ∷ (ws ++ (c ∷ [])))
fixed_line false (lacks l) = l
fixed_line false (has l) = l
fixed_line false (has_and l ws c) = l ++ (b',' ∷ ws)

abbrev pub fixed_lines : List Entry → List (List ℕ)
fixed_lines [] = []
fixed_lines (e ∷ es) = fixed_line (some_property es) e ∷ fixed_lines es

-- What is said of a property: its comma is missing, or one too many.
abbrev pub warning_of : ℕ → Bool → Entry → List Warning
warning_of n later (other_line l) = []
warning_of n true (lacks l) = missing_comma n ∷ []
warning_of n false (lacks l) = []
warning_of n true (has l) = []
warning_of n false (has l) = trailing_comma n ∷ []
warning_of n true (has_and l ws c) = []
warning_of n false (has_and l ws c) = trailing_comma n ∷ []

-- The warnings for the entries from line `n` on.
abbrev pub warnings_from : ℕ → List Entry → List Warning
warnings_from n [] = []
warnings_from n (e ∷ es) = warning_of n (some_property es) e ++ warnings_from (suc n) es

abbrev pub Comma : Entry → Type 0
Comma (other_line l) = is_property l ≡ false
Comma (lacks l) = (is_property l ≡ true) × (ends_in_comma (trim_space l) ≡ false)
Comma (has l) = is_property (l ++ (b',' ∷ [])) ≡ true
Comma (has_and l ws c) =
    (is_property (l ++ (b',' ∷ (ws ++ (c ∷ [])))) ≡ true) × AllSpaces (ws ++ (c ∷ []))

-- One line each, which is what the entry says.
abbrev pub Fits : Entry → Type 0
Fits e = All (λ c. c ≢ 10) (line_of e) × Comma e

ends_in_comma-append : (s : List ℕ) → ends_in_comma (s ++ (b',' ∷ [])) ≡ true
unfolding ends_in_comma
ends_in_comma-append [] = refl
ends_in_comma-append (c ∷ []) = refl
ends_in_comma-append (c ∷ d ∷ s) = ends_in_comma-append (d ∷ s)

drop_last-append : (s : List ℕ) (x : ℕ) → drop_last (s ++ (x ∷ [])) ≡ s
unfolding drop_last
drop_last-append [] x = refl
drop_last-append (c ∷ []) x = refl
drop_last-append (c ∷ d ∷ s) x = ap (◌∷◌ c) (drop_last-append (d ∷ s) x)

drop_last-spaced :
    (l ws : List ℕ) (c : ℕ) → drop_last (l ++ (b',' ∷ (ws ++ (c ∷ [])))) ≡ l ++ (b',' ∷ ws)
drop_last-spaced l ws c =
    ap drop_last (sym (append_assoc l (b',' ∷ ws) (c ∷ []))) ∙ drop_last-append (l ++ (b',' ∷ ws)) c

trimmed-comma :
    (s ws : List ℕ) → AllSpaces ws → ends_in_comma (trim_space (s ++ (b',' ∷ ws))) ≡ true
trimmed-comma s ws all =
    let (t, e) = trim_space-EndsInComma s ws all in ap ends_in_comma e ∙ ends_in_comma-append t

any_property-map :
    (es : List Entry) → All Fits es → any_property (map line_of es) ≡ some_property es
any_property-map [] all = refl
any_property-map (other_line l ∷ es) ((n, p), all) = ground (arith, p, any_property-map es all)
any_property-map (lacks l ∷ es) ((n, (p, c)), all) = ground (arith, p)
any_property-map (has l ∷ es) ((n, p), all) = ground (arith, p)
any_property-map (has_and l ws c ∷ es) ((n, (p, x)), all) = ground (arith, p)

-- What `fixJSONCommas` does with the line of an entry.
abbrev Fixes : ℕ → Bool → Entry → Type 0
Fixes n later e =
    (if is_property (line_of e) then fix_property n later (line_of e) else (line_of e, []))
    ≡ (fixed_line later e, warning_of n later e)

entry-Fixes : (n : ℕ) (later : Bool) (e : Entry) → Fits e → Fixes n later e
unfolding fix_property
entry-Fixes n later (other_line l) (x, p) = rw p refl
entry-Fixes n true (lacks l) (x, (p, c)) = ground (arith, p, c)
entry-Fixes n false (lacks l) (x, (p, c)) = ground (arith, p, c)
entry-Fixes n true (has l) (x, p) = ground (arith, p, trimmed-comma l [] tt)
entry-Fixes n false (has l) (x, p) =
    ground (arith, p, trimmed-comma l [] tt, drop_last-append l b',')
entry-Fixes n true (has_and l ws c) (x, (p, s)) =
    ground (arith, p, trimmed-comma l (ws ++ (c ∷ [])) s)
entry-Fixes n false (has_and l ws c) (x, (p, s)) =
    ground (arith, p, trimmed-comma l (ws ++ (c ∷ [])) s, drop_last-spaced l ws c)

fix_lines_fixed :
    (n : ℕ) (es : List Entry)
    → All Fits es
    → fix_lines n (map line_of es) ≡ (fixed_lines es, warnings_from n es)
unfolding fix_lines
fix_lines_fixed n [] all = refl
fix_lines_fixed n (e ∷ es) (f, all) =
    rw
      (
        any_property-map es all,
        fix_lines_fixed (suc n) es all,
        entry-Fixes n (some_property es) e f,
      )
      refl

line_of-newline_free : (es : List Entry) → All Fits es → All (All (λ c. c ≢ 10)) (map line_of es)
line_of-newline_free [] all = tt
line_of-newline_free (e ∷ es) ((n, c), all) = (n, line_of-newline_free es all)

no_property_fixed :
    (n : ℕ) (es : List Entry)
    → some_property es ≡ false
    → (fixed_lines es ≡ map line_of es) × (warnings_from n es ≡ [])
no_property_fixed n [] e = (refl, refl)
no_property_fixed n (other_line l ∷ es) e =
    let (a, b) = no_property_fixed (suc n) es e in (ap (◌∷◌ l) a, b)
no_property_fixed n (lacks l ∷ es) e = absurd (ground arith)
no_property_fixed n (has l ∷ es) e = absurd (ground arith)
no_property_fixed n (has_and l ws c ∷ es) e = absurd (ground arith)

-- In a file of lines, some of which are properties with or without a comma at their end, which white
-- space may follow, `fixJSONCommas` gives every property but the last one its comma, takes the comma
-- from the last one if nothing follows it there, and else the last byte of the white space, and
-- leaves the other lines as they are. It warns by its number of each line whose comma is missing,
-- and of a last one that has a comma, and of no other.
pub fix_json_commas_lem :
    (e : Entry) (es : List Entry)
    → All Fits (e ∷ es)
    → fix_json_commas (join_lines (map line_of (e ∷ es)))
      ≡ (join_lines (fixed_lines (e ∷ es)), warnings_from 1 (e ∷ es))
unfolding fix_json_commas
fix_json_commas_lem e es all =
    let lines = map line_of (e ∷ es) in
    let split : split_lines (join_lines lines) ≡ lines =
      split_lines-join_lines (line_of e) (map line_of es) (line_of-newline_free (e ∷ es) all) in
    let fixed : fix_lines 1 lines ≡ (fixed_lines (e ∷ es), warnings_from 1 (e ∷ es)) =
      fix_lines_fixed 1 (e ∷ es) all in
    let some : any_property lines ≡ some_property (e ∷ es) = any_property-map (e ∷ es) all in
    elim (Bool-cases (some_property (e ∷ es))) [
      | inl y ↦ ground (arith, split, fixed, some, y)
      | inr y ↦ ground (arith, split, some, y, no_property_fixed 1 (e ∷ es) y)
    ]
