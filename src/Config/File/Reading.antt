-- ===== src/Config/File/Reading.antt =====
-- What a configuration file is read as, comments and commas included.
use mqtt_tunnel.Base.{
  ℕ, ◌≡◌, refl, sym, ap, subst, ◌∙◌, ◌⊎◌, inl, inr, true, none, some, List, [], ◌∷◌, map, arith,
  if◌then◌else◌, Bool-cases, Option-cases, match-cases, All, Text, codes, text_eq, keys,
}
use mqtt_tunnel.Config.File.{expand_path}
use mqtt_tunnel.Base.{
  ℕ, ◌≡◌, refl, sym, ap, subst, ◌∙◌, inl, inr, true, none, some, List, [], ◌∷◌, map, arith,
  Bool-cases, Option-cases, match-cases, All, Text, keys,
}
use mqtt_tunnel.Config.{Config}
use mqtt_tunnel.Std.Lines.{join_lines}
use mqtt_tunnel.Config.Comments.{strip_json_comments}
use mqtt_tunnel.Config.Comments.Pieces.{
  Piece, Ending, text_of, left_in, AllFit, strip_json_comments-written,
}
use mqtt_tunnel.Config.Commas.{Warning, fix_json_commas}
use mqtt_tunnel.Config.Commas.Repair.{
  Entry, line_of, fixed_lines, warnings_from, Fits, fix_json_commas_lem,
}
use mqtt_tunnel.Config.File.{
  Host, Loaded, loaded, not_loaded, known_keys, one_of, first_unknown, parse_config, read_config,
}

-- A configuration file with comments, whose properties miss commas or have one too many, is read as
-- the file without comments whose lines are fixed, with a warning for each property that was not
-- right.
pub read_config-written :
    (h : Host) (path : Text) (ps : List Piece) (end : Ending) (e : Entry) (es : List Entry)
    → h.read_file path ≡ some (text_of ps end)
    → AllFit ps end
    → left_in ps end ≡ join_lines (map line_of (e ∷ es))
    → All Fits (e ∷ es)
    → read_config h path
      ≡ parse_config h (join_lines (fixed_lines (e ∷ es))) (warnings_from 1 (e ∷ es))
unfolding read_config
read_config-written h path ps end e es f pieces same entries =
    let clean : fix_json_commas (strip_json_comments (text_of ps end))
        ≡ (join_lines (fixed_lines (e ∷ es)), warnings_from 1 (e ∷ es)) =
      ap fix_json_commas (strip_json_comments-written ps end pieces ∙ same)
      ∙ fix_json_commas_lem e es entries in
    rw (f, read_config) (rw clean refl)

-- The tags of the fields of `Config`
abbrev pub config_tags : List Text
config_tags = map codes (
    "broker" ∷ "username" ∷ "password" ∷ "ca-cert" ∷ "client-cert" ∷ "private-key" ∷ "topic"
    ∷ "server" ∷ "log-file" ∷ "log-file-size" ∷ "debug" ∷ "verbose" ∷ "print-lines"
    ∷ "connection-timeout" ∷ "mqtt-keepalive" ∷ "manual-keepalive" ∷ [])

abbrev pub IsOneOf : List Text → Text → Type 0
IsOneOf [] key = ⊥
IsOneOf (k ∷ ks) key = (k ≡ key) ⊎ IsOneOf ks key

-- Every key is the tag of a field.
abbrev pub AllKnown : List Text → Type 0
AllKnown keys = All (λ k. IsOneOf config_tags k) keys

one_of-IsOneOf : (ks : List Text) (key : Text) → one_of ks key ≡ true → IsOneOf ks key
unfolding one_of
one_of-IsOneOf [] key e = absurd (ground arith)
one_of-IsOneOf (k ∷ ks) key e = elim (Bool-cases (text_eq k key)) [
  | inl y ↦ inl (ground arith)
  | inr n ↦ inr (one_of-IsOneOf ks key (ground arith))
]

first_unknown-none : (keys : List Text) → first_unknown keys ≡ none → AllKnown keys
unfolding first_unknown
first_unknown-none [] e = tt
first_unknown-none (k ∷ ks) e = elim (Bool-cases (one_of known_keys k)) [
  | inl y ↦ (one_of-IsOneOf known_keys k y, first_unknown-none ks (ground arith))
  | inr y ↦ absurd (ground arith)
]

-- What was read, if a text was read without an error.
abbrev pub Reads : Host → List ℕ → Loaded → Type 0
Reads h text (not_loaded e ws) = Unit
Reads h text (loaded c ws) =
    (keys : List Text) × (d : Config) × (h.json_keys text ≡ some keys)
    × AllKnown keys
    × (h.json_config text ≡ some d)
    -- what `verbose` and the environment add, and nothing else
    × (c.debug ≡ (if d.verbose then true else d.debug))
    × (c.ca_cert ≡ expand_path h d.ca_cert)
    × (c.client_cert ≡ expand_path h d.client_cert)
    × (c.private_key ≡ expand_path h d.private_key)
    × (c.log_file ≡ expand_path h d.log_file)
    × (c ≡ record d {
      debug = c.debug;
      ca_cert = c.ca_cert;
      client_cert = c.client_cert;
      private_key = c.private_key;
      log_file = c.log_file;
    })

parse_config-Reads :
    (h : Host) (text : List ℕ) (ws : List Warning) → Reads h text (parse_config h text ws)
unfolding parse_config
parse_config-Reads h text ws =
    match-cases (Reads h text) (h.json_keys text) (λ _. tt)
      λ keys k.
        match-cases (Reads h text) (first_unknown keys)
          (λ known.
            match-cases (Reads h text) (h.json_config text) (λ _. tt)
              λ d e. (
                keys,
                d,
                k,
                first_unknown-none keys known,
                e,
                ground arith,
                refl,
                refl,
                refl,
                refl,
                refl,
              ))
          (λ key _. tt)

-- A configuration is loaded only from a file whose clean text is a JSON object with no key that is
-- not the tag of a field, and that decodes as a configuration; it is what was decoded, with the
-- deprecated `verbose` counted as `debug` and the four paths expanded.
pub read_config-loaded :
    (h : Host) (path : Text) (c : Config) (ws : List Warning)
    → read_config h path ≡ loaded c ws
    → (buf : List ℕ) × (h.read_file path ≡ some buf)
      × Reads h (fix_json_commas (strip_json_comments buf)).0 (loaded c ws)
unfolding read_config
read_config-loaded h path c ws r = elim (Option-cases (h.read_file path)) [
  | inl e ↦ absurd (ground arith)
  | inr (buf, e) ↦
      let fixed = fix_json_commas (strip_json_comments buf) in
      let same : parse_config h fixed.0 fixed.1 ≡ loaded c ws =
        sym (rw (e, read_config) refl) ∙ r in
      (buf, e, subst (Reads h fixed.0) same (parse_config-Reads h fixed.0 fixed.1))
]
