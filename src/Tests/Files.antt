-- ===== src/Tests/Files.antt =====
-- The configuration file, the start of the process, and the log file.

use mqtt_tunnel.Config.Comments.{strip_json_comments}
use mqtt_tunnel.Config.File.Reading.{read_config-loaded}
use mqtt_tunnel.Base.{
  ℕ, ◌≡◌, refl, none, some, List, [], ◌∷◌, ◌++◌, map, arith, All, codes, text_dec, has_prefix,
}
use mqtt_tunnel.Config.{Config, zero_config}
use mqtt_tunnel.Config.Commas.{
  ends_in_comma, fix_json_commas, is_property, looks_like_property, missing_comma, trailing_comma,
}
use mqtt_tunnel.Config.Commas.Repair.{
  Fits, Entry, fixed_lines, fix_json_commas_lem, line_of, other_line, lacks, has_and, warnings_from,
}
use mqtt_tunnel.Config.Comments.Pieces.{
  Piece, quoted, remark, aside, other, letter, complete, text_of,
}
use mqtt_tunnel.Config.File.{Host, completed, loaded, lock_taken, read_config}
use mqtt_tunnel.Config.File.Reading.{Reads}
use mqtt_tunnel.Std.Lines.{join_lines}

abbrev the_entries : List Entry
the_entries =
    lacks (codes "  \"topic\": \"home/ssh\"")
    ∷ has_and (codes "  \"server\": \":22\"") [] b' '
    ∷ other_line (codes "}")
    ∷ []

abbrev first_entry : Entry
first_entry = other_line (codes "{")

entries-Fit : All Fits (first_entry ∷ the_entries)
unfolding is_property looks_like_property ends_in_comma has_prefix text_dec
entries-Fit = ground arith

fix_json_commas_lem_example :
    fix_json_commas (join_lines (map line_of (first_entry ∷ the_entries))) ≡ (
      join_lines (fixed_lines (first_entry ∷ the_entries)),
      warnings_from 1 (first_entry ∷ the_entries),
    )
fix_json_commas_lem_example = fix_json_commas_lem first_entry the_entries entries-Fit

entries-warned :
    warnings_from 1 (first_entry ∷ the_entries) ≡ missing_comma 2 ∷ trailing_comma 3 ∷ []
entries-warned = refl

-- The bytes of the file, which are one piece each.
abbrev the_pieces : List Piece
the_pieces =
    remark (codes " mine")
    ∷ aside (codes " a * star *")
    ∷ other b'{'
    ∷ other 10
    ∷ quoted (map letter (codes "topic"))
    ∷ other b':'
    ∷ quoted (map letter (codes "home/ssh"))
    ∷ other 10
    ∷ quoted (map letter (codes "server"))
    ∷ other b':'
    ∷ quoted (map letter (codes ":22"))
    ∷ other 10
    ∷ other b'}'
    ∷ []

-- A host with that file, for which the JSON decoder finds its two keys.
abbrev decoded : Config
decoded = record zero_config {
  broker_url = codes "mqtts://broker.example";
  topic = codes "home/ssh";
  server_addr = codes ":22";
}

abbrev pub a_host : Host
a_host = record {
  read_file = λ path. some (text_of the_pieces complete);
  json_keys = λ text. some (codes "topic" ∷ codes "server" ∷ codes "broker" ∷ []);
  json_config = λ text. some decoded;
  home = codes "/root";
  expand_env = λ s. s;
  eval_symlinks = λ path. none;
  in_config_dir = λ name. codes "/root/.config/mqtt-tunnel/" ++ name;
  try_lock = λ path. lock_taken;
}

abbrev pub host_config : Config
host_config = completed a_host decoded

pub host-reads :
    read_config a_host (codes "/etc/tunnel.json") ≡ loaded host_config (missing_comma 3 ∷ [])
unfolding read_config text_dec has_prefix
host-reads = refl

read_config-loaded_example :
    (buf : List ℕ) × (a_host.read_file (codes "/etc/tunnel.json") ≡ some buf)
    × Reads a_host
        (fix_json_commas (strip_json_comments buf)).0
        (loaded host_config (missing_comma 3 ∷ []))
read_config-loaded_example =
    read_config-loaded a_host (codes "/etc/tunnel.json") host_config (missing_comma 3 ∷ [])
      host-reads
