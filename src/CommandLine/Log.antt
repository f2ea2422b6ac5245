-- ===== src/CommandLine/Log.antt =====
-- `setupLog` of main.go: where the log goes, and the rotation of a log file that has grown. In Go the
-- test `Size() >= 2*maxSize` may wrap for sizes from 2 ^ 62 on; the file is left as it is then, as here.
pub mod Rotation
use mqtt_tunnel.Base.{
  ℕ, zero, suc, ◌-◌, ◌*◌, Bool, true, false, not, ◌&&◌, Option, none, some, List, [], ◌∷◌, ltb, leb,
  ◌==◌, if◌then◌else◌, length, drop, Text, text_eq, ℤ, pos, negsuc, eqb_ℤ,
}
use mqtt_tunnel.Config.{Config}

-- What `os.Stat`, `os.ReadFile` and `os.OpenFile` answer.
pub record LogHost : Type 0 where
  -- whether the file is a regular one, and its size; `none` is an error
  pub stat : Text → Option (Bool × ℕ)
  pub read_file : Text → Option (List ℕ)
  -- whether the file can be opened for appending, and created if asked
  pub open_append : Text → Bool → Bool
  pub open_tty : Bool

pub data Target : Type 0 where
  discards to_tty to_stderr fatal : Target
  appends_to : Text → Target

-- The target, what is written over the log file before, and whether newlines get carriage returns.
pub record LogSetup : Type 0 where
  pub target : Target
  pub rewrites : Option (List ℕ)
  pub raw_terminal : Bool

abbrev pub default_log_file_size : ℤ
default_log_file_size = pos 50000

-- What stands behind the first newline.
pub behind_newline : List ℕ → Option (List ℕ)
behind_newline [] = none
behind_newline (c ∷ s) = let rest = behind_newline s in if c == 10 then some s else rest

-- What replaces the content of a log file, if anything does: its last `max` bytes from the line on
-- that starts in them.
unfoldable pub rotated : ℕ → List ℕ → Option (List ℕ)
unfolding behind_newline
rotated max content =
    if ltb max (length content) then behind_newline (drop (length content - max) content) else none

abbrev pub is_regular : Option (Bool × ℕ) → Bool
is_regular none = false
is_regular (some (regular, size)) = regular

abbrev pub size_of : Option (Bool × ℕ) → ℕ
size_of none = 0
size_of (some (regular, size)) = size

abbrev pub max_size : Config → Option (Bool × ℕ) → ℤ
max_size c st =
    if eqb_ℤ c.log_file_size (pos 0)
    then default_log_file_size
    else if not (is_regular st)
    then default_log_file_size
    else c.log_file_size

abbrev pub opened : LogHost → Text → Bool → Target
opened h file create = if h.open_append file create then appends_to file else fatal

abbrev pub rewritten : ℕ → Option (List ℕ) → Option (List ℕ)
rewritten max none = none
rewritten max (some content) = rotated max content

-- A log file, with the largest size it may have.
abbrev pub log_to_file : LogHost → Text → Option (Bool × ℕ) → ℤ → Target × Option (List ℕ)
log_to_file h file st (negsuc n) = (discards, none)
log_to_file h file st (pos zero) = (discards, none)
log_to_file h file st (pos (suc n)) =
    if is_regular st && leb (2 * suc n) (size_of st)
    then (opened h file false, rewritten (suc n) (h.read_file file))
    else (opened h file true, none)

abbrev pub log_output : LogHost → Config → Bool → Target × Option (List ℕ)
log_output h c is_local =
    if not (text_eq c.log_file [])
    then log_to_file h c.log_file (h.stat c.log_file) (max_size c (h.stat c.log_file))
    else if is_local && h.open_tty
    then (to_tty, none)
    else (to_stderr, none)

unfoldable pub setup_log : LogHost → Config → Bool → LogSetup
unfolding rotated
setup_log h c is_local = record {
  target = (log_output h c is_local).0;
  rewrites = (log_output h c is_local).1;
  raw_terminal = is_local;
}
