-- ===== src/Stdio.antt =====
-- tunnel/stdio.go: standard input and output as a connection. `Read` and `Write` hold the lock only to
-- look at their flag and to set it, so `Close` may come while one of them is at work; one goroutine
-- reads (`handleRead`), and one writes (`mainLoop`).
pub mod Closing
pub mod StdioTunnel
use Prim.Native.String.{String}
use mqtt_tunnel.Base.{
  Text, codes, Option, some, ◌++◌, ◌≡◌, Bool, true, false, ◌||◌, ℕ, List, [], ◌∷◌,
}

-- `Read` works on the standard input, and `Write` on the standard output.
pub data Side : Type 0 where
  input output : Side

-- `stdioAddr`, its `Network` and its `String`
pub record StdioAddr : Type 0 where
  pub addr : Text

abbrev pub network : StdioAddr → Text
network a = codes "stdio"

abbrev pub to_text : StdioAddr → Text
to_text a = a.addr

-- `StdioConnection`, whose `LocalAddr` and `RemoteAddr` are its fields, and which calls are between
-- their two critical sections.
pub record Stdio : Type 0 where
  pub read_closed : Bool
  pub write_closed : Bool
  pub reading : Bool
  pub writing : Bool
  pub local_addr : StdioAddr
  pub remote_addr : StdioAddr

abbrev pub closed : Side → Stdio → Bool
closed input c = c.read_closed
closed output c = c.write_closed

abbrev pub busy : Side → Stdio → Bool
busy input c = c.reading
busy output c = c.writing

-- `NewStdioConnection`
abbrev pub new_stdio_connection : Stdio
new_stdio_connection = record {
  read_closed = false;
  write_closed = false;
  reading = false;
  writing = false;
  local_addr = record { addr = codes "stdio-local" };
  remote_addr = record { addr = codes "stdio-remote" };
}

-- `SetDeadline`, `SetReadDeadline` and `SetWriteDeadline`
pub data Deadline : Type 0 where
  any_deadline read_deadline write_deadline : Deadline

abbrev pub deadline_call : Deadline → Text
deadline_call any_deadline = codes "SetDeadline"
deadline_call read_deadline = codes "SetReadDeadline"
deadline_call write_deadline = codes "SetWriteDeadline"

-- The error of each, which sets nothing.
abbrev pub set_deadline : Deadline → Stdio → Option Text × Stdio
set_deadline d c = (some (deadline_call d ++ codes " not implemented for StdioConnection"), c)

-- The first half of `Read` or `Write`, if the flag is not set.
unfoldable pub begin : Side → Stdio → Stdio
begin input c = record c { reading = true }
begin output c = record c { writing = true }

-- The second half, given whether the call of the standard stream failed.
unfoldable pub finish : Side → Bool → Stdio → Stdio
finish input failed c = record c { reading = false; read_closed = c.read_closed || failed }
finish output failed c = record c { writing = false; write_closed = c.write_closed || failed }

-- `Close`
unfoldable pub close : Stdio → Stdio
close c = record c { read_closed = true; write_closed = true }

pub data Happening : Type 0 where
  begins : Side → Happening
  -- with the bytes that were read or written, and whether there was an error
  returns : Side → List ℕ → Bool → Happening
  -- no bytes, and `io.EOF` or `io.ErrClosedPipe`
  refused : Side → Happening
  closes : Happening

pub data Step : Stdio → Happening → Stdio → Type 0 where
  start :
      {c : Stdio} (s : Side) → closed s c ≡ false → busy s c ≡ false → Step c (begins s) (begin s c)
  answer :
      {c : Stdio} (s : Side) (bytes : List ℕ) (failed : Bool)
      → busy s c ≡ true
      → Step c (returns s bytes failed) (finish s failed c)
  refuse : {c : Stdio} (s : Side) → closed s c ≡ true → busy s c ≡ false → Step c (refused s) c
  closing : {c : Stdio} → Step c closes (close c)

-- A run of a new connection with its history, newest first.
pub data Run : Stdio → List Happening → Type 0 where
  opened : Run new_stdio_connection []
  goes :
      {c d : Stdio} {h : Happening} {past : List Happening}
      → Run c past
      → Step c h d
      → Run d (h ∷ past)
