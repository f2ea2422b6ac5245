-- ===== src/CommandLine.antt =====
-- main.go: the writer for raw terminals, and the shorthand for server addresses.
pub mod Newlines
pub mod Keepalive
pub mod Start
pub mod Launch
pub mod Reload
pub mod Log
pub mod Address
use Prim.Native.String.{String}
use mqtt_tunnel.Base.{
  ℕ, ◌+◌, Bool, not, ◌&&◌, Option, none, some, List, [], ◌∷◌, ◌++◌, ◌==◌, if◌then◌else◌, Text,
  codes, has_prefix,
}

-- The loop of `crlfWriter.Write`: a newline gets a carriage return in front of it, unless the byte
-- before it is one. `before` is that byte, `none` at the start.
abbrev pub needs_return : Option ℕ → ℕ → Bool
needs_return none c = c == 10
needs_return (some b) c = c == 10 && not (b == 13)

unfoldable pub with_returns : Option ℕ → List ℕ → List ℕ
with_returns before [] = []
with_returns before (c ∷ s) =
    let rest = with_returns (some c) s in if needs_return before c then 13 ∷ c ∷ rest else c ∷ rest

-- What `crlfWriter.Write` hands to its writer for `p`.
unfoldable pub crlf : List ℕ → List ℕ
unfolding with_returns
crlf p = with_returns none p

-- `expandServerAddr`
unfoldable pub expand_server_addr : Text → Text
expand_server_addr addr = if has_prefix addr (b':' ∷ []) then codes "127.0.0.1" ++ addr else addr
