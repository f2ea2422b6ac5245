-- ===== src/Std/HostPort/Loopback.antt =====
-- Splitting an address on the loopback interface.
use mqtt_tunnel.Base.{ℕ, ◌≡◌, refl, ◌≢◌, none, some, [], ◌∷◌, ◌++◌, arith, All, Text, codes}
use mqtt_tunnel.Std.HostPort.{
  index_byte, last_index_byte, finish, plain, starts_bracket, split_host_port,
}

abbrev pub loopback : Text
loopback = codes "127.0.0.1"

index_byte-absent : (b : ℕ) (s : Text) → All (λ c. c ≢ b) s → index_byte b s ≡ none
unfolding index_byte
index_byte-absent b [] all = refl
index_byte-absent b (c ∷ s) (n, all) = ground (arith, n, index_byte-absent b s all)

last_index_byte-absent : (b : ℕ) (s : Text) → All (λ c. c ≢ b) s → last_index_byte b s ≡ none
unfolding last_index_byte
last_index_byte-absent b [] all = refl
last_index_byte-absent b (c ∷ s) (n, all) = ground (arith, n, last_index_byte-absent b s all)

-- A port without colons and brackets behind the loopback address splits off.
pub split_host_port-loopback :
    (port : Text)
    → All (λ c. c ≢ b':') port
    → All (λ c. c ≢ b'[') port
    → All (λ c. c ≢ b']') port
    → split_host_port (loopback ++ (b':' ∷ port)) ≡ some (loopback, port)
unfolding split_host_port plain finish index_byte last_index_byte starts_bracket
split_host_port-loopback port a b c =
    rw
      (
        last_index_byte-absent b':' port a,
        index_byte-absent b'[' port b,
        index_byte-absent b']' port c,
      )
      refl
