-- ===== src/System/Transport.antt =====
-- The data path between two processes: `handleRead` and `mainLoop` of the one, a broker that keeps
-- the order of the messages of a topic, and `onMessage` and `mainLoop` of the other.
pub mod Rounds
pub mod Arrivals
pub mod Order
pub mod EndToEnd
use mqtt_tunnel.World.Effects.{fails_to_write, writes}
use mqtt_tunnel.Broker.Message.{on_message}
use mqtt_tunnel.Tunnel.Io.{bytes, read_round}
use mqtt_tunnel.Tunnel.Io.Relay.{publish_round, write_round}
use mqtt_tunnel.World.{Bytes, TunnelRef, World}
use mqtt_tunnel.World.Effects.{Effect, Env, publishes}
use mqtt_tunnel.Broker.Message.{returns}
use mqtt_tunnel.Base.{
  ℕ, zero, suc, ◌+◌, ◌-◌, ◌*◌, ◌/◌, ◌%◌, ◌^◌, ◌≤◌, ◌<◌, ◌≡◌, refl, sym, ap, subst, ◌∙◌, ◌≢◌, ◌↔◌,
  ◌⊎◌, inl, inr, ite, dite, if_pos, if_neg, Bool, true, false, not, ◌&&◌, ◌||◌, Option, none, some,
  List, [], ◌∷◌, ◌++◌, map, append-nil, append_assoc, arith, dec_lt, dec_le, ℕ_discrete, ltb, leb,
  ◌==◌, if◌then◌else◌, ==_iff, Bool-cases, Option-cases, is_some, compare_self, if-cases,
  match-cases, length, take, drop, all_of, length-append, all_of-append, All, Text, codes, text_dec,
  text_eq, has_prefix, rune_len, byte_len, Dict, lookup, insert, erase, has, keys, lookup-nil,
  lookup-insert, lookup-erase, lookup-insert_self, lookup-erase_self, ℤ, pos, negsuc, eqb_ℤ, ltb_ℤ,
  leb_ℤ, eqb_ℤ_iff,
}

-- The payloads that were published on a topic.
abbrev pub payloads : Text → List Effect → List Bytes
payloads topic [] = []
payloads topic (publishes t qos b ∷ es) =
    let rest = payloads topic es in if text_eq t topic then b ∷ rest else rest
payloads topic (_ ∷ es) = payloads topic es

abbrev pub written_by : TunnelRef → Effect → List Bytes
written_by r (writes q b) = if q == r then b ∷ [] else []
written_by r _ = []

-- The chunks that were written to the connection of the tunnel at `r`
abbrev pub written_in : TunnelRef → List Effect → List Bytes
written_in r [] = []
written_in r (e ∷ es) = written_by r e ++ written_in r es

-- How many writes failed
abbrev pub failures : List Effect → ℕ
failures [] = 0
failures (fails_to_write q b ∷ es) = suc (failures es)
failures (_ ∷ es) = failures es

-- What a step put on the trace.
abbrev pub new_effects : World → World → List Effect
new_effects w w' = drop (length w.trace) w'.trace

-- From the worlds `s0` and `t0`, with the tunnels `q` and `r`: where the two processes are, which
-- chunks were read on the one side, which are on their way on the topic, and how many are lost. The
-- steps come in any order, each with its own environment. The code publishes with QoS 0 and does not
-- look at the token, so any chunk on its way may be lost; nor does it write a chunk again for which
-- `Write` has failed.
pub data Flow (q r : TunnelRef) (topic : Text) (s0 t0 : World)
    : World → World → List Bytes → List Bytes → ℕ → Type 0 where
  at_start : Flow q r topic s0 t0 s0 t0 [] [] 0
  reads_chunk :
      {s s' t : World} {read on_way : List Bytes} {lost : ℕ} (b : Bytes)
      → Flow q r topic s0 t0 s t read on_way lost
      → read_round q (bytes b) s ≡ some s'
      → Flow q r topic s0 t0 s' t (read ++ (b ∷ [])) on_way lost
  publishes_chunk :
      {s t : World} {read on_way : List Bytes} {lost : ℕ} (env : Env)
      → Flow q r topic s0 t0 s t read on_way lost
      → Flow q r topic s0 t0
          (publish_round env q s)
          t
          read
          (on_way ++ payloads topic (new_effects s (publish_round env q s)))
          lost
  loses_chunk :
      {s t : World} {read : List Bytes} {lost : ℕ} (before : List Bytes) (b : Bytes)
      (behind : List Bytes)
      → Flow q r topic s0 t0 s t read (before ++ (b ∷ behind)) lost
      → Flow q r topic s0 t0 s t read (before ++ behind) (suc lost)
  delivers_chunk :
      {s t t' : World} {read on_way : List Bytes} {lost : ℕ} (env : Env) (b : Bytes)
      → Flow q r topic s0 t0 s t read (b ∷ on_way) lost
      → on_message env topic b t ≡ returns t'
      → Flow q r topic s0 t0 s t' read on_way lost
  writes_chunk :
      {s t : World} {read on_way : List Bytes} {lost : ℕ} (env : Env)
      → Flow q r topic s0 t0 s t read on_way lost
      → Flow q r topic s0 t0 s
          (write_round env r t)
          read
          on_way
          (failures (new_effects t (write_round env r t)) + lost)
