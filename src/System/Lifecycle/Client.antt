-- ===== src/System/Lifecycle/Client.antt =====
-- What a client leaves behind, but for the turn that opens its tunnel: no ID that is gone comes
-- back.
pub mod Handlers
pub mod Events
pub mod Runs
use mqtt_tunnel.System.Lifecycle.{joined, closes, waiting}
use mqtt_tunnel.System.Lifecycle.{
  closes, Move, Moves, Status, awaited, gives_up, gone, joins, status, stays,
}
use mqtt_tunnel.World.{TunnelMaps, TunnelRef, World}
use mqtt_tunnel.Base.{
  ℕ, zero, suc, ◌+◌, ◌-◌, ◌*◌, ◌/◌, ◌%◌, ◌^◌, ◌≤◌, ◌<◌, ◌≡◌, refl, sym, ap, subst, ◌∙◌, ◌≢◌, ◌↔◌,
  ◌⊎◌, inl, inr, ite, dite, if_pos, if_neg, Bool, true, false, not, ◌&&◌, ◌||◌, Option, none, some,
  List, [], ◌∷◌, ◌++◌, map, append-nil, append_assoc, arith, dec_lt, dec_le, ℕ_discrete, ltb, leb,
  ◌==◌, if◌then◌else◌, ==_iff, Bool-cases, Option-cases, is_some, compare_self, if-cases,
  match-cases, length, take, drop, all_of, length-append, all_of-append, All, Text, codes, text_dec,
  text_eq, has_prefix, rune_len, byte_len, Dict, lookup, insert, erase, has, keys, lookup-nil,
  lookup-insert, lookup-erase, lookup-insert_self, lookup-erase_self, ℤ, pos, negsuc, eqb_ℤ, ltb_ℤ,
  leb_ℤ, eqb_ℤ_iff,
}

-- The edges without the one by which an ID comes up, as a test.
abbrev pub may_settle : Status → Status → Bool
may_settle gone gone = true
may_settle gone t = false
may_settle joined awaited = false
may_settle s t = true

-- No ID comes up.
abbrev pub Settles : TunnelMaps → TunnelMaps → Type 0
Settles m n = (j : Text) → may_settle (status false m j) (status false n j) ≡ true

-- Of what a step leaves behind.
abbrev pub Rests : World → World → Type 0
Rests w u =
    Settles w.maps u.maps × (u.is_server_mode ≡ w.is_server_mode) × (u.local_ch ≡ w.local_ch)

pub Settles-refl : (m : TunnelMaps) → Settles m m
Settles-refl m j = ground arith

pub Rests-refl : (w : World) → Rests w w
Rests-refl w = (Settles-refl w.maps, refl, refl)

may_settle-Move : (s t : Status) → may_settle s t ≡ true → Move s t
may_settle-Move gone gone h = stays
may_settle-Move gone awaited h = absurd (ground arith)
may_settle-Move gone joined h = absurd (ground arith)
may_settle-Move awaited gone h = gives_up
may_settle-Move awaited awaited h = stays
may_settle-Move awaited joined h = joins
may_settle-Move joined gone h = closes
may_settle-Move joined awaited h = absurd (ground arith)
may_settle-Move joined joined h = stays

pub Settles-Moves : (m n : TunnelMaps) → Settles m n → Moves false m n
Settles-Moves m n h j = may_settle-Move (status false m j) (status false n j) (h j)

-- An ID that is gone stays gone.
pub Settles-gone :
    (m n : TunnelMaps) (j : Text) → Settles m n → status false m j ≡ gone → status false n j ≡ gone
Settles-gone m n j h e = ground (arith, h j, e)

module _ (m : TunnelMaps) (id : Text) where
  pub erase_ack-Settles : Settles m (record m { ack_waiting = erase id m.ack_waiting })
  erase_ack-Settles j = ground (arith, lookup-erase j id m.ack_waiting)

  pub erase_connected-Settles : Settles m (record m { connected = erase id m.connected })
  erase_connected-Settles j = ground (arith, lookup-erase j id m.connected)

  pub join-Settles :
      {q : TunnelRef} (r : TunnelRef)
      → lookup id m.ack_waiting ≡ some q
      → Settles m
          (record m { ack_waiting = erase id m.ack_waiting; connected = insert id r m.connected })
  join-Settles r e j =
      ground (arith, lookup-erase j id m.ack_waiting, lookup-insert j id r m.connected)
