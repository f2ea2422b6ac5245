-- ===== src/System/Lifecycle/Maps.antt =====
-- The updates of the maps by which the handlers move an ID.

use mqtt_tunnel.Base.{
  ◌≡◌, Bool, true, false, none, some, [], arith, Text, lookup, insert, erase, lookup-nil,
  lookup-insert, lookup-erase,
}
use mqtt_tunnel.World.{TunnelMaps, TunnelRef}
use mqtt_tunnel.System.Lifecycle.{
  Status, gone, awaited, joined, status, Move, stays, accepts, joins, gives_up, closes, Moves,
}

-- The edges as a test, which the tactics decide.
abbrev pub may_move : Status → Status → Bool
may_move gone joined = false
may_move gone gone = true
may_move gone awaited = true
may_move awaited t = true
may_move joined awaited = false
may_move joined gone = true
may_move joined joined = true

move_of : (s t : Status) → may_move s t ≡ true → Move s t
move_of gone gone h = stays
move_of gone awaited h = accepts
move_of gone joined h = absurd (ground arith)
move_of awaited gone h = gives_up
move_of awaited awaited h = stays
move_of awaited joined h = joins
move_of joined gone h = closes
move_of joined awaited h = absurd (ground arith)
move_of joined joined h = stays

may-Moves :
    (m n : TunnelMaps)
    → ((j : Text) → may_move (status true m j) (status true n j) ≡ true)
    → Moves true m n
may-Moves m n h j = move_of (status true m j) (status true n j) (h j)

pub Moves-refl : (server : Bool) (m : TunnelMaps) → Moves server m m
Moves-refl server m j = stays

module _ (m : TunnelMaps) (id : Text) where
  pub insert_pending-Moves :
      (r : TunnelRef)
      → lookup id m.pending_confirms ≡ none
      → lookup id m.connected ≡ none
      → Moves true m (record m { pending_confirms = insert id r m.pending_confirms })
  insert_pending-Moves r p c =
      may-Moves m (record m { pending_confirms = insert id r m.pending_confirms })
        λ j. ground (arith, lookup-insert j id r m.pending_confirms)

  pub erase_pending-Moves :
      Moves true m (record m { pending_confirms = erase id m.pending_confirms })
  erase_pending-Moves =
      may-Moves m (record m { pending_confirms = erase id m.pending_confirms })
        λ j. ground (arith, lookup-erase j id m.pending_confirms)

  pub join-Moves :
      {q : TunnelRef} (r : TunnelRef)
      → lookup id m.pending_confirms ≡ some q
      → Moves true m (record m {
        pending_confirms = erase id m.pending_confirms;
        connected = insert id r m.connected;
      })
  join-Moves r p =
      may-Moves m
        (record m {
          pending_confirms = erase id m.pending_confirms;
          connected = insert id r m.connected;
        })
        λ j. ground (arith, lookup-erase j id m.pending_confirms, lookup-insert j id r m.connected)

  pub erase_connected-Moves : Moves true m (record m { connected = erase id m.connected })
  erase_connected-Moves =
      may-Moves m (record m { connected = erase id m.connected })
        λ j. ground (arith, lookup-erase j id m.connected)

-- The client's tunnel starts to wait for its ack; all IDs are gone before.
pub insert_ack-Moves :
    (m : TunnelMaps) (id : Text) (r : TunnelRef)
    → ((j : Text) → status false m j ≡ gone)
    → Moves false m (record m { ack_waiting = insert id r m.ack_waiting })
insert_ack-Moves m id r all j =
    move_of (status false m j)
      (status false (record m { ack_waiting = insert id r m.ack_waiting }) j)
      (ground (arith, lookup-insert j id r m.ack_waiting, all j))

pub nothing-Moves :
    (server : Bool) (m : TunnelMaps)
    → Moves server m (record { ack_waiting = []; pending_confirms = []; connected = [] })
nothing-Moves server m j =
    move_of (status server m j)
      (status server (record { ack_waiting = []; pending_confirms = []; connected = [] }) j)
      (none_left server)
  where
    none_left :
        (s : Bool)
        → may_move
            (status s m j)
            (status s (record { ack_waiting = []; pending_confirms = []; connected = [] }) j)
          ≡ true
    none_left true = ground (arith, lookup-nil {V = TunnelRef} j)
    none_left false = ground (arith, lookup-nil {V = TunnelRef} j)
