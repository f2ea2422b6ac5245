-- ===== src/System/Invariant.antt =====
-- What holds of the tunnel maps and the tunnels in every state of the process. The elementary
-- updates of the operations keep it; the child modules follow the operations.
pub mod Touches
pub mod Quiet
pub mod Operations
pub mod Goroutines
pub mod Turns
pub mod Runs
use mqtt_tunnel.Base.{
  ℕ, suc, ◌-◌, ◌<◌, ◌≡◌, Bool, true, false, none, some, [], arith, ◌==◌, if◌then◌else◌, Text,
  lookup, insert, erase, lookup-nil, lookup-insert, lookup-erase,
}
use mqtt_tunnel.World.{World, Tunnel, TunnelRef, TunnelMaps, Conn, no_conn}

-- `s` is the server mode, `m` the maps, `h` the heap and `n` the next free reference.
pub record Consistent (s : Bool) (m : TunnelMaps) (h : TunnelRef → Tunnel) (n : ℕ) : Type 0 where
  -- only a client waits for acks, and only a server for confirms
  pub no_ack : s ≡ true → (id : Text) → lookup id m.ack_waiting ≡ none
  pub no_pending : s ≡ false → (id : Text) → lookup id m.pending_confirms ≡ none
  -- a map's key is the ID of the tunnel that it leads to
  pub ack : (id : Text) (r : ℕ) → lookup id m.ack_waiting ≡ some r → ((h r).id ≡ id) × (r < n)
  pub pending :
      (id : Text) (r : ℕ)
      → lookup id m.pending_confirms ≡ some r
      → ((h r).id ≡ id) × (r < n) × ((h r).confirmed ≡ false)
  pub connected : (id : Text) (r : ℕ) → lookup id m.connected ≡ some r → ((h r).id ≡ id) × (r < n)
  -- the server's connected tunnels were confirmed, and no ID is both pending and connected
  pub confirmed :
      s ≡ true → (id : Text) (r : ℕ) → lookup id m.connected ≡ some r → (h r).confirmed ≡ true
  pub apart :
      (id : Text) (r : ℕ) → lookup id m.pending_confirms ≡ some r → lookup id m.connected ≡ none
  -- the server opens no connection for a tunnel that was not confirmed
  pub undialled : s ≡ true → (r : ℕ) → (h r).confirmed ≡ false → (h r).conn ≡ no_conn

abbrev pub IsConsistent : World → Type 0
IsConsistent w = Consistent w.is_server_mode w.maps w.heap w.next_ref

module _ {s : Bool} {m : TunnelMaps} {h : TunnelRef → Tunnel} {n : ℕ} (v : Consistent s m h n) where
  -- A tunnel changes, but not its ID, nor whether it is confirmed, and it is not connected anew.
  pub store-Consistent :
      (r : ℕ) (t : Tunnel)
      → t.id ≡ (h r).id
      → t.confirmed ≡ (h r).confirmed
      → ((h r).conn ≡ no_conn → t.conn ≡ no_conn)
      → Consistent s m (λ q. if q == r then t else h q) n
  store-Consistent r t i c k = record {
    no_ack = v.no_ack;
    no_pending = v.no_pending;
    ack = λ id q e. ground (arith, v.ack id q e);
    pending = λ id q e. ground (arith, v.pending id q e);
    connected = λ id q e. ground (arith, v.connected id q e);
    confirmed = λ p id q e. ground (arith, v.confirmed p id q e);
    apart = v.apart;
    undialled = λ p q e. ground (arith, v.undialled p q, v.undialled p r);
  }

  -- `alloc` of an unconfirmed tunnel
  pub alloc-Consistent :
      (t : Tunnel)
      → t.confirmed ≡ false
      → (s ≡ true → t.conn ≡ no_conn)
      → Consistent s m (λ q. if q == n then t else h q) (suc n)
  alloc-Consistent t c k = record {
    no_ack = v.no_ack;
    no_pending = v.no_pending;
    ack = λ id q e. ground (arith, v.ack id q e);
    pending = λ id q e. ground (arith, v.pending id q e);
    connected = λ id q e. ground (arith, v.connected id q e);
    confirmed = λ p id q e. ground (arith, v.confirmed p id q e, v.connected id q e);
    apart = v.apart;
    undialled = λ p q e. ground (arith, v.undialled p q, k p);
  }

  pub erase_ack-Consistent :
      (id : Text) → Consistent s (record m { ack_waiting = erase id m.ack_waiting }) h n
  erase_ack-Consistent id = record {
    no_ack = λ p j. ground (arith, lookup-erase j id m.ack_waiting, v.no_ack p j);
    no_pending = v.no_pending;
    ack = λ j q e. ground (arith, lookup-erase j id m.ack_waiting, v.ack j q);
    pending = v.pending;
    connected = v.connected;
    confirmed = v.confirmed;
    apart = v.apart;
    undialled = v.undialled;
  }

  pub erase_pending-Consistent :
      (id : Text) → Consistent s (record m { pending_confirms = erase id m.pending_confirms }) h n
  erase_pending-Consistent id = record {
    no_ack = v.no_ack;
    no_pending = λ p j. ground (arith, lookup-erase j id m.pending_confirms, v.no_pending p j);
    ack = v.ack;
    pending = λ j q e. ground (arith, lookup-erase j id m.pending_confirms, v.pending j q);
    connected = v.connected;
    confirmed = v.confirmed;
    apart = λ j q e. ground (arith, lookup-erase j id m.pending_confirms, v.apart j q);
    undialled = v.undialled;
  }

  pub erase_connected-Consistent :
      (id : Text) → Consistent s (record m { connected = erase id m.connected }) h n
  erase_connected-Consistent id = record {
    no_ack = v.no_ack;
    no_pending = v.no_pending;
    ack = v.ack;
    pending = v.pending;
    connected = λ j q e. ground (arith, lookup-erase j id m.connected, v.connected j q);
    confirmed = λ p j q e. ground (arith, lookup-erase j id m.connected, v.confirmed p j q);
    apart = λ j q e. ground (arith, lookup-erase j id m.connected, v.apart j q e);
    undialled = v.undialled;
  }

  pub clear_ack-Consistent : Consistent s (record m { ack_waiting = [] }) h n
  clear_ack-Consistent = record {
    no_ack = λ p j. lookup-nil j;
    no_pending = v.no_pending;
    ack = λ j q e. ground (arith, lookup-nil {V = ℕ} j);
    pending = v.pending;
    connected = v.connected;
    confirmed = v.confirmed;
    apart = v.apart;
    undialled = v.undialled;
  }

  pub clear_pending-Consistent : Consistent s (record m { pending_confirms = [] }) h n
  clear_pending-Consistent = record {
    no_ack = v.no_ack;
    no_pending = λ p j. lookup-nil j;
    ack = v.ack;
    pending = λ j q e. ground (arith, lookup-nil {V = ℕ} j);
    connected = v.connected;
    confirmed = v.confirmed;
    apart = λ j q e. ground (arith, lookup-nil {V = ℕ} j);
    undialled = v.undialled;
  }

  pub clear_connected-Consistent : Consistent s (record m { connected = [] }) h n
  clear_connected-Consistent = record {
    no_ack = v.no_ack;
    no_pending = v.no_pending;
    ack = v.ack;
    pending = v.pending;
    connected = λ j q e. ground (arith, lookup-nil {V = ℕ} j);
    confirmed = λ p j q e. ground (arith, lookup-nil {V = ℕ} j);
    apart = λ j q e. lookup-nil j;
    undialled = v.undialled;
  }

  -- A client's tunnel starts to wait for its ack.
  pub insert_ack-Consistent :
      (id : Text) (r : ℕ)
      → s ≡ false
      → (h r).id ≡ id
      → r < n
      → Consistent s (record m { ack_waiting = insert id r m.ack_waiting }) h n
  insert_ack-Consistent id r c i b = record {
    no_ack = λ p j. cc;
    no_pending = v.no_pending;
    ack = λ j q e. ground (arith, lookup-insert j id r m.ack_waiting, v.ack j q);
    pending = v.pending;
    connected = v.connected;
    confirmed = v.confirmed;
    apart = v.apart;
    undialled = v.undialled;
  }

  -- A server's new tunnel starts to wait for its confirm; its ID is not connected.
  pub insert_pending-Consistent :
      (id : Text) (r : ℕ)
      → s ≡ true
      → (h r).id ≡ id
      → r < n
      → (h r).confirmed ≡ false
      → lookup id m.connected ≡ none
      → Consistent s (record m { pending_confirms = insert id r m.pending_confirms }) h n
  insert_pending-Consistent id r c i b u f = record {
    no_ack = v.no_ack;
    no_pending = λ p j. cc;
    ack = v.ack;
    pending = λ j q e. ground (arith, lookup-insert j id r m.pending_confirms, v.pending j q);
    connected = v.connected;
    confirmed = v.confirmed;
    apart = λ j q e. ground (arith, lookup-insert j id r m.pending_confirms, v.apart j q);
    undialled = v.undialled;
  }

  -- A tunnel becomes connected: its ID is not pending, and on the server it is confirmed.
  pub insert_connected-Consistent :
      (id : Text) (r : ℕ)
      → (h r).id ≡ id
      → r < n
      → (s ≡ true → (h r).confirmed ≡ true)
      → lookup id m.pending_confirms ≡ none
      → Consistent s (record m { connected = insert id r m.connected }) h n
  insert_connected-Consistent id r i b u f = record {
    no_ack = v.no_ack;
    no_pending = v.no_pending;
    ack = v.ack;
    pending = v.pending;
    connected = λ j q e. ground (arith, lookup-insert j id r m.connected, v.connected j q);
    confirmed = λ p j q e. ground (arith, lookup-insert j id r m.connected, v.confirmed p j q, u p);
    apart = λ j q e. ground (arith, lookup-insert j id r m.connected, v.apart j q e);
    undialled = v.undialled;
  }

  -- A tunnel that no pending entry leads to is confirmed.
  pub confirm-Consistent :
      (r : ℕ) (t : Tunnel)
      → lookup (h r).id m.pending_confirms ≡ none
      → t.id ≡ (h r).id
      → t.confirmed ≡ true
      → Consistent s m (λ q. if q == r then t else h q) n
  confirm-Consistent r t f i c = record {
    no_ack = v.no_ack;
    no_pending = v.no_pending;
    ack = λ id q e. ground (arith, v.ack id q e);
    pending = λ id q e. ground (arith, v.pending id q e);
    connected = λ id q e. ground (arith, v.connected id q e);
    confirmed = λ p id q e. ground (arith, v.confirmed p id q e);
    apart = v.apart;
    undialled = λ p q e. ground (arith, v.undialled p q);
  }
