-- ===== src/System/Invariant/Quiet.antt =====
-- Steps that leave the tunnel maps alone, and of a tunnel what the invariant speaks of: its ID,
-- whether it is confirmed, and that no connection is opened.
pub mod Goroutines
pub mod Events
use mqtt_tunnel.Base.{sym, ◌∙◌, subst, ℕ, ◌≡◌, refl, Bool, List, arith, ◌==◌, if◌then◌else◌}
use mqtt_tunnel.World.{World, Tunnel, TunnelRef, TunnelMaps, no_conn}
use mqtt_tunnel.System.Invariant.{Consistent, IsConsistent}

pub record Quietly (s : Bool) (l : List (Unit {0})) (m : TunnelMaps) (h : TunnelRef → Tunnel)
    (n : ℕ) (s' : Bool) (l' : List (Unit {0})) (m' : TunnelMaps) (h' : TunnelRef → Tunnel) (n' : ℕ)
    : Type 0 where
  pub mode : s' ≡ s
  -- the client's connections that wait for a tunnel
  pub local : l' ≡ l
  pub maps : m' ≡ m
  pub next : n' ≡ n
  pub id : (q : TunnelRef) → (h' q).id ≡ (h q).id
  pub confirmed : (q : TunnelRef) → (h' q).confirmed ≡ (h q).confirmed
  pub undialled : (q : TunnelRef) → (h q).conn ≡ no_conn → (h' q).conn ≡ no_conn

abbrev pub Quiet : World → World → Type 0
Quiet w u =
    Quietly w.is_server_mode w.local_ch w.maps w.heap w.next_ref u.is_server_mode u.local_ch u.maps
      u.heap u.next_ref

pub Quiet-refl : (w : World) → Quiet w w
Quiet-refl w = record {
  mode = refl;
  local = refl;
  maps = refl;
  next = refl;
  id = λ q. refl;
  confirmed = λ q. refl;
  undialled = λ q e. e;
}

-- A tunnel changes quietly.
pub store-Quiet :
    (o w : World) (r : TunnelRef) (t : Tunnel)
    → t.id ≡ (w.heap r).id
    → t.confirmed ≡ (w.heap r).confirmed
    → ((w.heap r).conn ≡ no_conn → t.conn ≡ no_conn)
    → Quiet o w
    → Quiet o (record w { heap = λ q. if q == r then t else w.heap q })
store-Quiet o w r t i c k v = record {
  mode = v.mode;
  local = v.local;
  maps = v.maps;
  next = v.next;
  id = λ q. ground (arith, v.id q, v.id r);
  confirmed = λ q. ground (arith, v.confirmed q, v.confirmed r);
  undialled = λ q e. ground (arith, v.undialled q, v.undialled r);
}

-- A heap that changed quietly.
heap-Consistent :
    {s : Bool} {m : TunnelMaps} {h k : TunnelRef → Tunnel} {n : ℕ}
    → ((q : TunnelRef) → (k q).id ≡ (h q).id)
    → ((q : TunnelRef) → (k q).confirmed ≡ (h q).confirmed)
    → ((q : TunnelRef) → (h q).conn ≡ no_conn → (k q).conn ≡ no_conn)
    → Consistent s m h n
    → Consistent s m k n
heap-Consistent i c d v = record {
  no_ack = v.no_ack;
  no_pending = v.no_pending;
  ack = λ id q e. ground (arith, v.ack id q e, i q);
  pending = λ id q e. ground (arith, v.pending id q e, i q, c q);
  connected = λ id q e. ground (arith, v.connected id q e, i q);
  confirmed = λ p id q e. ground (arith, v.confirmed p id q e, c q);
  apart = v.apart;
  undialled = λ p q e. d q (v.undialled p q (sym (c q) ∙ e));
}

pub Quiet-IsConsistent : (w u : World) → Quiet w u → IsConsistent w → IsConsistent u
Quiet-IsConsistent w u q v =
    subst (λ (s : Bool). Consistent s u.maps u.heap u.next_ref) (sym q.mode)
      (subst (λ (m : TunnelMaps). Consistent w.is_server_mode m u.heap u.next_ref) (sym q.maps)
        (subst (λ (n : ℕ). Consistent w.is_server_mode w.maps u.heap n) (sym q.next)
          (heap-Consistent q.id q.confirmed q.undialled v)))
