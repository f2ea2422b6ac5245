-- ===== src/Broker/Filter/Laws.antt =====
-- Which packets pass `controlPacketReceived`, on either side.
use mqtt_tunnel.Base.{◌≡◌, ◌≢◌, ◌↔◌, ◌⊎◌, true, false, arith, has}
use mqtt_tunnel.Control.{
  ControlPacket, connect_request, connect_ack, connect_confirm, failure, connection_closed,
  from_client, from_server, missing,
}
use mqtt_tunnel.World.{World}
use mqtt_tunnel.Broker.Filter.{deliver, nil_maps, control_filter}

-- What a server lets in: a request; a confirm for a pending tunnel; a close notice for a pending or
-- connected tunnel.
abbrev pub ServerAdmits : World → ControlPacket → Type 0
ServerAdmits w p =
    (p.type ≡ connect_request)
    ⊎ ((p.type ≡ connect_confirm) × (has p.tunnel_id w.pending_confirms ≡ true))
    ⊎ ((p.type ≡ connection_closed)
        × ((has p.tunnel_id w.connected ≡ true) ⊎ (has p.tunnel_id w.pending_confirms ≡ true)))

-- What a client lets in, of the packets for its own tunnel: an ack, a close notice, or a failure, and
-- only a failure may come without an origin.
abbrev pub ClientAdmits : ControlPacket → Type 0
ClientAdmits p =
    (p.type ≡ failure)
    ⊎ ((p.type ≡ connect_ack) × (p.origin ≢ missing))
    ⊎ ((p.type ≡ connection_closed) × (p.origin ≢ missing))

module _ (p : ControlPacket) (w : World) where
  -- On a server whose maps are set a packet reaches the main loop exactly if its origin is given and
  -- is not "server", and it is a request, a confirm for a pending tunnel, or a close notice for a
  -- tunnel that is pending or connected.
  pub control_filter-server :
      w.broker.maps_set ≡ true
      → w.broker.server_side ≡ true
      → (control_filter p w ≡ deliver)
        ↔ ((p.origin ≢ from_server) × (p.origin ≢ missing) × ServerAdmits w p)
  unfolding control_filter
  control_filter-server set s = (ground arith, ground arith)

  -- On a client whose maps are set a packet reaches the main loop exactly if it names a tunnel of this
  -- client, its origin is not "client", and it is a failure, or an ack or a close notice with an
  -- origin.
  pub control_filter-client :
      w.broker.maps_set ≡ true
      → w.broker.server_side ≡ false
      → (control_filter p w ≡ deliver) ↔ (
          (p.origin ≢ from_client)
          × ((has p.tunnel_id w.connected ≡ true) ⊎ (has p.tunnel_id w.ack_waiting ≡ true))
          × ClientAdmits p)
  unfolding control_filter
  control_filter-client set s = (ground arith, ground arith)

  -- Until `SetTunnelMaps` has run the maps are nil, and these packets make the callback dereference
  -- nil: on a client an ack, failure or close notice that is not from a client, on a server a confirm
  -- or close notice that is not from a server. No other packet does.
  pub control_filter-nil_maps : (control_filter p w ≡ nil_maps) ↔ (
      (w.broker.maps_set ≡ false)
      × (((w.broker.server_side ≡ true)
            × (p.origin ≢ from_server)
            × ((p.type ≡ connect_confirm) ⊎ (p.type ≡ connection_closed)))
          ⊎ ((w.broker.server_side ≡ false)
              × (p.origin ≢ from_client)
              × ((p.type ≡ connect_ack) ⊎ (p.type ≡ failure) ⊎ (p.type ≡ connection_closed)))))
  unfolding control_filter
  control_filter-nil_maps = (ground arith, ground arith)
