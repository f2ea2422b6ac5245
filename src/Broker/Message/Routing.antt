-- ===== src/Broker/Message/Routing.antt =====
-- Where `onMessage` takes a message.
use mqtt_tunnel.Base.{
  ◌≡◌, ◌≢◌, ◌⊎◌, some, [], ◌∷◌, ◌++◌, arith, ltb, if◌then◌else◌, length, Text, lookup,
}
use mqtt_tunnel.Channel.{send}
use mqtt_tunnel.World.{World, TunnelRef, Bytes, store}
use mqtt_tunnel.World.Effects.{Env}
use mqtt_tunnel.Broker.Ping.{update_activity, start_ping_timer}
use mqtt_tunnel.Broker.Message.{returns, blocks, on_message, data_capacity}

-- A topic that is neither the control topic nor the ping topic.
abbrev pub IsData : Text → World → Type 0
IsData topic w =
    (topic ≢ w.broker.control_topic)
    × ((w.broker.ping.ping_topic ≡ []) ⊎ (topic ≢ w.broker.ping.ping_topic))

start_ping_timer-heap : (env : Env) (w : World) → (start_ping_timer env w).heap ≡ w.heap
unfolding start_ping_timer
start_ping_timer-heap env w = ground arith

-- A message on a data topic that leads to a tunnel is appended to the queue of that tunnel if there
-- is room, and blocks the callback, without touching the tunnel, if there is none. Nothing else
-- changes but the keepalive's times: no other tunnel, no map, no packet for the main loop, and nothing
-- is sent.
pub on_message-data :
    (env : Env) (topic : Text) (payload : Bytes) (w : World) (r : TunnelRef)
    → IsData topic w
    → lookup topic w.broker.tunnel_topics ≡ some r
    → let w' = start_ping_timer env (update_activity env w) in
      on_message env topic payload w ≡ (
        if ltb (length (w.heap r).write_ch) data_capacity
        then returns
            (store r (record (w.heap r) { write_ch = (w.heap r).write_ch ++ (payload ∷ []) }) w')
        else blocks w')
unfolding on_message update_activity start_ping_timer send
on_message-data env topic payload w r (a, b) f = ground (arith, b)
