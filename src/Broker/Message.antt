-- ===== src/Broker/Message.antt =====
-- `onMessage` of tunnel/mqtt.go: where an arriving message goes.
pub mod Routing
pub mod Topics
use mqtt_tunnel.Base.{
  ℕ, ◌&&◌, not, Option, none, some, List, [], Text, text_eq, lookup, if◌then◌else◌,
}
use mqtt_tunnel.Channel.{send}
use mqtt_tunnel.Control.{ControlPacket}
use mqtt_tunnel.World.{World, TunnelRef, Bytes, store}
use mqtt_tunnel.World.Effects.{Env}
use mqtt_tunnel.Broker.Filter.{Verdict, deliver, drop, nil_maps, control_filter}
use mqtt_tunnel.Broker.Ping.{update_activity, start_ping_timer, handle_ping_message}

-- The callback returns, blocks on a full channel, or faults on a nil pointer.
pub data Delivery : Type 0 where
  returns : World → Delivery
  blocks : World → Delivery
  panics : World → Delivery

abbrev pub control_capacity : ℕ
control_capacity = 100

-- `bufferSize*10`
abbrev pub data_capacity : ℕ
data_capacity = 40960

abbrev pub after_send : World → (World → World) → Option (List ControlPacket) → Delivery
after_send w f none = blocks w
after_send w f (some ch) = returns (f (record w { control_ch = ch }))

abbrev pub act_on : Verdict → ControlPacket → (World → World) → World → Delivery
act_on deliver p f w = after_send w f (send control_capacity p w.control_ch)
act_on (drop reason) p f w = returns (f w)
act_on nil_maps p f w = panics w

-- `controlPacketReceived`, with what `onMessage` does behind it. A payload that is no packet is an
-- error, which is logged.
unfoldable pub control_packet_received : Env → Bytes → (World → World) → World → Delivery
unfolding control_filter
control_packet_received env payload f w = elim (env.unmarshal payload) [
  | none ↦ returns (f w)
  | some p ↦ act_on (control_filter p w) p f w
]

abbrev pub to_tunnel : TunnelRef → World → Option (List Bytes) → Delivery
to_tunnel r w none = blocks w
to_tunnel r w (some ch) = returns (store r (record (w.heap r) { write_ch = ch }) w)

abbrev pub data_received : Env → Bytes → Option TunnelRef → World → Delivery
data_received env payload none w = returns w
data_received env payload (some r) w =
    let w' = start_ping_timer env w in
    to_tunnel r w' (send data_capacity payload (w'.heap r).write_ch)

unfoldable pub on_message : Env → Text → Bytes → World → Delivery
unfolding control_packet_received handle_ping_message update_activity start_ping_timer
on_message env topic payload w =
    let w' = update_activity env w in
    if text_eq topic w'.broker.control_topic
    then control_packet_received env payload (start_ping_timer env) w'
    else if not (text_eq w'.broker.ping.ping_topic []) && text_eq topic w'.broker.ping.ping_topic
    then returns (handle_ping_message env payload w')
    else data_received env payload (lookup topic w'.broker.tunnel_topics) w'
