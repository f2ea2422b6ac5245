-- ===== src/Control.antt =====
-- tunnel/control.go: the control packets of the wire protocol.
pub mod Random
use Prim.Native.String.{String}
use mqtt_tunnel.Base.{Text, codes, ℤ, pos, text_eq, if◌then◌else◌}

-- `controlType` is a string with five named values; `unknown` stands for any other string.
pub data ControlType : Type 0 where
  connect_request connect_ack connect_confirm failure connection_closed : ControlType
  unknown : Text → ControlType

-- The string that goes over the wire.
unfoldable pub type_text : ControlType → Text
type_text connect_request = codes "connect"
type_text connect_ack = codes "connect_ack"
type_text connect_confirm = codes "connect_confirm"
type_text failure = codes "failure"
type_text connection_closed = codes "closed"
type_text (unknown s) = s

-- The value that a string of the wire stands for.
unfoldable pub read_type : Text → ControlType
read_type s =
    if text_eq s (codes "connect")
    then connect_request
    else if text_eq s (codes "connect_ack")
    then connect_ack
    else if text_eq s (codes "connect_confirm")
    then connect_confirm
    else if text_eq s (codes "failure")
    then failure
    else if text_eq s (codes "closed")
    then connection_closed
    else unknown s

-- The `origin` field: "client", "server", the empty string, or another string.
pub data Origin : Type 0 where
  from_client from_server missing : Origin
  other : Text → Origin

abbrev pub failure_reason_invalid_id : Text
failure_reason_invalid_id = codes "invalid tunnel id: must be 1-6 alphanumeric characters"

abbrev pub failure_reason_id_in_use : Text
failure_reason_id_in_use = codes "tunnel id already in use"

abbrev pub protocol_version : ℤ
protocol_version = pos 3

pub record ControlPacket : Type 0 where
  pub type : ControlType
  pub tunnel_id : Text
  pub version : ℤ
  pub origin : Origin
  pub local_port : ℤ
  pub client_pub_topic : Text
  pub remote_port : ℤ
  pub server_pub_topic : Text
  pub root_topic : Text
  pub reason : Text

-- Go's zero value: a field that a composite literal leaves out.
abbrev pub zero_packet : ControlType → Text → Origin → ControlPacket
zero_packet type id origin = record {
  type = type;
  tunnel_id = id;
  version = pos 0;
  origin = origin;
  local_port = pos 0;
  client_pub_topic = codes "";
  remote_port = pos 0;
  server_pub_topic = codes "";
  root_topic = codes "";
  reason = codes "";
}
