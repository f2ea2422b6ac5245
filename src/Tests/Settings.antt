-- ===== src/Tests/Settings.antt =====
-- The configuration file and the topics.
use mqtt_tunnel.Base.{
  ◌≡◌, refl, ◌≢◌, ◌↔◌, true, none, some, List, [], ◌∷◌, arith, all_of, codes, text_dec, has_prefix,
}
use mqtt_tunnel.CommandLine.{crlf, expand_server_addr}
use mqtt_tunnel.CommandLine.Address.{split_host_port-expand_server_addr}
use mqtt_tunnel.Std.HostPort.{split_host_port}
use mqtt_tunnel.Std.HostPort.Loopback.{loopback}
use mqtt_tunnel.CommandLine.Newlines.{crlf_lem, is_returned, missing}
use mqtt_tunnel.Interleaving.{Interleaves}
use mqtt_tunnel.Config.Comments.{strip_json_comments}
use mqtt_tunnel.Config.Comments.Pieces.{
  Piece, Ending, quoted, remark, aside, other, letter, escape, in_aside, text_of, left_in, AllFit,
  strip_json_comments-written,
}
use mqtt_tunnel.Config.Topic.{validate_topic, contains_double_slash, double_slashes}
use mqtt_tunnel.Config.Topic.Laws.{
  is_word, is_full_word, first_segment, other_segments, validate_topic-segments,
}
use mqtt_tunnel.Control.Random.{generate_random_id}
use mqtt_tunnel.World.{World}
use mqtt_tunnel.Broker.{data_topic_root}
use mqtt_tunnel.Broker.Connect.{new_broker, new_ping_topic}
use mqtt_tunnel.Broker.Message.Routing.{IsData}
use mqtt_tunnel.Broker.Message.Topics.{random_topic-IsData}
use mqtt_tunnel.Tunnel.{random_topic}
use mqtt_tunnel.System.{initial}
use mqtt_tunnel.Tests.{friendly, test_config}

-- `{ /* a*b */ "a\"//b" / }`, and a comment that is not closed
abbrev sample : List Piece
sample =
    other b'{'
    ∷ aside (codes " a*b *")
    ∷ quoted (letter b'a' ∷ escape b'"' ∷ letter b'/' ∷ letter b'/' ∷ escape b'\\' ∷ [])
    ∷ other b'/'
    ∷ other b'}'
    ∷ remark (codes " end")
    ∷ []

abbrev unclosed : Ending
unclosed = in_aside (codes " and **")

sample-AllFit : AllFit sample unclosed
sample-AllFit = ground arith

strip_json_comments-written_example :
    strip_json_comments (text_of sample unclosed) ≡ left_in sample unclosed
strip_json_comments-written_example = strip_json_comments-written sample unclosed sample-AllFit

sample-stripped : strip_json_comments (codes "{/* a */\"mqtt://b\"}") ≡ codes "{\"mqtt://b\"}"
unfolding strip_json_comments
sample-stripped = refl

validate_topic-segments_example : (validate_topic friendly (codes "home/ssh") ≡ none) ↔ (
    (codes "home/ssh" ≢ [])
    × (is_word friendly (first_segment (codes "home/ssh")) ≡ true)
    × (all_of (is_full_word friendly) (other_segments (codes "home/ssh")) ≡ true))
validate_topic-segments_example = validate_topic-segments friendly (codes "home/ssh")

double-rejected : validate_topic friendly (codes "home//ssh") ≡ some double_slashes
unfolding validate_topic contains_double_slash text_dec has_prefix
double-rejected = refl

abbrev fresh : World
fresh = initial test_config true (new_broker friendly test_config true (codes "home/ssh/ping/abcd"))

-- The broker object of a process that has not set the maps yet.
abbrev started : World
started = record fresh {
  broker = new_broker friendly test_config true (codes "home/ssh/ping/abcd");
}

ping-drawn : new_ping_topic test_config friendly.random_bytes ≡ some (codes "home/ssh/ping/abcd")
unfolding new_ping_topic generate_random_id
ping-drawn = refl

random_topic-IsData_example : IsData (random_topic (codes "home/ssh") friendly.draw) started
unfolding data_topic_root
random_topic-IsData_example =
    random_topic-IsData friendly test_config true friendly.random_bytes (codes "home/ssh/ping/abcd")
      friendly.draw started ping-drawn refl

crlf_lem_example :
    Interleaves (missing none (codes "a\nb\r\n")) (codes "a\nb\r\n") (crlf (codes "a\nb\r\n"))
    × (is_returned none (crlf (codes "a\nb\r\n")) ≡ true)
crlf_lem_example = crlf_lem (codes "a\nb\r\n")

crlf-run : crlf (codes "a\nb\r\n") ≡ codes "a\r\nb\r\n"
unfolding crlf
crlf-run = refl

split_host_port-expand_server_addr_example :
    split_host_port (expand_server_addr (codes ":22")) ≡ some (loopback, codes "22")
split_host_port-expand_server_addr_example =
    split_host_port-expand_server_addr (codes "22") (ground arith) (ground arith) (ground arith)
