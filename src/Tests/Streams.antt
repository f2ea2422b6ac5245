-- ===== src/Tests/Streams.antt =====
-- Standard input and output as a connection.
use mqtt_tunnel.System.Transport.Order.{Accounted}
use mqtt_tunnel.System.Transport.{loses_chunk}
use mqtt_tunnel.Stdio.StdioTunnel.{five_seconds, start_tunnel, start_tunnel-fails}
use mqtt_tunnel.System.{connection_made, takes_control}
use mqtt_tunnel.System.Invariant.{IsConsistent}
use mqtt_tunnel.System.Invariant.Runs.{initial-IsConsistent}
use mqtt_tunnel.Tests.{a_client}
use mqtt_tunnel.World.Monad.{Error, fail}
use mqtt_tunnel.Broker.{publish}
use mqtt_tunnel.Channel.{send}
use mqtt_tunnel.System.{initial}
use mqtt_tunnel.System.Transport.{Flow, at_start, publishes_chunk, reads_chunk}
use mqtt_tunnel.System.Transport.Rounds.{IsReceiving}
use mqtt_tunnel.System.Transport.Order.{Flow_lem}
use mqtt_tunnel.Tests.{busy_tunnel, friendly, holding, test_broker, test_config}
use mqtt_tunnel.Tunnel.Io.{bytes, main_loop_round, read_round}
use mqtt_tunnel.Tunnel.Io.Relay.{publish_round}
use mqtt_tunnel.World.{Tunnel, World, store}
use mqtt_tunnel.Base.{
  ◌≤◌, ◌≡◌, refl, inr, true, false, some, List, [], ◌∷◌, arith, codes, text_dec, lookup, pos,
}
use mqtt_tunnel.Stdio.{
  Stdio, Happening, Run, input, closed, new_stdio_connection, begins, returns, refused, closes,
  start, answer, refuse, closing, opened, goes, begin, finish, close,
}
use mqtt_tunnel.Stdio.Closing.{ended, late, Run-late}

-- `Close` comes while `Read` is at work, and the next `Read` is refused.
abbrev closed_at_work : List Happening
closed_at_work = refused input ∷ returns input (codes "late") false ∷ closes ∷ begins input ∷ []

abbrev all_closed : Stdio
all_closed = record new_stdio_connection { read_closed = true; write_closed = true }

the_run : Run all_closed closed_at_work
unfolding begin finish close
the_run =
    goes
      (goes (goes (goes opened (start input refl refl)) closing)
        (answer input (codes "late") false refl))
      (refuse input refl refl)

Run-late_example :
    (closed input all_closed ≡ ended input closed_at_work) × (late input closed_at_work ≤ 1)
Run-late_example = Run-late input the_run

one-late : late input closed_at_work ≡ 1
one-late = refl

-- A tunnel with nothing to write and to publish, at the two ends.
abbrev idle_tunnel : Tunnel
idle_tunnel = record busy_tunnel { write_ch = []; publish_ch = [] }

abbrev sender : World
sender = holding false idle_tunnel

abbrev receiver : World
receiver =
    record (initial test_config true
      (record (test_broker true) { tunnel_topics = (codes "home/ssh/up", 0) ∷ [] })) {
        heap = λ r. idle_tunnel;
        next_ref = 1;
      }

abbrev with_chunk : World
with_chunk = store 0 (record idle_tunnel { publish_ch = codes "one" ∷ [] }) sender

receiver-IsReceiving : IsReceiving 0 (codes "home/ssh/up") receiver
unfolding initial lookup text_dec
receiver-IsReceiving = (((λ e. ground arith), inr (λ e. ground arith)), refl, refl)

chunk-read : read_round 0 (bytes (codes "one")) sender ≡ some with_chunk
unfolding initial read_round send
chunk-read = refl

one-chunk :
    Flow 0 0 (codes "home/ssh/up") sender receiver with_chunk receiver (codes "one" ∷ []) [] 0
one-chunk = reads_chunk (codes "one") at_start chunk-read

-- The chunk is published, and lost on its way.
one-lost :
    Flow 0 0
      (codes "home/ssh/up")
      sender
      receiver
      (publish_round friendly 0 with_chunk)
      receiver
      (codes "one" ∷ [])
      []
      1
unfolding initial main_loop_round publish text_dec
one-lost = loses_chunk [] (codes "one") [] (publishes_chunk friendly one-chunk)

Flow_lem_example :
    Accounted 0 0 receiver (publish_round friendly 0 with_chunk) receiver (codes "one" ∷ []) [] 1
unfolding initial
Flow_lem_example =
    Flow_lem 0 0 sender receiver (publish_round friendly 0 with_chunk) receiver (codes "one" ∷ [])
      [] 1 refl refl receiver-IsReceiving one-lost

-- A client whose main loop opens no tunnel
abbrev passive_client : World
passive_client = record a_client { local_ch = [] }

passive_client-IsConsistent : IsConsistent passive_client
unfolding initial
passive_client-IsConsistent = initial-IsConsistent test_config false (test_broker false)

start_tunnel-fails_example :
    (e : Error) × (u : World) × (start_tunnel friendly
        (pos 22)
        ((friendly, connection_made) ∷ (friendly, takes_control) ∷ [])
        five_seconds
        passive_client
      ≡ fail e u)
unfolding initial lookup
start_tunnel-fails_example =
    start_tunnel-fails friendly (pos 22)
      ((friendly, connection_made) ∷ (friendly, takes_control) ∷ []) five_seconds passive_client
      refl passive_client-IsConsistent refl refl
