-- ===== src/Tunnel/Io.antt =====
-- The data path of a tunnel: `mainLoop` of tunnel/tunnel.go, `handleRead` and `handleWrite` of
-- tunnel/tcp.go. A round of a loop is one step.
pub mod Relay
use mqtt_tunnel.Broker.Filter.{is_closed}
use mqtt_tunnel.Base.{
  ℕ, zero, suc, ◌+◌, ◌-◌, ◌*◌, ◌/◌, ◌%◌, ◌^◌, ◌≤◌, ◌<◌, ◌≡◌, refl, sym, ap, subst, ◌∙◌, ◌≢◌, ◌↔◌,
  ◌⊎◌, inl, inr, ite, dite, if_pos, if_neg, Bool, true, false, not, ◌&&◌, ◌||◌, Option, none, some,
  List, [], ◌∷◌, ◌++◌, map, append-nil, append_assoc, arith, dec_lt, dec_le, ℕ_discrete, ltb, leb,
  ◌==◌, if◌then◌else◌, ==_iff, Bool-cases, Option-cases, is_some, compare_self, if-cases,
  match-cases, length, take, drop, all_of, length-append, all_of-append, All, Text, codes, text_dec,
  text_eq, has_prefix, rune_len, byte_len, Dict, lookup, insert, erase, has, keys, lookup-nil,
  lookup-insert, lookup-erase, lookup-insert_self, lookup-erase_self, ℤ, pos, negsuc, eqb_ℤ, ltb_ℤ,
  leb_ℤ, eqb_ℤ_iff,
}
use mqtt_tunnel.Channel.{safe_send, send}
use mqtt_tunnel.World.{
  close_conn, World, Tunnel, TunnelRef, Conn, no_conn, open_conn, closed_conn, Bytes, emit, store,
}
use mqtt_tunnel.World.Effects.{Env, Reply, accepted, writes, fails_to_write}
use mqtt_tunnel.World.Monad.{M, ◌>>◌, return, throw, modify, final, not_connected, write_failed}
use mqtt_tunnel.Broker.{publish, unsubscribe}
use mqtt_tunnel.Broker.Message.{data_capacity}
use mqtt_tunnel.Tunnel.Packets.{create_connection_closed}

-- `conn.Write`. How much of a chunk got out when it fails is not said.
abbrev pub write_result : Reply → TunnelRef → Bytes → M (Unit {0})
write_result accepted r b = modify (emit (writes r b))
write_result _ r b = do modify (emit (fails_to_write r b)); throw write_failed

abbrev pub write_to : Conn → Env → TunnelRef → Bytes → M (Unit {0})
write_to no_conn env r b = throw not_connected
write_to open_conn env r b = write_result env.write_reply r b
write_to closed_conn env r b = throw write_failed

-- `handleWrite`
unfoldable pub handle_write : Env → TunnelRef → Bytes → M (Unit {0})
handle_write env r b w = write_to (w.heap r).conn env r b w

-- What `mainLoop` takes in a round: a payload for the connection, a payload for the broker, the
-- closed `publishCh`, or the end of the program's context.
pub data Round : Type 0 where
  takes_write takes_publish takes_closed context_done : Round

abbrev pub pop_write : Env → TunnelRef → List Bytes → World → World
pop_write env r [] w = w
pop_write env r (b ∷ bs) w =
    final (handle_write env r b (store r (record (w.heap r) { write_ch = bs }) w))

abbrev pub pop_publish : TunnelRef → List Bytes → World → World
pop_publish r [] w = w
pop_publish r (b ∷ bs) w =
    publish (w.heap r).client_pub_topic 0 b (store r (record (w.heap r) { publish_ch = bs }) w)

-- The notice to the other side, unless that side closed first.
unfoldable pub notify_closed : Env → TunnelRef → World → World
unfolding publish
notify_closed env r w =
    if (w.heap r).closed_by_remote
    then w
    else publish w.broker.control_topic 0
        (env.marshal (create_connection_closed w.broker.server_side (w.heap r))) w

-- The signal to our own main loop: the client ends, the server forgets the tunnel.
unfoldable pub signal_closed : TunnelRef → World → World
unfolding safe_send
signal_closed r w =
    if w.broker.server_side
    then record w {
      broker = record w.broker {
        tunnel_closed_ch = (safe_send 10 (w.heap r).id w.broker.tunnel_closed_ch).0;
      };
    }
    else record w {
      broker = record w.broker { tunnel_done_ch = (safe_send 1 tt w.broker.tunnel_done_ch).0 };
    }

abbrev pub leave : Env → TunnelRef → World → World
leave env r w = final (unsubscribe env (w.heap r).server_pub_topic w)

-- Whether a receive from `publishCh` says that it is closed: what was sent before comes first.
abbrev pub is_drained : Bool → List Bytes → Bool
is_drained is_closed [] = is_closed
is_drained is_closed (b ∷ bs) = false

-- One round, in which nothing happens while what it takes is not there; the flag says whether the loop goes on.
unfoldable pub main_loop_round : Env → TunnelRef → Round → World → World × Bool
unfolding handle_write publish notify_closed signal_closed unsubscribe
main_loop_round env r takes_write w = (pop_write env r (w.heap r).write_ch w, true)
main_loop_round env r takes_publish w = (pop_publish r (w.heap r).publish_ch w, true)
main_loop_round env r takes_closed w =
    if is_drained (w.heap r).publish_closed (w.heap r).publish_ch
    then (leave env r (signal_closed r (notify_closed env r w)), false)
    else (w, true)
main_loop_round env r context_done w = (leave env r w, false)

-- What `conn.Read` returns: bytes, or an error (the end of the input is one) with the bytes before it.
pub data ReadResult : Type 0 where
  bytes : Bytes → ReadResult
  ended : Bytes → ReadResult

abbrev pub queue : TunnelRef → World → Option (List Bytes) → Option World
queue r w none = none
queue r w (some ch) = some (store r (record (w.heap r) { publish_ch = ch }) w)

abbrev pub close_publish : TunnelRef → Option World → Option World
close_publish r none = none
close_publish r (some w) =
    some
      (store r (record (w.heap r) { publish_closed = true; conn = close_conn (w.heap r).conn }) w)

-- One round of `handleRead`, with `close(publishCh)` and the deferred `conn.Close()` at its end.
-- `none` means that the reader blocks on the full channel.
unfoldable pub read_round : TunnelRef → ReadResult → World → Option World
unfolding send
read_round r (bytes b) w = queue r w (send data_capacity b (w.heap r).publish_ch)
read_round r (ended []) w = close_publish r (some w)
read_round r (ended (c ∷ b)) w =
    close_publish r (queue r w (send data_capacity (c ∷ b) (w.heap r).publish_ch))
