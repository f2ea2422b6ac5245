-- ===== src/System/Transport/Order.antt =====
-- The chunks arrive in the order in which they were read, none twice, and none missing but the lost.
use mqtt_tunnel.System.Transport.Rounds.{
  IsReceiving, read_round-appends, publish_round-moves, on_message-appends, write_round-moves,
}
use mqtt_tunnel.System.Transport.Arrivals.{
  Arrivals, Arrivals-same, Arrivals-append, Arrivals-lose, append_assoc_four, regroup,
  Taken-Arrivals,
}
use mqtt_tunnel.System.Transport.{at_start, loses_chunk, written_in}
use mqtt_tunnel.Interleaving.{nothing}
use mqtt_tunnel.System.Transport.{Flow, delivers_chunk, publishes_chunk, reads_chunk, writes_chunk}
use mqtt_tunnel.World.Effects.{Effect}
use mqtt_tunnel.System.Transport.{new_effects, payloads}
use mqtt_tunnel.Tunnel.Io.Relay.{publish_round, write_round}
use mqtt_tunnel.World.{Bytes, TunnelRef, World}
use mqtt_tunnel.Base.{
  ℕ, ◌≡◌, refl, sym, ap, ◌∙◌, List, [], ◌∷◌, ◌++◌, append-nil, append_assoc, Text,
}

abbrev pub Accounted :
    TunnelRef → TunnelRef → World → World → World → List Bytes → List Bytes → ℕ → Type 0
Accounted q r t0 s t read on_way n =
    (log : List Effect) × (t.trace ≡ t0.trace ++ log)
    × Arrivals n (written_in r log ++ ((t.heap r).write_ch ++ (on_way ++ (s.heap q).publish_ch)))
        read

abbrev InOrder :
    TunnelRef → TunnelRef → Text → World → World → World → List Bytes → List Bytes → ℕ → Type 0
InOrder q r topic t0 s t read on_way n =
    ((s.heap q).client_pub_topic ≡ topic)
    × IsReceiving r topic t
    × Accounted q r t0 s t read on_way n

Flow-InOrder :
    {q r : TunnelRef} {topic : Text} {s0 t0 s t : World} {read on_way : List Bytes} {n : ℕ}
    → InOrder q r topic t0 s0 t0 [] [] 0
    → Flow q r topic s0 t0 s t read on_way n
    → InOrder q r topic t0 s t read on_way n
Flow-InOrder z at_start = z
Flow-InOrder {q} {r} z (reads_chunk {s} {s'} {t} {on_way = on_way} b f e) =
    let (a, ready, (log, tr, known)) = Flow-InOrder z f in
    let (more, same) = read_round-appends q b s s' e in
    let w = (t.heap r).write_ch in
    (
      same ∙ a,
      ready,
      (
        log,
        tr,
        Arrivals-same
            (append_assoc_four (written_in r log) w on_way (s.heap q).publish_ch (b ∷ [])
              ∙ ap (λ (l : List Bytes). written_in r log ++ (w ++ (on_way ++ l))) (sym more))
            (Arrivals-append b known),
      ),
    )
Flow-InOrder {q} {r} {topic} z (publishes_chunk {s} {t} {on_way = on_way} env f) =
    let (a, ready, (log, tr, known)) = Flow-InOrder z f in
    let s' = publish_round env q s in
    let (moved, same) = publish_round-moves env q (s.heap q).publish_ch s refl in
    let rest = (s'.heap q).publish_ch in
    let new = payloads topic (new_effects s s') in
    let w = (t.heap r).write_ch in
    let moved' : (s.heap q).publish_ch ≡ new ++ rest =
      sym moved ∙ ap (λ (x : Text). payloads x (new_effects s s') ++ rest) a in
    (
      same ∙ a,
      ready,
      (
        log,
        tr,
        Arrivals-same
            (ap (λ (l : List Bytes). written_in r log ++ (w ++ l))
              (ap (λ (l : List Bytes). on_way ++ l) moved' ∙ sym (append_assoc on_way new rest)))
            known,
      ),
    )
Flow-InOrder {q} {r} z (loses_chunk {s} {t} before b behind f) =
    let (a, ready, (log, tr, known)) = Flow-InOrder z f in
    let w = (t.heap r).write_ch in
    let left = (s.heap q).publish_ch in
    (
      a,
      ready,
      (
        log,
        tr,
        Arrivals-same (sym (regroup (written_in r log) w before behind left)) (
            Arrivals-lose (written_in r log ++ (w ++ before)) b (behind ++ left)
              (Arrivals-same (regroup (written_in r log) w before (b ∷ behind) left) known)),
      ),
    )
Flow-InOrder {q} {r} {topic} z (delivers_chunk {s} {t} {t'} {on_way = on_way} env b f e) =
    let (a, ready, (log, tr, known)) = Flow-InOrder z f in
    let (ready', still, more) = on_message-appends env r topic b t t' ready e in
    let rest = on_way ++ (s.heap q).publish_ch in
    (
      a,
      ready',
      (
        log,
        still ∙ tr,
        Arrivals-same
            (ap (λ (l : List Bytes). written_in r log ++ l)
              (sym (append_assoc (t.heap r).write_ch (b ∷ []) rest)
                ∙ ap (λ (l : List Bytes). l ++ rest) (sym more)))
            known,
      ),
    )
Flow-InOrder {q} {r} {topic} {t0 = t0} z (writes_chunk {s} {t} {read} {on_way} {lost = n} env f) =
    let (a, ready, (log, tr, known)) = Flow-InOrder z f in
    let t' = write_round env r t in
    let (ready', grown, taken) = write_round-moves env r topic (t.heap r).write_ch t refl ready in
    let new = new_effects t t' in
    (
      a,
      ready',
      (
        log ++ new,
        grown ∙ ap (λ (l : List Effect). l ++ new) tr ∙ append_assoc t0.trace log new,
        Taken-Arrivals r log new (t.heap r).write_ch (t'.heap r).write_ch
            (on_way ++ (s.heap q).publish_ch) n read taken known,
      ),
    )

-- From a sender with nothing to publish, and a receiver with nothing to write that has the sender's
-- topic as the data topic of an open tunnel, under any order of reading, publishing, delivering and
-- writing, where the network may lose any chunk on its way and any write may fail: the chunks that
-- were read are, in their order, those that were written to the connection, those that wait to be
-- written, those that are on their way, and those that wait to be published, with as many others in
-- between as the network lost or writes failed for. So none arrives twice or out of order, and none
-- is missing that was not lost.
pub Flow_lem :
    (q r : TunnelRef) (s0 t0 s t : World) (read on_way : List Bytes) (n : ℕ)
    → (s0.heap q).publish_ch ≡ []
    → (t0.heap r).write_ch ≡ []
    → IsReceiving r (s0.heap q).client_pub_topic t0
    → Flow q r (s0.heap q).client_pub_topic s0 t0 s t read on_way n
    → Accounted q r t0 s t read on_way n
Flow_lem q r s0 t0 s t read on_way n none_read none_left ready f =
    let start : InOrder q r (s0.heap q).client_pub_topic t0 s0 t0 [] [] 0 = (
      refl,
      ready,
      (
        [],
        sym (append-nil t0.trace),
        Arrivals-same
            (ap (λ (l : List Bytes). l ++ []) (sym none_left)
              ∙ ap (λ (l : List Bytes). (t0.heap r).write_ch ++ l) (sym none_read))
            ([], refl, nothing),
      ),
    ) in
    let (a, ready', known) = Flow-InOrder start f in known
