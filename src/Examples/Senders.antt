-- ===== src/Examples/Senders.antt =====
-- Runs of the threads that send.
use mclog.Base.{◌≡◌, refl, arith, true, false, List, [], ◌∷◌, ◌++◌, some, replicate}
use mclog.Packet.{MessagePacket, make_packet, contents}
use mclog.Sender.{Wake, ready, idle, run_loopback, run_multicast}
use mclog.Sender.Batches.{delivered}
use mclog.Sender.Delivery.{
  read_plain, read_sealed, start, run_loopback_delivers, run_multicast_delivers,
}
use mclog.Examples.{aead, aead-IsSound}

-- Eight bytes, five of them for the payload.
abbrev packet : MessagePacket
packet = record {
  buf = replicate 8 0;
  span_start = 2;
  span_size = 5;
  tellp = 0;
  payload_length = 0;
}

-- The message of six bytes is longer than the payload.
abbrev wakes : List Wake
wakes =
    ready 100 ((1 ∷ 2 ∷ 3 ∷ []) ∷ (4 ∷ 5 ∷ 6 ∷ []) ∷ [])
    ∷ idle 1200
    ∷ ready 1300 (replicate 6 9 ∷ (7 ∷ []) ∷ [])
    ∷ []

packet_made : make_packet aead (replicate 8 0) ≡ some packet
unfolding make_packet
packet_made = refl

run_loopback_delivers_example :
    delivered (read_plain aead) (run_loopback aead wakes (start packet)).sent
    ≡ 1 ∷ 2 ∷ 3 ∷ 4 ∷ 5 ∷ 6 ∷ 7 ∷ []
run_loopback_delivers_example = run_loopback_delivers aead (replicate 8 0) packet wakes packet_made

run_multicast_delivers_example :
    let b = run_multicast aead (3 ∷ []) (λ k. k ∷ 0 ∷ []) true false wakes (start packet) in
    delivered (read_sealed aead (3 ∷ []) packet) b.sent ++ contents b.pkt
    ≡ 1 ∷ 2 ∷ 3 ∷ 4 ∷ 5 ∷ 6 ∷ 7 ∷ []
run_multicast_delivers_example =
    run_multicast_delivers aead (replicate 8 0) (3 ∷ []) (λ k. k ∷ 0 ∷ []) true false packet packet
      wakes aead-IsSound (λ k. refl) refl packet_made (omega arith)
