-- ===== src/Loopback/Turns.antt =====
-- The turns of the daemon over datagrams that arrive on the socket for IPv4.
use mclog.Base.{
  ℕ, ◌-◌, ◌≡◌, ◌≤◌, ◌<◌, ◌∙◌, refl, ap, sym, Bool, true, false, Option, List, [], ◌∷◌, ◌++◌, map,
  some, ltb, length, append-nil, append_assoc, Bool-cases, inl, inr, arith, length-overwrite,
  take_all,
}
use mclog.Packet.{Bytes, Aead, MessagePacket, k_min_packet_len, make_packet, recv_plain}
use mclog.Packet.Transport.{payload_of, recv_plain_lem}
use mclog.Message.{Message, StreamIo, read_stream}
use mclog.Loopback.{Selected, Received, process_all, process_packet, receive_packet, turn, turns}

process_all-append :
    (sinks : List ℕ) (ms ns : List Message)
    → process_all sinks (ms ++ ns) ≡ process_all sinks ms ++ process_all sinks ns
unfolding process_all
process_all-append sinks [] ns = refl
process_all-append sinks (m ∷ ms) ns =
    let one = map (λ sink. (sink, m)) sinks in
    ap (λ t. one ++ t) (process_all-append sinks ms ns)
    ∙ sym (append_assoc one (process_all sinks ms) (process_all sinks ns))

-- The turns in which the datagrams of packets arrive on the socket for IPv4, in their order.
abbrev pub arrivals : List Bytes → List (Option Selected)
arrivals [] = []
arrivals (d ∷ ds) =
    some (record { on4 = true; on6 = false; on_stop = false; datagram = some d }) ∷ arrivals ds

abbrev pub AllFit : ℕ → List Bytes → Type 0
AllFit size [] = Unit
AllFit size (d ∷ ds) = (length d ≤ size) × AllFit size ds

-- What a receiver reads of datagrams, each by itself.
abbrev pub messages_of : Aead → StreamIo → List Bytes → List Message
messages_of c io [] = []
messages_of c io (d ∷ ds) = read_stream io (payload_of c d) ++ messages_of c io ds

length-recv_plain :
    (c : Aead) (d : Bytes) (q : MessagePacket)
    → length d ≤ length q.buf
    → length (recv_plain c (some d) q).1.buf ≡ length q.buf
unfolding recv_plain
length-recv_plain c d q room =
    let same = length-overwrite 0 d q.buf (omega arith) in
    rw (take_all (length q.buf) d room) (ground (arith, same))

-- What is processed of a received packet.
process_packet-recv_plain :
    (c : Aead) (io : StreamIo) (sinks : List ℕ) (d : Bytes) (q : MessagePacket)
    → read_stream io [] ≡ []
    → length d ≤ length q.buf
    → let (rc, r) = recv_plain c (some d) q in
      process_packet c io sinks rc r ≡ process_all sinks (read_stream io (payload_of c d))
unfolding process_packet process_all
process_packet-recv_plain c io sinks d q nothing fits =
    let (read, left, rc) = recv_plain_lem c d q fits in
    rw rc (elim (Bool-cases (ltb (k_min_packet_len c) (length d))) [
      | inl long ↦
          let some_bytes : ltb 0 (length d) ≡ true = ground arith in
          rw (some_bytes, long) (rw (some_bytes, read) refl)
      | inr short ↦
          let no_bytes : length d - k_min_packet_len c ≡ 0 = ground arith in
          elim (Bool-cases (ltb 0 (length d))) [
            | inl few ↦ rw (few, short, no_bytes, nothing) refl
            | inr empty ↦ rw (empty, no_bytes, nothing) refl
          ]
    ])

-- One packet received: every message in it is given to every sink.
receive_packet_lem :
    (c : Aead) (io : StreamIo) (sinks : List ℕ) (d : Bytes) (r : Received)
    → read_stream io [] ≡ []
    → k_min_packet_len c < length r.buf
    → length d ≤ length r.buf
    → (buf : Bytes) × (length buf ≡ length r.buf)
      × (receive_packet c io sinks (some d) r
          ≡ some (record {
            buf = buf;
            processed = r.processed ++ process_all sinks (read_stream io (payload_of c d));
          }))
unfolding receive_packet make_packet
receive_packet_lem c io sinks d r nothing large fits =
    let pkt : MessagePacket = record {
      buf = r.buf;
      span_start = c.nonce_len;
      span_size = length r.buf - k_min_packet_len c;
      tellp = 0;
      payload_length = 0;
    } in
    let made : ltb (k_min_packet_len c) (length r.buf) ≡ true = ground arith in
    (
      (recv_plain c (some d) pkt).1.buf,
      length-recv_plain c d pkt fits,
      rw (made, process_packet-recv_plain c io sinks d pkt nothing fits) refl,
    )

-- The turns over datagrams that fit the buffer.
pub turns-arrivals :
    (c : Aead) (io : StreamIo) (sinks : List ℕ) (open6 : Bool) (ds : List Bytes) (r : Received)
    → read_stream io [] ≡ []
    → k_min_packet_len c < length r.buf
    → AllFit (length r.buf) ds
    → (buf : Bytes) × (turns c io sinks true open6 (arrivals ds) r
        ≡ some (record {
          buf = buf;
          processed = r.processed ++ process_all sinks (messages_of c io ds);
        }))
unfolding turns turn process_all
turns-arrivals c io sinks open6 [] r nothing large fit = (r.buf, rw (append-nil r.processed) refl)
turns-arrivals c io sinks open6 (d ∷ ds) r nothing large (fits, fit) =
    let (buf, same, one) = receive_packet_lem c io sinks d r nothing large fits in
    let first = process_all sinks (read_stream io (payload_of c d)) in
    let r' : Received = record { buf = buf; processed = r.processed ++ first } in
    let (buf', others) =
      turns-arrivals c io sinks open6 ds r' nothing (omega arith) (rw same fit) in
    let joined : (r.processed ++ first) ++ process_all sinks (messages_of c io ds)
        ≡ r.processed ++ process_all sinks (messages_of c io (d ∷ ds)) =
      append_assoc r.processed first (process_all sinks (messages_of c io ds))
      ∙ ap (λ t. r.processed ++ t)
          (sym
            (process_all-append sinks (read_stream io (payload_of c d)) (messages_of c io ds))) in
    (buf', rw (sym joined, one) others)
