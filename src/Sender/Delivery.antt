-- ===== src/Sender/Delivery.antt =====
-- The two threads deliver what they took from their queues.
use mclog.Base.{
  ℕ, ◌+◌, ◌-◌, ◌≤◌, ◌<◌, ◌≡◌, ◌∙◌, refl, ap, sym, Bool, true, false, ◌||◌, List, [], ◌∷◌, ◌++◌,
  some, ltb, length, arith, append-nil, length-take, Bool-cases, inl, inr, ltb→lt,
}
use mclog.Packet.{
  Bytes, Aead, MessagePacket, contents, payload, k_min_packet_len, make_packet, reset, has_payload,
  datagram, encrypt, send_encrypted, recv_encrypted,
}
use mclog.Packet.Contents.{IsWriting, reset_lem}
use mclog.Packet.Transport.{payload_of, payload_of-datagram}
use mclog.Packet.Secrecy
use mclog.Packet.Secrecy.{encrypt_ready, recv_encrypted_short, recv_encrypted-send_encrypted}
use mclog.Sender.{
  Batch, Wake, send_loopback, send_multicast, send, rounds, run_loopback, run_multicast, handed,
}
use mclog.Sender.Batches.{kept, IsReady, Delivers, delivered, carried, send_lem, rounds_lem}

-- What a receiver reads of the datagrams of one packet without decryption.
abbrev pub read_plain : Aead → List Bytes → Bytes
read_plain c [] = []
read_plain c (d ∷ ds) = payload_of c d ++ read_plain c ds

-- The batch that a thread begins with, in the packet made of its buffer.
abbrev pub start : MessagePacket → Batch
start p = record { pkt = p; next_send_time = 0; sent = []; draws = 0 }

pub make_packet-IsReady :
    (c : Aead) (buf : Bytes) {p : MessagePacket}
    → make_packet c buf ≡ some p
    → IsReady c (length buf - k_min_packet_len c) p
      × (p.tellp ≡ 0)
      × (k_min_packet_len c < length buf)
unfolding make_packet
make_packet-IsReady c buf made = ground arith

pub send_loopback-Delivers :
    (c : Aead) (size : ℕ) → Delivers c size (send_loopback c) (read_plain c)
unfolding send_loopback reset
send_loopback-Delivers c size = record {
  carries =
      λ k p r. append-nil (payload_of c (datagram c p)) ∙ payload_of-datagram c p p r.outgoing;
  empties = λ k p r. refl;
  keeps = λ k p r. record {
    outgoing = record {
      writing = (reset_lem p r.outgoing.writing).1;
      nonce_room = r.outgoing.nonce_room;
      mac_room = r.outgoing.mac_room;
    };
    sized = r.sized;
  };
}

carried-of-empty :
    (deliver : List Bytes → Bytes) (b : Batch)
    → b.pkt.tellp ≡ 0
    → carried deliver b ≡ delivered deliver b.sent
carried-of-empty deliver b empty = rw empty (append-nil (delivered deliver b.sent))

pub no_payload→empty : (p : MessagePacket) → IsWriting p → has_payload p ≡ false → p.tellp ≡ 0
unfolding has_payload
no_payload→empty p w h = ground arith

-- The messages that the loopback thread took from its queue are all sent by the time it stops, in
-- order and each once, except those that are longer than an empty packet's payload, which are
-- dropped.
pub run_loopback_delivers :
    (c : Aead) (buf : Bytes) (p : MessagePacket) (ws : List Wake)
    → make_packet c buf ≡ some p
    → delivered (read_plain c) (run_loopback c ws (start p)).sent
      ≡ kept (length buf - k_min_packet_len c) (handed ws)
unfolding run_loopback
run_loopback_delivers c buf p ws made =
    let size = length buf - k_min_packet_len c in
    let spec = send_loopback-Delivers c size in
    let (prepared, empty, large) = make_packet-IsReady c buf made in
    let (done, held) =
      rounds_lem c size (send_loopback c) (read_plain c) spec ws (start p) prepared in
    let b = rounds (send_loopback c) ws (start p) in
    let begun : carried (read_plain c) (start p) ≡ [] = rw empty refl in
    let (r1, sent_empty, same) = send_lem c size (send_loopback c) (read_plain c) spec 0 b done in
    let all : carried (read_plain c) b ≡ kept size (handed ws) =
      held ∙ ap (λ t. t ++ kept size (handed ws)) begun in
    elim (Bool-cases (has_payload b.pkt)) [
      | inl some_bytes ↦
          rw (some_bytes, run_loopback)
            (sym (carried-of-empty (read_plain c) (send (send_loopback c) 0 b) sent_empty)
              ∙ same
              ∙ all)
      | inr no_bytes ↦
          rw (no_bytes, run_loopback)
            (sym (
                carried-of-empty (read_plain c) b
                  (no_payload→empty b.pkt done.outgoing.writing no_bytes))
              ∙ all)
    ]

-- What a receiver with the key, and with a packet `q` to receive into, reads of the datagrams of
-- one packet: they are the same datagram, once for each socket.
abbrev pub read_sealed : Aead → Bytes → MessagePacket → List Bytes → Bytes
read_sealed c key q [] = []
read_sealed c key q (d ∷ ds) = payload (recv_encrypted c key (some d) q).1

module _ (c : Aead) (sound : Secrecy.IsSound c) (key : Bytes) (nonces : ℕ → Bytes)
    (nonce_sizes : (k : ℕ) → length (nonces k) ≡ c.nonce_len) (open4 open6 : Bool)
    (one_open : (open4 || open6) ≡ true) (size : ℕ) (q : MessagePacket)
    (room : c.nonce_len + c.mac_len + size ≤ length q.buf) where
  -- The datagram of an encrypted packet.
  reads_sealed :
      (k : ℕ) (p : MessagePacket)
      → IsReady c size p
      → payload (recv_encrypted c key (some (datagram c (encrypt c key (nonces k) p).1)) q).1
        ≡ contents p
  unfolding send_encrypted datagram
  reads_sealed k p r = elim (Bool-cases (ltb 0 p.payload_length)) [
    | inl some_bytes ↦
        let (x, enc, same) = encrypt_ready c sound key (nonces k) (nonce_sizes k) p r.outgoing in
        let (d, sent, read, rc) =
          recv_encrypted-send_encrypted c key (nonces k) p q sound (nonce_sizes k) r.outgoing
            (ltb→lt _ _ some_bytes) (omega arith) in
        let one : datagram c (encrypt c key (nonces k) p).1 ≡ d = ground (arith, sent, enc) in
        rw one read
    | inr no_bytes ↦
        let no_length : p.payload_length ≡ 0 = ground arith in
        let (x, enc, same) = encrypt_ready c sound key (nonces k) (nonce_sizes k) p r.outgoing in
        let e = (encrypt c key (nonces k) p).1 in
        let none_left : e.payload_length ≡ 0 = rw enc no_length in
        let none_written : p.tellp ≡ 0 = omega arith in
        let nothing : [] ≡ contents p = rw none_written refl in
        recv_encrypted_short c key (datagram c e) q
          (omega (arith, length-take (c.nonce_len + c.mac_len + e.payload_length) e.buf, none_left))
        ∙ nothing
  ]

  send_multicast-carries :
      (k : ℕ) (p : MessagePacket)
      → IsReady c size p
      → read_sealed c key q (send_multicast c key nonces open4 open6 k p).0 ≡ contents p
  unfolding send_multicast
  send_multicast-carries k p r =
      let (x, enc, same) = encrypt_ready c sound key (nonces k) (nonce_sizes k) p r.outgoing in
      let read = reads_sealed k p r in
      let ok : (encrypt c key (nonces k) p).0 ≡ true = rw enc refl in
      elim (Bool-cases open4) [
        | inl on ↦ rw (ok, on) read
        | inr off ↦ let on6 : open6 ≡ true = ground arith in rw (ok, off, on6) read
      ]

  send_multicast-Delivers :
      Delivers c size (send_multicast c key nonces open4 open6) (read_sealed c key q)
  unfolding send_multicast reset
  send_multicast-Delivers = record {
    carries = send_multicast-carries;
    empties = λ k p r. refl;
    keeps = λ k p r.
        let (x, enc, same) = encrypt_ready c sound key (nonces k) (nonce_sizes k) p r.outgoing in
        rw enc (record {
          outgoing = record {
            writing = record {
              span_fits = rw same r.outgoing.writing.span_fits;
              tellp_fits = omega arith;
              payload_ends = refl;
            };
            nonce_room = r.outgoing.nonce_room;
            mac_room = rw same r.outgoing.mac_room;
          };
          sized = r.sized;
        });
  }

-- The multicast thread, with sockets open and its key: what receivers with the key read of the
-- datagrams sent, followed by what waits in the packet, is the messages taken from the queue, in
-- order and each once, except those that are longer than an empty packet's payload. What waits
-- when the thread is stopped is not sent.
pub run_multicast_delivers :
    (c : Aead) (buf key : Bytes) (nonces : ℕ → Bytes) (open4 open6 : Bool) (p q : MessagePacket)
    (ws : List Wake)
    → Secrecy.IsSound c
    → ((k : ℕ) → length (nonces k) ≡ c.nonce_len)
    → (open4 || open6) ≡ true
    → make_packet c buf ≡ some p
    → length buf ≤ length q.buf
    → let b = run_multicast c key nonces open4 open6 ws (start p) in
      delivered (read_sealed c key q) b.sent ++ contents b.pkt
      ≡ kept (length buf - k_min_packet_len c) (handed ws)
unfolding run_multicast
run_multicast_delivers c buf key nonces open4 open6 p q ws sound nonce_sizes one_open made room =
    let size = length buf - k_min_packet_len c in
    let (prepared, empty, large) = make_packet-IsReady c buf made in
    let spec =
      send_multicast-Delivers c sound key nonces nonce_sizes open4 open6 one_open size q
        (omega arith) in
    let (done, held) =
      rounds_lem c size (send_multicast c key nonces open4 open6) (read_sealed c key q) spec ws
        (start p) prepared in
    let begun : carried (read_sealed c key q) (start p) ≡ [] = rw empty refl in
    held ∙ ap (λ t. t ++ kept size (handed ws)) begun
