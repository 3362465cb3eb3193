-- ===== src/Loopback/Delivery.antt =====
-- From the queue of a program's logger to the sinks of the daemon.
use mclog.Base.{
  ℕ, ◌+◌, ◌-◌, ◌≡◌, ◌≤◌, ◌∙◌, refl, ap, sym, Bool, true, List, [], ◌∷◌, ◌++◌, flatten, some, length,
  filter, append-nil, append_assoc, Bool-cases, inl, inr, arith,
}
use mclog.Packet.{Bytes, Aead, MessagePacket, datagram, k_min_packet_len, make_packet, has_payload}
use mclog.Packet.Transport.{payload_of, length-datagram}
use mclog.Message.{StreamIo, read_stream, write_all}
use mclog.Message.RoundTrip.{IsSound}
use mclog.Message.Streams.{AllGood}
use mclog.Sender.{send_loopback, send, rounds, run_loopback}
use mclog.Sender.Batches.{IsReady, send_lem}
use mclog.Sender.Delivery.{
  start, no_payload→empty, read_plain, make_packet-IsReady, send_loopback-Delivers,
}
use mclog.Sender.Polls.{Poll, wakes, polled, sendable, read_back, read_stream-good, AllSent}
use mclog.Sender.Alignment.{IsAligned, start-IsAligned, all_sent, rounds-IsAligned, send-IsAligned}
use mclog.Loopback.{Received, process_all, turns}
use mclog.Loopback.Turns.{arrivals, AllFit, messages_of, turns-arrivals}

-- A packet that is read as its datagrams are, each by itself, none of them longer than `size`.
abbrev IsSeparate : Aead → StreamIo → ℕ → List Bytes → Type 0
IsSeparate c io size ds = (messages_of c io ds ≡ read_stream io (read_plain c ds)) × AllFit size ds

messages_of-append :
    (c : Aead) (io : StreamIo) (ds es : List Bytes)
    → messages_of c io (ds ++ es) ≡ messages_of c io ds ++ messages_of c io es
messages_of-append c io [] es = refl
messages_of-append c io (d ∷ ds) es =
    let one = read_stream io (payload_of c d) in
    ap (λ t. one ++ t) (messages_of-append c io ds es)
    ∙ sym (append_assoc one (messages_of c io ds) (messages_of c io es))

AllFit-append :
    (size : ℕ) (ds es : List Bytes) → AllFit size ds → AllFit size es → AllFit size (ds ++ es)
AllFit-append size [] es f g = g
AllFit-append size (d ∷ ds) es (fits, f) g = (fits, AllFit-append size ds es f g)

AllFit-weaken : (m n : ℕ) (ds : List Bytes) → m ≤ n → AllFit m ds → AllFit n ds
AllFit-weaken m n [] le fit = tt
AllFit-weaken m n (d ∷ ds) le (fits, fit) = (omega arith, AllFit-weaken m n ds le fit)

sent_lem :
    (c : Aead) (io : StreamIo) (size : ℕ) (sent : List (List Bytes))
    → AllSent (IsSeparate c io size) sent
    → (messages_of c io (flatten sent) ≡ read_back io (read_plain c) sent)
      × AllFit size (flatten sent)
unfolding mathlib.Core.List.flatten
sent_lem c io size [] all = (refl, tt)
sent_lem c io size (ds ∷ sent) ((same, fits), all) =
    let (others, fit) = sent_lem c io size sent all in
    (
      messages_of-append c io ds (flatten sent)
          ∙ ap (λ t. t ++ messages_of c io (flatten sent)) same
          ∙ ap (λ t. read_stream io (read_plain c ds) ++ t) others,
      AllFit-append size ds (flatten sent) fits fit,
    )

send_loopback-IsSeparate :
    (c : Aead) (io : StreamIo) (size : ℕ) (k : ℕ) (p : MessagePacket)
    → IsReady c size p
    → IsSeparate c io (k_min_packet_len c + size) (send_loopback c k p).0
unfolding send_loopback
send_loopback-IsSeparate c io size k p r =
    let one = payload_of c (datagram c p) in
    (
      append-nil (read_stream io one) ∙ ap (read_stream io) (sym (append-nil one)),
      (omega (arith, length-datagram c p p r.outgoing, r.outgoing.writing, r.sized), tt),
    )

-- Once the thread has ended, its packets hold every message that has room in one.
run_loopback-sent :
    (c : Aead) (io : StreamIo) (buf : Bytes) (p : MessagePacket) (ws : List Poll)
    → IsSound io
    → make_packet c buf ≡ some p
    → AllGood (polled ws)
    → let size = length buf - k_min_packet_len c in
      let sent = (run_loopback c (wakes io ws) (start p)).sent in
      (read_back io (read_plain c) sent ≡ filter (sendable io size) (polled ws))
      × AllSent (IsSeparate c io (k_min_packet_len c + size)) sent
unfolding run_loopback
run_loopback-sent c io buf p ws sound made good =
    let size = length buf - k_min_packet_len c in
    let (prepared, empty, large) = make_packet-IsReady c buf made in
    let spec = send_loopback-Delivers c size in
    let P = IsSeparate c io (k_min_packet_len c + size) in
    let passes = send_loopback-IsSeparate c io size in
    let kept = filter (sendable io size) (polled ws) in
    let begun : IsAligned c io size (read_plain c) P [] (start p) =
      start-IsAligned c io size (read_plain c) P p prepared empty in
    let done =
      rounds-IsAligned c io sound size (send_loopback c) (read_plain c) spec P passes ws (start p)
        [] begun good in
    let b = rounds (send_loopback c) (wakes io ws) (start p) in
    elim (Bool-cases (has_payload b.pkt)) [
      | inl some_bytes ↦
          let last =
            send-IsAligned c io sound size (send_loopback c) (read_plain c) spec P passes 0 b kept
              done in
          let b' = send (send_loopback c) 0 b in
          let (r, empty, same) =
            send_lem c size (send_loopback c) (read_plain c) spec 0 b done.prepared in
          rw (some_bytes, run_loopback)
            (all_sent c io size (read_plain c) P kept b' sound last empty, last.sent_kind)
      | inr no_bytes ↦
          let empty = no_payload→empty b.pkt done.prepared.outgoing.writing no_bytes in
          rw (no_bytes, run_loopback)
            (all_sent c io size (read_plain c) P kept b sound done empty, done.sent_kind)
    ]

-- Where every message that a program's thread takes from its queue is acceptable, the daemon
-- receives the thread's datagrams in their order, into a buffer that is at least as long as the
-- thread's, and libDwm's forms work as documented: once the thread has ended, each sink was given
-- every message that the thread took, in order and once, except those whose form is longer than an
-- empty packet's payload; and nothing else was given to any sink.
pub turns-run_loopback :
    (c : Aead) (io : StreamIo) (buf : Bytes) (p : MessagePacket) (ws : List Poll) (sinks : List ℕ)
    (open6 : Bool) (r : Received)
    → IsSound io
    → make_packet c buf ≡ some p
    → AllGood (polled ws)
    → length buf ≤ length r.buf
    → let size = length buf - k_min_packet_len c in
      let sent = flatten (run_loopback c (wakes io ws) (start p)).sent in
      (buf' : Bytes) × (turns c io sinks true open6 (arrivals sent) r
        ≡ some (record {
          buf = buf';
          processed = r.processed ++ process_all sinks (filter (sendable io size) (polled ws));
        }))
unfolding write_all
turns-run_loopback c io buf p ws sinks open6 r sound made good room =
    let size = length buf - k_min_packet_len c in
    let sent = (run_loopback c (wakes io ws) (start p)).sent in
    let (prepared, empty, large) = make_packet-IsReady c buf made in
    let (all, kind) = run_loopback-sent c io buf p ws sound made good in
    let (same, fit) = sent_lem c io (k_min_packet_len c + size) sent kind in
    let fit_buffer =
      AllFit-weaken (k_min_packet_len c + size) (length r.buf) (flatten sent) (omega arith) fit in
    let (buf', run) =
      turns-arrivals c io sinks open6 (flatten sent) r (read_stream-good io [] sound tt)
        (omega arith) fit_buffer in
    (buf', rw (sym (same ∙ all)) run)
