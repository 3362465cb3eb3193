-- ===== src/Sender/Alignment.antt =====
-- Packets hold whole messages: what a receiver reads of each packet by itself.
use mclog.Base.{
  ℕ, ◌+◌, ◌≡◌, ◌∙◌, refl, ap, sym, true, false, List, [], ◌∷◌, ◌++◌, map, leb, length, filter, take,
  drop, arith, append-nil, append_assoc, Bool-cases, inl, inr,
}
use mclog.Packet.{Bytes, Aead, MessagePacket, contents, add, has_payload}
use mclog.Packet.Contents.{add_lem}
use mclog.Message.{Message, StreamIo, write_message, write_all, read_stream}
use mclog.Message.RoundTrip.{IsSound}
use mclog.Message.Streams.{AllGood}
use mclog.Sender.{Batch, Transmit, send, take_message, take_all_messages, round, rounds}
use mclog.Sender.Delivery.{start}
use mclog.Sender.Batches.{IsReady, Delivers, send_lem, add-IsReady}
use mclog.Sender.Polls.{
  Poll, wake, wakes, polled, sendable, write_all-append, AllGood-append, AllGood-split,
  read_stream-good, filter-append, read_back, read_back-append, AllSent, AllSent-append, taken,
  timeout,
}

-- The packet holds whole messages, and they follow those that the packets sent are read as.
pub record IsAligned (c : Aead) (io : StreamIo) (size : ℕ) (deliver : List Bytes → Bytes)
    (P : List Bytes → Type 0) (done : List Message) (b : Batch) : Type 0 where
  pub prepared : IsReady c size b.pkt
  pub held : List Message
  pub holds : contents b.pkt ≡ write_all io held
  pub good : AllGood held
  pub all : read_back io deliver b.sent ++ held ≡ done
  pub sent_kind : AllSent P b.sent

-- The batch that a thread begins with, in an empty packet.
pub start-IsAligned :
    (c : Aead) (io : StreamIo) (size : ℕ) (deliver : List Bytes → Bytes) (P : List Bytes → Type 0)
    (p : MessagePacket)
    → IsReady c size p
    → p.tellp ≡ 0
    → IsAligned c io size deliver P [] (start p)
unfolding write_all
start-IsAligned c io size deliver P p prepared empty = record {
  prepared = prepared;
  held = [];
  holds = ap (λ n. take n (drop p.span_start p.buf)) empty;
  good = tt;
  all = refl;
  sent_kind = tt;
}

-- Where the packet holds nothing, everything was sent.
pub all_sent :
    (c : Aead) (io : StreamIo) (size : ℕ) (deliver : List Bytes → Bytes) (P : List Bytes → Type 0)
    (done : List Message) (b : Batch)
    → IsSound io
    → IsAligned c io size deliver P done b
    → b.pkt.tellp ≡ 0
    → read_back io deliver b.sent ≡ done
unfolding write_all
all_sent c io size deliver P done b sound aligned empty =
    let none_held : aligned.held ≡ [] =
      sym (read_stream-good io aligned.held sound aligned.good)
      ∙ ap (read_stream io) (sym aligned.holds)
      ∙ ap (λ n. read_stream io (take n (drop b.pkt.span_start b.pkt.buf))) empty
      ∙ read_stream-good io [] sound tt in
    sym (append-nil (read_back io deliver b.sent))
    ∙ ap (λ t. read_back io deliver b.sent ++ t) (sym none_held)
    ∙ aligned.all

module _ (c : Aead) (io : StreamIo) (sound : IsSound io) (size : ℕ) (transmit : Transmit)
    (deliver : List Bytes → Bytes) (spec : Delivers c size transmit deliver)
    (P : List Bytes → Type 0)
    (passes : (k : ℕ) (p : MessagePacket) → IsReady c size p → P (transmit k p).0) where
  module _ (now : ℕ) (b : Batch) (done : List Message)
      (aligned : IsAligned c io size deliver P done b) where
    sent_all : read_back io deliver (send transmit now b).sent ≡ done
    unfolding send
    sent_all =
        let ds = (transmit b.draws b.pkt).0 in
        read_back-append io deliver b.sent ds
        ∙ ap (λ t. read_back io deliver b.sent ++ read_stream io t)
            (spec.carries b.draws b.pkt aligned.prepared ∙ aligned.holds)
        ∙ ap (λ t. read_back io deliver b.sent ++ t)
            (read_stream-good io aligned.held sound aligned.good)
        ∙ aligned.all

    pub send-IsAligned : IsAligned c io size deliver P done (send transmit now b)
    unfolding write_all send
    send-IsAligned =
        let b' = send transmit now b in
        let (r, empty, same) = send_lem c size transmit deliver spec now b aligned.prepared in
        record {
          prepared = r;
          held = [];
          holds = ap (λ n. take n (drop b'.pkt.span_start b'.pkt.buf)) empty;
          good = tt;
          all = append-nil (read_back io deliver b'.sent) ∙ sent_all;
          sent_kind =
              AllSent-append P b.sent (transmit b.draws b.pkt).0 aligned.sent_kind
                (passes b.draws b.pkt aligned.prepared);
        }

    -- A message that the packet has room for, and one that it has no room for.
    module _ (m : Message) where
      pub add-IsAligned :
          AllGood (m ∷ [])
          → leb (b.pkt.tellp + length (write_message io m)) b.pkt.span_size ≡ true
          → IsAligned c io size deliver P
              (done ++ (m ∷ []))
              (record b { pkt = (add (write_message io m) b.pkt).1 })
      unfolding write_all
      add-IsAligned m_good fits =
          let bs = write_message io m in
          let (added, held, w1, s1, s2, s3) = add_lem bs b.pkt aligned.prepared.outgoing.writing in
          record {
            prepared = add-IsReady c size transmit deliver spec bs b.pkt aligned.prepared;
            held = aligned.held ++ (m ∷ []);
            holds =
                held
                ∙ rw fits (
                    ap (λ t. t ++ bs) aligned.holds
                    ∙ ap (λ t. write_all io aligned.held ++ t) (sym (append-nil bs))
                    ∙ sym (write_all-append io aligned.held (m ∷ [])));
            good = AllGood-append aligned.held (m ∷ []) aligned.good m_good;
            all =
                sym (append_assoc (read_back io deliver b.sent) aligned.held (m ∷ []))
                ∙ ap (λ t. t ++ (m ∷ [])) aligned.all;
            sent_kind = aligned.sent_kind;
          }

      pub skip-IsAligned :
          leb (b.pkt.tellp + length (write_message io m)) b.pkt.span_size ≡ false
          → IsAligned c io size deliver P done
              (record b { pkt = (add (write_message io m) b.pkt).1 })
      skip-IsAligned full =
          let bs = write_message io m in
          let (added, held, w1, s1, s2, s3) = add_lem bs b.pkt aligned.prepared.outgoing.writing in
          record {
            prepared = add-IsReady c size transmit deliver spec bs b.pkt aligned.prepared;
            held = aligned.held;
            holds = held ∙ rw full aligned.holds;
            good = aligned.good;
            all = aligned.all;
            sent_kind = aligned.sent_kind;
          }

  pub take_message-IsAligned :
      (now : ℕ) (m : Message) (b : Batch) (done : List Message)
      → IsAligned c io size deliver P done b
      → AllGood (m ∷ [])
      → IsAligned c io size deliver P
          (done ++ filter (sendable io size) (m ∷ []))
          (take_message transmit now (write_message io m) b)
  unfolding take_message
  take_message-IsAligned now m b done aligned good =
      let bs = write_message io m in
      let (added, held, w1, s1, s2, s3) = add_lem bs b.pkt aligned.prepared.outgoing.writing in
      elim (Bool-cases (leb (b.pkt.tellp + length bs) b.pkt.span_size)) [
        | inl fits ↦
            let one : leb (length bs) size ≡ true = ground (arith, aligned.prepared.sized) in
            rw (added ∙ fits, one, take_message) (add-IsAligned now b done aligned m good fits)
        | inr full ↦
            let b1 = record b { pkt = (add bs b.pkt).1 } in
            let first = skip-IsAligned now b done aligned m full in
            let sent = send-IsAligned now b1 done first in
            let b2 = send transmit now b1 in
            let (r, empty, same) = send_lem c size transmit deliver spec now b1 first.prepared in
            let room : leb (b2.pkt.tellp + length bs) b2.pkt.span_size ≡ leb (length bs) size =
              ground (arith, r.sized, empty) in
            rw (added ∙ full, take_message)
              (elim (Bool-cases (leb (length bs) size)) [
                | inl one ↦ rw one (add-IsAligned now b2 done sent m good (room ∙ one))
                | inr big ↦
                    rw (big, append-nil done) (skip-IsAligned now b2 done sent m (room ∙ big))
              ])
      ]

  take_all_messages-IsAligned :
      (now : ℕ) (ms : List Message) (b : Batch) (done : List Message)
      → IsAligned c io size deliver P done b
      → AllGood ms
      → IsAligned c io size deliver P
          (done ++ filter (sendable io size) ms)
          (take_all_messages transmit now (map (write_message io) ms) b)
  unfolding take_all_messages
  take_all_messages-IsAligned now [] b done aligned good = rw (append-nil done) aligned
  take_all_messages-IsAligned now (m ∷ ms) b done aligned (f, a, good) =
      let first = take_message-IsAligned now m b done aligned (f, a, tt) in
      let bs = write_message io m in
      let one = filter (sendable io size) (m ∷ []) in
      let split : (done ++ one) ++ filter (sendable io size) ms
          ≡ done ++ filter (sendable io size) (m ∷ ms) =
        append_assoc done one (filter (sendable io size) ms)
        ∙ ap (λ t. done ++ t) (sym (filter-append (sendable io size) (m ∷ []) ms)) in
      rw (sym split) (
        take_all_messages-IsAligned now ms (take_message transmit now bs b) (done ++ one) first
          good)

  round-IsAligned :
      (w : Poll) (b : Batch) (done : List Message)
      → IsAligned c io size deliver P done b
      → AllGood (polled (w ∷ []))
      → IsAligned c io size deliver P
          (done ++ filter (sendable io size) (polled (w ∷ [])))
          (round transmit (wake io w) b)
  unfolding round
  round-IsAligned (taken now ms) b done aligned good =
      rw (append-nil ms)
        (take_all_messages-IsAligned now ms b done aligned (AllGood-split ms [] good).0)
  round-IsAligned (timeout now) b done aligned good =
      rw (append-nil done) (elim (Bool-cases (has_payload b.pkt)) [
        | inl some_bytes ↦ rw (some_bytes, round) (send-IsAligned now b done aligned)
        | inr no_bytes ↦ rw (no_bytes, round) aligned
      ])

  polled-cons : (w : Poll) (ws : List Poll) → polled (w ∷ ws) ≡ polled (w ∷ []) ++ polled ws
  polled-cons (taken now ms) ws = ap (λ t. t ++ polled ws) (sym (append-nil ms))
  polled-cons (timeout now) ws = refl

  pub rounds-IsAligned :
      (ws : List Poll) (b : Batch) (done : List Message)
      → IsAligned c io size deliver P done b
      → AllGood (polled ws)
      → IsAligned c io size deliver P
          (done ++ filter (sendable io size) (polled ws))
          (rounds transmit (wakes io ws) b)
  unfolding rounds
  rounds-IsAligned [] b done aligned good = rw (append-nil done) aligned
  rounds-IsAligned (w ∷ ws) b done aligned good =
      let now = polled (w ∷ []) in
      let (g, gs) = AllGood-split now (polled ws) (rw (sym (polled-cons w ws)) good) in
      let first = round-IsAligned w b done aligned g in
      let one = filter (sendable io size) now in
      let split : (done ++ one) ++ filter (sendable io size) (polled ws)
          ≡ done ++ filter (sendable io size) (polled (w ∷ ws)) =
        append_assoc done one (filter (sendable io size) (polled ws))
        ∙ ap (λ t. done ++ t) (sym (filter-append (sendable io size) now (polled ws)))
        ∙ ap (λ t. done ++ filter (sendable io size) t) (sym (polled-cons w ws)) in
      rw (sym split) (rounds-IsAligned ws (round transmit (wake io w) b) (done ++ one) first gs)
