-- ===== src/Sender/Batches.antt =====
-- What the packets of a run carry, for any way of sending a packet.
use mclog.Base.{
  ℕ, ◌+◌, ◌≡◌, ◌∙◌, refl, ap, sym, true, List, [], ◌∷◌, ◌++◌, leb, if◌then◌else◌, length, arith,
  append-nil, append_assoc, Bool-cases, inl, inr,
}
use mclog.Packet.{Bytes, Aead, MessagePacket, contents, add, has_payload}
use mclog.Packet.Contents.{add_lem}
use mclog.Packet.Transport.{IsOutgoing}
use mclog.Sender.{
  Batch, Wake, ready, idle, Transmit, send, take_message, take_all_messages, round, rounds, handed,
}

-- The messages that an empty packet has room for, one behind the other.
abbrev pub kept : ℕ → List Bytes → Bytes
kept size [] = []
kept size (m ∷ ms) = (if leb (length m) size then m else []) ++ kept size ms

kept-append : (size : ℕ) (ms ns : List Bytes) → kept size (ms ++ ns) ≡ kept size ms ++ kept size ns
kept-append size [] ns = refl
kept-append size (m ∷ ms) ns =
    let one : Bytes = if leb (length m) size then m else [] in
    ap (λ t. one ++ t) (kept-append size ms ns)
    ∙ sym (append_assoc one (kept size ms) (kept size ns))

-- A packet of a run: outgoing, with `size` bytes for the payload.
pub record IsReady (c : Aead) (size : ℕ) (p : MessagePacket) : Type 0 where
  pub outgoing : IsOutgoing c p
  pub sized : p.span_size ≡ size

-- What the datagrams of all packets deliver, where `deliver` is what those of one packet do.
abbrev pub delivered : (List Bytes → Bytes) → List (List Bytes) → Bytes
delivered deliver [] = []
delivered deliver (ds ∷ sent) = deliver ds ++ delivered deliver sent

-- What was delivered and what waits in the packet, in order.
abbrev pub carried : (List Bytes → Bytes) → Batch → Bytes
carried deliver b = delivered deliver b.sent ++ contents b.pkt

module _ (c : Aead) (size : ℕ) (transmit : Transmit) (deliver : List Bytes → Bytes) where
  -- Sending empties the packet, keeps it ready, and its datagrams deliver what the packet held.
  pub record Delivers : Type 0 where
    pub carries :
        (k : ℕ) (p : MessagePacket) → IsReady c size p → deliver (transmit k p).0 ≡ contents p
    pub empties : (k : ℕ) (p : MessagePacket) → IsReady c size p → (transmit k p).1.tellp ≡ 0
    pub keeps : (k : ℕ) (p : MessagePacket) → IsReady c size p → IsReady c size (transmit k p).1

  delivered-append :
      (sent : List (List Bytes)) (ds : List Bytes)
      → delivered deliver (sent ++ (ds ∷ [])) ≡ delivered deliver sent ++ deliver ds
  delivered-append [] ds = append-nil (deliver ds)
  delivered-append (x ∷ sent) ds =
      ap (λ t. deliver x ++ t) (delivered-append sent ds)
      ∙ sym (append_assoc (deliver x) (delivered deliver sent) (deliver ds))

  module _ (spec : Delivers) where
    -- A packet sent: nothing is lost, and the packet is ready again and empty.
    pub send_lem :
        (now : ℕ) (b : Batch)
        → IsReady c size b.pkt
        → let b' = send transmit now b in
          IsReady c size b'.pkt × (b'.pkt.tellp ≡ 0) × (carried deliver b' ≡ carried deliver b)
    unfolding send
    send_lem now b r =
        let ds = (transmit b.draws b.pkt).0 in
        let q = (transmit b.draws b.pkt).1 in
        let empty = spec.empties b.draws b.pkt r in
        let nothing : contents q ≡ [] = rw empty refl in
        (
          spec.keeps b.draws b.pkt r,
          empty,
          ap (λ t. delivered deliver (b.sent ++ (ds ∷ [])) ++ t) nothing
              ∙ append-nil (delivered deliver (b.sent ++ (ds ∷ [])))
              ∙ delivered-append b.sent ds
              ∙ ap (λ t. delivered deliver b.sent ++ t) (spec.carries b.draws b.pkt r),
        )

    pub add-IsReady :
        (m : Bytes) (p : MessagePacket) → IsReady c size p → IsReady c size (add m p).1
    add-IsReady m p r =
        let (added, held, writing, size_same, span_same, start_same) =
          add_lem m p r.outgoing.writing in
        record {
          outgoing = record {
            writing = writing;
            nonce_room = start_same ∙ r.outgoing.nonce_room;
            mac_room = omega (arith, r.outgoing.mac_room);
          };
          sized = span_same ∙ r.sized;
        }

    -- The second attempt, in the packet that was just sent.
    resend :
        (now : ℕ) (m : Bytes) (b : Batch)
        → IsReady c size b.pkt
        → let b' = send transmit now b in
          IsReady c size (add m b'.pkt).1
          × (delivered deliver b'.sent ++ contents (add m b'.pkt).1
              ≡ carried deliver b ++ (if leb (length m) size then m else []))
    resend now m b r =
        let b' = send transmit now b in
        let (prepared, empty, same) = send_lem now b r in
        let (added, held, w1, s1, s2, s3) = add_lem m b'.pkt prepared.outgoing.writing in
        let room : leb (b'.pkt.tellp + length m) b'.pkt.span_size ≡ leb (length m) size =
          ground (arith, prepared.sized, empty) in
        (
          add-IsReady m b'.pkt prepared,
          rw (held, room)
              (elim (Bool-cases (leb (length m) size)) [
                | inl fits ↦ rw fits (
                    sym (append_assoc (delivered deliver b'.sent) (contents b'.pkt) m)
                    ∙ ap (λ t. t ++ m) same)
                | inr big ↦ rw big (same ∙ sym (append-nil (carried deliver b)))
              ]),
        )

    -- One message taken from the queue: it is carried deliver behind the others if an empty packet
    -- has room for it, and is dropped if not.
    take_message_lem :
        (now : ℕ) (m : Bytes) (b : Batch)
        → IsReady c size b.pkt
        → let b' = take_message transmit now m b in
          IsReady c size b'.pkt
          × (carried deliver b' ≡ carried deliver b ++ (if leb (length m) size then m else []))
    unfolding take_message
    take_message_lem now m b r =
        let before = delivered deliver b.sent in
        let (added, held, w1, s1, s2, s3) = add_lem m b.pkt r.outgoing.writing in
        elim (Bool-cases (leb (b.pkt.tellp + length m) b.pkt.span_size)) [
          | inl fits ↦
              let one : leb (length m) size ≡ true = ground (arith, r.sized) in
              rw (added ∙ fits, one, take_message)
                (
                  add-IsReady m b.pkt r,
                  ap (λ t. before ++ t) (held ∙ rw fits refl)
                      ∙ sym (append_assoc before (contents b.pkt) m),
                )
          | inr full ↦
              let b1 = record b { pkt = (add m b.pkt).1 } in
              let (prepared, same) = resend now m b1 (add-IsReady m b.pkt r) in
              rw (added ∙ full, take_message)
                (
                  prepared,
                  same
                      ∙ ap (λ t. (before ++ t) ++ (if leb (length m) size then m else []))
                          (held ∙ rw full refl),
                )
        ]

    take_all_messages_lem :
        (now : ℕ) (ms : List Bytes) (b : Batch)
        → IsReady c size b.pkt
        → let b' = take_all_messages transmit now ms b in
          IsReady c size b'.pkt × (carried deliver b' ≡ carried deliver b ++ kept size ms)
    unfolding take_all_messages
    take_all_messages_lem now [] b r = (r, sym (append-nil (carried deliver b)))
    take_all_messages_lem now (m ∷ ms) b r =
        let one : Bytes = if leb (length m) size then m else [] in
        let (r1, first) = take_message_lem now m b r in
        let (r2, others) = take_all_messages_lem now ms (take_message transmit now m b) r1 in
        (
          r2,
          others
              ∙ ap (λ t. t ++ kept size ms) first
              ∙ append_assoc (carried deliver b) one (kept size ms),
        )

    round_lem :
        (w : Wake) (b : Batch)
        → IsReady c size b.pkt
        → let b' = round transmit w b in
          IsReady c size b'.pkt
          × (carried deliver b' ≡ carried deliver b ++ kept size (handed (w ∷ [])))
    unfolding round
    round_lem (ready now ms) b r =
        let (r1, all) = take_all_messages_lem now ms b r in
        (r1, all ∙ ap (λ t. carried deliver b ++ kept size t) (sym (append-nil ms)))
    round_lem (idle now) b r =
        let (r1, empty, same) = send_lem now b r in
        elim (Bool-cases (has_payload b.pkt)) [
          | inl some_bytes ↦
              rw (some_bytes, round) (r1, same ∙ sym (append-nil (carried deliver b)))
          | inr no_bytes ↦ rw (no_bytes, round) (r, sym (append-nil (carried deliver b)))
        ]

    handed-cons : (w : Wake) (ws : List Wake) → handed (w ∷ ws) ≡ handed (w ∷ []) ++ handed ws
    handed-cons (ready now ms) ws = ap (λ t. t ++ handed ws) (sym (append-nil ms))
    handed-cons (idle now) ws = refl

    pub rounds_lem :
        (ws : List Wake) (b : Batch)
        → IsReady c size b.pkt
        → let b' = rounds transmit ws b in
          IsReady c size b'.pkt × (carried deliver b' ≡ carried deliver b ++ kept size (handed ws))
    unfolding rounds
    rounds_lem [] b r = (r, sym (append-nil (carried deliver b)))
    rounds_lem (w ∷ ws) b r =
        let (r1, first) = round_lem w b r in
        let (r2, others) = rounds_lem ws (round transmit w b) r1 in
        let now = handed (w ∷ []) in
        (
          r2,
          others
              ∙ ap (λ t. t ++ kept size (handed ws)) first
              ∙ append_assoc (carried deliver b) (kept size now) (kept size (handed ws))
              ∙ ap (λ t. carried deliver b ++ t) (sym (kept-append size now (handed ws)))
              ∙ ap (λ t. carried deliver b ++ kept size t) (sym (handed-cons w ws)),
        )
