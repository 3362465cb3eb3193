-- ===== src/Packet/Transport.antt =====
-- What a packet carries from a sender to a receiver.
use mclog.Base.{
  ◌+◌, ◌-◌, ◌≤◌, ◌<◌, ◌≡◌, ◌∙◌, refl, ap, sym, true, none, some, ltb, if◌then◌else◌, length, take,
  drop, arith, Bool-cases, inl, inr, length-take, take_all,
}
use mclog.Packet.{
  Bytes, Aead, MessagePacket, payload, contents, datagram, recv_plain, k_min_packet_len,
}
use mclog.Packet.Contents.{IsWriting}
use mclog.Packet.Layout.{drop-take, take-take, take-drop-append}

-- A packet that is being written, in a buffer with room for the nonce before the payload and for
-- the authentication code behind it.
pub record IsOutgoing (c : Aead) (p : MessagePacket) : Type 0 where
  pub writing : IsWriting p
  pub nonce_room : p.span_start ≡ c.nonce_len
  pub mac_room : c.nonce_len + p.span_size + c.mac_len ≤ length p.buf

-- What the stream reads of a received datagram `d` when nothing is decrypted.
abbrev pub payload_of : Aead → Bytes → Bytes
payload_of c d = take (length d - k_min_packet_len c) (drop c.nonce_len d)

-- `RecvFrom` without a key, on any datagram that fits the buffer: the stream then reads what stands
-- between the nonce and the authentication code, and nothing of a short datagram; the result tells
-- an empty datagram, a short one and one with a payload apart.
pub recv_plain_lem :
    (c : Aead) (d : Bytes) (q : MessagePacket)
    → length d ≤ length q.buf
    → let (rc, r) = recv_plain c (some d) q in
      (payload r ≡ payload_of c d)
      × (r.payload_length ≡ length d - k_min_packet_len c)
      × (rc ≡ (
          if ltb 0 (length d)
          then some (if ltb (k_min_packet_len c) (length d) then length d else 0)
          else none))
unfolding recv_plain
recv_plain_lem c d q room =
    rw (take_all (length q.buf) d room) (elim (Bool-cases (ltb (k_min_packet_len c) (length d))) [
      | inl long ↦
          let some_bytes : ltb 0 (length d) ≡ true = ground arith in
          rw (some_bytes, long)
            (
              take-drop-append c.nonce_len (length d - k_min_packet_len c) d _ (ground arith),
              refl,
              refl,
            )
      | inr short ↦
          let none_left : length d - k_min_packet_len c ≡ 0 = ground arith in
          rw (none_left, short)
            (elim (Bool-cases (ltb 0 (length d))) [
              | inl few ↦ rw few (refl, refl, refl)
              | inr empty ↦ rw empty (refl, refl, refl)
            ])
    ])

module _ (c : Aead) (p q : MessagePacket) (out : IsOutgoing c p) where
  pub length-datagram : length (datagram c p) ≡ c.nonce_len + c.mac_len + p.payload_length
  unfolding datagram
  length-datagram = omega (
    arith,
    length-take (c.nonce_len + c.mac_len + p.payload_length) p.buf,
    out.writing,
    out.mac_room,
  )

  contents_of_datagram : take p.payload_length (drop c.nonce_len (datagram c p)) ≡ contents p
  unfolding datagram
  contents_of_datagram =
      let split : c.nonce_len + c.mac_len + p.payload_length
          ≡ c.nonce_len + (c.mac_len + p.payload_length) =
        omega arith in
      let body = drop c.nonce_len p.buf in
      ap (λ n. take p.payload_length (drop c.nonce_len (take n p.buf))) split
      ∙ ap (take p.payload_length) (drop-take c.nonce_len (c.mac_len + p.payload_length) p.buf)
      ∙ take-take p.payload_length (c.mac_len + p.payload_length) body (omega arith)
      ∙ ap (λ n. take n body) out.writing.payload_ends
      ∙ ap (λ n. take p.tellp (drop n p.buf)) (sym out.nonce_room)

  pub payload_of-datagram : payload_of c (datagram c p) ≡ contents p
  payload_of-datagram =
      let size : length (datagram c p) - k_min_packet_len c ≡ p.payload_length =
        omega (arith, length-datagram) in
      ap (λ n. take n (drop c.nonce_len (datagram c p))) size ∙ contents_of_datagram

  -- A datagram sent without encryption and received into a buffer that holds it: the stream then
  -- reads exactly what was added to the packet, and the result is the datagram's length, or 0
  -- where nothing was added.
  pub recv_plain-datagram :
      length (datagram c p) ≤ length q.buf
      → 0 < c.nonce_len
      → let (rc, r) = recv_plain c (some (datagram c p)) q in
        (payload r ≡ contents p)
        × (rc ≡ some (if ltb 0 p.payload_length then length (datagram c p) else 0))
  recv_plain-datagram room nonce =
      let (read, left, rc) = recv_plain_lem c (datagram c p) q room in
      (read ∙ payload_of-datagram, ground (arith, rc, length-datagram))
