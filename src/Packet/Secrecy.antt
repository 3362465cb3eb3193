-- ===== src/Packet/Secrecy.antt =====
-- Packets that are sent encrypted.
use mclog.Base.{
  ℕ, ◌+◌, ◌-◌, ◌≤◌, ◌<◌, ◌≡◌, ◌∙◌, refl, ap, sym, Bool, true, [], ◌++◌, some, ltb, length, take,
  drop, overwrite, arith, lt→ltb, ==_iff, append_assoc, length-take, length-drop, length-append,
  take_all, take-append, drop-append, length-overwrite,
}
use mclog.Packet.{
  Bytes, Aead, MessagePacket, payload, contents, datagram, encrypt, send_encrypted, recv_encrypted,
  decrypt, k_min_packet_len,
}
use mclog.Packet.Transport.{IsOutgoing}
use mclog.Packet.Layout.{drop-overwrite}

-- What libsodium documents of the AEAD: encryption succeeds, makes the text longer by the
-- authentication code, and decryption with the same key and nonce undoes it.
pub record IsSound (c : Aead) : Type 0 where
  pub encrypts :
      (key nonce m : Bytes)
      → length nonce ≡ c.nonce_len
      → (x : Bytes) × (c.encrypt key nonce m ≡ some x)
        × (length x ≡ length m + c.mac_len)
        × (c.decrypt key nonce x ≡ some m)

-- `Decrypt`, where the buffer holds a nonce and a ciphertext that opens to `m`.
pub decrypt_opens :
    (c : Aead) (key nonce x m : Bytes) (p : MessagePacket) (recvlen : ℕ)
    → take c.nonce_len p.buf ≡ nonce
    → take (recvlen - c.nonce_len) (drop c.nonce_len p.buf) ≡ x
    → c.decrypt key nonce x ≡ some m
    → k_min_packet_len c < recvlen
    → recvlen ≡ k_min_packet_len c + length m
    → c.nonce_len ≤ length p.buf
    → let (rc, r) = decrypt c recvlen key p in (rc ≡ some recvlen) × (payload r ≡ m)
unfolding decrypt
decrypt_opens c key nonce x m p recvlen at_nonce at_cipher opened long size room =
    rw (lt→ltb _ _ long, at_nonce, at_cipher, opened)
      (
        refl,
        ap (take (recvlen - k_min_packet_len c)) (drop-overwrite c.nonce_len m p.buf room)
            ∙ take-append (recvlen - k_min_packet_len c) m _ (omega arith),
      )

module _ (c : Aead) (sound : IsSound c) (key nonce : Bytes)
    (nonce_size : length nonce ≡ c.nonce_len) where
  plain_of_contents :
      (p : MessagePacket)
      → IsOutgoing c p
      → take p.payload_length (drop c.nonce_len (overwrite 0 nonce p.buf)) ≡ contents p
  plain_of_contents p out =
      let zero_add : 0 + length nonce ≡ c.nonce_len = omega arith in
      ap (take p.payload_length) (drop-append c.nonce_len nonce _ (sym nonce_size))
      ∙ ap (λ n. take p.payload_length (drop n p.buf)) zero_add
      ∙ ap (λ n. take n (drop c.nonce_len p.buf)) out.writing.payload_ends
      ∙ ap (λ n. take p.tellp (drop n p.buf)) (sym out.nonce_room)

  pub length-contents :
      (p : MessagePacket) → IsOutgoing c p → length (contents p) ≡ p.payload_length
  length-contents p out = omega (
    arith,
    length-take p.tellp (drop p.span_start p.buf),
    length-drop p.span_start p.buf,
    out.writing,
  )

  -- Encryption succeeds, and replaces the payload by its ciphertext, behind the nonce.
  pub encrypt_lem :
      (p : MessagePacket) (x : Bytes)
      → IsOutgoing c p
      → c.encrypt key nonce (contents p) ≡ some x
      → length x ≡ p.payload_length + c.mac_len
      → encrypt c key nonce p
        ≡ (true, record p { buf = overwrite c.nonce_len x (overwrite 0 nonce p.buf) })
  unfolding encrypt
  encrypt_lem p x out enc grown =
      let front : take c.nonce_len (overwrite 0 nonce p.buf) ≡ nonce =
        take-append c.nonce_len nonce _ (sym nonce_size) in
      let filled = overwrite 0 nonce p.buf in
      let result : Bytes → Bool × MessagePacket =
        λ start. (true, record p { buf = start ++ (x ++ drop (c.nonce_len + length x) filled) }) in
      rw (encrypt, front, plain_of_contents p out, enc, (==_iff _ _).1 grown) (ap result front)

  -- The datagram is the nonce and a ciphertext of what was added.
  pub send_encrypted_lem :
      (p : MessagePacket)
      → IsOutgoing c p
      → (x : Bytes) × ((send_encrypted c key nonce p).0 ≡ some (nonce ++ x))
        × (length x ≡ p.payload_length + c.mac_len)
        × (c.decrypt key nonce x ≡ some (contents p))
  unfolding send_encrypted datagram
  send_encrypted_lem p out =
      let (x, enc, size, dec) = sound.encrypts key nonce (contents p) nonce_size in
      let grown : length x ≡ p.payload_length + c.mac_len =
        omega (arith, size, length-contents p out) in
      let rest = drop (c.nonce_len + length x) (overwrite 0 nonce p.buf) in
      let sent : take (c.nonce_len + c.mac_len + p.payload_length) (nonce ++ (x ++ rest))
          ≡ nonce ++ x =
        ap (take (c.nonce_len + c.mac_len + p.payload_length)) (sym (append_assoc nonce x rest))
        ∙ take-append _ (nonce ++ x) rest (omega (arith, length-append nonce x, grown)) in
      let front : take c.nonce_len (overwrite 0 nonce p.buf) ≡ nonce =
        take-append c.nonce_len nonce _ (sym nonce_size) in
      (x, rw (encrypt_lem p x out enc grown, front) (ap some sent), grown, dec)

  -- The same, for a packet that is encrypted and then sent as it is.
  pub encrypt_ready :
      (p : MessagePacket)
      → IsOutgoing c p
      → (x : Bytes) × (encrypt c key nonce p
          ≡ (true, record p { buf = overwrite c.nonce_len x (overwrite 0 nonce p.buf) }))
        × (length (overwrite c.nonce_len x (overwrite 0 nonce p.buf)) ≡ length p.buf)
  encrypt_ready p out =
      let (x, enc, size, dec) = sound.encrypts key nonce (contents p) nonce_size in
      let grown : length x ≡ p.payload_length + c.mac_len =
        omega (arith, size, length-contents p out) in
      let filled = overwrite 0 nonce p.buf in
      let same : length filled ≡ length p.buf =
        length-overwrite 0 nonce p.buf (omega (arith, out.writing, out.mac_room)) in
      (
        x,
        encrypt_lem p x out enc grown,
        length-overwrite c.nonce_len x filled
              (omega (arith, grown, same, out.writing, out.mac_room))
            ∙ same,
      )

  recv_encrypted_lem :
      (x m : Bytes) (q : MessagePacket)
      → length x ≡ length m + c.mac_len
      → 0 < length m
      → c.decrypt key nonce x ≡ some m
      → length (nonce ++ x) ≤ length q.buf
      → let (rc, r) = recv_encrypted c key (some (nonce ++ x)) q in
        (rc ≡ some (length (nonce ++ x))) × (payload r ≡ m)
  unfolding recv_encrypted
  recv_encrypted_lem x m q size some_bytes opened room =
      let d = nonce ++ x in
      let held = length-append nonce x in
      let long : k_min_packet_len c < length d = omega (arith, held) in
      let arrived : ltb 0 (length d) ≡ true = ground (arith, held) in
      rw (take_all (length q.buf) d room, arrived, lt→ltb _ _ long)
        (decrypt_opens c key nonce x m (record q { buf = overwrite 0 d q.buf; payload_length = 0 })
          (length d)
          (ap (take c.nonce_len) (append_assoc nonce x _)
            ∙ take-append c.nonce_len nonce _ (sym nonce_size))
          (ap (λ b. take (length d - c.nonce_len) (drop c.nonce_len b)) (append_assoc nonce x _)
            ∙ ap (take (length d - c.nonce_len)) (drop-append c.nonce_len nonce _ (sym nonce_size))
            ∙ take-append _ x _ (omega (arith, held)))
          opened long (omega (arith, held))
          (omega (arith, held, length-append d (drop (0 + length d) q.buf))))

-- A datagram with no payload is not decrypted, and nothing is read of it.
pub recv_encrypted_short :
    (c : Aead) (key d : Bytes) (q : MessagePacket)
    → length d ≤ k_min_packet_len c
    → payload (recv_encrypted c key (some d) q).1 ≡ []
unfolding recv_encrypted
recv_encrypted_short c key d q short = ground (arith, length-take (length q.buf) d)

-- A packet sent encrypted and received with the same key into a buffer that holds it: a datagram is
-- sent, and the stream then reads exactly what was added to the packet.
pub recv_encrypted-send_encrypted :
    (c : Aead) (key nonce : Bytes) (p q : MessagePacket)
    → IsSound c
    → length nonce ≡ c.nonce_len
    → IsOutgoing c p
    → 0 < p.payload_length
    → c.nonce_len + c.mac_len + p.payload_length ≤ length q.buf
    → (d : Bytes) × ((send_encrypted c key nonce p).0 ≡ some d)
      × (payload (recv_encrypted c key (some d) q).1 ≡ contents p)
      × ((recv_encrypted c key (some d) q).0 ≡ some (c.nonce_len + c.mac_len + p.payload_length))
recv_encrypted-send_encrypted c key nonce p q sound nonce_size out some_bytes room =
    let (x, sent, grown, opened) = send_encrypted_lem c sound key nonce nonce_size p out in
    let size = length-append nonce x in
    let held = length-contents c sound key nonce nonce_size p out in
    let (rc, read) =
      recv_encrypted_lem c sound key nonce nonce_size x (contents p) q (omega (arith, held))
        (omega (arith, held)) opened (omega (arith, size)) in
    let whole : length (nonce ++ x) ≡ c.nonce_len + c.mac_len + p.payload_length =
      omega (arith, size) in
    (nonce ++ x, sent, read, rc ∙ ap some whole)
