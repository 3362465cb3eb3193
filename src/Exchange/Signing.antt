-- ===== src/Exchange/Signing.antt =====
-- What a side sends that can sign: `SendIdAndSig` in DwmMclogKeyRequesterState.cc and
-- DwmMclogKeyRequestClientState.cc, and what the other side reads of it.
use mclog.Base.{
  ◌+◌, ◌-◌, ◌^◌, ◌≡◌, ◌≤◌, ◌<◌, ◌∙◌, refl, ap, sym, true, false, [], ◌∷◌, ◌++◌, some, ltb, leb,
  is_empty, length, take, drop, arith, append-nil, take-append, drop-append, take_all,
  length-append,
}
use mclog.Packet.{
  Bytes, Aead, MessagePacket, k_min_packet_len, make_packet, add, contents, payload, decrypt,
  send_encrypted,
}
use mclog.Packet.Contents.{add_lem}
use mclog.Packet.Transport.{IsOutgoing}
use mclog.Packet.Secrecy
use mclog.Packet.Secrecy.{decrypt_opens, send_encrypted_lem, length-contents}
use mclog.Message.RoundTrip.{IsCodec, Within}
use mclog.Exchange.{Credence, Forms, KeyDir, Outside, send_id_and_sig, read_id}

-- What libDwm documents of the two forms of strings.
pub record AreForms (fm : Forms) : Type 0 where
  pub short : IsCodec fm.short (Within 255)
  pub string : IsCodec fm.string (Within (2 ^ 64))

-- A side that can sign a text so that the other side opens it: its stash has an id and a secret
-- key, the other side knows the public key of that id, and both strings have room in the packet
-- that is sent, under a nonce of its length.
pub record Signs (c : Aead) (cr : Credence) (fm : Forms) (dir other : KeyDir) (out : Outside)
    (text : Bytes) : Type 0 where
  pub id : Bytes
  pub secret : Bytes
  pub signed_msg : Bytes
  pub stash : dir.stash ≡ some (id, secret)
  pub signs : cr.sign secret text ≡ some signed_msg
  pub known : is_empty (other.known id) ≡ false
  pub opens : cr.open_signed signed_msg (other.known id) ≡ some text
  pub id_size : length id ≤ 2 ^ 64
  pub signed_size : length signed_msg ≤ 2 ^ 64
  pub room :
      k_min_packet_len c + (length (fm.string.write id) + length (fm.string.write signed_msg))
      ≤ length out.sendbuf
  pub nonce_size : length out.nonce ≡ c.nonce_len
  pub sends : out.sends ≡ true

-- A datagram that, taken for a packet and decrypted, holds the id and the signed message.
abbrev pub Holds : Aead → Forms → Bytes → Bytes → Bytes → Bytes → Type 0
Holds c fm shared d id signed_msg =
    (pkt : MessagePacket) × (make_packet c d ≡ some pkt)
    × ((decrypt c (length d) shared pkt).0 ≡ some (length d))
    × (read_id fm (payload (decrypt c (length d) shared pkt).1) ≡ some (id, signed_msg))
    × (ltb (length d) (k_min_packet_len c) ≡ false)

module _ (c : Aead) (sound : Secrecy.IsSound c) (cr : Credence) (fm : Forms)
    (forms : AreForms fm) where
  write_some : (s : Bytes) → length s ≤ 2 ^ 64 → 0 < length (fm.string.write s)
  write_some s size = omega (
    arith,
    forms.string.shrinks (fm.string.write s ++ []) (forms.string.reads_back s [] size),
    ap length (append-nil (fm.string.write s)),
  )

  read_id_lem :
      (id signed_msg : Bytes)
      → length id ≤ 2 ^ 64
      → length signed_msg ≤ 2 ^ 64
      → read_id fm (fm.string.write id ++ fm.string.write signed_msg) ≡ some (id, signed_msg)
  unfolding read_id
  read_id_lem id signed_msg a b =
      let second : fm.string.read (fm.string.write signed_msg) ≡ some (signed_msg, []) =
        ap fm.string.read (sym (append-nil (fm.string.write signed_msg)))
        ∙ forms.string.reads_back signed_msg [] b in
      rw (forms.string.reads_back id (fm.string.write signed_msg) a, second) refl

  -- An encrypted datagram, taken for a packet by the other side.
  datagram-Holds :
      (shared nonce : Bytes) (p : MessagePacket) (id signed_msg : Bytes)
      → length nonce ≡ c.nonce_len
      → IsOutgoing c p
      → contents p ≡ fm.string.write id ++ fm.string.write signed_msg
      → length id ≤ 2 ^ 64
      → length signed_msg ≤ 2 ^ 64
      → (d : Bytes) × ((send_encrypted c shared nonce p).0 ≡ some d)
        × Holds c fm shared d id signed_msg
  unfolding make_packet
  datagram-Holds shared nonce p id signed_msg nonce_size out held id_size signed_size =
      let (x, sent, grown, opened) = send_encrypted_lem c sound shared nonce nonce_size p out in
      let d = nonce ++ x in
      let size = length-append nonce x in
      let full = length-contents c sound shared nonce nonce_size p out in
      let some_bytes = write_some id id_size in
      let pieces = length-append (fm.string.write id) (fm.string.write signed_msg) in
      let long : k_min_packet_len c < length d = omega (arith, ap length held) in
      let made : ltb (k_min_packet_len c) (length d) ≡ true = ground arith in
      let pkt : MessagePacket = record {
        buf = d;
        span_start = c.nonce_len;
        span_size = length d - k_min_packet_len c;
        tellp = 0;
        payload_length = 0;
      } in
      let (rc, read) =
        decrypt_opens c shared nonce x (contents p) pkt (length d)
          (take-append c.nonce_len nonce x (sym nonce_size))
          (ap (take (length d - c.nonce_len)) (drop-append c.nonce_len nonce x (sym nonce_size))
            ∙ take_all (length d - c.nonce_len) x (omega arith))
          opened long (omega arith) (omega arith) in
      (
        d,
        sent,
        (
          pkt,
          rw made refl,
          rc,
          ap (read_id fm) (read ∙ held) ∙ read_id_lem id signed_msg id_size signed_size,
          ground arith,
        ),
      )

  make_packet-IsOutgoing :
      (buf : Bytes)
      → k_min_packet_len c < length buf
      → (p : MessagePacket) × (make_packet c buf ≡ some p)
        × IsOutgoing c p
        × (p.span_size ≡ length buf - k_min_packet_len c)
        × (p.tellp ≡ 0)
  unfolding make_packet
  make_packet-IsOutgoing buf long =
      let made : ltb (k_min_packet_len c) (length buf) ≡ true = ground arith in
      (
        record {
          buf = buf;
          span_start = c.nonce_len;
          span_size = length buf - k_min_packet_len c;
          tellp = 0;
          payload_length = 0;
        },
        rw made refl,
        record {
          writing = record {
            span_fits = omega arith;
            tellp_fits = omega arith;
            payload_ends = refl;
          };
          nonce_room = refl;
          mac_room = omega arith;
        },
        refl,
        refl,
      )

  -- What is added has room.
  added :
      (bs : Bytes) (p : MessagePacket)
      → IsOutgoing c p
      → p.tellp + length bs ≤ p.span_size
      → let q = (add bs p).1 in
        IsOutgoing c q × (contents q ≡ contents p ++ bs) × (q.span_size ≡ p.span_size)
  added bs p out room =
      let (ok, held, writing, same, span, start) = add_lem bs p out.writing in
      let fits : leb (p.tellp + length bs) p.span_size ≡ true = ground arith in
      (
        record {
          writing = writing;
          nonce_room = start ∙ out.nonce_room;
          mac_room = omega (arith, out.mac_room);
        },
        held ∙ rw fits refl,
        span,
      )

  -- A side that can sign sends what the other side can read.
  pub send_id_and_sig_lem :
      (dir other : KeyDir) (out : Outside) (shared text : Bytes)
      (s : Signs c cr fm dir other out text)
      → (d : Bytes) × (send_id_and_sig c cr fm dir out shared text ≡ some (true, d ∷ []))
        × Holds c fm shared d s.id s.signed_msg
  unfolding send_id_and_sig
  send_id_and_sig_lem dir other out shared text s =
      let first = fm.string.write s.id in
      let second = fm.string.write s.signed_msg in
      let some_bytes = write_some s.id s.id_size in
      let (p, made, outgoing, size, empty) =
        make_packet-IsOutgoing out.sendbuf (omega (arith, s.room)) in
      let (out1, held1, size1) = added first p outgoing (omega (arith, s.room)) in
      let p1 = (add first p).1 in
      let none_held : contents p ≡ [] = ap (λ n. take n (drop p.span_start p.buf)) empty in
      let one_held : contents p1 ≡ first = held1 ∙ ap (λ t. t ++ first) none_held in
      let full1 : p1.tellp ≡ length first = omega (
        arith,
        length-contents c sound shared out.nonce s.nonce_size p1 out1,
        out1.writing,
        ap length one_held,
      ) in
      let (out2, held2, size2) = added second p1 out1 (omega (arith, s.room)) in
      let p2 = (add second p1).1 in
      let held : contents p2 ≡ first ++ second = held2 ∙ ap (λ t. t ++ second) one_held in
      let (d, sent, holds) =
        datagram-Holds shared out.nonce p2 s.id s.signed_msg s.nonce_size out2 held s.id_size
          s.signed_size in
      (d, rw (s.stash, made) (rw (s.signs) (rw (sent, s.sends) refl)), holds)
