-- ===== src/Examples/Packets.antt =====
-- Runs of the packet's operations.
use mclog.Base.{◌≤◌, ◌≡◌, refl, arith, [], ◌∷◌, some, length, replicate}
use mclog.Packet.{
  Bytes, MessagePacket, payload, datagram, recv_plain, send_encrypted, recv_encrypted,
}
use mclog.Packet.Transport.{IsOutgoing, recv_plain_lem}
use mclog.Packet.Secrecy.{recv_encrypted-send_encrypted}
use mclog.Examples.{aead, aead-IsSound}

-- A packet of eleven bytes with two bytes written, and one to receive into.
abbrev outgoing : MessagePacket
outgoing = record {
  buf = 0 ∷ 0 ∷ 10 ∷ 20 ∷ replicate 7 0;
  span_start = 2;
  span_size = 8;
  tellp = 2;
  payload_length = 2;
}

abbrev incoming : MessagePacket
incoming = record {
  buf = replicate 16 0;
  span_start = 2;
  span_size = 13;
  tellp = 0;
  payload_length = 0;
}

outgoing-IsOutgoing : IsOutgoing aead outgoing
outgoing-IsOutgoing = record {
  writing = record { span_fits = omega arith; tellp_fits = omega arith; payload_ends = refl };
  nonce_room = refl;
  mac_room = omega arith;
}

recv_plain_lem_example :
    let (rc, r) = recv_plain aead (some (1 ∷ 2 ∷ 3 ∷ 4 ∷ [])) incoming in
    (payload r ≡ 3 ∷ []) × (r.payload_length ≡ 1) × (rc ≡ some 4)
recv_plain_lem_example = recv_plain_lem aead (1 ∷ 2 ∷ 3 ∷ 4 ∷ []) incoming (omega arith)

datagram_fits : length (datagram aead outgoing) ≤ length incoming.buf
unfolding datagram
datagram_fits = omega arith

recv_encrypted-send_encrypted_example :
    (d : Bytes) × ((send_encrypted aead (9 ∷ []) (4 ∷ 5 ∷ []) outgoing).0 ≡ some d)
    × (payload (recv_encrypted aead (9 ∷ []) (some d) incoming).1 ≡ 10 ∷ 20 ∷ [])
    × ((recv_encrypted aead (9 ∷ []) (some d) incoming).0 ≡ some 5)
recv_encrypted-send_encrypted_example =
    recv_encrypted-send_encrypted aead (9 ∷ []) (4 ∷ 5 ∷ []) outgoing incoming aead-IsSound refl
      outgoing-IsOutgoing (omega arith) (omega arith)
