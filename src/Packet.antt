-- ===== src/Packet.antt =====
-- DwmMclogMessagePacket.hh and DwmMclogMessagePacket.cc: a buffer with room for a nonce, a payload
-- and an authentication code, and the stream over the payload. libsodium's lengths and its AEAD are
-- a parameter; a failed `assert` is `none`.
pub mod Layout
pub mod Contents
pub mod Transport
pub mod Secrecy
use mclog.Base.{
  ℕ, ◌+◌, ◌-◌, ◌≤◌, ◌<◌, ◌≡◌, Bool, true, false, ◌&&◌, List, [], ◌++◌, Option, none, some, leb, ltb,
  ◌==◌, if◌then◌else◌, length, take, drop, overwrite,
}

abbrev pub Bytes : Type 0
Bytes = List ℕ

-- What the code takes from libsodium: `crypto_secretbox_NONCEBYTES`,
-- `crypto_aead_xchacha20poly1305_ietf_ABYTES`, and the two calls with key, nonce and text, where
-- `none` stands for a result other than 0; `leaves` is what a decryption that fails writes in place
-- of the text.
pub record Aead : Type 0 where
  pub nonce_len : ℕ
  pub mac_len : ℕ
  pub encrypt : Bytes → Bytes → Bytes → Option Bytes
  pub decrypt : Bytes → Bytes → Bytes → Option Bytes
  pub leaves : Bytes → Bytes → Bytes → Bytes

-- `buf`, `span_start` and `span_size` are the buffer and the part of it that the stream covers;
-- `tellp` is the stream's put position, and reading begins at the start of that part.
pub record MessagePacket : Type 0 where
  pub buf : Bytes
  pub span_start : ℕ
  pub span_size : ℕ
  pub tellp : ℕ
  pub payload_length : ℕ

-- The bytes that a read of the stream finds, and those before the put position.
abbrev pub payload : MessagePacket → Bytes
payload p = take p.span_size (drop p.span_start p.buf)

abbrev pub contents : MessagePacket → Bytes
contents p = take p.tellp (drop p.span_start p.buf)

-- A write of `bs` through the stream: what fits is written, and the rest sets the badbit.
abbrev pub put_bytes : Bytes → MessagePacket → MessagePacket
put_bytes bs p = record p { buf = overwrite (p.span_start + p.tellp) bs p.buf }

-- `Add`, of a value whose stream form is `bs`.
unfoldable pub add : Bytes → MessagePacket → Bool × MessagePacket
add bs p =
    let room = p.span_size - p.tellp in
    if leb (length bs) room
    then (
      true,
      record (put_bytes bs p) { tellp = p.tellp + length bs; payload_length = p.tellp + length bs },
    )
    else (false, record (put_bytes (take room bs) p) { payload_length = p.tellp })

-- `Reset`
unfoldable pub reset : MessagePacket → MessagePacket
reset p = record p { tellp = 0; payload_length = 0 }

-- `HasPayload`
unfoldable pub has_payload : MessagePacket → Bool
has_payload p = ltb 0 p.payload_length

module _ (c : Aead) where
  abbrev pub k_min_packet_len : ℕ
  k_min_packet_len = c.nonce_len + c.mac_len

  -- The constructor, with its assertion.
  unfoldable pub make_packet : Bytes → Option MessagePacket
  make_packet buf =
      if ltb k_min_packet_len (length buf)
      then some (record {
        buf = buf;
        span_start = c.nonce_len;
        span_size = length buf - k_min_packet_len;
        tellp = 0;
        payload_length = 0;
      })
      else none

  -- `Encrypt` with the nonce that `randombytes_buf` gives.
  unfoldable pub encrypt : Bytes → Bytes → MessagePacket → Bool × MessagePacket
  encrypt key nonce p =
      let q = record p { buf = overwrite 0 nonce p.buf } in
      let plain = take q.payload_length (drop c.nonce_len q.buf) in
      elim (c.encrypt key (take c.nonce_len q.buf) plain) [
        | none ↦ (false, q)
        | some cipher ↦ (
          length cipher == q.payload_length + c.mac_len,
          record q { buf = overwrite c.nonce_len cipher q.buf },
        )
      ]

  -- The datagram that `SendTo(fd, dst)` hands to `sendto`, for either address family.
  unfoldable pub datagram : MessagePacket → Bytes
  datagram p = take (c.nonce_len + c.mac_len + p.payload_length) p.buf

  -- `SendTo(fd, secretKey, dst)`: nothing is sent where the encryption fails.
  unfoldable pub send_encrypted : Bytes → Bytes → MessagePacket → Option Bytes × MessagePacket
  send_encrypted key nonce p =
      let (ok, q) = encrypt key nonce p in (if ok then some (datagram q) else none, q)

  abbrev no_payload : ℕ → MessagePacket → MessagePacket
  no_payload start p = record p { span_start = start; span_size = 0; tellp = 0; payload_length = 0 }

  -- `Decrypt`, which decrypts in place: the length received, or -1 as `none`.
  unfoldable pub decrypt : ℕ → Bytes → MessagePacket → Option ℕ × MessagePacket
  decrypt recvlen key p =
      let nonce = take c.nonce_len p.buf in
      let cipher = take (recvlen - c.nonce_len) (drop c.nonce_len p.buf) in
      if ltb k_min_packet_len recvlen
      then elim (c.decrypt key nonce cipher) [
        | none ↦ (
          none,
          record (no_payload c.nonce_len p) {
            buf = overwrite c.nonce_len (c.leaves key nonce cipher) p.buf;
          },
        )
        | some plain ↦ (
          some recvlen,
          record p {
            buf = overwrite c.nonce_len plain p.buf;
            span_start = c.nonce_len;
            span_size = recvlen - k_min_packet_len;
            tellp = 0;
            payload_length = recvlen - k_min_packet_len;
          },
        )
      ]
      else (none, no_payload c.nonce_len p)

  -- `recvfrom` into the buffer: a datagram longer than the buffer is cut.
  abbrev pub receive : Bytes → MessagePacket → ℕ × MessagePacket
  receive d p =
      let got = take (length p.buf) d in
      (length got, record p { buf = overwrite 0 got p.buf; payload_length = 0 })

  -- `RecvFrom` without a key, of a datagram or of a failed `recvfrom`; the two overloads differ
  -- only in the address that they fill in.
  unfoldable pub recv_plain : Option Bytes → MessagePacket → Option ℕ × MessagePacket
  recv_plain none p = (none, no_payload 0 p)
  recv_plain (some d) p =
      let (recvrc, q) = receive d p in
      if ltb 0 recvrc
      then (if ltb k_min_packet_len recvrc
          then (
            some recvrc,
            record q {
              span_start = c.nonce_len;
              span_size = recvrc - k_min_packet_len;
              tellp = 0;
              payload_length = recvrc - k_min_packet_len;
            },
          )
          else (some 0, no_payload 0 q))
      else (none, no_payload 0 q)

  -- `RecvFrom` with a key.
  unfoldable pub recv_encrypted : Bytes → Option Bytes → MessagePacket → Option ℕ × MessagePacket
  recv_encrypted key none p = (none, no_payload 0 p)
  recv_encrypted key (some d) p =
      let (recvrc, q) = receive d p in
      if ltb 0 recvrc
      then (if ltb k_min_packet_len recvrc then decrypt recvrc key q else (some 0, no_payload 0 q))
      else (none, no_payload 0 q)
