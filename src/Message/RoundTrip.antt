-- ===== src/Message/RoundTrip.antt =====
-- Reading back what was written.
use mclog.Base.{
  ℕ, ◌≤◌, ◌<◌, ◌^◌, ◌≡◌, refl, Bool, true, ◌&&◌, Text, ◌++◌, none, some, leb, if◌then◌else◌, length,
  append_assoc, arith, fun_ext, length-append,
}
use mclog.Message.{
  Bytes, MessageOrigin, MessageHeader, Message, Codec, StreamIo, is_valid_hostname,
  is_valid_app_name, write_origin, read_origin, read_origin_v, write_header, in_range, read_header,
  write_message, read_message, read_message_v, streamed_length,
}

-- What libDwm documents of one form: the values of `P` are read back, a successful read uses up
-- some bytes, and the length is the one that is written.
pub record IsCodec {A : Type 0} (c : Codec A) (P : A → Type 0) : Type 0 where
  pub reads_back : (a : A) (rest : Bytes) → P a → c.read (c.write a ++ rest) ≡ some (a, rest)
  pub shrinks :
      (s : Bytes) {a : A} {rest : Bytes} → c.read s ≡ some (a, rest) → length rest < length s
  pub measured : (a : A) → length (c.write a) ≡ c.streamed_length a

abbrev pub Below : ℕ → ℕ → Type 0
Below bound n = n < bound

abbrev pub Within : ℕ → Text → Type 0
Within bound s = length s ≤ bound

pub record IsSound (io : StreamIo) : Type 0 where
  pub encoded_u64 : IsCodec io.encoded_u64 (Below (2 ^ 64))
  pub u8 : IsCodec io.u8 (Below 256)
  pub u32 : IsCodec io.u32 (Below (2 ^ 32))
  pub string_255 : IsCodec io.string_255 (Within 255)
  pub string_1500 : IsCodec io.string_1500 (Within 1500)

-- The values that the members' types hold.
pub record Fits (m : Message) : Type 0 where
  pub timestamp : m.header.timestamp < 2 ^ 64
  pub facility : m.header.facility < 256
  pub severity : m.header.severity < 256
  pub hostname : length m.header.origin.hostname ≤ 255
  pub appname : length m.header.origin.appname ≤ 255
  pub procid : m.header.origin.procid < 2 ^ 32
  pub message : length m.message ≤ 1500

-- A host name and an application name of the accepted characters, a facility up to `local7` and a
-- severity up to `debug`.
abbrev pub is_acceptable : Message → Bool
is_acceptable m =
    is_valid_hostname m.header.origin.hostname
    && is_valid_app_name m.header.origin.appname
    && (leb m.header.facility 184 && leb m.header.severity 7)

module _ (io : StreamIo) (sound : IsSound io) where
  read_origin-write_origin :
      (o : MessageOrigin) (rest : Bytes)
      → length o.hostname ≤ 255
      → length o.appname ≤ 255
      → o.procid < 2 ^ 32
      → read_origin io (write_origin io o ++ rest) ≡ (
          if is_valid_hostname o.hostname && is_valid_app_name o.appname
          then some (o, rest)
          else none)
  unfolding read_origin write_origin
  read_origin-write_origin o rest h a p =
      simp (append_assoc, sound.string_255.reads_back, sound.u32.reads_back, h, a, p) (ground arith)

  read_header-write_header :
      (h : MessageHeader) (rest : Bytes)
      → h.timestamp < 2 ^ 64
      → h.facility < 256
      → h.severity < 256
      → length h.origin.hostname ≤ 255
      → length h.origin.appname ≤ 255
      → h.origin.procid < 2 ^ 32
      → read_header io (write_header io h ++ rest) ≡ (
          if is_valid_hostname h.origin.hostname && is_valid_app_name h.origin.appname && in_range h
          then some (h, rest)
          else none)
  unfolding read_header write_header
  read_header-write_header h rest t f s hn an p =
      simp
        (
          append_assoc,
          sound.encoded_u64.reads_back,
          sound.u8.reads_back,
          t,
          f,
          s,
          read_origin-write_origin h.origin rest hn an p,
        )
        (ground arith)

-- A message written and read again, with anything behind it: an acceptable message comes back
-- unchanged and the rest is left, and any other is refused.
pub read_message-write_message :
    (io : StreamIo) (m : Message) (rest : Bytes)
    → IsSound io
    → Fits m
    → read_message io (write_message io m ++ rest)
      ≡ (if is_acceptable m then some (m, rest) else none)
unfolding read_message write_message
read_message-write_message io m rest sound fits =
    simp
      (
        append_assoc,
        read_header-write_header io sound m.header (io.string_1500.write m.message ++ rest)
            fits.timestamp fits.facility fits.severity fits.hostname fits.appname fits.procid,
      )
      (ground (arith, sound.string_1500.reads_back m.message rest fits.message))

-- Whatever the bytes, a message that is read from a stream or from a compressed file is acceptable.
pub read_message-is_acceptable :
    (io : StreamIo) (is : Bytes) {m : Message} {rest : Bytes}
    → read_message io is ≡ some (m, rest)
    → is_acceptable m ≡ true
unfolding read_message read_header read_origin
read_message-is_acceptable io is h = ground arith

read_origin_v-eq-read_origin :
    (io : StreamIo) (is : Bytes) → read_origin_v io is ≡ read_origin io is
unfolding read_origin_v read_origin
read_origin_v-eq-read_origin io is = ground arith

-- The reader of compressed files looks at the names only after all three members of the origin are
-- read, and still accepts the same messages, with the same bytes left, from the same bytes.
pub read_message_v-eq-read_message :
    (io : StreamIo) (is : Bytes) → read_message_v io is ≡ read_message io is
unfolding read_message_v read_message read_header
read_message_v-eq-read_message io is = rw (fun_ext (read_origin_v-eq-read_origin io)) refl

-- `StreamedLength` is the number of bytes that `Write` writes.
pub streamed_length_lem :
    (io : StreamIo) (m : Message) → IsSound io → length (write_message io m) ≡ streamed_length io m
unfolding write_message write_header write_origin streamed_length
streamed_length_lem io m sound = simp length-append (
    omega (
      arith,
      sound.encoded_u64.measured m.header.timestamp,
      sound.u8.measured m.header.facility,
      sound.u8.measured m.header.severity,
      sound.string_255.measured m.header.origin.hostname,
      sound.string_255.measured m.header.origin.appname,
      sound.u32.measured m.header.origin.procid,
      sound.string_1500.measured m.message,
    ))
