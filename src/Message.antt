-- ===== src/Message.antt =====
-- DwmMclogMessageOrigin, DwmMclogTimestamp, DwmMclogMessageHeader and DwmMclogMessage: the data and
-- their binary form. libDwm's stream forms of numbers and strings are a parameter.
pub mod RoundTrip
pub mod Streams
use mclog.Base.{
  ℕ, zero, suc, ◌+◌, ◌*◌, ◌/◌, ◌%◌, ◌≤◌, ◌≡◌, Bool, true, false, ◌&&◌, ◌||◌, not, Text, List, [],
  ◌∷◌, ◌++◌, Option, none, some, leb, ltb, ◌==◌, text_eq, is_empty, if◌then◌else◌, ◌>>=◌, length,
}
use mclog.Facility
use mclog.Facility.{Facility}
use mclog.Severity
use mclog.Severity.{Severity}

abbrev pub Bytes : Type 0
Bytes = List ℕ

-- `_hostname` and `_appname` are `ShortString<255>`.
pub record MessageOrigin : Type 0 where
  pub hostname : Text
  pub appname : Text
  pub procid : ℕ

-- `timestamp` is `Timestamp::_usecs`, the microseconds since the epoch.
pub record MessageHeader : Type 0 where
  pub timestamp : ℕ
  pub facility : Facility
  pub severity : Severity
  pub origin : MessageOrigin

-- `_message` is a `ShortString<1500>`.
pub record Message : Type 0 where
  pub header : MessageHeader
  pub message : Text

-- `Timestamp::Secs` and `Timestamp::Usecs`
unfoldable pub secs : ℕ → ℕ
secs usecs = usecs / 1000000

unfoldable pub usecs : ℕ → ℕ
usecs t = t % 1000000

-- `std::isalnum` in the "C" locale.
unfoldable pub is_alnum : ℕ → Bool
is_alnum c = leb b'0' c && leb c b'9' || (leb b'A' c && leb c b'Z' || leb b'a' c && leb c b'z')

unfoldable pub is_host_char : ℕ → Bool
unfolding is_alnum
is_host_char c = is_alnum c || (c == b'-' || c == b'.')

unfoldable pub is_app_char : ℕ → Bool
unfolding is_alnum
is_app_char c = is_alnum c || (c == b'_' || (c == b'.' || c == b'-'))

-- The index at which the loops of `IsValidHostname` and `IsValidAppName` end.
unfoldable pub good_prefix : (ℕ → Bool) → Text → ℕ
good_prefix ok [] = 0
good_prefix ok (c ∷ s) = let rest = suc (good_prefix ok s) in if ok c then rest else 0

unfoldable pub is_valid_hostname : Text → Bool
unfolding good_prefix
is_valid_hostname hn = length hn == good_prefix is_host_char hn && not (is_empty hn)

unfoldable pub is_valid_app_name : Text → Bool
unfolding good_prefix
is_valid_app_name an = length an == good_prefix is_app_char an && not (is_empty an)

-- `MessageOrigin::operator ==`
unfoldable pub origin_eq : MessageOrigin → MessageOrigin → Bool
origin_eq a b =
    text_eq a.hostname b.hostname && (text_eq a.appname b.appname && a.procid == b.procid)

-- How libDwm writes a value to a stream, reads one, and says how long its form is.
pub record Codec (A : Type 0) : Type 0 where
  pub write : A → Bytes
  pub read : Bytes → Option (A × Bytes)
  pub streamed_length : A → ℕ

-- `EncodedU64`, `uint8_t` (also for an `enum class : uint8_t`), `uint32_t`, `ShortString<255>` and
-- `ShortString<1500>`.
pub record StreamIo : Type 0 where
  pub encoded_u64 : Codec ℕ
  pub u8 : Codec ℕ
  pub u32 : Codec ℕ
  pub string_255 : Codec Text
  pub string_1500 : Codec Text

-- The check at the end of `MessageHeader::Read`.
abbrev pub in_range : MessageHeader → Bool
in_range h = not (ltb Facility.local7 h.facility || ltb Severity.debug h.severity)

module _ (io : StreamIo) where
  -- `MessageOrigin::Write`
  unfoldable pub write_origin : MessageOrigin → Bytes
  write_origin o =
      io.string_255.write o.hostname ++ (io.string_255.write o.appname ++ io.u32.write o.procid)

  -- `MessageOrigin::Read`: a name with a character out of place sets the failbit.
  unfoldable pub read_origin : Bytes → Option (MessageOrigin × Bytes)
  read_origin is = do
    (hn, is1) ← io.string_255.read is
    if is_valid_hostname hn
        then (do
          (an, is2) ← io.string_255.read is1
          if is_valid_app_name an
              then (do
                (pid, is3) ← io.u32.read is2
                some (record { hostname = hn; appname = an; procid = pid }, is3))
              else none)
        else none

  -- `MessageOrigin::BZRead` and `MessageOrigin::Read(gzFile)`: all three are read before the names
  -- are looked at. The compressed stream is the bytes that it holds.
  unfoldable pub read_origin_v : Bytes → Option (MessageOrigin × Bytes)
  read_origin_v is = do
    (hn, is1) ← io.string_255.read is
    (an, is2) ← io.string_255.read is1
    (pid, is3) ← io.u32.read is2
    if is_valid_hostname hn && is_valid_app_name an
        then some (record { hostname = hn; appname = an; procid = pid }, is3)
        else none

  -- `MessageHeader::Write`; the time stamp writes its microseconds as an `EncodedU64`.
  unfoldable pub write_header : MessageHeader → Bytes
  write_header h =
      io.encoded_u64.write h.timestamp
      ++ (io.u8.write h.facility ++ (io.u8.write h.severity ++ write_origin h.origin))

  -- `MessageHeader::Read`, over the `Read` of the origin.
  unfoldable pub read_header_with :
      (Bytes → Option (MessageOrigin × Bytes)) → Bytes → Option (MessageHeader × Bytes)
  read_header_with origin is = do
    (ts, is1) ← io.encoded_u64.read is
    (fac, is2) ← io.u8.read is1
    (sev, is3) ← io.u8.read is2
    (org, is4) ← origin is3
    let h : MessageHeader = record { timestamp = ts; facility = fac; severity = sev; origin = org }
    if in_range h then some (h, is4) else none

  unfoldable pub read_header : Bytes → Option (MessageHeader × Bytes)
  unfolding read_header_with
  read_header = read_header_with read_origin

  -- `Message::Write` and `Message::Read`
  unfoldable pub write_message : Message → Bytes
  write_message m = write_header m.header ++ io.string_1500.write m.message

  unfoldable pub read_message : Bytes → Option (Message × Bytes)
  read_message is = do
    (h, is1) ← read_header is
    (s, is2) ← io.string_1500.read is1
    some (record { header = h; message = s }, is2)

  -- `Message::BZRead` and `Message::Read(gzFile)`
  unfoldable pub read_message_v : Bytes → Option (Message × Bytes)
  unfolding read_header_with
  read_message_v is = do
    (h, is1) ← read_header_with read_origin_v is
    (s, is2) ← io.string_1500.read is1
    some (record { header = h; message = s }, is2)

  -- `Message::StreamedLength`
  unfoldable pub streamed_length : Message → ℕ
  streamed_length m =
      let o = m.header.origin in
      io.encoded_u64.streamed_length m.header.timestamp
      + io.u8.streamed_length m.header.facility
      + io.u8.streamed_length m.header.severity
      + (io.string_255.streamed_length o.hostname
          + io.string_255.streamed_length o.appname
          + io.u32.streamed_length o.procid)
      + io.string_1500.streamed_length m.message

  -- `while (msg.Read(is))`, with fuel: the messages read until a read fails.
  unfoldable pub read_all : ℕ → Bytes → List Message
  read_all zero is = []
  read_all (suc fuel) is = elim (read_message is) [
    | none ↦ []
    | some (m, rest) ↦ m ∷ read_all fuel rest
  ]

  -- The whole loop: each read uses up a byte at least, so this fuel is enough.
  unfoldable pub read_stream : Bytes → List Message
  unfolding read_all
  read_stream is = read_all (suc (length is)) is

  -- The forms of messages, one behind the other.
  unfoldable pub write_all : List Message → Bytes
  write_all [] = []
  write_all (m ∷ ms) = write_message m ++ write_all ms
