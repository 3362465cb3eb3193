-- ===== src/TextForm.antt =====
-- The text forms of DwmMclogTimestamp.cc, DwmMclogMessageOrigin.cc, DwmMclogMessageHeader.cc and
-- DwmMclogMessage.cc: `operator <<` and `operator >>`. The calls of <time.h> and `sscanf` are a
-- parameter.
pub mod Fields
pub mod RoundTrip
use mclog.Base.{
  ℕ, zero, suc, ◌+◌, ◌-◌, ◌*◌, ◌/◌, ◌%◌, ◌^◌, ◌≡◌, Bool, true, false, ◌&&◌, Text, codes, [], ◌∷◌,
  ◌++◌, Option, none, some, ltb, leb, ◌==◌, if◌then◌else◌, length, take, drop,
}
use mclog.Stream.{skip_space, read_word, read_line, read_bytes}
use mclog.Decimal.{print_unsigned, print_padded, stoul}
use mclog.Facility.{print_facility, parse_facility}
use mclog.Severity.{print_severity, parse_severity}
use mclog.Message.{MessageOrigin, MessageHeader, Message, secs, usecs}

-- What `sscanf` reads with the format "%04d-%02d-%02d %02d:%02d:%02d.%06u%c%02u%02u"; a negative
-- number is its 32-bit pattern.
pub record Scanned : Type 0 where
  pub year : ℕ
  pub mon : ℕ
  pub mday : ℕ
  pub hour : ℕ
  pub min : ℕ
  pub sec : ℕ
  pub usecs : ℕ
  pub offsign : ℕ
  pub offhours : ℕ
  pub offmins : ℕ

-- `strftime` of the local time with "%Y-%m-%d %H:%M:%S" and with "%z", `sscanf` where it reads all
-- ten values, and `timegm` of the six first as a 64-bit pattern.
pub record Clock : Type 0 where
  pub date_time : ℕ → Text
  pub zone : ℕ → Text
  pub scan : Text → Option Scanned
  pub timegm : Scanned → ℕ

-- `IsNormal`, before `--tms.tm_mon`.
unfoldable pub is_normal : Scanned → Bool
is_normal t =
    ltb 0 t.mon
    && (ltb t.mon 13
        && (ltb 0 t.mday
            && (ltb t.mday 32
                && (ltb t.hour 24
                    && (ltb t.min 60
                        && (ltb t.sec 60 && (ltb t.offhours 24 && ltb t.offmins 60)))))))

abbrev pub offset_secs : Scanned → ℕ
offset_secs t = t.offhours * 3600 + t.offmins * 60

-- `rc = ...; rc *= 1000000ULL; rc += usecs;`
unfoldable pub microseconds : ℕ → ℕ → ℕ
microseconds secs usecs = (secs % 2 ^ 64 * 1000000 % 2 ^ 64 + usecs) % 2 ^ 64

-- The result of a read: an exception, the failbit set, or a value and the bytes left.
pub data Parsed (A : Type 0) : Type 0 where
  threw : Parsed A
  failed : Parsed A
  got : A → Text → Parsed A

infixl 5 ◌>>◌
abbrev pub ◌>>◌ : {A : Type 0} {B : Type 0} → Parsed A → (A → Text → Parsed B) → Parsed B
threw >> f = threw
failed >> f = failed
got x rest >> f = f x rest

abbrev pub of_option : {A : Type 0} → Option (A × Text) → Parsed A
of_option none = failed
of_option (some (x, rest)) = got x rest

-- `std::string::find_first_of` of one byte.
unfoldable pub find_first_of : ℕ → Text → Option ℕ
find_first_of c [] = none
find_first_of c (x ∷ s) =
    if x == c then some 0 else elim (find_first_of c s) [ none ↦ none | some i ↦ some (suc i) ]

-- `operator <<` and `operator >>` of the origin.
unfoldable pub print_origin : MessageOrigin → Text
print_origin o =
    o.hostname ++ (b' ' ∷ (o.appname ++ (b'[' ∷ (print_unsigned o.procid ++ (b']' ∷ [])))))

-- The origin that a host's name and `procInfo` stand for.
unfoldable pub split_proc_info : Text → Text → Text → Parsed MessageOrigin
split_proc_info hn info rest = elim (find_first_of b'[' info) [
  | none ↦ failed
  | some aidx ↦ elim (find_first_of b']' info) [
    | none ↦ failed
    | some pidx ↦
        if ltb aidx 255 && ltb (aidx + 1) pidx
        then elim (stoul (take (pidx - (aidx + 1)) (drop (aidx + 1) info))) [
          | none ↦ threw
          | some n ↦
              got (record { hostname = hn; appname = take aidx info; procid = n % 2 ^ 32 }) rest
        ]
        else failed
  ]
]

unfoldable pub parse_origin : Text → Parsed MessageOrigin
parse_origin is = of_option (read_word is) >> λ hn is1. of_option (read_word is1) >> λ info is2.
    if leb (length hn) 255 then split_proc_info hn info is2 else failed

module _ (clk : Clock) where
  -- `ToMicroseconds`, in 64 bits.
  unfoldable pub to_microseconds : Text → ℕ
  to_microseconds s = elim (clk.scan s) [
    | none ↦ 0
    | some t ↦
        if is_normal t
        then if t.offsign == b'-'
          then microseconds (clk.timegm t + offset_secs t) t.usecs
          else if t.offsign == b'+'
          then microseconds (clk.timegm t + (2 ^ 64 - offset_secs t)) t.usecs
          else 0
        else 0
  ]

  -- `operator <<` and `operator >>` of a time stamp.
  unfoldable pub print_timestamp : ℕ → Text
  print_timestamp t =
      clk.date_time (secs t) ++ (b'.' ∷ (print_padded (usecs t) ++ clk.zone (secs t)))

  unfoldable pub parse_timestamp : Text → Parsed ℕ
  parse_timestamp is = of_option (read_bytes 31 is) >> λ buf rest.
      let t = to_microseconds buf in if t == 0 then failed else got t rest

  -- Those of a header.
  unfoldable pub print_header : MessageHeader → Text
  print_header h =
      print_timestamp h.timestamp
      ++ (b' '
          ∷ (print_facility h.facility
              ++ (b' ' ∷ (print_origin h.origin ++ (codes ": " ++ print_severity h.severity)))))

  unfoldable pub parse_header : Text → Parsed MessageHeader
  parse_header is = parse_timestamp is >> λ t is1. of_option (parse_facility is1) >> λ f is2.
      parse_origin is2 >> λ o is3. of_option (parse_severity is3) >> λ s is4.
      got (record { timestamp = t; facility = f; severity = s; origin = o }) is4

  -- Those of a message.
  unfoldable pub print_message : Message → Text
  print_message m = print_header m.header ++ (b' ' ∷ (m.message ++ (10 ∷ [])))

  unfoldable pub parse_message : Text → Parsed Message
  parse_message is = parse_header is >> λ h is1. of_option (read_line (skip_space is1)) >> λ s is2.
      if leb (length s) 1500 then got (record { header = h; message = s }) is2 else failed
