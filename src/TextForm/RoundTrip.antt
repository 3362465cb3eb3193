-- ===== src/TextForm/RoundTrip.antt =====
-- A message that is printed reads back.
use mclog.Base.{
  ℕ, ◌+◌, ◌-◌, ◌/◌, ◌%◌, ◌^◌, ◌≡◌, ◌<◌, ◌⊎◌, inl, inr, ◌∙◌, refl, ap, sym, true, false, Text, ◌∷◌,
  ◌++◌, some, ltb, leb, ◌==◌, length, arith, append_assoc, length-append, take-append, drop-append,
  holds_below, holds_below→holds,
}
use mclog.Stream.{is_space, skip_space, read_word, read_bytes}
use mclog.Stream.Words.{is_word, read_word-append, read_word-space, no_newline, read_line-append}
use mclog.Decimal.{print_padded}
use mclog.Decimal.RoundTrip.{print_padded_lem}
use mclog.Facility.{Facility, facility_name, print_facility, parse_facility}
use mclog.Facility.Names.{is_named, facility_value-facility_name}
use mclog.Severity.{print_severity, parse_severity}
use mclog.Severity.Names.{parse_severity-print_severity}
use mclog.Message.{Message, secs, usecs, is_valid_hostname, is_valid_app_name}
use mclog.Message.RoundTrip.{Fits}
use mclog.TextForm.{
  Clock, Scanned, is_normal, offset_secs, microseconds, got, to_microseconds, print_timestamp,
  parse_timestamp, print_origin, print_header, parse_header, print_message, parse_message,
}
use mclog.TextForm.Fields.{parse_origin-print_origin}

-- What <time.h> and `sscanf` are relied on for at one time: the two texts have their lengths, and
-- what is scanned of the time stamp's text are the fields of its local time and the zone's offset,
-- so that `timegm` is the offset ahead of the time, or behind it.
pub record IsExact (clk : Clock) (t : ℕ) : Type 0 where
  pub scanned : Scanned
  pub date_size : length (clk.date_time (secs t)) ≡ 19
  pub zone_size : length (clk.zone (secs t)) ≡ 5
  pub scans : clk.scan (print_timestamp clk t) ≡ some scanned
  pub normal : is_normal scanned ≡ true
  pub same_usecs : scanned.usecs ≡ usecs t
  pub instant :
      ((scanned.offsign ≡ b'+') × (clk.timegm scanned ≡ secs t + offset_secs scanned))
      ⊎ ((scanned.offsign ≡ b'-') × (clk.timegm scanned + offset_secs scanned ≡ secs t))

-- What the text form keeps of a message: a named facility, a severity of the eight, names that are
-- valid, the application's shorter than 255 bytes, and one line of text that does not begin with a
-- space.
pub record IsPrintable (m : Message) : Type 0 where
  pub fits : Fits m
  pub hostname : is_valid_hostname m.header.origin.hostname ≡ true
  pub appname : is_valid_app_name m.header.origin.appname ≡ true
  pub short_name : length m.header.origin.appname < 255
  pub facility : is_named m.header.facility ≡ true
  pub severity : m.header.severity < 8
  pub first : ℕ
  pub others : Text
  pub text : m.message ≡ first ∷ others
  pub starts : is_space first ≡ false
  pub one_line : no_newline m.message ≡ true

microseconds_lem :
    (t x : ℕ) → t < 2 ^ 64 → (x ≡ secs t) ⊎ (x ≡ secs t + 2 ^ 64) → microseconds x (usecs t) ≡ t
unfolding microseconds secs usecs
microseconds_lem t x small which =
    let reduced : x % 2 ^ 64 ≡ t / 1000000 = ground (arith, which) in rw reduced (omega arith)

offset_lem : (s : Scanned) → is_normal s ≡ true → offset_secs s < 2 ^ 64
unfolding is_normal
offset_lem s h = ground arith

to_microseconds-print_timestamp :
    (clk : Clock) (t : ℕ)
    → IsExact clk t
    → t < 2 ^ 64
    → to_microseconds clk (print_timestamp clk t) ≡ t
unfolding to_microseconds
to_microseconds-print_timestamp clk t exact small =
    let s = exact.scanned in
    let bound = offset_lem s exact.normal in
    rw (exact.scans, to_microseconds, exact.normal)
      (elim exact.instant [
        | inl (ahead, same) ↦
            let minus : (s.offsign == b'-') ≡ false = ground (arith, ahead) in
            let plus : (s.offsign == b'+') ≡ true = ground (arith, ahead) in
            let x = clk.timegm s + (2 ^ 64 - offset_secs s) in
            rw (minus, plus)
              (ap (microseconds x) exact.same_usecs
                ∙ microseconds_lem t x small (inr (omega (arith, same, bound))))
        | inr (behind, same) ↦
            let minus : (s.offsign == b'-') ≡ true = ground (arith, behind) in
            let x = clk.timegm s + offset_secs s in
            rw minus (ap (microseconds x) exact.same_usecs ∙ microseconds_lem t x small (inl same))
      ])

length-print_timestamp : (clk : Clock) (t : ℕ) → IsExact clk t → length (print_timestamp clk t) ≡ 31
unfolding print_timestamp usecs
length-print_timestamp clk t exact =
    let padded = print_padded (t % 1000000) in
    omega (
      arith,
      exact.date_size,
      exact.zone_size,
      print_padded_lem (t % 1000000) (omega arith),
      length-append (clk.date_time (secs t)) (b'.' ∷ (padded ++ clk.zone (secs t))),
      length-append padded (clk.zone (secs t)),
    )

parse_timestamp-print_timestamp :
    (clk : Clock) (t : ℕ) (rest : Text)
    → IsExact clk t
    → t < 2 ^ 64
    → 0 < t
    → parse_timestamp clk (print_timestamp clk t ++ rest) ≡ got t rest
unfolding parse_timestamp read_bytes
parse_timestamp-print_timestamp clk t rest exact small positive =
    let text = print_timestamp clk t in
    let size : 31 ≡ length text = sym (length-print_timestamp clk t exact) in
    let room : leb 31 (length (text ++ rest)) ≡ true =
      ground (arith, size, length-append text rest) in
    let exactly = to_microseconds-print_timestamp clk t exact small in
    let real : (t == 0) ≡ false = ground arith in
    rw (room, take-append 31 text rest size, drop-append 31 text rest size, exactly, real) refl

names_are_words : holds_below (λ f. is_word (facility_name f)) 256 ≡ true
unfolding holds_below is_word is_space facility_name
names_are_words = refl

parse_facility-print_facility :
    (f : Facility) (rest : Text)
    → f < 256
    → is_named f ≡ true
    → parse_facility (b' ' ∷ (print_facility f ++ (b' ' ∷ rest))) ≡ some (f, b' ' ∷ rest)
unfolding parse_facility print_facility is_space
parse_facility-print_facility f rest h named =
    let word = holds_below→holds (λ g. is_word (facility_name g)) 256 f h names_are_words in
    let read : read_word (b' ' ∷ (facility_name f ++ (b' ' ∷ rest)))
        ≡ some (facility_name f, b' ' ∷ rest) =
      read_word-space b' ' (facility_name f ++ (b' ' ∷ rest)) refl
      ∙ read_word-append (facility_name f) b' ' rest word refl in
    rw (read, facility_value-facility_name f h, named) refl

parse_severity_behind_space : (s rest : Text) → parse_severity (b' ' ∷ s) ≡ parse_severity s
unfolding parse_severity is_space
parse_severity_behind_space s rest = rw (read_word-space b' ' s refl) refl

parse_header-print_header :
    (clk : Clock) (m : Message) (rest : Text)
    → IsPrintable m
    → IsExact clk m.header.timestamp
    → 0 < m.header.timestamp
    → parse_header clk (print_header clk m.header ++ (b' ' ∷ rest)) ≡ got m.header (b' ' ∷ rest)
unfolding parse_header print_header is_space
parse_header-print_header clk m rest ok exact positive =
    let h = m.header in
    let mark = print_severity h.severity ++ (b' ' ∷ rest) in
    let tail3 = print_origin h.origin ++ (b':' ∷ (b' ' ∷ mark)) in
    let tail2 = print_facility h.facility ++ (b' ' ∷ tail3) in
    let text : print_header clk h ++ (b' ' ∷ rest)
        ≡ print_timestamp clk h.timestamp ++ (b' ' ∷ tail2) =
      simp append_assoc refl in
    let time =
      parse_timestamp-print_timestamp clk h.timestamp (b' ' ∷ tail2) exact ok.fits.timestamp
        positive in
    let facility = parse_facility-print_facility h.facility tail3 ok.fits.facility ok.facility in
    let origin =
      parse_origin-print_origin h.origin mark ok.hostname ok.appname ok.fits.hostname ok.short_name
        ok.fits.procid in
    let named : ltb h.severity 8 ≡ true = ground (arith, ok.severity) in
    let severity =
      parse_severity_behind_space mark rest
      ∙ parse_severity-print_severity h.severity b' ' rest ok.fits.severity refl in
    ap (parse_header clk) text ∙ rw (time, facility, origin, severity, named) refl

-- Printed and read again, with anything behind it, a printable message comes back unchanged and
-- what is behind it is left, where <time.h> is exact at its time stamp, which is not the epoch.
pub parse_message-print_message :
    (clk : Clock) (m : Message) (rest : Text)
    → IsPrintable m
    → IsExact clk m.header.timestamp
    → 0 < m.header.timestamp
    → parse_message clk (print_message clk m ++ rest) ≡ got m rest
unfolding parse_message print_message skip_space is_space
parse_message-print_message clk m rest ok exact positive =
    let line = m.message ++ (10 ∷ rest) in
    let text : print_message clk m ++ rest ≡ print_header clk m.header ++ (b' ' ∷ line) =
      simp append_assoc refl in
    let header = parse_header-print_header clk m line ok exact positive in
    let skipped : skip_space (b' ' ∷ line) ≡ line = rw (ok.text, ok.starts) refl in
    let read = read_line-append m.message rest ok.one_line in
    let size : leb (length m.message) 1500 ≡ true = ground (arith, ok.fits.message) in
    ap (parse_message clk) text ∙ rw (header, skipped, read, size) refl
