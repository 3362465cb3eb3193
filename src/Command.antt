-- ===== src/Command.antt =====
-- apps/mclogger/mclogger.cc: the program that sends one message to the daemon on its host. `getopt`
-- is its result, the options in their order and the arguments left; the host's name, the parent's
-- identifier and the time are arguments, as is what libDwm's `ShortString` makes of a text.
pub mod Priority
pub mod Delivery
use mclog.Base.{
  ℕ, Text, codes, text_eq, Bool, true, false, ◌&&◌, ◌||◌, ◌==◌, ltb, List, [], ◌∷◌, Option, none,
  some, if◌then◌else◌, ◌>>=◌,
}
use mclog.Facility
use mclog.Facility.{Facility, facility_value}
use mclog.Severity
use mclog.Severity.{Severity, severity_value}
use mclog.Message.{Bytes, Message, StreamIo, write_message}
use mclog.Packet.{Aead, make_packet, add, datagram}
use mclog.Decimal.{stoul}

-- The text before the first dot and the text behind it.
unfoldable pub split_dot : Text → Option (Text × Text)
split_dot [] = none
split_dot (x ∷ xs) =
    let rest = split_dot xs in
    if x == 46 then some ([], xs) else (rest >>= λ (a, b). some (x ∷ a, b))

abbrev pub one_of : Text → List Text → Bool
one_of s [] = false
one_of s (t ∷ ts) = text_eq s t || one_of s ts

-- The alternatives of the regular expression's two groups.
abbrev pub facility_words : List Text
facility_words =
    codes "kernel"
    ∷ codes "user"
    ∷ codes "mail"
    ∷ codes "daemon"
    ∷ codes "auth"
    ∷ codes "syslog"
    ∷ codes "lpr"
    ∷ codes "news"
    ∷ codes "uucp"
    ∷ codes "cron"
    ∷ codes "authpriv"
    ∷ codes "ftp"
    ∷ codes "local0"
    ∷ codes "local1"
    ∷ codes "local2"
    ∷ codes "local3"
    ∷ codes "local4"
    ∷ codes "local5"
    ∷ codes "local6"
    ∷ codes "local7"
    ∷ []

abbrev pub severity_words : List Text
severity_words =
    codes "emerg"
    ∷ codes "alert"
    ∷ codes "crit"
    ∷ codes "err"
    ∷ codes "warning"
    ∷ codes "notice"
    ∷ codes "info"
    ∷ codes "debug"
    ∷ []

-- `regex_match`, with the two groups: no alternative holds a dot.
unfoldable pub match_priority : Text → Option (Text × Text)
match_priority p = do
  (a, b) ← split_dot p
  if one_of a facility_words && one_of b severity_words then some (a, b) else none

-- `GetPriorityInfo`
unfoldable pub get_priority_info : Text → Facility × Severity
get_priority_info p = elim (match_priority p) [
  | none ↦ (Facility.user, Severity.info)
  | some (a, b) ↦ (facility_value a, severity_value b)
]

-- `-p`, `-P`, and any other.
pub data SendFlag : Type 0 where
  set_priority : Text → SendFlag
  set_port : Text → SendFlag
  unknown_flag : SendFlag

pub record SendOptions : Type 0 where
  pub priority : Facility × Severity
  pub port : ℕ

abbrev pub default_send_options : SendOptions
default_send_options = record { priority = (Facility.user, Severity.info); port = 3737 }

-- The port of `-P`; `none` is `exit(1)`.
unfoldable pub port_of : Text → Option ℕ
port_of t = stoul t >>= λ n. (if ltb n 65536 then some n else none)

-- The loop of `getopt`; `none` is `exit(1)`.
unfoldable pub read_send_options : List SendFlag → SendOptions → Option SendOptions
read_send_options [] o = some o
read_send_options (set_priority t ∷ fs) o =
    read_send_options fs (record o { priority = get_priority_info t })
read_send_options (set_port t ∷ fs) o = elim (port_of t) [
  | none ↦ none
  | some n ↦ read_send_options fs (record o { port = n })
]
read_send_options (unknown_flag ∷ fs) o = none

-- `argv[argc - 2]` and `argv[argc - 1]`, where two arguments are left at least.
unfoldable pub last_two : List Text → Option (Text × Text)
last_two [] = none
last_two (a ∷ []) = none
last_two (a ∷ b ∷ []) = some (a, b)
last_two (a ∷ b ∷ c ∷ rest) = last_two (b ∷ c ∷ rest)

-- `gethostname`, `getppid` and the clock.
pub record Caller : Type 0 where
  pub hostname : Text
  pub ppid : ℕ
  pub now : ℕ

-- The system's answers: whether `socket` gives a descriptor, and whether `sendto` takes the datagram.
pub record Network : Type 0 where
  pub opens : Bool
  pub takes : Bool

-- The status of `exit`, and what was sent to which port of 127.0.0.1.
pub record Exited : Type 0 where
  pub status : ℕ
  pub sent : Option (ℕ × Bytes)

abbrev pub exit_failure : Exited
exit_failure = record { status = 1; sent = none }

module _ (short_string : ℕ → Text → Text) where
  -- `MakeMessage`
  unfoldable pub make_message : Caller → Text → Facility → Severity → Text → Message
  make_message w appname facility severity msg = record {
    header = record {
      timestamp = w.now;
      facility = facility;
      severity = severity;
      origin = record {
        hostname = short_string 255 w.hostname;
        appname = short_string 255 appname;
        procid = w.ppid;
      };
    };
    message = short_string 1500 msg;
  }

  module _ (c : Aead) (io : StreamIo) where
    -- `main`, where `pktbuf` is what the buffer of 1024 bytes holds before; `none` is the packet's
    -- assertion.
    unfoldable pub send_command :
        Caller → Network → Bytes → List SendFlag → List Text → Option Exited
    send_command w net pktbuf flags args = elim (read_send_options flags default_send_options) [
      | none ↦ some exit_failure
      | some o ↦ elim (last_two args) [
        | none ↦ some exit_failure
        | some (ident, text) ↦
            if net.opens
            then (do
              pkt ← make_packet c pktbuf
              let msg = make_message w ident o.priority.0 o.priority.1 text
              let (added, full) = add (write_message io msg) pkt
              some (
                  if net.takes
                  then record { status = 0; sent = some (o.port, datagram c full) }
                  else exit_failure))
            else some exit_failure
      ]
    ]
