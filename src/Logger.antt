-- ===== src/Logger.antt =====
-- DwmMclogLogger.hh and DwmMclogLogger.cc: the logger of a program. The host's name, the program's
-- name and identifier, the clock and what the sinks return are arguments; `none` is a call through
-- a null pointer. The locks make each operation a step.
pub mod Calls
pub mod Commands
pub mod Ownership
pub mod Closed
use mclog.Base.{
  ℕ, zero, suc, ◌+◌, ◌*◌, ◌/◌, ◌%◌, ◌≡◌, Bool, true, false, ◌&&◌, ◌||◌, not, Text, codes, List, [],
  ◌∷◌, ◌++◌, Option, none, some, ltb, ◌==◌, if◌then◌else◌, ◌>>=◌, filter, map,
}
use mclog.Facility
use mclog.Facility.{Facility}
use mclog.Severity
use mclog.Severity.{Severity}
use mclog.Message.{Message, MessageHeader, MessageOrigin}
use mclog.Sinks.{Sink, erase_sink, add_sinks, remove_sinks}

-- `senders` are the loopback senders that `new` made and that are not deleted; `_cerrSink` and
-- `_syslogSink` are never used.
pub record Logger : Type 0 where
  pub origin : MessageOrigin
  pub facility : Facility
  pub minimum_severity : Severity
  pub log_locations : Bool
  pub sinks : List Sink
  pub loopback_sender : Option Sink
  pub senders : List Sink

abbrev pub no_origin : MessageOrigin
no_origin = record { hostname = []; appname = []; procid = 0 }

-- The constructor.
unfoldable pub new_logger : Logger
new_logger = record {
  origin = no_origin;
  facility = Facility.user;
  minimum_severity = Severity.debug;
  log_locations = false;
  sinks = [];
  loopback_sender = none;
  senders = [];
}

-- `gethostname`, `ProgramName` and `getpid`.
pub record Host : Type 0 where
  pub hostname : Text
  pub program_name : Text
  pub pid : ℕ

abbrev ident_or : Option Text → Text → Text
ident_or none name = name
ident_or (some ident) name = ident

-- `Open`, where `sender` is what `new LoopbackSender()` would give.
unfoldable pub open_logger : Host → Sink → Facility → List Sink → Option Text → Logger → Logger
open_logger h sender facility sinks ident l =
    let named = record l {
      origin = record {
        hostname = h.hostname;
        appname = ident_or ident h.program_name;
        procid = h.pid;
      };
      facility = facility;
      sinks = sinks;
    } in
    elim sinks [
      | [] ↦ record named {
        sinks = sender ∷ [];
        loopback_sender = some sender;
        senders = sender ∷ l.senders;
      }
      | s ∷ ss ↦ named
    ]

-- `AddSinks` and `RemoveSinks`
unfoldable pub add_logger_sinks : List Sink → Logger → Bool × Logger
add_logger_sinks ns l = let (added, ss) = add_sinks ns l.sinks in (added, record l { sinks = ss })

unfoldable pub remove_logger_sinks : List Sink → Logger → Bool × Logger
remove_logger_sinks rs l =
    let (removed, ss) = remove_sinks rs l.sinks in (removed, record l { sinks = ss })

-- `delete _loopbackSender` where there is one.
unfoldable pub delete_sender : Logger → Logger
delete_sender l = elim l.loopback_sender [
  | none ↦ l
  | some s ↦ record l { loopback_sender = none; senders = erase_sink s l.senders }
]

abbrev pub not_null : Sink → Bool
not_null s = not (s == 0)

-- `SetSinks`, which keeps the sinks that are no null pointers.
unfoldable pub set_sinks : List Sink → Logger → Logger
set_sinks ss l = record (delete_sender l) { sinks = filter not_null ss }

-- `Close`
unfoldable pub close_logger : Logger → Logger
close_logger l = record (delete_sender l) { sinks = []; origin = no_origin }

-- `fs::path(loc.file_name()).filename()`: what stands behind the last slash.
unfoldable pub file_name : Text → Text
file_name [] = []
file_name (c ∷ s) = let rest = file_name s in if has_slash (c ∷ s) then rest else c ∷ s
  where
    has_slash : Text → Bool
    has_slash [] = false
    has_slash (c ∷ s) = c == b'/' || has_slash s

-- A call of `Log`: the severity, the text, the place in the source, and the clock's reading.
pub record Entry : Type 0 where
  pub severity : Severity
  pub text : Text
  pub file : Text
  pub line : Text
  pub now : ℕ

-- `msg` with the place behind it; `std::to_string` of the line is an argument.
unfoldable pub entry_text : Bool → Entry → Text
entry_text locations e =
    if locations
    then e.text ++ (codes " {" ++ (file_name e.file ++ (b':' ∷ (e.line ++ codes "}"))))
    else e.text

-- The message of a call, where `shorten` is what a `ShortString<1500>` keeps of a string.
unfoldable pub log_message : (Text → Text) → Logger → Entry → Message
log_message shorten l e = record {
  header = record {
    timestamp = e.now;
    facility = l.facility;
    severity = e.severity;
    origin = l.origin;
  };
  message = shorten (entry_text l.log_locations e);
}

-- `for (auto sink : _sinks) { rc &= sink->Process(logmsg); }`: every sink is called. What a sink's
-- `Process` returns is an argument.
unfoldable pub process_sinks :
    (Sink → Message → Bool) → Message → List Sink → Option (Bool × List (Sink × Message))
process_sinks accepts m [] = some (true, [])
process_sinks accepts m (s ∷ ss) = do
  (rc, calls) ← (if not_null s then process_sinks accepts m ss else none)
  some (accepts s m && rc, (s, m) ∷ calls)

-- `Log`: what it returns, and the calls of `Process`.
unfoldable pub log :
    (Text → Text) → (Sink → Message → Bool) → Logger → Entry → Option (Bool × List (Sink × Message))
log shorten accepts l e =
    if ltb l.minimum_severity e.severity
    then some (true, [])
    else if l.origin.procid == 0
    then some (false, [])
    else process_sinks accepts (log_message shorten l e) l.sinks
