-- ===== src/Examples/Loggers.antt =====
-- Runs of the logger and of its list of sinks.
use mclog.Base.{
  ◌≡◌, ◌≤◌, refl, arith, Bool, true, false, ◌||◌, Text, codes, List, [], ◌∷◌, some, none, ◌==◌,
  if◌then◌else◌, count,
}
use mclog.Message.{Message}
use mclog.Sinks.{Sink, has_sink}
use mclog.Logger.{
  Logger, Host, Entry, new_logger, open_logger, add_logger_sinks, close_logger, log, log_message,
  file_name,
}
use mclog.Logger.Calls.{calls_of, all_accept, log-add_logger_sinks}
use mclog.Logger.Commands.{Command, opens, adds, sets, closes, sets_minimum, logs, run}
use mclog.Logger.Ownership.{held, run-IsOwner}
use mclog.Logger.Closed.{run-close_logger}

abbrev host : Host
host = record { hostname = codes "ab"; program_name = codes "prog"; pid = 77 }

abbrev entry : Entry
entry = record {
  severity = 3;
  text = codes "hi";
  file = codes "src/a.cc";
  line = codes "12";
  now = 1000;
}

-- Sink 6 refuses every message.
abbrev accepts : Sink → Message → Bool
accepts s m = if s == 6 then false else true

abbrev unchanged : Text → Text
unchanged s = s

file_name_test : file_name (codes "src/a.cc") ≡ codes "a.cc"
unfolding file_name
file_name_test = refl

once : (x : Sink) → count x (5 ∷ 6 ∷ []) ≤ 1
once x = ground arith

log-add_logger_sinks_example :
    let l' =
      (add_logger_sinks (6 ∷ 7 ∷ []) (open_logger host 9 8 (5 ∷ 6 ∷ []) none new_logger)).1 in
    (calls : List (Sink × Message)) × (log unchanged accepts l' entry
      ≡ some (all_accept accepts (log_message unchanged l' entry) l'.sinks, calls))
    × ((x : Sink)
        → calls_of x calls ≡ (if has_sink x (5 ∷ 6 ∷ []) || has_sink x (6 ∷ 7 ∷ []) then 1 else 0))
unfolding has_sink new_logger
log-add_logger_sinks_example =
    log-add_logger_sinks unchanged accepts host 9 5 8 (6 ∷ []) (6 ∷ 7 ∷ []) none new_logger entry
      once refl refl refl

abbrev commands : List Command
commands =
    opens host 9 8 [] none
    ∷ adds (5 ∷ [])
    ∷ logs entry
    ∷ sets (0 ∷ 6 ∷ [])
    ∷ logs entry
    ∷ opens host 10 8 [] (some (codes "x"))
    ∷ logs entry
    ∷ []

run-IsOwner_example :
    (l : Logger) × (calls : List (Sink × Message)) × (run unchanged accepts commands new_logger
      ≡ some (l, calls))
    × (l.senders ≡ held l.loopback_sender)
    × (has_sink 0 l.sinks ≡ false)
    × ((close_logger l).senders ≡ [])
unfolding has_sink
run-IsOwner_example =
    run-IsOwner unchanged accepts commands
      ((refl, refl), (refl, (tt, (tt, (tt, ((refl, refl), (tt, tt)))))))

abbrev busy : Logger
busy = record new_logger { sinks = 5 ∷ 6 ∷ [] }

run-close_logger_example :
    (l' : Logger) × (run unchanged accepts
        (closes ∷ adds (5 ∷ []) ∷ sets_minimum 7 ∷ logs entry ∷ [])
        busy
      ≡ some (l', []))
run-close_logger_example =
    run-close_logger unchanged accepts (adds (5 ∷ []) ∷ sets_minimum 7 ∷ logs entry ∷ []) busy
      (refl, (refl, (refl, tt)))
