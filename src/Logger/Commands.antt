-- ===== src/Logger/Commands.antt =====
-- The operations of a logger in any order.
use mclog.Base.{Bool, Text, List, [], ◌∷◌, ◌++◌, Option, some, ◌>>=◌}
use mclog.Facility.{Facility}
use mclog.Severity.{Severity}
use mclog.Message.{Message}
use mclog.Sinks.{Sink}
use mclog.Logger.{
  Logger, Host, Entry, open_logger, add_logger_sinks, remove_logger_sinks, set_sinks, close_logger,
  log,
}

-- The member functions of `Logger` that change it or call a sink.
pub data Command : Type 0 where
  opens : Host → Sink → Facility → List Sink → Option Text → Command
  adds : List Sink → Command
  removes : List Sink → Command
  sets : List Sink → Command
  closes : Command
  sets_minimum : Severity → Command
  sets_locations : Bool → Command
  logs : Entry → Command

module _ (shorten : Text → Text) (accepts : Sink → Message → Bool) where
  -- The logger afterwards, and the calls of `Process`.
  unfoldable pub step : Command → Logger → Option (Logger × List (Sink × Message))
  step (opens h sender facility ss ident) l = some (open_logger h sender facility ss ident l, [])
  step (adds ss) l = some ((add_logger_sinks ss l).1, [])
  step (removes ss) l = some ((remove_logger_sinks ss l).1, [])
  step (sets ss) l = some (set_sinks ss l, [])
  step closes l = some (close_logger l, [])
  step (sets_minimum severity) l = some (record l { minimum_severity = severity }, [])
  step (sets_locations locations) l = some (record l { log_locations = locations }, [])
  step (logs e) l = do (rc, calls) ← log shorten accepts l e; some (l, calls)

  unfoldable pub run : List Command → Logger → Option (Logger × List (Sink × Message))
  run [] l = some (l, [])
  run (k ∷ ks) l = do (l1, calls) ← step k l; (l2, others) ← run ks l1; some (l2, calls ++ others)
