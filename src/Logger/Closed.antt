-- ===== src/Logger/Closed.antt =====
-- A closed logger.
use mclog.Base.{
  ◌≡◌, refl, Bool, true, false, Text, List, [], ◌∷◌, some, ltb, arith, Bool-cases, inl, inr,
}
use mclog.Message.{Message}
use mclog.Sinks.{Sink}
use mclog.Logger.{
  Logger, Entry, add_logger_sinks, remove_logger_sinks, set_sinks, close_logger, delete_sender, log,
}
use mclog.Logger.Commands.{
  Command, opens, adds, removes, sets, closes, sets_minimum, sets_locations, logs, step, run,
}

-- A command other than `Open`.
abbrev pub keeps_closed : Command → Bool
keeps_closed (opens h sender facility ss ident) = false
keeps_closed k = true

abbrev pub AllKeepClosed : List Command → Type 0
AllKeepClosed [] = Unit
AllKeepClosed (k ∷ ks) = (keeps_closed k ≡ true) × AllKeepClosed ks

delete_sender-origin : (l : Logger) → (delete_sender l).origin ≡ l.origin
unfolding delete_sender
delete_sender-origin l = ground arith

module _ (shorten : Text → Text) (accepts : Sink → Message → Bool) where
  log_closed :
      (l : Logger) (e : Entry)
      → l.origin.procid ≡ 0
      → (rc : Bool) × (log shorten accepts l e ≡ some (rc, []))
  unfolding log
  log_closed l e shut = elim (Bool-cases (ltb l.minimum_severity e.severity)) [
    | inl above ↦ (true, rw above refl)
    | inr below ↦ (false, rw (below, shut) refl)
  ]

  step_closed :
      (k : Command) (l : Logger)
      → l.origin.procid ≡ 0
      → keeps_closed k ≡ true
      → (l' : Logger) × (step shorten accepts k l ≡ some (l', [])) × (l'.origin.procid ≡ 0)
  unfolding step add_logger_sinks remove_logger_sinks set_sinks close_logger
  step_closed (opens h sender facility ss ident) l shut keeps = cc
  step_closed (adds ss) l shut keeps = (_, refl, shut)
  step_closed (removes ss) l shut keeps = (_, refl, shut)
  step_closed (sets ss) l shut keeps = (_, refl, rw (delete_sender-origin l) shut)
  step_closed closes l shut keeps = (_, refl, refl)
  step_closed (sets_minimum severity) l shut keeps = (_, refl, shut)
  step_closed (sets_locations locations) l shut keeps = (_, refl, shut)
  step_closed (logs e) l shut keeps =
      let (rc, quiet) = log_closed l e shut in (l, rw quiet refl, shut)

  run_closed :
      (ks : List Command) (l : Logger)
      → l.origin.procid ≡ 0
      → AllKeepClosed ks
      → (l' : Logger) × (run shorten accepts ks l ≡ some (l', []))
  unfolding run
  run_closed [] l shut all = (l, refl)
  run_closed (k ∷ ks) l shut (keeps, all) =
      let (l1, first, shut1) = step_closed k l shut keeps in
      let (l2, rest) = run_closed ks l1 shut1 all in (l2, rw (first, rest) refl)

-- After `Close`, and until the logger is opened again, no operation calls a sink, whatever sinks it
-- is given and whatever is logged, and each returns.
pub run-close_logger :
    (shorten : Text → Text) (accepts : Sink → Message → Bool) (ks : List Command) (l : Logger)
    → AllKeepClosed ks
    → (l' : Logger) × (run shorten accepts (closes ∷ ks) l ≡ some (l', []))
unfolding run step close_logger
run-close_logger shorten accepts ks l all =
    let (l', quiet) = run_closed shorten accepts ks (close_logger l) refl all in (l', rw quiet refl)
