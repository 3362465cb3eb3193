-- ===== src/Logger/Ownership.antt =====
-- What holds after any operations of a logger.
use mclog.Base.{
  ◌≡◌, ◌∙◌, inl, inr, refl, ap, sym, Bool, true, false, Text, List, [], ◌∷◌, ◌++◌, Option, none,
  some, ltb, ◌==◌, ==_self, filter, map, arith, Bool-cases, Option-cases,
}
use mclog.Facility.{Facility}
use mclog.Message.{Message}
use mclog.Sinks.{Sink, has_sink, erase_sink, add_sinks, remove_sinks}
use mclog.Sinks.Counts.{has_sink-count, add_sinks_lem, remove_sinks_lem}
use mclog.Logger.{
  Logger, new_logger, Host, Entry, open_logger, add_logger_sinks, remove_logger_sinks, set_sinks,
  close_logger, delete_sender, log, log_message, not_null,
}
use mclog.Logger.Calls.{process_sinks_lem, all_accept}
use mclog.Logger.Commands.{
  Command, opens, adds, removes, sets, closes, sets_minimum, sets_locations, logs, step, run,
}

abbrev pub held : Option Sink → List Sink
held none = []
held (some s) = s ∷ []

-- The loopback senders that exist are the one that the logger holds, and none where it was closed
-- and not opened since; and none of its sinks is null.
pub record IsOwner (closed : Bool) (l : Logger) : Type 0 where
  pub owns : l.senders ≡ held l.loopback_sender
  pub none_left : closed ≡ true → l.senders ≡ []
  pub none_null : has_sink 0 l.sinks ≡ false

-- Whether the logger holds no sender after a command: `SetSinks` and `Close` delete it.
abbrev pub is_closed : Bool → Command → Bool
is_closed closed (opens h sender facility ss ident) = false
is_closed closed (sets ss) = true
is_closed closed closes = true
is_closed closed k = closed

-- The pointers that a command hands over are not null, and a logger is opened only where it holds
-- no sender.
abbrev pub IsAllowed : Bool → Command → Type 0
IsAllowed closed (opens h sender facility ss ident) =
    (closed ≡ true) × (has_sink 0 (sender ∷ ss) ≡ false)
IsAllowed closed (adds ss) = has_sink 0 ss ≡ false
IsAllowed closed k = Unit

abbrev pub AllAllowed : Bool → List Command → Type 0
AllAllowed closed [] = Unit
AllAllowed closed (k ∷ ks) = IsAllowed closed k × AllAllowed (is_closed closed k) ks

has_sink-filter : (ss : List Sink) → has_sink 0 (filter not_null ss) ≡ false
unfolding has_sink
has_sink-filter [] = refl
has_sink-filter (s ∷ ss) = ground (arith, has_sink-filter ss)

erase_sink-held : (s : Sink) → erase_sink s (s ∷ []) ≡ []
unfolding erase_sink
erase_sink-held s = rw (==_self s) refl

open_logger-IsOwner :
    (h : Host) (sender : Sink) (facility : Facility) (ss : List Sink) (ident : Option Text)
    (l : Logger)
    → IsOwner true l
    → has_sink 0 (sender ∷ ss) ≡ false
    → IsOwner false (open_logger h sender facility ss ident l)
unfolding open_logger has_sink
open_logger-IsOwner h sender facility [] ident l o valid = record {
  owns = ap (λ t. sender ∷ t) (o.none_left refl);
  none_left = λ e. ground arith;
  none_null = valid;
}
open_logger-IsOwner h sender facility (s ∷ ss) ident l o valid = record {
  owns = o.owns;
  none_left = λ e. ground arith;
  none_null = ground arith;
}

add_logger_sinks-IsOwner :
    (ns : List Sink) (closed : Bool) (l : Logger)
    → IsOwner closed l
    → has_sink 0 ns ≡ false
    → IsOwner closed (add_logger_sinks ns l).1
unfolding add_logger_sinks
add_logger_sinks-IsOwner ns closed l o valid =
    let (counted, grew) = add_sinks_lem ns l.sinks in
    let ss = (add_sinks ns l.sinks).1 in
    record {
      owns = o.owns;
      none_left = o.none_left;
      none_null =
          ground (arith, counted 0, has_sink-count 0 ss, has_sink-count 0 l.sinks, o.none_null);
    }

remove_logger_sinks-IsOwner :
    (rs : List Sink) (closed : Bool) (l : Logger)
    → IsOwner closed l
    → IsOwner closed (remove_logger_sinks rs l).1
unfolding remove_logger_sinks
remove_logger_sinks-IsOwner rs closed l o =
    let (counted, shrank) = remove_sinks_lem rs l.sinks in
    let ss = (remove_sinks rs l.sinks).1 in
    record {
      owns = o.owns;
      none_left = o.none_left;
      none_null =
          ground (arith, counted 0, has_sink-count 0 ss, has_sink-count 0 l.sinks, o.none_null);
    }

delete_sender_lem :
    (l : Logger)
    → l.senders ≡ held l.loopback_sender
    → ((delete_sender l).senders ≡ []) × ((delete_sender l).loopback_sender ≡ none)
unfolding delete_sender
delete_sender_lem l owns = elim (Option-cases l.loopback_sender) [
  | inl no_sender ↦ rw no_sender (owns ∙ ap held no_sender, refl)
  | inr (s, one) ↦ rw one (ap (erase_sink s) (owns ∙ ap held one) ∙ erase_sink-held s, refl)
]

set_sinks-IsOwner :
    (ss : List Sink) (closed : Bool) (l : Logger) → IsOwner closed l → IsOwner true (set_sinks ss l)
unfolding set_sinks
set_sinks-IsOwner ss closed l o =
    let (deleted, cleared) = delete_sender_lem l o.owns in
    record {
      owns = deleted ∙ ap held (sym cleared);
      none_left = λ e. deleted;
      none_null = has_sink-filter ss;
    }

close_logger-IsOwner :
    (closed : Bool) (l : Logger) → IsOwner closed l → IsOwner true (close_logger l)
unfolding close_logger has_sink
close_logger-IsOwner closed l o =
    let (deleted, cleared) = delete_sender_lem l o.owns in
    record { owns = deleted ∙ ap held (sym cleared); none_left = λ e. deleted; none_null = refl }

module _ (shorten : Text → Text) (accepts : Sink → Message → Bool) where
  -- No sink is null, so a call of `Log` returns.
  log_returns :
      (l : Logger) (e : Entry)
      → has_sink 0 l.sinks ≡ false
      → (rc : Bool) × (calls : List (Sink × Message)) × (log shorten accepts l e ≡ some (rc, calls))
  unfolding log
  log_returns l e valid =
      let m = log_message shorten l e in
      let all = process_sinks_lem accepts m l.sinks valid in
      elim (Bool-cases (ltb l.minimum_severity e.severity)) [
        | inl above ↦ (true, [], rw above refl)
        | inr below ↦ elim (Bool-cases (l.origin.procid == 0)) [
          | inl shut ↦ (false, [], rw (below, shut) refl)
          | inr opened ↦
              (all_accept accepts m l.sinks, map (λ s. (s, m)) l.sinks, rw (below, opened) all)
        ]
      ]

  step_lem :
      (k : Command) (closed : Bool) (l : Logger)
      → IsOwner closed l
      → IsAllowed closed k
      → (l' : Logger) × (calls : List (Sink × Message)) × (step shorten accepts k l
          ≡ some (l', calls))
        × IsOwner (is_closed closed k) l'
  unfolding step
  step_lem (opens h sender facility ss ident) closed l o (shut, valid) =
      (_, _, refl, open_logger-IsOwner h sender facility ss ident l (rw (sym shut) o) valid)
  step_lem (adds ss) closed l o valid = (_, _, refl, add_logger_sinks-IsOwner ss closed l o valid)
  step_lem (removes ss) closed l o valid = (_, _, refl, remove_logger_sinks-IsOwner ss closed l o)
  step_lem (sets ss) closed l o valid = (_, _, refl, set_sinks-IsOwner ss closed l o)
  step_lem closes closed l o valid = (_, _, refl, close_logger-IsOwner closed l o)
  step_lem (sets_minimum severity) closed l o valid =
      (_, _, refl, record { owns = o.owns; none_left = o.none_left; none_null = o.none_null })
  step_lem (sets_locations locations) closed l o valid =
      (_, _, refl, record { owns = o.owns; none_left = o.none_left; none_null = o.none_null })
  step_lem (logs e) closed l o valid =
      let (rc, calls, returned) = log_returns l e o.none_null in (l, calls, rw returned refl, o)

  run_lem :
      (ks : List Command) (closed : Bool) (l : Logger)
      → IsOwner closed l
      → AllAllowed closed ks
      → (l' : Logger) × (calls : List (Sink × Message)) × (run shorten accepts ks l
          ≡ some (l', calls))
        × (last : Bool) × IsOwner last l'
  unfolding run
  run_lem [] closed l o allowed = (l, [], refl, closed, o)
  run_lem (k ∷ ks) closed l o (one, allowed) =
      let (l1, calls, first, o1) = step_lem k closed l o one in
      let (l2, others, rest, last, o2) = run_lem ks (is_closed closed k) l1 o1 allowed in
      (l2, calls ++ others, rw (first, rest) refl, last, o2)

-- Any operations on a new logger that hand over no null pointer, and that open it only where it was
-- closed, or its sinks set, since it was opened: all return; afterwards the loopback senders that
-- exist are the one that the logger holds, if it holds one, none of its sinks is null, and closing
-- it leaves no loopback sender.
pub run-IsOwner :
    (shorten : Text → Text) (accepts : Sink → Message → Bool) (ks : List Command)
    → AllAllowed true ks
    → (l : Logger) × (calls : List (Sink × Message)) × (run shorten accepts ks new_logger
        ≡ some (l, calls))
      × (l.senders ≡ held l.loopback_sender)
      × (has_sink 0 l.sinks ≡ false)
      × ((close_logger l).senders ≡ [])
unfolding new_logger has_sink close_logger
run-IsOwner shorten accepts ks allowed =
    let o : IsOwner true new_logger = record {
      owns = refl;
      none_left = λ e. refl;
      none_null = refl;
    } in
    let (l, calls, ran, last, o') = run_lem shorten accepts ks true new_logger o allowed in
    (l, calls, ran, o'.owns, o'.none_null, (delete_sender_lem l o'.owns).0)
