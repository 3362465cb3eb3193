-- ===== src/Logger/Calls.antt =====
-- Which sinks a logged message reaches.
use mclog.Base.{
  ℕ, ◌+◌, ◌≡◌, ◌≤◌, ◌∙◌, refl, ap, Bool, true, false, ◌&&◌, ◌||◌, Text, List, [], ◌∷◌, Option, some,
  ltb, ◌==◌, if◌then◌else◌, map, count, arith,
}
use mclog.Facility.{Facility}
use mclog.Message.{Message}
use mclog.Sinks.{Sink, has_sink, add_sinks}
use mclog.Sinks.Counts.{has_sink-count, add_sinks_lem}
use mclog.Logger.{
  Logger, Host, Entry, open_logger, add_logger_sinks, log, log_message, process_sinks, not_null,
}

-- How many calls of `Process` a sink gets.
abbrev pub calls_of : Sink → List (Sink × Message) → ℕ
calls_of x [] = 0
calls_of x ((s, m) ∷ calls) = (if x == s then 1 else 0) + calls_of x calls

-- What all calls together return.
abbrev pub all_accept : (Sink → Message → Bool) → Message → List Sink → Bool
all_accept accepts m [] = true
all_accept accepts m (s ∷ ss) = accepts s m && all_accept accepts m ss

module _ (accepts : Sink → Message → Bool) (m : Message) where
  pub process_sinks_lem :
      (ss : List Sink)
      → has_sink 0 ss ≡ false
      → process_sinks accepts m ss ≡ some (all_accept accepts m ss, map (λ s. (s, m)) ss)
  unfolding process_sinks has_sink
  process_sinks_lem [] h = refl
  process_sinks_lem (s ∷ ss) h =
      let rest : has_sink 0 ss ≡ false = ground arith in
      let valid : not_null s ≡ true = ground arith in rw (valid, process_sinks_lem ss rest) refl

  calls_of-map : (x : Sink) (ss : List Sink) → calls_of x (map (λ s. (s, m)) ss) ≡ count x ss
  calls_of-map x [] = refl
  calls_of-map x (s ∷ ss) = ap (λ n. (if x == s then 1 else 0) + n) (calls_of-map x ss)

-- A logger opened with sinks, no two the same, and given more: a message that is severe enough is
-- handed once to every sink of either list, to no other, and the result is whether all sinks
-- accepted it. No pointer among the sinks is null.
pub log-add_logger_sinks :
    (shorten : Text → Text) (accepts : Sink → Message → Bool) (h : Host) (sender s : Sink)
    (facility : Facility) (ss ns : List Sink) (ident : Option Text) (l : Logger) (e : Entry)
    → ((x : Sink) → count x (s ∷ ss) ≤ 1)
    → (has_sink 0 (s ∷ ss) || has_sink 0 ns) ≡ false
    → (h.pid == 0) ≡ false
    → ltb l.minimum_severity e.severity ≡ false
    → let l' = (add_logger_sinks ns (open_logger h sender facility (s ∷ ss) ident l)).1 in
      (calls : List (Sink × Message)) × (log shorten accepts l' e
        ≡ some (all_accept accepts (log_message shorten l' e) l'.sinks, calls))
      × ((x : Sink) → calls_of x calls ≡ (if has_sink x (s ∷ ss) || has_sink x ns then 1 else 0))
unfolding log open_logger add_logger_sinks
log-add_logger_sinks shorten accepts h sender s facility ss ns ident l e once valid pid severe =
    let l' = (add_logger_sinks ns (open_logger h sender facility (s ∷ ss) ident l)).1 in
    let m = log_message shorten l' e in
    let added = (add_sinks ns (s ∷ ss)).1 in
    let counted = (add_sinks_lem ns (s ∷ ss)).0 in
    let no_null : has_sink 0 added ≡ false =
      ground (arith, counted 0, has_sink-count 0 added, has_sink-count 0 (s ∷ ss)) in
    (
      map (λ s. (s, m)) added,
      rw (severe, pid, process_sinks_lem accepts m added no_null) refl,
      λ x.
          calls_of-map accepts m x added
          ∙ counted x
          ∙ ground (arith, once x, has_sink-count x (s ∷ ss)),
    )
