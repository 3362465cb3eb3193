-- ===== src/FileLogger/Order.antt =====
-- Messages of the sink of files are handled in their order.
use mclog.Base.{
  ℕ, ◌≡◌, refl, sym, ap, ◌∙◌, Bool, ◌&&◌, Text, List, [], ◌∷◌, ◌++◌, Option, some, ◌≡⟨◌⟩◌, ◌∎, map,
  append-nil, append_assoc, arith, Bool-cases, Option-cases, inl, inr,
}
use mclog.Message.{Bytes, Message, StreamIo}
use mclog.Roll.{Calendar}
use mclog.LogFile.{World}
use mclog.Filter.{Token}
use mclog.LogFiles.{LogFileConfig}
use mclog.FileLogger.{
  FileLogger, Event, Operation, taken, refused, handled, start, restart, stop, push, wake,
  process_messages, start_file_logger, file_turn, stop_file_logger, push_message, operate,
  operate_all,
}

abbrev pub accepted_of : List Event → List Message
accepted_of [] = []
accepted_of (taken m ∷ es) = m ∷ accepted_of es
accepted_of (refused m ∷ es) = accepted_of es
accepted_of (handled m ∷ es) = accepted_of es

abbrev pub handled_of : List Event → List Message
handled_of [] = []
handled_of (handled m ∷ es) = m ∷ handled_of es
handled_of (refused m ∷ es) = handled_of es
handled_of (taken m ∷ es) = handled_of es

accepted_of-append :
    (es fs : List Event) → accepted_of (es ++ fs) ≡ accepted_of es ++ accepted_of fs
accepted_of-append [] fs = refl
accepted_of-append (taken m ∷ es) fs = ap (λ ms. m ∷ ms) (accepted_of-append es fs)
accepted_of-append (refused m ∷ es) fs = accepted_of-append es fs
accepted_of-append (handled m ∷ es) fs = accepted_of-append es fs

pub handled_of-append :
    (es fs : List Event) → handled_of (es ++ fs) ≡ handled_of es ++ handled_of fs
handled_of-append [] fs = refl
handled_of-append (handled m ∷ es) fs = ap (λ ms. m ∷ ms) (handled_of-append es fs)
handled_of-append (refused m ∷ es) fs = handled_of-append es fs
handled_of-append (taken m ∷ es) fs = handled_of-append es fs

accepted_of-handled : (ms : List Message) → accepted_of (map handled ms) ≡ []
accepted_of-handled [] = refl
accepted_of-handled (m ∷ ms) = accepted_of-handled ms

pub handled_of-handled : (ms : List Message) → handled_of (map handled ms) ≡ ms
handled_of-handled [] = refl
handled_of-handled (m ∷ ms) = ap (λ ns. m ∷ ns) (handled_of-handled ms)

-- What was in the queue and what it took since, in their order, were handled or are in it still.
abbrev pub Keeps : FileLogger → List Event → FileLogger → Type 0
Keeps l es l1 = l.in_queue ++ accepted_of es ≡ handled_of es ++ l1.in_queue

Keeps-append :
    (l l1 l2 : FileLogger) (es fs : List Event)
    → Keeps l es l1
    → Keeps l1 fs l2
    → Keeps l (es ++ fs) l2
Keeps-append l l1 l2 es fs k k1 =
    l.in_queue ++ accepted_of (es ++ fs)
    ≡⟨ ap (λ t. l.in_queue ++ t) (accepted_of-append es fs) ⟩
      l.in_queue ++ (accepted_of es ++ accepted_of fs)
    ≡⟨ sym (append_assoc l.in_queue (accepted_of es) (accepted_of fs)) ⟩
      (l.in_queue ++ accepted_of es) ++ accepted_of fs
    ≡⟨ ap (λ t. t ++ accepted_of fs) k ⟩ (handled_of es ++ l1.in_queue) ++ accepted_of fs
    ≡⟨ append_assoc (handled_of es) l1.in_queue (accepted_of fs) ⟩
      handled_of es ++ (l1.in_queue ++ accepted_of fs)
    ≡⟨ ap (λ t. handled_of es ++ t) k1 ⟩ handled_of es ++ (handled_of fs ++ l2.in_queue)
    ≡⟨ sym (append_assoc (handled_of es) (handled_of fs) l2.in_queue) ⟩
      (handled_of es ++ handled_of fs) ++ l2.in_queue
    ≡⟨ ap (λ t. t ++ l2.in_queue) (sym (handled_of-append es fs)) ⟩
      handled_of (es ++ fs) ++ l2.in_queue ∎

module _ (regex_matches : Text → Text → Bool) (scan : Text → List Token)
    (expand : Text → Text → Text → Text → Text) (log_directory : Text) (cal : Calendar)
    (io : StreamIo) (print : Message → Bytes) (worlds : ℕ → World)
    (accepts : ℕ → List Message → Bool) (blank : Message) where
  abbrev pub operated : Operation → FileLogger → Option (List Event × FileLogger)
  operated = operate regex_matches scan expand log_directory cal io print worlds accepts blank

  abbrev pub turned : FileLogger → Option (List Event × FileLogger)
  turned = file_turn regex_matches scan expand log_directory cal io print worlds accepts blank

  abbrev pub stopped : Bool → FileLogger → Option (List Event × FileLogger)
  stopped =
      stop_file_logger regex_matches scan expand log_directory cal io print worlds accepts blank

  abbrev pub started : List LogFileConfig → FileLogger → Option FileLogger
  started =
      start_file_logger regex_matches scan expand log_directory cal io print worlds accepts blank

  idle-Keeps :
      (l l1 : FileLogger) (es : List Event) → es ≡ [] → l1.in_queue ≡ l.in_queue → Keeps l es l1
  idle-Keeps l l1 es none_happened same =
      ap (λ t. l.in_queue ++ accepted_of t) none_happened
      ∙ append-nil l.in_queue
      ∙ sym same
      ∙ ap (λ t. handled_of t ++ l1.in_queue) (sym none_happened)

  turn-Keeps :
      (l l1 : FileLogger) (es : List Event)
      → es ≡ map handled l.in_queue
      → l1.in_queue ≡ []
      → Keeps l es l1
  turn-Keeps l l1 es all empty =
      ap (λ t. l.in_queue ++ accepted_of t) all
      ∙ ap (λ t. l.in_queue ++ t) (accepted_of-handled l.in_queue)
      ∙ append-nil l.in_queue
      ∙ sym (handled_of-handled l.in_queue)
      ∙ ap handled_of (sym all)
      ∙ sym (append-nil (handled_of es))
      ∙ ap (λ t. handled_of es ++ t) (sym empty)

  pub file_turn_lem :
      (l : FileLogger) {es : List Event} {l1 : FileLogger}
      → turned l ≡ some (es, l1)
      → (es ≡ map handled l.in_queue) × (l1.in_queue ≡ [])
  unfolding file_turn
  file_turn_lem l h =
      elim (Option-cases (
        process_messages regex_matches scan expand log_directory cal io print worlds l.processed
          l.in_queue l.log_files)) [
            | inl fails ↦ absurd (ground (arith, fails))
            | inr ((n, lf), p) ↦ (ground (arith, p), ground (arith, p))
          ]

  stop_file_logger-Keeps :
      (last : Bool) (l : FileLogger) {es : List Event} {l1 : FileLogger}
      → stopped last l ≡ some (es, l1)
      → Keeps l es l1
  unfolding stop_file_logger
  stop_file_logger-Keeps last l {es = es} {l1 = l1} h = elim (Bool-cases (l.joinable && last)) [
    | inl turns ↦ elim (Option-cases (turned l)) [
      | inl fails ↦ absurd (ground (arith, turns, fails))
      | inr ((fs, k), turn) ↦
          let e = file_turn_lem l turn in
          turn-Keeps l l1 es (ground (arith, turns, turn, e.0)) (ground (arith, turns, turn, e.1))
    ]
    | inr goes ↦ idle-Keeps l l1 es (ground (arith, goes)) (ground (arith, goes))
  ]

  pub start_file_logger_lem :
      (logs : List LogFileConfig) (l : FileLogger) {l1 : FileLogger}
      → started logs l ≡ some l1
      → l1.in_queue ≡ l.in_queue
  unfolding start_file_logger
  start_file_logger_lem [] l h = ground arith
  start_file_logger_lem (cfg ∷ cfgs) l h = ground arith

  pub operate-Keeps :
      (o : Operation) (l : FileLogger) {es : List Event} {l1 : FileLogger}
      → operated o l ≡ some (es, l1)
      → Keeps l es l1
  unfolding operate push_message
  operate-Keeps (start logs) l {es = es} {l1 = l1} h = elim (Option-cases (started logs l)) [
    | inl fails ↦ absurd (ground (arith, fails))
    | inr (k, starts) ↦
        let same = start_file_logger_lem logs l starts in
        idle-Keeps l l1 es (ground (arith, starts)) (ground (arith, starts, same))
  ]
  operate-Keeps (restart logs last) l {es = es} {l1 = l1} h = elim (Option-cases (stopped last l)) [
    | inl fails ↦ absurd (ground (arith, fails))
    | inr ((fs, k), stops) ↦ elim (Option-cases (started logs k)) [
      | inl fails ↦ absurd (ground (arith, stops, fails))
      | inr (k1, starts) ↦
          let same = start_file_logger_lem logs k starts in
          let events : fs ≡ es = ground (arith, stops, starts) in
          let queue : k.in_queue ≡ l1.in_queue = ground (arith, stops, starts, same) in
          ap (λ t. l.in_queue ++ accepted_of t) (sym events)
          ∙ stop_file_logger-Keeps last l stops
          ∙ ap (λ t. handled_of t ++ k.in_queue) events
          ∙ ap (λ t. handled_of es ++ t) queue
    ]
  ]
  operate-Keeps (stop last) l h = stop_file_logger-Keeps last l h
  operate-Keeps (push m) l {es = es} {l1 = l1} h =
      elim (Bool-cases (accepts l.max_length l.in_queue)) [
        | inl takes ↦
            let events : es ≡ taken m ∷ [] = ground (arith, takes) in
            let queue : l1.in_queue ≡ l.in_queue ++ m ∷ [] = ground (arith, takes) in
            ap (λ t. l.in_queue ++ accepted_of t) events
            ∙ sym queue
            ∙ ap (λ t. handled_of t ++ l1.in_queue) (sym events)
        | inr full ↦
            let events : es ≡ refused m ∷ [] = ground (arith, full) in
            let queue : l1.in_queue ≡ l.in_queue = ground (arith, full) in
            ap (λ t. l.in_queue ++ accepted_of t) events
            ∙ append-nil l.in_queue
            ∙ sym queue
            ∙ ap (λ t. handled_of t ++ l1.in_queue) (sym events)
      ]
  operate-Keeps wake l {es = es} {l1 = l1} h = elim (Bool-cases (l.joinable && l.run)) [
    | inl runs ↦
        let turns : turned l ≡ some (es, l1) = ground (arith, runs) in
        let e = file_turn_lem l turns in turn-Keeps l l1 es e.0 e.1
    | inr idles ↦ idle-Keeps l l1 es (ground (arith, idles)) (ground (arith, idles))
  ]

  -- Whatever operations return: the messages that were in the queue and then those that `Process`
  -- accepted, in their order, are those handed to the files, in their order, and then the queue.
  pub operate_all-Keeps :
      (os : List Operation) (l : FileLogger) {es : List Event} {l1 : FileLogger}
      → operate_all regex_matches scan expand log_directory cal io print worlds accepts blank os l
        ≡ some (es, l1)
      → l.in_queue ++ accepted_of es ≡ handled_of es ++ l1.in_queue
  unfolding operate_all
  operate_all-Keeps [] l {es = es} {l1 = l1} h = idle-Keeps l l1 es (ground arith) (ground arith)
  operate_all-Keeps (o ∷ os) l {es = es} {l1 = l1} h = elim (Option-cases (operated o l)) [
    | inl fails ↦ absurd (ground (arith, fails))
    | inr ((fs, k), first) ↦
        elim (Option-cases (
          operate_all regex_matches scan expand log_directory cal io print worlds accepts blank os
            k)) [
              | inl fails ↦ absurd (ground (arith, first, fails))
              | inr ((gs, k1), later) ↦
                  let events : fs ++ gs ≡ es = ground (arith, first, later) in
                  let queue : k1.in_queue ≡ l1.in_queue = ground (arith, first, later) in
                  let whole =
                    Keeps-append l k k1 fs gs (operate-Keeps o l first)
                      (operate_all-Keeps os k later) in
                  ap (λ t. l.in_queue ++ accepted_of t) (sym events)
                  ∙ whole
                  ∙ ap (λ t. handled_of t ++ k1.in_queue) events
                  ∙ ap (λ t. handled_of es ++ t) queue
            ]
  ]
