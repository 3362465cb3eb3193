-- ===== src/FileLogger/Bounds.antt =====
-- The queue of the sink of files stays within its bound.
use mclog.Base.{
  ℕ, ◌≤◌, ◌<◌, ◌≡◌, ◌∙◌, refl, ap, subst, Bool, true, ◌&&◌, Text, List, [], ◌∷◌, ◌++◌, Option, some,
  length, length-append, arith, Bool-cases, Option-cases, inl, inr,
}
use mclog.Message.{Bytes, Message, StreamIo}
use mclog.Roll.{Calendar}
use mclog.LogFile.{World}
use mclog.Filter.{Token}
use mclog.LogFiles.{LogFileConfig, Store}
use mclog.FileLogger.{
  FileLogger, Event, Operation, start, restart, stop, push, wake, start_file_logger,
  stop_file_logger, push_message, operate, operate_all, file_turn, new_file_logger,
}
use mclog.FileLogger.Order.{operated, turned, file_turn_lem, start_file_logger_lem}

module _ (regex_matches : Text → Text → Bool) (scan : Text → List Token)
    (expand : Text → Text → Text → Text → Text) (log_directory : Text) (cal : Calendar)
    (io : StreamIo) (print : Message → Bytes) (worlds : ℕ → World)
    (accepts : ℕ → List Message → Bool) (blank : Message) where
  abbrev all_operated : List Operation → FileLogger → Option (List Event × FileLogger)
  all_operated =
      operate_all regex_matches scan expand log_directory cal io print worlds accepts blank

  module _ (bound : ℕ) (some_bound : 0 < bound)
      (bounded : (n : ℕ) (q : List Message) → 0 < n → accepts n q ≡ true → length q < n) where
    stop_file_logger_bound :
        (last : Bool) (l : FileLogger) {es : List Event} {l1 : FileLogger}
        → length l.in_queue ≤ bound
        → stop_file_logger regex_matches scan expand log_directory cal io print worlds accepts blank
            last l
          ≡ some (es, l1)
        → length l1.in_queue ≤ bound
    unfolding stop_file_logger
    stop_file_logger_bound last l {es = es} {l1 = l1} b h = elim (Bool-cases (l.joinable && last)) [
      | inl turns ↦
          elim (Option-cases
            (turned regex_matches scan expand log_directory cal io print worlds accepts blank l)) [
              | inl fails ↦ absurd (ground (arith, turns, fails))
              | inr ((fs, k), turn) ↦
                  let e =
                    file_turn_lem regex_matches scan expand log_directory cal io print worlds
                      accepts blank l turn in
                  let empty : l1.in_queue ≡ [] = ground (arith, turns, turn, e.1) in
                  omega (arith, ap length empty)
            ]
      | inr goes ↦
          let same : l1.in_queue ≡ l.in_queue = ground (arith, goes) in
          omega (arith, ap length same)
    ]

    start_file_logger_bound :
        (logs : List LogFileConfig) (l : FileLogger) {l1 : FileLogger}
        → length l.in_queue ≤ bound
        → start_file_logger regex_matches scan expand log_directory cal io print worlds accepts
            blank logs l
          ≡ some l1
        → length l1.in_queue ≤ bound
    start_file_logger_bound logs l b h = omega (
      arith,
      ap length (
          start_file_logger_lem regex_matches scan expand log_directory cal io print worlds accepts
            blank logs l h),
    )

    operate_bound :
        (o : Operation) (l : FileLogger) {es : List Event} {l1 : FileLogger}
        → length l.in_queue ≤ bound
        → l.max_length ≡ bound
        → operated regex_matches scan expand log_directory cal io print worlds accepts blank o l
          ≡ some (es, l1)
        → length l1.in_queue ≤ bound
    unfolding operate push_message
    operate_bound (start logs) l {es = es} {l1 = l1} b most h =
        elim (Option-cases (
          start_file_logger regex_matches scan expand log_directory cal io print worlds accepts
            blank logs l)) [
              | inl fails ↦ absurd (ground (arith, fails))
              | inr (k, starts) ↦
                  let same : k ≡ l1 = ground (arith, starts) in
                  subst (λ t. length (FileLogger.in_queue t) ≤ bound) same
                    (start_file_logger_bound logs l b starts)
            ]
    operate_bound (restart logs last) l {es = es} {l1 = l1} b most h =
        elim (Option-cases (
          stop_file_logger regex_matches scan expand log_directory cal io print worlds accepts blank
            last l)) [
              | inl fails ↦ absurd (ground (arith, fails))
              | inr ((fs, k), stops) ↦
                  elim (Option-cases (
                    start_file_logger regex_matches scan expand log_directory cal io print worlds
                      accepts blank logs k)) [
                        | inl fails ↦ absurd (ground (arith, stops, fails))
                        | inr (k1, starts) ↦
                            let same : k1 ≡ l1 = ground (arith, stops, starts) in
                            subst (λ t. length (FileLogger.in_queue t) ≤ bound) same
                              (start_file_logger_bound logs k
                                (stop_file_logger_bound last l b stops) starts)
                      ]
            ]
    operate_bound (stop last) l b most h = stop_file_logger_bound last l b h
    operate_bound (push m) l {es = es} {l1 = l1} b most h =
        elim (Bool-cases (accepts l.max_length l.in_queue)) [
          | inl takes ↦
              let queue : l1.in_queue ≡ l.in_queue ++ m ∷ [] = ground (arith, takes) in
              omega (
                arith,
                ap length queue,
                length-append l.in_queue (m ∷ []),
                most,
                bounded l.max_length l.in_queue (omega arith) takes,
              )
          | inr full ↦
              let queue : l1.in_queue ≡ l.in_queue = ground (arith, full) in
              omega (arith, ap length queue)
        ]
    operate_bound wake l {es = es} {l1 = l1} b most h = elim (Bool-cases (l.joinable && l.run)) [
      | inl runs ↦
          let turns : turned regex_matches scan expand log_directory cal io print worlds accepts
                blank l
              ≡ some (es, l1) =
            ground (arith, runs) in
          let e =
            file_turn_lem regex_matches scan expand log_directory cal io print worlds accepts blank
              l turns in
          omega (arith, ap length e.1)
      | inr idles ↦
          let queue : l1.in_queue ≡ l.in_queue = ground (arith, idles) in
          omega (arith, ap length queue)
    ]

    operate_max :
        (o : Operation) (l : FileLogger) {es : List Event} {l1 : FileLogger}
        → operated regex_matches scan expand log_directory cal io print worlds accepts blank o l
          ≡ some (es, l1)
        → l1.max_length ≡ l.max_length
    unfolding operate push_message start_file_logger stop_file_logger file_turn
    operate_max (start []) l h = ground arith
    operate_max (start (cfg ∷ cfgs)) l h = ground arith
    operate_max (restart [] last) l h = ground arith
    operate_max (restart (cfg ∷ cfgs) last) l h = ground arith
    operate_max (stop last) l h = ground arith
    operate_max (push m) l h = ground arith
    operate_max wake l h = ground arith

    operate_all_within :
        (os : List Operation) (l : FileLogger) {es : List Event} {l1 : FileLogger}
        → length l.in_queue ≤ bound
        → l.max_length ≡ bound
        → operate_all regex_matches scan expand log_directory cal io print worlds accepts blank os l
          ≡ some (es, l1)
        → length l1.in_queue ≤ bound
    unfolding operate_all
    operate_all_within [] l {es = es} {l1 = l1} b most h =
        let same : l ≡ l1 = ground arith in
        subst (λ t. length (FileLogger.in_queue t) ≤ bound) same b
    operate_all_within (o ∷ os) l {es = es} {l1 = l1} b most h =
        elim (Option-cases (
          operated regex_matches scan expand log_directory cal io print worlds accepts blank o l)) [
            | inl fails ↦ absurd (ground (arith, fails))
            | inr ((fs, k), first) ↦ elim (Option-cases (all_operated os k)) [
              | inl fails ↦ absurd (ground (arith, first, fails))
              | inr ((gs, k1), later) ↦
                  let same : k1 ≡ l1 = ground (arith, first, later) in
                  subst (λ t. length (FileLogger.in_queue t) ≤ bound) same
                    (operate_all_within os k (operate_bound o l b most first)
                      (operate_max o l first ∙ most) later)
            ]
          ]

  -- Where a `PushBack` takes a message only while its queue is shorter than a `MaxLength` that is
  -- not 0, no operations of a file logger that was made, in any order and with or without a thread,
  -- make its queue longer than 1000 messages.
  pub operate_all_bound :
      (disk : Store) (os : List Operation) {es : List Event} {l1 : FileLogger}
      → ((n : ℕ) (q : List Message) → 0 < n → accepts n q ≡ true → length q < n)
      → operate_all regex_matches scan expand log_directory cal io print worlds accepts blank os (
          new_file_logger regex_matches scan expand log_directory cal io print worlds accepts blank
            disk)
        ≡ some (es, l1)
      → length l1.in_queue ≤ 1000
  unfolding new_file_logger
  operate_all_bound disk os bounded h =
      operate_all_within 1000 (omega arith) bounded os
        (new_file_logger regex_matches scan expand log_directory cal io print worlds accepts blank
          disk)
        (omega arith) refl h
