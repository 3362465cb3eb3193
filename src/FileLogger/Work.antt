-- ===== src/FileLogger/Work.antt =====
-- The files of the sink of files get what was handled.
use mclog.Base.{
  ℕ, ◌+◌, ◌≡◌, sym, ap, ◌∙◌, Bool, true, ◌&&◌, Text, List, [], ◌∷◌, ◌++◌, Option, some, map, arith,
  Bool-cases, Option-cases, inl, inr,
}
use mclog.Message.{Bytes, Message, StreamIo}
use mclog.Roll.{Calendar}
use mclog.LogFile.{World}
use mclog.Filter.{Token}
use mclog.FileLogger.{
  LogFiles, FileLogger, Event, Operation, taken, refused, handled, start, restart, stop, push, wake,
  process_message, process_messages, file_turn, push_message, operate, operate_all,
}
use mclog.FileLogger.Order.{
  accepted_of, handled_of, handled_of-handled, handled_of-append, operated, operate_all-Keeps,
}

-- Calls of `Process` and the thread's waking, and nothing else.
abbrev pub IsWork : List Operation → Type 0
IsWork [] = Unit
IsWork (push m ∷ os) = IsWork os
IsWork (wake ∷ os) = IsWork os
IsWork (_ ∷ os) = ⊥

module _ (regex_matches : Text → Text → Bool) (scan : Text → List Token)
    (expand : Text → Text → Text → Text → Text) (log_directory : Text) (cal : Calendar)
    (io : StreamIo) (print : Message → Bytes) (worlds : ℕ → World)
    (accepts : ℕ → List Message → Bool) (blank : Message) where
  abbrev handled_all : ℕ → List Message → LogFiles → Option (ℕ × LogFiles)
  handled_all = process_messages regex_matches scan expand log_directory cal io print worlds

  abbrev all_operated : List Operation → FileLogger → Option (List Event × FileLogger)
  all_operated =
      operate_all regex_matches scan expand log_directory cal io print worlds accepts blank

  process_messages-append :
      (n : ℕ) (ms ns : List Message) (lf : LogFiles) {k : ℕ} {lf1 : LogFiles}
      → handled_all n ms lf ≡ some (k, lf1)
      → handled_all n (ms ++ ns) lf ≡ handled_all k ns lf1
  unfolding process_messages
  process_messages-append n [] ns lf h = ground arith
  process_messages-append n (m ∷ ms) ns lf {k = k} {lf1 = lf1} h =
      elim (Option-cases
        (process_message regex_matches scan expand log_directory cal io print worlds n m lf)) [
          | inl fails ↦ absurd (ground (arith, fails))
          | inr ((rc, lf2), p) ↦ ground (
            arith,
            p,
            process_messages-append (n + 1) ms ns lf2 {k = k} {lf1 = lf1} (ground (arith, p)),
          )
        ]

  IsWork-cons :
      (o : Operation) (os : List Operation) → IsWork (o ∷ os) → IsWork (o ∷ []) × IsWork os
  IsWork-cons (push m) os h = (tt, h)
  IsWork-cons wake os h = (tt, h)
  IsWork-cons (start logs) os h = absurd h
  IsWork-cons (restart logs last) os h = absurd h
  IsWork-cons (stop last) os h = absurd h

  operate_work :
      (o : Operation) (l : FileLogger) {es : List Event} {l1 : FileLogger}
      → IsWork (o ∷ [])
      → l.joinable && l.run ≡ true
      → operated regex_matches scan expand log_directory cal io print worlds accepts blank o l
        ≡ some (es, l1)
      → (handled_all l.processed (handled_of es) l.log_files ≡ some (l1.processed, l1.log_files))
        × (l1.joinable && l1.run ≡ true)
  unfolding operate push_message file_turn process_messages
  operate_work (start logs) l work runs h = absurd work
  operate_work (restart logs last) l work runs h = absurd work
  operate_work (stop last) l work runs h = absurd work
  operate_work (push m) l {es = es} {l1 = l1} work runs h =
      elim (Bool-cases (accepts l.max_length l.in_queue)) [
        | inl takes ↦
            let events : es ≡ taken m ∷ [] = ground (arith, takes) in
            let files : some (l.processed, l.log_files) ≡ some (l1.processed, l1.log_files) =
              ground (arith, takes) in
            (
              ap (λ t. handled_all l.processed (handled_of t) l.log_files) events ∙ files,
              ground (arith, takes),
            )
        | inr full ↦
            let events : es ≡ refused m ∷ [] = ground (arith, full) in
            let files : some (l.processed, l.log_files) ≡ some (l1.processed, l1.log_files) =
              ground (arith, full) in
            (
              ap (λ t. handled_all l.processed (handled_of t) l.log_files) events ∙ files,
              ground (arith, full),
            )
      ]
  operate_work wake l {es = es} {l1 = l1} work runs h =
      elim (Option-cases (handled_all l.processed l.in_queue l.log_files)) [
        | inl fails ↦ absurd (ground (arith, runs, fails))
        | inr ((n, lf), all) ↦
            let events : es ≡ map handled l.in_queue = ground (arith, runs, all) in
            let files : some (n, lf) ≡ some (l1.processed, l1.log_files) =
              ground (arith, runs, all) in
            (
              ap (λ t. handled_all l.processed t l.log_files)
                    (ap handled_of events ∙ handled_of-handled l.in_queue)
                  ∙ all
                  ∙ files,
              ground (arith, runs, all),
            )
      ]

  work_lem :
      (os : List Operation) (l : FileLogger) {es : List Event} {l1 : FileLogger}
      → IsWork os
      → l.joinable && l.run ≡ true
      → all_operated os l ≡ some (es, l1)
      → handled_all l.processed (handled_of es) l.log_files ≡ some (l1.processed, l1.log_files)
  unfolding operate_all process_messages
  work_lem [] l {es = es} {l1 = l1} work runs h =
      let events : es ≡ [] = ground arith in
      let files : some (l.processed, l.log_files) ≡ some (l1.processed, l1.log_files) =
        ground arith in
      ap (λ t. handled_all l.processed (handled_of t) l.log_files) events ∙ files
  work_lem (o ∷ os) l {es = es} {l1 = l1} work runs h =
      let (one, rest) = IsWork-cons o os work in
      elim (Option-cases
        (operated regex_matches scan expand log_directory cal io print worlds accepts blank o l)) [
          | inl fails ↦ absurd (ground (arith, fails))
          | inr ((fs, k), first) ↦ elim (Option-cases (all_operated os k)) [
            | inl fails ↦ absurd (ground (arith, first, fails))
            | inr ((gs, k1), later) ↦
                let (handles, going) = operate_work o l one runs first in
                let events : fs ++ gs ≡ es = ground (arith, first, later) in
                let files : some (k1.processed, k1.log_files) ≡ some (l1.processed, l1.log_files) =
                  ground (arith, first, later) in
                ap (λ t. handled_all l.processed t l.log_files)
                  (ap handled_of (sym events) ∙ handled_of-append fs gs)
                ∙ process_messages-append l.processed (handled_of fs) (handled_of gs) l.log_files
                    handles
                ∙ work_lem os k rest going later
                ∙ files
          ]
        ]

  -- A thread that runs, and any calls of `Process` and any turns of the thread, that return: the
  -- messages that were in the queue and then those accepted, in their order, are those handled and
  -- then the queue; and the files are what handling those, one after the other, makes of them.
  pub operate_all-process_messages :
      (os : List Operation) (l : FileLogger) {es : List Event} {l1 : FileLogger}
      → IsWork os
      → l.joinable && l.run ≡ true
      → operate_all regex_matches scan expand log_directory cal io print worlds accepts blank os l
        ≡ some (es, l1)
      → (l.in_queue ++ accepted_of es ≡ handled_of es ++ l1.in_queue)
        × (process_messages regex_matches scan expand log_directory cal io print worlds l.processed
              (handled_of es)
              l.log_files
            ≡ some (l1.processed, l1.log_files))
  operate_all-process_messages os l work runs h = (
    operate_all-Keeps regex_matches scan expand log_directory cal io print worlds accepts blank os l
        h,
    work_lem os l work runs h,
  )
