-- ===== src/FileLogger.antt =====
-- DwmMclogFileLogger.{hh,cc}, with `Configure` and `Process` of DwmMclogLogFiles.cc: the queue of
-- the sink that writes files, its thread, and the files that it configures. `none` is a failed
-- assertion in a file, or std::terminate, which a joinable thread that is assigned to calls. The
-- rule of libDwm's queue is a parameter: `accepts n q` is whether the `PushBack` of a queue whose
-- `MaxLength` is `n` takes one more.
pub mod Order
pub mod Bounds
pub mod Work
use mclog.Base.{
  ℕ, ◌+◌, Bool, true, false, ◌&&◌, Text, List, [], ◌∷◌, ◌++◌, Option, none, some, if◌then◌else◌,
  ◌>>=◌, map,
}
use mclog.Message.{Bytes, Message, StreamIo}
use mclog.Roll.{Calendar}
use mclog.LogFile.{World}
use mclog.Filter.{Token, run_parser, evaluate, new_driver}
use mclog.LogFiles.{LogFileConfig, LogPathCache, Store, log_path_configs, handle_all, close_all}

-- `_filteredLogConfigs` by their configurations, `_logPathCache`, and the files at each path.
pub record LogFiles : Type 0 where
  pub filtered_log_configs : List LogFileConfig
  pub log_path_cache : LogPathCache
  pub log_files : Store

-- `_inQueue` with its `MaxLength`; `processed` counts the messages that the thread has taken.
pub record FileLogger : Type 0 where
  pub in_queue : List Message
  pub max_length : ℕ
  pub run : Bool
  pub joinable : Bool
  pub processed : ℕ
  pub log_files : LogFiles

-- What `Process` returned, and what the thread handed to the files.
pub data Event : Type 0 where
  taken refused handled : Message → Event

-- The calls of a file logger, and its thread's waking.
pub data Operation : Type 0 where
  start : List LogFileConfig → Operation
  restart : List LogFileConfig → Bool → Operation
  stop : Bool → Operation
  push : Message → Operation
  wake : Operation

module _ (regex_matches : Text → Text → Bool) (scan : Text → List Token) where
  -- A filter's verdict, by the driver that was made for it.
  abbrev pub filter_verdict : Text → Message → Option Bool
  filter_verdict filter m = run_parser (evaluate regex_matches m) (scan filter)

  -- The loop of `Configure`: a filter that is none is reported and left out. `blank` is the message
  -- that the driver's constructor tries.
  unfoldable pub valid_configs : Message → List LogFileConfig → List LogFileConfig
  valid_configs blank [] = []
  valid_configs blank (cfg ∷ cfgs) =
      let others = valid_configs blank cfgs in
      elim (new_driver regex_matches scan blank cfg.filter) [
        | none ↦ others
        | some d ↦ cfg ∷ others
      ]

  -- `Configure`
  unfoldable pub configure : Message → List LogFileConfig → LogFiles → LogFiles
  configure blank logs lf = record {
    filtered_log_configs = valid_configs blank logs;
    log_path_cache = [];
    log_files = close_all lf.log_files;
  }

  module _ (expand : Text → Text → Text → Text → Text) (log_directory : Text) (cal : Calendar)
      (io : StreamIo) (print : Message → Bytes) (worlds : ℕ → World) where
    -- `LogFiles::Process` of the n-th message, in what the clock and the disk then are.
    unfoldable pub process_message : ℕ → Message → LogFiles → Option (Bool × LogFiles)
    process_message n m lf =
        let (paths, cache) =
          log_path_configs expand log_directory filter_verdict m lf.filtered_log_configs
            lf.log_path_cache in
        (do
          (rc, store) ← handle_all cal io print (worlds n) m paths lf.log_files
          some (rc, record lf { log_path_cache = cache; log_files = store }))

    -- The loop of `Run` over the messages that it swapped for an empty deque.
    unfoldable pub process_messages : ℕ → List Message → LogFiles → Option (ℕ × LogFiles)
    process_messages n [] lf = some (n, lf)
    process_messages n (m ∷ ms) lf = do
      (rc, lf1) ← process_message n m lf
      process_messages (n + 1) ms lf1

    module _ (accepts : ℕ → List Message → Bool) (blank : Message) where
      -- The constructor.
      unfoldable pub new_file_logger : Store → FileLogger
      new_file_logger disk = record {
        in_queue = [];
        max_length = 1000;
        run = false;
        joinable = false;
        processed = 0;
        log_files = record {
          filtered_log_configs = [];
          log_path_cache = [];
          log_files = close_all disk;
        };
      }

      -- `Start`
      unfoldable pub start_file_logger : List LogFileConfig → FileLogger → Option FileLogger
      start_file_logger [] l = some l
      start_file_logger (cfg ∷ cfgs) l =
          if l.joinable
          then none
          else some (record l {
            run = true;
            joinable = true;
            log_files = configure blank (cfg ∷ cfgs) l.log_files;
          })

      -- One more turn of the loop of `Run` after what has woken it.
      unfoldable pub file_turn : FileLogger → Option (List Event × FileLogger)
      file_turn l = do
        (n, lf) ← process_messages l.processed l.in_queue l.log_files
        some (map handled l.in_queue, record l { in_queue = []; processed = n; log_files = lf })

      abbrev pub closed_file_logger : FileLogger → FileLogger
      closed_file_logger l = record l {
        run = false;
        joinable = false;
        log_files = record l.log_files { log_files = close_all l.log_files.log_files };
      }

      -- `Stop`; `last` is whether the signal finds the thread waiting, which then has a last turn.
      unfoldable pub stop_file_logger : Bool → FileLogger → Option (List Event × FileLogger)
      stop_file_logger last l =
          if l.joinable && last
          then (do (events, l1) ← file_turn l; some (events, closed_file_logger l1))
          else some ([], closed_file_logger l)

      -- `Process`
      unfoldable pub push_message : Message → FileLogger → List Event × FileLogger
      push_message m l =
          if accepts l.max_length l.in_queue
          then (taken m ∷ [], record l { in_queue = l.in_queue ++ m ∷ [] })
          else (refused m ∷ [], l)

      unfoldable pub operate : Operation → FileLogger → Option (List Event × FileLogger)
      operate (start logs) l = do l1 ← start_file_logger logs l; some ([], l1)
      operate (restart logs last) l = do
        (events, l1) ← stop_file_logger last l
        l2 ← start_file_logger logs l1
        some (events, l2)
      operate (stop last) l = stop_file_logger last l
      operate (push m) l = some (push_message m l)
      operate wake l = if l.joinable && l.run then file_turn l else some ([], l)

      unfoldable pub operate_all : List Operation → FileLogger → Option (List Event × FileLogger)
      operate_all [] l = some ([], l)
      operate_all (o ∷ os) l = do
        (events, l1) ← operate o l
        (later, l2) ← operate_all os l1
        some (events ++ later, l2)
