-- ===== src/Examples/FileLoggers.antt =====
-- A run of the sink that writes files, with one file for the messages of severity info.
use mclog.Base.{
  ℕ, Bool, ◌==◌, ◌||◌, ltb, ◌≤◌, ◌≡◌, refl, arith, Text, text_eq, true, length, List, [], ◌∷◌, ◌++◌,
  some, codes,
}
use mclog.Severity.{info}
use mclog.Message.{Message, secs}
use mclog.Roll.{make_interval, end_time}
use mclog.LogFile.{process, open_no_lock, roll_criteria_met, need_roll_before_open}
use mclog.Filter
use mclog.Filter.{
  Token, operand, operator, reduce_or, run_parser, evaluate, test_holds, new_driver, parse,
}
use mclog.LogFiles.{
  log_path, log_path_configs, log_path_configs_from, log_path_from_cache, same_key, cache_key,
  make_path, handle_all, handle, put, close_all,
}
use mclog.FileLogger.{
  FileLogger, Event, Operation, taken, handled, wake, process_message, process_messages, file_turn,
  push_message, operate, operate_all, start, new_file_logger, start_file_logger, configure,
  valid_configs,
}
use mclog.FileLogger.Order.{accepted_of, handled_of, operate_all-Keeps}
use mclog.FileLogger.Bounds.{operate_all_bound}
use mclog.FileLogger.Work.{operate_all-process_messages}
use mclog.Examples.{calendar, io, hello}
use mclog.Examples.Selected.{join, fixed, world, nothing, written}

-- severity = info
abbrev scan : Text → List Token
scan t = Filter.severity ∷ Filter.comparison Filter.equal ∷ Filter.sevvalue info ∷ []

abbrev queue_bounded : ℕ → List Message → Bool
queue_bounded n q = n == 0 || ltb (length q) n

abbrev running : FileLogger
running = record {
  in_queue = [];
  max_length = 1000;
  run = true;
  joinable = true;
  processed = 0;
  log_files = record {
    filtered_log_configs = fixed ∷ [];
    log_path_cache = [];
    log_files = nothing;
  };
}

abbrev calls : List Operation
calls = Operation.push hello ∷ wake ∷ Operation.push hello ∷ []

abbrev later : FileLogger
later = record {
  in_queue = hello ∷ [];
  max_length = 1000;
  run = true;
  joinable = true;
  processed = 1;
  log_files = record {
    filtered_log_configs = fixed ∷ [];
    log_path_cache = (cache_key hello fixed.path_pattern, codes "/var/log/all") ∷ [];
    log_files = put (codes "/var/log/all") written nothing;
  };
}

abbrev events : List Event
events = taken hello ∷ handled hello ∷ taken hello ∷ []

ran :
    operate_all text_eq scan join
      (codes "/var/log")
      calendar
      io
      (λ m. 5 ∷ [])
      (λ n. world)
      queue_bounded
      hello
      calls
      running
    ≡ some (events, later)
unfolding operate_all operate push_message file_turn process_messages process_message
    log_path_configs log_path_configs_from log_path log_path_from_cache same_key make_path
    handle_all handle process open_no_lock need_roll_before_open roll_criteria_met make_interval
    secs end_time run_parser operand operator reduce_or evaluate test_holds
ran = refl

operate_all-process_messages_example :
    (running.in_queue ++ accepted_of events ≡ handled_of events ++ later.in_queue)
    × (process_messages text_eq scan join
          (codes "/var/log")
          calendar
          io
          (λ m. 5 ∷ [])
          (λ n. world)
          0
          (handled_of events)
          running.log_files
        ≡ some (1, later.log_files))
operate_all-process_messages_example =
    operate_all-process_messages text_eq scan join (codes "/var/log") calendar io (λ m. 5 ∷ [])
      (λ n. world) queue_bounded hello calls running tt refl ran

-- A new file logger that is started and given a message.
abbrev first_calls : List Operation
first_calls = start (fixed ∷ []) ∷ Operation.push hello ∷ []

abbrev waiting : FileLogger
waiting = record running { in_queue = hello ∷ [] }

started :
    operate_all text_eq scan join
      (codes "/var/log")
      calendar
      io
      (λ m. 5 ∷ [])
      (λ n. world)
      queue_bounded
      hello
      first_calls
      (new_file_logger text_eq scan join
        (codes "/var/log")
        calendar
        io
        (λ m. 5 ∷ [])
        (λ n. world)
        queue_bounded
        hello
        nothing)
    ≡ some (taken hello ∷ [], waiting)
unfolding operate_all operate push_message start_file_logger configure valid_configs new_file_logger
    new_driver parse run_parser operand operator reduce_or evaluate test_holds close_all
started = refl

operate_all_bound_example : length waiting.in_queue ≤ 1000
operate_all_bound_example =
    operate_all_bound text_eq scan join (codes "/var/log") calendar io (λ m. 5 ∷ []) (λ n. world)
      queue_bounded hello nothing first_calls (λ n q h k. ground arith) started

operate_all-Keeps_example :
    running.in_queue ++ accepted_of events ≡ handled_of events ++ later.in_queue
operate_all-Keeps_example =
    operate_all-Keeps text_eq scan join (codes "/var/log") calendar io (λ m. 5 ∷ []) (λ n. world)
      queue_bounded hello calls running ran
