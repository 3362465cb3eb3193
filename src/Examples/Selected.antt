-- ===== src/Examples/Selected.antt =====
-- Runs of the choice of files.
use mclog.Base.{
  Bool, ◌≡◌, refl, arith, true, false, Text, codes, [], ◌∷◌, ◌++◌, Option, some, none,
  if◌then◌else◌,
}
use mclog.Roll.{days_1, make_interval, end_time}
use mclog.Message.{Message, secs}
use mclog.LogFiles.{
  LogFileConfig, LogPathCache, make_path, log_path, log_path_configs, has_entry, cache_key, Store,
  put, handle, handle_all, new_log_file,
}
use mclog.LogFiles.Paths.{IsRegular, IsFaithful, log_path-make_path}
use mclog.LogFiles.Dispatch.{IsApart, IsHandled, handle_all_lem}
use mclog.LogFiles.Selection.{is_wanted, log_path_configs_lem}
use mclog.LogFile.{
  Files, LogFile, World, process, open_no_lock, roll_criteria_met, need_roll_before_open,
}
use mclog.Examples.{calendar, io, hello}

-- What stands for the replacement of the patterns' marks.
abbrev pub join : Text → Text → Text → Text → Text
join pattern host app facility = host ++ 47 ∷ app ++ 47 ∷ facility

abbrev accept_all : Text → Message → Option Bool
accept_all filter m = some true

abbrev pub by_host : LogFileConfig
by_host = record {
  filter = [];
  path_pattern = codes "%H/%I/%F";
  period = days_1;
  size = 0;
  keep = 7;
  binary = false;
}

abbrev pub fixed : LogFileConfig
fixed = record by_host { path_pattern = codes "/var/log/all" }

hello-IsRegular : IsRegular hello
hello-IsRegular = record { facility = omega arith; multiple = refl; severity = omega arith }

-- The cache after one message.
abbrev filled : LogPathCache
filled = (cache_key hello fixed.path_pattern, make_path join (codes "/var/log") hello fixed) ∷ []

filled-IsFaithful : IsFaithful join (codes "/var/log") filled
filled-IsFaithful = ((hello, fixed, hello-IsRegular, refl, refl), tt)

log_path-make_path_example :
    ((log_path join (codes "/var/log") hello by_host filled).0
      ≡ make_path join (codes "/var/log") hello by_host)
    × IsFaithful join (codes "/var/log") (log_path join (codes "/var/log") hello by_host filled).1
log_path-make_path_example =
    log_path-make_path join (codes "/var/log") hello by_host filled hello-IsRegular
      filled-IsFaithful

log_path_configs_lem_example :
    let (paths, cache') =
      log_path_configs join
        (codes "/var/log")
        accept_all
        hello
        (by_host ∷ fixed ∷ by_host ∷ [])
        filled in
    IsApart paths
    × IsFaithful join (codes "/var/log") cache'
    × ((p : Text)
        → has_entry p paths
          ≡ is_wanted join (codes "/var/log") accept_all hello p (by_host ∷ fixed ∷ by_host ∷ []))
log_path_configs_lem_example =
    log_path_configs_lem join (codes "/var/log") accept_all hello (by_host ∷ fixed ∷ by_host ∷ [])
      filled hello-IsRegular filled-IsFaithful

abbrev pub world : World
world = record {
  now = 5400;
  lists = true;
  removes = λ n. true;
  renames = λ n. true;
  moves = true;
  directory_ok = some true;
  opens = true;
  writes = true;
  cut = 0;
}

abbrev pub nothing : Store
nothing p = (none, record { current = none; pending = none; archives = []; padded = [] })

-- What the first message makes of a path.
abbrev pub written : Option LogFile × Files
written = (
  some (record (new_log_file calendar io (λ m. 5 ∷ []) world fixed) { ofs = some 1 }),
  record { current = some (5 ∷ [], 5400); pending = none; archives = []; padded = [] },
)

handled :
    handle_all calendar io (λ m. 5 ∷ []) world hello ((codes "/a", fixed) ∷ []) nothing
    ≡ some (true, put (codes "/a") written nothing)
unfolding handle_all handle process open_no_lock need_roll_before_open roll_criteria_met
    make_interval secs end_time
handled = refl

handle_all_lem_example :
    IsHandled calendar io
      (λ m. 5 ∷ [])
      world
      hello
      ((codes "/a", fixed) ∷ [])
      nothing
      (put (codes "/a") written nothing)
    × ((p : Text)
        → put (codes "/a") written nothing p ≡ (
            if has_entry p ((codes "/a", fixed) ∷ [])
            then put (codes "/a") written nothing p
            else nothing p))
handle_all_lem_example =
    handle_all_lem calendar io (λ m. 5 ∷ []) world hello ((codes "/a", fixed) ∷ []) nothing
      (refl, tt) handled
