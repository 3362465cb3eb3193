-- ===== src/LogFiles.antt =====
-- DwmMclogLogFiles.hh and DwmMclogLogFiles.cc: which files a message goes to, and the cache of
-- their paths. The generated parser of filters and boost's regex_replace are parameters. The
-- caches of std::map are lists searched by their keys.
pub mod Paths
pub mod Selection
pub mod Dispatch
use Prim.Native.Nat.{bit_or}
use mclog.Base.{
  ℕ, ◌≡◌, Bool, true, false, ◌&&◌, ◌||◌, not, Text, codes, text_eq, List, [], ◌∷◌, ◌++◌, Option,
  none, some, ◌==◌, if◌then◌else◌, ◌>>=◌, is_empty,
}
use mclog.Facility.{facility_name}
use mclog.Message.{Bytes, Message, StreamIo}
use mclog.Roll.{Calendar, RollPeriod, make_interval}
use mclog.LogFile.{Files, LogFile, World, open_no_lock, process}

-- `LogFileConfig`, without the owner, the group and the permissions.
pub record LogFileConfig : Type 0 where
  pub filter : Text
  pub path_pattern : Text
  pub period : RollPeriod
  pub size : ℕ
  pub keep : ℕ
  pub binary : Bool

pub record LogPathCacheKey : Type 0 where
  pub facility_severity : ℕ
  pub hostname : Text
  pub appname : Text
  pub path_pattern : Text

-- `LogPathCacheKey(msg, pathPattern)`
unfoldable pub cache_key : Message → Text → LogPathCacheKey
cache_key m pattern = record {
  facility_severity = bit_or m.header.facility m.header.severity;
  hostname = m.header.origin.hostname;
  appname = m.header.origin.appname;
  path_pattern = pattern;
}

-- Neither key is less than the other by `operator <`.
unfoldable pub same_key : LogPathCacheKey → LogPathCacheKey → Bool
same_key k l =
    k.facility_severity == l.facility_severity
    && (text_eq k.hostname l.hostname
        && (text_eq k.appname l.appname && text_eq k.path_pattern l.path_pattern))

abbrev pub LogPathCache : Type 0
LogPathCache = List (LogPathCacheKey × Text)

abbrev pub find_path : LogPathCacheKey → LogPathCache → Text
find_path k [] = []
find_path k ((l, path) ∷ rest) = if same_key k l then path else find_path k rest

-- `find_first_of('%') == npos` negated, and `'/' == s[0]`.
abbrev pub has_percent : Text → Bool
has_percent [] = false
has_percent (c ∷ s) = c == 37 || has_percent s

abbrev pub is_absolute : Text → Bool
is_absolute [] = false
is_absolute (c ∷ s) = c == 47

-- `hasEntry` in `LogPathConfigs`.
abbrev pub has_entry : Text → List (Text × LogFileConfig) → Bool
has_entry s [] = false
has_entry s ((p, cfg) ∷ rest) = text_eq p s || has_entry s rest

-- `LogPathFromCache`
unfoldable pub log_path_from_cache : Message → LogFileConfig → LogPathCache → Text
log_path_from_cache m cfg cache = find_path (cache_key m cfg.path_pattern) cache

-- `expand pattern host app facility` is what regex_replace makes of a pattern.
module _ (expand : Text → Text → Text → Text → Text) (log_directory : Text) where
  abbrev pub in_directory : Text → Text
  in_directory path = if is_absolute path then path else log_directory ++ 47 ∷ path

  -- The path that `LogPath` makes where it has none in its cache.
  unfoldable pub make_path : Message → LogFileConfig → Text
  make_path m cfg =
      let o = m.header.origin in
      if is_empty cfg.path_pattern
      then codes "logs/" ++ (o.hostname ++ 47 ∷ o.appname)
      else if has_percent cfg.path_pattern
      then in_directory
          (expand cfg.path_pattern o.hostname o.appname (facility_name m.header.facility))
      else in_directory cfg.path_pattern

  -- `LogPath`; a path in the cache that is empty is made anew.
  unfoldable pub log_path : Message → LogFileConfig → LogPathCache → Text × LogPathCache
  log_path m cfg cache =
      let cached = log_path_from_cache m cfg cache in
      let made = make_path m cfg in
      if is_empty cached
      then (made, (cache_key m cfg.path_pattern, made) ∷ cache)
      else (cached, cache)

  module _ (parse : Text → Message → Option Bool) where
    abbrev pub accepted : LogFileConfig → Message → Bool
    accepted cfg m = elim (parse cfg.filter m) [ none ↦ false | some b ↦ b ]

    -- The loop of `LogPathConfigs`; the map's overload does the same.
    unfoldable pub log_path_configs_from :
        Message
        → List LogFileConfig
        → List (Text × LogFileConfig)
        → LogPathCache
        → List (Text × LogFileConfig) × LogPathCache
    log_path_configs_from m [] found cache = (found, cache)
    log_path_configs_from m (cfg ∷ cfgs) found cache =
        let (path, cache1) = log_path m cfg cache in
        let skipped = log_path_configs_from m cfgs found cache in
        let known = log_path_configs_from m cfgs found cache1 in
        let added = log_path_configs_from m cfgs (found ++ (path, cfg) ∷ []) cache1 in
        if accepted cfg m then (if has_entry path found then known else added) else skipped

    unfoldable pub log_path_configs :
        Message → List LogFileConfig → LogPathCache → List (Text × LogFileConfig) × LogPathCache
    log_path_configs m cfgs cache = log_path_configs_from m cfgs [] cache

-- What is at each path: the LogFile of `_logFiles`, where there is one, and the files on disk.
abbrev pub Store : Type 0
Store = Text → Option LogFile × Files

abbrev pub put : Text → Option LogFile × Files → Store → Store
put p v st q = if text_eq p q then v else st q

module _ (cal : Calendar) (io : StreamIo) (print : Message → Bytes) (w : World) where
  -- `LogFile(path, permissions, period, size, keep, format)`
  abbrev pub new_log_file : LogFileConfig → LogFile
  new_log_file cfg = record {
    keep = cfg.keep;
    ofs = none;
    bad = false;
    roll_interval = make_interval cal cfg.period w.now;
    roll_size = cfg.size;
    binary = cfg.binary;
  }

  -- The body of the loop of `Process`, for one path.
  unfoldable pub handle :
      Message → LogFileConfig → Option LogFile × Files → Option (Bool × (Option LogFile × Files))
  handle m cfg (some l, f) = do
    (rc, l1, f1) ← process cal io print w m l f
    some (rc, (some l1, f1))
  handle m cfg (none, f) = do
    (opened, l1, f1) ← open_no_lock cal w (new_log_file cfg) f
    (rc, l2, f2) ← process cal io print w m l1 f1
    some (rc, (some l2, f2))

  unfoldable pub handle_all : Message → List (Text × LogFileConfig) → Store → Option (Bool × Store)
  handle_all m [] st = some (true, st)
  handle_all m ((p, cfg) ∷ rest) st = do
    (ok, v) ← handle m cfg (st p)
    (rc, st') ← handle_all m rest (put p v st)
    some (ok && rc, st')

-- `Close`, and what `Configure` does to the open files.
unfoldable pub close_all : Store → Store
close_all st p = (none, (st p).1)
