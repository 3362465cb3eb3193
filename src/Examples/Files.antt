-- ===== src/Examples/Files.antt =====
-- Runs of a log file's operations.
use mclog.Base.{◌≡◌, refl, true, [], ◌∷◌, some, none, false, not, ◌==◌}
use mclog.Roll.{hours_1}
use mclog.LogFile.{Archives, get_archives, roll_each, roll_archives, Files, LogFile, World}

abbrev three : Archives
three = (1, 11 ∷ []) ∷ (0, 10 ∷ []) ∷ (2, 12 ∷ []) ∷ []

abbrev world : World
world = record {
  now = 5400;
  lists = true;
  removes = λ n. true;
  renames = λ n. true;
  moves = true;
  directory_ok = some true;
  opens = true;
  writes = true;
  cut = 0;
}

-- The file system refuses to rename archive 0.
abbrev read_only : World
read_only = record world { renames = λ n. not (n == 0) }

stopped : roll_archives read_only 3 [] three ≡ (false, (2, 11 ∷ []) ∷ (0, 10 ∷ []) ∷ [])
unfolding roll_archives roll_each get_archives
stopped = refl

-- A file of four bytes, which is to be rolled from three on.
abbrev log : LogFile
log = record {
  keep = 3;
  ofs = some 4;
  bad = false;
  roll_interval = record { rp = hours_1; end = 7200 };
  roll_size = 3;
  binary = true;
}

abbrev files : Files
files = record {
  current = some (1 ∷ 2 ∷ 3 ∷ 4 ∷ [], 5000);
  pending = none;
  archives = three;
  padded = [];
}

-- The disk is full after one byte.
abbrev full : World
full = record world { writes = false; cut = 1 }
