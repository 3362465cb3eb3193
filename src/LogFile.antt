-- ===== src/LogFile.antt =====
-- DwmMclogLogFile.hh and DwmMclogLogFile.cc: a log file, when it is rolled, and the renaming of its
-- archives. What the file system answers is an argument. `none` is an exception of
-- std::filesystem, which nothing catches.
pub mod Turns
pub mod Archives
pub mod Rolls
use mclog.Base.{
  ℕ, zero, suc, ◌+◌, ◌%◌, ◌^◌, ◌≤◌, ◌<◌, ◌≡◌, Bool, true, false, ◌&&◌, ◌||◌, not, Text, codes,
  text_eq, List, [], ◌∷◌, ◌++◌, map, Option, none, some, leb, ltb, ◌==◌, if◌then◌else◌, ◌>>=◌,
  length, take,
}
use mclog.Roll.{Calendar, RollInterval, set_to_current, start_time, end_time}
use mclog.Message.{Bytes, Message, StreamIo, write_message, secs}

abbrev sg_compression_ext : List (Text × Text)
sg_compression_ext = (codes "bzip2", codes "bz2") ∷ (codes "gzip", codes "gz") ∷ []

abbrev find_ext : Text → List (Text × Text) → Option (Text × Text)
find_ext s [] = none
find_ext s ((k, v) ∷ t) = if text_eq s k then some (k, v) else find_ext s t

-- `CompressCommand`, `ArchiveExtension` and `Compression(compress)`
unfoldable pub compress_command : Text → Text
compress_command s = elim (find_ext s sg_compression_ext) [ none ↦ codes "bzip2" | some e ↦ e.0 ]

unfoldable pub archive_extension : Text → Text
archive_extension s = elim (find_ext s sg_compression_ext) [ none ↦ codes "bz2" | some e ↦ e.1 ]

unfoldable pub compression : Text → Text
compression s = elim (find_ext s sg_compression_ext) [ none ↦ codes "bzip2" | some e ↦ s ]

-- The archives in the directory, by their numbers: the file `_path.N.ext` with its contents.
abbrev pub Archives : Type 0
Archives = List (ℕ × Bytes)

abbrev pub lookup : ℕ → Archives → Option Bytes
lookup n [] = none
lookup n ((k, c) ∷ d) = if n == k then some c else lookup n d

abbrev pub erase : ℕ → Archives → Archives
erase n [] = []
erase n ((k, c) ∷ d) = let rest = erase n d in if n == k then rest else (k, c) ∷ rest

-- What the file system and the clock do during a call: whether `fs::directory_iterator`,
-- `fs::remove` and `fs::rename` of the archive of a number, and the renaming of the file, report no
-- error; whether there is a directory for the file, `none` being an exception; whether the file can
-- be opened; and whether a write succeeds, of which `cut` bytes stand in the file where it does
-- not.
pub record World : Type 0 where
  pub now : ℕ
  pub lists : Bool
  pub removes : ℕ → Bool
  pub renames : ℕ → Bool
  pub moves : Bool
  pub directory_ok : Option Bool
  pub opens : Bool
  pub writes : Bool
  pub cut : ℕ

-- `fs::remove` and `fs::rename` of archives: whether they return, and the directory then. A name
-- that is not there is nothing to remove, and cannot be renamed; a file of the new name is
-- replaced.
abbrev pub remove : World → ℕ → Archives → Bool × Archives
remove w n d = if w.removes n then (true, erase n d) else (false, d)

abbrev pub rename : World → ℕ → ℕ → Archives → Bool × Archives
rename w n k d = elim (lookup n d) [
  | none ↦ (false, d)
  | some c ↦ if w.renames n then (true, (k, c) ∷ erase k (erase n d)) else (false, d)
]

abbrev pub insert : ℕ → List ℕ → List ℕ
insert n [] = n ∷ []
insert n (m ∷ ns) = let rest = m ∷ insert n ns in if ltb m n then n ∷ m ∷ ns else rest

-- `GetArchives`: the numbers of the names that match, the largest first. A name with zeros in
-- front of its number matches too, and gives only its number: `padded` are those.
unfoldable pub get_archives : Archives → List ℕ → List ℕ
get_archives [] [] = []
get_archives [] (n ∷ ns) = insert n (get_archives [] ns)
get_archives ((n, c) ∷ d) padded = insert n (get_archives d padded)

-- `archive.Num() + 1`, of a `size_t`.
abbrev pub next : ℕ → ℕ
next n = (n + 1) % 2 ^ 64

-- Whether `stoull` takes every number.
abbrev pub all_fit : List ℕ → Bool
all_fit [] = true
all_fit (n ∷ ns) = ltb n (2 ^ 64) && all_fit ns

-- The loop of `RollArchives`: whether it returned, and the directory then.
unfoldable pub roll_each : World → ℕ → List ℕ → Archives → Bool × Archives
roll_each w keep [] d = (true, d)
roll_each w keep (n ∷ ns) d =
    let (returned, d1) = (if leb keep (next n) then remove w n d else rename w n (next n) d) in
    let rest = roll_each w keep ns d1 in if returned then rest else (false, d1)

unfoldable pub roll_archives : World → ℕ → List ℕ → Archives → Bool × Archives
roll_archives w keep padded d =
    let archives = get_archives d padded in
    if w.lists && all_fit archives then roll_each w keep archives d else (false, d)

-- The files: at `_path` the contents and the time of the last change, at `_path.0` what a
-- compressor has not replaced yet, the archives, and the numbers of the names like archives' with
-- zeros in front.
pub record Files : Type 0 where
  pub current : Option (Bytes × ℕ)
  pub pending : Option Bytes
  pub archives : Archives
  pub padded : List ℕ

-- The compressor's end, a step between others: it leaves an archive that is there alone.
unfoldable pub finish_compress : (Bytes → Bytes) → Files → Files
finish_compress squeeze f = elim f.pending [
  | none ↦ f
  | some c ↦ elim (lookup 0 f.archives) [
    | none ↦ record f { pending = none; archives = (0, squeeze c) ∷ f.archives }
    | some old ↦ f
  ]
]

-- `RollCurrent`
unfoldable pub roll_current : World → Files → Option Files
roll_current w f = do
  (c, changed) ← f.current
  if w.moves then some (record f { current = none; pending = some c }) else none

-- `_ofs` is closed, or open at a position; `bad` is whether a write or an open has failed since it
-- was last opened.
pub record LogFile : Type 0 where
  pub keep : ℕ
  pub ofs : Option ℕ
  pub bad : Bool
  pub roll_interval : RollInterval
  pub roll_size : ℕ
  pub binary : Bool

module _ (cal : Calendar) where
  -- `Roll`
  unfoldable pub roll : World → LogFile → Files → Option (LogFile × Files)
  roll w l f =
      let (returned, kept) = roll_archives w l.keep f.padded f.archives in
      if returned
      then (do
        moved ← roll_current w (record f { archives = kept })
        some (record l { roll_interval = set_to_current cal l.roll_interval w.now }, moved))
      else none

  -- `NeedRollBeforeOpen`
  unfoldable pub need_roll_before_open : LogFile → Files → Bool
  need_roll_before_open l f = elim f.current [
    | none ↦ false
    | some c ↦ ltb c.1 (start_time l.roll_interval)
  ]

  -- A stream opened to append stands at 0 until it is first written to; a file that is not there
  -- is made.
  abbrev pub open_current : World → Files → Files
  open_current w f = elim f.current [ none ↦ record f { current = some ([], w.now) } | some c ↦ f ]

  -- `OpenNoLock`; a stream that is opened forgets its failures.
  unfoldable pub open_no_lock : World → LogFile → Files → Option (Bool × LogFile × Files)
  open_no_lock w l f = elim l.ofs [
    | some at ↦ some (true, l, f)
    | none ↦ (do
      (l1, f1) ← (if need_roll_before_open l f then roll w l f else some (l, f))
      ok ← w.directory_ok
      if ok
          then (if w.opens
              then some (true, record l1 { ofs = some 0; bad = false }, open_current w f1)
              else some (false, record l1 { bad = true }, f1))
          else some (false, l1, f1))
  ]

  -- `Close`
  unfoldable pub close : LogFile → LogFile
  close l = record l { ofs = none }

  -- `RollCriteriaMet`; the position of a stream that has failed is -1.
  unfoldable pub roll_criteria_met : World → Message → LogFile → Bool
  roll_criteria_met w m l =
      (ltb 0 l.roll_size && elim l.ofs [ none ↦ false | some at ↦ not l.bad && leb l.roll_size at ])
      || (leb (end_time l.roll_interval) (secs m.header.timestamp)
          && leb (end_time l.roll_interval) w.now)

  -- The bytes appended and flushed. A stream that is closed fails, and one that has failed before
  -- writes nothing; a file that someone has removed still takes what is written.
  abbrev pub append : World → Bytes → LogFile → Files → Bool × LogFile × Files
  append w bs l f = elim l.ofs [
    | none ↦ (false, record l { bad = true }, f)
    | some at ↦
        (let put = if w.writes then bs else take w.cut bs in
          let l1 = record l { bad = if w.writes then false else true } in
          if l.bad then (false, l, f) else elim f.current [
            | none ↦ (w.writes, record l1 { ofs = some (at + length put) }, f)
            | some c ↦ (
              w.writes,
              record l1 { ofs = some (length (c.0 ++ put)) },
              record f { current = some (c.0 ++ put, w.now) },
            )
          ])
  ]

  module _ (io : StreamIo) (print : Message → Bytes) where
    -- `Process`; `print` is what `operator <<` writes.
    unfoldable pub process : World → Message → LogFile → Files → Option (Bool × LogFile × Files)
    process w m l f = elim l.ofs [
      | none ↦ some (false, l, f)
      | some at ↦ (do
        (l1, f1) ←
            (if roll_criteria_met w m l
              then (do
                (l2, f2) ← roll w (close l) f
                (ok, l3, f3) ← open_no_lock w l2 f2
                some (l3, f3))
              else some (l, f))
        some (append w (if l.binary then write_message io m else print m) l1 f1))
    ]
