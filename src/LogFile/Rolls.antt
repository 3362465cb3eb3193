-- ===== src/LogFile/Rolls.antt =====
-- What a message that is processed does to the files, rolled or not.
use mclog.Base.{
  ℕ, suc, ◌≡◌, refl, true, false, ◌&&◌, [], none, some, leb, ltb, if◌then◌else◌, arith, take,
}
use mclog.Roll.{Calendar, set_to_current, end_time}
use mclog.Roll.Intervals.{IsSteady, set_to_current_holds}
use mclog.Message.{Bytes, Message, StreamIo, write_message, secs}
use mclog.LogFile.{
  lookup, Files, LogFile, World, finish_compress, roll, roll_current, need_roll_before_open,
  open_no_lock, close, roll_criteria_met, process, roll_archives,
}
use mclog.LogFile.Turns.{permits}
use mclog.LogFile.Archives.{IsDirectory, AllSmall, roll_archives_returns}

-- The bytes that `Process` writes.
abbrev pub form : StreamIo → (Message → Bytes) → LogFile → Message → Bytes
form io print l m = if l.binary then write_message io m else print m

-- A call during which the file system reports no error, but for the write.
pub record IsWritable (w : World) : Type 0 where
  pub directory : w.directory_ok ≡ some true
  pub openable : w.opens ≡ true
  pub lists : w.lists ≡ true
  pub moves : w.moves ≡ true
  pub removes : (n : ℕ) → w.removes n ≡ true
  pub renames : (n : ℕ) → w.renames n ≡ true

all_rolled :
    (w : World) (l : LogFile) (f : Files)
    → IsWritable w
    → f.padded ≡ []
    → AllSmall f.archives
    → IsDirectory f.archives
    → let (returned, d') = roll_archives w l.keep f.padded f.archives in
      (returned ≡ true)
      × (lookup 0 d' ≡ none)
      × ((n : ℕ) → lookup (suc n) d' ≡ (if ltb (suc n) l.keep then lookup n f.archives else none))
all_rolled w l f ok plain small dir =
    rw plain (roll_archives_returns w l.keep f.archives ok.lists may small dir)
  where
    may : (n : ℕ) → permits w l.keep n ≡ true
    may n = ground (arith, ok.removes n, ok.renames n)

-- What reaches the file of the bytes written.
abbrev pub reaching : World → Bytes → Bytes
reaching w bs = if w.writes then bs else take w.cut bs

-- A roll, once the compressor is done: archive 0 is the file as it was, and every other archive is
-- the one that had the number below, up to the number to keep.
pub finish_compress-roll :
    (cal : Calendar) (squeeze : Bytes → Bytes) (w : World) (l : LogFile) (f : Files) {changed : ℕ}
    {c : Bytes}
    → IsWritable w
    → f.padded ≡ []
    → f.current ≡ some (c, changed)
    → AllSmall f.archives
    → IsDirectory f.archives
    → (l' : LogFile) × (f' : Files) × (roll cal w l f ≡ some (l', f'))
      × (f'.current ≡ none)
      × ((finish_compress squeeze f').pending ≡ none)
      × (lookup 0 (finish_compress squeeze f').archives ≡ some (squeeze c))
      × ((n : ℕ)
          → lookup (suc n) (finish_compress squeeze f').archives
            ≡ (if ltb (suc n) l.keep then lookup n f.archives else none))
unfolding roll roll_current finish_compress
finish_compress-roll cal squeeze w l f {c = c} ok plain here small dir =
    let d' = (roll_archives w l.keep f.padded f.archives).1 in
    let (rolled, free, shifted) = all_rolled w l f ok plain small dir in
    (
      record l { roll_interval = set_to_current cal l.roll_interval w.now },
      record { current = none; pending = some c; archives = d'; padded = f.padded },
      ground (arith, rolled, here, ok.moves),
      refl,
      ground (arith, free),
      ground (arith, free),
      λ n. ground (arith, free, shifted n),
    )

-- A message that is written stands in a file whose interval has not ended by both the message's
-- time stamp and the clock, whatever the file system did during the call.
pub process_interval :
    (cal : Calendar) (io : StreamIo) (print : Message → Bytes) (w : World) (m : Message)
    (l : LogFile) (f : Files) {l' : LogFile} {f' : Files}
    → IsSteady cal
    → process cal io print w m l f ≡ some (true, l', f')
    → (leb (end_time l'.roll_interval) (secs m.header.timestamp)
        && leb (end_time l'.roll_interval) w.now)
      ≡ false
unfolding process roll roll_current need_roll_before_open open_no_lock close roll_criteria_met
process_interval cal io print w m l f steady h =
    let (start, after, most, same) = set_to_current_holds cal steady w.now l.roll_interval in
    ground (arith, after)
