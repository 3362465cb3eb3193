-- ===== src/Examples/Readers.antt =====
-- Runs of mclog over a plain and a compressed file, with the filter of the runs of filters.
use mclog.Base.{
  ◌≡◌, refl, Text, codes, text_eq, true, false, List, [], ◌∷◌, Option, none, some, if◌then◌else◌,
}
use mathlib.Core.List.{map, flatten}
use mclog.Message.{Bytes, Message, write_all}
use mclog.Filter.Trees.{Expression, yield_to, IsResolved}
use mclog.TextForm.{print_message}
use mclog.Reader.{FileSystem, Flag, Options, read_options, printed, main}
use mclog.Message.Streams.{AllGood}
use mclog.Reader.Files.{messages_of, print_all, passes, main-tree, main-write_all}
use mclog.Examples.{io, io-IsSound, hello, hello-Fits}
use mclog.Examples.Messages.{hello-is_acceptable, nothing_read}
use mclog.Examples.Filters.{scan, three, made}
use mclog.Examples.Texts.{clock}

abbrev plain : Text
plain = codes "a/b.c/log"

abbrev packed : Text
packed = codes "log.0.bz2"

abbrev one_file : Text → Text → Option Bytes
one_file name path = if text_eq path name then some (write_all io (hello ∷ hello ∷ [])) else none

abbrev files : FileSystem
files = record { ifstream = one_file plain; bz2_bzopen = one_file packed; gzopen = λ path. none }

abbrev defaults : Options
defaults = record { debug = false; config_file = codes "cfg"; filtexpr = [] }

abbrev filtered : Options
filtered = record { debug = true; config_file = codes "cfg"; filtexpr = codes "x" }

flags_read :
    read_options (Flag.set_debug ∷ Flag.set_filter (codes "x") ∷ []) defaults ≡ some filtered
unfolding read_options
flags_read = refl

main-tree_example :
    (e : Expression) × IsResolved e
    × (yield_to e [] ≡ three)
    × ((p : Text) (ps : List Text) (cin : Bytes)
        → main text_eq scan clock io files hello defaults
            (Flag.set_debug ∷ Flag.set_filter (codes "x") ∷ [])
            (p ∷ ps)
            cin
          ≡ printed (print_all clock (passes text_eq e) (messages_of io files (p ∷ ps) (some cin))))
main-tree_example =
    main-tree text_eq scan clock io files hello defaults
      (Flag.set_debug ∷ Flag.set_filter (codes "x") ∷ []) filtered flags_read refl made

no_flags : read_options [] defaults ≡ some defaults
unfolding read_options
no_flags = refl

abbrev two : List Message
two = hello ∷ hello ∷ []

main-write_all_example :
    main text_eq scan clock io files hello defaults [] (plain ∷ packed ∷ []) []
    ≡ printed (flatten (map (print_message clock) (flatten (two ∷ two ∷ []))))
main-write_all_example =
    let good : AllGood two =
      (hello-Fits, hello-is_acceptable, (hello-Fits, hello-is_acceptable, tt)) in
    main-write_all text_eq scan clock io files hello defaults [] defaults no_flags refl io-IsSound
      nothing_read plain two ((packed, two) ∷ []) [] (refl, refl, good, (refl, refl, good, tt))
