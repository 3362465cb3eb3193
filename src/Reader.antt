-- ===== src/Reader.antt =====
-- apps/mclog/mclog.cc: the program that prints messages, from files or as they arrive, through a
-- filter. Opening and decompressing a file, the scanner of filters and the regular expressions are
-- parameters; `getopt` is its result, the options in their order and the arguments left.
pub mod Files
use mclog.Base.{
  ℕ, zero, suc, Text, codes, text_eq, is_empty, Bool, true, false, ◌==◌, List, [], ◌∷◌, ◌++◌,
  Option, none, some, if◌then◌else◌, length, drop,
}
use mclog.Message.{Bytes, Message, StreamIo, read_message, read_message_v}
use mclog.Filter.{Token, MessageFilterDriver, parse, new_driver}
use mclog.TextForm.{Clock, print_message}

-- A path from its last `c` on.
abbrev pub from_last : ℕ → Text → Option Text
from_last c [] = none
from_last c (x ∷ xs) = elim (from_last c xs) [
  | none ↦ if x == c then some (x ∷ xs) else none
  | some s ↦ some s
]

-- `std::filesystem::path::filename` and `std::filesystem::path::extension`
abbrev pub filename : Text → Text
filename p = elim (from_last 47 p) [ none ↦ p | some s ↦ drop 1 s ]

abbrev pub extension : Text → Text
extension p =
    if text_eq (filename p) (codes "..")
    then []
    else elim (from_last 46 (drop 1 (filename p))) [ none ↦ [] | some s ↦ s ]

-- What `std::ifstream`, `BZ2_bzopen` and `gzopen` open: the bytes that reads then give.
pub record FileSystem : Type 0 where
  pub ifstream : Text → Option Bytes
  pub bz2_bzopen : Text → Option Bytes
  pub gzopen : Text → Option Bytes

-- `-c`, `-d`, `-F`, and any other.
pub data Flag : Type 0 where
  set_config : Text → Flag
  set_debug : Flag
  set_filter : Text → Flag
  unknown : Flag

pub record Options : Type 0 where
  pub debug : Bool
  pub config_file : Text
  pub filtexpr : Text

-- The loop of `getopt`; `none` is the usage message and `exit(1)`.
unfoldable pub read_options : List Flag → Options → Option Options
read_options [] o = some o
read_options (Flag.set_config t ∷ fs) o = read_options fs (record o { config_file = t })
read_options (Flag.set_debug ∷ fs) o = read_options fs (record o { debug = true })
read_options (Flag.set_filter t ∷ fs) o = read_options fs (record o { filtexpr = t })
read_options (Flag.unknown ∷ fs) o = none

-- How `main` goes on: `exit(1)`, the exception of a text that is no filter, `exit(0)` with what was
-- printed, or the receiver that listens.
pub data Outcome : Type 0 where
  usage : Outcome
  thrown : Outcome
  printed : Text → Outcome
  listens : Options → Outcome

-- A `shared_ptr<MessageFilterDriver>`, and `nullptr` as `none`.
abbrev pub Driver : (Text → Text → Bool) → Type 0
Driver regex_matches = Option (MessageFilterDriver regex_matches)

module _ (regex_matches : Text → Text → Bool) (scan : Text → List Token) where
  -- `(! filter) || (filter->parse(&msg, filterResult) && filterResult)`
  unfoldable pub shows : Message → Driver regex_matches → Bool × Driver regex_matches
  shows m none = (true, none)
  shows m (some d) =
      let (valid, result, d1) = parse regex_matches scan m d in
      (if valid then result else false, some d1)

  module _ (clk : Clock) where
    -- `MySink::Process`, with what it prints.
    unfoldable pub process_sink :
        Message → Driver regex_matches → Bool × Text × Driver regex_matches
    process_sink m f =
        let (shown, f1) = shows m f in (true, (if shown then print_message clk m else []), f1)

    -- `while (msg.Read(is))`, with fuel, and what it prints.
    unfoldable pub print_loop :
        (Bytes → Option (Message × Bytes))
        → ℕ
        → Bytes
        → Driver regex_matches
        → Text × Driver regex_matches
    print_loop read zero is f = ([], f)
    print_loop read (suc fuel) is f = elim (read is) [
      | none ↦ ([], f)
      | some (m, rest) ↦
          let (shown, f1) = shows m f in
          let (others, f2) = print_loop read fuel rest f1 in
          ((if shown then print_message clk m ++ others else others), f2)
    ]

    module _ (io : StreamIo) where
      -- `ProcessIstream`: each message takes a byte at least, so this fuel is enough.
      unfoldable pub process_istream : Bytes → Driver regex_matches → Text × Driver regex_matches
      process_istream is = print_loop (read_message io) (suc (length is)) is

      -- `ProcessBZ2File` and `ProcessGZFile` once the file is opened.
      unfoldable pub process_compressed :
          Option Bytes → Driver regex_matches → Text × Driver regex_matches
      process_compressed none f = ([], f)
      process_compressed (some is) f = print_loop (read_message_v io) (suc (length is)) is f

      module _ (files : FileSystem) where
        -- `ProcessBinaryFile`
        unfoldable pub process_binary_file :
            Text → Driver regex_matches → Text × Driver regex_matches
        process_binary_file path f = elim (files.ifstream path) [
          | none ↦ ([], f)
          | some is ↦ process_istream is f
        ]

        -- `ProcessFile`; `none` is the standard input after a read of it failed.
        unfoldable pub process_file :
            Text → Option Bytes → Driver regex_matches → Text × Driver regex_matches × Option Bytes
        process_file path cin f =
            if text_eq path (codes "-")
            then elim cin [
              | none ↦ ([], f, none)
              | some is ↦ let (out, f1) = process_istream is f in (out, f1, none)
            ]
            else let (out, f1) =
                (if text_eq (extension path) (codes ".bz2")
                  then process_compressed (files.bz2_bzopen path) f
                  else if text_eq (extension path) (codes ".gz")
                  then process_compressed (files.gzopen path) f
                  else process_binary_file path f) in
              (out, f1, cin)

        unfoldable pub process_files : List Text → Option Bytes → Driver regex_matches → Text
        process_files [] cin f = []
        process_files (p ∷ ps) cin f =
            let (out, f1, cin1) = process_file p cin f in out ++ process_files ps cin1 f1

        -- `main`
        unfoldable pub main : Message → Options → List Flag → List Text → Bytes → Outcome
        main blank defaults flags paths cin = elim (read_options flags defaults) [
          | none ↦ usage
          | some o ↦
              if is_empty o.filtexpr
              then go o paths none
              else elim (new_driver regex_matches scan blank o.filtexpr) [
                | none ↦ thrown
                | some d ↦ go o paths (some d)
              ]
        ]
          where
            go : Options → List Text → Driver regex_matches → Outcome
            go o [] f = listens o
            go o (p ∷ ps) f = printed (process_files (p ∷ ps) (some cin) f)
