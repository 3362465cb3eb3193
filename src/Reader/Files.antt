-- ===== src/Reader/Files.antt =====
-- What mclog prints of the files that it is given.
use mathlib.Core.List.{flatten}
use mclog.Base.{
  ℕ, zero, suc, ◌≡◌, refl, sym, ap, ◌∙◌, Text, codes, text_eq, is_empty, Bool, true, false, List,
  [], ◌∷◌, ◌++◌, map, append_assoc, append-nil, Option, none, some, if◌then◌else◌, length,
  Bool-cases, Option-cases, inl, inr, fun_ext,
}
use mclog.Message.{Bytes, Message, StreamIo, read_message, read_all, read_stream, write_all}
use mclog.Message.RoundTrip.{IsSound, read_message_v-eq-read_message}
use mclog.Message.Streams.{AllGood, read_stream-write_all}
use mclog.Filter.{Token, MessageFilterDriver, evaluate, new_driver}
use mclog.Filter.Trees.{Expression, yield_to, value, IsResolved}
use mclog.Filter.Drivers.{parse-new_driver}
use mclog.TextForm.{Clock, print_message}
use mclog.Reader.{
  extension, FileSystem, Flag, Options, read_options, printed, Driver, shows, print_loop,
  process_istream, process_compressed, process_binary_file, process_file, process_files, main,
}

-- The bytes of a file, decompressed by what its extension says.
abbrev pub opened : FileSystem → Text → Option Bytes
opened files p =
    if text_eq (extension p) (codes ".bz2")
    then files.bz2_bzopen p
    else if text_eq (extension p) (codes ".gz")
    then files.gzopen p
    else files.ifstream p

module _ (io : StreamIo) where
  abbrev pub held : Option Bytes → List Message
  held none = []
  held (some is) = read_stream io is

  -- The messages of the files, where `-` is the standard input, which is read once.
  abbrev pub messages_of : FileSystem → List Text → Option Bytes → List Message
  messages_of files [] cin = []
  messages_of files (p ∷ ps) cin =
      let once = held cin ++ messages_of files ps none in
      let others = held (opened files p) ++ messages_of files ps cin in
      if text_eq p (codes "-") then once else others

-- What is printed of messages where those with `keep` are shown.
abbrev pub print_all : Clock → (Message → Bool) → List Message → Text
print_all clk keep [] = []
print_all clk keep (m ∷ ms) =
    let others = print_all clk keep ms in if keep m then print_message clk m ++ others else others

print_all-append :
    (clk : Clock) (keep : Message → Bool) (ms ns : List Message)
    → print_all clk keep (ms ++ ns) ≡ print_all clk keep ms ++ print_all clk keep ns
print_all-append clk keep [] ns = refl
print_all-append clk keep (m ∷ ms) ns =
    let others = print_all-append clk keep ms ns in
    elim (Bool-cases (keep m)) [
      | inl shown ↦
          rw shown (
            ap (λ t. print_message clk m ++ t) others
            ∙ sym (append_assoc (print_message clk m) _ _))
      | inr hidden ↦ rw hidden others
    ]

print_all-flatten :
    (clk : Clock) (ms : List Message)
    → print_all clk (λ m. true) ms ≡ flatten (map (print_message clk) ms)
unfolding flatten
print_all-flatten clk [] = refl
print_all-flatten clk (m ∷ ms) = ap (λ t. print_message clk m ++ t) (print_all-flatten clk ms)

module _ (regex_matches : Text → Text → Bool) (scan : Text → List Token) (clk : Clock)
    (io : StreamIo) (files : FileSystem) (f : Driver regex_matches) (keep : Message → Bool)
    (answers : (m : Message) → shows regex_matches scan m f ≡ (keep m, f)) where
  print_loop_lem :
      (n : ℕ) (is : Bytes)
      → print_loop regex_matches scan clk (read_message io) n is f
        ≡ (print_all clk keep (read_all io n is), f)
  unfolding print_loop read_all
  print_loop_lem zero is = refl
  print_loop_lem (suc n) is = elim (Option-cases (read_message io is)) [
    | inl fails ↦ rw (fails, print_loop, read_all) refl
    | inr ((m, rest), reads) ↦
        rw (reads, print_loop, read_all, answers m, print_loop_lem n rest) refl
  ]

  process_istream_lem :
      (is : Bytes)
      → process_istream regex_matches scan clk io is f ≡ (print_all clk keep (read_stream io is), f)
  unfolding process_istream read_stream
  process_istream_lem is = print_loop_lem (suc (length is)) is

  process_compressed_lem :
      (o : Option Bytes)
      → process_compressed regex_matches scan clk io o f ≡ (print_all clk keep (held io o), f)
  unfolding process_compressed read_stream
  process_compressed_lem none = refl
  process_compressed_lem (some is) =
      ap (λ r. print_loop regex_matches scan clk r (suc (length is)) is f)
        (fun_ext (read_message_v-eq-read_message io))
      ∙ print_loop_lem (suc (length is)) is

  process_binary_file_lem :
      (p : Text)
      → process_binary_file regex_matches scan clk io files p f
        ≡ (print_all clk keep (held io (files.ifstream p)), f)
  unfolding process_binary_file
  process_binary_file_lem p = elim (Option-cases (files.ifstream p)) [
    | inl fails ↦ rw (fails, process_binary_file) refl
    | inr (is, opens) ↦ rw (opens, process_binary_file) (process_istream_lem is)
  ]

  process_standard_input :
      (p : Text) (cin : Option Bytes)
      → text_eq p (codes "-") ≡ true
      → process_file regex_matches scan clk io files p cin f
        ≡ (print_all clk keep (held io cin), f, none)
  unfolding process_file
  process_standard_input p none dash = rw dash refl
  process_standard_input p (some is) dash = rw (dash, process_istream_lem is) refl

  process_other_file :
      (p : Text) (cin : Option Bytes)
      → text_eq p (codes "-") ≡ false
      → process_file regex_matches scan clk io files p cin f
        ≡ (print_all clk keep (held io (opened files p)), f, cin)
  unfolding process_file
  process_other_file p cin other = elim (Bool-cases (text_eq (extension p) (codes ".bz2"))) [
    | inl bz2 ↦ rw (other, bz2, process_compressed_lem (files.bz2_bzopen p)) refl
    | inr no_bz2 ↦ elim (Bool-cases (text_eq (extension p) (codes ".gz"))) [
      | inl gz ↦ rw (other, no_bz2, gz, process_compressed_lem (files.gzopen p)) refl
      | inr no_gz ↦ rw (other, no_bz2, no_gz, process_binary_file_lem p) refl
    ]
  ]

  process_files_lem :
      (ps : List Text) (cin : Option Bytes)
      → process_files regex_matches scan clk io files ps cin f
        ≡ print_all clk keep (messages_of io files ps cin)
  unfolding process_files
  process_files_lem [] cin = refl
  process_files_lem (p ∷ ps) cin = elim (Bool-cases (text_eq p (codes "-"))) [
    | inl dash ↦
        rw (dash, process_standard_input p cin dash, process_files_lem ps none)
          (sym (print_all-append clk keep (held io cin) (messages_of io files ps none)))
    | inr other ↦
        rw (other, process_other_file p cin other, process_files_lem ps cin)
          (sym (print_all-append clk keep (held io (opened files p)) (messages_of io files ps cin)))
  ]

-- A message that the tree of a filter has true.
abbrev pub passes : (Text → Text → Bool) → Expression → Message → Bool
passes regex_matches e m = value (evaluate regex_matches m) e

module _ (regex_matches : Text → Text → Bool) (scan : Text → List Token) (clk : Clock)
    (io : StreamIo) (files : FileSystem) where
  -- Where the last `-F` gives a text that is a filter, the filter has a tree of the precedences,
  -- with the tokens of the text; and whichever files are given, plain or compressed, missing ones
  -- and the standard input included, mclog prints exactly the messages that stand in them before
  -- the first failed read, in their order, that the tree has true.
  pub main-tree :
      (blank : Message) (defaults : Options) (flags : List Flag) (o : Options)
      → read_options flags defaults ≡ some o
      → is_empty o.filtexpr ≡ false
      → {d : MessageFilterDriver regex_matches}
      → new_driver regex_matches scan blank o.filtexpr ≡ some d
      → (e : Expression) × IsResolved e
        × (yield_to e [] ≡ scan o.filtexpr)
        × ((p : Text) (ps : List Text) (cin : Bytes)
            → main regex_matches scan clk io files blank defaults flags (p ∷ ps) cin
              ≡ printed (
                  print_all clk
                    (passes regex_matches e)
                    (messages_of io files (p ∷ ps) (some cin))))
  unfolding main shows
  main-tree blank defaults flags o reads given {d} made =
      let (e, ok, same, parses) = parse-new_driver regex_matches scan blank o.filtexpr made in
      (
        e,
        ok,
        same,
        λ p ps cin.
            rw (reads, given, made, main)
              (ap printed (
                process_files_lem regex_matches scan clk io files (some d) (passes regex_matches e)
                  (λ m. rw ((parses m).0) refl) (p ∷ ps) (some cin))),
      )

  -- The files hold the forms of these messages, one behind the other, whatever their names say of
  -- compression, and none of them stands for the standard input.
  abbrev pub Hold : List (Text × List Message) → Type 0
  Hold [] = Unit
  Hold ((p, ms) ∷ rest) =
      (text_eq p (codes "-") ≡ false)
      × (opened files p ≡ some (write_all io ms))
      × AllGood ms
      × Hold rest

  messages_of-Hold :
      (named : List (Text × List Message)) (cin : Option Bytes)
      → IsSound io
      → read_message io [] ≡ none
      → Hold named
      → messages_of io files (map (λ x. x.0) named) cin ≡ flatten (map (λ x. x.1) named)
  unfolding flatten
  messages_of-Hold [] cin sound ends hold = refl
  messages_of-Hold ((p, ms) ∷ rest) cin sound ends (other, opens, good, hold) =
      let own =
        ap (read_stream io) (sym (append-nil (write_all io ms)))
        ∙ read_stream-write_all io ms [] sound good ends in
      rw (other, opens, own, messages_of-Hold rest cin sound ends hold) refl

  -- Without a filter, and where libDwm's forms work as documented: of files, none of them the
  -- standard input, that hold acceptable messages, one behind the other, in the form that the
  -- loggers write, and whose names say how they are compressed, mclog prints every message, file by
  -- file and in their order.
  pub main-write_all :
      (blank : Message) (defaults : Options) (flags : List Flag) (o : Options)
      → read_options flags defaults ≡ some o
      → is_empty o.filtexpr ≡ true
      → IsSound io
      → read_message io [] ≡ none
      → (p : Text) (ms : List Message) (named : List (Text × List Message)) (cin : Bytes)
      → Hold ((p, ms) ∷ named)
      → main regex_matches scan clk io files blank defaults flags (p ∷ map (λ x. x.0) named) cin
        ≡ printed (flatten (map (print_message clk) (flatten (map (λ x. x.1) ((p, ms) ∷ named)))))
  unfolding main shows
  main-write_all blank defaults flags o reads given sound ends p ms named cin hold =
      rw (reads, given, main)
        (ap printed (
          process_files_lem regex_matches scan clk io files none (λ m. true) (λ m. refl)
            (p ∷ map (λ x. x.0) named) (some cin)
          ∙ ap (print_all clk (λ m. true))
              (messages_of-Hold ((p, ms) ∷ named) (some cin) sound ends hold)
          ∙ print_all-flatten clk (flatten (map (λ x. x.1) ((p, ms) ∷ named)))))
