-- ===== src/Severity/Names.antt =====
-- Names, marks and values of severities.
use mclog.Base.{
  find_second, leb, ◌&&◌, ℕ, ◌<◌, ◌≡◌, refl, Bool, true, ◌∷◌, ◌++◌, Text, none, some, ◌==◌, ltb,
  holds_below, holds_below→holds, ==_iff, if◌then◌else◌, arith,
}
use mclog.Severity.{
  Severity, emerg, severity_name, severity_value, print_severity, parse_severity, severities,
}
use mclog.Stream.{is_space}
use mclog.Stream.Words.{is_word, read_word-append}

names_table :
    holds_below (λ s. severity_value (severity_name s) == (if ltb s 8 then s else emerg)) 256 ≡ true
unfolding holds_below severity_name severity_value
names_table = refl

-- For every byte: the name of one of the eight severities stands for it, and any other byte has a
-- name that reads back as `emerg`.
pub severity_value-severity_name :
    (s : Severity) → s < 256 → severity_value (severity_name s) ≡ (if ltb s 8 then s else emerg)
severity_value-severity_name s h = (==_iff _ _).0 (holds_below→holds _ 256 s h names_table)

abbrev reads_back : Severity → Bool
reads_back s = elim (find_second (print_severity s) severities) [
  | none ↦ leb 8 s
  | some t ↦ ltb s 8 && t == s
]

marks_table : holds_below (λ s. is_word (print_severity s) && reads_back s) 256 ≡ true
unfolding holds_below print_severity is_word is_space
marks_table = refl

find_second-print_severity :
    (s : Severity)
    → reads_back s ≡ true
    → find_second (print_severity s) severities ≡ (if ltb s 8 then some s else none)
find_second-print_severity s h = ground arith

-- For every byte, before any space: the mark of a severity is read back as that severity, and the
-- mark that every other byte prints is refused.
pub parse_severity-print_severity :
    (s : Severity) (c : ℕ) (rest : Text)
    → s < 256
    → is_space c ≡ true
    → parse_severity (print_severity s ++ c ∷ rest) ≡ (if ltb s 8 then some (s, c ∷ rest) else none)
unfolding parse_severity
parse_severity-print_severity s c rest h e =
    let ok = holds_below→holds _ 256 s h marks_table in
    ground (arith, ok, read_word-append (print_severity s) c rest, find_second-print_severity s)
