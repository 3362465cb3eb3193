-- ===== src/Severity.antt =====
-- DwmMclogSeverity.hh and DwmMclogSeverity.cc: message severities, their names and their text form.
-- A severity is a `uint8_t`, and one read from a packet can be any byte; the named ones have the
-- values of <syslog.h>, so a smaller number is more severe.
pub mod Names
use mclog.Base.{ℕ, Text, codes, List, [], ◌∷◌, Option, none, some, find_first, find_second, ◌>>=◌}
use mclog.Stream.{read_word}

abbrev pub Severity : Type 0
Severity = ℕ

abbrev pub emerg : Severity
emerg = 0

abbrev pub alert : Severity
alert = 1

abbrev pub crit : Severity
crit = 2

abbrev pub err : Severity
err = 3

abbrev pub warning : Severity
warning = 4

abbrev pub notice : Severity
notice = 5

abbrev pub info : Severity
info = 6

abbrev pub debug : Severity
debug = 7

abbrev pub g_severity_names : List (ℕ × Text)
g_severity_names =
    (emerg, codes "emerg")
    ∷ (alert, codes "alert")
    ∷ (crit, codes "crit")
    ∷ (err, codes "err")
    ∷ (warning, codes "warning")
    ∷ (notice, codes "notice")
    ∷ (info, codes "info")
    ∷ (debug, codes "debug")
    ∷ []

-- The marks in the text form of a message, in both `operator <<` and `operator >>`.
abbrev pub severities : List (ℕ × Text)
severities =
    (emerg, codes "[M]")
    ∷ (alert, codes "[A]")
    ∷ (crit, codes "[C]")
    ∷ (err, codes "[E]")
    ∷ (warning, codes "[W]")
    ∷ (notice, codes "[N]")
    ∷ (info, codes "[I]")
    ∷ (debug, codes "[D]")
    ∷ []

-- `SeverityName`
unfoldable pub severity_name : Severity → Text
severity_name s = elim (find_first s g_severity_names) [ none ↦ [] | some t ↦ t ]

-- `SeverityValue`
unfoldable pub severity_value : Text → Severity
severity_value t = elim (find_second t g_severity_names) [ none ↦ emerg | some s ↦ s ]

-- `operator <<`
unfoldable pub print_severity : Severity → Text
print_severity s = elim (find_first s severities) [ none ↦ codes "[U]" | some t ↦ t ]

-- `operator >>`: a word that is no mark sets the failbit.
unfoldable pub parse_severity : Text → Option (Severity × Text)
parse_severity is = do
  (t, rest) ← read_word is
  elim (find_second t severities) [ none ↦ none | some s ↦ some (s, rest) ]
