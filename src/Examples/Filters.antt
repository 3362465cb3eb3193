-- ===== src/Examples/Filters.antt =====
-- Runs of filters, where the scanner knows one text and a regular expression matches itself.
use mclog.Base.{◌≡◌, refl, Text, text_eq, true, List, [], ◌∷◌, some, if◌then◌else◌, arith, codes}
use mclog.Message.{Message}
use mclog.Severity.{err}
use mclog.Filter
use mclog.Filter.{
  Token, evaluate, run_parser, MessageFilterDriver, parse, new_driver, passes_filter, operand,
  operator, reduce_or, reduce_and, test_holds,
}
use mclog.Filter.Trees.{Expression, yield_to, value, IsResolved}
use mclog.Filter.Drivers.{run_parser_iff, parse-new_driver}
use mclog.Examples.{hello}

-- ! severity < err && pid = 7 || ident = /a/
abbrev pub three : List Token
three =
    Filter.not_op
    ∷ Filter.severity
    ∷ Filter.comparison Filter.less
    ∷ Filter.sevvalue err
    ∷ Filter.and_op
    ∷ Filter.pid
    ∷ Filter.comparison Filter.equal
    ∷ Filter.uint32 7
    ∷ Filter.or_op
    ∷ Filter.text_field Filter.ident
    ∷ Filter.comparison Filter.equal
    ∷ Filter.slash
    ∷ Filter.regex (codes "a")
    ∷ Filter.slash
    ∷ []

abbrev tree : Expression
tree =
    Expression.either
      (Expression.both (Expression.negate (Expression.test (Filter.of_severity Filter.less err)))
        (Expression.test (Filter.of_pid Filter.equal 7)))
      (Expression.test (Filter.of_text Filter.ident true (Filter.matching (codes "a"))))

run_parser_iff_example :
    run_parser (evaluate text_eq hello) three ≡ some (value (evaluate text_eq hello) tree)
run_parser_iff_example =
    (run_parser_iff (evaluate text_eq hello) three (value (evaluate text_eq hello) tree)).1
      (tree, omega arith, refl, refl)

abbrev pub scan : Text → List Token
scan t = if text_eq t (codes "x") then three else []

abbrev driver : MessageFilterDriver text_eq
driver = record { expr = codes "x"; tokens = three; tokenized = true }

pub made : new_driver text_eq scan hello (codes "x") ≡ some driver
unfolding new_driver parse run_parser operand operator reduce_or reduce_and evaluate test_holds
made = refl

parse-new_driver_example :
    (e : Expression) × IsResolved e
    × (yield_to e [] ≡ three)
    × ((m : Message)
        → (parse text_eq scan m driver ≡ (true, value (evaluate text_eq m) e, driver))
          × (passes_filter text_eq scan m (some driver)
              ≡ (value (evaluate text_eq m) e, some driver)))
parse-new_driver_example = parse-new_driver text_eq scan hello (codes "x") made
