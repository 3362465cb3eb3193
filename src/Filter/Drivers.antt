-- ===== src/Filter/Drivers.antt =====
-- What a filter that was made means for every message.
use mclog.Base.{
  ◌≡◌, ◌↔◌, ap, sym, ◌∙◌, Text, Bool, true, List, some, [], arith, Option-cases, inl, inr,
}
use mclog.Message.{Message}
use mclog.Filter.{
  Token, Actions, run_parser, evaluate, MessageFilterDriver, parse, new_driver, passes_filter,
}
use mclog.Filter.Trees.{Expression, yield_to, value, IsResolved}
use mclog.Filter.Complete.{run_parser-yield_to}
use mclog.Filter.Sound.{run_parser_sound}

-- The parser accepts exactly the tokens of the trees that the precedences leave, with the value that
-- the actions give the tree.
pub run_parser_iff {ℓ} :
    {A : Type ℓ} (act : Actions A) (ts : List Token) (a : A)
    → (run_parser act ts ≡ some a)
      ↔ ((e : Expression) × IsResolved e × (yield_to e [] ≡ ts) × (value act e ≡ a))
run_parser_iff act ts a = (
  run_parser_sound act ts,
  λ (e, ok, same, is). ap (run_parser act) (sym same) ∙ run_parser-yield_to act e ok ∙ ap some is,
)

module _ (regex_matches : Text → Text → Bool) (scan : Text → List Token) where
  -- A driver that was made has a tree of the precedences, with the tokens of its text; and `parse`
  -- of any message succeeds, leaves the driver as it is, and gives the tree's value; and
  -- a sender with the driver passes the message exactly where that is true.
  pub parse-new_driver :
      (blank : Message) (expr : Text) {d : MessageFilterDriver regex_matches}
      → new_driver regex_matches scan blank expr ≡ some d
      → (e : Expression) × IsResolved e
        × (yield_to e [] ≡ scan expr)
        × ((m : Message)
            → let passes = value (evaluate regex_matches m) e in
              (parse regex_matches scan m d ≡ (true, passes, d))
              × (passes_filter regex_matches scan m (some d) ≡ (passes, some d)))
  unfolding new_driver parse passes_filter
  parse-new_driver blank expr {d = d} h =
      elim (Option-cases (run_parser (evaluate regex_matches blank) (scan expr))) [
        | inl fails ↦ absurd (ground (arith, fails))
        | inr (b, parses) ↦
            let (e, ok, same, is) =
              run_parser_sound (evaluate regex_matches blank) (scan expr) parses in
            let made : d ≡ record { expr = expr; tokens = scan expr; tokenized = true } =
              ground (arith, parses) in
            let reads = λ (m : Message).
              ap (run_parser (evaluate regex_matches m)) (sym same)
              ∙ run_parser-yield_to (evaluate regex_matches m) e ok in
            (e, ok, same, λ m. (ground (arith, made, reads m), ground (arith, made, reads m)))
      ]
