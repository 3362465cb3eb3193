-- ===== src/Filter.antt =====
-- DwmMclogMessageFilterParse.y and DwmMclogMessageFilterDriver.{hh,cc}: the filter language. The
-- parser is the one that the grammar and its precedences describe: a stack of what is pending, and
-- at each operator or closing parenthesis first the reductions that bind at least as tightly. The
-- scanner that Flex generates and boost's regular expressions are parameters.
pub mod Trees
pub mod Complete
pub mod Sound
pub mod Drivers
use mclog.Base.{
  ℕ, Text, text_eq, Bool, true, false, ◌&&◌, ◌||◌, not, List, [], ◌∷◌, Option, none, some, ◌==◌,
  ltb, leb, if◌then◌else◌,
}
use mclog.Message.{Message}

pub data Comparison : Type 0 where
  equal noteq less lessoreq greater greateroreq : Comparison

-- The fields that are compared with a text: HOST, IDENT and MSG.
pub data TextField : Type 0 where
  host ident msg : TextField

-- `MessageFilterParser::symbol_type`; a regular expression is its text.
pub data Token : Type 0 where
  and_op or_op not_op lparen rparen quote slash yyerror : Token
  severity facility pid : Token
  text_field : TextField → Token
  comparison : Comparison → Token
  sevvalue facvalue uint32 : ℕ → Token
  string regex : Text → Token

-- `QuotedString` and `Regex`
pub data Pattern : Type 0 where
  quoted matching : Text → Pattern

-- The productions of `Expression` that hold no `Expression`: EQUAL or NOTEQ for a text.
pub data Test : Type 0 where
  of_severity of_facility of_pid : Comparison → ℕ → Test
  of_text : TextField → Bool → Pattern → Test

-- The actions of the productions of `Expression`.
pub record Actions {ℓ} (A : Type ℓ) : Type ℓ where
  pub test : Test → A
  pub negate : A → A
  pub either : A → A → A
  pub both : A → A → A
  pub group : A → A

-- What stands to the left of an operand and waits for it.
pub data Frame {ℓ} (A : Type ℓ) : Type ℓ where
  opened negating : Frame A
  or_left and_left : A → Frame A

module _ {ℓ} {A : Type ℓ} (act : Actions A) where
  -- The reductions of rules that bind more tightly than OR, or are OR's own: OR is `%left`.
  unfoldable pub reduce_or : A → List (Frame A) → A × List (Frame A)
  reduce_or e [] = (e, [])
  reduce_or e (opened ∷ s) = (e, opened ∷ s)
  reduce_or e (negating ∷ s) = reduce_or (act.negate e) s
  reduce_or e (and_left l ∷ s) = reduce_or (act.both l e) s
  reduce_or e (or_left l ∷ s) = reduce_or (act.either l e) s

  -- The same for AND.
  unfoldable pub reduce_and : A → List (Frame A) → A × List (Frame A)
  reduce_and e [] = (e, [])
  reduce_and e (opened ∷ s) = (e, opened ∷ s)
  reduce_and e (negating ∷ s) = reduce_and (act.negate e) s
  reduce_and e (and_left l ∷ s) = reduce_and (act.both l e) s
  reduce_and e (or_left l ∷ s) = (e, or_left l ∷ s)

  abbrev pub finish : A × List (Frame A) → Option A
  finish (e, []) = some e
  finish (e, f ∷ s) = none

  -- What follows a closing parenthesis, where one was opened.
  abbrev pub close : (A → List (Frame A) → Option A) → A × List (Frame A) → Option A
  close after (e, opened ∷ s) = after (act.group e) s
  close after (e, _) = none

  -- Before an operand, and after one.
  unfoldable mutual
    pub operand : List (Frame A) → List Token → Option A
    operand s (not_op ∷ ts) = operand (negating ∷ s) ts
    operand s (lparen ∷ ts) = operand (opened ∷ s) ts
    operand s (severity ∷ comparison c ∷ sevvalue v ∷ ts) =
        operator (act.test (of_severity c v)) s ts
    operand s (facility ∷ comparison c ∷ facvalue v ∷ ts) =
        operator (act.test (of_facility c v)) s ts
    operand s (pid ∷ comparison c ∷ uint32 v ∷ ts) = operator (act.test (of_pid c v)) s ts
    operand s (text_field f ∷ comparison equal ∷ quote ∷ string t ∷ quote ∷ ts) =
        operator (act.test (of_text f true (quoted t))) s ts
    operand s (text_field f ∷ comparison noteq ∷ quote ∷ string t ∷ quote ∷ ts) =
        operator (act.test (of_text f false (quoted t))) s ts
    operand s (text_field f ∷ comparison equal ∷ slash ∷ regex r ∷ slash ∷ ts) =
        operator (act.test (of_text f true (matching r))) s ts
    operand s (text_field f ∷ comparison noteq ∷ slash ∷ regex r ∷ slash ∷ ts) =
        operator (act.test (of_text f false (matching r))) s ts
    operand s _ = none

    pub operator : A → List (Frame A) → List Token → Option A
    operator e s [] = finish (reduce_or e s)
    operator e s (or_op ∷ ts) = let (e1, s1) = reduce_or e s in operand (or_left e1 ∷ s1) ts
    operator e s (and_op ∷ ts) = let (e1, s1) = reduce_and e s in operand (and_left e1 ∷ s1) ts
    operator e s (rparen ∷ ts) = close (λ e1 s1. operator e1 s1 ts) (reduce_or e s)
    operator e s _ = none

  unfoldable pub run_parser : List Token → Option A
  run_parser ts = operand [] ts

abbrev pub compares : Comparison → ℕ → ℕ → Bool
compares equal a b = a == b
compares noteq a b = not (a == b)
compares less a b = ltb a b
compares lessoreq a b = leb a b
compares greater a b = ltb b a
compares greateroreq a b = leb b a

abbrev pub text_of : TextField → Message → Text
text_of host m = m.header.origin.hostname
text_of ident m = m.header.origin.appname
text_of msg m = m.message

-- `regex_matches t r` is boost's `regex_match` of `t` with `r`.
module _ (regex_matches : Text → Text → Bool) where
  abbrev pub matches_pattern : Text → Pattern → Bool
  matches_pattern t (quoted u) = text_eq t u
  matches_pattern t (matching r) = regex_matches t r

  -- The more severe of two severities has the smaller value.
  unfoldable pub test_holds : Message → Test → Bool
  test_holds m (of_severity c v) = compares c v m.header.severity
  test_holds m (of_facility c v) = compares c m.header.facility v
  test_holds m (of_pid c v) = compares c m.header.origin.procid v
  test_holds m (of_text f true p) = matches_pattern (text_of f m) p
  test_holds m (of_text f false p) = not (matches_pattern (text_of f m) p)

  unfoldable pub evaluate : Message → Actions Bool
  evaluate m = record {
    test = test_holds m;
    negate = not;
    either = ◌||◌;
    both = ◌&&◌;
    group = λ b. b;
  }

  pub record MessageFilterDriver : Type 0 where
    pub expr : Text
    pub tokens : List Token
    pub tokenized : Bool

  module _ (scan : Text → List Token) where
    -- `parse`: whether the expression is a filter, and `result`.
    unfoldable pub parse : Message → MessageFilterDriver → Bool × Bool × MessageFilterDriver
    parse m d =
        let d1 = if d.tokenized then d else record d { tokens = scan d.expr; tokenized = true } in
        elim (run_parser (evaluate m) d1.tokens) [
          | none ↦ (false, false, d1)
          | some b ↦ (true, b, d1)
        ]

    -- The constructor, with the message that `is_valid` makes; `none` is `std::invalid_argument`.
    unfoldable pub new_driver : Message → Text → Option MessageFilterDriver
    new_driver blank expr =
        let (valid, result, d) =
          parse blank (record { expr = expr; tokens = []; tokenized = false }) in
        if valid then some d else none

    -- `MulticastSender::PassesFilter`
    unfoldable pub passes_filter :
        Message → Option MessageFilterDriver → Bool × Option MessageFilterDriver
    passes_filter m none = (true, none)
    passes_filter m (some d) =
        let (valid, result, d1) = parse m d in (if valid then result else false, some d1)
