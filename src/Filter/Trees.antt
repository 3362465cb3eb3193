-- ===== src/Filter/Trees.antt =====
-- The trees of the filter grammar, and which of them the precedences leave.
use mclog.Base.{ℕ, ◌≤◌, true, false, List, [], ◌∷◌}
use mclog.Filter.{
  Token, Test, Pattern, Actions, Frame, and_op, or_op, not_op, lparen, rparen, quote, slash,
  severity, facility, pid, text_field, comparison, sevvalue, facvalue, uint32, string, regex,
  quoted, matching, equal, noteq, of_severity, of_facility, of_pid, of_text, opened, negating,
  or_left, and_left,
}

-- The productions of `Expression`.
pub data Expression : Type 0 where
  test : Test → Expression
  negate group : Expression → Expression
  either both : Expression → Expression → Expression

abbrev pub of_pattern : Pattern → List Token → List Token
of_pattern (quoted t) ts = quote ∷ string t ∷ quote ∷ ts
of_pattern (matching r) ts = slash ∷ regex r ∷ slash ∷ ts

-- The tokens of a tree, before others.
abbrev pub test_tokens : Test → List Token → List Token
test_tokens (of_severity c v) ts = severity ∷ comparison c ∷ sevvalue v ∷ ts
test_tokens (of_facility c v) ts = facility ∷ comparison c ∷ facvalue v ∷ ts
test_tokens (of_pid c v) ts = pid ∷ comparison c ∷ uint32 v ∷ ts
test_tokens (of_text f true p) ts = text_field f ∷ comparison equal ∷ of_pattern p ts
test_tokens (of_text f false p) ts = text_field f ∷ comparison noteq ∷ of_pattern p ts

abbrev pub yield_to : Expression → List Token → List Token
yield_to (test t) ts = test_tokens t ts
yield_to (negate e) ts = not_op ∷ yield_to e ts
yield_to (group e) ts = lparen ∷ yield_to e (rparen ∷ ts)
yield_to (either l r) ts = yield_to l (or_op ∷ yield_to r ts)
yield_to (both l r) ts = yield_to l (and_op ∷ yield_to r ts)

-- The value of a tree, by the actions of its productions.
abbrev pub value {ℓ} : {A : Type ℓ} → Actions A → Expression → A
value act (test t) = act.test t
value act (negate e) = act.negate (value act e)
value act (group e) = act.group (value act e)
value act (either l r) = act.either (value act l) (value act r)
value act (both l r) = act.both (value act l) (value act r)

-- How tightly a tree's production binds: OR, AND, and all else.
abbrev pub level : Expression → ℕ
level (either l r) = 0
level (both l r) = 1
level e = 2

-- What `%left OR`, `%left AND` and `%left NOT`, in this order, leave: OR and AND group to the left,
-- AND binds more tightly than OR, and NOT more tightly than both.
abbrev pub IsResolved : Expression → Type 0
IsResolved (test t) = Unit
IsResolved (negate e) = IsResolved e × (2 ≤ level e)
IsResolved (group e) = IsResolved e
IsResolved (either l r) = IsResolved l × IsResolved r × (1 ≤ level r)
IsResolved (both l r) = IsResolved l × IsResolved r × (1 ≤ level l) × (2 ≤ level r)

-- An operand of a level may stand above these frames with none of them reduced before it ends.
abbrev pub Fits {ℓ} : {A : Type ℓ} → ℕ → List (Frame A) → Type 0
Fits n [] = Unit
Fits n (opened ∷ s) = Unit
Fits n (or_left l ∷ s) = 1 ≤ n
Fits n (negating ∷ s) = 2 ≤ n
Fits n (and_left l ∷ s) = 2 ≤ n
