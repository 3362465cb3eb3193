-- ===== src/Filter/Complete.antt =====
-- The parser of filters accepts every tree that the precedences leave, with its value.
use mclog.Base.{ℕ, ◌≤◌, ◌≡◌, ◌∙◌, refl, ap, true, false, List, [], ◌∷◌, some, arith}
use mclog.Filter.{
  Token, Test, Actions, Frame, and_op, or_op, rparen, quoted, matching, of_severity, of_facility,
  of_pid, of_text, opened, negating, or_left, and_left, reduce_or, reduce_and, operand, operator,
  run_parser,
}
use mclog.Filter.Trees.{
  Expression, test, negate, group, either, both, test_tokens, yield_to, value, level, IsResolved,
  Fits,
}

-- What may follow a tree of a level: an AND would take a part of a tree of OR.
abbrev Follows : ℕ → List Token → Type 0
Follows n (and_op ∷ ts) = 1 ≤ n
Follows n ts = Unit

module _ {ℓ} {A : Type ℓ} (act : Actions A) where
  operand_test :
      (t : Test) (s : List (Frame A)) (ts : List Token)
      → operand act s (test_tokens t ts) ≡ operator act (act.test t) s ts
  unfolding operand operator
  operand_test (of_severity c v) s ts = refl
  operand_test (of_facility c v) s ts = refl
  operand_test (of_pid c v) s ts = refl
  operand_test (of_text f true (quoted t)) s ts = refl
  operand_test (of_text f true (matching r)) s ts = refl
  operand_test (of_text f false (quoted t)) s ts = refl
  operand_test (of_text f false (matching r)) s ts = refl

  -- A frame that binds as tightly as what follows is reduced by it.
  operator_negating :
      (e : A) (s : List (Frame A)) (ts : List Token)
      → operator act e (negating ∷ s) ts ≡ operator act (act.negate e) s ts
  unfolding operand operator reduce_or reduce_and
  operator_negating e s [] = refl
  operator_negating e s (and_op ∷ ts) = refl
  operator_negating e s (or_op ∷ ts) = refl
  operator_negating e s (rparen ∷ ts) = refl
  operator_negating e s (_ ∷ ts) = refl

  operator_and_left :
      (l e : A) (s : List (Frame A)) (ts : List Token)
      → operator act e (and_left l ∷ s) ts ≡ operator act (act.both l e) s ts
  unfolding operand operator reduce_or reduce_and
  operator_and_left l e s [] = refl
  operator_and_left l e s (and_op ∷ ts) = refl
  operator_and_left l e s (or_op ∷ ts) = refl
  operator_and_left l e s (rparen ∷ ts) = refl
  operator_and_left l e s (_ ∷ ts) = refl

  operator_or_left :
      (l e : A) (s : List (Frame A)) (ts : List Token)
      → Follows 0 ts
      → operator act e (or_left l ∷ s) ts ≡ operator act (act.either l e) s ts
  unfolding operand operator reduce_or reduce_and
  operator_or_left l e s [] h = refl
  operator_or_left l e s (and_op ∷ ts) h = absurd (omega arith)
  operator_or_left l e s (or_op ∷ ts) h = refl
  operator_or_left l e s (rparen ∷ ts) h = refl
  operator_or_left l e s (_ ∷ ts) h = refl

  reduce_or_none : (e : A) (s : List (Frame A)) → Fits 0 s → reduce_or act e s ≡ (e, s)
  unfolding reduce_or
  reduce_or_none e [] h = refl
  reduce_or_none e (opened ∷ s) h = refl
  reduce_or_none e (_ ∷ s) h = absurd (omega arith)

  reduce_and_none : (e : A) (s : List (Frame A)) → Fits 1 s → reduce_and act e s ≡ (e, s)
  unfolding reduce_and
  reduce_and_none e [] h = refl
  reduce_and_none e (opened ∷ s) h = refl
  reduce_and_none e (or_left l ∷ s) h = refl
  reduce_and_none e (_ ∷ s) h = absurd (omega arith)

  Fits-le : (s : List (Frame A)) (m n : ℕ) → m ≤ n → Fits m s → Fits n s
  Fits-le [] m n h fits = tt
  Fits-le (opened ∷ s) m n h fits = tt
  Fits-le (_ ∷ s) m n h fits = omega arith

  Follows-le : (ts : List Token) (m n : ℕ) → m ≤ n → Follows m ts → Follows n ts
  Follows-le [] m n h fits = tt
  Follows-le (and_op ∷ ts) m n h fits = omega arith
  Follows-le (_ ∷ ts) m n h fits = tt

  operand_lem :
      (e : Expression) (s : List (Frame A)) (ts : List Token)
      → IsResolved e
      → Fits (level e) s
      → Follows (level e) ts
      → operand act s (yield_to e ts) ≡ operator act (value act e) s ts
  unfolding operand operator reduce_or
  operand_lem (test t) s ts ok fits follows = operand_test t s ts
  operand_lem (negate e) s ts ok fits follows =
      operand_lem e (negating ∷ s) ts ok.0 ok.1 (Follows-le ts 2 (level e) ok.1 follows)
      ∙ operator_negating (value act e) s ts
  operand_lem (group e) s ts ok fits follows = operand_lem e (opened ∷ s) (rparen ∷ ts) ok tt tt
  operand_lem (either l r) s ts ok fits follows =
      operand_lem l s (or_op ∷ yield_to r ts) ok.0 (Fits-le s 0 (level l) (omega arith) fits) tt
      ∙ ap (λ p. operand act (or_left p.0 ∷ p.1) (yield_to r ts))
          (reduce_or_none (value act l) s fits)
      ∙ operand_lem r (or_left (value act l) ∷ s) ts ok.1 ok.2
          (Follows-le ts 0 (level r) (omega arith) follows)
      ∙ operator_or_left (value act l) (value act r) s ts follows
  operand_lem (both l r) s ts ok fits follows =
      operand_lem l s (and_op ∷ yield_to r ts) ok.0 (Fits-le s 1 (level l) ok.2 fits) ok.2
      ∙ ap (λ p. operand act (and_left p.0 ∷ p.1) (yield_to r ts))
          (reduce_and_none (value act l) s fits)
      ∙ operand_lem r (and_left (value act l) ∷ s) ts ok.1 ok.3
          (Follows-le ts 1 (level r) (omega (arith, ok.3)) follows)
      ∙ operator_and_left (value act l) (value act r) s ts

  -- A tree that the precedences leave is read, and its value is the result.
  pub run_parser-yield_to :
      (e : Expression) → IsResolved e → run_parser act (yield_to e []) ≡ some (value act e)
  unfolding run_parser operator reduce_or
  run_parser-yield_to e ok = operand_lem e [] [] ok tt tt
