-- ===== src/Filter/Sound.antt =====
-- What the parser of filters accepts is a tree that the precedences leave.
use mclog.Base.{ℕ, ◌≤◌, ◌≡◌, refl, subst, true, false, List, [], ◌∷◌, some, arith}
use mclog.Filter.{
  Token, Actions, Frame, and_op, or_op, not_op, lparen, rparen, quote, slash, severity, facility,
  pid, text_field, comparison, sevvalue, facvalue, uint32, string, regex, quoted, matching, equal,
  noteq, of_severity, of_facility, of_pid, of_text, opened, negating, or_left, and_left, reduce_or,
  reduce_and, finish, close, operand, operator, run_parser,
}
use mclog.Filter.Trees.{
  Expression, test, negate, group, either, both, yield_to, value, level, IsResolved, Fits,
}

-- The trees that are pending, and the tokens that they stand for, before others.
abbrev values {ℓ} : {A : Type ℓ} → Actions A → List (Frame Expression) → List (Frame A)
values act [] = []
values act (opened ∷ s) = opened ∷ values act s
values act (negating ∷ s) = negating ∷ values act s
values act (or_left l ∷ s) = or_left (value act l) ∷ values act s
values act (and_left l ∷ s) = and_left (value act l) ∷ values act s

abbrev shown : List (Frame Expression) → List Token → List Token
shown [] ts = ts
shown (opened ∷ s) ts = shown s (lparen ∷ ts)
shown (negating ∷ s) ts = shown s (not_op ∷ ts)
shown (or_left l ∷ s) ts = shown s (yield_to l (or_op ∷ ts))
shown (and_left l ∷ s) ts = shown s (yield_to l (and_op ∷ ts))

abbrev IsStack : List (Frame Expression) → Type 0
IsStack [] = Unit
IsStack (opened ∷ s) = IsStack s
IsStack (negating ∷ s) = IsStack s
IsStack (or_left l ∷ s) = IsResolved l × Fits 0 s × IsStack s
IsStack (and_left l ∷ s) = IsResolved l × (1 ≤ level l) × Fits 1 s × IsStack s

Fits-all : (s : List (Frame Expression)) → Fits 2 s
Fits-all [] = tt
Fits-all (opened ∷ s) = tt
Fits-all (_ ∷ s) = omega arith

Fits-le : (s : List (Frame Expression)) (n : ℕ) → 2 ≤ n → Fits n s
Fits-le [] n h = tt
Fits-le (opened ∷ s) n h = tt
Fits-le (_ ∷ s) n h = omega arith

module _ {ℓ} {A : Type ℓ} (act : Actions A) where
  -- A tree with these tokens and this value.
  abbrev Found : List Token → A → Type ℓ
  Found us a = (e : Expression) × IsResolved e × (yield_to e [] ≡ us) × (value act e ≡ a)

  -- The reductions that end in `p` are those of trees.
  abbrev Reduced : ℕ → Expression → List (Frame Expression) → A × List (Frame A) → Type ℓ
  Reduced n e s p =
      (e' : Expression) × (s' : List (Frame Expression)) × (p ≡ (value act e', values act s'))
      × IsResolved e'
      × IsStack s'
      × Fits n s'
      × (n ≤ level e')
      × ((ts : List Token) → shown s' (yield_to e' ts) ≡ shown s (yield_to e ts))

  reduce_or_sound :
      (e : Expression) (s : List (Frame Expression))
      → IsResolved e
      → IsStack s
      → Fits (level e) s
      → Reduced 0 e s (reduce_or act (value act e) (values act s))
  unfolding reduce_or
  reduce_or_sound e [] ok st fits = (e, [], refl, ok, tt, tt, omega arith, λ ts. refl)
  reduce_or_sound e (opened ∷ s) ok st fits =
      (e, opened ∷ s, refl, ok, st, tt, omega arith, λ ts. refl)
  reduce_or_sound e (negating ∷ s) ok st fits =
      reduce_or_sound (negate e) s (ok, fits) st (Fits-all s)
  reduce_or_sound e (and_left l ∷ s) ok st fits =
      reduce_or_sound (both l e) s (st.0, ok, st.1, fits) st.3 st.2
  reduce_or_sound e (or_left l ∷ s) ok st fits =
      reduce_or_sound (either l e) s (st.0, ok, fits) st.2 st.1

  reduce_and_sound :
      (e : Expression) (s : List (Frame Expression))
      → IsResolved e
      → IsStack s
      → Fits (level e) s
      → 1 ≤ level e
      → Reduced 1 e s (reduce_and act (value act e) (values act s))
  unfolding reduce_and
  reduce_and_sound e [] ok st fits high = (e, [], refl, ok, tt, tt, high, λ ts. refl)
  reduce_and_sound e (opened ∷ s) ok st fits high =
      (e, opened ∷ s, refl, ok, st, tt, high, λ ts. refl)
  reduce_and_sound e (negating ∷ s) ok st fits high =
      reduce_and_sound (negate e) s (ok, fits) st (Fits-all s) (omega arith)
  reduce_and_sound e (and_left l ∷ s) ok st fits high =
      reduce_and_sound (both l e) s (st.0, ok, st.1, fits) st.3 st.2 (omega arith)
  reduce_and_sound e (or_left l ∷ s) ok st fits high =
      (e, or_left l ∷ s, refl, ok, st, omega arith, high, λ ts. refl)

  finish_sound :
      (e : Expression) (s : List (Frame Expression)) {a : A}
      → IsResolved e
      → finish act (value act e, values act s) ≡ some a
      → Found (shown s (yield_to e [])) a
  finish_sound e [] ok h = (e, ok, refl, cc)
  finish_sound e (opened ∷ s) ok h = absurd cc
  finish_sound e (negating ∷ s) ok h = absurd cc
  finish_sound e (or_left l ∷ s) ok h = absurd cc
  finish_sound e (and_left l ∷ s) ok h = absurd cc

  -- What holds after an operand that is one production.
  abbrev Continues : List Token → Type ℓ
  Continues ts =
      (e : Expression) (s : List (Frame Expression)) (a : A)
      → IsResolved e
      → 2 ≤ level e
      → IsStack s
      → operator act (value act e) (values act s) ts ≡ some a
      → Found (shown s (yield_to e ts)) a

  close_sound :
      (ts : List Token)
      → Continues ts
      → (e : Expression) (s : List (Frame Expression)) {a : A} → IsResolved e
      → IsStack s
      → Fits 0 s
      → close act (λ e1 s1. operator act e1 s1 ts) (value act e, values act s) ≡ some a
      → Found (shown s (yield_to e (rparen ∷ ts))) a
  close_sound ts after e [] ok st fits h = absurd cc
  close_sound ts after e (opened ∷ s) ok st fits h = after (group e) s _ ok (omega arith) st h
  close_sound ts after e (_ ∷ s) ok st fits h = absurd (omega arith)

  mutual
    unfolding operand operator

    operand_sound :
        (s : List (Frame Expression)) (ts : List Token) {a : A}
        → IsStack s
        → operand act (values act s) ts ≡ some a
        → Found (shown s ts) a
    operand_sound s (not_op ∷ ts) st h = operand_sound (negating ∷ s) ts st h
    operand_sound s (lparen ∷ ts) st h = operand_sound (opened ∷ s) ts st h
    operand_sound s (severity ∷ comparison c ∷ sevvalue v ∷ ts) st h =
        operator_sound ts (test (of_severity c v)) s _ tt (omega arith) st h
    operand_sound s (facility ∷ comparison c ∷ facvalue v ∷ ts) st h =
        operator_sound ts (test (of_facility c v)) s _ tt (omega arith) st h
    operand_sound s (pid ∷ comparison c ∷ uint32 v ∷ ts) st h =
        operator_sound ts (test (of_pid c v)) s _ tt (omega arith) st h
    operand_sound s (text_field f ∷ comparison equal ∷ quote ∷ string t ∷ quote ∷ ts) st h =
        operator_sound ts (test (of_text f true (quoted t))) s _ tt (omega arith) st h
    operand_sound s (text_field f ∷ comparison noteq ∷ quote ∷ string t ∷ quote ∷ ts) st h =
        operator_sound ts (test (of_text f false (quoted t))) s _ tt (omega arith) st h
    operand_sound s (text_field f ∷ comparison equal ∷ slash ∷ regex r ∷ slash ∷ ts) st h =
        operator_sound ts (test (of_text f true (matching r))) s _ tt (omega arith) st h
    operand_sound s (text_field f ∷ comparison noteq ∷ slash ∷ regex r ∷ slash ∷ ts) st h =
        operator_sound ts (test (of_text f false (matching r))) s _ tt (omega arith) st h
    operand_sound s _ st h = absurd (cc)

    operator_sound :
        (ts : List Token) (e : Expression) (s : List (Frame Expression)) (a : A)
        → IsResolved e
        → 2 ≤ level e
        → IsStack s
        → operator act (value act e) (values act s) ts ≡ some a
        → Found (shown s (yield_to e ts)) a
    operator_sound [] e s a ok high st h =
        let (e', s', eq, ok', st', fits, low, same) =
          reduce_or_sound e s ok st (Fits-le s (level e) high) in
        let found = finish_sound e' s' ok' (rw eq at h) in subst (λ us. Found us a) (same []) found
    operator_sound (or_op ∷ ts) e s a ok high st h =
        let (e', s', eq, ok', st', fits, low, same) =
          reduce_or_sound e s ok st (Fits-le s (level e) high) in
        let found = operand_sound (or_left e' ∷ s') ts (ok', fits, st') (rw eq at h) in
        subst (λ us. Found us a) (same (or_op ∷ ts)) found
    operator_sound (and_op ∷ ts) e s a ok high st h =
        let (e', s', eq, ok', st', fits, low, same) =
          reduce_and_sound e s ok st (Fits-le s (level e) high) (omega arith) in
        let found = operand_sound (and_left e' ∷ s') ts (ok', low, fits, st') (rw eq at h) in
        subst (λ us. Found us a) (same (and_op ∷ ts)) found
    operator_sound (rparen ∷ ts) e s a ok high st h =
        let (e', s', eq, ok', st', fits, low, same) =
          reduce_or_sound e s ok st (Fits-le s (level e) high) in
        let found = close_sound ts (operator_sound ts) e' s' ok' st' fits (rw eq at h) in
        subst (λ us. Found us a) (same (rparen ∷ ts)) found
    operator_sound (_ ∷ ts) e s a ok high st h = absurd (cc)

  -- What is read is a tree that the precedences leave, and the result is its value.
  pub run_parser_sound : (ts : List Token) {a : A} → run_parser act ts ≡ some a → Found ts a
  unfolding run_parser
  run_parser_sound ts h = operand_sound [] ts tt h
