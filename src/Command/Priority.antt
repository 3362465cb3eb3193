-- ===== src/Command/Priority.antt =====
-- The priorities that mclogger accepts.
use mclog.Base.{
  ℕ, ◌<◌, ◌≡◌, ◌≢◌, ◌⊎◌, inl, inr, refl, sym, ap, ◌∙◌, Text, text_eq, text_eq→eq, Bool, true, false,
  ◌&&◌, ◌||◌, not, ◌==◌, ltb, ltb→lt, List, [], ◌∷◌, ◌++◌, none, some, holds_below,
  holds_below→holds, arith, Bool-cases, Option-cases, >>=-eq-some, if-eq-some,
}
use mclog.Facility
use mclog.Facility.{Facility, facility_name, facility_value}
use mclog.Facility.Names.{is_named}
use mclog.Severity
use mclog.Severity.{Severity, severity_name, severity_value}
use mclog.Command.{
  split_dot, one_of, facility_words, severity_words, match_priority, get_priority_info,
}

abbrev no_dot : Text → Bool
no_dot [] = true
no_dot (c ∷ s) = not (c == 46) && no_dot s

split_dot-append : (a b : Text) → no_dot a ≡ true → split_dot (a ++ 46 ∷ b) ≡ some (a, b)
unfolding split_dot
split_dot-append [] b h = refl
split_dot-append (c ∷ a) b h =
    let plain : (c == 46) ≡ false = ground arith in
    rw (plain, split_dot-append a b (ground arith)) refl

split_dot_lem : (p : Text) {a b : Text} → split_dot p ≡ some (a, b) → p ≡ a ++ 46 ∷ b
unfolding split_dot
split_dot_lem [] h = cc
split_dot_lem (c ∷ p) h = elim (Bool-cases (c == 46)) [
  | inl dot ↦ ground (arith, dot)
  | inr plain ↦ elim (Option-cases (split_dot p)) [
    | inl fails ↦ absurd (ground (arith, plain, fails))
    | inr ((s, t), splits) ↦ ground (arith, plain, splits, split_dot_lem p splits)
  ]
]

-- The words that a test accepts, tested one by one.
abbrev all_words : (Text → Bool) → List Text → Bool
all_words ok [] = true
all_words ok (t ∷ ts) = ok t && all_words ok ts

all_words→one :
    (ok : Text → Bool) (s : Text) (ts : List Text)
    → all_words ok ts ≡ true
    → one_of s ts ≡ true
    → ok s ≡ true
all_words→one ok s [] h k = cc
all_words→one ok s (t ∷ ts) h k = elim (Bool-cases (text_eq s t)) [
  | inl same ↦ rw (text_eq→eq s t same) (ground arith)
  | inr other ↦ all_words→one ok s ts (ground arith) (ground arith)
]

-- A facility with a name and one of the eight severities.
abbrev pub IsPriority : Facility → Severity → Type 0
IsPriority f s = (f < 256) × (is_named f ≡ true) × (s < 8)

abbrev pub print_priority : Facility → Severity → Text
print_priority f s = facility_name f ++ 46 ∷ severity_name s

abbrev named_facility : ℕ → Bool
named_facility f =
    not (is_named f)
    || (no_dot (facility_name f)
        && (one_of (facility_name f) facility_words && facility_value (facility_name f) == f))

facilities_table : holds_below named_facility 256 ≡ true
unfolding holds_below facility_name facility_value
facilities_table = refl

abbrev named_severity : ℕ → Bool
named_severity s = one_of (severity_name s) severity_words && severity_value (severity_name s) == s

severities_table : holds_below named_severity 8 ≡ true
unfolding holds_below severity_name severity_value
severities_table = refl

abbrev is_facility_word : Text → Bool
is_facility_word a =
    text_eq a (facility_name (facility_value a))
    && (ltb (facility_value a) 256 && is_named (facility_value a))

facility_words_table : all_words is_facility_word facility_words ≡ true
unfolding facility_name facility_value
facility_words_table = refl

abbrev is_severity_word : Text → Bool
is_severity_word b = text_eq b (severity_name (severity_value b)) && ltb (severity_value b) 8

severity_words_table : all_words is_severity_word severity_words ≡ true
unfolding severity_name severity_value
severity_words_table = refl

match_priority-print_priority :
    (f : Facility) (s : Severity)
    → IsPriority f s
    → match_priority (print_priority f s) ≡ some (facility_name f, severity_name s)
unfolding match_priority
match_priority-print_priority f s (small, named, few) =
    let row : named_facility f ≡ true = holds_below→holds _ 256 f small facilities_table in
    let cell : named_severity s ≡ true = holds_below→holds _ 8 s few severities_table in
    let dotless : no_dot (facility_name f) ≡ true = ground (arith, row, named) in
    let word : one_of (facility_name f) facility_words ≡ true = ground (arith, row, named) in
    let mark : one_of (severity_name s) severity_words ≡ true = ground (arith, cell) in
    rw (split_dot-append (facility_name f) (severity_name s) dotless, word, mark) refl

match_priority_lem :
    (p : Text) {a b : Text}
    → match_priority p ≡ some (a, b)
    → IsPriority (facility_value a) (severity_value b)
      × (p ≡ print_priority (facility_value a) (severity_value b))
unfolding match_priority
match_priority_lem p {a} {b} h =
    let ((s, t), splits, rest) = >>=-eq-some (split_dot p) _ h in
    let (words, same) = if-eq-some (one_of s facility_words && one_of t severity_words) _ rest in
    let left : one_of a facility_words ≡ true = ground (arith, words, same) in
    let right : one_of b severity_words ≡ true = ground (arith, words, same) in
    let f_ok = all_words→one is_facility_word a facility_words facility_words_table left in
    let s_ok = all_words→one is_severity_word b severity_words severity_words_table right in
    let whole : p ≡ a ++ 46 ∷ b = ground (arith, split_dot_lem p splits, same) in
    let first = text_eq→eq a (facility_name (facility_value a)) (ground arith) in
    let second = text_eq→eq b (severity_name (severity_value b)) (ground arith) in
    (
      (ltb→lt _ _ (ground arith), ground arith, ltb→lt _ _ (ground arith)),
      whole
          ∙ ap (λ x. x ++ 46 ∷ b) first
          ∙ ap (λ x. facility_name (facility_value a) ++ 46 ∷ x) second,
    )

none_not_some : {A : Type 0} {x : A} → none ≢ some x
none_not_some h = cc

-- The text of a priority, the name of a facility and that of a severity with a dot between them,
-- stands for that priority; and any other text for user.info.
pub get_priority_info_lem :
    (p : Text)
    → ((f : Facility) × (s : Severity) × IsPriority f s
        × (p ≡ print_priority f s)
        × (get_priority_info p ≡ (f, s)))
      ⊎ (((f : Facility) (s : Severity) → IsPriority f s → p ≢ print_priority f s)
          × (get_priority_info p ≡ (Facility.user, Severity.info)))
unfolding get_priority_info match_priority
get_priority_info_lem p = elim (Option-cases (match_priority p)) [
  | inl fails ↦ inr (
    λ f s ok same.
        absurd (
          none_not_some
            (sym fails ∙ ap match_priority same ∙ match_priority-print_priority f s ok)),
    rw (fails, get_priority_info) refl,
  )
  | inr ((a, b), matches) ↦
      let (ok, same) = match_priority_lem p matches in
      inl (facility_value a, severity_value b, ok, same, rw (matches, get_priority_info) refl)
]
