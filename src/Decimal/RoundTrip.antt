-- ===== src/Decimal/RoundTrip.antt =====
-- A number that is printed reads back.
use mclog.Base.{
  ℕ, zero, suc, ◌+◌, ◌-◌, ◌*◌, ◌/◌, ◌%◌, ◌^◌, ◌≡◌, ◌≤◌, ◌<◌, ◌∙◌, refl, ap, Bool, true, false, ◌&&◌,
  Text, [], ◌∷◌, ◌++◌, some, ltb, ◌==◌, length, arith, Bool-cases, inl, inr, length-append,
  length-replicate, replicate,
}
use mclog.Stream.{is_space, skip_space}
use mclog.Decimal.{
  is_digit, print_digits, print_unsigned, print_padded, read_digits, read_unsigned, stoul,
}

abbrev pub all_digits : Text → Bool
all_digits [] = true
all_digits (c ∷ s) = is_digit c && all_digits s

all_digits-append :
    (s t : Text) → all_digits s ≡ true → all_digits t ≡ true → all_digits (s ++ t) ≡ true
all_digits-append [] t h k = k
all_digits-append (c ∷ s) t h k = ground (arith, all_digits-append s t)

read_digits-append :
    (acc : ℕ) (s t : Text)
    → all_digits s ≡ true
    → read_digits acc (s ++ t) ≡ read_digits (read_digits acc s) t
unfolding read_digits
read_digits-append acc [] t h = refl
read_digits-append acc (c ∷ s) t h = ground (arith, read_digits-append (acc * 10 + (c - b'0')) s t)

-- With more fuel than the number, the digits are its decimal form.
print_digits_lem :
    (fuel n : ℕ)
    → n < fuel
    → let s = print_digits fuel n in (all_digits s ≡ true) × (read_digits 0 s ≡ n) × (0 < length s)
unfolding print_digits read_digits
print_digits_lem zero n h = absurd (omega arith)
print_digits_lem (suc fuel) n h = elim (Bool-cases (ltb n 10)) [
  | inl one ↦ rw one (ground arith, ground arith, omega arith)
  | inr more ↦
      let (digits, value, some_digit) = print_digits_lem fuel (n / 10) (ground arith) in
      let rest = print_digits fuel (n / 10) in
      let last = (b'0' + n % 10) ∷ [] in
      rw more (
        all_digits-append rest last digits (ground arith),
        read_digits-append 0 rest last digits ∙ ground (arith, value),
        omega (arith, length-append rest last),
      )
]

stoul_digits :
    (s : Text)
    → all_digits s ≡ true
    → 0 < length s
    → read_digits 0 s < 2 ^ 64
    → stoul s ≡ some (read_digits 0 s)
unfolding stoul skip_space is_space read_unsigned
stoul_digits [] digits some_digit small = absurd (omega arith)
stoul_digits (c ∷ s) digits some_digit small =
    let no_space : is_space c ≡ false = ground arith in
    let first : is_digit c ≡ true = ground arith in
    let no_minus : (c == b'-') ≡ false = ground arith in
    let no_plus : (c == b'+') ≡ false = ground arith in
    let in_range : ltb (read_digits 0 (c ∷ s)) (2 ^ 64) ≡ true = ground arith in
    rw (no_space, no_minus, no_plus) (rw (first, in_range) refl)

-- A number below 2 ^ 64, printed and read: it comes back, and its form is digits, one at least.
pub stoul-print_unsigned :
    (n : ℕ)
    → n < 2 ^ 64
    → let s = print_unsigned n in (stoul s ≡ some n) × (all_digits s ≡ true) × (0 < length s)
unfolding print_unsigned
stoul-print_unsigned n h =
    let (digits, value, some_digit) = print_digits_lem (suc n) n (omega arith) in
    let s = print_digits (suc n) n in
    (stoul_digits s digits some_digit (omega (arith, value, h)) ∙ ap some value, digits, some_digit)

-- One digit more for a bound that is ten times as large.
length-print_digits :
    (bound size : ℕ)
    → ((fuel n : ℕ) → n < bound → length (print_digits fuel n) ≤ size)
    → 0 < size
    → (fuel n : ℕ) → n < bound * 10
    → length (print_digits fuel n) ≤ suc size
unfolding print_digits
length-print_digits bound size shorter some_digit zero n h = omega arith
length-print_digits bound size shorter some_digit (suc fuel) n h =
    let rest = print_digits fuel (n / 10) in
    ground (arith, shorter fuel (n / 10), length-append rest ((b'0' + n % 10) ∷ []))

length-one_digit : (fuel n : ℕ) → n < 10 → length (print_digits fuel n) ≤ 1
unfolding print_digits
length-one_digit zero n h = omega arith
length-one_digit (suc fuel) n h = ground arith

-- Microseconds have six digits, with zeros before them.
pub print_padded_lem : (n : ℕ) → n < 1000000 → length (print_padded n) ≡ 6
unfolding print_padded print_unsigned
print_padded_lem n h =
    let two = length-print_digits 10 1 length-one_digit (omega arith) in
    let three = length-print_digits 100 2 two (omega arith) in
    let four = length-print_digits 1000 3 three (omega arith) in
    let five = length-print_digits 10000 4 four (omega arith) in
    let six = length-print_digits 100000 5 five (omega arith) in
    let s = print_digits (suc n) n in
    omega (
      arith,
      six (suc n) n h,
      length-append (replicate (6 - length s) b'0') s,
      length-replicate {A = ℕ} (6 - length s) b'0',
    )
