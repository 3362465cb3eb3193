-- ===== src/Decimal.antt =====
-- Decimal numbers as the program's streams print them and `std::stoul` reads them.
pub mod RoundTrip
use mclog.Base.{
  ℕ, zero, suc, ◌+◌, ◌-◌, ◌*◌, ◌/◌, ◌%◌, ◌^◌, ◌≡◌, Bool, true, false, ◌&&◌, Text, [], ◌∷◌, ◌++◌,
  Option, none, some, ltb, leb, ◌==◌, if◌then◌else◌, length, replicate,
}
use mclog.Stream.{skip_space}

abbrev pub is_digit : ℕ → Bool
is_digit c = leb b'0' c && leb c b'9'

-- The digits of a number, with fuel.
unfoldable pub print_digits : ℕ → ℕ → Text
print_digits zero n = []
print_digits (suc fuel) n =
    let rest = print_digits fuel (n / 10) in
    if ltb n 10 then (b'0' + n) ∷ [] else rest ++ ((b'0' + n % 10) ∷ [])

-- `os << n`: a digit fewer at each turn, so this fuel is enough.
unfoldable pub print_unsigned : ℕ → Text
unfolding print_digits
print_unsigned n = print_digits (suc n) n

-- `os << std::setfill('0') << std::setw(6) << n`
unfoldable pub print_padded : ℕ → Text
print_padded n = let s = print_unsigned n in replicate (6 - length s) b'0' ++ s

-- The value of the digits that a text begins with, behind those of `acc`.
unfoldable pub read_digits : ℕ → Text → ℕ
read_digits acc [] = acc
read_digits acc (c ∷ s) =
    let rest = read_digits (acc * 10 + (c - b'0')) s in if is_digit c then rest else acc

-- `std::stoul` of digits: `none` is std::invalid_argument, without a digit, or std::out_of_range.
unfoldable pub read_unsigned : Bool → Text → Option ℕ
read_unsigned negative [] = none
read_unsigned negative (c ∷ s) =
    let n = read_digits 0 (c ∷ s) in
    if is_digit c && ltb n (2 ^ 64)
    then some (if negative then (2 ^ 64 - n) % 2 ^ 64 else n)
    else none

abbrev read_signed : Text → Option ℕ
read_signed [] = none
read_signed (c ∷ s) =
    if c == b'-'
    then read_unsigned true s
    else if c == b'+'
    then read_unsigned false s
    else read_unsigned false (c ∷ s)

-- `std::stoul`, with the spaces and the sign that it accepts.
unfoldable pub stoul : Text → Option ℕ
stoul s = read_signed (skip_space s)
