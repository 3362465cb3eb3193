-- ===== src/Stream.antt =====
-- The formatted reads of `std::istream` that the program uses, in the "C" locale, as functions from
-- the bytes left to read. `none` is a stream with its failbit set, on which later reads do nothing.
pub mod Words
use mclog.Base.{
  ℕ, ◌≡◌, Bool, true, false, ◌||◌, ◌&&◌, Text, [], ◌∷◌, Option, none, some, leb, ◌==◌,
  if◌then◌else◌, take, drop, length,
}

-- `std::isspace`
unfoldable pub is_space : ℕ → Bool
is_space c = c == 32 || leb 9 c && leb c 13

-- `is >> std::ws`
unfoldable pub skip_space : Text → Text
skip_space [] = []
skip_space (c ∷ s) = let rest = skip_space s in if is_space c then rest else c ∷ s

-- The bytes up to the next space, and those from there.
unfoldable pub span_word : Text → Text × Text
span_word [] = ([], [])
span_word (c ∷ s) =
    let rest : Text × Text = (c ∷ (span_word s).0, (span_word s).1) in
    if is_space c then ([], c ∷ s) else rest

abbrev non_empty : Text × Text → Option (Text × Text)
non_empty ([], rest) = none
non_empty (c ∷ w, rest) = some (c ∷ w, rest)

-- `is >> s` for a string `s`: it fails where no byte is left but spaces.
unfoldable pub read_word : Text → Option (Text × Text)
unfolding skip_space span_word
read_word is = non_empty (span_word (skip_space is))

-- `std::getline`: up to the newline, which is taken off; it fails only at the end of the input.
unfoldable pub span_line : Text → Text × Text
span_line [] = ([], [])
span_line (c ∷ s) =
    let rest : Text × Text = (c ∷ (span_line s).0, (span_line s).1) in
    if c == 10 then ([], s) else rest

unfoldable pub read_line : Text → Option (Text × Text)
unfolding span_line
read_line [] = none
read_line (c ∷ s) = some (span_line (c ∷ s))

-- `is.read(buf, n)`
unfoldable pub read_bytes : ℕ → Text → Option (Text × Text)
read_bytes n is = if leb n (length is) then some (take n is, drop n is) else none
