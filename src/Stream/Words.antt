-- ===== src/Stream/Words.antt =====
-- What a formatted read returns on text that a formatted write produced.
use mclog.Base.{
  ℕ, ◌≡◌, refl, ap, Bool, true, false, Text, [], ◌∷◌, ◌++◌, some, arith, not, ◌&&◌, is_empty, ◌==◌,
}
use mclog.Stream.{is_space, span_word, read_word, span_line, read_line}

-- No byte of the text is a space.
unfoldable pub no_space : Text → Bool
no_space [] = true
no_space (c ∷ s) = not (is_space c) && no_space s

-- Something that can be read as one word.
unfoldable pub is_word : Text → Bool
unfolding no_space
is_word s = not (is_empty s) && no_space s

span_word-append :
    (w : Text) (c : ℕ) (rest : Text)
    → no_space w ≡ true
    → is_space c ≡ true
    → span_word (w ++ c ∷ rest) ≡ (w, c ∷ rest)
unfolding span_word no_space
span_word-append [] c rest h e = ground arith
span_word-append (x ∷ w) c rest h e = ground (arith, span_word-append w c rest)

-- A word is read whole, up to the space that follows it.
pub read_word-append :
    (w : Text) (c : ℕ) (rest : Text)
    → is_word w ≡ true
    → is_space c ≡ true
    → read_word (w ++ c ∷ rest) ≡ some (w, c ∷ rest)
unfolding read_word is_word
read_word-append [] c rest h e = cc
read_word-append (x ∷ w) c rest h e = ground (arith, span_word-append (x ∷ w) c rest)

-- Spaces before a word do not matter.
pub read_word-space : (c : ℕ) (s : Text) → is_space c ≡ true → read_word (c ∷ s) ≡ read_word s
unfolding read_word
read_word-space c s h = ground arith

unfoldable pub no_newline : Text → Bool
no_newline [] = true
no_newline (c ∷ s) = not (c == 10) && no_newline s

span_line-append : (s rest : Text) → no_newline s ≡ true → span_line (s ++ 10 ∷ rest) ≡ (s, rest)
unfolding span_line no_newline
span_line-append [] rest h = refl
span_line-append (x ∷ s) rest h =
    let other : (x == 10) ≡ false = ground arith in
    rw (other, span_line-append s rest (ground arith)) refl

-- A line is read up to its newline, which is taken off.
pub read_line-append :
    (s rest : Text) → no_newline s ≡ true → read_line (s ++ 10 ∷ rest) ≡ some (s, rest)
unfolding read_line
read_line-append [] rest h = ap some (span_line-append [] rest h)
read_line-append (x ∷ s) rest h = ap some (span_line-append (x ∷ s) rest h)
