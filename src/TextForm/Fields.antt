-- ===== src/TextForm/Fields.antt =====
-- The texts that the fields of a message are read back from.
use mclog.Base.{
  ℕ, suc, ◌+◌, ◌-◌, ◌%◌, ◌^◌, ◌≡◌, ◌≤◌, ◌<◌, ◌∙◌, refl, ap, sym, Bool, true, false, not, ◌&&◌, Text,
  [], ◌∷◌, ◌++◌, some, ltb, leb, ◌==◌, length, take, drop, arith, inl, inr, ◌⊎◌, append_assoc,
  length-append, take-append, drop-append, is_empty,
}
use mclog.Stream.{is_space, read_word}
use mclog.Stream.Words.{no_space, is_word, read_word-append, read_word-space}
use mclog.Decimal.{print_unsigned, stoul}
use mclog.Decimal.RoundTrip.{all_digits, stoul-print_unsigned}
use mclog.Message.{
  MessageOrigin, is_alnum, is_host_char, is_app_char, good_prefix, is_valid_hostname,
  is_valid_app_name,
}
use mclog.TextForm.{find_first_of, print_origin, split_proc_info, parse_origin, got}

-- All bytes of a text pass a test.
abbrev pub all : (ℕ → Bool) → Text → Bool
all ok [] = true
all ok (c ∷ s) = ok c && all ok s

good_prefix_le : (ok : ℕ → Bool) (s : Text) → good_prefix ok s ≤ length s
unfolding good_prefix
good_prefix_le ok [] = omega arith
good_prefix_le ok (c ∷ s) = ground (arith, good_prefix_le ok s)

good_prefix→all : (ok : ℕ → Bool) (s : Text) → length s ≡ good_prefix ok s → all ok s ≡ true
unfolding good_prefix
good_prefix→all ok [] h = refl
good_prefix→all ok (c ∷ s) h = ground (arith, good_prefix→all ok s)

all-append :
    (ok : ℕ → Bool) (s t : Text) → all ok s ≡ true → all ok t ≡ true → all ok (s ++ t) ≡ true
all-append ok [] t h k = k
all-append ok (c ∷ s) t h k = ground (arith, all-append ok s t)

-- A test that is weaker passes too.
all-weaken :
    (ok weak : ℕ → Bool)
    → ((c : ℕ) → ok c ≡ true → weak c ≡ true)
    → (s : Text) → all ok s ≡ true
    → all weak s ≡ true
all-weaken ok weak h [] k = refl
all-weaken ok weak h (c ∷ s) k = ground (arith, h c, all-weaken ok weak h s)

abbrev pub is_not : ℕ → ℕ → Bool
is_not c x = not (x == c)

find_first_of-append :
    (c : ℕ) (s t : Text) → all (is_not c) s ≡ true → find_first_of c (s ++ c ∷ t) ≡ some (length s)
unfolding find_first_of
find_first_of-append c [] t h = ground arith
find_first_of-append c (x ∷ s) t h =
    let other : (x == c) ≡ false = ground arith in
    rw (other, find_first_of-append c s t (ground arith)) refl

abbrev not_space : ℕ → Bool
not_space c = not (is_space c)

all→no_space : (s : Text) → all not_space s ≡ true → no_space s ≡ true
unfolding no_space
all→no_space [] h = refl
all→no_space (c ∷ s) h = ground (arith, all→no_space s)

host_not_space : (c : ℕ) → is_host_char c ≡ true → not_space c ≡ true
unfolding is_host_char is_alnum is_space
host_not_space c k = ground arith

hostname_lem : (s : Text) → is_valid_hostname s ≡ true → is_word s ≡ true
unfolding is_valid_hostname is_word
hostname_lem s h =
    let ok : all is_host_char s ≡ true = good_prefix→all is_host_char s (ground arith) in
    ground (arith, all→no_space s (all-weaken is_host_char not_space host_not_space s ok))

appname_lem : (s : Text) → is_valid_app_name s ≡ true → all is_app_char s ≡ true
unfolding is_valid_app_name
appname_lem s h = good_prefix→all is_app_char s (ground arith)

app_not_space : (c : ℕ) → is_app_char c ≡ true → not_space c ≡ true
unfolding is_app_char is_alnum is_space
app_not_space c k = ground arith

app_not_bracket : (c : ℕ) → is_app_char c ≡ true → (is_not b'[' c && is_not b']' c) ≡ true
unfolding is_app_char is_alnum
app_not_bracket c k = ground arith

digits_lem :
    (s : Text) → all_digits s ≡ true → (all not_space s ≡ true) × (all (is_not b']') s ≡ true)
unfolding is_space
digits_lem [] h = (refl, refl)
digits_lem (c ∷ s) h = let (l, r) = digits_lem s (ground arith) in (ground arith, ground arith)

is_empty-append : (s : Text) (c : ℕ) (t : Text) → is_empty (s ++ c ∷ t) ≡ false
is_empty-append [] c t = refl
is_empty-append (x ∷ s) c t = refl

-- The word behind the host's name, and what is found in it.
module _ (o : MessageOrigin) (valid : is_valid_app_name o.appname ≡ true)
    (procid : o.procid < 2 ^ 32) where
  abbrev pid : Text
  pid = print_unsigned o.procid

  abbrev info : Text
  info = o.appname ++ (b'[' ∷ (pid ++ (b']' ∷ (b':' ∷ []))))

  app_chars : all is_app_char o.appname ≡ true
  app_chars = appname_lem o.appname valid

  pid_lem : (stoul pid ≡ some o.procid) × (all_digits pid ≡ true) × (0 < length pid)
  pid_lem = stoul-print_unsigned o.procid (omega arith)

  info-is_word : is_word info ≡ true
  unfolding is_word is_space
  info-is_word =
      let digits = (digits_lem pid pid_lem.1).0 in
      let name = all-weaken is_app_char not_space app_not_space o.appname app_chars in
      let tail : all not_space (b'[' ∷ (pid ++ (b']' ∷ (b':' ∷ [])))) ≡ true =
        all-append not_space pid (b']' ∷ (b':' ∷ [])) digits refl in
      let spaceless =
        all→no_space info
          (all-append not_space o.appname (b'[' ∷ (pid ++ (b']' ∷ (b':' ∷ [])))) name tail) in
      let some_byte = is_empty-append o.appname b'[' (pid ++ (b']' ∷ (b':' ∷ []))) in
      rw (some_byte, spaceless) refl

  not_bracket : (c : ℕ) → (c ≡ b'[') ⊎ (c ≡ b']') → all (is_not c) o.appname ≡ true
  not_bracket c which =
      all-weaken is_app_char (is_not c) (λ x k. ground (arith, app_not_bracket x k, which))
        o.appname app_chars

  aidx : find_first_of b'[' info ≡ some (length o.appname)
  aidx =
      find_first_of-append b'[' o.appname (pid ++ (b']' ∷ (b':' ∷ [])))
        (not_bracket b'[' (inl refl))

  pidx : find_first_of b']' info ≡ some (suc (length o.appname + length pid))
  pidx =
      let before = o.appname ++ (b'[' ∷ pid) in
      let none_there : all (is_not b']') before ≡ true =
        all-append (is_not b']') o.appname (b'[' ∷ pid) (not_bracket b']' (inr refl))
          (digits_lem pid pid_lem.1).1 in
      let size : length before ≡ suc (length o.appname + length pid) =
        omega (arith, length-append o.appname (b'[' ∷ pid)) in
      ap (find_first_of b']') (sym (append_assoc o.appname (b'[' ∷ pid) (b']' ∷ (b':' ∷ []))))
      ∙ find_first_of-append b']' before (b':' ∷ []) none_there
      ∙ ap some size

  number : take (length pid) (drop (length o.appname + 1) info) ≡ pid
  number =
      let tail : Text = b']' ∷ (b':' ∷ []) in
      let size : length o.appname + 1 ≡ length (o.appname ++ (b'[' ∷ [])) =
        omega (arith, length-append o.appname (b'[' ∷ [])) in
      ap (λ s. take (length pid) (drop (length o.appname + 1) s))
        (sym (append_assoc o.appname (b'[' ∷ []) (pid ++ tail)))
      ∙ ap (take (length pid))
          (drop-append (length o.appname + 1) (o.appname ++ (b'[' ∷ [])) (pid ++ tail) size)
      ∙ take-append (length pid) pid tail refl

  split_proc_info_lem :
      (rest : Text) → length o.appname < 255 → split_proc_info o.hostname info rest ≡ got o rest
  unfolding split_proc_info
  split_proc_info_lem rest short =
      let (read, digits, some_digit) = pid_lem in
      let n = suc (length o.appname + length pid) in
      let width : n - (length o.appname + 1) ≡ length pid = omega arith in
      let first : ltb (length o.appname) 255 ≡ true = ground arith in
      let second : ltb (length o.appname + 1) n ≡ true = ground arith in
      let wrapped : o.procid % 2 ^ 32 ≡ o.procid = omega arith in
      let name : take (length o.appname) info ≡ o.appname =
        take-append (length o.appname) o.appname (b'[' ∷ (pid ++ (b']' ∷ (b':' ∷ [])))) refl in
      rw (aidx, pidx, split_proc_info)
        (rw (first, second) (rw width (rw (number, read) (rw (name, wrapped) refl))))

-- The form of an origin, before a colon and a space and behind a space, reads back as the origin.
pub parse_origin-print_origin :
    (o : MessageOrigin) (rest : Text)
    → is_valid_hostname o.hostname ≡ true
    → is_valid_app_name o.appname ≡ true
    → length o.hostname ≤ 255
    → length o.appname < 255
    → o.procid < 2 ^ 32
    → parse_origin (b' ' ∷ (print_origin o ++ (b':' ∷ (b' ' ∷ rest)))) ≡ got o (b' ' ∷ rest)
unfolding parse_origin print_origin is_space
parse_origin-print_origin o rest hn an hsize asize procid =
    let after : Text = b' ' ∷ rest in
    let word = info o an procid in
    let digits = print_unsigned o.procid in
    let joined : (digits ++ (b']' ∷ [])) ++ (b':' ∷ after) ≡ digits ++ (b']' ∷ (b':' ∷ after)) =
      append_assoc digits (b']' ∷ []) (b':' ∷ after) in
    let text : print_origin o ++ (b':' ∷ after) ≡ o.hostname ++ (b' ' ∷ (word ++ after)) =
      simp append_assoc refl in
    let first : read_word (b' ' ∷ (print_origin o ++ (b':' ∷ after)))
        ≡ some (o.hostname, b' ' ∷ (word ++ after)) =
      read_word-space b' ' (print_origin o ++ (b':' ∷ after)) refl
      ∙ ap read_word text
      ∙ read_word-append o.hostname b' ' (word ++ after) (hostname_lem o.hostname hn) refl in
    let second : read_word (b' ' ∷ (word ++ after)) ≡ some (word, after) =
      read_word-space b' ' (word ++ after) refl
      ∙ read_word-append word b' ' rest (info-is_word o an procid) refl in
    let small : leb (length o.hostname) 255 ≡ true = ground arith in
    rw (first, second, small) (split_proc_info_lem o an procid after asize)
