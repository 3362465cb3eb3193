-- ===== src/Packet/Layout.antt =====
-- Where the parts of a buffer stand after a write into it.
use mclog.Base.{
  ℕ, ◌+◌, ◌≤◌, ◌≡◌, refl, sym, ap, ◌∙◌, List, [], ◌∷◌, ◌++◌, append_assoc, arith, length, take,
  drop, overwrite, length-take, length-drop, length-append, take-append, drop-append,
  take-append_le, drop-append_le, take_nil, zero, suc,
}

module _ {ℓ} {A : Type ℓ} where
  pub drop-drop : (i j : ℕ) (xs : List A) → drop i (drop j xs) ≡ drop (j + i) xs
  drop-drop i zero xs = let e : zero + i ≡ i = omega arith in ap (λ n. drop n xs) (sym e)
  drop-drop i (suc j) [] = drop_nil i ∙ sym (drop_nil (suc j + i))
    where
      drop_nil : (n : ℕ) → drop {A = A} n [] ≡ []
      drop_nil zero = refl
      drop_nil (suc n) = refl
  drop-drop i (suc j) (x ∷ xs) =
      let e : suc j + i ≡ suc (j + i) = omega arith in
      drop-drop i j xs ∙ ap (λ n. drop n (x ∷ xs)) (sym e)

  -- Writing at `i` leaves what stands before `i`.
  pub take-overwrite :
      (i : ℕ) (bs buf : List A) → i ≤ length buf → take i (overwrite i bs buf) ≡ take i buf
  take-overwrite i bs buf h = take-append i (take i buf) _ (omega (arith, length-take i buf))

  -- From `i` on stands what was written, then the rest.
  pub drop-overwrite :
      (i : ℕ) (bs buf : List A)
      → i ≤ length buf
      → drop i (overwrite i bs buf) ≡ bs ++ drop (i + length bs) buf
  drop-overwrite i bs buf h = drop-append i (take i buf) _ (omega (arith, length-take i buf))

  pub drop-take :
      (start pos : ℕ) (buf : List A)
      → drop start (take (start + pos) buf) ≡ take pos (drop start buf)
  drop-take zero pos buf = let e : zero + pos ≡ pos = omega arith in ap (λ n. take n buf) e
  drop-take (suc start) pos [] =
      ap (drop (suc start)) (take_nil (suc start + pos)) ∙ sym (take_nil pos)
  drop-take (suc start) pos (x ∷ xs) =
      let e : suc start + pos ≡ suc (start + pos) = omega arith in
      ap (λ n. drop (suc start) (take n (x ∷ xs))) e ∙ drop-take start pos xs

  -- A write at `start + pos`, seen from `start`: the `pos` elements before it, itself, the rest.
  pub drop-overwrite_at :
      (start pos : ℕ) (bs buf : List A)
      → start + pos ≤ length buf
      → drop start (overwrite (start + pos) bs buf)
        ≡ take pos (drop start buf) ++ (bs ++ drop (start + pos + length bs) buf)
  drop-overwrite_at start pos bs buf h =
      drop-append_le start (take (start + pos) buf) _ (omega (arith, length-take (start + pos) buf))
      ∙ ap (λ xs. xs ++ (bs ++ drop (start + pos + length bs) buf)) (drop-take start pos buf)

  length-take-drop :
      (start pos : ℕ) (buf : List A)
      → start + pos ≤ length buf
      → length (take pos (drop start buf)) ≡ pos
  length-take-drop start pos buf h =
      omega (arith, length-take pos (drop start buf), length-drop start buf)

  -- So the write extends the `pos` elements from `start` on.
  pub take-drop-overwrite :
      (start pos : ℕ) (bs buf : List A)
      → start + pos ≤ length buf
      → take (pos + length bs) (drop start (overwrite (start + pos) bs buf))
        ≡ take pos (drop start buf) ++ bs
  take-drop-overwrite start pos bs buf h =
      let before = take pos (drop start buf) in
      let rest = drop (start + pos + length bs) buf in
      ap (take (pos + length bs))
        (drop-overwrite_at start pos bs buf h ∙ sym (append_assoc before bs rest))
      ∙ take-append (pos + length bs) (before ++ bs) rest
          (omega (arith, length-append before bs, length-take-drop start pos buf h))

  pub take-drop-overwrite_same :
      (start pos : ℕ) (bs buf : List A)
      → start + pos ≤ length buf
      → take pos (drop start (overwrite (start + pos) bs buf)) ≡ take pos (drop start buf)
  take-drop-overwrite_same start pos bs buf h =
      let before = take pos (drop start buf) in
      ap (take pos) (drop-overwrite_at start pos bs buf h)
      ∙ take-append pos before _ (omega (arith, length-take-drop start pos buf h))

  pub take-take : (m n : ℕ) (xs : List A) → m ≤ n → take m (take n xs) ≡ take m xs
  take-take zero n xs h = refl
  take-take (suc m) zero xs h = absurd (omega arith)
  take-take (suc m) (suc n) [] h = refl
  take-take (suc m) (suc n) (x ∷ xs) h = ap (λ zs. x ∷ zs) (take-take m n xs (omega arith))

  -- A datagram `d` at the start of a buffer, in front of whatever `r` the buffer held.
  pub take-drop-append :
      (n k : ℕ) (d r : List A) → n + k ≤ length d → take k (drop n (d ++ r)) ≡ take k (drop n d)
  take-drop-append n k d r h =
      ap (take k) (drop-append_le n d r (omega arith))
      ∙ take-append_le k (drop n d) r (omega (arith, length-drop n d))
