-- ===== src/LogFile/Turns.antt =====
-- The loop over the archives, turn by turn.
use mclog.Base.{
  ℕ, zero, suc, ◌+◌, ◌^◌, ◌<◌, ◌≤◌, ◌≡◌, refl, ap, Option-cases, Bool, true, false, ◌&&◌, ◌||◌,
  List, [], ◌∷◌, Option, none, some, leb, ltb, ◌==◌, if◌then◌else◌, arith, Bool-cases, inl, inr,
}
use mclog.Message.{Bytes}
use mclog.LogFile.{Archives, World, next, lookup, erase, remove, rename, roll_each}

abbrev pub elem : ℕ → List ℕ → Bool
elem n [] = false
elem n (m ∷ ns) = n == m || elem n ns

abbrev pub Above : ℕ → List ℕ → Type 0
Above n [] = Unit
Above n (m ∷ ns) = (m < n) × Above n ns

abbrev pub IsDescending : List ℕ → Type 0
IsDescending [] = Unit
IsDescending (n ∷ ns) = Above n ns × IsDescending ns

pub Above-elem : (n j : ℕ) (ns : List ℕ) → Above n ns → elem j ns ≡ true → j < n
Above-elem n j [] a h = absurd cc
Above-elem n j (m ∷ ns) a h = ground (arith, Above-elem n j ns a.1)

pub Above-trans : (n m : ℕ) (ns : List ℕ) → m < n → Above m ns → Above n ns
Above-trans n m [] h a = tt
Above-trans n m (k ∷ ns) h a = (omega (arith, a.0), Above-trans n m ns h a.1)

pub lookup-erase :
    (i n : ℕ) (d : Archives) → lookup i (erase n d) ≡ (if i == n then none else lookup i d)
lookup-erase i n [] = ground arith
lookup-erase i n ((k, c) ∷ d) = ground (arith, lookup-erase i n d)

-- The archives after a loop over those with `ran`, by their numbers.
abbrev pub after : ℕ → (ℕ → Bool) → Archives → ℕ → Option Bytes
after keep ran d zero = if ran zero then none else lookup zero d
after keep ran d (suc j) =
    if ran j && ltb (suc j) keep then lookup j d else if ran (suc j) then none else lookup (suc j) d

-- Those of the list that come before the loop stops at `k`.
abbrev pub down_to : ℕ → List ℕ → ℕ → Bool
down_to k ns j = leb k j && elem j ns

-- Each number in the list is that of an archive.
abbrev pub Present : List ℕ → Archives → Type 0
Present ns d = (j : ℕ) → elem j ns ≡ true → (c : Bytes) × (lookup j d ≡ some c)

-- Whether the file system removes or renames the archive of a number.
abbrev pub permits : World → ℕ → ℕ → Bool
permits w keep n = if leb keep (n + 1) then w.removes n else w.renames n

abbrev pub one_turn : World → ℕ → ℕ → Archives → Bool × Archives
one_turn w keep n d = if leb keep (next n) then remove w n d else rename w n (next n) d

-- A number for which `size_t` does not overflow.
abbrev pub IsSmall : ℕ → Type 0
IsSmall n = n + 1 < 2 ^ 64

next_small : (n : ℕ) → IsSmall n → next n ≡ n + 1
next_small n small = omega arith

abbrev plain_turn : World → ℕ → ℕ → Archives → Bool × Archives
plain_turn w keep n d = if leb keep (n + 1) then remove w n d else rename w n (n + 1) d

one_turn-plain_turn :
    (w : World) (keep n : ℕ) (d : Archives)
    → IsSmall n
    → one_turn w keep n d ≡ plain_turn w keep n d
one_turn-plain_turn w keep n d small =
    ap (λ k. if leb keep k then remove w n d else rename w n k d) (next_small n small)

-- One turn of the loop leaves an archive with its number one larger, or removes it, where the file
-- system permits that.
roll_one :
    (w : World) (keep n : ℕ) (d : Archives) (c : Bytes)
    → lookup n d ≡ some c
    → permits w keep n ≡ true
    → let (returned, d1) = plain_turn w keep n d in
      (returned ≡ true)
      × ((i : ℕ)
          → lookup i d1 ≡ (
              if i == n + 1 && ltb (n + 1) keep
              then some c
              else if i == n
              then none
              else lookup i d))
roll_one w keep n d c here may = elim (Bool-cases (leb keep (n + 1))) [
  | inl old ↦
      let removes : w.removes n ≡ true = ground (arith, old) in
      rw (old, removes) (refl, λ i. ground (arith, lookup-erase i n d))
  | inr young ↦
      let renames : w.renames n ≡ true = ground (arith, young) in
      rw (young, rename, here, renames)
        (refl, λ i. ground (arith, lookup-erase i (n + 1) (erase n d), lookup-erase i n d))
]

roll_none :
    (w : World) (keep n : ℕ) (d : Archives)
    → permits w keep n ≡ false
    → (plain_turn w keep n d ≡ (false, d))
roll_none w keep n d never = elim (Bool-cases (leb keep (n + 1))) [
  | inl old ↦ let removes : w.removes n ≡ false = ground (arith, old) in rw (old, removes) refl
  | inr young ↦
      let renames : w.renames n ≡ false = ground (arith, young) in
      elim (Option-cases (lookup n d)) [
        | inl gone ↦ rw (young, rename, gone) refl
        | inr (c, here) ↦ rw (young, rename, here, renames) refl
      ]
]

-- Where a loop over a list stops: at the end, as 0, or one above the archive that is refused.
abbrev pub StopsAt : World → ℕ → List ℕ → ℕ → Type 0
StopsAt w keep ns zero = Unit
StopsAt w keep ns (suc n) = (elem n ns ≡ true) × (permits w keep n ≡ false)

pub roll_each_lem :
    (w : World) (keep : ℕ) (ns : List ℕ) (d : Archives)
    → IsDescending ns
    → Present ns d
    → ((j : ℕ) → elem j ns ≡ true → IsSmall j)
    → let (returned, d') = roll_each w keep ns d in
      (k : ℕ) × (returned ≡ (k == 0))
      × StopsAt w keep ns k
      × ((m : ℕ) → Above m ns → k ≤ m)
      × ((i : ℕ) → lookup i d' ≡ after keep (down_to k ns) d i)
unfolding roll_each
roll_each_lem w keep [] d desc here small = (0, refl, tt, λ m h. omega arith, same)
  where
    same : (i : ℕ) → lookup i d ≡ after keep (down_to 0 []) d i
    same zero = ground arith
    same (suc j) = ground arith
roll_each_lem w keep (n ∷ ns) d desc here small =
    let plain = one_turn-plain_turn w keep n d (small n (ground arith)) in
    elim (Bool-cases (permits w keep n)) [
      | inl may ↦
          let (c, first) = here n (ground arith) in
          let (turn, at) = roll_one w keep n d c first may in
          let d1 = (plain_turn w keep n d).1 in
          let left : Present ns d1 = λ j h.
            let (cj, found) = here j (ground arith) in
            (cj, ground (arith, at j, Above-elem n j ns desc.0 h)) in
          let (k, rc, stop, low, all) =
            roll_each_lem w keep ns d1 desc.1 left (λ j h. small j (ground arith)) in
          (
            k,
            rw (plain, turn) rc,
            wider k stop,
            λ m h. low m h.1,
            rw (plain, turn) (joined k d1 (roll_each w keep ns d1).1 (low n desc.0) at all first),
          )
      | inr never ↦
          rw (plain, roll_none w keep n d never)
            (suc n, ground arith, (ground arith, never), λ m h. h.0, stuck)
    ]
  where
    wider : (k : ℕ) → StopsAt w keep ns k → StopsAt w keep (n ∷ ns) k
    wider zero stop = tt
    wider (suc m) stop = (ground (arith, stop.0), stop.1)

    stuck : (i : ℕ) → lookup i d ≡ after keep (down_to (suc n) (n ∷ ns)) d i
    stuck zero = ground (arith, Above-elem n 0 ns desc.0)
    stuck (suc j) = ground (arith, Above-elem n j ns desc.0, Above-elem n (suc j) ns desc.0)

    joined :
        (k : ℕ) (d1 d' : Archives) {c : Bytes}
        → k ≤ n
        → ((i : ℕ)
            → lookup i d1 ≡ (
                if i == n + 1 && ltb (n + 1) keep
                then some c
                else if i == n
                then none
                else lookup i d))
        → ((i : ℕ) → lookup i d' ≡ after keep (down_to k ns) d1 i)
        → lookup n d ≡ some c
        → (i : ℕ) → lookup i d' ≡ after keep (down_to k (n ∷ ns)) d i
    joined k d1 d' low at all first zero = ground (arith, all zero, at zero)
    joined k d1 d' low at all first (suc j) = ground (
      arith,
      all (suc j),
      at (suc j),
      at j,
      Above-elem n j ns desc.0,
      Above-elem n (suc j) ns desc.0,
    )
