-- ===== src/LogFile/Archives.antt =====
-- What the renaming of the archives does to each of them.
use mclog.Base.{
  ℕ, zero, suc, ◌<◌, ◌≡◌, refl, sym, subst, ◌∙◌, Option-cases, Bool, true, false, ◌&&◌, ◌||◌, List,
  [], ◌∷◌, Option, none, some, leb, ltb, ◌==◌, if◌then◌else◌, arith, Bool-cases, inl, inr,
}
use mclog.Message.{Bytes}
use mclog.LogFile.{
  Archives, World, next, all_fit, lookup, erase, remove, rename, insert, get_archives, roll_each,
  roll_archives,
}
use mclog.LogFile.Turns.{
  IsSmall, elem, Above, IsDescending, Above-trans, lookup-erase, after, down_to, Present, permits,
  one_turn, StopsAt, roll_each_lem,
}

-- No number is that of two archives.
abbrev pub IsDirectory : Archives → Type 0
IsDirectory [] = Unit
IsDirectory ((n, c) ∷ d) = (lookup n d ≡ none) × IsDirectory d

elem-insert : (j n : ℕ) (ns : List ℕ) → elem j (insert n ns) ≡ (j == n || elem j ns)
elem-insert j n [] = refl
elem-insert j n (m ∷ ns) = ground (arith, elem-insert j n ns)

Above-insert : (k n : ℕ) (ns : List ℕ) → n < k → Above k ns → Above k (insert n ns)
Above-insert k n [] h a = (h, tt)
Above-insert k n (m ∷ ns) h a = elim (Bool-cases (ltb m n)) [
  | inl less ↦ rw less (h, a)
  | inr more ↦ rw more (a.0, Above-insert k n ns h a.1)
]

insert-IsDescending :
    (n : ℕ) (ns : List ℕ) → IsDescending ns → elem n ns ≡ false → IsDescending (insert n ns)
insert-IsDescending n [] desc new = (tt, tt)
insert-IsDescending n (m ∷ ns) desc new = elim (Bool-cases (ltb m n)) [
  | inl less ↦ rw less ((ground arith, Above-trans n m ns (ground arith) desc.0), desc)
  | inr more ↦
      rw more
        (Above-insert m n ns (ground arith) desc.0, insert-IsDescending n ns desc.1 (ground arith))
]

abbrev pub has : Option Bytes → Bool
has none = false
has (some c) = true

elem-get_archives : (j : ℕ) (d : Archives) → elem j (get_archives d []) ≡ has (lookup j d)
unfolding get_archives
elem-get_archives j [] = refl
elem-get_archives j ((n, c) ∷ d) =
    ground (arith, elem-insert j n (get_archives d []), elem-get_archives j d)

get_archives-IsDescending : (d : Archives) → IsDirectory d → IsDescending (get_archives d [])
unfolding get_archives
get_archives-IsDescending [] dir = tt
get_archives-IsDescending ((n, c) ∷ d) dir =
    insert-IsDescending n (get_archives d []) (get_archives-IsDescending d dir.1)
      (ground (arith, elem-get_archives n d, dir.0))

-- The archives when each that is numbered `k` or more has got the next number, or was removed.
abbrev pub shifted : ℕ → ℕ → Archives → ℕ → Option Bytes
shifted keep k d zero = if k == 0 then none else lookup 0 d
shifted keep k d (suc j) =
    if leb k j
    then (if ltb (suc j) keep then lookup j d else none)
    else if leb k (suc j)
    then none
    else lookup (suc j) d

-- Where `RollArchives` stops: at the end, as 0, or one above an archive that is there and that the
-- file system refuses to remove or to rename.
abbrev pub IsStop : World → ℕ → Archives → ℕ → Type 0
IsStop w keep d zero = Unit
IsStop w keep d (suc n) = (has (lookup n d) ≡ true) × (permits w keep n ≡ false)

-- No archive's number overflows a `size_t` when it gets the next one.
abbrev pub AllSmall : Archives → Type 0
AllSmall d = (n : ℕ) → has (lookup n d) ≡ true → IsSmall n

all_fit_small : (ns : List ℕ) → ((j : ℕ) → elem j ns ≡ true → IsSmall j) → all_fit ns ≡ true
all_fit_small [] small = refl
all_fit_small (n ∷ ns) small =
    let first = small n (ground arith) in
    let others = all_fit_small ns (λ j h. small j (ground arith)) in ground (arith, first, others)

roll_archives-roll_each :
    (w : World) (keep : ℕ) (padded : List ℕ) (d : Archives)
    → (w.lists && all_fit (get_archives d padded)) ≡ true
    → roll_archives w keep padded d ≡ roll_each w keep (get_archives d padded) d
unfolding roll_archives
roll_archives-roll_each w keep padded d lists = ground (arith, lists)

pub roll_archives_lem :
    (w : World) (keep : ℕ) (d : Archives)
    → w.lists ≡ true
    → AllSmall d
    → IsDirectory d
    → let (returned, d') = roll_archives w keep [] d in
      (k : ℕ) × (returned ≡ (k == 0))
      × IsStop w keep d k
      × ((n : ℕ) → lookup n d' ≡ shifted keep k d n)
roll_archives_lem w keep d lists small dir =
    let (k, rc, stop, low, all) =
      roll_each_lem w keep (get_archives d []) d (get_archives-IsDescending d dir) listed fits in
    let fit = all_fit_small (get_archives d []) fits in
    rw (roll_archives-roll_each w keep [] d (ground (arith, lists, fit)))
      (k, rc, reached k stop, λ i. all i ∙ same k i)
  where
    fits : (j : ℕ) → elem j (get_archives d []) ≡ true → IsSmall j
    fits j h = small j (ground (arith, elem-get_archives j d))

    listed : Present (get_archives d []) d
    listed j h = ground (arith, elem-get_archives j d)

    reached : (k : ℕ) → StopsAt w keep (get_archives d []) k → IsStop w keep d k
    reached zero stop = tt
    reached (suc n) stop = (ground (arith, elem-get_archives n d, stop.0), stop.1)

    same : (k i : ℕ) → after keep (down_to k (get_archives d [])) d i ≡ shifted keep k d i
    same k zero = ground (arith, elem-get_archives 0 d)
    same k (suc j) = ground (arith, elem-get_archives j d, elem-get_archives (suc j) d)

-- Where the file system permits everything, all archives are rolled.
pub roll_archives_returns :
    (w : World) (keep : ℕ) (d : Archives)
    → w.lists ≡ true
    → ((n : ℕ) → permits w keep n ≡ true)
    → AllSmall d
    → IsDirectory d
    → let (returned, d') = roll_archives w keep [] d in
      (returned ≡ true)
      × (lookup 0 d' ≡ none)
      × ((n : ℕ) → lookup (suc n) d' ≡ (if ltb (suc n) keep then lookup n d else none))
roll_archives_returns w keep d lists may small dir =
    let (k, rc, stop, all) = roll_archives_lem w keep d lists small dir in finished k rc stop all
  where
    finished :
        (k : ℕ)
        → (roll_archives w keep [] d).0 ≡ (k == 0)
        → IsStop w keep d k
        → ((n : ℕ) → lookup n (roll_archives w keep [] d).1 ≡ shifted keep k d n)
        → ((roll_archives w keep [] d).0 ≡ true)
          × (lookup 0 (roll_archives w keep [] d).1 ≡ none)
          × ((n : ℕ)
              → lookup (suc n) (roll_archives w keep [] d).1
                ≡ (if ltb (suc n) keep then lookup n d else none))
    finished zero rc stop all = (rc, all 0, λ n. ground (arith, all (suc n)))
    finished (suc n) rc stop all = absurd (ground (arith, may n, stop.1))

absent_after_erase : (i n : ℕ) (d : Archives) → lookup i d ≡ none → lookup i (erase n d) ≡ none
absent_after_erase i n d h = ground (arith, lookup-erase i n d)

erase-IsDirectory : (n : ℕ) (d : Archives) → IsDirectory d → IsDirectory (erase n d)
erase-IsDirectory n [] dir = tt
erase-IsDirectory n ((k, c) ∷ d) dir = elim (Bool-cases (n == k)) [
  | inl same ↦ rw same (erase-IsDirectory n d dir.1)
  | inr other ↦ rw other (absent_after_erase k n d dir.0, erase-IsDirectory n d dir.1)
]

remove-IsDirectory :
    (w : World) (n : ℕ) (d : Archives) → IsDirectory d → IsDirectory (remove w n d).1
remove-IsDirectory w n d dir = elim (Bool-cases (w.removes n)) [
  | inl goes ↦ rw goes (erase-IsDirectory n d dir)
  | inr stays ↦ rw stays dir
]

rename-IsDirectory :
    (w : World) (n k : ℕ) (d : Archives) → IsDirectory d → IsDirectory (rename w n k d).1
rename-IsDirectory w n k d dir = elim (Option-cases (lookup n d)) [
  | inl gone ↦ rw (rename, gone) dir
  | inr (c, here) ↦ elim (Bool-cases (w.renames n)) [
    | inl goes ↦
        rw (rename, here, goes)
          (
            ground (arith, lookup-erase k k (erase n d)),
            erase-IsDirectory k (erase n d) (erase-IsDirectory n d dir),
          )
    | inr stays ↦ rw (rename, here, stays) dir
  ]
]

one_turn-IsDirectory :
    (w : World) (keep n : ℕ) (d : Archives) → IsDirectory d → IsDirectory (one_turn w keep n d).1
one_turn-IsDirectory w keep n d dir = elim (Bool-cases (leb keep (next n))) [
  | inl old ↦ rw (one_turn, old) (remove-IsDirectory w n d dir)
  | inr young ↦ rw (one_turn, young) (rename-IsDirectory w n (next n) d dir)
]

roll_each-IsDirectory :
    (w : World) (keep : ℕ) (ns : List ℕ) (d : Archives)
    → IsDirectory d
    → IsDirectory (roll_each w keep ns d).1
unfolding roll_each
roll_each-IsDirectory w keep [] d dir = dir
roll_each-IsDirectory w keep (n ∷ ns) d dir =
    let dir1 = one_turn-IsDirectory w keep n d dir in
    elim (Bool-cases (one_turn w keep n d).0) [
      | inl returned ↦ rw returned (roll_each-IsDirectory w keep ns (one_turn w keep n d).1 dir1)
      | inr threw ↦ rw threw dir1
    ]

pub roll_archives-IsDirectory :
    (w : World) (keep : ℕ) (padded : List ℕ) (d : Archives)
    → IsDirectory d
    → IsDirectory (roll_archives w keep padded d).1
unfolding roll_archives
roll_archives-IsDirectory w keep padded d dir =
    elim (Bool-cases (w.lists && all_fit (get_archives d padded))) [
      | inl fits ↦
          subst (λ x. IsDirectory x.1) (sym (roll_archives-roll_each w keep padded d fits))
            (roll_each-IsDirectory w keep (get_archives d padded) d dir)
      | inr fails ↦
          let same : (false, d) ≡ roll_archives w keep padded d = ground (arith, fails) in
          subst (λ x. IsDirectory x.1) same dir
    ]
