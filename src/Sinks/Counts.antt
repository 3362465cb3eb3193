-- ===== src/Sinks/Counts.antt =====
-- How often a sink is on the list.
use mclog.Base.{
  ◌+◌, ◌-◌, ◌≤◌, ◌≡◌, refl, List, [], ◌∷◌, ltb, ◌==◌, if◌then◌else◌, length, length-append, count,
  count-append, arith, ==_iff, Bool-cases, inl, inr,
}
use mclog.Sinks.{Sink, has_sink, erase_sink, add_sink, remove_sink, add_sinks, remove_sinks}

pub has_sink-count : (x : Sink) (ss : List Sink) → has_sink x ss ≡ ltb 0 (count x ss)
unfolding has_sink
has_sink-count x [] = refl
has_sink-count x (s ∷ ss) = ground (arith, has_sink-count x ss)

count-erase_sink :
    (x y : Sink) (ss : List Sink)
    → count x (erase_sink y ss) ≡ count x ss - (if x == y then 1 else 0)
unfolding erase_sink
count-erase_sink x y [] = ground arith
count-erase_sink x y (s ∷ ss) = ground (arith, count-erase_sink x y ss)

count-add_sink :
    (x y : Sink) (ss : List Sink)
    → count x (add_sink y ss).1
      ≡ count x ss + (if x == y then (if has_sink y ss then 0 else 1) else 0)
unfolding add_sink
count-add_sink x y ss = ground (arith, count-append x ss (y ∷ []))

count-remove_sink :
    (x y : Sink) (ss : List Sink)
    → count x (remove_sink y ss).1 ≡ count x ss - (if x == y then 1 else 0)
unfolding remove_sink
count-remove_sink x y ss = elim (Bool-cases (has_sink y ss)) [
  | inl there ↦ rw there (count-erase_sink x y ss)
  | inr absent ↦ rw absent (ground (arith, has_sink-count y ss, ==_iff x y))
]

length-erase_sink :
    (y : Sink) (ss : List Sink)
    → length (erase_sink y ss) + (if has_sink y ss then 1 else 0) ≡ length ss
unfolding erase_sink has_sink
length-erase_sink y [] = refl
length-erase_sink y (s ∷ ss) = ground (arith, length-erase_sink y ss)

length-add_sink :
    (y : Sink) (ss : List Sink)
    → length (add_sink y ss).1 ≡ length ss + (if (add_sink y ss).0 then 1 else 0)
unfolding add_sink
length-add_sink y ss = ground (arith, length-append ss (y ∷ []))

length-remove_sink :
    (y : Sink) (ss : List Sink)
    → length (remove_sink y ss).1 + (if (remove_sink y ss).0 then 1 else 0) ≡ length ss
unfolding remove_sink
length-remove_sink y ss = ground (arith, length-erase_sink y ss)

length-add_sinks :
    (ns ss : List Sink)
    → let (added, ss') = add_sinks ns ss in
      (length ss ≤ length ss') × (added ≡ ltb (length ss) (length ss'))
unfolding add_sinks
length-add_sinks [] ss = (omega arith, ground arith)
length-add_sinks (n ∷ ns) ss =
    let (longer, grew) = length-add_sinks ns (add_sink n ss).1 in
    let one = length-add_sink n ss in (ground arith, ground arith)

length-remove_sinks :
    (rs ss : List Sink)
    → let (removed, ss') = remove_sinks rs ss in
      (length ss' ≤ length ss) × (removed ≡ ltb (length ss') (length ss))
unfolding remove_sinks
length-remove_sinks [] ss = (omega arith, ground arith)
length-remove_sinks (r ∷ rs) ss =
    let (shorter, shrank) = length-remove_sinks rs (remove_sink r ss).1 in
    let one = length-remove_sink r ss in (ground arith, ground arith)

count-add_sinks :
    (ns ss : List Sink) (x : Sink)
    → count x (add_sinks ns ss).1
      ≡ (if has_sink x ss then count x ss else if has_sink x ns then 1 else 0)
unfolding add_sinks has_sink
count-add_sinks [] ss x = ground (arith, has_sink-count x ss)
count-add_sinks (n ∷ ns) ss x =
    let ss1 = (add_sink n ss).1 in
    ground (
      arith,
      count-add_sinks ns ss1 x,
      count-add_sink x n ss,
      has_sink-count x ss1,
      has_sink-count x ss,
      ==_iff x n,
    )

count-remove_sinks :
    (rs ss : List Sink) (x : Sink) → count x (remove_sinks rs ss).1 ≡ count x ss - count x rs
unfolding remove_sinks
count-remove_sinks [] ss x = omega arith
count-remove_sinks (r ∷ rs) ss x =
    omega (arith, count-remove_sinks rs (remove_sink r ss).1 x, count-remove_sink x r ss)

-- The sinks of `ns` added to a list: a sink that was on it is on it as often as before, any other
-- sink of `ns` is on it once, however often `ns` has it, and no other sink is; the result is true
-- exactly where the list grew.
pub add_sinks_lem :
    (ns ss : List Sink)
    → let (added, ss') = add_sinks ns ss in
      ((x : Sink)
        → count x ss' ≡ (if has_sink x ss then count x ss else if has_sink x ns then 1 else 0))
      × (added ≡ ltb (length ss) (length ss'))
add_sinks_lem ns ss = (count-add_sinks ns ss, (length-add_sinks ns ss).1)

-- The sinks of `rs` removed from a list, each entry of `rs` removing one place at most; the result
-- is true exactly where the list shrank.
pub remove_sinks_lem :
    (rs ss : List Sink)
    → let (removed, ss') = remove_sinks rs ss in
      ((x : Sink) → count x ss' ≡ count x ss - count x rs)
      × (removed ≡ ltb (length ss') (length ss))
remove_sinks_lem rs ss = (count-remove_sinks rs ss, (length-remove_sinks rs ss).1)
