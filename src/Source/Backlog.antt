-- ===== src/Source/Backlog.antt =====
-- Which entries of the backlog are dropped, and what becomes of the others.
use mclog.Base.{ℕ, ◌+◌, ◌≤◌, ◌≡◌, refl, Bool, true, List, [], ◌∷◌, ltb, filter, arith}
use mclog.Source.{BacklogEntry, clear_old_entries, seconds}

abbrev pub is_fresh : ℕ → BacklogEntry → Bool
is_fresh now e = ltb now (e.receive_time + seconds 5)

-- Each entry was received no later than those behind it.
abbrev pub IsOrdered : List BacklogEntry → Type 0
IsOrdered [] = Unit
IsOrdered (e ∷ []) = Unit
IsOrdered (e ∷ f ∷ es) = (e.receive_time ≤ f.receive_time) × IsOrdered (f ∷ es)

all_fresh :
    (now : ℕ) (e : BacklogEntry) (es : List BacklogEntry)
    → IsOrdered (e ∷ es)
    → is_fresh now e ≡ true
    → filter (is_fresh now) (e ∷ es) ≡ e ∷ es
all_fresh now e [] o h = ground arith
all_fresh now e (f ∷ es) o h = ground (arith, all_fresh now f es o.1)

-- On a backlog in the order of receipt, exactly the entries younger than five seconds stay, in
-- their order, although the loop stops at the first of them.
pub clear_old_entries-eq-filter :
    (now : ℕ) (es : List BacklogEntry)
    → IsOrdered es
    → clear_old_entries now es ≡ filter (is_fresh now) es
unfolding clear_old_entries
clear_old_entries-eq-filter now [] o = refl
clear_old_entries-eq-filter now (e ∷ []) o = ground arith
clear_old_entries-eq-filter now (e ∷ f ∷ es) o =
    ground (arith, all_fresh now e (f ∷ es) o, clear_old_entries-eq-filter now (f ∷ es) o.1)
