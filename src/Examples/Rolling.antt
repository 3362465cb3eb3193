-- ===== src/Examples/Rolling.antt =====
-- Runs of the functions on marks and intervals.
use mclog.Base.{ℕ, ◌*◌, ◌≤◌, ◌<◌, ◌≡◌, arith}
use mclog.Roll.{mark_loop}
use mclog.Roll.Marks.{mark_loop_lem}

mark_loop_lem_example :
    (37 < mark_loop 38 15 37 0)
    × (mark_loop 38 15 37 0 ≤ 52)
    × ((j : ℕ) × (mark_loop 38 15 37 0 ≡ 15 * j))
mark_loop_lem_example = mark_loop_lem 15 37 (omega arith)
