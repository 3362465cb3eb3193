-- ===== src/Roll/Marks.antt =====
-- The loop of `NextMark`, and the table that it reads.
use mclog.Base.{ℕ, zero, suc, ◌+◌, ◌*◌, ◌≤◌, ◌<◌, ◌≡◌, refl, arith, leb, Bool-cases, inl, inr}
use mclog.Roll.{
  RollPeriod, minutes_5, Field, tm_min, tm_hour, tm_mday, field_to_increment, increment_amount,
  increment_seconds, mark_loop,
}

mark_loop_between :
    (fuel amount value mark : ℕ)
    → 0 < amount
    → value < mark + fuel
    → mark ≤ value + amount
    → (value < mark_loop fuel amount value mark)
      × (mark_loop fuel amount value mark ≤ value + amount)
unfolding mark_loop
mark_loop_between zero amount value mark p f h = (omega arith, h)
mark_loop_between (suc fuel) amount value mark p f h =
    ground (arith, mark_loop_between fuel amount value (mark + amount) p)

mark_loop_multiple :
    (fuel amount value mark k : ℕ)
    → mark ≡ amount * k
    → (j : ℕ) × (mark_loop fuel amount value mark ≡ amount * j)
unfolding mark_loop
mark_loop_multiple zero amount value mark k e = (k, e)
mark_loop_multiple (suc fuel) amount value mark k e = elim (Bool-cases (leb mark value)) [
  | inl on ↦ rw on (mark_loop_multiple fuel amount value (mark + amount) (k + 1) (grind arith))
  | inr off ↦ rw off (k, e)
]

-- The loop ends by its test, at the least multiple of the amount that lies above the value.
pub mark_loop_lem :
    (amount value : ℕ)
    → 0 < amount
    → let mark = mark_loop (value + 1) amount value 0 in
      (value < mark) × (mark ≤ value + amount) × ((j : ℕ) × (mark ≡ amount * j))
mark_loop_lem amount value p =
    let between = mark_loop_between (value + 1) amount value 0 p (omega arith) (omega arith) in
    (between.0, between.1, mark_loop_multiple (value + 1) amount value 0 0 (omega arith))

abbrev pub unit_seconds : Field → ℕ
unit_seconds tm_min = 60
unit_seconds tm_hour = 3600
unit_seconds tm_mday = 86400

-- Every period has an entry, and its seconds are its amount of its field's unit.
pub increment_seconds_lem :
    (r : RollPeriod)
    → (0 < increment_amount r)
      × (increment_seconds r ≡ increment_amount r * unit_seconds (field_to_increment r))
unfolding increment_amount increment_seconds field_to_increment
increment_seconds_lem minutes_5 = (omega arith, refl)
increment_seconds_lem _ = (omega arith, refl)
