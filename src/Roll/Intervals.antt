-- ===== src/Roll/Intervals.antt =====
-- The interval made at a time holds that time.
use mclog.Base.{ℕ, ◌+◌, ◌*◌, ◌≤◌, ◌<◌, ◌≡◌, refl, arith}
use mclog.Roll.{
  RollPeriod, Field, tm_min, tm_hour, tm_mday, field_to_increment, increment_amount,
  increment_seconds, Tm, get_field, set_mark, Calendar, next_mark, RollInterval, make_interval,
  set_to_current, start_time, end_time,
}
use mclog.Roll.Marks.{mark_loop_lem, unit_seconds, increment_seconds_lem}

abbrev pub seconds_in_month : Tm → ℕ
seconds_in_month t = t.mday * 86400 + t.hour * 3600 + t.min * 60 + t.sec

-- What <time.h> documents, where no change of the zone's offset is near: `localtime_r` gives fields
-- in their ranges, and `mktime` takes day, hour, minute and second beyond their ranges.
pub record IsSteady (c : Calendar) : Type 0 where
  pub sec_range : (t : ℕ) → (c.localtime t).sec < 60
  pub min_range : (t : ℕ) → (c.localtime t).min < 60
  pub hour_range : (t : ℕ) → (c.localtime t).hour < 24
  pub shifted :
      (t d h m s : ℕ)
      → let tms = c.localtime t in
        c.mktime (record tms { mday = d; hour = h; min = m; sec = s }) + seconds_in_month tms
        ≡ t + d * 86400 + h * 3600 + m * 60 + s

abbrev IsNear : ℕ → ℕ → ℕ → Type 0
IsNear now end span = (now < end) × (end ≤ now + span)

module _ (c : Calendar) (steady : IsSteady c) (now : ℕ) where
  -- A mark of the field just above its value is a time just after now.
  set_mark-IsNear :
      (f : Field) (amount mark : ℕ)
      → get_field f (c.localtime now) < mark
      → mark ≤ get_field f (c.localtime now) + amount
      → IsNear now (c.mktime (set_mark f mark (c.localtime now))) (amount * unit_seconds f)
  set_mark-IsNear tm_min amount mark above within =
      let tms = c.localtime now in
      omega (arith, steady.sec_range now, steady.shifted now tms.mday tms.hour mark 0)
  set_mark-IsNear tm_hour amount mark above within =
      let tms = c.localtime now in
      omega
        (arith, steady.sec_range now, steady.min_range now, steady.shifted now tms.mday mark 0 0)
  set_mark-IsNear tm_mday amount mark above within =
      let tms = c.localtime now in
      omega (
        arith,
        steady.sec_range now,
        steady.min_range now,
        steady.hour_range now,
        steady.shifted now mark 0 0 0,
      )

  next_mark-IsNear : (r : RollPeriod) → IsNear now (next_mark c r now) (increment_seconds r)
  unfolding next_mark
  next_mark-IsNear r =
      let (positive, secs) = increment_seconds_lem r in
      let f = field_to_increment r in
      let value = get_field f (c.localtime now) in
      let (above, within, multiple) = mark_loop_lem (increment_amount r) value positive in
      rw secs (set_mark-IsNear f (increment_amount r) _ above within)

  pub set_to_current_holds :
      (ri : RollInterval)
      → let ri' = set_to_current c ri now in
        (start_time ri' ≤ now)
        × (now < end_time ri')
        × (end_time ri' ≤ now + increment_seconds ri.rp)
        × (ri' ≡ make_interval c ri.rp now)
  unfolding set_to_current make_interval start_time end_time
  set_to_current_holds ri = let near = next_mark-IsNear ri.rp in (omega arith, near.0, near.1, refl)
