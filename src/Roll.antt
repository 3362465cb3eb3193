-- ===== src/Roll.antt =====
-- DwmMclogRollPeriod.hh, DwmMclogRollPeriod.cc, DwmMclogRollInterval.hh and
-- DwmMclogRollInterval.cc: how often a log file is rolled, and the interval in which it is
-- current. Times are seconds since the epoch; the calendar functions of <time.h> are a parameter,
-- since they read the time zone.
pub mod Marks
pub mod Intervals
use mclog.Base.{
  ℕ, zero, suc, ◌+◌, ◌-◌, ◌≤◌, ◌<◌, ◌*◌, ◌≡◌, Bool, true, false, Text, text_eq, codes, List, [],
  ◌∷◌, Option, none, some, leb, ◌==◌, if◌then◌else◌,
}

pub data RollPeriod : Type 0 where
  minutes_5 minutes_15 minutes_30 hours_1 hours_2 hours_4 hours_6 hours_8 hours_12 days_1 days_7 :
      RollPeriod

-- The values that C++ gives the enumerators.
abbrev pub period_index : RollPeriod → ℕ
period_index minutes_5 = 0
period_index minutes_15 = 1
period_index minutes_30 = 2
period_index hours_1 = 3
period_index hours_2 = 4
period_index hours_4 = 5
period_index hours_6 = 6
period_index hours_8 = 7
period_index hours_12 = 8
period_index days_1 = 9
period_index days_7 = 10

abbrev pub roll_periods : List (Text × RollPeriod)
roll_periods =
    (codes "5m", minutes_5)
    ∷ (codes "15m", minutes_15)
    ∷ (codes "30m", minutes_30)
    ∷ (codes "60m", hours_1)
    ∷ (codes "1h", hours_1)
    ∷ (codes "2h", hours_2)
    ∷ (codes "4h", hours_4)
    ∷ (codes "6h", hours_6)
    ∷ (codes "8h", hours_8)
    ∷ (codes "12h", hours_12)
    ∷ (codes "24h", days_1)
    ∷ (codes "1d", days_1)
    ∷ (codes "7d", days_7)
    ∷ []

abbrev pub find_period : Text → List (Text × RollPeriod) → RollPeriod
find_period s [] = days_1
find_period s ((t, rp) ∷ rest) = if text_eq t s then rp else find_period s rest

-- `GetRollPeriod`
unfoldable pub get_roll_period : Text → RollPeriod
get_roll_period s = find_period s roll_periods

-- The members of `struct tm` that the code reads or sets; the rest stays as `localtime_r` left it.
pub record Tm : Type 0 where
  pub year : ℕ
  pub mon : ℕ
  pub mday : ℕ
  pub hour : ℕ
  pub min : ℕ
  pub sec : ℕ

-- The pointers to members that the table holds.
pub data Field : Type 0 where
  tm_min tm_hour tm_mday : Field

pub record IncrementInfo : Type 0 where
  pub rp : RollPeriod
  pub field : Field
  pub amount : ℕ
  pub secs : ℕ

abbrev info : RollPeriod → Field → ℕ → ℕ → IncrementInfo
info r f a s = record { rp = r; field = f; amount = a; secs = s }

abbrev pub g_increment_info : List IncrementInfo
g_increment_info =
    info minutes_5 tm_min 5 300
    ∷ info minutes_15 tm_min 15 900
    ∷ info minutes_30 tm_min 30 1800
    ∷ info hours_1 tm_hour 1 3600
    ∷ info hours_2 tm_hour 2 7200
    ∷ info hours_4 tm_hour 4 14400
    ∷ info hours_6 tm_hour 6 21600
    ∷ info hours_8 tm_hour 8 28800
    ∷ info hours_12 tm_hour 12 43200
    ∷ info days_1 tm_mday 1 86400
    ∷ info days_7 tm_mday 7 604800
    ∷ []

abbrev pub find_info : RollPeriod → List IncrementInfo → Option IncrementInfo
find_info r [] = none
find_info r (i ∷ rest) = if period_index i.rp == period_index r then some i else find_info r rest

unfoldable pub field_to_increment : RollPeriod → Field
field_to_increment r = elim (find_info r g_increment_info) [ none ↦ tm_mday | some i ↦ i.field ]

unfoldable pub increment_amount : RollPeriod → ℕ
increment_amount r = elim (find_info r g_increment_info) [ none ↦ 1 | some i ↦ i.amount ]

unfoldable pub increment_seconds : RollPeriod → ℕ
increment_seconds r = elim (find_info r g_increment_info) [ none ↦ 1 | some i ↦ i.secs ]

-- `tms.*field`
abbrev pub get_field : Field → Tm → ℕ
get_field tm_min t = t.min
get_field tm_hour t = t.hour
get_field tm_mday t = t.mday

-- `while (mark <= tms.*field) { mark += amount; }`, with fuel.
unfoldable pub mark_loop : ℕ → ℕ → ℕ → ℕ → ℕ
mark_loop zero amount value mark = mark
mark_loop (suc fuel) amount value mark =
    let next = mark_loop fuel amount value (mark + amount) in if leb mark value then next else mark

-- The field set to its mark, and the finer ones cleared.
abbrev pub set_mark : Field → ℕ → Tm → Tm
set_mark tm_mday mark t = record t { mday = mark; hour = 0; min = 0; sec = 0 }
set_mark tm_hour mark t = record t { hour = mark; min = 0; sec = 0 }
set_mark tm_min mark t = record t { min = mark; sec = 0 }

pub record Calendar : Type 0 where
  pub localtime : ℕ → Tm
  pub mktime : Tm → ℕ

module _ (c : Calendar) where
  -- `NextMark` at the time `now`; the loop runs at most once more than the field's value.
  unfoldable pub next_mark : RollPeriod → ℕ → ℕ
  unfolding field_to_increment increment_amount mark_loop
  next_mark r now =
      let tms = c.localtime now in
      let field = field_to_increment r in
      let value = get_field field tms in
      c.mktime (set_mark field (mark_loop (value + 1) (increment_amount r) value 0) tms)

pub record RollInterval : Type 0 where
  pub rp : RollPeriod
  pub end : ℕ

module _ (c : Calendar) where
  -- `RollInterval(RollPeriod)`
  unfoldable pub make_interval : RollPeriod → ℕ → RollInterval
  unfolding next_mark
  make_interval r now = record { rp = r; end = next_mark c r now }

  unfoldable pub set_to_current : RollInterval → ℕ → RollInterval
  unfolding next_mark
  set_to_current ri now = record ri { end = next_mark c ri.rp now }

-- The model's times are late enough for the difference not to pass below the epoch.
unfoldable pub start_time : RollInterval → ℕ
unfolding increment_seconds
start_time ri = ri.end - increment_seconds ri.rp

unfoldable pub end_time : RollInterval → ℕ
end_time ri = ri.end
