-- ===== src/Facility/Names.antt =====
-- Names and values of facilities.
use mclog.Base.{
  ℕ, ◌<◌, ◌≡◌, refl, Bool, true, ◌&&◌, ◌||◌, ◌==◌, leb, ltb, ◌%◌, holds_below, holds_below→holds,
  ==_iff, if◌then◌else◌,
}
use mclog.Facility.{Facility, facility_name, facility_value, local7}

-- The facilities with a name: multiples of 8 up to `local7`, but for the four that syslog reserves.
abbrev pub is_named : ℕ → Bool
is_named f = f % 8 == 0 && (ltb f 96 || leb 128 f && leb f 184)

names_table :
    holds_below (λ f. facility_value (facility_name f) == (if is_named f then f else local7)) 256
    ≡ true
unfolding holds_below facility_name facility_value
names_table = refl

-- For every byte: the name of a named facility stands for that facility, and the name of any other
-- byte reads back as `local7`.
pub facility_value-facility_name :
    (f : Facility) → f < 256 → facility_value (facility_name f) ≡ (if is_named f then f else local7)
facility_value-facility_name f h = (==_iff _ _).0 (holds_below→holds _ 256 f h names_table)
