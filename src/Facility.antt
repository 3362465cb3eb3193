-- ===== src/Facility.antt =====
-- DwmMclogFacility.hh and DwmMclogFacility.cc: message facilities, their names and their text form.
-- A facility is a `uint8_t`, and one read from a packet can be any byte; the named ones have the
-- values of <syslog.h>.
pub mod Names
use mclog.Base.{
  ℕ, Text, codes, List, [], ◌∷◌, Option, none, some, Bool, true, false, find_first, find_second,
  if◌then◌else◌, ◌>>=◌,
}
use mclog.Stream.{read_word}

abbrev pub Facility : Type 0
Facility = ℕ

abbrev pub kernel : Facility
kernel = 0

abbrev pub user : Facility
user = 8

abbrev pub mail : Facility
mail = 16

abbrev pub daemon : Facility
daemon = 24

abbrev pub auth : Facility
auth = 32

abbrev pub syslog : Facility
syslog = 40

abbrev pub lpr : Facility
lpr = 48

abbrev pub news : Facility
news = 56

abbrev pub uucp : Facility
uucp = 64

abbrev pub cron : Facility
cron = 72

abbrev pub authpriv : Facility
authpriv = 80

abbrev pub ftp : Facility
ftp = 88

abbrev pub local0 : Facility
local0 = 128

abbrev pub local1 : Facility
local1 = 136

abbrev pub local2 : Facility
local2 = 144

abbrev pub local3 : Facility
local3 = 152

abbrev pub local4 : Facility
local4 = 160

abbrev pub local5 : Facility
local5 = 168

abbrev pub local6 : Facility
local6 = 176

abbrev pub local7 : Facility
local7 = 184

abbrev pub g_facilities : List (ℕ × Text)
g_facilities =
    (kernel, codes "kernel")
    ∷ (user, codes "user")
    ∷ (mail, codes "mail")
    ∷ (daemon, codes "daemon")
    ∷ (auth, codes "auth")
    ∷ (syslog, codes "syslog")
    ∷ (lpr, codes "lpr")
    ∷ (news, codes "news")
    ∷ (uucp, codes "uucp")
    ∷ (cron, codes "cron")
    ∷ (authpriv, codes "authpriv")
    ∷ (ftp, codes "ftp")
    ∷ (local0, codes "local0")
    ∷ (local1, codes "local1")
    ∷ (local2, codes "local2")
    ∷ (local3, codes "local3")
    ∷ (local4, codes "local4")
    ∷ (local5, codes "local5")
    ∷ (local6, codes "local6")
    ∷ (local7, codes "local7")
    ∷ []

-- `FacilityName`
unfoldable pub facility_name : Facility → Text
facility_name f = elim (find_first f g_facilities) [ none ↦ codes "unknown" | some s ↦ s ]

-- `FacilityValue`
unfoldable pub facility_value : Text → Facility
facility_value s = elim (find_second s g_facilities) [ none ↦ local7 | some f ↦ f ]

-- `operator <<`
unfoldable pub print_facility : Facility → Text
unfolding facility_name
print_facility f = facility_name f

-- `operator >>`: any word is accepted, and one that is no facility's name reads as `local7`.
unfoldable pub parse_facility : Text → Option (Facility × Text)
parse_facility is = do (s, rest) ← read_word is; some (facility_value s, rest)

-- `Facilities`: those whose name the regular expression matches; the matcher is `std::regex`'s.
unfoldable pub collect_matching : (Text → Bool) → List (ℕ × Text) → List Facility
collect_matching regex_match [] = []
collect_matching regex_match ((f, s) ∷ t) =
    let rest = collect_matching regex_match t in if regex_match s then f ∷ rest else rest

unfoldable pub facilities : (Text → Bool) → List Facility
unfolding collect_matching
facilities regex_match = collect_matching regex_match g_facilities
