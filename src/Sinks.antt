-- ===== src/Sinks.antt =====
-- The lists of sinks, of DwmMclogLogger.cc, DwmMclogMulticastReceiver.cc and
-- apps/mclogd/DwmMclogLoopbackReceiver.cc: pointers, searched by `std::find`. A pointer is a number,
-- and `nullptr` is 0.
pub mod Counts
use mclog.Base.{ℕ, Bool, true, false, ◌||◌, List, [], ◌∷◌, ◌++◌, ◌==◌, if◌then◌else◌}

abbrev pub Sink : Type 0
Sink = ℕ

-- `std::find(_sinks.begin(), _sinks.end(), sink) != _sinks.end()`
unfoldable pub has_sink : Sink → List Sink → Bool
has_sink x [] = false
has_sink x (s ∷ ss) = x == s || has_sink x ss

-- `_sinks.erase(it)` of the first place where the sink is.
unfoldable pub erase_sink : Sink → List Sink → List Sink
erase_sink x [] = []
erase_sink x (s ∷ ss) = let rest = s ∷ erase_sink x ss in if x == s then ss else rest

-- `AddSink` and `RemoveSink` of a receiver, with what they return.
unfoldable pub add_sink : Sink → List Sink → Bool × List Sink
add_sink x ss = if has_sink x ss then (false, ss) else (true, ss ++ (x ∷ []))

unfoldable pub remove_sink : Sink → List Sink → Bool × List Sink
remove_sink x ss = if has_sink x ss then (true, erase_sink x ss) else (false, ss)

-- `AddSinks` and `RemoveSinks` of the logger.
unfoldable pub add_sinks : List Sink → List Sink → Bool × List Sink
add_sinks [] ss = (false, ss)
add_sinks (x ∷ xs) ss =
    let (added, ss1) = add_sink x ss in
    let (others, ss2) = add_sinks xs ss1 in (added || others, ss2)

unfoldable pub remove_sinks : List Sink → List Sink → Bool × List Sink
remove_sinks [] ss = (false, ss)
remove_sinks (x ∷ xs) ss =
    let (removed, ss1) = remove_sink x ss in
    let (others, ss2) = remove_sinks xs ss1 in (removed || others, ss2)
