-- ===== src/Examples/Receivers.antt =====
-- Runs of the thread that receives multicast packets.
use mclog.Base.{◌≡◌, refl, true, false, List, [], ◌∷◌, ◌++◌, Option, none, some, replicate}
use mclog.Table.{UdpEndpoint}
use mclog.Receiver.Run.{Arrival, Selected, Receipts, run}
use mclog.Receiver.Turns.{process_arrivals, run_lem, run-stop}
use mclog.Examples.{aead, io, queue_accepts}
use mclog.Examples.Endpoints.{numbers, at_thirty}

-- A packet of five bytes from an address.
abbrev from_address : UdpEndpoint numbers → Arrival numbers
from_address e = record { sender = e; bytes = replicate 5 1; times = at_thirty; now = 0 }

-- This host's addresses are 10 and 11.
abbrev selected : List (Option (Selected numbers))
selected =
    some (record {
      on_stop = false;
      on4 = some (some (from_address (record { addr = 10; port = 1 })));
      on6 = some (some (from_address (record { addr = 12; port = 1 })));
    })
    ∷ none
    ∷ some (record {
      on_stop = false;
      on4 = some (some (from_address (record { addr = 13; port = 1 })));
      on6 = some none;
    })
    ∷ []

abbrev stop : Selected numbers
stop = record {
  on_stop = true;
  on4 = some (some (from_address (record { addr = 14; port = 1 })));
  on6 = none;
}

abbrev nothing : Receipts numbers
nothing = record { sources = []; messages = [] }

run_lem_example :
    run numbers aead io queue_accepts false true true 10 11 selected nothing
    ≡ process_arrivals numbers aead io queue_accepts false true true 10 11
        (from_address (record { addr = 12; port = 1 })
          ∷ from_address (record { addr = 13; port = 1 })
          ∷ [])
        nothing
run_lem_example = run_lem numbers aead io queue_accepts false true true 10 11 selected nothing refl

run-stop_example :
    run numbers aead io queue_accepts false true true 10 11
      (selected ++ some stop ∷ selected)
      nothing
    ≡ run numbers aead io queue_accepts false true true 10 11 selected nothing
run-stop_example =
    run-stop numbers aead io queue_accepts false true true 10 11 selected selected stop nothing refl
