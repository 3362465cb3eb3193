-- ===== src/Examples/Endpoints.antt =====
-- Runs of the table of sources, with numbers for addresses.
use mclog.Base.{ℕ, ◌≡◌, refl, arith, true, false, [], ◌∷◌, some, ltb, ◌==◌, ==_iff}
use mclog.Source.{
  MulticastSource, Times, seconds, new_source, key_of, process_packet, hold_packet, start_query,
  copy_key, clear_old_backlog, clear_old_entries,
}
use mclog.Table.{
  Addresses, UdpEndpoint, endpoint_less, equivalent, Sources, find_source, put_source, clear_old,
  process_from,
}
use mclog.Table.Order.{IsOrder}
use mclog.Table.Isolation.{IsTable, IsRouted, process_from_lem}
use mclog.Examples.{aead, io, queue_accepts}

abbrev pub numbers : Addresses
numbers = record { IpAddress = ℕ; less = ltb; equal = ◌==◌ }

pub numbers-IsOrder : IsOrder numbers
numbers-IsOrder = record {
  equal_iff = ==_iff;
  irreflexive = λ x. ground arith;
  transitive = λ x y z h k. ground arith;
  total = λ x y h k. ground arith;
}

abbrev pub at_port : ℕ → UdpEndpoint numbers
at_port p = record { addr = 10; port = p }

abbrev pub at_thirty : Times
at_thirty = record {
  received = seconds 30;
  queued = seconds 30;
  checked = seconds 30;
  cleared = seconds 30;
}

abbrev silent : MulticastSource
silent = record { key = key_of []; backlog = []; query_done = true; last_receive_time = 5 }

abbrev table : Sources numbers
table = (at_port 1, silent) ∷ []

table-IsTable : IsTable table
unfolding find_source
table-IsTable = (refl, tt)

-- The source after its first packet; the silent one has expired.
abbrev first : MulticastSource
first = record {
  key = key_of [];
  backlog = record { receive_time = seconds 30; bytes = 4 ∷ [] } ∷ [];
  query_done = false;
  last_receive_time = seconds 30;
}

ran :
    process_from numbers aead io queue_accepts (at_port 2) at_thirty (seconds 30) (4 ∷ []) table
    ≡ some ([], (at_port 2, first) ∷ [])
unfolding process_from find_source put_source clear_old equivalent endpoint_less process_packet
    hold_packet start_query copy_key new_source clear_old_backlog clear_old_entries
ran = refl

process_from_lem_example :
    IsRouted numbers aead io queue_accepts
      (at_port 2)
      at_thirty
      (seconds 30)
      (4 ∷ [])
      table
      []
      ((at_port 2, first) ∷ [])
process_from_lem_example =
    process_from_lem numbers aead io queue_accepts (at_port 2) at_thirty (seconds 30) (4 ∷ []) table
      numbers-IsOrder table-IsTable (omega arith) ran
