-- ===== src/Examples/Sources.antt =====
-- Runs of the handling of received packets.
use mclog.Base.{◌≡◌, refl, arith, true, false, [], ◌∷◌, ◌++◌, some, drop, lt→ltb}
use mclog.Packet.{Bytes, make_packet, decrypt}
use mclog.Message.{
  read_message, read_header, read_origin, read_stream, is_valid_hostname, is_valid_app_name,
  is_host_char, is_app_char,
}
use mclog.Source.{
  MulticastSource, MulticastSourceKey, Times, key_of, new_source, finish_query, process_packet,
  process_backlog, backlog_messages, open_packet, clear_old_entries, clear_old_backlog,
  reject_packet, start_query, copy_key, seconds,
}
use mclog.Source.Faults.{is_some, process_packet-is_some}
use mclog.Source.Queries.{
  Arrivals, process_packet_queries, process_packets, process_packet_after_key, in_order, opened_by,
}
use mclog.Examples.{aead, io, hello, queue_accepts}

abbrev at_ten : Times
at_ten = record {
  received = seconds 10;
  queued = seconds 10;
  checked = seconds 10;
  cleared = seconds 10;
}

-- A source whose key was brought a moment ago.
abbrev keyed : MulticastSource
keyed = record {
  key = record { value = 3 ∷ []; last_requested = 0; last_queried = 0; last_updated = seconds 10 };
  backlog = [];
  query_done = true;
  last_receive_time = 0;
}

-- Three bytes, as many as nonce and authentication code have.
process_packet-is_some_example :
    is_some (process_packet aead io queue_accepts at_ten (1 ∷ 2 ∷ 3 ∷ []) keyed) ≡ false
process_packet-is_some_example =
    process_packet-is_some aead io queue_accepts at_ten (1 ∷ 2 ∷ 3 ∷ []) keyed

-- A datagram that the key does not open: its text is lost.
abbrev unopened : MulticastSource
unopened = record {
  key = key_of [];
  backlog = record { receive_time = seconds 10; bytes = 1 ∷ 2 ∷ 0 ∷ 4 ∷ [] } ∷ [];
  query_done = false;
  last_receive_time = seconds 10;
}

unopened_run :
    process_packet aead io queue_accepts at_ten (1 ∷ 2 ∷ 3 ∷ 4 ∷ []) keyed
    ≡ some (false, [], unopened)
unfolding process_packet process_backlog backlog_messages open_packet make_packet decrypt copy_key
    reject_packet start_query clear_old_backlog clear_old_entries
unopened_run = refl

process_packet_queries_example : unopened.query_done ≡ false
process_packet_queries_example =
    process_packet_queries aead io queue_accepts at_ten (1 ∷ 2 ∷ 3 ∷ 4 ∷ []) keyed (omega arith)
      unopened_run refl

-- `hello` in a datagram, behind a nonce and the byte of the authentication code.
abbrev hello_datagram : Bytes
hello_datagram = 0 ∷ 0 ∷ 7 ∷ 1000 ∷ 8 ∷ 6 ∷ 2 ∷ 97 ∷ 98 ∷ 1 ∷ 99 ∷ 5 ∷ 2 ∷ 104 ∷ 105 ∷ []

abbrev found : MulticastSourceKey
found = key_of (3 ∷ [])

hello_opened :
    open_packet aead io (3 ∷ []) hello_datagram
    ≡ some (some (hello ∷ []), 0 ∷ 0 ∷ drop 3 hello_datagram ++ 105 ∷ [])
unfolding open_packet make_packet decrypt read_stream read_message read_header read_origin
    is_valid_hostname is_valid_app_name is_host_char is_app_char
hello_opened = refl

abbrev held : Arrivals
held = (at_ten, hello_datagram) ∷ []

held_in_order : in_order aead io (3 ∷ []) held ≡ hello ∷ []
held_in_order = rw (hello_opened, opened_by) refl

process_packet_after_key_example :
    (s1 s2 : MulticastSource) × (process_packets aead io queue_accepts held new_source
      ≡ some ([], s1))
    × (process_packet aead io queue_accepts at_ten hello_datagram (finish_query found s1)
        ≡ some (true, in_order aead io (3 ∷ []) held ++ hello ∷ [], s2))
    × (s2.backlog ≡ [])
unfolding new_source
process_packet_after_key_example =
    process_packet_after_key aead io queue_accepts (seconds 10) held new_source found at_ten
      hello_datagram (λ q h. lt→ltb _ _ h) refl refl (omega arith, omega arith, tt) (omega arith)
      refl (omega arith, tt) hello_opened
