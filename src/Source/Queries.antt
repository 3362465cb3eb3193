-- ===== src/Source/Queries.antt =====
-- When a source asks for its key, and what becomes of the packets that wait for it.
use mclog.Base.{
  ℕ, ◌+◌, ◌≤◌, ◌<◌, ◌≡◌, ◌∙◌, refl, ap, sym, Bool, true, false, List, [], ◌∷◌, ◌++◌, Option, none,
  some, ltb, is_empty, arith, length, ◌>>=◌, append-nil, append_assoc, length-append, Option-cases,
  inl, inr,
}
use mclog.Packet.{Bytes, Aead, k_min_packet_len, make_packet}
use mclog.Message.{Message, StreamIo}
use mclog.Source.{
  BacklogEntry, MulticastSource, MulticastSourceKey, Times, copy_key, seconds, start_query,
  finish_query, clear_old_entries, clear_old_backlog, open_packet, backlog_messages,
  process_backlog, reject_packet, hold_packet, process_packet,
}

module _ (c : Aead) (io : StreamIo) (accepts : List BacklogEntry → Bool) where
  -- After any packet, a source that is left without a key has a query under way: a packet that the
  -- key does not open starts one, unless one runs, however recently the key was updated (the clock
  -- is past its first five seconds).
  pub process_packet_queries :
      (t : Times) (bytes : Bytes) (s : MulticastSource) {rc : Bool} {ms : List Message}
      {s' : MulticastSource}
      → seconds 5 < t.checked
      → process_packet c io accepts t bytes s ≡ some (rc, ms, s')
      → is_empty s'.key.value ≡ true
      → s'.query_done ≡ false
  unfolding process_packet process_backlog copy_key reject_packet hold_packet start_query
      clear_old_backlog
  process_packet_queries t bytes s late h no_key = ground arith

-- The datagrams that arrive before the key does, each with the clock's readings.
abbrev pub Arrivals : Type 0
Arrivals = List (Times × Bytes)

abbrev pub entries : Arrivals → List BacklogEntry
entries [] = []
entries ((t, bytes) ∷ ds) = record { receive_time = t.queued; bytes = bytes } ∷ entries ds

-- All were queued no earlier than `begin` and looked at less than five seconds after it.
abbrev pub AllSoon : ℕ → Arrivals → Type 0
AllSoon begin [] = Unit
AllSoon begin ((t, bytes) ∷ ds) =
    (begin ≤ t.queued) × (t.cleared < begin + seconds 5) × AllSoon begin ds

abbrev pub NoneBefore : ℕ → List BacklogEntry → Type 0
NoneBefore begin [] = Unit
NoneBefore begin (e ∷ es) = (begin ≤ e.receive_time) × NoneBefore begin es

NoneBefore-append :
    (begin : ℕ) (es fs : List BacklogEntry)
    → NoneBefore begin es
    → NoneBefore begin fs
    → NoneBefore begin (es ++ fs)
NoneBefore-append begin [] fs h k = k
NoneBefore-append begin (e ∷ es) fs h k = (h.0, NoneBefore-append begin es fs h.1 k)

keep_soon :
    (begin now : ℕ) (es : List BacklogEntry)
    → NoneBefore begin es
    → now < begin + seconds 5
    → clear_old_entries now es ≡ es
unfolding clear_old_entries
keep_soon begin now [] h soon = refl
keep_soon begin now (e ∷ es) h soon = ground arith

module _ (c : Aead) (io : StreamIo) (accepts : List BacklogEntry → Bool) where
  -- `ProcessPacket` on one datagram after another, with all the messages given to each sink.
  unfoldable pub process_packets :
      Arrivals → MulticastSource → Option (List Message × MulticastSource)
  process_packets [] s = some ([], s)
  process_packets ((t, bytes) ∷ ds) s = do
    (rc, ms, s1) ← process_packet c io accepts t bytes s
    (rest, s2) ← process_packets ds s1
    some (ms ++ rest, s2)

  module _ (room : (q : List BacklogEntry) → length q < 100 → accepts q ≡ true) where
    -- One datagram without a key.
    after_hold : Times → Bytes → MulticastSource → MulticastSource
    after_hold t bytes s =
        clear_old_backlog t.cleared
          (hold_packet accepts t bytes (record s { last_receive_time = t.received }))

    held_one :
        (begin : ℕ) (t : Times) (bytes : Bytes) (s : MulticastSource)
        → is_empty s.key.value ≡ true
        → NoneBefore begin s.backlog
        → begin ≤ t.queued
        → t.cleared < begin + seconds 5
        → length s.backlog < 100
        → (process_packet c io accepts t bytes s ≡ some (true, [], after_hold t bytes s))
          × ((after_hold t bytes s).backlog
              ≡ s.backlog ++ record { receive_time = t.queued; bytes = bytes } ∷ [])
          × ((after_hold t bytes s).key ≡ s.key)
    unfolding process_packet copy_key after_hold clear_old_backlog hold_packet start_query
    held_one begin t bytes s no_key old at soon few =
        let entry : BacklogEntry = record { receive_time = t.queued; bytes = bytes } in
        let accepted = room s.backlog few in
        let grown = s.backlog ++ entry ∷ [] in
        let kept =
          keep_soon begin t.cleared grown
            (NoneBefore-append begin s.backlog (entry ∷ []) old (at, tt)) soon in
        (rw no_key refl, ground (arith, accepted, kept), ground arith)

    process_packets_held :
        (begin : ℕ) (ds : Arrivals) (s : MulticastSource)
        → is_empty s.key.value ≡ true
        → NoneBefore begin s.backlog
        → AllSoon begin ds
        → length s.backlog + length ds ≤ 100
        → (s' : MulticastSource) × (process_packets ds s ≡ some ([], s'))
          × (s'.backlog ≡ s.backlog ++ entries ds)
          × (is_empty s'.key.value ≡ true)
    unfolding process_packets
    process_packets_held begin [] s no_key old soon few =
        (s, refl, sym (append-nil s.backlog), no_key)
    process_packets_held begin ((t, bytes) ∷ ds) s no_key old soon few =
        let entry : BacklogEntry = record { receive_time = t.queued; bytes = bytes } in
        let s1 = after_hold t bytes s in
        let (first, grown, same_key) =
          held_one begin t bytes s no_key old soon.0 soon.1 (omega arith) in
        let no_key1 : is_empty s1.key.value ≡ true = rw same_key no_key in
        let old1 : NoneBefore begin s1.backlog =
          rw grown (NoneBefore-append begin s.backlog (entry ∷ []) old (soon.0, tt)) in
        let few1 : length s1.backlog + length ds ≤ 100 =
          rw grown (omega (arith, length-append s.backlog (entry ∷ []))) in
        let (s2, others, all, no_key2) =
          process_packets_held begin ds s1 no_key1 old1 soon.2 few1 in
        (
          s2,
          rw (first, others) refl,
          all
              ∙ ap (λ es. es ++ entries ds) grown
              ∙ append_assoc s.backlog (entry ∷ []) (entries ds),
          no_key2,
        )

-- The messages of a datagram, and none where the key does not open it.
abbrev pub opened_by : Aead → StreamIo → Bytes → Bytes → List Message
opened_by c io key bytes = elim (open_packet c io key bytes) [
  | none ↦ []
  | some (none, left) ↦ []
  | some (some ms, left) ↦ ms
]

-- Those of the datagrams in the order in which they arrived, and that none of them is short.
abbrev pub in_order : Aead → StreamIo → Bytes → Arrivals → List Message
in_order c io key [] = []
in_order c io key ((t, bytes) ∷ ds) = opened_by c io key bytes ++ in_order c io key ds

abbrev pub AllLong : Aead → Arrivals → Type 0
AllLong c [] = Unit
AllLong c ((t, bytes) ∷ ds) = (k_min_packet_len c < length bytes) × AllLong c ds

open_packet_long :
    (c : Aead) (io : StreamIo) (key bytes : Bytes)
    → k_min_packet_len c < length bytes
    → (opened : Option (List Message)) × (left : Bytes) × (open_packet c io key bytes
        ≡ some (opened, left))
unfolding open_packet make_packet
open_packet_long c io key bytes long =
    let made : ltb (k_min_packet_len c) (length bytes) ≡ true = ground arith in rw made (_, _, refl)

backlog_messages-entries :
    (c : Aead) (io : StreamIo) (key : Bytes) (ds : Arrivals)
    → AllLong c ds
    → backlog_messages c io key (entries ds) ≡ some (in_order c io key ds)
unfolding backlog_messages
backlog_messages-entries c io key [] long = refl
backlog_messages-entries c io key ((t, bytes) ∷ ds) long =
    let (opened, left, opens) = open_packet_long c io key bytes long.0 in
    elim (Option-cases opened) [
      | inl fails ↦
          let closed : open_packet c io key bytes ≡ some (none, left) = rw (opens, fails) refl in
          rw (closed, opened_by, backlog_messages-entries c io key ds long.1) refl
      | inr (ms, read) ↦
          let reads : open_packet c io key bytes ≡ some (some ms, left) = rw (opens, read) refl in
          rw (reads, opened_by, backlog_messages-entries c io key ds long.1) refl
    ]

-- The datagrams that came while there was no key are kept, at most a hundred and within five
-- seconds of the first; once the query has brought a key that opens a later datagram, and where
-- none of them is as short as a nonce and an authentication code, the messages of those that the
-- key opens are given to the sinks in the order of arrival, ahead of that datagram's, and the
-- backlog is empty.
pub process_packet_after_key :
    (c : Aead) (io : StreamIo) (accepts : List BacklogEntry → Bool) (begin : ℕ) (ds : Arrivals)
    (s : MulticastSource) (k : MulticastSourceKey) (t : Times) (bytes : Bytes) {ms : List Message}
    {left : Bytes}
    → ((q : List BacklogEntry) → length q < 100 → accepts q ≡ true)
    → is_empty s.key.value ≡ true
    → s.backlog ≡ []
    → AllSoon begin ds
    → length ds ≤ 100
    → is_empty k.value ≡ false
    → AllLong c ds
    → open_packet c io k.value bytes ≡ some (some ms, left)
    → (s1 s2 : MulticastSource) × (process_packets c io accepts ds s ≡ some ([], s1))
      × (process_packet c io accepts t bytes (finish_query k s1)
          ≡ some (ltb 0 (length ms), in_order c io k.value ds ++ ms, s2))
      × (s2.backlog ≡ [])
unfolding process_packet process_backlog copy_key finish_query clear_old_backlog clear_old_entries
process_packet_after_key c io accepts begin ds s k t bytes room no_key empty soon few some_key long
      now =
    let none_before : NoneBefore begin s.backlog = rw empty tt in
    let (s1, held, all, no_key1) =
      process_packets_held c io accepts room begin ds s no_key none_before soon
        (rw empty (omega arith)) in
    let kept : s1.backlog ≡ entries ds = all ∙ ap (λ es. es ++ entries ds) empty in
    let opened1 : backlog_messages c io k.value s1.backlog ≡ some (in_order c io k.value ds) =
      rw kept (backlog_messages-entries c io k.value ds long) in
    (
      s1,
      clear_old_backlog t.cleared
          (record (finish_query k s1) { last_receive_time = t.received; backlog = [] }),
      held,
      ground (arith, opened1),
      refl,
    )
