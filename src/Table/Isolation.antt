-- ===== src/Table/Isolation.antt =====
-- What a packet does to the sources of other endpoints.
use mclog.Base.{
  ℕ, ◌+◌, ◌-◌, ◌≤◌, ◌≡◌, refl, sym, ap, ◌∙◌, Bool, true, false, List, [], ◌∷◌, Option, none, some,
  ltb, if◌then◌else◌, arith, Bool-cases, Option-cases, inl, inr,
}
use mclog.Packet.{Bytes, Aead}
use mclog.Message.{Message, StreamIo}
use mclog.Source.{
  BacklogEntry, MulticastSource, Times, new_source, process_packet, process_backlog, reject_packet,
  hold_packet, start_query, clear_old_backlog, copy_key, seconds,
}
use mclog.Table.{
  Addresses, UdpEndpoint, endpoint_equal, equivalent, Sources, find_source, put_source, clear_old,
  process_from,
}
use mclog.Table.Order.{IsOrder, equivalent→eq, equivalent_self, equivalent-eq-endpoint_equal}

-- `ProcessPacket` notes the time of receipt, whatever becomes of the packet.
process_packet_received :
    (c : Aead) (io : StreamIo) (accepts : List BacklogEntry → Bool) (t : Times) (bytes : Bytes)
    (s : MulticastSource) {rc : Bool} {ms : List Message} {s' : MulticastSource}
    → process_packet c io accepts t bytes s ≡ some (rc, ms, s')
    → s'.last_receive_time ≡ t.received
unfolding process_packet process_backlog copy_key reject_packet hold_packet start_query
    clear_old_backlog
process_packet_received c io accepts t bytes s h = ground arith

-- A source that has not expired.
abbrev pub recent : ℕ → Option MulticastSource → Option MulticastSource
recent now none = none
recent now (some s) = if ltb s.last_receive_time (now - seconds 20) then none else some s

abbrev pub or_new : Option MulticastSource → MulticastSource
or_new none = new_source
or_new (some s) = s

-- No key stands twice.
abbrev pub IsTable : {a : Addresses} → Sources a → Type 0
IsTable [] = Unit
IsTable {a = a} ((f, s) ∷ rest) = (find_source a f rest ≡ none) × IsTable rest

module _ (a : Addresses) (order : IsOrder a) where
  find_source-put_source :
      (f e : UdpEndpoint a) (s : MulticastSource) (table : Sources a)
      → find_source a f (put_source a e s table)
        ≡ (if equivalent a f e then some s else find_source a f table)
  unfolding find_source put_source
  find_source-put_source f e s [] = refl
  find_source-put_source f e s ((k, old) ∷ rest) = elim (Bool-cases (equivalent a e k)) [
    | inl here ↦ let same = equivalent→eq a order e k here in rw (here, same) (ground arith)
    | inr other ↦ elim (Bool-cases (equivalent a f k)) [
      | inr apart ↦ rw (other, apart) (find_source-put_source f e s rest)
      | inl both ↦
          let fk = equivalent→eq a order f k both in
          elim (Bool-cases (equivalent a f e)) [
            | inr away ↦ rw (other, both, away) refl
            | inl meet ↦
                let fe = equivalent→eq a order f e meet in
                let clash : equivalent a e k ≡ true =
                  rw (sym fe, sym fk) (equivalent_self a order f) in
                absurd (ground (arith, clash))
          ]
    ]
  ]

  find_source-clear_old :
      (f : UdpEndpoint a) (now : ℕ) (table : Sources a)
      → IsTable table
      → find_source a f (clear_old a now table) ≡ recent now (find_source a f table)
  unfolding find_source clear_old
  find_source-clear_old f now [] apart = refl
  find_source-clear_old f now ((k, s) ∷ rest) apart = elim (Bool-cases (equivalent a f k)) [
    | inr other ↦ ground (arith, find_source-clear_old f now rest apart.1)
    | inl both ↦
        let fk = equivalent→eq a order f k both in
        let gone : find_source a f rest ≡ none = rw fk apart.0 in
        ground (arith, gone, find_source-clear_old f now rest apart.1)
  ]

  put_source-IsTable :
      (e : UdpEndpoint a) (s : MulticastSource) (table : Sources a)
      → IsTable table
      → IsTable (put_source a e s table)
  unfolding find_source put_source
  put_source-IsTable e s [] apart = (refl, tt)
  put_source-IsTable e s ((k, old) ∷ rest) apart = elim (Bool-cases (equivalent a e k)) [
    | inl here ↦ rw here apart
    | inr other ↦ rw other (missing other, put_source-IsTable e s rest apart.1)
  ]
    where
      missing : equivalent a e k ≡ false → find_source a k (put_source a e s rest) ≡ none
      missing other = elim (Bool-cases (equivalent a k e)) [
        | inr away ↦ ground (arith, find_source-put_source k e s rest, apart.0)
        | inl meet ↦
            let ke = equivalent→eq a order k e meet in
            let clash : equivalent a e k ≡ true = rw ke (equivalent_self a order e) in
            absurd (ground (arith, clash))
      ]

  clear_old-IsTable :
      (now : ℕ) (table : Sources a) → IsTable table → IsTable (clear_old a now table)
  unfolding clear_old
  clear_old-IsTable now [] apart = tt
  clear_old-IsTable now ((k, s) ∷ rest) apart =
      elim (Bool-cases (ltb s.last_receive_time (now - seconds 20))) [
        | inl expired ↦ rw expired (clear_old-IsTable now rest apart.1)
        | inr live ↦ rw live (
          find_source-clear_old k now rest apart.1 ∙ ap (recent now) apart.0,
          clear_old-IsTable now rest apart.1,
        )
      ]

-- A packet handed to its endpoint's source, or to a new one, with the table afterwards.
abbrev pub IsRouted :
    (a : Addresses) (c : Aead) (io : StreamIo) (accepts : List BacklogEntry → Bool)
    → UdpEndpoint a
    → Times
    → ℕ
    → Bytes
    → Sources a
    → List Message
    → Sources a
    → Type 0
IsRouted a c io accepts e t now bytes table ms table' =
    (rc : Bool) × (s : MulticastSource) × (process_packet c io accepts t bytes
        (or_new (find_source a e table))
      ≡ some (rc, ms, s))
    × (s.last_receive_time ≡ t.received)
    × IsTable table'
    × ((f : UdpEndpoint a)
        → find_source a f table' ≡ (
            if endpoint_equal a f e then some s else elim (find_source a e table) [
              | some old ↦ find_source a f table
              | none ↦ recent now (find_source a f table)
            ]))

module _ (a : Addresses) (c : Aead) (io : StreamIo) (accepts : List BacklogEntry → Bool)
    (e : UdpEndpoint a) (t : Times) (now : ℕ) (bytes : Bytes) (table : Sources a)
    (order : IsOrder a) (apart : IsTable table) where
  known-IsRouted :
      (old s : MulticastSource) (rc : Bool) (ms : List Message)
      → find_source a e table ≡ some old
      → process_packet c io accepts t bytes old ≡ some (rc, ms, s)
      → IsRouted a c io accepts e t now bytes table ms (put_source a e s table)
  known-IsRouted old s rc ms known ran = (
    rc,
    s,
    rw known ran,
    process_packet_received c io accepts t bytes old ran,
    put_source-IsTable a order e s table apart,
    λ f.
        rw (known, sym (equivalent-eq-endpoint_equal a order f e))
          (find_source-put_source a order f e s table),
  )

  new-IsRouted :
      (s : MulticastSource) (rc : Bool) (ms : List Message)
      → now ≤ t.received + seconds 20
      → find_source a e table ≡ none
      → process_packet c io accepts t bytes new_source ≡ some (rc, ms, s)
      → IsRouted a c io accepts e t now bytes table ms (clear_old a now (put_source a e s table))
  new-IsRouted s rc ms soon unknown ran =
      let at = process_packet_received c io accepts t bytes new_source ran in
      let stays = put_source-IsTable a order e s table apart in
      (
        rc,
        s,
        rw unknown ran,
        at,
        clear_old-IsTable a order now (put_source a e s table) stays,
        λ f.
            rw (unknown, sym (equivalent-eq-endpoint_equal a order f e))
              (find_source-clear_old a order f now (put_source a e s table) stays
                ∙ ap (recent now) (find_source-put_source a order f e s table)
                ∙ kept (equivalent a f e) (find_source a f table) s at soon),
      )
    where
      kept :
          (b : Bool) (o : Option MulticastSource) (s : MulticastSource)
          → s.last_receive_time ≡ t.received
          → now ≤ t.received + seconds 20
          → recent now (if b then some s else o) ≡ (if b then some s else recent now o)
      kept true o s at soon = ground arith
      kept false o s at soon = refl

-- A packet that is processed goes to its endpoint's source, or to a new one, which stands in the
-- table afterwards with the packet's time of receipt; the sources of other endpoints are as they
-- were, but that a packet from a new endpoint drops those that received nothing for twenty seconds
-- (the table is cleared at most twenty seconds after the receipt).
pub process_from_lem :
    (a : Addresses) (c : Aead) (io : StreamIo) (accepts : List BacklogEntry → Bool)
    (e : UdpEndpoint a) (t : Times) (now : ℕ) (bytes : Bytes) (table : Sources a)
    {ms : List Message} {table' : Sources a}
    → IsOrder a
    → IsTable table
    → now ≤ t.received + seconds 20
    → process_from a c io accepts e t now bytes table ≡ some (ms, table')
    → IsRouted a c io accepts e t now bytes table ms table'
unfolding process_from
process_from_lem a c io accepts e t now bytes table {ms = ms} {table' = table'} order apart soon h =
    elim (Option-cases (find_source a e table)) [
      | inr (old, known) ↦ elim (Option-cases (process_packet c io accepts t bytes old)) [
        | inl fault ↦ absurd (ground (arith, known, fault))
        | inr ((rc, ms1, s), ran) ↦
            let said : ms1 ≡ ms = ground (arith, known, ran) in
            let made : put_source a e s table ≡ table' = ground (arith, known, ran) in
            rw (sym said, sym made)
              (known-IsRouted a c io accepts e t now bytes table order apart old s rc ms1 known ran)
      ]
      | inl unknown ↦ elim (Option-cases (process_packet c io accepts t bytes new_source)) [
        | inl fault ↦ absurd (ground (arith, unknown, fault))
        | inr ((rc, ms1, s), ran) ↦
            let said : ms1 ≡ ms = ground (arith, unknown, ran) in
            let made : clear_old a now (put_source a e s table) ≡ table' =
              ground (arith, unknown, ran) in
            rw (sym said, sym made)
              (new-IsRouted a c io accepts e t now bytes table order apart s rc ms1 soon unknown
                ran)
      ]
    ]
