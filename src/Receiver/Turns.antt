-- ===== src/Receiver/Turns.antt =====
-- What the receiver's thread makes of what arrives.
use mclog.Base.{
  ◌≡◌, refl, ap, arith, Bool, true, ◌&&◌, ◌||◌, not, is_empty, ltb, length, take, List, [], ◌∷◌,
  ◌++◌, Option, none, some, if◌then◌else◌, ◌>>=◌, Bool-cases, Option-cases, inl, inr,
}
use mclog.Packet.{Bytes, Aead}
use mclog.Message.{StreamIo}
use mclog.Source.{BacklogEntry}
use mclog.Table.{Addresses}
use mclog.Receiver.Run.{
  Arrival, Selected, Receipts, is_accepted, process_arrival, receive_on, turn, turns, run,
}

module _ (a : Addresses) (c : Aead) (io : StreamIo) (accepts : List BacklogEntry → Bool)
    (accept_local open4 open6 : Bool) (own4 own6 : a.IpAddress) where
  -- A datagram that is not empty, and that another host has sent or that local ones may send.
  abbrev pub is_wanted : a.IpAddress → Arrival a → Bool
  is_wanted own d = not (is_empty d.bytes) && (accept_local || not (a.equal d.sender.addr own))

  -- The datagrams of one socket that are to be processed.
  abbrev pub accepted_on : Bool → a.IpAddress → Option (Option (Arrival a)) → List (Arrival a)
  accepted_on is_open own none = []
  accepted_on is_open own (some none) = []
  accepted_on is_open own (some (some d)) = if is_open && is_wanted own d then d ∷ [] else []

  -- The datagrams to be processed before the first stop, in the order in which they are received.
  abbrev pub arrived : List (Option (Selected a)) → List (Arrival a)
  arrived [] = []
  arrived (none ∷ ss) = arrived ss
  arrived (some s ∷ ss) =
      let rest = accepted_on open4 own4 s.on4 ++ (accepted_on open6 own6 s.on6 ++ arrived ss) in
      if s.on_stop then [] else rest

  -- The table of sources given one datagram after the other.
  abbrev pub process_arrivals : List (Arrival a) → Receipts a → Option (Receipts a)
  process_arrivals [] r = some r
  process_arrivals (d ∷ ds) r =
      process_arrival a c io accepts accept_local d r >>= process_arrivals ds

  process_arrivals-append :
      (ds es : List (Arrival a)) (r : Receipts a)
      → process_arrivals (ds ++ es) r ≡ (process_arrivals ds r >>= process_arrivals es)
  process_arrivals-append [] es r = refl
  process_arrivals-append (d ∷ ds) es r =
      elim (Option-cases (process_arrival a c io accepts accept_local d r)) [
        | inl fails ↦ rw fails refl
        | inr (r1, done) ↦ rw done (process_arrivals-append ds es r1)
      ]

  received_some : (bytes : Bytes) → ltb 0 (length (take 1500 bytes)) ≡ not (is_empty bytes)
  received_some [] = refl
  received_some (x ∷ bytes) = ground arith

  is_accepted-is_wanted :
      (own : a.IpAddress) (d : Arrival a)
      → is_accepted a c io accepts accept_local own d ≡ is_wanted own d
  unfolding is_accepted
  is_accepted-is_wanted own d =
      ap (λ b. b && (accept_local || not (a.equal d.sender.addr own))) (received_some d.bytes)

  receive_on_lem :
      (is_open : Bool) (own : a.IpAddress) (on : Option (Option (Arrival a))) (r : Receipts a)
      → receive_on a c io accepts accept_local is_open own on r
        ≡ process_arrivals (accepted_on is_open own on) r
  unfolding receive_on
  receive_on_lem is_open own none r = refl
  receive_on_lem is_open own (some none) r = refl
  receive_on_lem is_open own (some (some d)) r =
      let same = is_accepted-is_wanted own d in
      elim (Bool-cases (is_open && is_wanted own d)) [
        | inl taken ↦
            rw (same, taken)
              (elim (Option-cases (process_arrival a c io accepts accept_local d r)) [
                | inl fails ↦ rw fails refl
                | inr (r1, done) ↦ rw done refl
              ])
        | inr ignored ↦ rw (same, ignored) refl
      ]

  turns_lem :
      (ss : List (Option (Selected a))) (r : Receipts a)
      → turns a c io accepts accept_local open4 open6 own4 own6 ss r
        ≡ process_arrivals (arrived ss) r
  unfolding turns turn
  turns_lem [] r = refl
  turns_lem (none ∷ ss) r = turns_lem ss r
  turns_lem (some s ∷ ss) r =
      let ds4 = accepted_on open4 own4 s.on4 in
      let ds6 = accepted_on open6 own6 s.on6 in
      elim (Bool-cases s.on_stop) [
        | inl stop ↦ rw stop refl
        | inr go ↦
            rw
              (
                go,
                receive_on_lem open4 own4 s.on4 r,
                process_arrivals-append ds4 (ds6 ++ arrived ss) r,
              )
              (elim (Option-cases (process_arrivals ds4 r)) [
                | inl fails ↦ rw fails refl
                | inr (r1, done4) ↦
                    rw
                      (
                        done4,
                        receive_on_lem open6 own6 s.on6 r1,
                        process_arrivals-append ds6 (arrived ss) r1,
                      )
                      (elim (Option-cases (process_arrivals ds6 r1)) [
                        | inl fails ↦ rw fails refl
                        | inr (r2, done6) ↦ rw done6 (turns_lem ss r2)
                      ])
              ])
      ]

  arrived-stop :
      (s : Selected a) (later : List (Option (Selected a)))
      → s.on_stop ≡ true
      → (ss : List (Option (Selected a))) → arrived (ss ++ some s ∷ later) ≡ arrived ss
  arrived-stop s later stop [] = rw stop refl
  arrived-stop s later stop (none ∷ ss) = arrived-stop s later stop ss
  arrived-stop s later stop (some t ∷ ss) = rw (arrived-stop s later stop ss) refl

-- The thread, with a socket open, leaves the table of sources and the messages for the sinks as
-- they are when it is given one after the other the datagrams that arrive before the first stop,
-- less the empty ones, those on a socket that is not open and, unless local ones are accepted,
-- those from this host's own addresses; it ends the process where that does.
pub run_lem :
    (a : Addresses) (c : Aead) (io : StreamIo) (accepts : List BacklogEntry → Bool)
    (accept_local open4 open6 : Bool) (own4 own6 : a.IpAddress) (ss : List (Option (Selected a)))
    (r : Receipts a)
    → (open4 || open6) ≡ true
    → run a c io accepts accept_local open4 open6 own4 own6 ss r
      ≡ process_arrivals a c io accepts accept_local open4 open6 own4 own6
          (arrived a c io accepts accept_local open4 open6 own4 own6 ss)
          r
unfolding run
run_lem a c io accepts accept_local open4 open6 own4 own6 ss r one =
    rw one (turns_lem a c io accepts accept_local open4 open6 own4 own6 ss r)

-- A stop that waits in the pipe ends the thread at its next turn: what arrives later changes
-- nothing.
pub run-stop :
    (a : Addresses) (c : Aead) (io : StreamIo) (accepts : List BacklogEntry → Bool)
    (accept_local open4 open6 : Bool) (own4 own6 : a.IpAddress)
    (ss later : List (Option (Selected a))) (s : Selected a) (r : Receipts a)
    → s.on_stop ≡ true
    → run a c io accepts accept_local open4 open6 own4 own6 (ss ++ some s ∷ later) r
      ≡ run a c io accepts accept_local open4 open6 own4 own6 ss r
unfolding run
run-stop a c io accepts accept_local open4 open6 own4 own6 ss later s r stop =
    let same : arrived a c io accepts accept_local open4 open6 own4 own6 (ss ++ some s ∷ later)
        ≡ arrived a c io accepts accept_local open4 open6 own4 own6 ss =
      arrived-stop a c io accepts accept_local open4 open6 own4 own6 s later stop ss in
    rw
      (
        turns_lem a c io accepts accept_local open4 open6 own4 own6 (ss ++ some s ∷ later) r,
        turns_lem a c io accepts accept_local open4 open6 own4 own6 ss r,
        same,
      )
      refl
