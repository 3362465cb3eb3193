-- ===== src/Receiver/Run.antt =====
-- `MulticastReceiver::Run`: the thread that receives packets and hands them to the table of
-- sources. What `select` and `recvfrom` answer is an argument; `none` is a failed assertion in a
-- source.
use mclog.Base.{
  ℕ, Bool, true, false, ◌&&◌, ◌||◌, not, List, [], ◌∷◌, ◌++◌, Option, none, some, ltb,
  if◌then◌else◌, ◌>>=◌, length, take,
}
use mclog.Packet.{Bytes, Aead}
use mclog.Message.{Message, StreamIo}
use mclog.Source.{BacklogEntry, Times}
use mclog.Table.{Addresses, UdpEndpoint, Sources, process_from}

-- A datagram that `recvfrom` gives, with the readings of the clock while it is processed.
pub record Arrival (a : Addresses) : Type 0 where
  pub sender : UdpEndpoint a
  pub bytes : Bytes
  pub times : Times
  pub now : ℕ

-- A `select` that returned a positive number. For each socket: `none` where `FD_ISSET` is false,
-- and else what `recvfrom` gives, a failure being `none`.
pub record Selected (a : Addresses) : Type 0 where
  pub on_stop : Bool
  pub on4 : Option (Option (Arrival a))
  pub on6 : Option (Option (Arrival a))

-- `_sources`, and the messages handed to the sinks so far.
pub record Receipts (a : Addresses) : Type 0 where
  pub sources : Sources a
  pub messages : List Message

module _ (a : Addresses) (c : Aead) (io : StreamIo) (accepts : List BacklogEntry → Bool)
    (accept_local : Bool) where
  -- The condition on the result of `recvfrom` and on the address, where `own` is this host's; the
  -- buffer has 1500 bytes.
  unfoldable pub is_accepted : a.IpAddress → Arrival a → Bool
  is_accepted own d =
      ltb 0 (length (take 1500 d.bytes)) && (accept_local || not (a.equal d.sender.addr own))

  -- `_sources.ProcessPacket(endPoint, buf, recvrc)`
  unfoldable pub process_arrival : Arrival a → Receipts a → Option (Receipts a)
  process_arrival d r = do
    (ms, table) ← process_from a c io accepts d.sender d.times d.now (take 1500 d.bytes) r.sources
    some (record { sources = table; messages = r.messages ++ ms })

  -- The branch of one socket.
  unfoldable pub receive_on :
      Bool → a.IpAddress → Option (Option (Arrival a)) → Receipts a → Option (Receipts a)
  receive_on is_open own none r = some r
  receive_on is_open own (some none) r = some r
  receive_on is_open own (some (some d)) r =
      if is_open && is_accepted own d then process_arrival d r else some r

  module _ (open4 open6 : Bool) (own4 own6 : a.IpAddress) where
    -- One turn of `while (_run)`, and whether the loop goes on.
    unfoldable pub turn : Option (Selected a) → Receipts a → Option (Bool × Receipts a)
    turn none r = some (true, r)
    turn (some s) r = if s.on_stop then some (false, r) else (do
      r1 ← receive_on open4 own4 s.on4 r
      r2 ← receive_on open6 own6 s.on6 r1
      some (true, r2))

    unfoldable pub turns : List (Option (Selected a)) → Receipts a → Option (Receipts a)
    turns [] r = some r
    turns (s ∷ ss) r = do
      (goes_on, r1) ← turn s r
      let rest = turns ss r1
      if goes_on then rest else some r1

    -- `Run`, which does nothing without a socket.
    unfoldable pub run : List (Option (Selected a)) → Receipts a → Option (Receipts a)
    run ss r = if open4 || open6 then turns ss r else some r
