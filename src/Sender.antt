-- ===== src/Sender.antt =====
-- DwmMclogLoopbackSender.cc and DwmMclogMulticastSender.cc: the threads that gather the messages of
-- a queue into packets and send each packet when the next message does not fit, or after a second
-- without a message. What the queue hands out at each wake-up is an argument.
pub mod Batches
pub mod Delivery
pub mod Polls
pub mod Alignment
use mclog.Base.{
  ℕ, suc, ◌+◌, ◌≤◌, ◌≡◌, Bool, true, false, ◌&&◌, List, [], ◌∷◌, ◌++◌, Option, none, some, ltb,
  if◌then◌else◌,
}
use mclog.Packet.{Bytes, Aead, MessagePacket, add, reset, has_payload, encrypt, datagram}

-- The state of `Run`: its packet, `_nextSendTime` in milliseconds, the datagrams of each packet
-- sent so far, the latest last, and how many random nonces were drawn.
pub record Batch : Type 0 where
  pub pkt : MessagePacket
  pub next_send_time : ℕ
  pub sent : List (List Bytes)
  pub draws : ℕ

-- `ConditionTimedWait` returns true with these messages to pop, given by their stream forms, or
-- false after a second; `now` is the clock's reading.
pub data Wake : Type 0 where
  ready : ℕ → List Bytes → Wake
  idle : ℕ → Wake

-- `SendPacket`: what the packet's bytes become, with the number of nonces drawn before.
abbrev pub Transmit : Type 0
Transmit = ℕ → MessagePacket → List Bytes × MessagePacket

-- `LoopbackSender::SendPacket`
unfoldable pub send_loopback : Aead → Transmit
send_loopback c k p = (datagram c p ∷ [], reset p)

-- `MulticastSender::SendPacket`: one encryption, sent on each socket that is open.
unfoldable pub send_multicast : Aead → Bytes → (ℕ → Bytes) → Bool → Bool → Transmit
send_multicast c key nonces open4 open6 k p =
    let (ok, q) = encrypt c key (nonces k) p in
    let on4 : List Bytes = if ok && open4 then datagram c q ∷ [] else [] in
    let on6 : List Bytes = if ok && open6 then datagram c q ∷ [] else [] in (on4 ++ on6, reset q)

abbrev is_positive : Option ℕ → Bool
is_positive none = false
is_positive (some n) = ltb 0 n

-- What `MulticastSender::SendPacket` returns, where `sent4` and `sent6` are the results of `sendto`
-- and -1 is `none`; the caller logs a failure and goes on.
unfoldable pub send_result : Bool → Bool → Option ℕ → Option ℕ → Bool
send_result open4 open6 sent4 sent6 =
    (if open4 then is_positive sent4 else true) && (if open6 then is_positive sent6 else true)

module _ (transmit : Transmit) where
  -- `SendPacket`, and the next time set.
  unfoldable pub send : ℕ → Batch → Batch
  send now b =
      let (ds, q) = transmit b.draws b.pkt in
      record {
        pkt = q;
        next_send_time = now + 1000;
        sent = b.sent ++ (ds ∷ []);
        draws = suc b.draws;
      }

  -- The body of `while (PopFront(msg))`.
  unfoldable pub take_message : ℕ → Bytes → Batch → Batch
  take_message now m b =
      let (added, q) = add m b.pkt in
      let full = send now (record b { pkt = q }) in
      if added then record b { pkt = q } else record full { pkt = (add m full.pkt).1 }

  unfoldable pub take_all_messages : ℕ → List Bytes → Batch → Batch
  take_all_messages now [] b = b
  take_all_messages now (m ∷ ms) b = take_all_messages now ms (take_message now m b)

  -- One round of `while (_run)`.
  unfoldable pub round : Wake → Batch → Batch
  round (ready now ms) b = take_all_messages now ms b
  round (idle now) b = if has_payload b.pkt then send now b else b

  unfoldable pub rounds : List Wake → Batch → Batch
  rounds [] b = b
  rounds (w ∷ ws) b = rounds ws (round w b)

-- `LoopbackSender::Run`, which sends what is left when it is stopped, without setting the next
-- time.
unfoldable pub run_loopback : Aead → List Wake → Batch → Batch
run_loopback c ws b =
    let b' = rounds (send_loopback c) ws b in
    let last = send (send_loopback c) 0 b' in
    if has_payload b'.pkt then record last { next_send_time = b'.next_send_time } else b'

-- `MulticastSender::Run`, which returns with its packet unsent.
unfoldable pub run_multicast : Aead → Bytes → (ℕ → Bytes) → Bool → Bool → List Wake → Batch → Batch
run_multicast c key nonces open4 open6 ws b = rounds (send_multicast c key nonces open4 open6) ws b

-- The messages that a list of wake-ups handed out, in their order.
abbrev pub handed : List Wake → List Bytes
handed [] = []
handed (ready now ms ∷ ws) = ms ++ handed ws
handed (idle now ∷ ws) = handed ws
