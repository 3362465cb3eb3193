-- ===== src/Loopback.antt =====
-- apps/mclogd/DwmMclogLoopbackReceiver.cc: the thread that receives the packets of the programs on
-- its host and gives their messages to its sinks. What `select` and `recvfrom` answer is an
-- argument; the sockets' opening and closing is the subject of Sockets.
pub mod Turns
pub mod Delivery
use mclog.Base.{
  ℕ, ◌≡◌, Bool, true, false, ◌&&◌, List, [], ◌∷◌, ◌++◌, map, Option, none, some, ltb, if◌then◌else◌,
  ◌>>=◌,
}
use mclog.Packet.{Bytes, Aead, MessagePacket, make_packet, recv_plain, payload}
use mclog.Message.{Message, StreamIo, read_stream}

-- A `select` that returned a positive number: which descriptors `FD_ISSET` finds, and what the
-- `recvfrom` of this round gives, where it is made.
pub record Selected : Type 0 where
  pub on4 : Bool
  pub on6 : Bool
  pub on_stop : Bool
  pub datagram : Option Bytes

-- `buf` and the calls of `Process`, in their order: the sink and the message.
pub record Received : Type 0 where
  pub buf : Bytes
  pub processed : List (ℕ × Message)

-- `for (auto sink : _sinks) { sink->Process(msg); }` for each message that is read.
unfoldable pub process_all : List ℕ → List Message → List (ℕ × Message)
process_all sinks [] = []
process_all sinks (m ∷ ms) = map (λ sink. (sink, m)) sinks ++ process_all sinks ms

module _ (c : Aead) (io : StreamIo) (sinks : List ℕ) where
  -- What follows `RecvFrom`, for its result and the packet.
  unfoldable pub process_packet : Option ℕ → MessagePacket → List (ℕ × Message)
  process_packet none q = []
  process_packet (some n) q = if ltb 0 n then process_all sinks (read_stream io (payload q)) else []

  -- The two branches of a socket that is readable; `none` is the packet's assertion.
  unfoldable pub receive_packet : Option Bytes → Received → Option Received
  receive_packet d r = do
    pkt ← make_packet c r.buf
    let (recvrc, q) = recv_plain c d pkt
    some (record { buf = q.buf; processed = r.processed ++ process_packet recvrc q })

  module _ (open4 open6 : Bool) where
    -- One turn of `while (_run)`, and whether the loop goes on.
    unfoldable pub turn : Option Selected → Received → Option (Bool × Received)
    turn none r = some (true, r)
    turn (some s) r =
        if open4 && s.on4
        then (receive_packet s.datagram r >>= λ r'. some (true, r'))
        else if open6 && s.on6
        then (receive_packet s.datagram r >>= λ r'. some (true, r'))
        else some (if s.on_stop then false else true, r)

    -- The turns until `_run` is false.
    unfoldable pub turns : List (Option Selected) → Received → Option Received
    turns [] r = some r
    turns (s ∷ ss) r = do
      (goes_on, r') ← turn s r
      let rest = turns ss r'
      if goes_on then rest else some r'
