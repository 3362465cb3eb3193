-- ===== src/Source.antt =====
-- DwmMclogMulticastSourceKey.cc and DwmMclogMulticastSource.cc: what a receiver keeps of one
-- sender: the key, the packets that wait for it, and whether a thread is asking for it. libsodium,
-- libDwm's stream forms and the bound of libDwm's queue are parameters; `none` is a failed
-- `assert`. The query thread ends between two packets, as a step of its own. Times are in
-- nanoseconds.
pub mod Backlog
pub mod Faults
pub mod Queries
use mclog.Base.{
  ℕ, ◌+◌, ◌-◌, ◌*◌, ◌≤◌, ◌≡◌, Bool, true, false, ◌&&◌, not, List, [], ◌∷◌, ◌++◌, Option, none, some,
  leb, ltb, is_empty, if◌then◌else◌, ◌>>=◌, length,
}
use mclog.Packet.{Bytes, Aead, MessagePacket, make_packet, decrypt, payload}
use mclog.Message.{Message, StreamIo, read_stream}

pub record MulticastSourceKey : Type 0 where
  pub value : Bytes
  pub last_requested : ℕ
  pub last_queried : ℕ
  pub last_updated : ℕ

-- `MulticastSourceKey(std::string)`: a default time point is the epoch.
abbrev pub key_of : Bytes → MulticastSourceKey
key_of value = record { value = value; last_requested = 0; last_queried = 0; last_updated = 0 }

-- The copy constructor, which copies the value only; `operator =` copies all members.
unfoldable pub copy_key : MulticastSourceKey → MulticastSourceKey
copy_key k = key_of k.value

-- `BacklogEntry`, its allocation succeeding.
pub record BacklogEntry : Type 0 where
  pub receive_time : ℕ
  pub bytes : Bytes

pub record MulticastSource : Type 0 where
  pub key : MulticastSourceKey
  pub backlog : List BacklogEntry
  pub query_done : Bool
  pub last_receive_time : ℕ

-- `MulticastSource(srcEndpoint, keyDir, sinks)`
unfoldable pub new_source : MulticastSource
new_source = record { key = key_of []; backlog = []; query_done = true; last_receive_time = 0 }

abbrev pub seconds : ℕ → ℕ
seconds n = n * 1000000000

-- `Key()` and `Key(key)`
abbrev pub get_key : MulticastSource → MulticastSourceKey
get_key s = copy_key s.key

abbrev pub set_key : MulticastSource → MulticastSourceKey → MulticastSource
set_key s k = record s { key = k }

-- `StartQuery`: a thread that runs is left alone.
unfoldable pub start_query : MulticastSource → MulticastSource
start_query s = if s.query_done then record s { query_done = false } else s

-- The end of `QueryForKey`, with the key that `GetKey` returned.
unfoldable pub finish_query : MulticastSourceKey → MulticastSource → MulticastSource
finish_query result s = record s { key = result; query_done = true }

-- The loop of `ClearOldBacklog`: entries are popped until one is younger than five seconds, which
-- goes back to the front.
unfoldable pub clear_old_entries : ℕ → List BacklogEntry → List BacklogEntry
clear_old_entries now [] = []
clear_old_entries now (e ∷ es) =
    let rest = clear_old_entries now es in
    if ltb now (e.receive_time + seconds 5) then e ∷ es else rest

unfoldable pub clear_old_backlog : ℕ → MulticastSource → MulticastSource
clear_old_backlog now s = record s { backlog = clear_old_entries now s.backlog }

-- The clock's readings in `ProcessPacket`, in their order.
pub record Times : Type 0 where
  pub received : ℕ
  pub queued : ℕ
  pub checked : ℕ
  pub cleared : ℕ

module _ (c : Aead) (io : StreamIo) where
  -- The packet made of a datagram, decrypted, and the messages read of it, with what the
  -- datagram's bytes are then, since the packet is made of them and not of a copy. The inner
  -- `none` is a decryption that fails.
  unfoldable pub open_packet : Bytes → Bytes → Option (Option (List Message) × Bytes)
  open_packet key bytes = do
    pkt ← make_packet c bytes
    let (rc, opened) = decrypt c (length bytes) key pkt
    some (elim rc [ none ↦ none | some n ↦ some (read_stream io (payload opened)) ], opened.buf)

  abbrev pub or_none : Option (List Message) → List Message
  or_none none = []
  or_none (some ms) = ms

  -- The loop of `ProcessBacklog`, with the messages that go to the sinks.
  unfoldable pub backlog_messages : Bytes → List BacklogEntry → Option (List Message)
  backlog_messages key [] = some []
  backlog_messages key (e ∷ es) = do
    (opened, left) ← open_packet key e.bytes
    rest ← backlog_messages key es
    some (or_none opened ++ rest)

  -- `ProcessBacklog`
  unfoldable pub process_backlog : MulticastSource → Option (List Message × MulticastSource)
  process_backlog s = do
    if is_empty (get_key s).value then some ([], s) else (do
      ms ← backlog_messages (get_key s).value s.backlog
      some (ms, record s { backlog = [] }))

-- `accepts q` says that the bounded queue takes one more entry.
module _ (accepts : List BacklogEntry → Bool) where
  abbrev pub push_back : List BacklogEntry → BacklogEntry → List BacklogEntry
  push_back q e = if accepts q then q ++ e ∷ [] else q

  -- What `ProcessPacket` does where the packet is not opened by the key; `bytes` is what the
  -- decryption left of the datagram.
  unfoldable pub reject_packet : Times → Bytes → MulticastSource → MulticastSource
  reject_packet t bytes s =
      let forgot = set_key s (key_of []) in
      let entry : BacklogEntry = record { receive_time = t.queued; bytes = bytes } in
      let queued = record forgot { backlog = push_back s.backlog entry } in
      if ltb (get_key queued).last_updated (t.checked - seconds 5)
      then start_query queued
      else queued

  -- What it does while there is no key.
  unfoldable pub hold_packet : Times → Bytes → MulticastSource → MulticastSource
  hold_packet t bytes s =
      let entry : BacklogEntry = record { receive_time = t.queued; bytes = bytes } in
      start_query (record s { backlog = push_back s.backlog entry })

module _ (c : Aead) (io : StreamIo) (accepts : List BacklogEntry → Bool) where
  -- `ProcessPacket`: its result, the messages that each sink is given, and the source afterwards.
  unfoldable pub process_packet :
      Times → Bytes → MulticastSource → Option (Bool × List Message × MulticastSource)
  process_packet t bytes s = do
    let arrived = record s { last_receive_time = t.received }
    let key = (get_key arrived).value
    if is_empty key
        then some (true, [], clear_old_backlog t.cleared (hold_packet accepts t bytes arrived))
        else (do
          (before, s1) ← process_backlog c io arrived
          (opened, left) ← open_packet c io key bytes
          elim opened [
            | some ms ↦ some (ltb 0 (length ms), before ++ ms, clear_old_backlog t.cleared s1)
            | none ↦
                some (false, before, clear_old_backlog t.cleared (reject_packet accepts t left s1))
          ])
