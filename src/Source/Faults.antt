-- ===== src/Source/Faults.antt =====
-- Which datagrams end the process by the assertion in `MessagePacket`'s constructor.
use mclog.Base.{
  ◌≡◌, refl, Bool, true, false, ◌&&◌, ◌||◌, List, [], ◌∷◌, Option, none, some, ltb, is_empty, arith,
  length,
}
use mclog.Packet.{Bytes, Aead, make_packet, k_min_packet_len}
use mclog.Message.{StreamIo}
use mclog.Source.{
  BacklogEntry, MulticastSource, Times, copy_key, open_packet, backlog_messages, process_backlog,
  process_packet,
}

abbrev pub is_some {ℓ} : {A : Type ℓ} → Option A → Bool
is_some none = false
is_some (some a) = true

-- Longer than the nonce and the authentication code together.
abbrev pub is_long : Aead → Bytes → Bool
is_long c bytes = ltb (k_min_packet_len c) (length bytes)

abbrev pub all_long : Aead → List BacklogEntry → Bool
all_long c [] = true
all_long c (e ∷ es) = is_long c e.bytes && all_long c es

module _ (c : Aead) (io : StreamIo) (accepts : List BacklogEntry → Bool) where
  open_packet-is_some : (key bytes : Bytes) → is_some (open_packet c io key bytes) ≡ is_long c bytes
  unfolding open_packet make_packet
  open_packet-is_some key bytes = ground arith

  backlog_messages-is_some :
      (key : Bytes) (es : List BacklogEntry)
      → is_some (backlog_messages c io key es) ≡ all_long c es
  unfolding backlog_messages
  backlog_messages-is_some key [] = refl
  backlog_messages-is_some key (e ∷ es) =
      ground (arith, open_packet-is_some key e.bytes, backlog_messages-is_some key es)

  -- A packet is processed without a fault exactly when there is no key yet, or the packet and
  -- every packet in the backlog are longer than the nonce and the authentication code together.
  pub process_packet-is_some :
      (t : Times) (bytes : Bytes) (s : MulticastSource)
      → is_some (process_packet c io accepts t bytes s)
        ≡ (is_empty s.key.value || (all_long c s.backlog && is_long c bytes))
  unfolding process_packet process_backlog copy_key
  process_packet-is_some t bytes s =
      ground (
        arith,
        open_packet-is_some s.key.value bytes,
        backlog_messages-is_some s.key.value s.backlog,
      )
