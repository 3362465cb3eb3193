-- ===== src/Exchange/Requester.antt =====
-- DwmMclogKeyRequesterState.{hh,cc}: the side that asks.
use mclog.Base.{
  ◌+◌, Bool, true, false, ◌&&◌, List, [], ◌∷◌, Option, none, some, ◌==◌, text_eq, is_empty, length,
  take, drop, if◌then◌else◌, ◌>>=◌,
}
use mclog.Packet.{Bytes, Aead, make_packet, decrypt, payload}
use mclog.Exchange.{Credence, Forms, KeyDir, Outside, send_id_and_sig, read_id}

pub data State : Type 0 where
  initial kx_key_sent id_sent success failure : State

pub record KeyRequesterState : Type 0 where
  pub current_state : State
  pub kx_key_pair : Bytes
  pub their_kx : Bytes
  pub shared_key : Bytes
  pub mcast_key : Bytes

module _ (c : Aead) (cr : Credence) (fm : Forms) (dir : KeyDir) where
  -- `IsValidUser`: the multicast key that the signed message holds, where it is valid.
  unfoldable pub valid_user : KeyRequesterState → Bytes → Bytes → Option Bytes
  valid_user s id signed_msg =
      let key = dir.known id in
      let mine = cr.kx_public s.kx_key_pair in
      if is_empty key then none else elim (cr.open_signed signed_msg key) [
        | none ↦ none
        | some orig_msg ↦
            (if length orig_msg == length mine + cr.session_key_bytes
                && text_eq (take (length mine) orig_msg) mine
              then some (drop (length mine) orig_msg)
              else none)
      ]

  abbrev pub failed : KeyRequesterState → KeyRequesterState
  failed s = record s { current_state = failure }

  -- `KXKeySent`
  unfoldable pub on_kx_key_sent :
      Outside → Bytes → KeyRequesterState → Option (Bool × KeyRequesterState × List Bytes)
  on_kx_key_sent out buf s = elim (fm.short.read buf) [
    | none ↦ some (false, failed s, [])
    | some (theirs, rest) ↦ (do
      let s1 = record s { their_kx = theirs; shared_key = cr.kx_shared s.kx_key_pair theirs }
      (ok, sent) ← send_id_and_sig c cr fm dir out s1.shared_key theirs
      some (ok, (if ok then record s1 { current_state = id_sent } else failed s1), sent))
  ]

  -- `IDSent`
  unfoldable pub on_id_sent :
      Bytes → KeyRequesterState → Option (Bool × KeyRequesterState × List Bytes)
  on_id_sent buf s = do
    pkt ← make_packet c buf
    let (rc, opened) = decrypt c (length buf) s.shared_key pkt
    elim rc [
      | none ↦ some (false, failed s, [])
      | some n ↦ elim (read_id fm (payload opened)) [
        | none ↦ some (false, failed s, [])
        | some (id, signed_msg) ↦ elim (valid_user s id signed_msg) [
          | none ↦ some (false, failed s, [])
          | some key ↦ some (true, record s { current_state = success; mcast_key = key }, [])
        ]
      ]
    ]

  -- `ProcessPacket`
  unfoldable pub requester_step :
      Outside → Bytes → KeyRequesterState → Option (Bool × KeyRequesterState × List Bytes)
  requester_step out buf s = elim s.current_state [
    | initial ↦ some (false, s, [])
    | kx_key_sent ↦ on_kx_key_sent out buf s
    | id_sent ↦ on_id_sent buf s
    | success ↦ some (true, s, [])
    | failure ↦ some (false, s, [])
  ]

  -- What `GetKey4` and `GetKey6` return as the key's value after their loop.
  abbrev pub key_found : KeyRequesterState → Option Bytes
  key_found s = elim s.current_state [
    | initial ↦ none
    | kx_key_sent ↦ none
    | id_sent ↦ none
    | success ↦ some s.mcast_key
    | failure ↦ none
  ]

  abbrev pub is_over : State → Bool
  is_over initial = false
  is_over kx_key_sent = false
  is_over id_sent = false
  is_over success = true
  is_over failure = true

  -- Their loop, over the datagrams that come in time; it also ends where a datagram is refused.
  unfoldable pub get_key : List (Outside × Bytes) → KeyRequesterState → Option (Option Bytes)
  get_key [] s = some (key_found s)
  get_key ((out, buf) ∷ rest) s = if is_over s.current_state then some (key_found s) else (do
    (rc, s1, sent) ← requester_step out buf s
    last ← get_key rest s1
    some (if rc then last else key_found s1))
