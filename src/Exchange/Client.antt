-- ===== src/Exchange/Client.antt =====
-- DwmMclogKeyRequestClientState.{hh,cc}: the side that is asked, for one asking endpoint.
use mclog.Base.{
  Bool, false, List, [], ◌∷◌, ◌++◌, Option, none, some, ◌==◌, ltb, text_eq, is_empty, length,
  if◌then◌else◌, ◌>>=◌,
}
use mclog.Packet.{Bytes, Aead, make_packet, decrypt, payload, k_min_packet_len}
use mclog.Exchange.{Credence, Forms, KeyDir, Outside, send_id_and_sig, read_id}

pub data ClientState : Type 0 where
  client_initial client_kx_key_sent client_id_sent client_failure : ClientState

pub record KeyRequestClientState : Type 0 where
  pub state : ClientState
  pub key_pair : Bytes
  pub their_kx : Bytes
  pub shared_key : Bytes

module _ (c : Aead) (cr : Credence) (fm : Forms) (dir : KeyDir) (mcast_key : Bytes) where
  -- `IsValidUser`
  unfoldable pub is_valid_user : KeyRequestClientState → Bytes → Bytes → Bool
  is_valid_user s id signed_msg =
      let key = dir.known id in
      if is_empty key then false else elim (cr.open_signed signed_msg key) [
        | none ↦ false
        | some orig_msg ↦ text_eq orig_msg (cr.kx_public s.key_pair)
      ]

  -- `Initial`, where the answer is written over the buffer and sent.
  unfoldable pub on_initial :
      Outside → Bytes → KeyRequestClientState → Option (Bool × KeyRequestClientState × List Bytes)
  on_initial out buf s = elim (fm.short.read buf) [
    | none ↦ some (false, record s { state = client_failure }, [])
    | some (theirs, rest) ↦
        (if length theirs == 32
          then some (
            out.sends,
            record s {
              state = if out.sends then client_kx_key_sent else client_failure;
              their_kx = theirs;
              shared_key = cr.kx_shared s.key_pair theirs;
            },
            fm.short.write (cr.kx_public s.key_pair) ∷ [],
          )
          else some (false, record s { state = client_failure; their_kx = theirs }, []))
  ]

  -- `KXKeySent`: a packet that is not opened, or that does not hold what it should, leaves the
  -- state as it is.
  unfoldable pub client_kx_sent :
      Outside → Bytes → KeyRequestClientState → Option (Bool × KeyRequestClientState × List Bytes)
  client_kx_sent out buf s =
      if ltb (length buf) (k_min_packet_len c)
      then some (false, record s { state = client_failure }, [])
      else (do
        pkt ← make_packet c buf
        let (rc, opened) = decrypt c (length buf) s.shared_key pkt
        elim rc [
          | none ↦ some (false, s, [])
          | some n ↦ elim (read_id fm (payload opened)) [
            | none ↦ some (false, s, [])
            | some (id, signed_msg) ↦
                (if is_valid_user s id signed_msg
                  then (do
                    (ok, sent) ←
                        send_id_and_sig c cr fm dir out s.shared_key (s.their_kx ++ mcast_key)
                    some (ok, (if ok then record s { state = client_id_sent } else s), sent))
                  else some (false, record s { state = client_failure }, []))
          ]
        ])

  -- `ProcessPacket`
  unfoldable pub client_step :
      Outside → Bytes → KeyRequestClientState → Option (Bool × KeyRequestClientState × List Bytes)
  client_step out buf s = elim s.state [
    | client_initial ↦ on_initial out buf s
    | client_kx_key_sent ↦ client_kx_sent out buf s
    | client_id_sent ↦ some (false, s, [])
    | client_failure ↦ some (false, s, [])
  ]
