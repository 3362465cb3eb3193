-- ===== src/Exchange.antt =====
-- How a receiver asks a sender for its key: DwmMclogKeyRequesterState.{hh,cc} on the receiver's
-- side and DwmMclogKeyRequestClientState.{hh,cc} on the sender's. Credence's keys, signatures and
-- stores are a parameter, with libDwm's forms of strings; `none` is a failed assertion.
pub mod Requester
pub mod Client
pub mod Authentic
pub mod Signing
pub mod Honest
pub mod Listener
use mclog.Base.{ℕ, ◌≡◌, Bool, true, false, List, [], ◌∷◌, Option, none, some, if◌then◌else◌, ◌>>=◌}
use mclog.Packet.{Bytes, Aead, make_packet, add, send_encrypted}
use mclog.Message.{Codec}

-- `KXKeyPair` by its secret half, `Signer`, and the length of a session key.
pub record Credence : Type 0 where
  pub kx_public : Bytes → Bytes
  pub kx_shared : Bytes → Bytes → Bytes
  pub sign : Bytes → Bytes → Option Bytes
  pub open_signed : Bytes → Bytes → Option Bytes
  pub session_key_bytes : ℕ

-- The forms of a `ShortString<255>` and of a `std::string`.
pub record Forms : Type 0 where
  pub short : Codec Bytes
  pub string : Codec Bytes

-- What one side has on disk: its own id and secret key where the stash has them, and the keys that
-- it knows, empty for an unknown id.
pub record KeyDir : Type 0 where
  pub stash : Option (Bytes × Bytes)
  pub known : Bytes → Bytes

-- What a step finds outside: the bytes of the buffer on the stack, the nonce drawn, and whether
-- `sendto` succeeds.
pub record Outside : Type 0 where
  pub sendbuf : Bytes
  pub nonce : Bytes
  pub sends : Bool

module _ (c : Aead) (cr : Credence) (fm : Forms) where
  -- Both sides' `SendIdAndSig`: `text` is what is signed. What is handed to the socket, and
  -- whether all went well.
  unfoldable pub send_id_and_sig : KeyDir → Outside → Bytes → Bytes → Option (Bool × List Bytes)
  send_id_and_sig dir out shared text = elim dir.stash [
    | none ↦ some (false, [])
    | some (id, secret) ↦ (do
      pkt ← make_packet c out.sendbuf
      let pkt1 = (add (fm.string.write id) pkt).1
      elim (cr.sign secret text) [
        | none ↦ some (false, [])
        | some signed_msg ↦
            elim (send_encrypted c shared out.nonce (add (fm.string.write signed_msg) pkt1).1).0 [
              | none ↦ some (false, [])
              | some d ↦ some (out.sends, d ∷ [])
            ]
      ])
  ]

-- The id and the signed message that a packet's stream holds.
unfoldable pub read_id : Forms → Bytes → Option (Bytes × Bytes)
read_id fm s = do
  (id, rest) ← fm.string.read s
  (signed_msg, left) ← fm.string.read rest
  some (id, signed_msg)
