-- ===== src/Examples/Keys.antt =====
-- Runs of the exchange of keys, in which a signature is the signer's key in front of the text.
use mclog.Base.{
  ◌≡◌, ◌≢◌, refl, true, List, [], ◌∷◌, ◌++◌, ◌^◌, arith, Option, some, none, ◌==◌, if◌then◌else◌,
  replicate,
}
use mclog.Packet.{Bytes, make_packet, decrypt, encrypt, send_encrypted, datagram, add}
use mclog.Exchange.{Credence, Forms, KeyDir, Outside, send_id_and_sig, read_id}
use mclog.Exchange.Requester.{
  KeyRequesterState, kx_key_sent, id_sent, requester_step, get_key, on_kx_key_sent, on_id_sent,
  valid_user,
}
use mclog.Exchange.Client.{
  KeyRequestClientState, client_initial, client_kx_key_sent, client_id_sent, client_step,
  client_kx_sent, is_valid_user,
}
use mclog.Exchange.Authentic.{
  IsVouched, IsAmong, Carries, IsKnown, get_key-IsVouched, client_step-IsKnown,
}
use mclog.Exchange.Signing.{AreForms, Signs}
use mclog.Exchange.Honest
use mclog.Exchange.Honest.{get_key-client_step}
use mclog.Examples.{aead, aead-IsSound, io, text-IsCodec}

abbrev pub open_by : Bytes → Bytes → Option Bytes
open_by [] key = none
open_by (k ∷ text) [] = none
open_by (k ∷ text) (j ∷ key) = if k == j then some text else none

abbrev pub credence : Credence
credence = record {
  kx_public = λ pair. pair;
  kx_shared = λ pair theirs. 1 ∷ [];
  sign = λ secret text. some (secret ++ text);
  open_signed = open_by;
  session_key_bytes = 2;
}

abbrev pub forms : Forms
forms = record { short = io.string_255; string = io.string_1500 }

-- Everybody signs with 50, and everybody's key is known.
abbrev pub dir : KeyDir
dir = record { stash = some (65 ∷ [], 50 ∷ []); known = λ id. 50 ∷ [] }

abbrev out : Outside
out = record { sendbuf = replicate 16 0; nonce = 0 ∷ 0 ∷ []; sends = true }

abbrev asking : KeyRequesterState
asking = record {
  current_state = kx_key_sent;
  kx_key_pair = 21 ∷ [];
  their_kx = [];
  shared_key = [];
  mcast_key = [];
}

-- The sender's public half, and then its id with what it signed: 21 and the key 8, 9.
abbrev answers : List (Outside × Bytes)
answers = (out, 1 ∷ 31 ∷ []) ∷ (out, 0 ∷ 0 ∷ 7 ∷ 1 ∷ 66 ∷ 4 ∷ 50 ∷ 21 ∷ 8 ∷ 9 ∷ []) ∷ []

asked : get_key aead credence forms dir answers asking ≡ some (some (8 ∷ 9 ∷ []))
unfolding get_key requester_step on_kx_key_sent on_id_sent valid_user send_id_and_sig read_id
    make_packet add send_encrypted encrypt datagram decrypt
asked = refl

get_key-IsVouched_example :
    (b : Bytes) × IsAmong b answers × IsVouched aead credence forms dir (21 ∷ []) (8 ∷ 9 ∷ []) b
get_key-IsVouched_example = get_key-IsVouched aead credence forms dir answers asking refl asked

abbrev answering : KeyRequestClientState
answering = record {
  state = client_kx_key_sent;
  key_pair = 31 ∷ [];
  their_kx = 21 ∷ [];
  shared_key = 1 ∷ [];
}

not_initial : answering.state ≢ client_initial
not_initial e = absurd cc

answered :
    client_step aead credence forms dir
      (8 ∷ 9 ∷ [])
      out
      (0 ∷ 0 ∷ 7 ∷ 1 ∷ 65 ∷ 2 ∷ 50 ∷ 31 ∷ [])
      answering
    ≡ some (
      true,
      record answering { state = client_id_sent },
      (0 ∷ 0 ∷ 7 ∷ 1 ∷ 65 ∷ 4 ∷ 50 ∷ 21 ∷ 8 ∷ 9 ∷ []) ∷ [],
    )
unfolding client_step client_kx_sent is_valid_user send_id_and_sig read_id make_packet add
    send_encrypted encrypt datagram decrypt
answered = refl

client_step-IsKnown_example :
    (id : Bytes) × (signed_msg : Bytes) × Carries aead forms
      (1 ∷ [])
      (0 ∷ 0 ∷ 7 ∷ 1 ∷ 65 ∷ 2 ∷ 50 ∷ 31 ∷ [])
      id
      signed_msg
    × IsKnown credence dir (31 ∷ []) id signed_msg
client_step-IsKnown_example =
    client_step-IsKnown aead credence forms dir (8 ∷ 9 ∷ []) out
      (0 ∷ 0 ∷ 7 ∷ 1 ∷ 65 ∷ 2 ∷ 50 ∷ 31 ∷ []) answering not_initial answered

forms-AreForms : AreForms forms
forms-AreForms = record { short = text-IsCodec 255; string = text-IsCodec (2 ^ 64) }

abbrev pub half : Bytes
half = replicate 32 21

abbrev pub room : Outside
room = record { sendbuf = replicate 64 0; nonce = 0 ∷ 0 ∷ []; sends = true }

asks : Signs aead credence forms dir dir room (31 ∷ [])
asks = record {
  id = 65 ∷ [];
  secret = 50 ∷ [];
  signed_msg = 50 ∷ 31 ∷ [];
  stash = refl;
  signs = refl;
  known = refl;
  opens = refl;
  id_size = omega arith;
  signed_size = omega arith;
  room = omega arith;
  nonce_size = refl;
  sends = refl;
}

replies : Signs aead credence forms dir dir room (half ++ 8 ∷ 9 ∷ [])
replies = record {
  id = 65 ∷ [];
  secret = 50 ∷ [];
  signed_msg = 50 ∷ half ++ 8 ∷ 9 ∷ [];
  stash = refl;
  signs = refl;
  known = refl;
  opens = refl;
  id_size = omega arith;
  signed_size = omega arith;
  room = omega arith;
  nonce_size = refl;
  sends = refl;
}

get_key-client_step_example :
    (d2 d3 : Bytes) × (client_step aead credence forms dir
        (8 ∷ 9 ∷ [])
        room
        (forms.short.write half)
        (Honest.asked (31 ∷ []) client_initial [] [])
      ≡ some (
        true,
        Honest.asked (31 ∷ []) client_kx_key_sent half (1 ∷ []),
        forms.short.write (31 ∷ []) ∷ [],
      ))
    × (requester_step aead credence forms dir room
          (forms.short.write (31 ∷ []))
          (Honest.asking half kx_key_sent [] [] [])
        ≡ some (true, Honest.asking half id_sent (31 ∷ []) (1 ∷ []) [], d2 ∷ []))
    × (client_step aead credence forms dir
          (8 ∷ 9 ∷ [])
          room
          d2
          (Honest.asked (31 ∷ []) client_kx_key_sent half (1 ∷ []))
        ≡ some (true, Honest.asked (31 ∷ []) client_id_sent half (1 ∷ []), d3 ∷ []))
    × (get_key aead credence forms dir
          ((room, forms.short.write (31 ∷ [])) ∷ (room, d3) ∷ [])
          (Honest.asking half kx_key_sent [] [] [])
        ≡ some (some (8 ∷ 9 ∷ [])))
get_key-client_step_example =
    get_key-client_step aead aead-IsSound credence forms forms-AreForms dir dir (31 ∷ []) half
      (8 ∷ 9 ∷ []) room room room room [] [] [] [] [] refl refl (omega arith) refl refl asks replies
