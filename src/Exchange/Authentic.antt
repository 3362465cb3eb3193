-- ===== src/Exchange/Authentic.antt =====
-- Whom the two sides believe.
use mclog.Base.{
  ◌+◌, ◌≡◌, ◌⊎◌, ◌≢◌, refl, sym, ap, ◌∙◌, Bool, true, false, List, [], ◌∷◌, ◌++◌, Option, some,
  ◌==◌, ==_iff, text_eq, text_eq→eq, is_empty, length, take, drop, if◌then◌else◌, arith,
  take-append-drop, length-drop, Bool-cases, Option-cases, inl, inr,
}
use mclog.Packet.{Bytes, MessagePacket, Aead, make_packet, decrypt, payload}
use mclog.Exchange.{Credence, Forms, KeyDir, Outside, read_id}
use mclog.Exchange.Client.{
  KeyRequestClientState, client_initial, is_valid_user, client_kx_sent, client_step,
}
use mclog.Exchange.Requester.{
  State, initial, kx_key_sent, success, failure, id_sent, KeyRequesterState, valid_user,
  on_kx_key_sent, on_id_sent, requester_step, key_found, is_over, get_key,
}

-- What the packet made of a datagram, decrypted with a key, holds.
abbrev pub Carries : Aead → Forms → Bytes → Bytes → Bytes → Bytes → Type 0
Carries c fm shared buf id signed_msg =
    (pkt : MessagePacket) × (make_packet c buf ≡ some pkt)
    × (read_id fm (payload (decrypt c (length buf) shared pkt).1) ≡ some (id, signed_msg))

-- A known key opens the signed message to the asking side's public half followed by this key, of a
-- session key's length.
abbrev pub IsSigned : Credence → KeyDir → Bytes → Bytes → Bytes → Bytes → Type 0
IsSigned cr dir pair key id signed_msg =
    (is_empty (dir.known id) ≡ false)
    × (cr.open_signed signed_msg (dir.known id) ≡ some (cr.kx_public pair ++ key))
    × (length key ≡ cr.session_key_bytes)

-- A datagram carries such a message.
abbrev pub IsVouched : Aead → Credence → Forms → KeyDir → Bytes → Bytes → Bytes → Type 0
IsVouched c cr fm dir pair key buf =
    (shared : Bytes) × (id : Bytes) × (signed_msg : Bytes) × Carries c fm shared buf id signed_msg
    × IsSigned cr dir pair key id signed_msg

abbrev pub IsAmong : Bytes → List (Outside × Bytes) → Type 0
IsAmong buf [] = ⊥
IsAmong buf ((out, d) ∷ ds) = (buf ≡ d) ⊎ IsAmong buf ds

module _ (c : Aead) (cr : Credence) (fm : Forms) (dir : KeyDir) where
  valid_user-IsSigned :
      (s : KeyRequesterState) (id signed_msg : Bytes) {key : Bytes}
      → valid_user c cr fm dir s id signed_msg ≡ some key
      → IsSigned cr dir s.kx_key_pair key id signed_msg
  unfolding valid_user
  valid_user-IsSigned s id signed_msg {key} h =
      elim (Option-cases (cr.open_signed signed_msg (dir.known id))) [
        | inl bad ↦ absurd (ground (arith, bad))
        | inr (orig, opened) ↦
            let mine = cr.kx_public s.kx_key_pair in
            let known : is_empty (dir.known id) ≡ false = ground (arith, opened) in
            let size : (length orig == length mine + cr.session_key_bytes) ≡ true =
              ground (arith, opened) in
            let front : text_eq (take (length mine) orig) mine ≡ true = ground (arith, opened) in
            let back : drop (length mine) orig ≡ key = ground (arith, opened) in
            let joined : orig ≡ mine ++ key =
              sym (take-append-drop (length mine) orig)
              ∙ ap (λ t. t ++ drop (length mine) orig) (text_eq→eq _ mine front)
              ∙ ap (λ t. mine ++ t) back in
            (
              known,
              opened ∙ ap some joined,
              ap length (sym back)
                  ∙ omega (arith, length-drop (length mine) orig, (==_iff _ _).0 size),
            )
      ]

  on_id_sent-IsVouched :
      (buf : Bytes) (s : KeyRequesterState) {rc : Bool} {s1 : KeyRequesterState} {sent : List Bytes}
      {key : Bytes}
      → on_id_sent c cr fm dir buf s ≡ some (rc, s1, sent)
      → key_found c cr fm dir s1 ≡ some key
      → IsVouched c cr fm dir s.kx_key_pair key buf
  unfolding on_id_sent
  on_id_sent-IsVouched buf s {key = key} h found = elim (Option-cases (make_packet c buf)) [
    | inl short ↦ absurd (ground (arith, short))
    | inr (pkt, made) ↦
        let opened = decrypt c (length buf) s.shared_key pkt in
        elim (Option-cases opened.0) [
          | inl shut ↦ absurd (ground (arith, made, shut))
          | inr (n, ok) ↦ elim (Option-cases (read_id fm (payload opened.1))) [
            | inl garbled ↦ absurd (ground (arith, made, ok, garbled))
            | inr ((id, signed_msg), read) ↦
                elim (Option-cases (valid_user c cr fm dir s id signed_msg)) [
                  | inl refused ↦ absurd (ground (arith, made, ok, read, refused))
                  | inr (k, valid) ↦
                      let same : k ≡ key = ground (arith, made, ok, read, valid) in
                      rw (sym same) (
                        s.shared_key,
                        id,
                        signed_msg,
                        (pkt, made, read),
                        valid_user-IsSigned s id signed_msg valid,
                      )
                ]
          ]
        ]
  ]

  going_on :
      (x : State)
      → is_over c cr fm dir x ≡ false
      → (x ≡ id_sent) ⊎ ((x ≡ initial) ⊎ (x ≡ kx_key_sent))
  going_on initial h = inr (inl refl)
  going_on kx_key_sent h = inr (inr refl)
  going_on id_sent h = inl refl
  going_on success h = absurd (ground arith)
  going_on failure h = absurd (ground arith)

  requester_step-IsVouched :
      (out : Outside) (buf : Bytes) (s : KeyRequesterState) {rc : Bool} {s1 : KeyRequesterState}
      {sent : List Bytes} {key : Bytes}
      → requester_step c cr fm dir out buf s ≡ some (rc, s1, sent)
      → is_over c cr fm dir s.current_state ≡ false
      → key_found c cr fm dir s1 ≡ some key
      → IsVouched c cr fm dir s.kx_key_pair key buf
  unfolding requester_step on_kx_key_sent
  requester_step-IsVouched out buf s {rc = rc} {s1 = s1} {sent = sent} h going found =
      elim (going_on s.current_state going) [
        | inl e ↦
            let here : on_id_sent c cr fm dir buf s ≡ some (rc, s1, sent) = ground (arith, e) in
            on_id_sent-IsVouched buf s here found
        | inr (inl e) ↦ absurd (ground (arith, e))
        | inr (inr e) ↦ absurd (ground (arith, e))
      ]

  requester_step_keeps :
      (out : Outside) (buf : Bytes) (s : KeyRequesterState) {rc : Bool} {s1 : KeyRequesterState}
      {sent : List Bytes}
      → requester_step c cr fm dir out buf s ≡ some (rc, s1, sent)
      → s1.kx_key_pair ≡ s.kx_key_pair
  unfolding requester_step on_kx_key_sent on_id_sent
  requester_step_keeps out buf s h = ground arith

  get_key_from :
      (ds : List (Outside × Bytes)) (s : KeyRequesterState) {key : Bytes}
      → is_over c cr fm dir s.current_state ≡ false
      → get_key c cr fm dir ds s ≡ some (some key)
      → (b : Bytes) × IsAmong b ds × IsVouched c cr fm dir s.kx_key_pair key b
  unfolding get_key
  get_key_from [] s going h = elim (going_on s.current_state going) [
    | inl e ↦ absurd (ground (arith, e))
    | inr (inl e) ↦ absurd (ground (arith, e))
    | inr (inr e) ↦ absurd (ground (arith, e))
  ]
  get_key_from ((out, buf) ∷ rest) s {key = key} going h =
      elim (Option-cases (requester_step c cr fm dir out buf s)) [
        | inl fault ↦ absurd (ground (arith, fault))
        | inr ((rc, s1, sent), step) ↦
            let pair = requester_step_keeps out buf s step in
            elim (Option-cases (get_key c cr fm dir rest s1)) [
              | inl fault ↦ absurd (ground (arith, step, fault))
              | inr (last, more) ↦ elim (Bool-cases (is_over c cr fm dir s1.current_state)) [
                | inl over ↦ (
                  buf,
                  inl refl,
                  requester_step-IsVouched out buf s step going
                      (ended rest s1 rc last over more (ground (arith, step, more))),
                )
                | inr on ↦ elim (Bool-cases rc) [
                  | inl goes ↦
                      let (b, among, vouched) =
                        get_key_from rest s1 {key = key} on (ground (arith, step, more, goes)) in
                      (b, inr among, rw (sym pair) vouched)
                  | inr stops ↦ (
                    buf,
                    inl refl,
                    requester_step-IsVouched out buf s step going
                        (ground (arith, step, more, stops)),
                  )
                ]
              ]
            ]
      ]
    where
      ended :
          (rest : List (Outside × Bytes)) (s1 : KeyRequesterState) (rc : Bool) (last : Option Bytes)
          → is_over c cr fm dir s1.current_state ≡ true
          → get_key c cr fm dir rest s1 ≡ some last
          → (if rc then last else key_found c cr fm dir s1) ≡ some key
          → key_found c cr fm dir s1 ≡ some key
      ended [] s1 rc last over more found = ground arith
      ended (d ∷ rest) s1 rc last over more found = ground arith

-- After its public half is sent, and whatever datagrams come from whomever: where the asking side
-- takes a key as the sender's, one of the datagrams carries a message that a key it knows opens to
-- its public half followed by that key, which has a session key's length.
pub get_key-IsVouched :
    (c : Aead) (cr : Credence) (fm : Forms) (dir : KeyDir) (ds : List (Outside × Bytes))
    (s : KeyRequesterState) {key : Bytes}
    → s.current_state ≡ kx_key_sent
    → get_key c cr fm dir ds s ≡ some (some key)
    → (b : Bytes) × IsAmong b ds × IsVouched c cr fm dir s.kx_key_pair key b
get_key-IsVouched c cr fm dir ds s asked h = get_key_from c cr fm dir ds s (rw asked refl) h

-- A known key opens the signed message to exactly the asked side's public half.
abbrev pub IsKnown : Credence → KeyDir → Bytes → Bytes → Bytes → Type 0
IsKnown cr dir pair id signed_msg =
    (is_empty (dir.known id) ≡ false)
    × (cr.open_signed signed_msg (dir.known id) ≡ some (cr.kx_public pair))

pub is_valid_user-IsKnown :
    (c : Aead) (cr : Credence) (fm : Forms) (dir : KeyDir) (mcast_key : Bytes)
    (s : KeyRequestClientState) (id signed_msg : Bytes)
    → is_valid_user c cr fm dir mcast_key s id signed_msg ≡ true
    → IsKnown cr dir s.key_pair id signed_msg
unfolding is_valid_user
is_valid_user-IsKnown c cr fm dir mcast_key s id signed_msg h =
    elim (Option-cases (cr.open_signed signed_msg (dir.known id))) [
      | inl bad ↦ absurd (ground (arith, bad))
      | inr (orig, opened) ↦
          let same : text_eq orig (cr.kx_public s.key_pair) ≡ true = ground (arith, opened) in
          (ground (arith, opened), opened ∙ ap some (text_eq→eq orig _ same))
    ]

-- Past its initial state, the asked side sends something only in answer to a packet that carries a
-- message which a key it knows opens to exactly its public half.
pub client_step-IsKnown :
    (c : Aead) (cr : Credence) (fm : Forms) (dir : KeyDir) (mcast_key : Bytes) (out : Outside)
    (buf : Bytes) (s : KeyRequestClientState) {rc : Bool} {s1 : KeyRequestClientState} {d : Bytes}
    {ds : List Bytes}
    → (s.state ≢ client_initial)
    → client_step c cr fm dir mcast_key out buf s ≡ some (rc, s1, d ∷ ds)
    → (id : Bytes) × (signed_msg : Bytes) × Carries c fm s.shared_key buf id signed_msg
      × IsKnown cr dir s.key_pair id signed_msg
unfolding client_step client_kx_sent
client_step-IsKnown c cr fm dir mcast_key out buf s {rc = rc} {s1 = s1} {d = d} {ds = ds} begun h =
    elim (Option-cases (make_packet c buf)) [
      | inl short ↦ absurd (ground (arith, short))
      | inr (pkt, made) ↦
          let opened = decrypt c (length buf) s.shared_key pkt in
          elim (Option-cases opened.0) [
            | inl shut ↦ absurd (ground (arith, made, shut))
            | inr (n, ok) ↦ elim (Option-cases (read_id fm (payload opened.1))) [
              | inl garbled ↦ absurd (ground (arith, made, ok, garbled))
              | inr ((id, signed_msg), read) ↦
                  elim (Bool-cases (is_valid_user c cr fm dir mcast_key s id signed_msg)) [
                    | inl valid ↦ (
                      id,
                      signed_msg,
                      (pkt, made, read),
                      is_valid_user-IsKnown c cr fm dir mcast_key s id signed_msg valid,
                    )
                    | inr refused ↦ absurd (ground (arith, made, ok, read, refused))
                  ]
            ]
          ]
    ]
