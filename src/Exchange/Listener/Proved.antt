-- ===== src/Exchange/Listener/Proved.antt =====
-- The clients of the listener for key requests that have proved who they are.
use mclog.Base.{
  ℕ, ◌-◌, ◌≡◌, sym, ap, ◌∙◌, length, true, List, [], ◌∷◌, ◌++◌, some, ltb, arith, Bool-cases,
  Option-cases, inl, inr,
}
use mclog.Packet.{Bytes, Aead, make_packet, decrypt, payload}
use mclog.Table.{Addresses, UdpEndpoint}
use mclog.Exchange.{Credence, Forms, KeyDir, Outside, send_id_and_sig, read_id}
use mclog.Exchange.Client.{
  KeyRequestClientState, is_valid_user, on_initial, client_kx_sent, client_step,
}
use mclog.Exchange.Authentic.{Carries, IsKnown, is_valid_user-IsKnown}
use mclog.Exchange.Listener.{TimedClient, is_success, Clients, erase_expired}

module _ (a : Addresses) (c : Aead) (cr : Credence) (fm : Forms) (dir : KeyDir)
    (R : UdpEndpoint a → Bytes → Type 0) where
  -- The listener has sent the client its signature of the key, and of what the endpoint sent, one
  -- datagram opens, under the key shared with the client, to an id and a message that a key known
  -- for that id opens to the listener's public half.
  abbrev pub IsProved : UdpEndpoint a → TimedClient → Type 0
  IsProved e cl =
      (is_success cl.machine.state ≡ true)
      × (buf id signed_msg : Bytes) × R e buf
      × Carries c fm cl.machine.shared_key buf id signed_msg
      × IsKnown cr dir cl.machine.key_pair id signed_msg

  -- All clients are.
  abbrev pub AreProved : Clients a → Type 0
  AreProved [] = Unit
  AreProved ((e, cl) ∷ rest) = IsProved e cl × AreProved rest

  pub AreProved-append : (xs ys : Clients a) → AreProved xs → AreProved ys → AreProved (xs ++ ys)
  AreProved-append [] ys p q = q
  AreProved-append ((e, cl) ∷ xs) ys p q = (p.0, AreProved-append xs ys p.1 q)

  pub AreProved-erase_expired :
      (now : ℕ) (xs : Clients a) → AreProved xs → AreProved (erase_expired a now xs)
  unfolding erase_expired
  AreProved-erase_expired now [] p = tt
  AreProved-erase_expired now ((e, cl) ∷ xs) p =
      elim (Bool-cases (ltb cl.last_state_change_time (now - 5))) [
        | inl old ↦ rw old (AreProved-erase_expired now xs p.1)
        | inr fresh ↦ rw fresh (p.0, AreProved-erase_expired now xs p.1)
      ]

module _ (c : Aead) (cr : Credence) (fm : Forms) (dir : KeyDir) (mcast_key : Bytes) where
  -- A client that comes to have the key has proved who it is.
  pub client_step_done :
      (out : Outside) (buf : Bytes) (s s1 : KeyRequestClientState) (sent : List Bytes)
      → client_step c cr fm dir mcast_key out buf s ≡ some (true, s1, sent)
      → is_success s1.state ≡ true
      → (id signed_msg : Bytes) × Carries c fm s1.shared_key buf id signed_msg
        × IsKnown cr dir s1.key_pair id signed_msg
  unfolding client_step on_initial client_kx_sent is_success
  client_step_done out buf s s1 sent h done = elim (Option-cases (make_packet c buf)) [
    | inl short ↦ absurd (ground (arith, short))
    | inr (pkt, made) ↦
        let opened = decrypt c (length buf) s.shared_key pkt in
        elim (Option-cases opened.0) [
          | inl shut ↦ absurd (ground (arith, made, shut))
          | inr (n, ok) ↦ elim (Option-cases (read_id fm (payload opened.1))) [
            | inl garbled ↦ absurd (ground (arith, made, ok, garbled))
            | inr ((id, signed_msg), read) ↦
                elim (Bool-cases (is_valid_user c cr fm dir mcast_key s id signed_msg)) [
                  | inl valid ↦
                      elim (Option-cases
                        (send_id_and_sig c cr fm dir out s.shared_key (s.their_kx ++ mcast_key))) [
                          | inl fails ↦ absurd (ground (arith, made, ok, read, valid, fails))
                          | inr ((all_well, ds), sends) ↦
                              let shared : s.shared_key ≡ s1.shared_key =
                                ground (arith, made, ok, read, valid, sends) in
                              let known =
                                is_valid_user-IsKnown c cr fm dir mcast_key s id signed_msg valid in
                              let pair : s.key_pair ≡ s1.key_pair =
                                ground (arith, made, ok, read, valid, sends) in
                              (
                                id,
                                signed_msg,
                                (
                                  pkt,
                                  made,
                                  ap (λ k. read_id fm (payload (decrypt c (length buf) k pkt).1))
                                        (sym shared)
                                      ∙ read,
                                ),
                                (known.0, known.1 ∙ ap (λ k. some (cr.kx_public k)) pair),
                              )
                        ]
                  | inr refused ↦ absurd (ground (arith, made, ok, read, refused))
                ]
          ]
        ]
  ]
