-- ===== src/Exchange/Listener/Done.antt =====
-- Whom the listener for key requests takes to be done.
use mclog.Base.{
  ℕ, ◌≡◌, refl, sym, ap, ◌∙◌, true, ◌&&◌, List, [], ◌∷◌, ◌++◌, some, arith, Bool-cases,
  Option-cases, inl, inr, subst,
}
use mclog.Packet.{Bytes, Aead}
use mclog.Table.{Addresses, UdpEndpoint, equivalent}
use mclog.Table.Order.{IsOrder, equivalent→eq}
use mclog.Exchange.{Credence, Forms, KeyDir}
use mclog.Exchange.Client.{client_step}
use mclog.Exchange.Listener.{
  TimedClient, new_client, is_success, change_state, Clients, ListenerState, Arrival, Reception,
  not_ready, failed_call, received, no_clients, client_at, clear_expired, answer, answer_ipv4,
  answer_ipv6, listen,
}
use mclog.Exchange.Listener.Proved.{
  AreProved, AreProved-append, AreProved-erase_expired, client_step_done,
}

-- A datagram that is received.
abbrev pub IsReceived : (a : Addresses) → (UdpEndpoint a → Bytes → Type 0) → Reception a → Type 0
IsReceived a R not_ready = Unit
IsReceived a R failed_call = Unit
IsReceived a R (received x) = R x.endpoint x.bytes

-- All that the turns find.
abbrev pub AreReceived :
    (a : Addresses)
    → (UdpEndpoint a → Bytes → Type 0)
    → List (Reception a × Reception a × ℕ)
    → Type 0
AreReceived a R [] = Unit
AreReceived a R ((v4, v6, now) ∷ turns) =
    IsReceived a R v4 × IsReceived a R v6 × AreReceived a R turns

module _ (a : Addresses) (order : IsOrder a) (c : Aead) (cr : Credence) (fm : Forms) (dir : KeyDir)
    (mcast_key : Bytes) (R : UdpEndpoint a → Bytes → Type 0) where
  client_at_key :
      (e : UdpEndpoint a) (fresh : TimedClient) (xs : Clients a) → (client_at a e fresh xs).0 ≡ e
  unfolding client_at
  client_at_key e fresh [] = refl
  client_at_key e fresh ((f, cl) ∷ xs) = elim (Bool-cases (equivalent a e f)) [
    | inl same ↦ rw same (sym (equivalent→eq a order e f same))
    | inr other ↦ rw other (client_at_key e fresh xs)
  ]

  answer-AreProved :
      (x : Arrival a) (l l1 : ListenerState a)
      → R x.endpoint x.bytes
      → AreProved a c cr fm dir R l.clients_done
      → answer a c cr fm dir mcast_key x l ≡ some l1
      → AreProved a c cr fm dir R l1.clients_done
  unfolding answer change_state
  answer-AreProved x l l1 heard proved h =
      let entry = client_at a x.endpoint (new_client x.now x.pair) l.clients in
      elim (Option-cases (client_step c cr fm dir mcast_key x.outside x.bytes entry.1.machine)) [
        | inl fails ↦ absurd (ground (arith, fails))
        | inr ((rc, s, ds), steps) ↦ elim (Bool-cases (rc && is_success s.state)) [
          | inl done ↦
              let right : rc ≡ true = ground arith in
              let success : is_success s.state ≡ true = ground arith in
              let (id, signed_msg, carries, known) =
                client_step_done c cr fm dir mcast_key x.outside x.bytes entry.1.machine s ds
                  (steps ∙ ap (λ b. some (b, s, ds)) right) success in
              let heard_at : R entry.0 x.bytes =
                subst (λ e. R e x.bytes) (sym (client_at_key x.endpoint _ l.clients)) heard in
              let longer : l.clients_done ++ (entry.0, change_state x.now entry.1 s) ∷ []
                  ≡ l1.clients_done =
                ground (arith, steps, done) in
              subst (AreProved a c cr fm dir R) longer (
                AreProved-append a c cr fm dir R l.clients_done _ proved
                  ((success, x.bytes, id, signed_msg, heard_at, carries, known), tt))
          | inr going ↦
              let same : l.clients_done ≡ l1.clients_done = ground (arith, steps, going) in
              subst (AreProved a c cr fm dir R) same proved
        ]
      ]

  same-AreProved :
      (l l1 : ListenerState a)
      → l.clients_done ≡ l1.clients_done
      → AreProved a c cr fm dir R l.clients_done
      → AreProved a c cr fm dir R l1.clients_done
  same-AreProved l l1 same proved = subst (AreProved a c cr fm dir R) same proved

  nonempty_lem :
      (x : Arrival a) (l l1 : ListenerState a) (bs : Bytes)
      → R x.endpoint x.bytes
      → AreProved a c cr fm dir R l.clients_done
      → (elim bs [ [] ↦ some l | b ∷ rest ↦ answer a c cr fm dir mcast_key x l ]) ≡ some l1
      → AreProved a c cr fm dir R l1.clients_done
  nonempty_lem x l l1 [] heard proved h = same-AreProved l l1 (cc) proved
  nonempty_lem x l l1 (b ∷ rest) heard proved h = answer-AreProved x l l1 heard proved h

  answer_ipv4-AreProved :
      (x : Reception a) (l l1 : ListenerState a)
      → IsReceived a R x
      → AreProved a c cr fm dir R l.clients_done
      → answer_ipv4 a c cr fm dir mcast_key x l ≡ some l1
      → AreProved a c cr fm dir R l1.clients_done
  unfolding answer_ipv4
  answer_ipv4-AreProved not_ready l l1 heard proved h = same-AreProved l l1 (cc) proved
  answer_ipv4-AreProved failed_call l l1 heard proved h = absurd cc
  answer_ipv4-AreProved (received x) l l1 heard proved h =
      nonempty_lem x l l1 x.bytes heard proved h

  answer_ipv6-AreProved :
      (x : Reception a) (l l1 : ListenerState a)
      → IsReceived a R x
      → AreProved a c cr fm dir R l.clients_done
      → answer_ipv6 a c cr fm dir mcast_key x l ≡ some l1
      → AreProved a c cr fm dir R l1.clients_done
  unfolding answer_ipv6
  answer_ipv6-AreProved not_ready l l1 heard proved h = same-AreProved l l1 (cc) proved
  answer_ipv6-AreProved failed_call l l1 heard proved h = same-AreProved l l1 (cc) proved
  answer_ipv6-AreProved (received x) l l1 heard proved h =
      nonempty_lem x l l1 x.bytes heard proved h

  listen_from :
      (turns : List (Reception a × Reception a × ℕ)) (l l1 : ListenerState a)
      → AreReceived a R turns
      → AreProved a c cr fm dir R l.clients_done
      → listen a c cr fm dir mcast_key turns l ≡ some l1
      → AreProved a c cr fm dir R l1.clients_done
  unfolding listen clear_expired
  listen_from [] l l1 heard proved h = same-AreProved l l1 (cc) proved
  listen_from ((v4, v6, now) ∷ turns) l l1 heard proved h =
      elim (Option-cases (answer_ipv4 a c cr fm dir mcast_key v4 l)) [
        | inl fails ↦ absurd (ground (arith, fails))
        | inr (m, first) ↦ elim (Option-cases (answer_ipv6 a c cr fm dir mcast_key v6 m)) [
          | inl fails ↦ absurd (ground (arith, first, fails))
          | inr (n, second) ↦
              listen_from turns (clear_expired a now n) l1 heard.2
                (AreProved-erase_expired a c cr fm dir R now n.clients_done (
                  answer_ipv6-AreProved v6 m n heard.1
                    (answer_ipv4-AreProved v4 l m heard.0 proved first) second))
                (ground (arith, first, second))
        ]
      ]

  -- Where every datagram that arrives, over whatever turns, satisfies a relation to its sender's
  -- endpoint: every client that the listener holds for done has sent such a datagram, from its
  -- endpoint, that carries, under the key shared with the client, an id and a message that the key
  -- known for that id opens to the listener's public half.
  pub listen-AreProved :
      (turns : List (Reception a × Reception a × ℕ)) {l : ListenerState a}
      → AreReceived a R turns
      → listen a c cr fm dir mcast_key turns (no_clients a) ≡ some l
      → AreProved a c cr fm dir R l.clients_done
  unfolding no_clients
  listen-AreProved turns {l = l} heard h = listen_from turns (no_clients a) l heard tt h
