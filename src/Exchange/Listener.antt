-- ===== src/Exchange/Listener.antt =====
-- DwmMclogKeyRequestListener.{hh,cc}: what the listener's thread keeps of those that ask for the
-- key, a std::map that is searched by the endpoints' order and a deque. `none` is a failed
-- assertion, or the exception that the text of a failed recvfrom throws.
pub mod Proved
pub mod Done
use mclog.Base.{
  ℕ, ◌-◌, Bool, true, false, ◌&&◌, List, [], ◌∷◌, ◌++◌, Option, none, some, ltb, map, if◌then◌else◌,
  ◌>>=◌,
}
use mclog.Packet.{Bytes, Aead}
use mclog.Table.{Addresses, UdpEndpoint, equivalent}
use mclog.Exchange.{Credence, Forms, KeyDir, Outside}
use mclog.Exchange.Client.{
  ClientState, client_initial, client_kx_key_sent, client_id_sent, client_failure,
  KeyRequestClientState, client_step,
}

-- A client's state machine, with `_lastStateChangeTime`.
pub record TimedClient : Type 0 where
  pub machine : KeyRequestClientState
  pub last_state_change_time : ℕ

-- The constructor, with the key pair that it draws.
unfoldable pub new_client : ℕ → Bytes → TimedClient
new_client now pair = record {
  machine = record { state = client_initial; key_pair = pair; their_kx = []; shared_key = [] };
  last_state_change_time = now;
}

-- `Success`
unfoldable pub is_success : ClientState → Bool
is_success client_initial = false
is_success client_kx_key_sent = false
is_success client_id_sent = true
is_success client_failure = false

abbrev pub same_state : ClientState → ClientState → Bool
same_state client_initial client_initial = true
same_state client_kx_key_sent client_kx_key_sent = true
same_state client_id_sent client_id_sent = true
same_state client_failure client_failure = true
same_state s t = false

-- `ChangeState` takes the time; no state is changed to itself.
unfoldable pub change_state : ℕ → TimedClient → KeyRequestClientState → TimedClient
change_state now cl s = record {
  machine = s;
  last_state_change_time =
      if same_state cl.machine.state s.state then cl.last_state_change_time else now;
}

module _ (a : Addresses) where
  abbrev pub Clients : Type 0
  Clients = List (UdpEndpoint a × TimedClient)

  -- `_clients`, `_clientsDone`, and all that was handed to the sockets.
  pub record ListenerState : Type 0 where
    pub clients : Clients
    pub clients_done : Clients
    pub sent : List (UdpEndpoint a × Bytes)

  -- `recvfrom` where it does not fail: the sender's endpoint and the bytes, with what the step finds
  -- outside, the time, and the key pair of a client that is new.
  pub record Arrival : Type 0 where
    pub endpoint : UdpEndpoint a
    pub bytes : Bytes
    pub outside : Outside
    pub now : ℕ
    pub pair : Bytes

  pub data Reception : Type 0 where
    not_ready failed_call : Reception
    received : Arrival → Reception

  unfoldable pub no_clients : ListenerState
  no_clients = record { clients = []; clients_done = []; sent = [] }

  -- The entry that `_clients.insert` gives.
  unfoldable pub client_at : UdpEndpoint a → TimedClient → Clients → UdpEndpoint a × TimedClient
  client_at e fresh [] = (e, fresh)
  client_at e fresh ((f, cl) ∷ rest) = if equivalent a e f then (f, cl) else client_at e fresh rest

  unfoldable pub put_client : UdpEndpoint a → TimedClient → Clients → Clients
  put_client e cl [] = (e, cl) ∷ []
  put_client e cl ((f, old) ∷ rest) =
      let others = put_client e cl rest in
      if equivalent a e f then (f, cl) ∷ rest else (f, old) ∷ others

  unfoldable pub erase_client : UdpEndpoint a → Clients → Clients
  erase_client e [] = []
  erase_client e ((f, cl) ∷ rest) =
      let others = erase_client e rest in if equivalent a e f then rest else (f, cl) ∷ others

  -- `erase_if` with `expired`; the clock is past its first five seconds.
  unfoldable pub erase_expired : ℕ → Clients → Clients
  erase_expired now [] = []
  erase_expired now ((f, cl) ∷ rest) =
      let others = erase_expired now rest in
      if ltb cl.last_state_change_time (now - 5) then others else (f, cl) ∷ others

  -- `ClearExpired`
  unfoldable pub clear_expired : ℕ → ListenerState → ListenerState
  clear_expired now l = record l {
    clients = erase_expired now l.clients;
    clients_done = erase_expired now l.clients_done;
  }

  module _ (c : Aead) (cr : Credence) (fm : Forms) (dir : KeyDir) (mcast_key : Bytes) where
    -- What `Run` does with a datagram.
    unfoldable pub answer : Arrival → ListenerState → Option ListenerState
    answer x l =
        let (f, cl) = client_at x.endpoint (new_client x.now x.pair) l.clients in
        (do
          (rc, s, ds) ← client_step c cr fm dir mcast_key x.outside x.bytes cl.machine
          let cl1 = change_state x.now cl s
          let sent1 = l.sent ++ map (λ d. (x.endpoint, d)) ds
          some (
              if rc && is_success s.state
              then record {
                clients = erase_client x.endpoint l.clients;
                clients_done = l.clients_done ++ (f, cl1) ∷ [];
                sent = sent1;
              }
              else record {
                clients = put_client x.endpoint cl1 l.clients;
                clients_done = l.clients_done;
                sent = sent1;
              }))

    -- `_fd` in a turn. An empty datagram is only logged.
    unfoldable pub answer_ipv4 : Reception → ListenerState → Option ListenerState
    answer_ipv4 not_ready l = some l
    answer_ipv4 failed_call l = none
    answer_ipv4 (received x) l = elim x.bytes [ [] ↦ some l | b ∷ bs ↦ answer x l ]

    -- `_fd6` in a turn. Neither a failed call nor an empty datagram does more than a log.
    unfoldable pub answer_ipv6 : Reception → ListenerState → Option ListenerState
    answer_ipv6 not_ready l = some l
    answer_ipv6 failed_call l = some l
    answer_ipv6 (received x) l = elim x.bytes [ [] ↦ some l | b ∷ bs ↦ answer x l ]

    -- The loop of `Run`, over what each turn finds and the time at its end.
    unfoldable pub listen : List (Reception × Reception × ℕ) → ListenerState → Option ListenerState
    listen [] l = some l
    listen ((v4, v6, now) ∷ turns) l = do
      l1 ← answer_ipv4 v4 l
      l2 ← answer_ipv6 v6 l1
      listen turns (clear_expired now l2)
