-- ===== src/Examples/Listeners.antt =====
-- A run of the listener for key requests: a program asks for the key, and proves who it is.
use mclog.Base.{ℕ, ◌≡◌, refl, inl, inr, List, [], ◌∷◌, ◌++◌, some}
use mclog.Packet.{Bytes, make_packet, decrypt, encrypt, send_encrypted, datagram, add}
use mclog.Table.{UdpEndpoint, equivalent, endpoint_less}
use mclog.Exchange.{send_id_and_sig, read_id}
use mclog.Exchange.Client.{client_id_sent, client_step, on_initial, client_kx_sent, is_valid_user}
use mclog.Exchange.Authentic.{IsAmong}
use mclog.Exchange.Listener.{
  ListenerState, Arrival, Reception, not_ready, received, TimedClient, new_client, is_success,
  change_state, no_clients, client_at, put_client, erase_client, erase_expired, clear_expired,
  answer, answer_ipv4, answer_ipv6, listen,
}
use mclog.Exchange.Listener.Done.{listen-AreProved}
use mclog.Exchange.Listener.Proved.{AreProved}
use mclog.Examples.{aead}
use mclog.Examples.Endpoints.{numbers, numbers-IsOrder, at_port}
use mclog.Examples.Keys.{credence, forms, dir, half, room}

abbrev proof : Bytes
proof = 0 ∷ 0 ∷ 7 ∷ 1 ∷ 65 ∷ 2 ∷ 50 ∷ 31 ∷ []

abbrev from_asker : ℕ → Bytes → Arrival numbers
from_asker now bytes = record {
  endpoint = at_port 1;
  bytes = bytes;
  outside = room;
  now = now;
  pair = 31 ∷ [];
}

abbrev turns : List (Reception numbers × Reception numbers × ℕ)
turns =
    (received (from_asker 10 (32 ∷ half)), not_ready, 10)
    ∷ (not_ready, received (from_asker 11 proof), 11)
    ∷ []

abbrev asker_done : TimedClient
asker_done = record {
  machine = record {
    state = client_id_sent;
    key_pair = 31 ∷ [];
    their_kx = half;
    shared_key = 1 ∷ [];
  };
  last_state_change_time = 11;
}

abbrev afterwards : ListenerState numbers
afterwards = record {
  clients = [];
  clients_done = (at_port 1, asker_done) ∷ [];
  sent =
      (at_port 1, 1 ∷ 31 ∷ [])
      ∷ (at_port 1, 0 ∷ 0 ∷ 7 ∷ 1 ∷ 65 ∷ 35 ∷ 50 ∷ half ++ 8 ∷ 9 ∷ [])
      ∷ [];
}

listened :
    listen numbers aead credence forms dir (8 ∷ 9 ∷ []) turns (no_clients numbers) ≡ some afterwards
unfolding listen no_clients answer answer_ipv4 answer_ipv6 client_at put_client erase_client
    erase_expired clear_expired change_state new_client is_success client_step on_initial
    client_kx_sent is_valid_user send_id_and_sig read_id make_packet add send_encrypted encrypt
    datagram decrypt equivalent endpoint_less
listened = refl

abbrev IsSentByAsker : UdpEndpoint numbers → Bytes → Type 0
IsSentByAsker e buf = (e ≡ at_port 1) × IsAmong buf ((room, 32 ∷ half) ∷ (room, proof) ∷ [])

listen-AreProved_example :
    AreProved numbers aead credence forms dir IsSentByAsker ((at_port 1, asker_done) ∷ [])
listen-AreProved_example =
    listen-AreProved numbers numbers-IsOrder aead credence forms dir (8 ∷ 9 ∷ []) IsSentByAsker
      turns ((refl, inl refl), tt, (tt, (refl, inr (inl refl)), tt)) listened
