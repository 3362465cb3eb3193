-- ===== src/Examples/Loopbacks.antt =====
-- A run from a program's queue to the daemon's sinks.
use mclog.Base.{◌≡◌, refl, arith, true, false, List, [], ◌∷◌, some, replicate, flatten}
use mclog.Packet.{Bytes, MessagePacket, make_packet}
use mclog.Message.{
  Message, write_message, write_header, write_origin, is_valid_hostname, is_valid_app_name,
  is_host_char, is_app_char,
}
use mclog.Message.RoundTrip.{Fits}
use mclog.Message.Streams.{AllGood}
use mclog.Sender.{run_loopback}
use mclog.Sender.Delivery.{start}
use mclog.Sender.Polls.{Poll, taken, timeout, wakes, polled}
use mclog.Loopback.{Received, process_all, turns}
use mclog.Loopback.Turns.{arrivals}
use mclog.Loopback.Delivery.{turns-run_loopback}
use mclog.Examples.{aead, io, io-IsSound, hello, hello-Fits}

-- Twenty bytes, seventeen of them for the payload: one `hello` has room, two have not, and the long
-- message has none in any packet.
abbrev packet : MessagePacket
packet = record {
  buf = replicate 20 0;
  span_start = 2;
  span_size = 17;
  tellp = 0;
  payload_length = 0;
}

abbrev long : Message
long = record hello { message = replicate 12 b'x' }

abbrev polls : List Poll
polls = taken 100 (hello ∷ hello ∷ []) ∷ timeout 1200 ∷ taken 1300 (long ∷ hello ∷ []) ∷ []

abbrev fresh : Received
fresh = record { buf = replicate 30 1; processed = [] }

packet_made : make_packet aead (replicate 20 0) ≡ some packet
unfolding make_packet
packet_made = refl

long-Fits : Fits long
long-Fits = record {
  timestamp = omega arith;
  facility = omega arith;
  severity = omega arith;
  hostname = omega arith;
  appname = omega arith;
  procid = omega arith;
  message = omega arith;
}

polls-AllGood : AllGood (polled polls)
unfolding is_valid_hostname is_valid_app_name is_host_char is_app_char
polls-AllGood = (hello-Fits, refl, (hello-Fits, refl, (long-Fits, refl, (hello-Fits, refl, tt))))

turns-run_loopback_example :
    (buf : Bytes) × (turns aead io
        (4 ∷ 5 ∷ [])
        true
        false
        (arrivals (flatten (run_loopback aead (wakes io polls) (start packet)).sent))
        fresh
      ≡ some (record {
        buf = buf;
        processed =
            (4, hello) ∷ (5, hello) ∷ (4, hello) ∷ (5, hello) ∷ (4, hello) ∷ (5, hello) ∷ [];
      }))
unfolding process_all write_message write_header write_origin
turns-run_loopback_example =
    turns-run_loopback aead io (replicate 20 0) packet polls (4 ∷ 5 ∷ []) false fresh io-IsSound
      packet_made polls-AllGood (omega arith)
