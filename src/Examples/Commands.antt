-- ===== src/Examples/Commands.antt =====
-- Runs of mclogger with `-p mail.err -P 99`, against a daemon with one sink.
use mclog.Base.{
  ◌≡◌, ◌≢◌, ◌⊎◌, ℕ, ◌-◌, refl, arith, true, codes, List, [], ◌∷◌, ◌++◌, some, replicate,
  length-replicate, take,
}
use mclog.Facility
use mclog.Facility.{Facility, facility_value}
use mclog.Severity
use mclog.Severity.{Severity, severity_value}
use mclog.Decimal.{stoul, read_unsigned, read_digits}
use mclog.Stream.{skip_space, is_space}
use mclog.Packet.{Bytes, k_min_packet_len}
use mclog.Message.{Message, is_valid_hostname, is_valid_app_name, is_host_char, is_app_char}
use mclog.Message.Streams.{AllGood}
use mclog.Loopback.{Received, process_all, turns}
use mclog.Loopback.Turns.{arrivals}
use mclog.Command.{
  SendFlag, Caller, Network, send_command, get_priority_info, match_priority, split_dot,
}
use mclog.Command.Priority.{IsPriority, print_priority, get_priority_info_lem}
use mclog.Command.Delivery.{delivered_one, message_of, port_or, turns-send_command}
use mclog.Examples.{aead, io, io-IsSound}

get_priority_info_lem_example :
    ((f : Facility) × (s : Severity) × IsPriority f s
      × (codes "mail.err" ≡ print_priority f s)
      × (get_priority_info (codes "mail.err") ≡ (f, s)))
    ⊎ (((f : Facility) (s : Severity) → IsPriority f s → codes "mail.err" ≢ print_priority f s)
        × (get_priority_info (codes "mail.err") ≡ (Facility.user, Severity.info)))
get_priority_info_lem_example = get_priority_info_lem (codes "mail.err")

abbrev caller : Caller
caller = record { hostname = codes "ab"; ppid = 5; now = 1000 }

abbrev answers : Network
answers = record { opens = true; takes = true }

abbrev flags : List SendFlag
flags = SendFlag.set_priority (codes "mail.err") ∷ SendFlag.set_port (codes "99") ∷ []

number_read : stoul (codes "99") ≡ some 99
unfolding stoul read_unsigned read_digits skip_space is_space
number_read = refl

priority_read : get_priority_info (codes "mail.err") ≡ (Facility.mail, Severity.err)
unfolding get_priority_info match_priority split_dot facility_value severity_value
priority_read = refl

abbrev message : Message
message = message_of take caller (codes "c") (get_priority_info (codes "mail.err")) (codes "hi")

message_good : AllGood (message ∷ [])
unfolding get_priority_info match_priority split_dot facility_value severity_value is_valid_hostname
    is_valid_app_name is_host_char is_app_char
message_good = (
  record {
    timestamp = omega arith;
    facility = omega arith;
    severity = omega arith;
    hostname = omega arith;
    appname = omega arith;
    procid = omega arith;
    message = omega arith;
  },
  refl,
  tt,
)

abbrev received : Received
received = record { buf = replicate 1500 1; processed = [] }

turns-send_command_example :
    (d : Bytes) × (send_command take aead io caller answers
        (replicate 1024 0)
        flags
        (codes "x" ∷ codes "c" ∷ codes "hi" ∷ [])
      ≡ some (record { status = 0; sent = some (port_or 3737 (some (codes "99")), d) }))
    × (buf : Bytes) × (turns aead io (4 ∷ []) true true (arrivals (d ∷ [])) received
        ≡ some (record {
          buf = buf;
          processed =
              [] ++ process_all (4 ∷ []) (delivered_one io (1024 - k_min_packet_len aead) message);
        }))
turns-send_command_example =
    turns-send_command take aead io caller answers (replicate 1024 0) flags (codes "x" ∷ [])
      (codes "c") (codes "hi") (4 ∷ []) true received io-IsSound
      ((99, number_read, omega arith), tt) refl refl (length-replicate {A = ℕ} 1024 0) (omega arith)
      (omega (arith, length-replicate {A = ℕ} 1500 1)) message_good
