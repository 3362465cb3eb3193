-- ===== src/Command/Delivery.antt =====
-- A message from mclogger to the sinks of mclogd.
use mclog.Base.{
  ℕ, ◌+◌, ◌-◌, ◌≤◌, ◌<◌, ◌≡◌, ◌≢◌, ◌∙◌, refl, subst, sym, ap, Text, Bool, true, false, List, [],
  ◌∷◌, ◌++◌, append-nil, Option, some, none, leb, if◌then◌else◌, length, arith, Bool-cases,
  Option-cases, inl, inr,
}
use mclog.Facility
use mclog.Facility.{Facility}
use mclog.Severity
use mclog.Severity.{Severity}
use mclog.Decimal.{stoul}
use mclog.Packet.{
  Bytes, Aead, MessagePacket, contents, add, datagram, make_packet, k_min_packet_len,
}
use mclog.Packet.Contents.{add_lem}
use mclog.Packet.Transport.{IsOutgoing, payload_of, payload_of-datagram, length-datagram}
use mclog.Message.{Message, StreamIo, write_message, read_stream, write_all}
use mclog.Message.RoundTrip.{IsSound}
use mclog.Message.Streams.{AllGood}
use mclog.Sender.Batches.{IsReady}
use mclog.Sender.Delivery.{make_packet-IsReady}
use mclog.Sender.Polls.{sendable, read_stream-good}
use mclog.Loopback.{Received, process_all, turns}
use mclog.Loopback.Turns.{arrivals, turns-arrivals}
use mclog.Command.{
  SendFlag, set_priority, set_port, unknown_flag, get_priority_info, port_of, SendOptions,
  default_send_options, read_send_options, last_two, Caller, Network, make_message, send_command,
}

make_packet-none :
    (c : Aead) (buf : Bytes) → k_min_packet_len c < length buf → make_packet c buf ≢ none
unfolding make_packet
make_packet-none c buf large fails = ground arith

-- What is delivered of one message.
abbrev pub delivered_one : StreamIo → ℕ → Message → List Message
delivered_one io size m = if sendable io size m then m ∷ [] else []

read_stream-write_message :
    (io : StreamIo) (m : Message)
    → IsSound io
    → AllGood (m ∷ [])
    → read_stream io (write_message io m) ≡ m ∷ []
unfolding write_all
read_stream-write_message io m sound good =
    ap (read_stream io) (sym (append-nil (write_message io m)))
    ∙ read_stream-good io (m ∷ []) sound good

read_stream-nil : (io : StreamIo) → IsSound io → read_stream io [] ≡ []
unfolding write_all
read_stream-nil io sound = read_stream-good io [] sound tt

-- The packet that a message was added to is read back as that message where it had room.
datagram_of_one :
    (c : Aead) (io : StreamIo) (size : ℕ) (p : MessagePacket) (m : Message)
    → IsSound io
    → AllGood (m ∷ [])
    → IsReady c size p
    → p.tellp ≡ 0
    → let q = (add (write_message io m) p).1 in
      (read_stream io (payload_of c (datagram c q)) ≡ delivered_one io size m)
      × (length (datagram c q) ≤ k_min_packet_len c + size)
datagram_of_one c io size p m sound good ready empty =
    let (added, held, writing, same, span, start) =
      add_lem (write_message io m) p ready.outgoing.writing in
    let q = (add (write_message io m) p).1 in
    let out : IsOutgoing c q = record {
      writing = writing;
      nonce_room = start ∙ ready.outgoing.nonce_room;
      mac_room = omega (arith, ready.outgoing.mac_room, span, same);
    } in
    let nothing : contents p ≡ [] = rw empty refl in
    let bs = write_message io m in
    let carries : payload_of c (datagram c q)
        ≡ (if leb (p.tellp + length bs) p.span_size then contents p ++ bs else contents p) =
      payload_of-datagram c q q out ∙ held in
    (
      elim (Bool-cases (sendable io size m)) [
        | inl room ↦
            let fits : leb (p.tellp + length bs) p.span_size ≡ true =
              ground (arith, room, empty, ready.sized) in
            rw (room, carries, fits, nothing) (read_stream-write_message io m sound good)
        | inr full ↦
            let too_long : leb (p.tellp + length bs) p.span_size ≡ false =
              ground (arith, full, empty, ready.sized) in
            rw (full, carries, too_long, nothing) (read_stream-nil io sound)
      ],
      omega (arith, length-datagram c q q out, writing, span, ready.sized),
    )

-- What the options say: each port is a number of 16 bits, none is unknown, and the last of a kind
-- counts.
abbrev pub AllAccepted : List SendFlag → Type 0
AllAccepted [] = Unit
AllAccepted (set_priority t ∷ fs) = AllAccepted fs
AllAccepted (set_port t ∷ fs) = ((n : ℕ) × (stoul t ≡ some n) × (n < 65536)) × AllAccepted fs
AllAccepted (unknown_flag ∷ fs) = true ≡ false

abbrev or_later : Option Text → Text → Option Text
or_later none t = some t
or_later (some u) t = some u

abbrev pub last_priority : List SendFlag → Option Text
last_priority [] = none
last_priority (set_priority t ∷ fs) = or_later (last_priority fs) t
last_priority (set_port t ∷ fs) = last_priority fs
last_priority (unknown_flag ∷ fs) = last_priority fs

abbrev pub last_port : List SendFlag → Option Text
last_port [] = none
last_port (set_priority t ∷ fs) = last_port fs
last_port (set_port t ∷ fs) = or_later (last_port fs) t
last_port (unknown_flag ∷ fs) = last_port fs

abbrev pub priority_or : Facility × Severity → Option Text → Facility × Severity
priority_or p none = p
priority_or p (some t) = get_priority_info t

abbrev pub port_or : ℕ → Option Text → ℕ
port_or n none = n
port_or n (some t) = elim (stoul t) [ none ↦ 0 | some k ↦ k ]

read_send_options_lem :
    (fs : List SendFlag) (o : SendOptions)
    → AllAccepted fs
    → read_send_options fs o
      ≡ some (record {
        priority = priority_or o.priority (last_priority fs);
        port = port_or o.port (last_port fs);
      })
unfolding read_send_options port_of
read_send_options_lem [] o ok = refl
read_send_options_lem (set_priority t ∷ fs) o ok = elim (Option-cases (last_priority fs)) [
  | inl first ↦
      rw (read_send_options_lem fs (record o { priority = get_priority_info t }) ok, first) refl
  | inr (u, later) ↦
      rw (read_send_options_lem fs (record o { priority = get_priority_info t }) ok, later) refl
]
read_send_options_lem (set_port t ∷ fs) o ((n, reads, small), ok) =
    let port : port_of t ≡ some n = ground (arith, reads, small) in
    let others = read_send_options_lem fs (record o { port = n }) ok in
    let value : port_or o.port (some t) ≡ n = rw (port_or, reads) refl in
    elim (Option-cases (last_port fs)) [
      | inl first ↦
          rw (port, read_send_options, others, first)
            (ap
              (λ k.
                some (record { priority = priority_or o.priority (last_priority fs); port = k }))
              (sym value))
      | inr (u, later) ↦ rw (port, read_send_options, others, later) refl
    ]
read_send_options_lem (unknown_flag ∷ fs) o ok = absurd cc

last_two_lem :
    (before : List Text) (ident text : Text)
    → last_two (before ++ ident ∷ text ∷ []) ≡ some (ident, text)
unfolding last_two
last_two_lem [] ident text = refl
last_two_lem (a ∷ []) ident text = refl
last_two_lem (a ∷ b ∷ []) ident text = refl
last_two_lem (a ∷ b ∷ c ∷ before) ident text = last_two_lem (b ∷ c ∷ before) ident text

-- The message of a caller: its host, its parent's identifier and the time, the name that it gives,
-- a facility and a severity.
abbrev pub message_of : (ℕ → Text → Text) → Caller → Text → Facility × Severity → Text → Message
message_of short_string w ident (facility, severity) text = record {
  header = record {
    timestamp = w.now;
    facility = facility;
    severity = severity;
    origin = record {
      hostname = short_string 255 w.hostname;
      appname = short_string 255 ident;
      procid = w.ppid;
    };
  };
  message = short_string 1500 text;
}

turns-read_options :
    (short_string : ℕ → Text → Text) (c : Aead) (io : StreamIo) (w : Caller) (net : Network)
    (pktbuf : Bytes) (flags : List SendFlag) (args : List Text) (o : SendOptions)
    (ident text : Text) (sinks : List ℕ) (open6 : Bool) (r : Received)
    → IsSound io
    → read_send_options flags default_send_options ≡ some o
    → last_two args ≡ some (ident, text)
    → net.opens ≡ true
    → net.takes ≡ true
    → length pktbuf ≡ 1024
    → k_min_packet_len c < 1024
    → 1024 ≤ length r.buf
    → let m = message_of short_string w ident o.priority text in
      AllGood (m ∷ [])
      → (d : Bytes) × (send_command short_string c io w net pktbuf flags args
          ≡ some (record { status = 0; sent = some (o.port, d) }))
        × (buf : Bytes) × (turns c io sinks true open6 (arrivals (d ∷ [])) r
            ≡ some (record {
              buf = buf;
              processed =
                  r.processed ++ process_all sinks (delivered_one io (1024 - k_min_packet_len c) m);
            }))
unfolding send_command make_message
turns-read_options short_string c io w net pktbuf flags args o ident text sinks open6 r sound reads
      given opens takes size small room good =
    elim (Option-cases (make_packet c pktbuf)) [
      | inl fails ↦ absurd (make_packet-none c pktbuf (omega arith) fails)
      | inr (p, made) ↦
          let m = message_of short_string w ident o.priority text in
          let q = (add (write_message io m) p).1 in
          let (ready, empty, large) = make_packet-IsReady c pktbuf made in
          let (read, fits) =
            datagram_of_one c io (1024 - k_min_packet_len c) p m sound good
              (subst (λ n. IsReady c (n - k_min_packet_len c) p) size ready) empty in
          let (buf, run) =
            turns-arrivals c io sinks open6 (datagram c q ∷ []) r (read_stream-nil io sound)
              (omega arith) (omega arith, tt) in
          let all = append-nil (read_stream io (payload_of c (datagram c q))) ∙ read in
          (
            datagram c q,
            rw (reads, given, opens, takes, made, send_command) refl,
            buf,
            run
                ∙ ap
                    (λ ms.
                      some (record { buf = buf; processed = r.processed ++ process_all sinks ms }))
                    all,
          )
    ]

-- Where each port among the options is a number of 16 bits and no option is unknown, at least two
-- arguments are left, the message is acceptable, the system takes the datagram and libDwm's forms
-- work as documented: mclogger exits with 0, and its datagram goes to the port of the last -P, or to
-- 3737; and the daemon that receives it into a buffer of 1024 bytes at least gives each sink the
-- message with the priority of the last -p, or user.info, the caller's host, parent and time, the
-- last argument but one as its name and the last as its text, where the message's form fits the
-- packet, and nothing where it is longer.
pub turns-send_command :
    (short_string : ℕ → Text → Text) (c : Aead) (io : StreamIo) (w : Caller) (net : Network)
    (pktbuf : Bytes) (flags : List SendFlag) (before : List Text) (ident text : Text)
    (sinks : List ℕ) (open6 : Bool) (r : Received)
    → IsSound io
    → AllAccepted flags
    → net.opens ≡ true
    → net.takes ≡ true
    → length pktbuf ≡ 1024
    → k_min_packet_len c < 1024
    → 1024 ≤ length r.buf
    → let priority = priority_or (Facility.user, Severity.info) (last_priority flags) in
      let m = message_of short_string w ident priority text in
      AllGood (m ∷ [])
      → (d : Bytes) × (send_command short_string c io w net pktbuf flags
            (before ++ ident ∷ text ∷ [])
          ≡ some (record { status = 0; sent = some (port_or 3737 (last_port flags), d) }))
        × (buf : Bytes) × (turns c io sinks true open6 (arrivals (d ∷ [])) r
            ≡ some (record {
              buf = buf;
              processed =
                  r.processed ++ process_all sinks (delivered_one io (1024 - k_min_packet_len c) m);
            }))
turns-send_command short_string c io w net pktbuf flags before ident text sinks open6 r sound
      accepted opens takes size small room good =
    turns-read_options short_string c io w net pktbuf flags (before ++ ident ∷ text ∷ [])
      (record {
        priority = priority_or (Facility.user, Severity.info) (last_priority flags);
        port = port_or 3737 (last_port flags);
      })
      ident text sinks open6 r sound (read_send_options_lem flags default_send_options accepted)
      (last_two_lem before ident text) opens takes size small room good
