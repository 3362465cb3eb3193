-- ===== src/Examples.antt =====
-- Concrete instances of the parameters that stand for libsodium, libDwm's stream forms, <time.h>
-- and the bounded queue, and sample data. The modules below run the definitions on them.
mod Rolling
mod Packets
mod Messages
mod Senders
mod Sources
mod Files
mod Endpoints
mod Selected
mod Keys
mod Listeners
mod Filters
mod FileLoggers
mod Loopbacks
mod Loggers
mod Lifetimes
mod Receivers
mod Readers
mod Commands
mod Texts
use mclog.Base.{
  ℕ, ◌+◌, ◌-◌, ◌*◌, ◌/◌, ◌%◌, ◌^◌, ◌≡◌, ◌≤◌, ◌<◌, refl, Bool, true, false, Text, codes, List, [],
  ◌∷◌, ◌++◌, Option, none, some, leb, ltb, ◌==◌, if◌then◌else◌, length, take, drop, replicate,
  arith, ap, take-append, drop-append, length-append, length-drop, le→leb,
}
use mclog.Packet
use mclog.Packet.{Aead}
use mclog.Packet.Secrecy
use mclog.Message.{Bytes, Codec, StreamIo, Message, MessageHeader, MessageOrigin}
use mclog.Message.RoundTrip
use mclog.Message.RoundTrip.{IsCodec, Below, Within, Fits}
use mclog.Roll.{Calendar}
use mclog.Roll.Intervals.{IsSteady}

-- A byte in front of the text stands for the authentication code.
abbrev open_text : Bytes → Option Bytes
open_text [] = none
open_text (x ∷ m) = if x == 7 then some m else none

abbrev pub aead : Aead
aead = record {
  nonce_len = 2;
  mac_len = 1;
  encrypt = λ key nonce m. some (7 ∷ m);
  decrypt = λ key nonce x. open_text x;
  leaves = λ key nonce x. replicate (length x - 1) 0;
}

pub aead-IsSound : Secrecy.IsSound aead
aead-IsSound = record { encrypts = λ key nonce m size. (7 ∷ m, refl, omega arith, refl) }

abbrev read_number : Bytes → Option (ℕ × Bytes)
read_number [] = none
read_number (x ∷ s) = some (x, s)

abbrev number : Codec ℕ
number = record { write = λ n. n ∷ []; read = read_number; streamed_length = λ n. 1 }

abbrev read_text : Bytes → Option (Text × Bytes)
read_text [] = none
read_text (n ∷ s) = if leb n (length s) then some (take n s, drop n s) else none

abbrev text : Codec Text
text = record { write = λ s. length s ∷ s; read = read_text; streamed_length = λ s. 1 + length s }

abbrev pub io : StreamIo
io = record {
  encoded_u64 = number;
  u8 = number;
  u32 = number;
  string_255 = text;
  string_1500 = text;
}

number-IsCodec : (bound : ℕ) → IsCodec number (Below bound)
number-IsCodec bound = record {
  reads_back = λ a rest h. refl;
  shrinks = number_shrinks;
  measured = λ a. refl;
}
  where
    number_shrinks :
        (s : Bytes) {a : ℕ} {rest : Bytes} → read_number s ≡ some (a, rest) → length rest < length s
    number_shrinks [] h = cc
    number_shrinks (x ∷ s) h = ground arith

pub text-IsCodec : (bound : ℕ) → IsCodec text (Within bound)
text-IsCodec bound = record {
  reads_back = λ a rest h.
      rw
        (
          le→leb (length a) (length (a ++ rest)) (omega (arith, length-append a rest)),
          take-append (length a) a rest refl,
          drop-append (length a) a rest refl,
        )
        refl;
  shrinks = text_shrinks;
  measured = λ a. omega arith;
}
  where
    text_shrinks :
        (s : Bytes) {a : Text} {rest : Bytes}
        → read_text s ≡ some (a, rest)
        → length rest < length s
    text_shrinks [] h = cc
    text_shrinks (n ∷ s) h = ground (arith, length-drop n s)

pub io-IsSound : RoundTrip.IsSound io
io-IsSound = record {
  encoded_u64 = number-IsCodec (2 ^ 64);
  u8 = number-IsCodec 256;
  u32 = number-IsCodec (2 ^ 32);
  string_255 = text-IsCodec 255;
  string_1500 = text-IsCodec 1500;
}

-- A month with no end, in a zone without an offset.
abbrev pub calendar : Calendar
calendar = record {
  localtime = λ t. record {
    year = 0;
    mon = 0;
    mday = t / 86400;
    hour = t / 3600 % 24;
    min = t / 60 % 60;
    sec = t % 60;
  };
  mktime = λ tms. tms.mday * 86400 + tms.hour * 3600 + tms.min * 60 + tms.sec;
}

pub calendar-IsSteady : IsSteady calendar
calendar-IsSteady = record {
  sec_range = λ t. omega arith;
  min_range = λ t. omega arith;
  hour_range = λ t. omega arith;
  shifted = λ t d h m s. omega arith;
}

abbrev pub queue_accepts {ℓ} : {A : Type ℓ} → List A → Bool
queue_accepts q = ltb (length q) 100

-- Facility `user`, severity `info`.
abbrev pub hello : Message
hello = record {
  header = record {
    timestamp = 1000;
    facility = 8;
    severity = 6;
    origin = record { hostname = codes "ab"; appname = codes "c"; procid = 5 };
  };
  message = codes "hi";
}

pub hello-Fits : Fits hello
hello-Fits = record {
  timestamp = omega arith;
  facility = omega arith;
  severity = omega arith;
  hostname = omega arith;
  appname = omega arith;
  procid = omega arith;
  message = omega arith;
}
