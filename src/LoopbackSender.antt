-- ===== src/LoopbackSender.antt =====
-- DwmMclogLoopbackSender.{hh,cc}: the socket and the thread of the sender that a logger makes;
-- Sender is the loop of its thread, which ends only inside a call of `Stop`. `none` is
-- std::terminate, which a joinable thread that is assigned to calls.
pub mod Operations
use mclog.Base.{
  ℕ, zero, ◌≡◌, Bool, true, false, List, [], ◌∷◌, Option, none, some, ltb, if◌then◌else◌, ◌>>=◌,
}
use mclog.Sockets.{System, World, is_open, close_fd, try_call, call_socket}

pub record LoopbackSender : Type 0 where
  pub ofd : Option ℕ
  pub run : Bool
  pub joinable : Bool

-- The constructor's members, before it calls `Start`.
unfoldable pub new_loopback_sender : LoopbackSender
new_loopback_sender = record { ofd = none; run = false; joinable = false }

-- The calls that others make, with what `getsockopt` gives.
pub data Operation : Type 0 where
  start_call : ℕ → Operation
  stop_call : Operation

-- The sizes that `SetSndBuf` tries.
abbrev pub snd_sizes : List ℕ
snd_sizes = 131072 ∷ 98304 ∷ 65536 ∷ 32768 ∷ []

-- `Stop`, which the destructor calls too.
unfoldable pub stop_loopback_sender : LoopbackSender → World → Bool × LoopbackSender × World
stop_loopback_sender l w =
    if l.run
    then (true, record l { ofd = none; run = false; joinable = false }, close_fd l.ofd w)
    else (false, l, w)

module _ (sys : System) where
  -- The sizes that `SetSndBuf` tries, until one is taken, and the size taken or 0.
  unfoldable pub try_snd_sizes : List ℕ → World → ℕ × World
  try_snd_sizes [] w = (0, w)
  try_snd_sizes (size ∷ sizes) w =
      let (ok, w1) = try_call sys w in
      let rest = try_snd_sizes sizes w1 in if ok then (size, w1) else rest

  -- `SetSndBuf` of an open descriptor, where `defaultsz` holds the size that `getsockopt` gave, or
  -- whatever it held before where that failed.
  unfoldable pub set_snd_buf : ℕ → World → World
  set_snd_buf defaultsz w =
      let (ok, w1) = try_call sys w in
      let (foundsz, w2) = (if ok then try_snd_sizes snd_sizes w1 else (0, w1)) in
      if ltb defaultsz foundsz then w2 else (try_call sys w2).1

  -- `OpenSocket`
  unfoldable pub open_sender_socket : ℕ → LoopbackSender → World → Bool × LoopbackSender × World
  open_sender_socket defaultsz l w =
      if is_open l.ofd
      then (false, l, w)
      else let (fd, w1) = call_socket sys w in
        let l1 = record l { ofd = fd } in
        if is_open fd then (true, l1, set_snd_buf defaultsz w1) else (false, l1, w1)

  -- `Start`, which waits until the thread runs.
  unfoldable pub start_loopback_sender :
      ℕ → LoopbackSender → World → Option (Bool × LoopbackSender × World)
  start_loopback_sender defaultsz l w =
      if l.run
      then some (false, l, w)
      else let (ok, l1, w1) = open_sender_socket defaultsz l w in
        if ok
        then (if l1.joinable
            then none
            else some (true, record l1 { run = true; joinable = true }, w1))
        else some (false, l1, w1)

  unfoldable pub operate :
      Operation → LoopbackSender → World → Option (Bool × LoopbackSender × World)
  operate (start_call defaultsz) l w = start_loopback_sender defaultsz l w
  operate stop_call l w = some (stop_loopback_sender l w)

  -- Each call's result and then the state.
  unfoldable pub operate_all :
      List Operation → LoopbackSender → World → Option (List Bool × LoopbackSender × World)
  operate_all [] l w = some ([], l, w)
  operate_all (o ∷ os) l w = operate o l w >>= λ (rc, l1, w1).
      operate_all os l1 w1 >>= λ (rcs, l2, w2). some (rc ∷ rcs, l2, w2)
