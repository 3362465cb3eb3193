-- ===== src/LoopbackReceiver.antt =====
-- apps/mclogd/DwmMclogLoopbackReceiver.{hh,cc}: the sockets, the pipe and the thread of the
-- receiver on the loopback interface; Loopback is the loop of its thread. A call of `Start` or
-- `Stop` comes between two steps of the thread. `none` is std::terminate, which a joinable thread
-- that is assigned to calls.
pub mod Lifetime
pub mod Operations
use mclog.Base.{
  ℕ, ◌≡◌, Bool, true, false, ◌&&◌, not, List, [], ◌∷◌, Option, none, some, ◌==◌, if◌then◌else◌,
  ◌>>=◌,
}
use mclog.Sockets.{System, World, is_open, close_fd, try_call, call_pipe, open_socket}

pub record LoopbackConfig : Type 0 where
  pub listen_ipv4 : Bool
  pub listen_ipv6 : Bool
  pub port : ℕ

-- `ListenIpv4()` and `ListenIpv6()`
unfoldable pub wants_ipv4 : LoopbackConfig → Bool
wants_ipv4 cfg = cfg.listen_ipv4 && not (cfg.port == 0)

unfoldable pub wants_ipv6 : LoopbackConfig → Bool
wants_ipv6 cfg = cfg.listen_ipv6 && not (cfg.port == 0)

-- Where the thread is: not joinable, before its sockets, in its loop, or past its end and not
-- joined yet.
pub data Thread : Type 0 where
  absent begun looping ended : Thread

pub record LoopbackReceiver : Type 0 where
  pub config : LoopbackConfig
  pub ifd : Option ℕ
  pub ifd6 : Option ℕ
  pub stop_read : Option ℕ
  pub stop_write : Option ℕ
  pub run : Bool
  pub thread : Thread

abbrev pub is_joinable : Thread → Bool
is_joinable absent = false
is_joinable begun = true
is_joinable looping = true
is_joinable ended = true

-- The constructor, with the configuration that `Config()` gives; a pipe is held only by `Start`.
unfoldable pub new_loopback_receiver : LoopbackConfig → LoopbackReceiver
new_loopback_receiver config = record {
  config = config;
  ifd = none;
  ifd6 = none;
  stop_read = none;
  stop_write = none;
  run = false;
  thread = absent;
}

-- The end of `Run`, on either branch.
unfoldable pub end_loop : LoopbackReceiver → World → LoopbackReceiver × World
end_loop r w =
    let w1 = close_fd r.ifd w in
    let w2 = close_fd r.ifd6 w1 in
    (record r { ifd = none; ifd6 = none; run = false; thread = ended }, w2)

-- `DesiredSocketsOpen`
unfoldable pub desired_sockets_open : LoopbackReceiver → Bool
desired_sockets_open r =
    (if wants_ipv4 r.config then is_open r.ifd else not (is_open r.ifd))
    && (if wants_ipv6 r.config then is_open r.ifd6 else not (is_open r.ifd6))

module _ (sys : System) where
  -- The sizes that `SetRcvBuf` tries, until one is taken.
  unfoldable pub try_sizes : List ℕ → World → World
  try_sizes [] w = w
  try_sizes (size ∷ sizes) w =
      let (ok, w1) = try_call sys w in let rest = try_sizes sizes w1 in if ok then w1 else rest

  abbrev pub bufsizes : List ℕ
  bufsizes = 1048576 ∷ 786432 ∷ 524288 ∷ 393216 ∷ 262144 ∷ 196608 ∷ 131072 ∷ []

  -- `SetRcvBuf` of an open descriptor: what it asks of the system.
  unfoldable pub set_rcv_buf : World → World
  set_rcv_buf w =
      let (ok, w1) = try_call sys w in
      let w2 = try_sizes bufsizes w1 in if ok then (try_call sys w2).1 else w1

  -- `bind`, and the buffer of a socket that is bound.
  unfoldable pub bind_loopback : World → Bool × World
  bind_loopback w = let (ok, w1) = try_call sys w in (ok, (if ok then set_rcv_buf w1 else w1))

  -- `OpenIpv4Socket` and `OpenIpv6Socket`
  unfoldable pub open_loopback : Option ℕ → World → Option ℕ × World
  open_loopback fd w = open_socket sys bind_loopback (close_fd fd w)

  unfoldable pub open_wanted : Bool → Option ℕ → World → Option ℕ × World
  open_wanted wanted fd w = if wanted then open_loopback fd w else (fd, w)

  -- What `Run` does before its loop.
  unfoldable pub begin_loop : LoopbackReceiver → World → LoopbackReceiver × World
  begin_loop r w =
      let (fd, w1) = open_wanted (wants_ipv4 r.config) r.ifd w in
      let (fd6, w2) = open_wanted (wants_ipv6 r.config) r.ifd6 w1 in
      let r1 = record r { ifd = fd; ifd6 = fd6 } in
      if desired_sockets_open r1 then (record r1 { thread = looping }, w2) else end_loop r1 w2

  -- A step of the thread, which leaves its loop where it finds a stop or `_run` false.
  unfoldable pub thread_step : LoopbackReceiver → World → LoopbackReceiver × World
  thread_step r w = elim r.thread [
    | absent ↦ (r, w)
    | begun ↦ begin_loop r w
    | looping ↦ (if r.run then (r, w) else end_loop r w)
    | ended ↦ (r, w)
  ]

  -- `Start`
  unfoldable pub start_loopback :
      LoopbackConfig → LoopbackReceiver → World → Option (Bool × LoopbackReceiver × World)
  start_loopback cfg r w =
      let r1 = record r { config = cfg; run = true } in
      let (p, w1) = call_pipe sys w in
      elim p [
        | none ↦ some (false, r1, w1)
        | some (rd, wr) ↦
            (if is_joinable r.thread
              then none
              else some (
                true,
                record r1 { stop_read = some rd; stop_write = some wr; thread = begun },
                w1,
              ))
      ]

  -- `Stop`: `_run` and the pipe end the loop, and the thread is joined after its last steps.
  unfoldable pub stop_loopback : LoopbackReceiver → World → LoopbackReceiver × World
  stop_loopback r w =
      let (r1, w1) = thread_step (record r { run = false }) w in
      let (r2, w2) = thread_step (record r1 { run = false }) w1 in
      let w3 = close_fd r2.stop_write w2 in
      let w4 = close_fd r2.stop_read w3 in
      if is_joinable r.thread
      then (record r2 { stop_read = none; stop_write = none; thread = absent }, w4)
      else (record r { run = false }, w)

  -- `Restart`
  unfoldable pub restart_loopback :
      LoopbackConfig → LoopbackReceiver → World → Option (Bool × LoopbackReceiver × World)
  restart_loopback cfg r w = let (r1, w1) = stop_loopback r w in start_loopback cfg r1 w1

-- The public operations, and the steps of the thread between them.
pub data Operation : Type 0 where
  starts restarts : LoopbackConfig → Operation
  stops steps : Operation

module _ (sys : System) where
  unfoldable pub operate :
      Operation → LoopbackReceiver → World → Option (Bool × LoopbackReceiver × World)
  operate (starts cfg) r w = start_loopback sys cfg r w
  operate (restarts cfg) r w = restart_loopback sys cfg r w
  operate stops r w = let (r', w') = stop_loopback sys r w in some (true, r', w')
  operate steps r w = let (r', w') = thread_step sys r w in some (true, r', w')

  unfoldable pub operate_all :
      List Operation → LoopbackReceiver → World → Option (LoopbackReceiver × World)
  operate_all [] r w = some (r, w)
  operate_all (o ∷ os) r w = do (rc, r', w') ← operate o r w; operate_all os r' w'
