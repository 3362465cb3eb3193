-- ===== src/SenderThreads.antt =====
-- DwmMclogMulticastSender.cc and DwmMclogKeyRequestListener.cc: the sockets, the pipe and the two
-- threads of a sender: its own and the one that answers requests for its key. `none` is a failed
-- assertion, or std::terminate, which a joinable thread that is assigned to calls.
pub mod Lifetime
pub mod Operations
use mclog.Base.{
  ℕ, ◌≡◌, Bool, true, false, ◌&&◌, ◌||◌, not, List, [], ◌∷◌, Option, none, some, if◌then◌else◌,
  ◌>>=◌,
}
use mclog.Sockets.{System, World, is_open, close_fd, try_call, call_pipe, try_both, open_socket}

-- What `MulticastConfig` says of sending: which members are not the unspecified address, the empty
-- name or port 0.
pub record SendConfig : Type 0 where
  pub intf_addr : Bool
  pub intf_name : Bool
  pub intf_addr6 : Bool
  pub dst_port : Bool

unfoldable pub should_send_ipv4 : SendConfig → Bool
should_send_ipv4 cfg = cfg.intf_addr && cfg.dst_port

unfoldable pub should_send_ipv6 : SendConfig → Bool
should_send_ipv6 cfg = cfg.intf_name && (cfg.intf_addr6 && cfg.dst_port)

unfoldable pub should_run_sender : SendConfig → Bool
should_run_sender cfg = should_send_ipv4 cfg || should_send_ipv6 cfg

-- The listener's `_fd` and `_fd6` are the sender's descriptors.
pub record KeyRequestListener : Type 0 where
  pub fd : Option ℕ
  pub fd6 : Option ℕ
  pub stop_read : Option ℕ
  pub stop_write : Option ℕ
  pub joinable : Bool
  pub run : Bool

pub record MulticastSender : Type 0 where
  pub config : SendConfig
  pub fd : Option ℕ
  pub fd6 : Option ℕ
  pub run : Bool
  pub joinable : Bool
  pub listener : KeyRequestListener

-- The constructors.
unfoldable pub new_listener : KeyRequestListener
new_listener = record {
  fd = none;
  fd6 = none;
  stop_read = none;
  stop_write = none;
  joinable = false;
  run = false;
}

unfoldable pub new_sender : SendConfig → MulticastSender
new_sender config = record {
  config = config;
  fd = none;
  fd6 = none;
  run = false;
  joinable = false;
  listener = new_listener;
}

-- `KeyRequestListener::Stop`; the write to the pipe wakes the thread, which is joined.
unfoldable pub stop_listener : KeyRequestListener → World → Bool × KeyRequestListener × World
stop_listener l w =
    if l.run
    then (
      true,
      record l { run = false; joinable = false; stop_read = none; stop_write = none },
      close_fd l.stop_read (close_fd l.stop_write w),
    )
    else (false, l, w)

-- `MulticastSender::DesiredSocketsOpen`
unfoldable pub desired_sockets_open : SendConfig → Option ℕ → Option ℕ → Bool
desired_sockets_open cfg fd fd6 =
    (if should_send_ipv4 cfg then is_open fd else not (is_open fd))
    && (if should_send_ipv6 cfg then is_open fd6 else not (is_open fd6))

-- `MulticastSender::Close`
unfoldable pub close_sender : MulticastSender → World → MulticastSender × World
close_sender s w =
    let (stopped, l, w1) = stop_listener s.listener w in
    (
      record s { fd = none; fd6 = none; run = false; joinable = false; listener = l },
      close_fd s.fd6 (close_fd s.fd w1),
    )

module _ (sys : System) where
  -- `KeyRequestListener::Start`; the key has its length.
  unfoldable pub start_listener :
      Option ℕ → Option ℕ → KeyRequestListener → World → Option (Bool × KeyRequestListener × World)
  start_listener fd fd6 l w =
      let (p, w1) = call_pipe sys w in
      if is_open fd || is_open fd6
      then if l.run then some (false, l, w) else elim p [
        | none ↦ some (false, l, w1)
        | some (rd, wr) ↦
            if l.joinable
            then none
            else some (
              true,
              record {
                fd = fd;
                fd6 = fd6;
                stop_read = some rd;
                stop_write = some wr;
                joinable = true;
                run = true;
              },
              w1,
            )
      ]
      else none

  -- `OpenSocket`: IP_MULTICAST_IF and `bind`.
  unfoldable pub open_socket4 : World → Option ℕ × World
  open_socket4 = open_socket sys (try_both (try_call sys) (try_call sys))

  -- `OpenSocket6`: the interface's index, IPV6_MULTICAST_IF and `bind`.
  unfoldable pub open_socket6 : SendConfig → World → Option ℕ × World
  open_socket6 cfg w =
      if cfg.intf_name
      then open_socket sys (try_both (try_call sys) (try_both (try_call sys) (try_call sys))) w
      else (none, w)

  -- A socket that is open stays as it is.
  unfoldable pub open_wanted :
      Bool → (World → Option ℕ × World) → Option ℕ → World → Option ℕ × World
  open_wanted wanted opening fd w = if wanted && not (is_open fd) then opening w else (fd, w)

  -- The end of `Open`, with what the listener's `Start` returned.
  unfoldable pub start_sender :
      MulticastSender
      → Option (Bool × KeyRequestListener × World)
      → Option (Bool × MulticastSender × World)
  start_sender s none = none
  start_sender s (some (false, l, w)) = some (false, record s { listener = l }, w)
  start_sender s (some (true, l, w)) =
      if s.joinable
      then none
      else some (true, record s { listener = l; run = true; joinable = true }, w)

  -- `MulticastSender::Open`
  unfoldable pub open_sender :
      SendConfig → MulticastSender → World → Option (Bool × MulticastSender × World)
  open_sender cfg s w =
      let (fd, w1) = open_wanted (should_send_ipv4 cfg) open_socket4 s.fd w in
      let (fd6, w2) = open_wanted (should_send_ipv6 cfg) (open_socket6 cfg) s.fd6 w1 in
      let s1 = record s { config = cfg; fd = fd; fd6 = fd6 } in
      if should_run_sender cfg
      then if desired_sockets_open cfg fd fd6
        then start_sender s1 (start_listener fd fd6 s.listener w2)
        else some (false, s1, w2)
      else some (true, record s { config = cfg }, w)

  -- `MulticastSender::Restart`
  unfoldable pub restart_sender :
      SendConfig → MulticastSender → World → Option (Bool × MulticastSender × World)
  restart_sender cfg s w = let (s1, w1) = close_sender s w in open_sender cfg s1 w1

-- The public operations in any order.
pub data Operation : Type 0 where
  opens : SendConfig → Operation
  restarts : SendConfig → Operation
  closes : Operation

module _ (sys : System) where
  unfoldable pub operate :
      Operation → MulticastSender → World → Option (Bool × MulticastSender × World)
  operate (opens cfg) s w = open_sender sys cfg s w
  operate (restarts cfg) s w = restart_sender sys cfg s w
  operate closes s w = let (s', w') = close_sender s w in some (true, s', w')

  unfoldable pub operate_all :
      List Operation → MulticastSender → World → Option (MulticastSender × World)
  operate_all [] s w = some (s, w)
  operate_all (o ∷ os) s w = do (rc, s', w') ← operate o s w; operate_all os s' w'
