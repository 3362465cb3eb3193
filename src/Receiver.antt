-- ===== src/Receiver.antt =====
-- DwmMclogMulticastReceiver.hh and DwmMclogMulticastReceiver.cc: the sockets, the pipe and the
-- thread of the receiver of multicast packets. `none` is std::terminate, which a joinable thread
-- that is assigned to calls.
pub mod Lifetime
pub mod Run
pub mod Turns
use mclog.Base.{
  ℕ, ◌≡◌, Bool, true, false, ◌&&◌, ◌||◌, not, List, [], ◌∷◌, Option, none, some, if◌then◌else◌,
  ◌>>=◌,
}
use mclog.Sockets.{System, World, is_open, close_fd, try_call, call_pipe, try_both, open_socket}

-- The members of `Config::mcast` that `Open` looks at: which addresses are not the unspecified one,
-- and whether the interface's name is not empty.
pub record McastConfig : Type 0 where
  pub group_addr : Bool
  pub intf_addr : Bool
  pub intf_name : Bool
  pub group_addr6 : Bool
  pub intf_addr6 : Bool

-- `joinable` is `_thread.joinable()`; `stop_read` and `stop_write` are `_stopfds`.
pub record MulticastReceiver : Type 0 where
  pub config : McastConfig
  pub fd : Option ℕ
  pub fd6 : Option ℕ
  pub accept_local : Bool
  pub joinable : Bool
  pub stop_read : Option ℕ
  pub stop_write : Option ℕ
  pub run : Bool

-- The constructor, with the configuration that `Config()` gives.
unfoldable pub new_receiver : McastConfig → MulticastReceiver
new_receiver config = record {
  config = config;
  fd = none;
  fd6 = none;
  accept_local = true;
  joinable = false;
  stop_read = none;
  stop_write = none;
  run = false;
}

-- `Close`; the write to the pipe wakes the thread, which is joined.
unfoldable pub close_receiver : MulticastReceiver → World → MulticastReceiver × World
close_receiver r w =
    let w1 = close_fd r.fd w in
    let w2 = close_fd r.fd6 w1 in
    let w3 = close_fd r.stop_write w2 in
    let w4 = close_fd r.stop_read w3 in
    (
      record r {
        fd = none;
        fd6 = none;
        joinable = false;
        stop_read = none;
        stop_write = none;
        run = false;
      },
      w4,
    )

module _ (sys : System) where
  -- `BindSocket` and `BindSocket6`: SO_REUSEADDR, SO_REUSEPORT and `bind`.
  unfoldable pub bind_socket : World → Bool × World
  bind_socket = try_both (try_call sys) (try_both (try_call sys) (try_call sys))

  -- `JoinGroup` and `JoinGroup6`
  unfoldable pub join_group : McastConfig → World → Bool × World
  join_group cfg w = if cfg.group_addr && cfg.intf_addr then try_call sys w else (true, w)

  unfoldable pub join_group6 : McastConfig → World → Bool × World
  join_group6 cfg w = if cfg.intf_name && cfg.group_addr6 then try_call sys w else (true, w)

  -- A socket for either address family, where it is wanted and not open.
  unfoldable pub open_fd :
      Bool
      → (McastConfig → World → Bool × World)
      → McastConfig
      → Option ℕ
      → World
      → Option ℕ × World
  open_fd should_join join cfg fd w =
      if should_join && not (is_open fd)
      then open_socket sys (try_both bind_socket (join cfg)) w
      else (fd, w)

  -- `Open`
  unfoldable pub open_receiver :
      McastConfig → Bool → MulticastReceiver → World → Option (Bool × MulticastReceiver × World)
  open_receiver cfg accept r w =
      let should_join4 = cfg.group_addr && cfg.intf_addr in
      let should_join6 = cfg.intf_name && (cfg.group_addr6 && cfg.intf_addr6) in
      let (fd, w1) = open_fd should_join4 join_group cfg r.fd w in
      let (fd6, w2) = open_fd should_join6 join_group6 cfg r.fd6 w1 in
      let configured = record r { config = cfg; accept_local = accept } in
      let r2 = record configured { fd = fd; fd6 = fd6 } in
      let (p, w3) = call_pipe sys w2 in
      if not (should_join4 || should_join6)
      then some (true, configured, w)
      else if should_join4 && is_open fd || should_join6 && is_open fd6
      then elim p [
        | none ↦ let (r3, w4) = close_receiver r2 w3 in some (false, r3, w4)
        | some (rd, wr) ↦
            if r.joinable
            then none
            else some (
              true,
              record r2 { stop_read = some rd; stop_write = some wr; run = true; joinable = true },
              w3,
            )
      ]
      else let (r3, w4) = close_receiver r2 w2 in some (false, r3, w4)

  -- `Restart`
  unfoldable pub restart_receiver :
      McastConfig → MulticastReceiver → World → Option (Bool × MulticastReceiver × World)
  restart_receiver cfg r w =
      let (r1, w1) = close_receiver r w in open_receiver cfg r1.accept_local r1 w1

-- The public operations in any order.
pub data Operation : Type 0 where
  opens : McastConfig → Bool → Operation
  restarts : McastConfig → Operation
  closes : Operation

module _ (sys : System) where
  unfoldable pub operate :
      Operation → MulticastReceiver → World → Option (Bool × MulticastReceiver × World)
  operate (opens cfg accept) r w = open_receiver sys cfg accept r w
  operate (restarts cfg) r w = restart_receiver sys cfg r w
  operate closes r w = let (r', w') = close_receiver r w in some (true, r', w')

  unfoldable pub operate_all :
      List Operation → MulticastReceiver → World → Option (MulticastReceiver × World)
  operate_all [] r w = some (r, w)
  operate_all (o ∷ os) r w = do (rc, r', w') ← operate o r w; operate_all os r' w'
