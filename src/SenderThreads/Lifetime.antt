-- ===== src/SenderThreads/Lifetime.antt =====
-- What a sender holds, and what it gives back.
use mclog.Base.{
  ℕ, ◌+◌, ◌≡◌, ◌∙◌, refl, sym, ap, Bool, true, false, ◌||◌, Option, none, some, arith, Bool-cases,
  Option-cases, inl, inr,
}
use mclog.Sockets.{System, World, is_open, close_fd, try_call, call_pipe, try_both}
use mclog.Sockets.Balance.{
  holds, IsEven, close_fd-IsEven, try_call-IsEven, call_pipe-none, call_pipe-some, try_both-IsEven,
  open_socket-IsEven,
}
use mclog.SenderThreads.{
  SendConfig, should_send_ipv4, should_send_ipv6, should_run_sender, KeyRequestListener,
  MulticastSender, stop_listener, desired_sockets_open, close_sender, start_listener, open_socket4,
  open_socket6, open_wanted, start_sender, open_sender,
}

-- How often a sender holds a descriptor; the listener's sockets are the sender's.
abbrev pub held : ℕ → MulticastSender → ℕ
held n s =
    holds n s.fd + holds n s.fd6 + (holds n s.listener.stop_read + holds n s.listener.stop_write)

-- The listener runs where its thread is joinable, which it is where the sender's is; and there is
-- no pipe where it does not run.
pub record IsTidy (s : MulticastSender) : Type 0 where
  pub runs : s.listener.run ≡ s.listener.joinable
  pub both : s.joinable ≡ true → s.listener.run ≡ true
  pub no_read : s.listener.run ≡ false → s.listener.stop_read ≡ none
  pub no_write : s.listener.run ≡ false → s.listener.stop_write ≡ none

stop_listener_lem :
    (l : KeyRequestListener) (w : World)
    → (l.run ≡ false → l.stop_read ≡ none)
    → (l.run ≡ false → l.stop_write ≡ none)
    → let (stopped, l', w') = stop_listener l w in
      (l'.stop_read ≡ none)
      × (l'.stop_write ≡ none)
      × (l'.run ≡ false)
      × (l.run ≡ l.joinable → l'.joinable ≡ false)
      × ((n : ℕ) → IsEven n w (holds n l.stop_read + holds n l.stop_write) w' 0)
unfolding stop_listener
stop_listener_lem l w no_read no_write = elim (Bool-cases l.run) [
  | inl running ↦
      let w1 = close_fd l.stop_write w in
      rw running (
        refl,
        refl,
        refl,
        (λ e. refl),
        λ n. omega (arith, close_fd-IsEven n l.stop_write w, close_fd-IsEven n l.stop_read w1),
      )
  | inr idle ↦
      let none_read = no_read idle in
      let none_write = no_write idle in
      rw idle (
        none_read,
        none_write,
        refl,
        (λ e. sym e),
        λ n. omega (arith, ap (holds n) none_read, ap (holds n) none_write),
      )
]

pub close_sender_lem :
    (s : MulticastSender) (w : World)
    → IsTidy s
    → let (s', w') = close_sender s w in
      IsTidy s'
      × (s'.joinable ≡ false)
      × ((n : ℕ) → held n s' ≡ 0)
      × ((n : ℕ) → IsEven n w (held n s) w' 0)
unfolding close_sender
close_sender_lem s w tidy =
    let (none_read, none_write, stopped, idle, even) =
      stop_listener_lem s.listener w tidy.no_read tidy.no_write in
    let w1 = (stop_listener s.listener w).2 in
    let w2 = close_fd s.fd w1 in
    (
      record {
        runs = stopped ∙ sym (idle tidy.runs);
        both = λ e. absurd cc;
        no_read = λ e. none_read;
        no_write = λ e. none_write;
      },
      refl,
      (λ n. omega (arith, ap (holds n) none_read, ap (holds n) none_write)),
      λ n. omega (arith, even n, close_fd-IsEven n s.fd w1, close_fd-IsEven n s.fd6 w2),
    )

desired_sockets_open→open :
    (cfg : SendConfig) (fd fd6 : Option ℕ)
    → should_run_sender cfg ≡ true
    → desired_sockets_open cfg fd fd6 ≡ true
    → (is_open fd || is_open fd6) ≡ true
unfolding should_run_sender desired_sockets_open
desired_sockets_open→open cfg fd fd6 wanted desired = ground arith

module _ (sys : System) where
  open_socket4-IsEven :
      (n : ℕ) (w : World) → let (fd, w') = open_socket4 sys w in IsEven n w 0 w' (holds n fd)
  unfolding open_socket4
  open_socket4-IsEven n =
      let once = try_call-IsEven sys n in
      open_socket-IsEven sys n (try_both (try_call sys) (try_call sys))
        (try_both-IsEven sys n (try_call sys) (try_call sys) once once)

  open_socket6-IsEven :
      (cfg : SendConfig) (n : ℕ) (w : World)
      → let (fd, w') = open_socket6 sys cfg w in IsEven n w 0 w' (holds n fd)
  unfolding open_socket6
  open_socket6-IsEven cfg n w =
      let once = try_call-IsEven sys n in
      let twice = try_both-IsEven sys n (try_call sys) (try_call sys) once once in
      let setup = try_both (try_call sys) (try_both (try_call sys) (try_call sys)) in
      let opened =
        open_socket-IsEven sys n setup
          (try_both-IsEven sys n (try_call sys) (try_both (try_call sys) (try_call sys)) once twice)
          w in
      elim (Bool-cases cfg.intf_name) [
        | inl named ↦ rw named opened
        | inr unnamed ↦ rw unnamed (omega arith)
      ]

  open_wanted-IsEven :
      (wanted : Bool) (opening : World → Option ℕ × World)
      → ((n : ℕ) (w : World) → let (fd, w') = opening w in IsEven n w 0 w' (holds n fd))
      → (fd : Option ℕ) (n : ℕ) (w : World)
      → let (fd', w') = open_wanted sys wanted opening fd w in
        IsEven n w (holds n fd) w' (holds n fd')
  unfolding open_wanted
  open_wanted-IsEven wanted opening even none n w = ground (arith, even n w)
  open_wanted-IsEven wanted opening even (some fd) n w = ground arith

  abbrev pub Returns : MulticastSender → World → Option (Bool × MulticastSender × World) → Type 0
  Returns s w result =
      (rc : Bool) × (s' : MulticastSender) × (w' : World) × (result ≡ some (rc, s', w'))
      × IsTidy s'
      × ((n : ℕ) → IsEven n w (held n s) w' (held n s'))

  start-Returns :
      (cfg : SendConfig) (s : MulticastSender) (w : World)
      → IsTidy s
      → (is_open s.fd || is_open s.fd6) ≡ true
      → Returns s w (start_sender sys s (start_listener sys s.fd s.fd6 s.listener w))
  unfolding start_sender start_listener
  start-Returns cfg s w tidy one =
      let w1 = (call_pipe sys w).1 in
      elim (Bool-cases s.listener.run) [
        | inl running ↦ (false, s, w, simp (one, running) refl, tidy, λ n. omega arith)
        | inr idle ↦ elim (Option-cases (call_pipe sys w).0) [
          | inl no_pipe ↦ (
            false,
            s,
            w1,
            simp (one, idle, no_pipe) refl,
            tidy,
            λ n. omega (arith, call_pipe-none sys n w no_pipe),
          )
          | inr ((rd, wr), made) ↦
              let alone : s.listener.joinable ≡ false = sym tidy.runs ∙ idle in
              elim (Bool-cases s.joinable) [
                | inl running ↦ let bad = tidy.both running in absurd cc
                | inr stopped ↦ (
                  true,
                  record s {
                    run = true;
                    joinable = true;
                    listener = record {
                      fd = s.fd;
                      fd6 = s.fd6;
                      stop_read = some rd;
                      stop_write = some wr;
                      joinable = true;
                      run = true;
                    };
                  },
                  w1,
                  simp (one, idle, made, alone, stopped) refl,
                  record {
                    runs = refl;
                    both = λ e. refl;
                    no_read = λ e. absurd cc;
                    no_write = λ e. absurd cc;
                  },
                  λ n. omega (
                    arith,
                    call_pipe-some sys n w made,
                    ap (holds n) (tidy.no_read idle),
                    ap (holds n) (tidy.no_write idle),
                  ),
                )
              ]
        ]
      ]

  pub open_sender-Returns :
      (cfg : SendConfig) (s : MulticastSender) (w : World)
      → IsTidy s
      → Returns s w (open_sender sys cfg s w)
  unfolding open_sender
  open_sender-Returns cfg s w tidy =
      let wanted4 = should_send_ipv4 cfg in
      let wanted6 = should_send_ipv6 cfg in
      let fd = (open_wanted sys wanted4 (open_socket4 sys) s.fd w).0 in
      let w1 = (open_wanted sys wanted4 (open_socket4 sys) s.fd w).1 in
      let fd6 = (open_wanted sys wanted6 (open_socket6 sys cfg) s.fd6 w1).0 in
      let w2 = (open_wanted sys wanted6 (open_socket6 sys cfg) s.fd6 w1).1 in
      let even4 : (n : ℕ) → IsEven n w (holds n s.fd) w1 (holds n fd) =
        λ n. open_wanted-IsEven wanted4 (open_socket4 sys) open_socket4-IsEven s.fd n w in
      let even6 : (n : ℕ) → IsEven n w1 (holds n s.fd6) w2 (holds n fd6) = λ n.
        open_wanted-IsEven wanted6 (open_socket6 sys cfg) (open_socket6-IsEven cfg) s.fd6 n w1 in
      let s1 = record s { config = cfg; fd = fd; fd6 = fd6 } in
      let tidy1 : IsTidy s1 = record {
        runs = tidy.runs;
        both = tidy.both;
        no_read = tidy.no_read;
        no_write = tidy.no_write;
      } in
      elim (Bool-cases (should_run_sender cfg)) [
        | inr needless ↦ (
          true,
          record s { config = cfg },
          w,
          rw needless refl,
          record {
            runs = tidy.runs;
            both = tidy.both;
            no_read = tidy.no_read;
            no_write = tidy.no_write;
          },
          λ n. omega arith,
        )
        | inl wanted ↦ elim (Bool-cases (desired_sockets_open cfg fd fd6)) [
          | inr missing ↦ (
            false,
            s1,
            w2,
            rw (wanted, missing) refl,
            tidy1,
            λ n. omega (arith, even4 n, even6 n),
          )
          | inl desired ↦
              let one = desired_sockets_open→open cfg fd fd6 wanted desired in
              let (rc, s', w', started, tidy', even) = start-Returns cfg s1 w2 tidy1 one in
              (
                rc,
                s',
                w',
                rw (wanted, desired) started,
                tidy',
                λ n. omega (arith, even4 n, even6 n, even n),
              )
        ]
      ]
