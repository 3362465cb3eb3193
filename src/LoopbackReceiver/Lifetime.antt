-- ===== src/LoopbackReceiver/Lifetime.antt =====
-- What the loopback receiver holds, and what it gives back.
use mclog.Base.{
  ℕ, ◌+◌, ◌≡◌, ◌≢◌, refl, Bool, true, false, ◌&&◌, not, List, [], ◌∷◌, Option, none, some, arith,
  Bool-cases, inl, inr, if◌then◌else◌,
}
use mclog.Sockets.{System, World, is_open, close_fd, try_call}
use mclog.Sockets.Balance.{holds, IsEven, close_fd-IsEven, try_call-IsEven, open_socket-IsEven}
use mclog.LoopbackReceiver.{
  LoopbackConfig, LoopbackReceiver, Thread, absent, begun, looping, ended, wants_ipv4, wants_ipv6,
  end_loop, desired_sockets_open, try_sizes, bufsizes, set_rcv_buf, bind_loopback, open_loopback,
  open_wanted, begin_loop, thread_step,
}

-- How often the receiver holds a descriptor.
abbrev pub held : ℕ → LoopbackReceiver → ℕ
held n r = holds n r.ifd + holds n r.ifd6 + (holds n r.stop_read + holds n r.stop_write)

-- What is open by where the thread is: no pipe without a thread, no socket outside the loop, and in
-- the loop the sockets of the configuration and no others.
abbrev pub IsTidy : LoopbackReceiver → Type 0
IsTidy r = elim r.thread [
  | absent ↦ (r.ifd ≡ none) × (r.ifd6 ≡ none) × (r.stop_read ≡ none) × (r.stop_write ≡ none)
  | begun ↦ (r.ifd ≡ none) × (r.ifd6 ≡ none)
  | looping ↦ (is_open r.ifd ≡ wants_ipv4 r.config) × (is_open r.ifd6 ≡ wants_ipv6 r.config)
  | ended ↦ (r.ifd ≡ none) × (r.ifd6 ≡ none)
]

pub end_loop-IsEven :
    (n : ℕ) (r : LoopbackReceiver) (w : World)
    → let (r', w') = end_loop r w in IsEven n w (held n r) w' (held n r')
unfolding end_loop
end_loop-IsEven n r w =
    omega (arith, close_fd-IsEven n r.ifd w, close_fd-IsEven n r.ifd6 (close_fd r.ifd w))

module _ (sys : System) (n : ℕ) where
  try_sizes-IsEven : (sizes : List ℕ) (w : World) → IsEven n w 0 (try_sizes sys sizes w) 0
  unfolding try_sizes
  try_sizes-IsEven [] w = omega arith
  try_sizes-IsEven (size ∷ sizes) w =
      ground (arith, try_call-IsEven sys n w, try_sizes-IsEven sizes (try_call sys w).1)

  set_rcv_buf-IsEven : (w : World) → IsEven n w 0 (set_rcv_buf sys w) 0
  unfolding set_rcv_buf
  set_rcv_buf-IsEven w =
      let w1 = (try_call sys w).1 in
      let w2 = try_sizes sys (bufsizes sys) w1 in
      ground (
        arith,
        try_call-IsEven sys n w,
        try_sizes-IsEven (bufsizes sys) w1,
        try_call-IsEven sys n w2,
      )

  bind_loopback-IsEven : (w : World) → IsEven n w 0 (bind_loopback sys w).1 0
  unfolding bind_loopback
  bind_loopback-IsEven w =
      ground (arith, try_call-IsEven sys n w, set_rcv_buf-IsEven (try_call sys w).1)

  open_loopback-IsEven :
      (fd : Option ℕ) (w : World)
      → let (fd', w') = open_loopback sys fd w in IsEven n w (holds n fd) w' (holds n fd')
  unfolding open_loopback
  open_loopback-IsEven fd w = omega (
    arith,
    close_fd-IsEven n fd w,
    open_socket-IsEven sys n (bind_loopback sys) bind_loopback-IsEven (close_fd fd w),
  )

  open_wanted-IsEven :
      (wanted : Bool) (fd : Option ℕ) (w : World)
      → let (fd', w') = open_wanted sys wanted fd w in IsEven n w (holds n fd) w' (holds n fd')
  unfolding open_wanted
  open_wanted-IsEven true fd w = open_loopback-IsEven fd w
  open_wanted-IsEven false fd w = omega arith

  begin_loop-IsEven :
      (r : LoopbackReceiver) (w : World)
      → let (r', w') = begin_loop sys r w in IsEven n w (held n r) w' (held n r')
  unfolding begin_loop
  begin_loop-IsEven r w =
      let fd = (open_wanted sys (wants_ipv4 r.config) r.ifd w).0 in
      let w1 = (open_wanted sys (wants_ipv4 r.config) r.ifd w).1 in
      let fd6 = (open_wanted sys (wants_ipv6 r.config) r.ifd6 w1).0 in
      let w2 = (open_wanted sys (wants_ipv6 r.config) r.ifd6 w1).1 in
      let even4 = open_wanted-IsEven (wants_ipv4 r.config) r.ifd w in
      let even6 = open_wanted-IsEven (wants_ipv6 r.config) r.ifd6 w1 in
      let r1 = record r { ifd = fd; ifd6 = fd6 } in
      elim (Bool-cases (desired_sockets_open r1)) [
        | inl good ↦ rw good (omega (arith, even4, even6))
        | inr bad ↦ rw bad (omega (arith, even4, even6, end_loop-IsEven n r1 w2))
      ]

  pub thread_step-IsEven :
      (r : LoopbackReceiver) (w : World)
      → let (r', w') = thread_step sys r w in IsEven n w (held n r) w' (held n r')
  unfolding thread_step
  thread_step-IsEven r w = ground (arith, begin_loop-IsEven r w, end_loop-IsEven n r w)

-- The thread's own steps keep the receiver tidy, and two after `_run` is false end it.
desired :
    (wanted : Bool) (fd : Option ℕ)
    → (if wanted then is_open fd else not (is_open fd)) ≡ true
    → is_open fd ≡ wanted
desired true fd h = h
desired false none h = refl
desired false (some fd) h = cc

end_loop-IsTidy : (r : LoopbackReceiver) (w : World) → IsTidy (end_loop r w).0
unfolding end_loop
end_loop-IsTidy r w = (refl, refl)

module _ (sys : System) where
  begin_loop-IsTidy : (r : LoopbackReceiver) (w : World) → IsTidy (begin_loop sys r w).0
  unfolding begin_loop desired_sockets_open
  begin_loop-IsTidy r w =
      let fd = (open_wanted sys (wants_ipv4 r.config) r.ifd w).0 in
      let w1 = (open_wanted sys (wants_ipv4 r.config) r.ifd w).1 in
      let fd6 = (open_wanted sys (wants_ipv6 r.config) r.ifd6 w1).0 in
      let w2 = (open_wanted sys (wants_ipv6 r.config) r.ifd6 w1).1 in
      let r1 = record r { ifd = fd; ifd6 = fd6 } in
      let ok4 = (if wants_ipv4 r.config then is_open fd else not (is_open fd)) in
      let ok6 = (if wants_ipv6 r.config then is_open fd6 else not (is_open fd6)) in
      elim (Bool-cases (ok4 && ok6)) [
        | inl good ↦ rw good (
          desired (wants_ipv4 r.config) fd (ground arith),
          desired (wants_ipv6 r.config) fd6 (ground arith),
        )
        | inr bad ↦ rw bad (end_loop-IsTidy r1 w2)
      ]

  -- The fields are apart, so that the thread's place is a variable.
  thread_step_at :
      (cfg : LoopbackConfig) (fd fd6 rd wr : Option ℕ) (run : Bool) (t : Thread) (w : World)
      → let r : LoopbackReceiver = record {
        config = cfg;
        ifd = fd;
        ifd6 = fd6;
        stop_read = rd;
        stop_write = wr;
        run = run;
        thread = t;
      } in
        IsTidy r → IsTidy (thread_step sys r w).0
  unfolding thread_step
  thread_step_at cfg fd fd6 rd wr run absent w tidy = tidy
  thread_step_at cfg fd fd6 rd wr run begun w tidy = begin_loop-IsTidy _ w
  thread_step_at cfg fd fd6 rd wr true looping w tidy = tidy
  thread_step_at cfg fd fd6 rd wr false looping w tidy = end_loop-IsTidy _ w
  thread_step_at cfg fd fd6 rd wr run ended w tidy = tidy

  pub thread_step-IsTidy :
      (r : LoopbackReceiver) (w : World) → IsTidy r → IsTidy (thread_step sys r w).0
  thread_step-IsTidy r w tidy =
      thread_step_at r.config r.ifd r.ifd6 r.stop_read r.stop_write r.run r.thread w tidy

  -- A thread that is not before its sockets ends at its next step, where `_run` is false.
  pub last_step_at :
      (cfg : LoopbackConfig) (fd fd6 rd wr : Option ℕ) (t : Thread) (w : World)
      → let r : LoopbackReceiver = record {
        config = cfg;
        ifd = fd;
        ifd6 = fd6;
        stop_read = rd;
        stop_write = wr;
        run = false;
        thread = t;
      } in
        IsTidy r
        → t ≢ begun
        → let r' = (thread_step sys r w).0 in (r'.ifd ≡ none) × (r'.ifd6 ≡ none)
  unfolding thread_step end_loop
  last_step_at cfg fd fd6 rd wr absent w tidy on = (tidy.0, tidy.1)
  last_step_at cfg fd fd6 rd wr begun w tidy on = absurd (on refl)
  last_step_at cfg fd fd6 rd wr looping w tidy on = (refl, refl)
  last_step_at cfg fd fd6 rd wr ended w tidy on = tidy

  begin_loop-ne-begun : (r : LoopbackReceiver) (w : World) → (begin_loop sys r w).0.thread ≢ begun
  unfolding begin_loop end_loop
  begin_loop-ne-begun r w e = ground arith

  pub first_step_at :
      (cfg : LoopbackConfig) (fd fd6 rd wr : Option ℕ) (t : Thread) (w : World)
      → let r : LoopbackReceiver = record {
        config = cfg;
        ifd = fd;
        ifd6 = fd6;
        stop_read = rd;
        stop_write = wr;
        run = false;
        thread = t;
      } in
        (thread_step sys r w).0.thread ≢ begun
  unfolding thread_step end_loop
  first_step_at cfg fd fd6 rd wr absent w e = cc
  first_step_at cfg fd fd6 rd wr begun w e = begin_loop-ne-begun _ w e
  first_step_at cfg fd fd6 rd wr looping w e = cc
  first_step_at cfg fd fd6 rd wr ended w e = cc
