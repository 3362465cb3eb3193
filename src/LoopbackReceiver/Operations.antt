-- ===== src/LoopbackReceiver/Operations.antt =====
-- The loopback receiver's operations in any order.
use mclog.Base.{
  ℕ, ◌+◌, ◌≡◌, refl, ap, Bool, true, false, List, [], ◌∷◌, Option, none, some, count, arith,
  Bool-cases, Option-cases, inl, inr,
}
use mclog.Sockets.{System, World, new_world, close_fd, call_pipe}
use mclog.Sockets.Balance.{holds, IsEven, close_fd-IsEven, call_pipe-none, call_pipe-some}
use mclog.LoopbackReceiver.{
  LoopbackConfig, LoopbackReceiver, Thread, absent, begun, looping, ended, is_joinable,
  new_loopback_receiver, thread_step, start_loopback, stop_loopback, restart_loopback, Operation,
  starts, restarts, stops, steps, operate, operate_all,
}
use mclog.LoopbackReceiver.Lifetime.{
  held, IsTidy, thread_step-IsEven, thread_step-IsTidy, last_step_at, first_step_at,
}

-- Without a thread nothing is open.
absent_at :
    (cfg : LoopbackConfig) (fd fd6 rd wr : Option ℕ) (run : Bool) (t : Thread)
    → let r : LoopbackReceiver = record {
      config = cfg;
      ifd = fd;
      ifd6 = fd6;
      stop_read = rd;
      stop_write = wr;
      run = run;
      thread = t;
    } in
      t ≡ absent → IsTidy r → (fd ≡ none) × (fd6 ≡ none) × (rd ≡ none) × (wr ≡ none)
absent_at cfg fd fd6 rd wr run absent e tidy = tidy
absent_at cfg fd fd6 rd wr run begun e tidy = absurd cc
absent_at cfg fd fd6 rd wr run looping e tidy = absurd cc
absent_at cfg fd fd6 rd wr run ended e tidy = absurd cc

absent-IsTidy :
    (cfg : LoopbackConfig) (fd fd6 rd wr : Option ℕ) (run : Bool) (t : Thread)
    → t ≡ absent
    → (fd ≡ none) × (fd6 ≡ none) × (rd ≡ none) × (wr ≡ none)
    → let r : LoopbackReceiver = record {
      config = cfg;
      ifd = fd;
      ifd6 = fd6;
      stop_read = rd;
      stop_write = wr;
      run = run;
      thread = t;
    } in
      IsTidy r
absent-IsTidy cfg fd fd6 rd wr run absent e closed = closed
absent-IsTidy cfg fd fd6 rd wr run begun e closed = absurd cc
absent-IsTidy cfg fd fd6 rd wr run looping e closed = absurd cc
absent-IsTidy cfg fd fd6 rd wr run ended e closed = absurd cc

absent_lem :
    (r : LoopbackReceiver)
    → r.thread ≡ absent
    → IsTidy r
    → (r.ifd ≡ none) × (r.ifd6 ≡ none) × (r.stop_read ≡ none) × (r.stop_write ≡ none)
absent_lem r = absent_at r.config r.ifd r.ifd6 r.stop_read r.stop_write r.run r.thread

not_joinable : (t : Thread) → is_joinable t ≡ false → t ≡ absent
not_joinable absent h = refl
not_joinable begun h = cc
not_joinable looping h = cc
not_joinable ended h = cc

module _ (sys : System) where
  stop_loopback-IsEven :
      (n : ℕ) (r : LoopbackReceiver) (w : World)
      → let (r', w') = stop_loopback sys r w in IsEven n w (held n r) w' (held n r')
  unfolding stop_loopback
  stop_loopback-IsEven n r w =
      let r0 = record r { run = false } in
      let r1 = (thread_step sys r0 w).0 in
      let w1 = (thread_step sys r0 w).1 in
      let r10 = record r1 { run = false } in
      let r2 = (thread_step sys r10 w1).0 in
      let w2 = (thread_step sys r10 w1).1 in
      elim (Bool-cases (is_joinable r.thread)) [
        | inl joined ↦ rw joined (
            omega (
              arith,
              thread_step-IsEven sys n r0 w,
              thread_step-IsEven sys n r10 w1,
              close_fd-IsEven n r2.stop_write w2,
              close_fd-IsEven n r2.stop_read (close_fd r2.stop_write w2),
            ))
        | inr no_thread ↦ rw no_thread (omega arith)
      ]

  -- `Stop` leaves nothing open.
  stop_loopback-absent :
      (r : LoopbackReceiver) (w : World)
      → IsTidy r
      → let r' = (stop_loopback sys r w).0 in (r'.thread ≡ absent) × IsTidy r'
  unfolding stop_loopback
  stop_loopback-absent r w tidy =
      let r0 = record r { run = false } in
      let r1 = (thread_step sys r0 w).0 in
      let w1 = (thread_step sys r0 w).1 in
      elim (Bool-cases (is_joinable r.thread)) [
        | inl joined ↦
            let tidy1 = thread_step-IsTidy sys r0 w tidy in
            let on = first_step_at sys r.config r.ifd r.ifd6 r.stop_read r.stop_write r.thread w in
            let none_left =
              last_step_at sys r1.config r1.ifd r1.ifd6 r1.stop_read r1.stop_write r1.thread w1
                tidy1 on in
            rw joined (refl, (none_left.0, none_left.1, refl, refl))
        | inr no_thread ↦ rw no_thread (not_joinable r.thread no_thread, tidy)
      ]

  -- What an operation returns, whether it leaves no thread, and that it accounts for what it took.
  abbrev Returns :
      LoopbackReceiver → World → Bool → Option (Bool × LoopbackReceiver × World) → Type 0
  Returns r w closed result =
      (rc : Bool) × (r' : LoopbackReceiver) × (w' : World) × (result ≡ some (rc, r', w'))
      × IsTidy r'
      × (closed ≡ true → r'.thread ≡ absent)
      × ((n : ℕ) → IsEven n w (held n r) w' (held n r'))

  start_loopback-Returns :
      (cfg : LoopbackConfig) (r : LoopbackReceiver) (w : World)
      → IsTidy r
      → r.thread ≡ absent
      → Returns r w false (start_loopback sys cfg r w)
  unfolding start_loopback
  start_loopback-Returns cfg r w tidy idle =
      let (fd, fd6, rd, wr) = absent_lem r idle tidy in
      let w1 = (call_pipe sys w).1 in
      let r1 = record r { config = cfg; run = true } in
      elim (Option-cases (call_pipe sys w).0) [
        | inl no_pipe ↦ (
          false,
          r1,
          w1,
          ground (arith, no_pipe),
          absent-IsTidy cfg r.ifd r.ifd6 r.stop_read r.stop_write true r.thread idle
              (fd, fd6, rd, wr),
          (λ e. absurd cc),
          λ n. omega (arith, call_pipe-none sys n w no_pipe),
        )
        | inr ((a, b), made) ↦ (
          true,
          record r1 { stop_read = some a; stop_write = some b; thread = begun },
          w1,
          ground (arith, made),
          (fd, fd6),
          (λ e. absurd cc),
          λ n. omega (arith, call_pipe-some sys n w made, ap (holds n) rd, ap (holds n) wr),
        )
      ]

-- Whether no thread is known to be there after an operation, and whether one may be called.
abbrev pub is_stopped : Bool → Operation → Bool
is_stopped stopped (starts cfg) = false
is_stopped stopped (restarts cfg) = false
is_stopped stopped stops = true
is_stopped stopped steps = stopped

abbrev pub IsAllowed : Bool → Operation → Type 0
IsAllowed stopped (starts cfg) = stopped ≡ true
IsAllowed stopped o = Unit

abbrev pub AllAllowed : Bool → List Operation → Type 0
AllAllowed stopped [] = Unit
AllAllowed stopped (o ∷ os) = IsAllowed stopped o × AllAllowed (is_stopped stopped o) os

module _ (sys : System) where
  step_absent :
      (r : LoopbackReceiver) (w : World)
      → r.thread ≡ absent
      → (thread_step sys r w).0.thread ≡ absent
  unfolding thread_step
  step_absent r w e = ground (arith, e)

  operate_lem :
      (o : Operation) (stopped : Bool) (r : LoopbackReceiver) (w : World)
      → IsTidy r
      → (stopped ≡ true → r.thread ≡ absent)
      → IsAllowed stopped o
      → Returns sys r w (is_stopped stopped o) (operate sys o r w)
  unfolding operate restart_loopback
  operate_lem (starts cfg) stopped r w tidy idle allowed =
      start_loopback-Returns sys cfg r w tidy (idle allowed)
  operate_lem (restarts cfg) stopped r w tidy idle allowed =
      let r1 = (stop_loopback sys r w).0 in
      let w1 = (stop_loopback sys r w).1 in
      let (gone, tidy1) = stop_loopback-absent sys r w tidy in
      let (rc, r2, w2, returned, tidy2, idle2, even) =
        start_loopback-Returns sys cfg r1 w1 tidy1 gone in
      (
        rc,
        r2,
        w2,
        returned,
        tidy2,
        idle2,
        λ n. omega (arith, stop_loopback-IsEven sys n r w, even n),
      )
  operate_lem stops stopped r w tidy idle allowed =
      let (gone, tidy1) = stop_loopback-absent sys r w tidy in
      (
        true,
        (stop_loopback sys r w).0,
        (stop_loopback sys r w).1,
        refl,
        tidy1,
        (λ e. gone),
        λ n. stop_loopback-IsEven sys n r w,
      )
  operate_lem steps stopped r w tidy idle allowed = (
    true,
    (thread_step sys r w).0,
    (thread_step sys r w).1,
    refl,
    thread_step-IsTidy sys r w tidy,
    (λ e. step_absent r w (idle e)),
    λ n. thread_step-IsEven sys n r w,
  )

  operate_all_lem :
      (os : List Operation) (stopped : Bool) (r : LoopbackReceiver) (w : World)
      → IsTidy r
      → (stopped ≡ true → r.thread ≡ absent)
      → AllAllowed stopped os
      → (r' : LoopbackReceiver) × (w' : World) × (operate_all sys os r w ≡ some (r', w'))
        × IsTidy r'
        × ((n : ℕ) → IsEven n w (held n r) w' (held n r'))
  unfolding operate_all
  operate_all_lem [] stopped r w tidy idle allowed = (r, w, refl, tidy, λ n. omega arith)
  operate_all_lem (o ∷ os) stopped r w tidy idle (one, allowed) =
      let (rc, r1, w1, first, tidy1, idle1, even1) = operate_lem o stopped r w tidy idle one in
      let (r2, w2, rest, tidy2, even2) =
        operate_all_lem os (is_stopped stopped o) r1 w1 tidy1 idle1 allowed in
      (r2, w2, rw (first, rest) refl, tidy2, λ n. omega (arith, even1 n, even2 n))

  stopped_holds : (n : ℕ) (r : LoopbackReceiver) → r.thread ≡ absent → IsTidy r → held n r ≡ 0
  stopped_holds n r gone tidy =
      let (fd, fd6, rd, wr) = absent_lem r gone tidy in
      omega (arith, ap (holds n) fd, ap (holds n) fd6, ap (holds n) rd, ap (holds n) wr)

-- Whatever the system answers: `Start`, `Restart` and `Stop` of a new receiver, in any order in
-- which `Start` comes first or after a `Stop`, with the thread's steps anywhere between them, all
-- return; without a thread nothing is open, and in its loop exactly the sockets that are configured
-- are; each descriptor handed out by then was closed as often as it was handed out, but for those
-- that the receiver holds; and once it is stopped, each was closed exactly as often.
pub operate_all-IsTidy :
    (sys : System) (cfg : LoopbackConfig) (os : List Operation)
    → AllAllowed true os
    → (r : LoopbackReceiver) × (w : World) × (operate_all sys os
          (new_loopback_receiver cfg)
          new_world
        ≡ some (r, w))
      × IsTidy r
      × ((n : ℕ) → count n w.made ≡ count n w.shut + held n r)
      × ((n : ℕ) → let w' = (stop_loopback sys r w).1 in count n w'.made ≡ count n w'.shut)
unfolding new_loopback_receiver
operate_all-IsTidy sys cfg os allowed =
    let (r, w, ran, tidy, even) =
      operate_all_lem sys os true (new_loopback_receiver cfg) new_world (refl, refl, refl, refl)
        (λ e. refl) allowed in
    let (gone, tidy') = stop_loopback-absent sys r w tidy in
    (
      r,
      w,
      ran,
      tidy,
      (λ n. omega (arith, even n)),
      λ n. omega (
        arith,
        even n,
        stop_loopback-IsEven sys n r w,
        stopped_holds sys n (stop_loopback sys r w).0 gone tidy',
      ),
    )
