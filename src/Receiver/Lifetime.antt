-- ===== src/Receiver/Lifetime.antt =====
-- What the receiver holds, and what it gives back.
use mclog.Base.{
  ℕ, ◌+◌, ◌≡◌, refl, ap, subst, Bool, true, false, ◌&&◌, ◌||◌, not, List, [], ◌∷◌, Option, none,
  some, count, arith, Bool-cases, Option-cases, inl, inr,
}
use mclog.Sockets.{System, World, new_world, is_open, close_fd, try_call, call_pipe, try_both}
use mclog.Sockets.Balance.{
  holds, IsEven, close_fd-IsEven, try_call-IsEven, call_pipe-none, call_pipe-some, try_both-IsEven,
  open_socket-IsEven,
}
use mclog.Receiver.{
  McastConfig, MulticastReceiver, new_receiver, close_receiver, bind_socket, join_group,
  join_group6, open_fd, open_receiver, restart_receiver, Operation, opens, restarts, closes,
  operate, operate_all,
}

-- How often the receiver holds a descriptor.
abbrev pub held : ℕ → MulticastReceiver → ℕ
held n r = holds n r.fd + holds n r.fd6 + (holds n r.stop_read + holds n r.stop_write)

-- Without a thread there is no pipe.
pub record IsTidy (r : MulticastReceiver) : Type 0 where
  pub no_read : r.joinable ≡ false → r.stop_read ≡ none
  pub no_write : r.joinable ≡ false → r.stop_write ≡ none

close_receiver-IsEven :
    (n : ℕ) (r : MulticastReceiver) (w : World) → IsEven n w (held n r) (close_receiver r w).1 0
unfolding close_receiver
close_receiver-IsEven n r w =
    let w1 = close_fd r.fd w in
    let w2 = close_fd r.fd6 w1 in
    let w3 = close_fd r.stop_write w2 in
    omega (
      arith,
      close_fd-IsEven n r.fd w,
      close_fd-IsEven n r.fd6 w1,
      close_fd-IsEven n r.stop_write w2,
      close_fd-IsEven n r.stop_read w3,
    )

module _ (sys : System) (n : ℕ) where
  bind_socket-IsEven : (w : World) → IsEven n w 0 (bind_socket sys w).1 0
  unfolding bind_socket
  bind_socket-IsEven =
      let once = try_call-IsEven sys n in
      try_both-IsEven sys n (try_call sys) (try_both (try_call sys) (try_call sys)) once
        (try_both-IsEven sys n (try_call sys) (try_call sys) once once)

  join_group-IsEven : (cfg : McastConfig) (w : World) → IsEven n w 0 (join_group sys cfg w).1 0
  unfolding join_group
  join_group-IsEven cfg w = ground (arith, try_call-IsEven sys n w)

  join_group6-IsEven : (cfg : McastConfig) (w : World) → IsEven n w 0 (join_group6 sys cfg w).1 0
  unfolding join_group6
  join_group6-IsEven cfg w = ground (arith, try_call-IsEven sys n w)

  open_fd-IsEven :
      (wanted : Bool) (join : McastConfig → World → Bool × World) (cfg : McastConfig)
      (fd : Option ℕ) (w : World)
      → ((w : World) → IsEven n w 0 (join cfg w).1 0)
      → let (fd', w') = open_fd sys wanted join cfg fd w in IsEven n w (holds n fd) w' (holds n fd')
  unfolding open_fd
  open_fd-IsEven wanted join cfg fd w even =
      let setup = try_both (bind_socket sys) (join cfg) in
      let opened =
        open_socket-IsEven sys n setup
          (try_both-IsEven sys n (bind_socket sys) (join cfg) bind_socket-IsEven even) w in
      elim (Option-cases fd) [
        | inl no_fd ↦ rw no_fd (ground (arith, opened))
        | inr (f, one) ↦ rw one (ground arith)
      ]

  -- A result: the call ends the program only where a thread is joinable, and what it took and gave
  -- back agrees with what the receiver holds.
  abbrev pub IsGood : ℕ → World → Bool → Option (Bool × MulticastReceiver × World) → Type 0
  IsGood k w joinable none = joinable ≡ true
  IsGood k w joinable (some (rc, r', w')) = IsTidy r' × IsEven n w k w' (held n r')

  closed-IsGood :
      (k : ℕ) (w0 : World) (joinable : Bool) (r : MulticastReceiver) (w : World)
      → IsEven n w0 k w (held n r)
      → let (r', w') = close_receiver r w in IsGood k w0 joinable (some (false, r', w'))
  unfolding close_receiver
  closed-IsGood k w0 joinable r w even = (
    record { no_read = λ e. refl; no_write = λ e. refl },
    omega (arith, even, close_receiver-IsEven n r w),
  )

  open_receiver-IsGood :
      (cfg : McastConfig) (accept : Bool) (r : MulticastReceiver) (w : World)
      → IsTidy r
      → IsGood (held n r) w r.joinable (open_receiver sys cfg accept r w)
  unfolding open_receiver
  open_receiver-IsGood cfg accept r w tidy =
      let j4 = cfg.group_addr && cfg.intf_addr in
      let j6 = cfg.intf_name && (cfg.group_addr6 && cfg.intf_addr6) in
      let fd = (open_fd sys j4 (join_group sys) cfg r.fd w).0 in
      let w1 = (open_fd sys j4 (join_group sys) cfg r.fd w).1 in
      let fd6 = (open_fd sys j6 (join_group6 sys) cfg r.fd6 w1).0 in
      let w2 = (open_fd sys j6 (join_group6 sys) cfg r.fd6 w1).1 in
      let even4 = open_fd-IsEven j4 (join_group sys) cfg r.fd w (join_group-IsEven cfg) in
      let even6 = open_fd-IsEven j6 (join_group6 sys) cfg r.fd6 w1 (join_group6-IsEven cfg) in
      let w3 = (call_pipe sys w2).1 in
      let configured = record r { config = cfg; accept_local = accept } in
      let r2 = record configured { fd = fd; fd6 = fd6 } in
      elim (Bool-cases (not (j4 || j6))) [
        | inl neither ↦
            rw neither (record { no_read = tidy.no_read; no_write = tidy.no_write }, omega arith)
        | inr one ↦ elim (Bool-cases (j4 && is_open fd || j6 && is_open fd6)) [
          | inl opened ↦ elim (Option-cases (call_pipe sys w2).0) [
            | inl no_pipe ↦
                rw (one, opened, no_pipe)
                  (closed-IsGood (held n r) w r.joinable r2 w3
                    (omega (arith, even4, even6, call_pipe-none sys n w2 no_pipe)))
            | inr ((rd, wr), made) ↦ elim (Bool-cases r.joinable) [
              | inl running ↦ rw (one, opened, made, running) refl
              | inr idle ↦
                  let none_read = ap (holds n) (tidy.no_read idle) in
                  let none_write = ap (holds n) (tidy.no_write idle) in
                  rw (one, opened, made, idle)
                    (
                      record { no_read = λ e. absurd cc; no_write = λ e. absurd cc },
                      omega (
                        arith,
                        even4,
                        even6,
                        call_pipe-some sys n w2 made,
                        none_read,
                        none_write,
                      ),
                    )
            ]
          ]
          | inr failed ↦
              rw (one, failed)
                (closed-IsGood (held n r) w r.joinable r2 w2 (omega (arith, even4, even6)))
        ]
      ]

-- Whether the receiver is known to be closed after an operation, and whether one may be called.
abbrev pub is_closed : Operation → Bool
is_closed (opens cfg accept) = false
is_closed (restarts cfg) = false
is_closed closes = true

abbrev pub IsAllowed : Bool → Operation → Type 0
IsAllowed closed (opens cfg accept) = closed ≡ true
IsAllowed closed o = Unit

abbrev pub AllAllowed : Bool → List Operation → Type 0
AllAllowed closed [] = Unit
AllAllowed closed (o ∷ os) = IsAllowed closed o × AllAllowed (is_closed o) os

module _ (sys : System) where
  abbrev Returns :
      MulticastReceiver → World → Bool → Option (Bool × MulticastReceiver × World) → Type 0
  Returns r w closed result =
      (rc : Bool) × (r' : MulticastReceiver) × (w' : World) × (result ≡ some (rc, r', w'))
      × IsTidy r'
      × (closed ≡ true → r'.joinable ≡ false)
      × ((n : ℕ) → IsEven n w (held n r) w' (held n r'))

  joinable-of-none :
      (k : ℕ) (w : World) (joinable : Bool) (result : Option (Bool × MulticastReceiver × World))
      → result ≡ none
      → IsGood sys 0 k w joinable result
      → joinable ≡ true
  joinable-of-none k w joinable none ended good = good
  joinable-of-none k w joinable (some x) ended good = absurd cc

  open_closed :
      (cfg : McastConfig) (accept : Bool) (r : MulticastReceiver) (w : World)
      → IsTidy r
      → r.joinable ≡ false
      → Returns r w false (open_receiver sys cfg accept r w)
  open_closed cfg accept r w tidy idle =
      let result = open_receiver sys cfg accept r w in
      elim (Option-cases result) [
        | inl ended ↦
            let running =
              joinable-of-none (held 0 r) w r.joinable result ended
                (open_receiver-IsGood sys 0 cfg accept r w tidy) in
            absurd cc
        | inr ((rc, r', w'), returned) ↦
            let good : (n : ℕ) → IsGood sys n (held n r) w r.joinable (some (rc, r', w')) = λ n.
              subst (λ o. IsGood sys n (held n r) w r.joinable o) returned
                (open_receiver-IsGood sys n cfg accept r w tidy) in
            (rc, r', w', returned, (good 0).0, (λ e. absurd cc), λ n. (good n).1)
      ]

  operate_lem :
      (o : Operation) (closed : Bool) (r : MulticastReceiver) (w : World)
      → IsTidy r
      → (closed ≡ true → r.joinable ≡ false)
      → IsAllowed closed o
      → Returns r w (is_closed o) (operate sys o r w)
  unfolding operate restart_receiver close_receiver
  operate_lem (opens cfg accept) closed r w tidy idle allowed =
      open_closed cfg accept r w tidy (idle allowed)
  operate_lem (restarts cfg) closed r w tidy idle allowed =
      let r1 = (close_receiver r w).0 in
      let w1 = (close_receiver r w).1 in
      let (rc, r', w', returned, tidy', idle', even) =
        open_closed cfg r1.accept_local r1 w1 (record { no_read = λ e. refl; no_write = λ e. refl })
          refl in
      (rc, r', w', returned, tidy', idle', λ n. omega (arith, close_receiver-IsEven n r w, even n))
  operate_lem closes closed r w tidy idle allowed = (
    true,
    (close_receiver r w).0,
    (close_receiver r w).1,
    refl,
    record { no_read = λ e. refl; no_write = λ e. refl },
    (λ e. refl),
    λ n. close_receiver-IsEven n r w,
  )

  operate_all_lem :
      (os : List Operation) (closed : Bool) (r : MulticastReceiver) (w : World)
      → IsTidy r
      → (closed ≡ true → r.joinable ≡ false)
      → AllAllowed closed os
      → (r' : MulticastReceiver) × (w' : World) × (operate_all sys os r w ≡ some (r', w'))
        × ((n : ℕ) → IsEven n w (held n r) w' (held n r'))
  unfolding operate_all
  operate_all_lem [] closed r w tidy idle allowed = (r, w, refl, λ n. omega arith)
  operate_all_lem (o ∷ os) closed r w tidy idle (one, allowed) =
      let (rc, r1, w1, first, tidy1, idle1, even1) = operate_lem o closed r w tidy idle one in
      let (r2, w2, rest, even2) = operate_all_lem os (is_closed o) r1 w1 tidy1 idle1 allowed in
      (r2, w2, rw (first, rest) refl, λ n. omega (arith, even1 n, even2 n))

-- Whatever the system answers: `Open`, `Restart` and `Close` of a new receiver, in any order in
-- which `Open` comes first or right after a `Close`, all return; each descriptor handed out by then
-- was closed as often as it was handed out, but for those that the receiver holds; and once the
-- receiver is closed, each was closed exactly as often as it was handed out.
pub operate_all-held :
    (sys : System) (cfg : McastConfig) (os : List Operation)
    → AllAllowed true os
    → (r : MulticastReceiver) × (w : World) × (operate_all sys os (new_receiver cfg) new_world
        ≡ some (r, w))
      × ((n : ℕ) → count n w.made ≡ count n w.shut + held n r)
      × ((n : ℕ) → let w' = (close_receiver r w).1 in count n w'.made ≡ count n w'.shut)
unfolding new_receiver
operate_all-held sys cfg os allowed =
    let tidy : IsTidy (new_receiver cfg) = record { no_read = λ e. refl; no_write = λ e. refl } in
    let (r, w, ran, even) =
      operate_all_lem sys os true (new_receiver cfg) new_world tidy (λ e. refl) allowed in
    (
      r,
      w,
      ran,
      (λ n. omega (arith, even n)),
      λ n. omega (arith, even n, close_receiver-IsEven n r w),
    )
