-- ===== src/LoopbackSender/Operations.antt =====
-- Any calls of Start and Stop.
use mclog.Base.{
  ℕ, ◌≡◌, ◌∙◌, refl, sym, subst, Bool, true, false, ◌&&◌, ◌||◌, List, [], ◌∷◌, Option, none, some,
  arith, Bool-cases, inl, inr,
}
use mclog.Sockets.{System, World, is_open, try_call, call_socket}
use mclog.Sockets.Balance.{holds, IsEven, close_fd-IsEven, try_call-IsEven, call_socket-IsEven}
use mclog.LoopbackSender.{
  LoopbackSender, try_snd_sizes, snd_sizes, set_snd_buf, open_sender_socket, start_loopback_sender,
  stop_loopback_sender, Operation, start_call, stop_call, operate, operate_all,
}

-- The thread, the flag and the socket come and go together.
pub record IsWhole (l : LoopbackSender) : Type 0 where
  pub flag : l.joinable ≡ l.run
  pub socket : is_open l.ofd ≡ l.run

-- A sender that is on or off, seen from outside: a start of one that is on is refused, and turns
-- one that is off on where it succeeds; a stop says whether it was on.
abbrev pub Follows : Bool → List Operation → List Bool → Bool → Type 0
Follows on [] [] after = on ≡ after
Follows on [] (rc ∷ rcs) after = false ≡ true
Follows on (o ∷ os) [] after = false ≡ true
Follows on (start_call n ∷ os) (rc ∷ rcs) after =
    (on && rc ≡ false) × Follows (on || rc) os rcs after
Follows on (stop_call ∷ os) (rc ∷ rcs) after = (rc ≡ on) × Follows false os rcs after

nothing_held : (n : ℕ) (fd : Option ℕ) → is_open fd ≡ false → holds n fd ≡ 0
nothing_held n none closed = refl
nothing_held n (some fd) closed = cc

module _ (sys : System) where
  try_snd_sizes-IsEven :
      (n : ℕ) (sizes : List ℕ) (w : World) → IsEven n w 0 (try_snd_sizes sys sizes w).1 0
  unfolding try_snd_sizes
  try_snd_sizes-IsEven n [] w = omega arith
  try_snd_sizes-IsEven n (size ∷ sizes) w =
      ground (arith, try_call-IsEven sys n w, try_snd_sizes-IsEven n sizes (try_call sys w).1)

  set_snd_buf-IsEven : (n d : ℕ) (w : World) → IsEven n w 0 (set_snd_buf sys d w) 0
  unfolding set_snd_buf
  set_snd_buf-IsEven n d w =
      let w1 = (try_call sys w).1 in
      let w2 = (try_snd_sizes sys snd_sizes w1).1 in
      ground (
        arith,
        try_call-IsEven sys n w,
        try_snd_sizes-IsEven n snd_sizes w1,
        try_call-IsEven sys n w1,
        try_call-IsEven sys n w2,
      )

  start_lem :
      (d : ℕ) (l : LoopbackSender) (w : World)
      → IsWhole l
      → (rc : Bool) × (l' : LoopbackSender) × (w' : World) × (start_loopback_sender sys d l w
          ≡ some (rc, l', w'))
        × IsWhole l'
        × (l.run && rc ≡ false)
        × (l'.run ≡ l.run || rc)
        × ((n : ℕ) → IsEven n w (holds n l.ofd) w' (holds n l'.ofd))
  unfolding start_loopback_sender open_sender_socket
  start_lem d l w whole = elim (Bool-cases l.run) [
    | inl on ↦ (
      false,
      l,
      w,
      rw (on, start_loopback_sender) refl,
      whole,
      ground arith,
      ground arith,
      λ n. omega arith,
    )
    | inr off ↦
        let closed : is_open l.ofd ≡ false = whole.socket ∙ off in
        let idle : l.joinable ≡ false = whole.flag ∙ off in
        let fd = (call_socket sys w).0 in
        let w1 = (call_socket sys w).1 in
        elim (Bool-cases (is_open fd)) [
          | inl opened ↦ (
            true,
            record { ofd = fd; run = true; joinable = true },
            set_snd_buf sys d w1,
            rw (off, closed, opened, idle, start_loopback_sender) refl,
            record { flag = refl; socket = opened },
            ground arith,
            ground arith,
            λ n. omega (
              arith,
              nothing_held n l.ofd closed,
              call_socket-IsEven sys n w,
              set_snd_buf-IsEven n d w1,
            ),
          )
          | inr fails ↦ (
            false,
            record l { ofd = fd },
            w1,
            rw (off, closed, fails, start_loopback_sender) refl,
            record { flag = whole.flag; socket = fails ∙ sym off },
            ground arith,
            ground arith,
            λ n. omega (arith, nothing_held n l.ofd closed, call_socket-IsEven sys n w),
          )
        ]
  ]

  stop_lem :
      (l : LoopbackSender) (w : World)
      → IsWhole l
      → let (rc, l', w') = stop_loopback_sender l w in
        IsWhole l'
        × (rc ≡ l.run)
        × (l'.run ≡ false)
        × ((n : ℕ) → IsEven n w (holds n l.ofd) w' (holds n l'.ofd))
  unfolding stop_loopback_sender
  stop_lem l w whole = elim (Bool-cases l.run) [
    | inl on ↦
        rw on (record { flag = refl; socket = refl }, refl, refl, λ n. close_fd-IsEven n l.ofd w)
    | inr off ↦ rw off (
      record { flag = whole.flag ∙ off; socket = whole.socket ∙ off },
      refl,
      refl,
      λ n. omega arith,
    )
  ]

  -- Whatever the system answers, any calls of Start and Stop of a sender whose thread and socket
  -- are there exactly where it is on return, none of them by std::terminate, and their results are
  -- those of a sender that is on or off; after them the thread and the socket are still there
  -- exactly where the sender is on, and each descriptor was closed as often as it was handed out,
  -- but for the one that the sender holds.
  pub operate_all-Follows :
      (os : List Operation) (l : LoopbackSender) (w : World)
      → IsWhole l
      → (rcs : List Bool) × (l' : LoopbackSender) × (w' : World) × (operate_all sys os l w
          ≡ some (rcs, l', w'))
        × IsWhole l'
        × Follows l.run os rcs l'.run
        × ((n : ℕ) → IsEven n w (holds n l.ofd) w' (holds n l'.ofd))
  unfolding operate_all operate
  operate_all-Follows [] l w whole = ([], l, w, refl, whole, refl, λ n. omega arith)
  operate_all-Follows (start_call d ∷ os) l w whole =
      let (rc, l1, w1, starts, whole1, refused, on, even1) = start_lem d l w whole in
      let (rcs, l2, w2, others, whole2, follows, even2) = operate_all-Follows os l1 w1 whole1 in
      (
        rc ∷ rcs,
        l2,
        w2,
        rw (starts, others) refl,
        whole2,
        (refused, subst (λ b. Follows b os rcs l2.run) on follows),
        λ n. omega (arith, even1 n, even2 n),
      )
  operate_all-Follows (stop_call ∷ os) l w whole =
      let (rc, l1, w1) = stop_loopback_sender l w in
      let (whole1, was, off, even1) = stop_lem l w whole in
      let (rcs, l2, w2, others, whole2, follows, even2) = operate_all-Follows os l1 w1 whole1 in
      (
        rc ∷ rcs,
        l2,
        w2,
        rw others refl,
        whole2,
        (was, subst (λ b. Follows b os rcs l2.run) off follows),
        λ n. omega (arith, even1 n, even2 n),
      )
