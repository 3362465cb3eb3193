-- ===== src/SenderThreads/Operations.antt =====
-- The operations of a sender in any order.
use mclog.Base.{ℕ, ◌+◌, ◌≡◌, refl, true, List, [], ◌∷◌, some, count, arith}
use mclog.Sockets.{System, World, new_world}
use mclog.Sockets.Balance.{IsEven}
use mclog.SenderThreads.{
  SendConfig, MulticastSender, new_listener, new_sender, close_sender, restart_sender, Operation,
  opens, restarts, closes, operate, operate_all,
}
use mclog.SenderThreads.Lifetime.{held, IsTidy, close_sender_lem, Returns, open_sender-Returns}

module _ (sys : System) where
  operate-Returns :
      (o : Operation) (s : MulticastSender) (w : World)
      → IsTidy s
      → Returns sys s w (operate sys o s w)
  unfolding operate restart_sender
  operate-Returns (opens cfg) s w tidy = open_sender-Returns sys cfg s w tidy
  operate-Returns (restarts cfg) s w tidy =
      let (tidy1, idle, none_held, even1) = close_sender_lem s w tidy in
      let s1 = (close_sender s w).0 in
      let w1 = (close_sender s w).1 in
      let (rc, s', w', returned, tidy', even) = open_sender-Returns sys cfg s1 w1 tidy1 in
      (rc, s', w', returned, tidy', λ n. omega (arith, even1 n, none_held n, even n))
  operate-Returns closes s w tidy =
      let (tidy1, idle, none_held, even) = close_sender_lem s w tidy in
      (
        true,
        (close_sender s w).0,
        (close_sender s w).1,
        refl,
        tidy1,
        λ n. omega (arith, even n, none_held n),
      )

  operate_all_lem :
      (os : List Operation) (s : MulticastSender) (w : World)
      → IsTidy s
      → (s' : MulticastSender) × (w' : World) × (operate_all sys os s w ≡ some (s', w'))
        × IsTidy s'
        × ((n : ℕ) → IsEven n w (held n s) w' (held n s'))
  unfolding operate_all
  operate_all_lem [] s w tidy = (s, w, refl, tidy, λ n. omega arith)
  operate_all_lem (o ∷ os) s w tidy =
      let (rc, s1, w1, first, tidy1, even1) = operate-Returns o s w tidy in
      let (s2, w2, rest, tidy2, even2) = operate_all_lem os s1 w1 tidy1 in
      (s2, w2, rw (first, rest) refl, tidy2, λ n. omega (arith, even1 n, even2 n))

-- Whatever the system answers: `Open`, `Restart` and `Close` of a new sender, in any order, all
-- return; each descriptor handed out by then was closed as often as it was handed out, but for
-- those that the sender or its listener holds; and once the sender is closed, each was closed
-- exactly as often as it was handed out.
pub operate_all_returns :
    (sys : System) (cfg : SendConfig) (os : List Operation)
    → (s : MulticastSender) × (w : World) × (operate_all sys os (new_sender cfg) new_world
        ≡ some (s, w))
      × ((n : ℕ) → count n w.made ≡ count n w.shut + held n s)
      × ((n : ℕ) → let w' = (close_sender s w).1 in count n w'.made ≡ count n w'.shut)
unfolding new_sender new_listener
operate_all_returns sys cfg os =
    let tidy : IsTidy (new_sender cfg) = record {
      runs = refl;
      both = λ e. absurd cc;
      no_read = λ e. refl;
      no_write = λ e. refl;
    } in
    let (s, w, ran, tidy', even) = operate_all_lem sys os (new_sender cfg) new_world tidy in
    let (tidy1, idle, none_held, even1) = close_sender_lem s w tidy' in
    (s, w, ran, (λ n. omega (arith, even n)), λ n. omega (arith, even n, even1 n))
