-- ===== src/Examples/Lifetimes.antt =====
-- Runs of the receiver's and the sender's operations on a system that answers at will.
use mclog.Base.{
  ℕ, ◌+◌, ◌%◌, ◌≡◌, refl, Bool, true, false, List, [], ◌∷◌, some, ◌==◌, if◌then◌else◌, count,
}
use mclog.Sockets.{System, World, new_world}
use mclog.Sockets.Balance.{IsEven, holds}
use mclog.LoopbackSender
use mclog.LoopbackSender.{LoopbackSender, start_call, stop_call}
use mclog.LoopbackSender.Operations.{IsWhole as SenderIsWhole, Follows, operate_all-Follows}
use mclog.LoopbackReceiver
use mclog.LoopbackReceiver.{LoopbackConfig, LoopbackReceiver, new_loopback_receiver, stop_loopback}
use mclog.LoopbackReceiver.Lifetime.{held as loopback_held, IsTidy as LoopbackIsTidy}
use mclog.LoopbackReceiver.Operations.{operate_all-IsTidy}
use mclog.Receiver
use mclog.Receiver.{McastConfig, MulticastReceiver, new_receiver, close_receiver}
use mclog.Receiver.Lifetime.{held as receiver_held, operate_all-held}
use mclog.SenderThreads
use mclog.SenderThreads.{SendConfig, MulticastSender, new_sender, close_sender}
use mclog.SenderThreads.Lifetime.{held as sender_held}
use mclog.SenderThreads.Operations.{operate_all_returns}

-- Every seventh call fails, and a descriptor is used again.
abbrev system : System
system = record {
  socket = λ k. some (3 + k % 5);
  succeeds = λ k. if k % 7 == 6 then false else true;
  pipe = λ k. some (10 + k, 11 + k);
}

abbrev both : McastConfig
both = record {
  group_addr = true;
  intf_addr = true;
  intf_name = true;
  group_addr6 = true;
  intf_addr6 = true;
}

abbrev only4 : McastConfig
only4 = record both { intf_name = false }

abbrev operations : List Receiver.Operation
operations =
    Receiver.opens both true
    ∷ Receiver.restarts only4
    ∷ Receiver.closes
    ∷ Receiver.opens both false
    ∷ []

operate_all-held_example :
    (r : MulticastReceiver) × (w : World) × (Receiver.operate_all system operations
        (new_receiver both)
        new_world
      ≡ some (r, w))
    × ((n : ℕ) → count n w.made ≡ count n w.shut + receiver_held n r)
    × ((n : ℕ) → let w' = (close_receiver r w).1 in count n w'.made ≡ count n w'.shut)
operate_all-held_example = operate_all-held system both operations (refl, (tt, (tt, (refl, tt))))

abbrev sending : SendConfig
sending = record { intf_addr = true; intf_name = true; intf_addr6 = true; dst_port = true }

abbrev sender_operations : List SenderThreads.Operation
sender_operations =
    SenderThreads.opens sending
    ∷ SenderThreads.opens sending
    ∷ SenderThreads.restarts (record sending { intf_name = false })
    ∷ SenderThreads.closes
    ∷ SenderThreads.closes
    ∷ []

operate_all_returns_example :
    (s : MulticastSender) × (w : World) × (SenderThreads.operate_all system sender_operations
        (new_sender sending)
        new_world
      ≡ some (s, w))
    × ((n : ℕ) → count n w.made ≡ count n w.shut + sender_held n s)
    × ((n : ℕ) → let w' = (close_sender s w).1 in count n w'.made ≡ count n w'.shut)
operate_all_returns_example = operate_all_returns system sending sender_operations

abbrev listening : LoopbackConfig
listening = record { listen_ipv4 = true; listen_ipv6 = true; port = 3737 }

abbrev loopback_operations : List LoopbackReceiver.Operation
loopback_operations =
    LoopbackReceiver.starts listening
    ∷ LoopbackReceiver.steps
    ∷ LoopbackReceiver.restarts (record listening { listen_ipv6 = false })
    ∷ LoopbackReceiver.stops
    ∷ LoopbackReceiver.steps
    ∷ LoopbackReceiver.starts listening
    ∷ []

operate_all-IsTidy_example :
    (r : LoopbackReceiver) × (w : World) × (LoopbackReceiver.operate_all system loopback_operations
        (new_loopback_receiver listening)
        new_world
      ≡ some (r, w))
    × LoopbackIsTidy r
    × ((n : ℕ) → count n w.made ≡ count n w.shut + loopback_held n r)
    × ((n : ℕ) → let w' = (stop_loopback system r w).1 in count n w'.made ≡ count n w'.shut)
operate_all-IsTidy_example =
    operate_all-IsTidy system listening loopback_operations
      (refl, (tt, (tt, (tt, (tt, (refl, tt))))))

abbrev started_sender : LoopbackSender
started_sender = record { ofd = some 4; run = true; joinable = true }

operate_all-Follows_example :
    (rcs : List Bool) × (l : LoopbackSender) × (w : World) × (LoopbackSender.operate_all system
        (start_call 9216 ∷ stop_call ∷ start_call 9216 ∷ [])
        started_sender
        new_world
      ≡ some (rcs, l, w))
    × SenderIsWhole l
    × Follows true (start_call 9216 ∷ stop_call ∷ start_call 9216 ∷ []) rcs l.run
    × ((n : ℕ) → IsEven n new_world (holds n (some 4)) w (holds n l.ofd))
operate_all-Follows_example =
    operate_all-Follows system (start_call 9216 ∷ stop_call ∷ start_call 9216 ∷ []) started_sender
      new_world (record { flag = refl; socket = refl })
