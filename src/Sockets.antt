-- ===== src/Sockets.antt =====
-- The descriptors that the receivers and senders open and close, and what the system answers to
-- their calls. The system is a parameter: it answers each call as it will, and what it hands out is
-- not assumed to be new.
pub mod Balance
use mclog.Base.{ℕ, suc, ◌≡◌, Bool, true, false, List, [], ◌∷◌, Option, none, some, if◌then◌else◌}

-- The answers to the k-th call: the descriptor of `socket`, whether `setsockopt`, `bind` and the
-- like return 0, the two descriptors of `pipe`; -1 is `none`.
pub record System : Type 0 where
  pub socket : ℕ → Option ℕ
  pub succeeds : ℕ → Bool
  pub pipe : ℕ → Option (ℕ × ℕ)

-- How many calls were made, and which descriptors were handed out and closed.
pub record World : Type 0 where
  pub calls : ℕ
  pub made : List ℕ
  pub shut : List ℕ

abbrev pub new_world : World
new_world = record { calls = 0; made = []; shut = [] }

abbrev pub is_open : Option ℕ → Bool
is_open none = false
is_open (some fd) = true

-- `if (0 <= fd) { ::close(fd);  fd = -1; }`
unfoldable pub close_fd : Option ℕ → World → World
close_fd none w = w
close_fd (some fd) w = record w { calls = suc w.calls; shut = fd ∷ w.shut }

-- One call after another, until one fails.
unfoldable pub try_both : (World → Bool × World) → (World → Bool × World) → World → Bool × World
try_both first second w =
    let (ok, w1) = first w in let (done, w2) = second w1 in if ok then (done, w2) else (false, w1)

module _ (sys : System) where
  -- A call that returns 0 or not.
  unfoldable pub try_call : World → Bool × World
  try_call w = (sys.succeeds w.calls, record w { calls = suc w.calls })

  unfoldable pub call_socket : World → Option ℕ × World
  call_socket w = elim (sys.socket w.calls) [
    | none ↦ (none, record w { calls = suc w.calls })
    | some fd ↦ (some fd, record w { calls = suc w.calls; made = fd ∷ w.made })
  ]

  unfoldable pub call_pipe : World → Option (ℕ × ℕ) × World
  call_pipe w = elim (sys.pipe w.calls) [
    | none ↦ (none, record w { calls = suc w.calls })
    | some (r, s) ↦ (some (r, s), record w { calls = suc w.calls; made = r ∷ s ∷ w.made })
  ]

  -- `socket`, and the socket closed again where what follows fails.
  unfoldable pub open_socket : (World → Bool × World) → World → Option ℕ × World
  open_socket setup w =
      let (fd, w1) = call_socket w in
      let (ok, w2) = setup w1 in
      if is_open fd then (if ok then (fd, w2) else (none, close_fd fd w2)) else (none, w1)
