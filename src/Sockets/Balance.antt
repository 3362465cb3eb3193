-- ===== src/Sockets/Balance.antt =====
-- No descriptor is lost or closed twice.
use mclog.Base.{ℕ, ◌+◌, ◌≡◌, Bool, Option, none, some, if◌then◌else◌, ◌==◌, count, arith}
use mclog.Sockets.{System, World, close_fd, try_call, call_socket, call_pipe, try_both, open_socket}

-- How often a descriptor is held.
abbrev pub holds : ℕ → Option ℕ → ℕ
holds n none = 0
holds n (some fd) = if n == fd then 1 else 0

-- What was handed out of `n` and not closed, before with `k` of them held and after with `k'`, has
-- changed by as much as what is held.
abbrev pub IsEven : ℕ → World → ℕ → World → ℕ → Type 0
IsEven n w k w' k' = count n w'.made + count n w.shut + k ≡ count n w.made + count n w'.shut + k'

pub close_fd-IsEven :
    (n : ℕ) (fd : Option ℕ) (w : World) → IsEven n w (holds n fd) (close_fd fd w) 0
unfolding close_fd
close_fd-IsEven n none w = omega arith
close_fd-IsEven n (some fd) w = ground arith

module _ (sys : System) (n : ℕ) where
  pub try_call-IsEven : (w : World) → IsEven n w 0 (try_call sys w).1 0
  unfolding try_call
  try_call-IsEven w = omega arith

  pub call_socket-IsEven :
      (w : World) → let (fd, w') = call_socket sys w in IsEven n w 0 w' (holds n fd)
  unfolding call_socket
  call_socket-IsEven w = ground arith

  pub call_pipe-none : (w : World) → (call_pipe sys w).0 ≡ none → IsEven n w 0 (call_pipe sys w).1 0
  unfolding call_pipe
  call_pipe-none w failed = ground arith

  pub call_pipe-some :
      (w : World) {r s : ℕ}
      → (call_pipe sys w).0 ≡ some (r, s)
      → IsEven n w 0 (call_pipe sys w).1 (holds n (some r) + holds n (some s))
  unfolding call_pipe
  call_pipe-some w made = ground arith

  pub try_both-IsEven :
      (first second : World → Bool × World)
      → ((w : World) → IsEven n w 0 (first w).1 0)
      → ((w : World) → IsEven n w 0 (second w).1 0)
      → (w : World) → IsEven n w 0 (try_both first second w).1 0
  unfolding try_both
  try_both-IsEven first second one two w = ground (arith, one w, two (first w).1)

  pub open_socket-IsEven :
      (setup : World → Bool × World)
      → ((w : World) → IsEven n w 0 (setup w).1 0)
      → (w : World) → let (fd, w') = open_socket sys setup w in IsEven n w 0 w' (holds n fd)
  unfolding open_socket
  open_socket-IsEven setup even w =
      let fd = (call_socket sys w).0 in
      let w1 = (call_socket sys w).1 in
      ground (arith, call_socket-IsEven w, even w1, close_fd-IsEven n fd (setup w1).1)
