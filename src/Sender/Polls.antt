-- ===== src/Sender/Polls.antt =====
-- Messages in the queue of a thread and in the packets that it sent.
use mclog.Base.{
  ℕ, ◌≡◌, ◌∙◌, refl, ap, sym, Bool, List, [], ◌∷◌, ◌++◌, map, none, leb, length, filter, arith,
  append-nil, append_assoc, Bool-cases, Option-cases, inl, inr,
}
use mclog.Packet.{Bytes}
use mclog.Message.{Message, StreamIo, write_message, write_all, read_message, read_stream}
use mclog.Message.RoundTrip.{IsSound}
use mclog.Message.Streams.{AllGood, read_stream-write_all, read_message_shrinks}
use mclog.Sender.{Wake, ready, idle}

-- What a thread finds at a wake-up, as messages.
pub data Poll : Type 0 where
  taken : ℕ → List Message → Poll
  timeout : ℕ → Poll

abbrev pub wake : StreamIo → Poll → Wake
wake io (taken now ms) = ready now (map (write_message io) ms)
wake io (timeout now) = idle now

abbrev pub wakes : StreamIo → List Poll → List Wake
wakes io [] = []
wakes io (w ∷ ws) = wake io w ∷ wakes io ws

-- The messages taken, and those of them whose form an empty packet has room for.
abbrev pub polled : List Poll → List Message
polled [] = []
polled (taken now ms ∷ ws) = ms ++ polled ws
polled (timeout now ∷ ws) = polled ws

abbrev pub sendable : StreamIo → ℕ → Message → Bool
sendable io size m = leb (length (write_message io m)) size

pub write_all-append :
    (io : StreamIo) (ms ns : List Message)
    → write_all io (ms ++ ns) ≡ write_all io ms ++ write_all io ns
unfolding write_all
write_all-append io [] ns = refl
write_all-append io (m ∷ ms) ns =
    ap (λ t. write_message io m ++ t) (write_all-append io ms ns)
    ∙ sym (append_assoc (write_message io m) (write_all io ms) (write_all io ns))

pub AllGood-append : (ms ns : List Message) → AllGood ms → AllGood ns → AllGood (ms ++ ns)
AllGood-append [] ns g h = h
AllGood-append (m ∷ ms) ns (f, a, g) h = (f, a, AllGood-append ms ns g h)

pub AllGood-split : (ms ns : List Message) → AllGood (ms ++ ns) → AllGood ms × AllGood ns
AllGood-split [] ns g = (tt, g)
AllGood-split (m ∷ ms) ns (f, a, g) = let (l, r) = AllGood-split ms ns g in ((f, a, l), r)

pub read_message-nil : (io : StreamIo) → IsSound io → read_message io [] ≡ none
read_message-nil io sound = elim (Option-cases (read_message io [])) [
  | inl fails ↦ fails
  | inr ((m, rest), reads) ↦ absurd (omega (arith, read_message_shrinks io sound [] reads))
]

pub read_stream-good :
    (io : StreamIo) (ms : List Message)
    → IsSound io
    → AllGood ms
    → read_stream io (write_all io ms) ≡ ms
read_stream-good io ms sound good =
    ap (read_stream io) (sym (append-nil (write_all io ms)))
    ∙ read_stream-write_all io ms [] sound good (read_message-nil io sound)

pub filter-append {ℓ} :
    {A : Type ℓ} (p : A → Bool) (xs ys : List A) → filter p (xs ++ ys) ≡ filter p xs ++ filter p ys
filter-append p [] ys = refl
filter-append p (x ∷ xs) ys = elim (Bool-cases (p x)) [
  | inl keeps ↦ rw keeps (ap (λ t. x ∷ t) (filter-append p xs ys))
  | inr drops ↦ rw drops (filter-append p xs ys)
]

-- What is read of the packets sent, each by itself.
abbrev pub read_back : StreamIo → (List Bytes → Bytes) → List (List Bytes) → List Message
read_back io deliver [] = []
read_back io deliver (ds ∷ sent) = read_stream io (deliver ds) ++ read_back io deliver sent

pub read_back-append :
    (io : StreamIo) (deliver : List Bytes → Bytes) (sent : List (List Bytes)) (ds : List Bytes)
    → read_back io deliver (sent ++ (ds ∷ []))
      ≡ read_back io deliver sent ++ read_stream io (deliver ds)
read_back-append io deliver [] ds = append-nil (read_stream io (deliver ds))
read_back-append io deliver (x ∷ sent) ds =
    ap (λ t. read_stream io (deliver x) ++ t) (read_back-append io deliver sent ds)
    ∙ sym (
        append_assoc (read_stream io (deliver x)) (read_back io deliver sent)
          (read_stream io (deliver ds)))

-- Every packet sent is of a kind.
abbrev pub AllSent : (List Bytes → Type 0) → List (List Bytes) → Type 0
AllSent P [] = Unit
AllSent P (ds ∷ sent) = P ds × AllSent P sent

pub AllSent-append :
    (P : List Bytes → Type 0) (sent : List (List Bytes)) (ds : List Bytes)
    → AllSent P sent
    → P ds
    → AllSent P (sent ++ (ds ∷ []))
AllSent-append P [] ds all last = (last, tt)
AllSent-append P (x ∷ sent) ds (one, all) last = (one, AllSent-append P sent ds all last)
