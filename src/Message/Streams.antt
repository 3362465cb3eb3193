-- ===== src/Message/Streams.antt =====
-- The loops that read messages until a read fails.
use mclog.Base.{
  ℕ, zero, suc, ◌<◌, ◌≡◌, ◌∙◌, refl, ap, true, List, [], ◌∷◌, ◌++◌, none, some, length,
  append_assoc, arith, Option-cases, >>=-eq-some, if-eq-some, inl, inr,
}
use mclog.Message.{
  Bytes, MessageOrigin, MessageHeader, Message, is_valid_hostname, is_valid_app_name, StreamIo,
  read_origin, read_header, write_message, read_message, read_all, read_stream, write_all,
}
use mclog.Message.RoundTrip.{IsSound, Fits, is_acceptable, read_message-write_message}

-- Every message holds values of its members' types and is acceptable.
abbrev pub AllGood : List Message → Type 0
AllGood [] = Unit
AllGood (m ∷ ms) = Fits m × (is_acceptable m ≡ true) × AllGood ms

module _ (io : StreamIo) (sound : IsSound io) where
  read_origin_shrinks :
      (is : Bytes) {o : MessageOrigin} {rest : Bytes}
      → read_origin io is ≡ some (o, rest)
      → length rest < length is
  unfolding read_origin
  read_origin_shrinks is h =
      let (hn, e1, k1) = >>=-eq-some (io.string_255.read is) _ h in
      let (host_ok, k2) = if-eq-some (is_valid_hostname hn.0) _ k1 in
      let (an, e2, k3) = >>=-eq-some (io.string_255.read hn.1) _ k2 in
      let (app_ok, k4) = if-eq-some (is_valid_app_name an.0) _ k3 in
      let (pid, e3, k5) = >>=-eq-some (io.u32.read an.1) _ k4 in
      ground (
        arith,
        sound.string_255.shrinks is e1,
        sound.string_255.shrinks hn.1 e2,
        sound.u32.shrinks an.1 e3,
      )

  read_header_shrinks :
      (is : Bytes) {h : MessageHeader} {rest : Bytes}
      → read_header io is ≡ some (h, rest)
      → length rest < length is
  unfolding read_header
  read_header_shrinks is h =
      let (ts, e1, k1) = >>=-eq-some (io.encoded_u64.read is) _ h in
      let (fac, e2, k2) = >>=-eq-some (io.u8.read ts.1) _ k1 in
      let (sev, e3, k3) = >>=-eq-some (io.u8.read fac.1) _ k2 in
      let (org, e4, k4) = >>=-eq-some (read_origin io sev.1) _ k3 in
      ground (
        arith,
        sound.encoded_u64.shrinks is e1,
        sound.u8.shrinks ts.1 e2,
        sound.u8.shrinks fac.1 e3,
        read_origin_shrinks sev.1 e4,
      )

  pub read_message_shrinks :
      (is : Bytes) {m : Message} {rest : Bytes}
      → read_message io is ≡ some (m, rest)
      → length rest < length is
  unfolding read_message
  read_message_shrinks is h =
      let (hdr, e1, k1) = >>=-eq-some (read_header io is) _ h in
      let (text, e2, k2) = >>=-eq-some (io.string_1500.read hdr.1) _ k1 in
      ground (arith, read_header_shrinks is e1, sound.string_1500.shrinks hdr.1 e2)

  -- With more fuel than bytes the loop ends by a read that fails, so more fuel changes nothing.
  pub read_all_fuel :
      (f g : ℕ) (is : Bytes) → length is < f → length is < g → read_all io f is ≡ read_all io g is
  unfolding read_all
  read_all_fuel zero g is hf hg = absurd (omega arith)
  read_all_fuel (suc f) zero is hf hg = absurd (omega arith)
  read_all_fuel (suc f) (suc g) is hf hg = elim (Option-cases (read_message io is)) [
    | inl fails ↦ rw (fails, read_all) refl
    | inr ((m, rest), reads) ↦
        let less = read_message_shrinks is reads in
        rw (reads, read_all)
          (ap (λ ms. m ∷ ms) (read_all_fuel f g rest (omega arith) (omega arith)))
  ]

  read_all-append :
      (f : ℕ) (ms : List Message) (rest : Bytes)
      → AllGood ms
      → length (write_all io ms ++ rest) < f
      → read_message io rest ≡ none
      → read_all io f (write_all io ms ++ rest) ≡ ms
  unfolding read_all write_all
  read_all-append zero ms rest good h e = absurd (omega arith)
  read_all-append (suc f) [] rest good h e = rw (e, read_all) refl
  read_all-append (suc f) (m ∷ ms) rest good h e =
      let tail = write_all io ms ++ rest in
      let first : read_message io (write_message io m ++ tail) ≡ some (m, tail) =
        read_message-write_message io m tail sound good.0 ∙ rw good.1 in
      let joined = append_assoc (write_message io m) (write_all io ms) rest in
      rw (joined, first, read_all)
        (ap (λ ms. m ∷ ms)
          (read_all-append f ms rest good.2
            (omega (arith, read_message_shrinks _ first, ap length joined)) e))

-- The loop over a stream that holds acceptable messages, one behind the other, and then something
-- that is no message, reads exactly those messages, in their order.
pub read_stream-write_all :
    (io : StreamIo) (ms : List Message) (rest : Bytes)
    → IsSound io
    → AllGood ms
    → read_message io rest ≡ none
    → read_stream io (write_all io ms ++ rest) ≡ ms
unfolding read_stream
read_stream-write_all io ms rest sound good e =
    read_all-append io sound (suc (length (write_all io ms ++ rest))) ms rest good (omega arith) e
