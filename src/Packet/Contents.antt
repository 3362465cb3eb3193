-- ===== src/Packet/Contents.antt =====
-- What a packet holds after `Add`.
use mclog.Base.{
  ◌+◌, ◌-◌, ◌≤◌, ◌≡◌, refl, true, [], ◌++◌, leb, if◌then◌else◌, length, take, overwrite,
  length-overwrite, length-take, arith, Bool-cases, inl, inr,
}
use mclog.Packet.{Bytes, MessagePacket, contents, add, reset}
use mclog.Packet.Layout.{take-drop-overwrite, take-drop-overwrite_same}

-- The stream's part lies inside the buffer, the put position inside that part, and the payload ends
-- at the put position.
pub record IsWriting (p : MessagePacket) : Type 0 where
  pub span_fits : p.span_start + p.span_size ≤ length p.buf
  pub tellp_fits : p.tellp ≤ p.span_size
  pub payload_ends : p.payload_length ≡ p.tellp

-- `Add` appends the whole value and says so where it fits in the room left, and otherwise says so
-- and leaves the contents as they were; either way the buffer's size and the stream's part stay.
pub add_lem :
    (bs : Bytes) (p : MessagePacket)
    → IsWriting p
    → let (added, q) = add bs p in
      let fits = leb (p.tellp + length bs) p.span_size in
      (added ≡ fits)
      × (contents q ≡ (if fits then contents p ++ bs else contents p))
      × IsWriting q
      × (length q.buf ≡ length p.buf)
      × (q.span_size ≡ p.span_size)
      × (q.span_start ≡ p.span_start)
unfolding add
add_lem bs p w =
    let same : leb (p.tellp + length bs) p.span_size ≡ leb (length bs) (p.span_size - p.tellp) =
      ground arith in
    rw same (elim (Bool-cases (leb (length bs) (p.span_size - p.tellp))) [
      | inl fits ↦ rw fits (
        refl,
        take-drop-overwrite p.span_start p.tellp bs p.buf (omega arith),
        record {
          span_fits = rw (whole fits) w.span_fits;
          tellp_fits = ground arith;
          payload_ends = refl;
        },
        whole fits,
        refl,
        refl,
      )
      | inr full ↦ rw full (
        refl,
        take-drop-overwrite_same p.span_start p.tellp (part bs) p.buf (omega arith),
        record { span_fits = rw (cut) w.span_fits; tellp_fits = w.tellp_fits; payload_ends = refl },
        cut,
        refl,
        refl,
      )
    ])
  where
    part : Bytes → Bytes
    part = take (p.span_size - p.tellp)

    whole :
        leb (length bs) (p.span_size - p.tellp) ≡ true
        → length (overwrite (p.span_start + p.tellp) bs p.buf) ≡ length p.buf
    whole fits =
        length-overwrite (p.span_start + p.tellp) bs p.buf
          (ground (arith, w.span_fits, w.tellp_fits))

    cut : length (overwrite (p.span_start + p.tellp) (part bs) p.buf) ≡ length p.buf
    cut =
        length-overwrite (p.span_start + p.tellp) (part bs) p.buf
          (omega (arith, length-take (p.span_size - p.tellp) bs, w.span_fits, w.tellp_fits))

-- `Reset` empties a packet that is being written, and keeps its buffer and its room.
pub reset_lem : (p : MessagePacket) → IsWriting p → (contents (reset p) ≡ []) × IsWriting (reset p)
unfolding reset
reset_lem p w =
    (refl, record { span_fits = w.span_fits; tellp_fits = omega arith; payload_ends = refl })
