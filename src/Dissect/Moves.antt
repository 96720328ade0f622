-- ===== src/Dissect/Moves.antt =====
-- The position moves forward and stays in the packet: the readers, and the rules for the functions
-- of dissect.c that are put together from them.
use fast_wireshark.Base.{ℕ, ◌≤◌, arith, ◌==◌, ◌&&◌, ltb, Bool-cases, inl, inr}
use fast_wireshark.Decode.Stop.{IsBytes}
use fast_wireshark.Field.{Machine}
use fast_wireshark.Position.{
  DissectPosition, shift_bytes, find_field, dissect_shift_pmap, dissect_shift_null,
  basic_dissect_pmap,
}
use fast_wireshark.Position.Window.{
  InPacket, HasPmap, find_field-le, step-InPacket, basic_dissect_pmap-InPacket,
  dissect_shift_pmap-HasPmap,
}

-- From `p` the position moves to `q`, in the packet with this end and this total length.
pub record Moves (end total : ℕ) (p q : DissectPosition) : Type 0 where
  pub in_packet : InPacket end total q
  pub has_pmap : HasPmap q
  pub forward : p.offset ≤ q.offset

abbrev pub Good : ℕ → ℕ → DissectPosition → Type 0
Good end total p = Moves end total p p

module _ {end total : ℕ} where
  pub Moves-trans :
      {p q r : DissectPosition} → Moves end total p q → Moves end total q r → Moves end total p r
  Moves-trans a b = record {
    in_packet = b.in_packet;
    has_pmap = b.has_pmap;
    forward = omega (arith, a.forward, b.forward);
  }

  pub Moves-Good : {p q : DissectPosition} → Moves end total p q → Good end total q
  Moves-Good a = record { in_packet = a.in_packet; has_pmap = a.has_pmap; forward = omega arith }

  pub find_shift-Moves :
      (m : Machine) (p : DissectPosition)
      → IsBytes m.mem
      → Good end total p
      → Moves end total p (shift_bytes (find_field m p))
  find_shift-Moves m p byte g = record {
    in_packet = step-InPacket m byte p g.in_packet;
    has_pmap =
        unfold find_field shift_bytes in
        record { entries = g.has_pmap.entries; index = g.has_pmap.index };
    forward = forward;
  }
    where
      le : (find_field m p).offjmp ≤ p.nbytes
      le = find_field-le m byte p

      forward : p.offset ≤ (shift_bytes (find_field m p)).offset
      forward =
          unfold find_field shift_bytes in
          omega (arith, le, g.in_packet.at_total, g.in_packet.small)

  pub shift_pmap-Moves :
      (p : DissectPosition) → Good end total p → Moves end total p (dissect_shift_pmap p).1
  shift_pmap-Moves p g =
      let (w, h) = dissect_shift_pmap-HasPmap p g.in_packet g.has_pmap in
      record { in_packet = w; has_pmap = h; forward = unfold dissect_shift_pmap in ground arith }

  pub shift_null-Moves :
      (m : Machine) (p : DissectPosition)
      → Good end total p
      → Moves end total p (dissect_shift_null m p).1
  unfolding dissect_shift_null
  shift_null-Moves m p g = elim (Bool-cases (ltb 0 p.nbytes && m.mem p.bytes == 0x80)) [
    | inl null ↦ rw null (record {
      in_packet = ground (arith, g.in_packet.at_total, g.in_packet.small, g.in_packet.at_end);
      has_pmap = record { entries = g.has_pmap.entries; index = g.has_pmap.index };
      forward = ground (arith, g.in_packet.at_total, g.in_packet.small);
    })
    | inr other ↦ rw other g
  ]

  pub pmap-Moves :
      (m : Machine) (p : DissectPosition)
      → IsBytes m.mem
      → Good end total p
      → Moves end total p (basic_dissect_pmap m p)
  pmap-Moves m p byte g =
      let (w, h, z) = basic_dissect_pmap-InPacket m p byte g.in_packet in
      record { in_packet = w; has_pmap = h; forward = forward }
    where
      le : (find_field m p).offjmp ≤ p.nbytes
      le = find_field-le m byte p

      forward : p.offset ≤ (basic_dissect_pmap m p).offset
      forward =
          unfold basic_dissect_pmap find_field shift_bytes in
          ground (arith, le, g.in_packet.at_total, g.in_packet.small)
