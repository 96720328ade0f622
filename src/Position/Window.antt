-- ===== src/Position/Window.antt =====
-- The readers of basic-dissect.c stay inside the packet.
use fast_wireshark.Base.{
  ℕ, ◌+◌, ◌*◌, ◌^◌, ◌≤◌, ◌<◌, ◌≡◌, refl, Option, none, some, List, length, leb, ◌==◌, arith,
  Bool-cases, inl, inr,
}
use fast_wireshark.Decode.{number_decoded_bits, count_stop_bit_encoded}
use fast_wireshark.Decode.Stop.{IsBytes, count_stop_bit_encoded-Counted}
use fast_wireshark.Decode.Pmap.{length-decode_pmap}
use fast_wireshark.Field.{Machine}
use fast_wireshark.Position.{
  DissectPosition, FieldData, bytes_at, shift_bytes, find_field, dissect_shift_pmap,
  dissect_shift_null, basic_dissect_pmap, basic_dissect_uint32, basic_dissect_uint64,
  basic_dissect_int32, basic_dissect_int64, basic_dissect_ascii_string,
}

-- The bytes left end at the address `end` and at the offset `total`: those of the packet. The
-- lengths are such that the bit count of a presence map fits a `guint`.
pub record InPacket (end total : ℕ) (p : DissectPosition) : Type 0 where
  pub at_end : p.bytes + p.nbytes ≡ end
  pub at_total : p.offset + p.nbytes ≡ total
  pub small : 7 * total < 2 ^ 32

-- The presence map has the entries that its length says, and the index does not pass it.
abbrev pub PmapFits : DissectPosition → Option (List ℕ) → Type 0
PmapFits p none = p.pmap_len ≡ 0
PmapFits p (some bits) = length bits ≡ p.pmap_len

pub record HasPmap (p : DissectPosition) : Type 0 where
  pub entries : PmapFits p p.pmap
  pub index : p.pmap_idx ≤ p.pmap_len

-- A jump inside the bytes that are left keeps the end.
pub shift_bytes-InPacket :
    {end total : ℕ} (p : DissectPosition)
    → InPacket end total p
    → p.offjmp ≤ p.nbytes
    → InPacket end total (shift_bytes p)
unfolding shift_bytes
shift_bytes-InPacket p w h = omega arith

module _ (m : Machine) (byte : IsBytes m.mem) (p : DissectPosition) where
  pub find_field-le : (find_field m p).offjmp ≤ p.nbytes
  unfolding find_field
  find_field-le =
      let c = count_stop_bit_encoded-Counted (bytes_at m p) (λ i. byte (p.bytes + i)) p.nbytes in
      omega (arith, c.bounded)

  pub step-InPacket :
      {end total : ℕ} → InPacket end total p → InPacket end total (shift_bytes (find_field m p))
  step-InPacket w =
      shift_bytes-InPacket (find_field m p) (unfold find_field in omega arith)
        (unfold find_field in find_field-le)

shift_null-InPacket :
    (m : Machine) (p : DissectPosition) {end total : ℕ}
    → InPacket end total p
    → InPacket end total (dissect_shift_null m p).1
unfolding dissect_shift_null
shift_null-InPacket m p w = ground arith

-- Every reader of a number, of a string or of a null leaves the position in the packet: what it
-- takes is among the bytes that are left, so neither counter wraps.
pub readers-InPacket :
    (m : Machine) (p : DissectPosition) (fdata : FieldData) {end total : ℕ}
    → IsBytes m.mem
    → InPacket end total p
    → InPacket end total (basic_dissect_uint32 m p fdata).0
      × InPacket end total (basic_dissect_uint64 m p fdata).0
      × InPacket end total (basic_dissect_int32 m p fdata).0
      × InPacket end total (basic_dissect_int64 m p fdata).0
      × InPacket end total (basic_dissect_ascii_string m p fdata).0
      × InPacket end total (dissect_shift_null m p).1
unfolding basic_dissect_uint32 basic_dissect_uint64 basic_dissect_int32 basic_dissect_int64
    basic_dissect_ascii_string
readers-InPacket m p fdata byte w =
    let s = step-InPacket m byte p w in (s, s, s, s, s, shift_null-InPacket m p w)

pub find_field-pmap_len :
    (m : Machine) (p : DissectPosition) {end total : ℕ}
    → IsBytes m.mem
    → InPacket end total p
    → 7 * (find_field m p).offjmp < 2 ^ 32
find_field-pmap_len m p byte w = omega (arith, find_field-le m byte p)

-- A presence map is read inside the packet, and the map that results has as many entries as its
-- length says, with the index at its start.
pub basic_dissect_pmap-InPacket :
    (m : Machine) (p : DissectPosition) {end total : ℕ}
    → IsBytes m.mem
    → InPacket end total p
    → InPacket end total (basic_dissect_pmap m p)
      × HasPmap (basic_dissect_pmap m p)
      × ((basic_dissect_pmap m p).pmap_idx ≡ 0)
unfolding basic_dissect_pmap find_field shift_bytes
basic_dissect_pmap-InPacket m p byte w =
    let n = count_stop_bit_encoded p.nbytes (bytes_at m p) in
    let le : n ≤ p.nbytes = find_field-le m byte p in
    let len = length-decode_pmap (bytes_at m p) n (omega arith) in
    elim (Bool-cases (number_decoded_bits n == 0)) [
      | inl none_found ↦ rw none_found (omega arith, omega arith, refl)
      | inr found ↦ rw found (omega arith, record { entries = len; index = omega arith }, refl)
    ]

-- Taking a bit of a well-formed presence map keeps it well formed, and the position in the
-- packet.
pub dissect_shift_pmap-HasPmap :
    (p : DissectPosition) {end total : ℕ}
    → InPacket end total p
    → HasPmap p
    → InPacket end total (dissect_shift_pmap p).1 × HasPmap (dissect_shift_pmap p).1
unfolding dissect_shift_pmap
dissect_shift_pmap-HasPmap p w h = elim (Bool-cases (leb p.pmap_len p.pmap_idx)) [
  | inl out ↦ rw out (w, h)
  | inr in_range ↦ rw in_range (omega arith, record { entries = h.entries; index = ground arith })
]
