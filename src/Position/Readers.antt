-- ===== src/Position/Readers.antt =====
-- The primitive readers depend on the bytes of the packet alone.
use fast_wireshark.Base.{ℕ, ◌+◌, ◌<◌, ◌≡◌, arith}
use native.Mathlib.Decide.{dec_lt}
use fast_wireshark.Decode.{Bytes, count_stop_bit_encoded}
use fast_wireshark.Decode.Stop.{IsBytes, count_stop_bit_encoded-Counted}
use fast_wireshark.Decode.Local.{Agree, count_stop_bit_encoded-Agree, decode-Agree}
use fast_wireshark.Field.{Machine}
use fast_wireshark.Position.{
  DissectPosition, FieldData, bytes_at, basic_dissect_pmap, basic_dissect_uint32,
  basic_dissect_uint64, basic_dissect_int32, basic_dissect_int64, basic_dissect_ascii_string,
  unsigned_overflows, signed_overflows,
}

-- Two machines that hold the same bytes from the position on, to the end of the packet.
abbrev pub SamePacket : Machine → Machine → DissectPosition → Type 0
SamePacket m k p = Agree p.nbytes (bytes_at m p) (bytes_at k p)

-- The tests for ERR D2 look at the first byte only where there is one.
module _ (f g : Bytes) (n : ℕ) (h : Agree n f g) where
  unsigned-Agree :
      (max_bytes extra : ℕ)
      → 0 < max_bytes
      → unsigned_overflows max_bytes extra n (f 0) ≡ unsigned_overflows max_bytes extra n (g 0)
  unfolding unsigned_overflows
  unsigned-Agree max_bytes extra pos = elim (dec_lt 0 n) [
    | yes some_byte ↦ rw (h 0 some_byte)
    | no empty ↦ ground arith
  ]

  signed-Agree :
      (max_bytes sign extra : ℕ)
      → 0 < max_bytes
      → signed_overflows max_bytes sign extra n (f 0)
        ≡ signed_overflows max_bytes sign extra n (g 0)
  unfolding signed_overflows
  signed-Agree max_bytes sign extra pos = elim (dec_lt 0 n) [
    | yes some_byte ↦ rw (h 0 some_byte)
    | no empty ↦ ground arith
  ]

-- The results of the readers depend on the bytes of the packet that are left, and on no byte
-- behind them: two machines that agree on those bytes give one new position and one new field.
pub readers_local :
    (m k : Machine) (p : DissectPosition) (fdata : FieldData)
    → IsBytes m.mem
    → SamePacket m k p
    → (basic_dissect_uint32 m p fdata ≡ basic_dissect_uint32 k p fdata)
      × (basic_dissect_uint64 m p fdata ≡ basic_dissect_uint64 k p fdata)
      × (basic_dissect_int32 m p fdata ≡ basic_dissect_int32 k p fdata)
      × (basic_dissect_int64 m p fdata ≡ basic_dissect_int64 k p fdata)
      × (basic_dissect_ascii_string m p fdata ≡ basic_dissect_ascii_string k p fdata)
      × (basic_dissect_pmap m p ≡ basic_dissect_pmap k p)
unfolding basic_dissect_uint32 basic_dissect_uint64 basic_dissect_int32 basic_dissect_int64
    basic_dissect_ascii_string basic_dissect_pmap
readers_local m k p fdata byte same =
    let f = bytes_at m p in
    let g = bytes_at k p in
    let n : ℕ = count_stop_bit_encoded p.nbytes g in
    let e : count_stop_bit_encoded p.nbytes f ≡ n =
      count_stop_bit_encoded-Agree p.nbytes f g same in
    let c = count_stop_bit_encoded-Counted f (λ j. byte (p.bytes + j)) p.nbytes in
    let field : Agree n f g = λ i h. same i (omega (arith, c.bounded, e)) in
    let (d32, d64, i32, i64, pm, text, vec) = decode-Agree n f g field in
    (
      rw (e, d32, unsigned-Agree f g n field 5 0x70 (omega arith)),
      rw (e, d64, unsigned-Agree f g n field 10 0x7e (omega arith)),
      rw (e, i32, signed-Agree f g n field 5 0x08 0x70 (omega arith)),
      rw (e, i64, signed-Agree f g n field 10 0x01 0x7e (omega arith)),
      rw (e, text),
      rw (e, pm),
    )
