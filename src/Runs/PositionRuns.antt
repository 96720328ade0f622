-- ===== src/Runs/PositionRuns.antt =====
-- The primitive readers' theorems on a packet that starts with a field of three bytes.
use fast_wireshark.Base.{
  ◌⊎◌, ℕ, ◌+◌, ◌^◌, ◌≤◌, ◌<◌, ◌≡◌, ◌↔◌, refl, List, [], ◌∷◌, ◌++◌, some, arith,
}
use fast_wireshark.Base.Bits.{true_below}
use fast_wireshark.Base.Int.{signed}
use fast_wireshark.Decode.Stop.{IsBytes, IsField, groups}
use fast_wireshark.Field.{Machine, u32, u64}
use fast_wireshark.Position.{
  DissectPosition, error, bytes_at, dissect_shift_null, basic_dissect_pmap, basic_dissect_uint32,
  basic_dissect_uint64, basic_dissect_int32, basic_dissect_int64, basic_dissect_ascii_string,
}
use fast_wireshark.Position.Window.{
  InPacket, HasPmap, readers-InPacket, basic_dissect_pmap-InPacket,
}
use fast_wireshark.Position.Readers.{readers_local}
use fast_wireshark.Position.Overflow.{basic_dissect_uint32_lem, basic_dissect_uint64_lem}
use fast_wireshark.Position.Integers.{basic_dissect_int32_lem, basic_dissect_int64_lem}
use fast_wireshark.Runs.Data.{from-IsBytes, check-IsField, check-Agree, machine, start, blank}

abbrev number : List ℕ
number = 57 ∷ 69 ∷ 163 ∷ 192 ∷ []

abbrev m : Machine
m = machine number

abbrev p : DissectPosition
p = start 4

m-IsBytes : IsBytes m.mem
m-IsBytes = from-IsBytes number refl

number-IsField : IsField (bytes_at m p) 3
unfolding true_below
number-IsField = check-IsField (bytes_at m p) 3 (omega arith) refl refl

p-InPacket : InPacket 4 4 p
p-InPacket = record { at_end = refl; at_total = refl; small = omega arith }

-- The position with one entry of the map still to take.
abbrev with_pmap : DissectPosition
with_pmap = record {
  offjmp = 0;
  offset = 0;
  nbytes = 4;
  bytes = 0;
  pmap_len = 2;
  pmap_idx = 1;
  pmap = some (0 ∷ 1 ∷ []);
}

with_pmap-InPacket : InPacket 4 4 with_pmap
with_pmap-InPacket = record { at_end = refl; at_total = refl; small = omega arith }

with_pmap-HasPmap : HasPmap with_pmap
with_pmap-HasPmap = record { entries = refl; index = omega arith }

readers-InPacket_example :
    InPacket 4 4 (basic_dissect_uint32 m p blank).0
    × InPacket 4 4 (basic_dissect_uint64 m p blank).0
    × InPacket 4 4 (basic_dissect_int32 m p blank).0
    × InPacket 4 4 (basic_dissect_int64 m p blank).0
    × InPacket 4 4 (basic_dissect_ascii_string m p blank).0
    × InPacket 4 4 (dissect_shift_null m p).1
readers-InPacket_example = readers-InPacket m p blank m-IsBytes p-InPacket

basic_dissect_pmap-InPacket_example :
    InPacket 4 4 (basic_dissect_pmap m p)
    × HasPmap (basic_dissect_pmap m p)
    × ((basic_dissect_pmap m p).pmap_idx ≡ 0)
basic_dissect_pmap-InPacket_example = basic_dissect_pmap-InPacket m p m-IsBytes p-InPacket

abbrev k : Machine
k = machine (number ++ (77 ∷ []))

readers_local_example :
    (basic_dissect_uint32 m p blank ≡ basic_dissect_uint32 k p blank)
    × (basic_dissect_uint64 m p blank ≡ basic_dissect_uint64 k p blank)
    × (basic_dissect_int32 m p blank ≡ basic_dissect_int32 k p blank)
    × (basic_dissect_int64 m p blank ≡ basic_dissect_int64 k p blank)
    × (basic_dissect_ascii_string m p blank ≡ basic_dissect_ascii_string k p blank)
    × (basic_dissect_pmap m p ≡ basic_dissect_pmap k p)
unfolding true_below
readers_local_example =
    readers_local m k p blank m-IsBytes (check-Agree 4 (bytes_at m p) (bytes_at k p) refl)

basic_dissect_uint32_lem_example :
    (((basic_dissect_uint32 m p blank).1.status ≡ error) ↔ (2 ^ 32 ≤ 942755))
    × (u32 (basic_dissect_uint32 m p blank).1.value ≡ 942755)
    × ((basic_dissect_uint32 m p blank).1.nbytes ≡ 3)
    × ((basic_dissect_uint32 m p blank).0.bytes ≡ 3)
basic_dissect_uint32_lem_example =
    basic_dissect_uint32_lem m p blank 3 m-IsBytes number-IsField (omega arith) (omega arith)
      (λ e. cc)

basic_dissect_uint64_lem_example :
    (((basic_dissect_uint64 m p blank).1.status ≡ error) ↔ (2 ^ 64 ≤ 942755))
    × (u64 (basic_dissect_uint64 m p blank).1.value ≡ 942755)
    × ((basic_dissect_uint64 m p blank).1.nbytes ≡ 3)
    × ((basic_dissect_uint64 m p blank).0.bytes ≡ 3)
basic_dissect_uint64_lem_example =
    basic_dissect_uint64_lem m p blank 3 m-IsBytes number-IsField (omega arith) (omega arith)
      (λ e. cc)

basic_dissect_int32_lem_example :
    (((basic_dissect_int32 m p blank).1.status ≡ error)
      ↔ ((2 ^ 31 ≤ groups (bytes_at m p) 3) × (groups (bytes_at m p) 3 + 2 ^ 31 < 128 ^ 3)))
    × (((2 ^ 31 ≤ groups (bytes_at m p) 3) × (groups (bytes_at m p) 3 + 2 ^ 31 < 128 ^ 3))
        ⊎ (signed 32 (u32 (basic_dissect_int32 m p blank).1.value)
            ≡ signed 21 (groups (bytes_at m p) 3)))
basic_dissect_int32_lem_example =
    basic_dissect_int32_lem m p blank 3 m-IsBytes number-IsField (omega arith) (omega arith)
      (λ e. cc)

basic_dissect_int64_lem_example :
    (((basic_dissect_int64 m p blank).1.status ≡ error)
      ↔ ((2 ^ 63 ≤ groups (bytes_at m p) 3) × (groups (bytes_at m p) 3 + 2 ^ 63 < 128 ^ 3)))
    × (((2 ^ 63 ≤ groups (bytes_at m p) 3) × (groups (bytes_at m p) 3 + 2 ^ 63 < 128 ^ 3))
        ⊎ (signed 64 (u64 (basic_dissect_int64 m p blank).1.value)
            ≡ signed 21 (groups (bytes_at m p) 3)))
basic_dissect_int64_lem_example =
    basic_dissect_int64_lem m p blank 3 m-IsBytes number-IsField (omega arith) (omega arith)
      (λ e. cc)
