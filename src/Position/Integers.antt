-- ===== src/Position/Integers.antt =====
-- The readers of signed integers: the error and the value.
use native.Mathlib.Decide.{dec_lt, dec_le}
use fast_wireshark.Base.{ℕ, ◌+◌, ◌*◌, ◌^◌, ◌≤◌, ◌<◌, ◌≡◌, ◌≢◌, ◌↔◌, ◌⊎◌, inl, inr, arith}
use fast_wireshark.Base.Int.{signed}
use fast_wireshark.Decode.Stop.{IsBytes, IsField, groups}
use fast_wireshark.Field.{Machine, u32, u64}
use fast_wireshark.Position.{
  DissectPosition, FieldData, error, bytes_at, basic_dissect_int32, basic_dissect_int64,
}
use fast_wireshark.Position.Overflow.{
  basic_dissect_int32_d2, basic_dissect_int32_value, basic_dissect_int64_d2,
  basic_dissect_int64_value,
}

-- Whether the integer that `n` bytes write is outside the type.
outside_or_in :
    (h n v : ℕ) → ((2 ^ h ≤ v) × (v + 2 ^ h < 128 ^ n)) ⊎ ((v < 2 ^ h) ⊎ (128 ^ n ≤ v + 2 ^ h))
outside_or_in h n v = elim (dec_lt v (2 ^ h)) [
  | yes lt ↦ inr (inl lt)
  | no ge ↦ elim (dec_le (128 ^ n) (v + 2 ^ h)) [
    | yes le ↦ inr (inr le)
    | no gt ↦ inl (omega arith, omega arith)
  ]
]

-- For a signed field of n bytes, at most 5, that stands whole in the packet, where the status is
-- no error before, it becomes the error of D2 exactly if the integer that its 7 * n bits write
-- in two's complement is below -2 ^ 31 or above 2 ^ 31 - 1, and where it is not, the value is
-- that integer.
pub basic_dissect_int32_lem :
    (m : Machine) (p : DissectPosition) (fdata : FieldData) (n : ℕ)
    → IsBytes m.mem
    → IsField (bytes_at m p) n
    → n ≤ p.nbytes
    → n ≤ 5
    → fdata.status ≢ error
    → (((basic_dissect_int32 m p fdata).1.status ≡ error)
        ↔ ((2 ^ 31 ≤ groups (bytes_at m p) n) × (groups (bytes_at m p) n + 2 ^ 31 < 128 ^ n)))
      × (((2 ^ 31 ≤ groups (bytes_at m p) n) × (groups (bytes_at m p) n + 2 ^ 31 < 128 ^ n))
          ⊎ (signed 32 (u32 (basic_dissect_int32 m p fdata).1.value)
              ≡ signed (7 * n) (groups (bytes_at m p) n)))
basic_dissect_int32_lem m p fdata n byte field fits short ok = (
  basic_dissect_int32_d2 m p fdata n byte field fits short ok,
  elim (outside_or_in 31 n (groups (bytes_at m p) n)) [
    | inl out ↦ inl out
    | inr fit ↦ inr (basic_dissect_int32_value m p fdata n byte field fits short fit)
  ],
)

-- For a signed field of n bytes, at most 10, that stands whole in the packet, where the status
-- is no error before, it becomes the error of D2 exactly if the integer that its 7 * n bits
-- write in two's complement is below -2 ^ 63 or above 2 ^ 63 - 1, and where it is not, the value
-- is that integer.
pub basic_dissect_int64_lem :
    (m : Machine) (p : DissectPosition) (fdata : FieldData) (n : ℕ)
    → IsBytes m.mem
    → IsField (bytes_at m p) n
    → n ≤ p.nbytes
    → n ≤ 10
    → fdata.status ≢ error
    → (((basic_dissect_int64 m p fdata).1.status ≡ error)
        ↔ ((2 ^ 63 ≤ groups (bytes_at m p) n) × (groups (bytes_at m p) n + 2 ^ 63 < 128 ^ n)))
      × (((2 ^ 63 ≤ groups (bytes_at m p) n) × (groups (bytes_at m p) n + 2 ^ 63 < 128 ^ n))
          ⊎ (signed 64 (u64 (basic_dissect_int64 m p fdata).1.value)
              ≡ signed (7 * n) (groups (bytes_at m p) n)))
basic_dissect_int64_lem m p fdata n byte field fits short ok = (
  basic_dissect_int64_d2 m p fdata n byte field fits short ok,
  elim (outside_or_in 63 n (groups (bytes_at m p) n)) [
    | inl out ↦ inl out
    | inr fit ↦ inr (basic_dissect_int64_value m p fdata n byte field fits short fit)
  ],
)
