-- ===== src/Position/Overflow.antt =====
-- Dynamic error D2: when a number does not fit its type, and what is read when it does.
use mathlib.Core.Path.{subst}
use native.Mathlib.Decide.{dec_le}
use fast_wireshark.Base.{
  ℕ, ◌+◌, ◌*◌, ◌/◌, ◌%◌, ◌^◌, ◌≤◌, ◌<◌, ◌≡◌, ◌≢◌, ◌↔◌, ◌⊎◌, refl, ap, ◌∙◌, Bool, true, false, arith,
}
use fast_wireshark.Base.Int.{signed}
use fast_wireshark.Decode.{Bytes, decode_int32, decode_int64}
use fast_wireshark.Decode.Stop.{IsBytes, IsField, groups, count_stop_bit_encoded-IsField}
use fast_wireshark.Decode.Unsigned.{decode_uint32-groups, decode_uint64-groups}
use fast_wireshark.Decode.Signed.{
  decode_int32-lt, decode_int32-signed, decode_int32_long, decode_int64-signed, decode_int64_long,
  groups_bounds,
}
use fast_wireshark.Field.{Machine, u32, u64}
use fast_wireshark.Position.{
  DissectPosition, FieldData, error, bytes_at, err_d, check_d2, basic_dissect_uint32,
  basic_dissect_uint64, basic_dissect_int32, basic_dissect_int64,
}
use fast_wireshark.Position.Bounds.{uint32_fits, uint64_fits, int32_fits, int64_fits}

-- The status that the check leaves, where there was no error before.
check_status :
    (b : Bool) (fdata : FieldData) {P : Type 0}
    → fdata.status ≢ error
    → (b ≡ true) ↔ P
    → ((check_d2 b fdata).status ≡ error) ↔ P
unfolding err_d
check_status true fdata ne iff = (λ _. iff.0 refl, λ _. refl)
check_status false fdata ne iff = (λ e. absurd (ne e), λ q. cc (iff.1 q))

pub check_low : (b : Bool) (fdata : FieldData) → u32 (check_d2 b fdata).value ≡ u32 fdata.value
unfolding err_d
check_low true fdata = refl
check_low false fdata = refl

pub low_half : (w x : ℕ) → x < 2 ^ 32 → (w / 2 ^ 32 * 2 ^ 32 + x) % 2 ^ 32 ≡ x
low_half w x h = omega arith

check_word : (b : Bool) (fdata : FieldData) → (check_d2 b fdata).value.word ≡ fdata.value.word
unfolding err_d
check_word true fdata = refl
check_word false fdata = refl

pub check_nbytes : (b : Bool) (fdata : FieldData) → (check_d2 b fdata).nbytes ≡ fdata.nbytes
unfolding err_d
check_nbytes true fdata = refl
check_nbytes false fdata = refl

-- A field of at most 5 bytes that stands whole in the packet is read as a 32-bit number, where
-- the status is no error before: it becomes the error of D2 exactly if the field's number does
-- not fit 32 bits, the value is that number modulo 2 ^ 32, the size is the field's, and the
-- position moves behind the field.
pub basic_dissect_uint32_lem :
    (m : Machine) (p : DissectPosition) (fdata : FieldData) (n : ℕ)
    → IsBytes m.mem
    → IsField (bytes_at m p) n
    → n ≤ p.nbytes
    → n ≤ 5
    → fdata.status ≢ error
    → (((basic_dissect_uint32 m p fdata).1.status ≡ error) ↔ (2 ^ 32 ≤ groups (bytes_at m p) n))
      × (u32 (basic_dissect_uint32 m p fdata).1.value ≡ groups (bytes_at m p) n % 2 ^ 32)
      × ((basic_dissect_uint32 m p fdata).1.nbytes ≡ n)
      × ((basic_dissect_uint32 m p fdata).0.bytes ≡ p.bytes + n)
unfolding basic_dissect_uint32
basic_dissect_uint32_lem m p fdata n byte field fits short ok =
    let f = bytes_at m p in
    let byte' : IsBytes f = λ i. byte (p.bytes + i) in
    rw (count_stop_bit_encoded-IsField f p.nbytes n byte' field fits) (
      check_status _ _ ok (uint32_fits f n (byte' 0) field.nonempty short),
      check_low _ _
          ∙ low_half fdata.value.word _ (rw (decode_uint32-groups f n byte' field) (omega arith))
          ∙ decode_uint32-groups f n byte' field,
      check_nbytes _ _,
      refl,
    )

-- A field of at most 10 bytes that stands whole in the packet is read as a 64-bit number, where
-- the status is no error before: it becomes the error of D2 exactly if the field's number does
-- not fit 64 bits, the value is that number modulo 2 ^ 64, the size is the field's, and the
-- position moves behind the field.
pub basic_dissect_uint64_lem :
    (m : Machine) (p : DissectPosition) (fdata : FieldData) (n : ℕ)
    → IsBytes m.mem
    → IsField (bytes_at m p) n
    → n ≤ p.nbytes
    → n ≤ 10
    → fdata.status ≢ error
    → (((basic_dissect_uint64 m p fdata).1.status ≡ error) ↔ (2 ^ 64 ≤ groups (bytes_at m p) n))
      × (u64 (basic_dissect_uint64 m p fdata).1.value ≡ groups (bytes_at m p) n % 2 ^ 64)
      × ((basic_dissect_uint64 m p fdata).1.nbytes ≡ n)
      × ((basic_dissect_uint64 m p fdata).0.bytes ≡ p.bytes + n)
unfolding basic_dissect_uint64
basic_dissect_uint64_lem m p fdata n byte field fits short ok =
    let f = bytes_at m p in
    let byte' : IsBytes f = λ i. byte (p.bytes + i) in
    rw (count_stop_bit_encoded-IsField f p.nbytes n byte' field fits) (
      check_status _ _ ok (uint64_fits f n (byte' 0) field.nonempty short),
      check_word _ _ ∙ decode_uint64-groups f n byte' field,
      check_nbytes _ _,
      refl,
    )

-- For a signed field of n bytes, at most 5, that stands whole in the packet, where the status is
-- no error before, it becomes the error of D2 exactly if the integer that its 7 * n bits write
-- in two's complement is below -2 ^ 31 or above 2 ^ 31 - 1.
pub basic_dissect_int32_d2 :
    (m : Machine) (p : DissectPosition) (fdata : FieldData) (n : ℕ)
    → IsBytes m.mem
    → IsField (bytes_at m p) n
    → n ≤ p.nbytes
    → n ≤ 5
    → fdata.status ≢ error
    → ((basic_dissect_int32 m p fdata).1.status ≡ error)
      ↔ ((2 ^ 31 ≤ groups (bytes_at m p) n) × (groups (bytes_at m p) n + 2 ^ 31 < 128 ^ n))
unfolding basic_dissect_int32
basic_dissect_int32_d2 m p fdata n byte field fits short ok =
    let f = bytes_at m p in
    let byte' : IsBytes f = λ i. byte (p.bytes + i) in
    rw (count_stop_bit_encoded-IsField f p.nbytes n byte' field fits)
      (check_status _ _ ok (int32_fits f n (byte' 0) field.nonempty short))

-- The low 32 bits of the longest fields.
fit_long32 :
    (v : ℕ)
    → v < 128 ^ 5
    → (v < 2 ^ 31) ⊎ (128 ^ 5 ≤ v + 2 ^ 31)
    → signed 32 (v % 2 ^ 32) ≡ signed 35 v
fit_long32 v lt fit = ground arith

int32_longest :
    (bytes : Bytes)
    → IsBytes bytes
    → IsField bytes 5
    → (groups bytes 5 < 2 ^ 31) ⊎ (128 ^ 5 ≤ groups bytes 5 + 2 ^ 31)
    → signed 32 (decode_int32 5 bytes) ≡ signed 35 (groups bytes 5)
int32_longest bytes byte field fit =
    ap (signed 32) (decode_int32_long bytes 5 byte field (omega arith) (omega arith))
    ∙ fit_long32 (groups bytes 5) (groups_bounds bytes 4).0 fit

int32_value :
    (bytes : Bytes) (n : ℕ)
    → IsBytes bytes
    → n ≤ 5
    → IsField bytes n
    → (groups bytes n < 2 ^ 31) ⊎ (128 ^ n ≤ groups bytes n + 2 ^ 31)
    → signed 32 (decode_int32 n bytes) ≡ signed (7 * n) (groups bytes n)
int32_value bytes n byte short = elim (dec_le n 4) [
  | yes le ↦ λ field fit. decode_int32-signed bytes n byte field le
  | no gt ↦
      let e : 5 ≡ n = omega arith in
      subst
        (λ k.
          IsField bytes k
          → (groups bytes k < 2 ^ 31) ⊎ (128 ^ k ≤ groups bytes k + 2 ^ 31)
          → signed 32 (decode_int32 k bytes) ≡ signed (7 * k) (groups bytes k))
        e (int32_longest bytes byte)
]

-- For a signed field of n bytes, at most 5, that stands whole in the packet and whose integer
-- fits 32 bits, the value is the integer that its 7 * n bits write in two's complement.
pub basic_dissect_int32_value :
    (m : Machine) (p : DissectPosition) (fdata : FieldData) (n : ℕ)
    → IsBytes m.mem
    → IsField (bytes_at m p) n
    → n ≤ p.nbytes
    → n ≤ 5
    → (groups (bytes_at m p) n < 2 ^ 31) ⊎ (128 ^ n ≤ groups (bytes_at m p) n + 2 ^ 31)
    → signed 32 (u32 (basic_dissect_int32 m p fdata).1.value)
      ≡ signed (7 * n) (groups (bytes_at m p) n)
unfolding basic_dissect_int32
basic_dissect_int32_value m p fdata n byte field fits short fit =
    let f = bytes_at m p in
    let byte' : IsBytes f = λ i. byte (p.bytes + i) in
    rw (count_stop_bit_encoded-IsField f p.nbytes n byte' field fits) (
      ap (signed 32) (
        check_low _ _
        ∙ low_half (fdata.value.word) _ (decode_int32-lt f n byte' field (omega arith)))
      ∙ int32_value f n byte' short field fit)

-- For a signed field of n bytes, at most 10, that stands whole in the packet, where the status
-- is no error before, it becomes the error of D2 exactly if the integer that its 7 * n bits
-- write in two's complement is below -2 ^ 63 or above 2 ^ 63 - 1.
pub basic_dissect_int64_d2 :
    (m : Machine) (p : DissectPosition) (fdata : FieldData) (n : ℕ)
    → IsBytes m.mem
    → IsField (bytes_at m p) n
    → n ≤ p.nbytes
    → n ≤ 10
    → fdata.status ≢ error
    → ((basic_dissect_int64 m p fdata).1.status ≡ error)
      ↔ ((2 ^ 63 ≤ groups (bytes_at m p) n) × (groups (bytes_at m p) n + 2 ^ 63 < 128 ^ n))
unfolding basic_dissect_int64
basic_dissect_int64_d2 m p fdata n byte field fits short ok =
    let f = bytes_at m p in
    let byte' : IsBytes f = λ i. byte (p.bytes + i) in
    rw (count_stop_bit_encoded-IsField f p.nbytes n byte' field fits)
      (check_status _ _ ok (int64_fits f n (byte' 0) field.nonempty short))

-- The low 64 bits of the longest fields.
fit_long64 :
    (v : ℕ)
    → v < 128 ^ 10
    → (v < 2 ^ 63) ⊎ (128 ^ 10 ≤ v + 2 ^ 63)
    → signed 64 (v % 2 ^ 64) ≡ signed 70 v
fit_long64 v lt fit = ground arith

int64_longest :
    (bytes : Bytes)
    → IsBytes bytes
    → IsField bytes 10
    → (groups bytes 10 < 2 ^ 63) ⊎ (128 ^ 10 ≤ groups bytes 10 + 2 ^ 63)
    → signed 64 (decode_int64 10 bytes) ≡ signed 70 (groups bytes 10)
int64_longest bytes byte field fit =
    ap (signed 64) (decode_int64_long bytes 10 byte field (omega arith) (omega arith))
    ∙ fit_long64 (groups bytes 10) (groups_bounds bytes 9).0 fit

int64_value :
    (bytes : Bytes) (n : ℕ)
    → IsBytes bytes
    → n ≤ 10
    → IsField bytes n
    → (groups bytes n < 2 ^ 63) ⊎ (128 ^ n ≤ groups bytes n + 2 ^ 63)
    → signed 64 (decode_int64 n bytes) ≡ signed (7 * n) (groups bytes n)
int64_value bytes n byte short = elim (dec_le n 9) [
  | yes le ↦ λ field fit. decode_int64-signed bytes n byte field le
  | no gt ↦
      let e : 10 ≡ n = omega arith in
      subst
        (λ k.
          IsField bytes k
          → (groups bytes k < 2 ^ 63) ⊎ (128 ^ k ≤ groups bytes k + 2 ^ 63)
          → signed 64 (decode_int64 k bytes) ≡ signed (7 * k) (groups bytes k))
        e (int64_longest bytes byte)
]

-- For a signed field of n bytes, at most 10, that stands whole in the packet and whose integer
-- fits 64 bits, the value is the integer that its 7 * n bits write in two's complement.
pub basic_dissect_int64_value :
    (m : Machine) (p : DissectPosition) (fdata : FieldData) (n : ℕ)
    → IsBytes m.mem
    → IsField (bytes_at m p) n
    → n ≤ p.nbytes
    → n ≤ 10
    → (groups (bytes_at m p) n < 2 ^ 63) ⊎ (128 ^ n ≤ groups (bytes_at m p) n + 2 ^ 63)
    → signed 64 (u64 (basic_dissect_int64 m p fdata).1.value)
      ≡ signed (7 * n) (groups (bytes_at m p) n)
unfolding basic_dissect_int64
basic_dissect_int64_value m p fdata n byte field fits short fit =
    let f = bytes_at m p in
    let byte' : IsBytes f = λ i. byte (p.bytes + i) in
    rw (count_stop_bit_encoded-IsField f p.nbytes n byte' field fits)
      (ap (signed 64) (check_word _ _) ∙ int64_value f n byte' short field fit)
