-- ===== src/Encode/SignedBack.antt =====
-- Reading back what `encode_int64` and `encode_int32` write.

use native.Mathlib.Decide.{dec_le}
use fast_wireshark.Base.{
  ℕ, zero, suc, ◌+◌, ◌*◌, ◌%◌, ◌^◌, ◌≤◌, ◌<◌, ◌≡◌, sym, ap, ◌∙◌, List, [], ◌∷◌, length, All, some,
  ◌⊎◌, arith, some_eq,
}
use fast_wireshark.Base.Int.{signed}
use fast_wireshark.Decode.{Bytes, count_stop_bit_encoded, decode_int64, decode_int32}
use fast_wireshark.Decode.Stop.{IsBytes}
use fast_wireshark.Decode.Signed.{
  decode_int64-signed, decode_int32-signed, decode_int32_long, groups_bounds,
}
use fast_wireshark.Decode.Text.{Reads}
use fast_wireshark.Encode.{mark_last, encode_int64, widen, encode_int32}
use fast_wireshark.Encode.Field.{IsGroup, value_from, length-mark_last, FieldOf, mark_last-FieldOf}
use fast_wireshark.Encode.Signed.{encode_int64_total, encode_int64_range}

field_of :
    (bytes : Bytes) (e : List ℕ)
    → IsBytes bytes
    → All IsGroup e
    → 0 < length e
    → Reads bytes 0 (mark_last e)
    → FieldOf bytes e
field_of bytes [] byte h pos r = absurd (omega arith)
field_of bytes (x ∷ xs) byte h pos r = mark_last-FieldOf bytes x xs byte h r

-- The bytes that `encode_int64` writes are read back, in every window of bytes that holds them,
-- whatever follows: the field ends where they end, and `decode_int64` gives the integer that was
-- encoded.
pub decode_int64-encode_int64 :
    (x : ℕ) (bytes : Bytes) (written : List ℕ) (n : ℕ)
    → x < 2 ^ 64
    → IsBytes bytes
    → encode_int64 x [] ≡ some written
    → Reads bytes 0 written
    → length written ≤ n
    → (count_stop_bit_encoded n bytes ≡ length written)
      × (signed 64 (decode_int64 (length written) bytes) ≡ signed 64 x)
decode_int64-encode_int64 x bytes written n lt byte run r fits =
    let range = encode_int64_range x lt run in
    let (e, p, is_groups, number, pos, most) = encode_int64_total x [] lt range in
    let same : mark_last e ≡ written = some_eq (sym p ∙ run) in
    let f = field_of bytes e byte is_groups pos (rw same r) in
    let len : length e ≡ length written = rw (← same) (sym (length-mark_last e)) in
    rw (← len) (
      f.found n (omega arith),
      decode_int64-signed bytes (length e) byte f.field most
          ∙ ap (signed (7 * length e)) f.value
          ∙ number,
    )

-- A widened gint32 keeps its integer, and is in the range of nine groups.
signed-widen : (x : ℕ) → x < 2 ^ 32 → signed 64 (widen x) ≡ signed 32 x
signed-widen x h = ground arith

widen_range : (x : ℕ) → x < 2 ^ 32 → (widen x < 2 ^ 62) ⊎ (2 ^ 64 ≤ widen x + 2 ^ 62)
widen_range x h = ground arith

-- The low 32 bits of its number are the gint32, where there are five groups or more.
low_word :
    (m x v : ℕ)
    → x < 2 ^ 32
    → 4 ≤ m
    → m < 9
    → v < 128 ^ suc m
    → signed (7 * suc m) v ≡ signed 64 (widen x)
    → v % 2 ^ 32 ≡ x
low_word zero x v h long short fits e = absurd (omega arith)
low_word (suc zero) x v h long short fits e = absurd (omega arith)
low_word (suc (suc zero)) x v h long short fits e = absurd (omega arith)
low_word (suc (suc (suc zero))) x v h long short fits e = absurd (omega arith)
low_word (suc (suc (suc (suc zero)))) x v h long short fits e = ground arith
low_word (suc (suc (suc (suc (suc zero))))) x v h long short fits e = ground arith
low_word (suc (suc (suc (suc (suc (suc zero)))))) x v h long short fits e = ground arith
low_word (suc (suc (suc (suc (suc (suc (suc zero))))))) x v h long short fits e = ground arith
low_word (suc (suc (suc (suc (suc (suc (suc (suc zero)))))))) x v h long short fits e = ground arith
low_word (suc (suc (suc (suc (suc (suc (suc (suc (suc m))))))))) x v h long short fits e =
    absurd (omega arith)

read_int32 :
    (bytes : Bytes) (e : List ℕ) (x : ℕ)
    → x < 2 ^ 32
    → IsBytes bytes
    → FieldOf bytes e
    → signed (7 * length e) (value_from 0 e) ≡ signed 64 (widen x)
    → length e ≤ 9
    → signed 32 (decode_int32 (length e) bytes) ≡ signed 32 x
read_int32 bytes [] x h byte f number most = absurd (omega (arith, f.field.nonempty))
read_int32 bytes (b ∷ bs) x h byte f number most = elim (dec_le (length (b ∷ bs)) 4) [
  | yes le ↦
      decode_int32-signed bytes (length (b ∷ bs)) byte f.field le
      ∙ ap (signed (7 * length (b ∷ bs))) f.value
      ∙ number
      ∙ signed-widen x h
  | no gt ↦
      let fits = rw f.value at ((groups_bounds bytes (length bs)).0) in
      ap (signed 32) (
        decode_int32_long bytes (length (b ∷ bs)) byte f.field (omega arith) (omega arith)
        ∙ ap (λ t. t % 2 ^ 32) f.value
        ∙ low_word (length bs) x _ h (omega arith) most fits number)
]

-- The bytes that `encode_int32` writes for a gint32 are read back, in every window of bytes that
-- holds them, whatever follows: the field ends where they end, and `decode_int32` gives the
-- integer that was encoded.
pub decode_int32-encode_int32 :
    (x : ℕ) (bytes : Bytes) (written : List ℕ) (n : ℕ)
    → x < 2 ^ 32
    → IsBytes bytes
    → encode_int32 x [] ≡ some written
    → Reads bytes 0 written
    → length written ≤ n
    → (count_stop_bit_encoded n bytes ≡ length written)
      × (signed 32 (decode_int32 (length written) bytes) ≡ signed 32 x)
unfolding encode_int32
decode_int32-encode_int32 x bytes written n lt byte run r fits =
    let (e, p, is_groups, number, pos, most) =
      encode_int64_total (widen x) [] (ground arith) (widen_range x lt) in
    let same : mark_last e ≡ written = some_eq (sym p ∙ run) in
    let f = field_of bytes e byte is_groups pos (rw same r) in
    let len : length e ≡ length written = rw (← same) (sym (length-mark_last e)) in
    rw (← len) (f.found n (omega arith), read_int32 bytes e x lt byte f number most)
