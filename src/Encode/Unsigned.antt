-- ===== src/Encode/Unsigned.antt =====
-- `encode_uint64` and `encode_uint32`: what they write, where they overrun their buffer, and that
-- decode.c reads it back.

use native.Mathlib.Nat.{pow-suc, one-le-pow, mod-eq_of_lt}
use native.Mathlib.Decide.{dec_lt}
use fast_wireshark.Base.{
  ◌⊎◌, ℕ, zero, suc, ◌/◌, ◌%◌, ◌^◌, ◌≤◌, ◌<◌, ◌≡◌, refl, sym, ap, ◌∙◌, bit_and, List, [], ◌∷◌, ◌++◌,
  length, All, none, some, ◌==◌, true, Bool-cases, inl, inr, arith, some_eq,
}
use mathlib.Core.List.{append-nil}
use fast_wireshark.Base.Bits.{and_low}
use fast_wireshark.Decode.{Bytes, count_stop_bit_encoded, decode_uint64, decode_uint32}
use fast_wireshark.Decode.Stop.{IsBytes}
use fast_wireshark.Decode.Text.{Reads}
use fast_wireshark.Decode.Unsigned.{decode_uint64-groups, decode_uint32-groups}
use fast_wireshark.Encode.{mark_last, uint_loop, encode_uint64, encode_uint32}
use fast_wireshark.Encode.Field.{IsGroup, value_from, length-mark_last, mark_last-FieldOf}
use fast_wireshark.Encode.Written.{Written, Written-round}

low : (x : ℕ) → bit_and x 0x7f ≡ x % 128
low x = and_low 7 x

low_lt : (x : ℕ) → bit_and x 0x7f < 128
low_lt x = omega (arith, low x)

one_group :
    (i x : ℕ) (out : List ℕ)
    → x < 128
    → Written (λ n v. v ≡ x) (suc i) out (some (bit_and x 0x7f ∷ out))
one_group i x out h = record {
  first = bit_and x 0x7f;
  others = [];
  returns = refl;
  all_groups = (low_lt x, tt);
  number = omega (arith, low x);
  short = omega arith;
}

uint_loop-Written :
    (i x : ℕ) (out : List ℕ)
    → x < 128 ^ suc i
    → Written (λ n v. v ≡ x) (suc i) out (uint_loop (suc i) x out)
unfolding uint_loop
uint_loop-Written zero x out h =
    let e : (x / 128 == 0) ≡ true = ground arith in rw e (one_group 0 x out h)
uint_loop-Written (suc i) x out h = elim (Bool-cases (x / 128 == 0)) [
  | inl done ↦ rw done (one_group (suc i) x out (ground arith))
  | inr more ↦ rw more (
      Written-round (λ n v. v ≡ x / 128) (λ n v. v ≡ x) (suc i) (bit_and x 0x7f) out _
        (λ n v e. omega (arith, low x)) (low_lt x)
        (uint_loop-Written i (x / 128) (bit_and x 0x7f ∷ out) (omega (arith, pow-suc 128 (suc i)))))
]

-- A number of more than nine groups runs out of the buffer.
uint_loop_overrun : (i x : ℕ) (out : List ℕ) → 128 ^ i ≤ x → uint_loop i x out ≡ none
unfolding uint_loop
uint_loop_overrun zero x out h = refl
uint_loop_overrun (suc i) x out h =
    ground
      (arith, pow-suc 128 i, one-le-pow i 128, uint_loop_overrun i (x / 128) (bit_and x 0x7f ∷ out))

-- `encode_uint64` on a number below 2 ^ 63 ends and appends 1 to 9 bytes: groups of seven bits
-- that write the number, the last of them with the stop bit.
pub encode_uint64_total :
    (x : ℕ) (arr : List ℕ)
    → x < 2 ^ 63
    → (e : List ℕ) × (encode_uint64 x arr ≡ some (arr ++ mark_last e))
      × All IsGroup e
      × (value_from 0 e ≡ x)
      × (0 < length e)
      × (length e ≤ 9)
unfolding encode_uint64
encode_uint64_total x arr h =
    let w = uint_loop-Written 8 x [] h in
    (
      w.first ∷ w.others,
      rw w.returns (ap (λ t. some (arr ++ mark_last t)) (append-nil (w.first ∷ w.others))),
      w.all_groups,
      w.number,
      omega arith,
      w.short,
    )

-- `encode_uint64` on a number from 2 ^ 63 on writes its tenth group outside the buffer, where
-- the model has no result.
pub encode_uint64_overrun : (x : ℕ) (arr : List ℕ) → 2 ^ 63 ≤ x → encode_uint64 x arr ≡ none
unfolding encode_uint64
encode_uint64_overrun x arr h = rw (uint_loop_overrun 9 x [] h)

-- Reading back the marked groups `e`, as 64-bit and as 32-bit number.
pub read_back :
    (bytes : Bytes) (e : List ℕ) (n : ℕ)
    → IsBytes bytes
    → All IsGroup e
    → 0 < length e
    → Reads bytes 0 (mark_last e)
    → length (mark_last e) ≤ n
    → (count_stop_bit_encoded n bytes ≡ length (mark_last e))
      × (decode_uint64 (length (mark_last e)) bytes ≡ value_from 0 e % 2 ^ 64)
      × (decode_uint32 (length (mark_last e)) bytes ≡ value_from 0 e % 2 ^ 32)
read_back bytes [] n byte h pos r fits = absurd (omega arith)
read_back bytes (x ∷ xs) n byte h pos r fits =
    let f = mark_last-FieldOf bytes x xs byte h r in
    rw (length-mark_last (x ∷ xs)) (
      f.found n (omega (arith, length-mark_last (x ∷ xs))),
      decode_uint64-groups bytes _ byte f.field ∙ ap (λ t. t % 2 ^ 64) f.value,
      decode_uint32-groups bytes _ byte f.field ∙ ap (λ t. t % 2 ^ 32) f.value,
    )

-- The bytes that `encode_uint64` writes are read back, in every window of bytes that holds them,
-- whatever follows: the field ends where they end, and `decode_uint64` gives the number that was
-- encoded.
pub decode_uint64-encode_uint64 :
    (x : ℕ) (bytes : Bytes) (written : List ℕ) (n : ℕ)
    → IsBytes bytes
    → encode_uint64 x [] ≡ some written
    → Reads bytes 0 written
    → length written ≤ n
    → (count_stop_bit_encoded n bytes ≡ length written) × (decode_uint64 (length written) bytes ≡ x)
decode_uint64-encode_uint64 x bytes written n byte run r fits = elim (dec_lt x (2 ^ 63)) [
  | no ge ↦ cc (encode_uint64_overrun x [] (omega arith))
  | yes lt ↦
      let (e, p, groups, number, pos, most) = encode_uint64_total x [] lt in
      let same : mark_last e ≡ written = some_eq (sym p ∙ run) in
      let back = read_back bytes e n byte groups pos (rw same r) (rw same fits) in
      rw (← same) (back.0, back.1 ∙ rw number (mod-eq_of_lt (omega arith)))
]

-- The bytes that `encode_uint32` writes for a guint32 are read back, in every window of bytes
-- that holds them, whatever follows: the field ends where they end, and `decode_uint32` gives
-- the number that was encoded.
pub decode_uint32-encode_uint32 :
    (x : ℕ) (bytes : Bytes) (written : List ℕ) (n : ℕ)
    → x < 2 ^ 32
    → IsBytes bytes
    → encode_uint32 x [] ≡ some written
    → Reads bytes 0 written
    → length written ≤ n
    → (count_stop_bit_encoded n bytes ≡ length written) × (decode_uint32 (length written) bytes ≡ x)
unfolding encode_uint32
decode_uint32-encode_uint32 x bytes written n lt byte run r fits =
    let (e, p, groups, number, pos, most) = encode_uint64_total x [] (omega arith) in
    let same : mark_last e ≡ written = some_eq (sym p ∙ run) in
    let back = read_back bytes e n byte groups pos (rw same r) (rw same fits) in
    rw (← same) (back.0, back.2 ∙ rw number (mod-eq_of_lt lt))

-- `encode_uint64` ends in one of two ways: for a number below 2 ^ 63 it appends 1 to 9 bytes,
-- groups of seven bits that write the number, the last of them with the stop bit; and for a
-- number from 2 ^ 63 on it writes its tenth group outside the buffer, where the model has no
-- result.
pub encode_uint64_lem :
    (x : ℕ) (arr : List ℕ)
    → ((x < 2 ^ 63)
        × ((e : List ℕ) × (encode_uint64 x arr ≡ some (arr ++ mark_last e))
            × All IsGroup e
            × (value_from 0 e ≡ x)
            × (0 < length e)
            × (length e ≤ 9)))
      ⊎ ((2 ^ 63 ≤ x) × (encode_uint64 x arr ≡ none))
encode_uint64_lem x arr = elim (dec_lt x (2 ^ 63)) [
  | yes lt ↦ inl (lt, encode_uint64_total x arr lt)
  | no ge ↦ let le : 2 ^ 63 ≤ x = omega arith in inr (le, encode_uint64_overrun x arr le)
]
