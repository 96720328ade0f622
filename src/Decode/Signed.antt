-- ===== src/Decode/Signed.antt =====
-- `decode_int32` and `decode_int64`: sign extension.
use native.Mathlib.Decide.{dec_lt}
use native.Mathlib.Nat.{pow-suc, pow-le-pow_right, mod-eq_of_lt}
use fast_wireshark.Base.{
  ◌⊎◌, inl, inr, ℕ, zero, suc, ◌+◌, ◌-◌, ◌*◌, ◌/◌, ◌%◌, ◌^◌, ◌≤◌, ◌<◌, ◌≡◌, refl, ap, bit_and, ◌==◌,
  ==_iff, true, arith,
}
use fast_wireshark.Base.Bits.{or_high, true_below, true_below_lem}
use fast_wireshark.Base.Int.{signed}
use fast_wireshark.Decode.{Bytes, sign_extend, number_decoded_bits}
use fast_wireshark.Decode.{decode_int32, decode_int64}
use fast_wireshark.Decode.Stop.{IsBytes, IsField, groups}
use fast_wireshark.Decode.Unsigned.{decode_uint32-groups, decode_uint64-groups}

sign_table : true_below 256 (λ b. bit_and b 0x40 == b / 64 % 2 * 64) ≡ true
unfolding true_below
sign_table = refl

sign_bit : (b : ℕ) → b < 256 → bit_and b 0x40 ≡ b / 64 % 2 * 64
sign_bit b h = (==_iff _ _).0 (true_below_lem 256 _ b sign_table h)

-- Sign extension from the bits of 4 groups at most, where the top one is the sign of the first byte.
int32_at :
    (last : ℕ) (bytes : Bytes) (v : ℕ)
    → last < 4
    → bytes 0 < 256
    → v < 128 ^ suc last
    → bytes 0 / 64 % 2 * (64 * 128 ^ last) ≤ v
    → v < (bytes 0 / 64 % 2 + 1) * (64 * 128 ^ last)
    → signed 32 (sign_extend 32 (suc last) bytes v) ≡ signed (7 * suc last) v
unfolding sign_extend number_decoded_bits
int32_at zero bytes v small lt fits low high =
    ground (arith, sign_bit (bytes 0) lt, or_high 7 (2 ^ 25 - 1) v fits)
int32_at (suc zero) bytes v small lt fits low high =
    ground (arith, sign_bit (bytes 0) lt, or_high 14 (2 ^ 18 - 1) v fits)
int32_at (suc (suc zero)) bytes v small lt fits low high =
    ground (arith, sign_bit (bytes 0) lt, or_high 21 (2 ^ 11 - 1) v fits)
int32_at (suc (suc (suc zero))) bytes v small lt fits low high =
    ground (arith, sign_bit (bytes 0) lt, or_high 28 (2 ^ 4 - 1) v fits)
int32_at (suc (suc (suc (suc last)))) bytes v small lt fits low high = absurd (omega arith)

-- Sign extension from the bits of 9 groups at most, where the top one is the sign of the first byte.
int64_at :
    (last : ℕ) (bytes : Bytes) (v : ℕ)
    → last < 9
    → bytes 0 < 256
    → v < 128 ^ suc last
    → bytes 0 / 64 % 2 * (64 * 128 ^ last) ≤ v
    → v < (bytes 0 / 64 % 2 + 1) * (64 * 128 ^ last)
    → signed 64 (sign_extend 64 (suc last) bytes v) ≡ signed (7 * suc last) v
unfolding sign_extend number_decoded_bits
int64_at zero bytes v small lt fits low high =
    ground (arith, sign_bit (bytes 0) lt, or_high 7 (2 ^ 57 - 1) v fits)
int64_at (suc zero) bytes v small lt fits low high =
    ground (arith, sign_bit (bytes 0) lt, or_high 14 (2 ^ 50 - 1) v fits)
int64_at (suc (suc zero)) bytes v small lt fits low high =
    ground (arith, sign_bit (bytes 0) lt, or_high 21 (2 ^ 43 - 1) v fits)
int64_at (suc (suc (suc zero))) bytes v small lt fits low high =
    ground (arith, sign_bit (bytes 0) lt, or_high 28 (2 ^ 36 - 1) v fits)
int64_at (suc (suc (suc (suc zero)))) bytes v small lt fits low high =
    ground (arith, sign_bit (bytes 0) lt, or_high 35 (2 ^ 29 - 1) v fits)
int64_at (suc (suc (suc (suc (suc zero))))) bytes v small lt fits low high =
    ground (arith, sign_bit (bytes 0) lt, or_high 42 (2 ^ 22 - 1) v fits)
int64_at (suc (suc (suc (suc (suc (suc zero)))))) bytes v small lt fits low high =
    ground (arith, sign_bit (bytes 0) lt, or_high 49 (2 ^ 15 - 1) v fits)
int64_at (suc (suc (suc (suc (suc (suc (suc zero))))))) bytes v small lt fits low high =
    ground (arith, sign_bit (bytes 0) lt, or_high 56 (2 ^ 8 - 1) v fits)
int64_at (suc (suc (suc (suc (suc (suc (suc (suc zero)))))))) bytes v small lt fits low high =
    ground (arith, sign_bit (bytes 0) lt, or_high 63 (2 ^ 1 - 1) v fits)
int64_at (suc (suc (suc (suc (suc (suc (suc (suc (suc last))))))))) bytes v small lt fits low high =
    absurd (omega arith)

pub groups_bounds :
    (bytes : Bytes) (last : ℕ)
    → (groups bytes (suc last) < 128 ^ suc last)
      × (bytes 0 / 64 % 2 * (64 * 128 ^ last) ≤ groups bytes (suc last))
      × (groups bytes (suc last) < (bytes 0 / 64 % 2 + 1) * (64 * 128 ^ last))
groups_bounds bytes zero = omega arith
groups_bounds bytes (suc last) =
    let h = groups_bounds bytes last in
    omega (
      arith,
      h,
      pow-suc 128 last,
      pow-suc 128 (suc last),
      ap (λ (t : ℕ). bytes 0 / 64 % 2 * t) (pow-suc 128 last),
    )

-- `decode_int32` on a whole field of n bytes, at most 4, gives the integer that its 7 * n bits
-- write in two's complement.
pub decode_int32-signed :
    (bytes : Bytes) (n : ℕ)
    → IsBytes bytes
    → IsField bytes n
    → n ≤ 4
    → signed 32 (decode_int32 n bytes) ≡ signed (7 * n) (groups bytes n)
unfolding decode_int32
decode_int32-signed bytes zero byte f h = absurd (omega (arith, f.nonempty))
decode_int32-signed bytes (suc last) byte f h =
    let (fits, low, high) = groups_bounds bytes last in
    let small : groups bytes (suc last) < 2 ^ 32 =
      omega (arith, fits, pow-le-pow_right {n = 128} (omega arith) h) in
    rw (decode_uint32-groups bytes (suc last) byte f, mod-eq_of_lt small)
      (int32_at last bytes _ h (byte 0) fits low high)

-- `decode_int32` on a whole field of more than 4 bytes, whose bit count fits a guint, does not
-- extend the sign: the pattern is that of the groups' number modulo 2 ^ 32.
pub decode_int32_long :
    (bytes : Bytes) (n : ℕ)
    → IsBytes bytes
    → IsField bytes n
    → 4 < n
    → 7 * n < 2 ^ 32
    → decode_int32 n bytes ≡ groups bytes n % 2 ^ 32
unfolding decode_int32 sign_extend number_decoded_bits
decode_int32_long bytes zero byte f h short = absurd (omega arith)
decode_int32_long bytes (suc last) byte f h short =
    ground (arith, decode_uint32-groups bytes (suc last) byte f)

-- `decode_int64` on a whole field of n bytes, at most 9, gives the integer that its 7 * n bits
-- write in two's complement.
pub decode_int64-signed :
    (bytes : Bytes) (n : ℕ)
    → IsBytes bytes
    → IsField bytes n
    → n ≤ 9
    → signed 64 (decode_int64 n bytes) ≡ signed (7 * n) (groups bytes n)
unfolding decode_int64
decode_int64-signed bytes zero byte f h = absurd (omega (arith, f.nonempty))
decode_int64-signed bytes (suc last) byte f h =
    let (fits, low, high) = groups_bounds bytes last in
    let small : groups bytes (suc last) < 2 ^ 64 =
      omega (arith, fits, pow-le-pow_right {n = 128} (omega arith) h) in
    rw (decode_uint64-groups bytes (suc last) byte f, mod-eq_of_lt small)
      (int64_at last bytes _ h (byte 0) fits low high)

-- `decode_int64` on a whole field of more than 9 bytes, whose bit count fits a guint, does not
-- extend the sign: the pattern is that of the groups' number modulo 2 ^ 64.
pub decode_int64_long :
    (bytes : Bytes) (n : ℕ)
    → IsBytes bytes
    → IsField bytes n
    → 9 < n
    → 7 * n < 2 ^ 32
    → decode_int64 n bytes ≡ groups bytes n % 2 ^ 64
unfolding decode_int64 sign_extend number_decoded_bits
decode_int64_long bytes zero byte f h short = absurd (omega arith)
decode_int64_long bytes (suc last) byte f h short =
    ground (arith, decode_uint64-groups bytes (suc last) byte f)

extend32-lt :
    (last : ℕ) (bytes : Bytes) (v : ℕ)
    → last < 4
    → v < 128 ^ suc last
    → sign_extend 32 (suc last) bytes v < 2 ^ 32
unfolding sign_extend number_decoded_bits
extend32-lt zero bytes v small fits = ground (arith, or_high 7 (2 ^ 25 - 1) v fits)
extend32-lt (suc zero) bytes v small fits = ground (arith, or_high 14 (2 ^ 18 - 1) v fits)
extend32-lt (suc (suc zero)) bytes v small fits = ground (arith, or_high 21 (2 ^ 11 - 1) v fits)
extend32-lt (suc (suc (suc zero))) bytes v small fits =
    ground (arith, or_high 28 (2 ^ 4 - 1) v fits)
extend32-lt (suc (suc (suc (suc last)))) bytes v small fits = absurd (omega arith)

-- A decoded gint32 is a pattern of 32 bits.
pub decode_int32-lt :
    (bytes : Bytes) (n : ℕ)
    → IsBytes bytes
    → IsField bytes n
    → 7 * n < 2 ^ 32
    → decode_int32 n bytes < 2 ^ 32
decode_int32-lt bytes zero byte f short = absurd (omega (arith, f.nonempty))
decode_int32-lt bytes (suc last) byte f short = elim (dec_lt last 4) [
  | no ge ↦ omega (arith, decode_int32_long bytes (suc last) byte f (omega arith) short)
  | yes lt ↦
      let fits = (groups_bounds bytes last).0 in
      let small : groups bytes (suc last) < 2 ^ 32 =
        omega (arith, fits, pow-le-pow_right {n = 128} (omega arith) lt) in
      unfold decode_int32 in
      rw (decode_uint32-groups bytes (suc last) byte f, mod-eq_of_lt small)
        (extend32-lt last bytes _ lt fits)
]

-- `decode_int32` on a whole field of n bytes, whose bit count fits a guint, gives the integer
-- that its 7 * n bits write in two's complement if n is at most 4; a longer field is not
-- sign-extended, and gives the number that its groups of seven bits write, modulo 2 ^ 32.
pub decode_int32_lem :
    (bytes : Bytes) (n : ℕ)
    → IsBytes bytes
    → IsField bytes n
    → 7 * n < 2 ^ 32
    → ((n ≤ 4) × (signed 32 (decode_int32 n bytes) ≡ signed (7 * n) (groups bytes n)))
      ⊎ ((4 < n) × (decode_int32 n bytes ≡ groups bytes n % 2 ^ 32))
decode_int32_lem bytes n byte f small = elim (dec_lt 4 n) [
  | yes long ↦ inr (long, decode_int32_long bytes n byte f long small)
  | no short ↦ let le : n ≤ 4 = omega arith in inl (le, decode_int32-signed bytes n byte f le)
]

-- `decode_int64` on a whole field of n bytes, whose bit count fits a guint, gives the integer
-- that its 7 * n bits write in two's complement if n is at most 9; a longer field is not
-- sign-extended, and gives the number that its groups of seven bits write, modulo 2 ^ 64.
pub decode_int64_lem :
    (bytes : Bytes) (n : ℕ)
    → IsBytes bytes
    → IsField bytes n
    → 7 * n < 2 ^ 32
    → ((n ≤ 9) × (signed 64 (decode_int64 n bytes) ≡ signed (7 * n) (groups bytes n)))
      ⊎ ((9 < n) × (decode_int64 n bytes ≡ groups bytes n % 2 ^ 64))
decode_int64_lem bytes n byte f small = elim (dec_lt 9 n) [
  | yes long ↦ inr (long, decode_int64_long bytes n byte f long small)
  | no short ↦ let le : n ≤ 9 = omega arith in inl (le, decode_int64-signed bytes n byte f le)
]
