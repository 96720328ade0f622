-- ===== src/Decode/Unsigned.antt =====
-- `decode_uint32` and `decode_uint64` against the number that the groups of seven bits write.
use mathlib.Core.Path.{subst}
use native.Mathlib.Numerals.{add-one}
use fast_wireshark.Base.{
  ℕ, zero, suc, ◌+◌, ◌*◌, ◌/◌, ◌%◌, ◌^◌, ◌<◌, ◌≡◌, refl, bit_and, bit_or, ◌⊎◌, inl, inr, arith,
}
use fast_wireshark.Base.Bits.{or_low}
use fast_wireshark.Decode.{
  Bytes, not_stop_byte, uint_loop, decode_uint, decode_uint32, decode_uint64,
}
use fast_wireshark.Decode.Stop.{IsBytes, IsField, groups, low_group}

abbrev pub IsWidth : ℕ → Type 0
IsWidth w = (w ≡ 32) ⊎ (w ≡ 64)

or_group : (n b : ℕ) → n % 128 ≡ 0 → b < 128 → bit_or n b ≡ n + b
or_group n b e h =
    let whole : n / 128 * 2 ^ 7 ≡ n = omega arith in
    subst (λ t. bit_or t b ≡ t + b) whole (or_low 7 (n / 128) b h)

-- One round keeps the shifted value of the groups read so far.
round_step :
    (w x n b : ℕ)
    → IsWidth w
    → n ≡ x * 128 % 2 ^ w
    → b < 128
    → bit_or n b * 128 % 2 ^ w ≡ (x * 128 + b % 128) * 128 % 2 ^ w
round_step w x n b (inl e) h lt =
    let h' : n ≡ x * 128 % 2 ^ 32 = rw e at h in
    rw e (omega (arith, h', or_group n b (omega arith) lt))
round_step w x n b (inr e) h lt =
    let h' : n ≡ x * 128 % 2 ^ 64 = rw e at h in
    rw e (omega (arith, h', or_group n b (omega arith) lt))

last_step :
    (w x n b : ℕ)
    → IsWidth w
    → n ≡ x * 128 % 2 ^ w
    → b < 256
    → bit_or n (bit_and b not_stop_byte) ≡ (x * 128 + b % 128) % 2 ^ w
last_step w x n b (inl e) h lt =
    let h' : n ≡ x * 128 % 2 ^ 32 = rw e at h in
    rw e (
      omega (
        arith,
        h',
        low_group b lt,
        or_group n (bit_and b not_stop_byte) (omega arith) (omega (arith, low_group b lt)),
      ))
last_step w x n b (inr e) h lt =
    let h' : n ≡ x * 128 % 2 ^ 64 = rw e at h in
    rw e (
      omega (
        arith,
        h',
        low_group b lt,
        or_group n (bit_and b not_stop_byte) (omega arith) (omega (arith, low_group b lt)),
      ))

module _ (w : ℕ) (bytes : Bytes) (width : IsWidth w) (byte : IsBytes bytes) where
  uint_loop_lem :
      (left i j n : ℕ)
      → i + left ≡ j
      → ((k : ℕ) → k < j → bytes k < 128)
      → n ≡ groups bytes i * 128 % 2 ^ w
      → uint_loop w bytes left i n ≡ groups bytes j * 128 % 2 ^ w
  unfolding uint_loop
  uint_loop_lem zero i j n e inner h = let e' : i ≡ j = omega arith in rw (← e') h
  uint_loop_lem (suc left) i j n e inner h =
      uint_loop_lem left (i + 1) j _ (omega arith) inner
        (rw add-one (round_step w (groups bytes i) n (bytes i) width h (inner i (omega arith))))

  decode_uint_lem :
      (n : ℕ)
      → ((i : ℕ) → suc i < n → bytes i < 128)
      → decode_uint w n bytes ≡ groups bytes n % 2 ^ w
  unfolding decode_uint
  decode_uint_lem zero inner = omega arith
  decode_uint_lem (suc last) inner =
      last_step w (groups bytes last) _ (bytes last) width
        (uint_loop_lem last 0 last 0 (omega arith) (λ k h. inner k (omega arith)) (omega arith))
        (byte last)

-- `decode_uint32` on a whole field gives the number that its groups of seven bits write, modulo
-- 2 ^ 32.
pub decode_uint32-groups :
    (bytes : Bytes) (n : ℕ)
    → IsBytes bytes
    → IsField bytes n
    → decode_uint32 n bytes ≡ groups bytes n % 2 ^ 32
unfolding decode_uint32
decode_uint32-groups bytes n byte f = decode_uint_lem 32 bytes (inl refl) byte n f.inner

-- `decode_uint64` on a whole field gives the number that its groups of seven bits write, modulo
-- 2 ^ 64.
pub decode_uint64-groups :
    (bytes : Bytes) (n : ℕ)
    → IsBytes bytes
    → IsField bytes n
    → decode_uint64 n bytes ≡ groups bytes n % 2 ^ 64
unfolding decode_uint64
decode_uint64-groups bytes n byte f = decode_uint_lem 64 bytes (inr refl) byte n f.inner

-- `decode_uint32` and `decode_uint64` on a whole field give the number that its groups of seven
-- bits write, modulo 2 ^ 32 and modulo 2 ^ 64.
pub decode_uint-groups :
    (bytes : Bytes) (n : ℕ)
    → IsBytes bytes
    → IsField bytes n
    → (decode_uint32 n bytes ≡ groups bytes n % 2 ^ 32)
      × (decode_uint64 n bytes ≡ groups bytes n % 2 ^ 64)
decode_uint-groups bytes n byte f =
    (decode_uint32-groups bytes n byte f, decode_uint64-groups bytes n byte f)
