-- ===== src/Position/Bounds.antt =====
-- The tests of basic-dissect.c for dynamic error D2 against the number that a field writes.
use native.Mathlib.Nat.{pow-suc}
use fast_wireshark.Base.{
  ℕ, zero, suc, ◌+◌, ◌*◌, ◌/◌, ◌%◌, ◌^◌, ◌≤◌, ◌<◌, ◌≡◌, ◌↔◌, refl, ap, bit_and, true, ◌&&◌, ◌==◌,
  arith,
}
use fast_wireshark.Base.Bits.{true_below, true_below_lem}
use fast_wireshark.Decode.{Bytes}
use fast_wireshark.Decode.Stop.{groups}
use fast_wireshark.Position.{unsigned_overflows, signed_overflows}

-- The masks of basic-dissect.h on the first byte of a field.
masks_table :
    true_below 256 (λ b.
      (bit_and b 0x70 == b / 16 % 8 * 16)
      && (bit_and b 0x7e == b / 2 % 64 * 2)
      && (bit_and b 0x08 == b / 8 % 2 * 8)
      && (bit_and b 0x01 == b % 2))
    ≡ true
unfolding true_below
masks_table = refl

masks :
    (b : ℕ)
    → b < 256
    → (bit_and b 0x70 ≡ b / 16 % 8 * 16)
      × (bit_and b 0x7e ≡ b / 2 % 64 * 2)
      × (bit_and b 0x08 ≡ b / 8 % 2 * 8)
      × (bit_and b 0x01 ≡ b % 2)
masks b h = let t = true_below_lem 256 _ b masks_table h in ground arith

-- The number of a field against the group that it starts with.
module _ (bytes : Bytes) where
  groups_first :
      (last : ℕ)
      → (bytes 0 % 128 * 128 ^ last ≤ groups bytes (suc last))
        × (groups bytes (suc last) < (bytes 0 % 128 + 1) * 128 ^ last)
  groups_first zero = omega arith
  groups_first (suc last) =
      let h = groups_first last in
      omega (arith, h, pow-suc 128 last, ap (λ (t : ℕ). bytes 0 % 128 * t) (pow-suc 128 last))

pub uint32_fits :
    (bytes : Bytes) (n : ℕ)
    → bytes 0 < 256
    → 0 < n
    → n ≤ 5
    → (unsigned_overflows 5 0x70 n (bytes 0) ≡ true) ↔ (2 ^ 32 ≤ groups bytes n)
unfolding unsigned_overflows
uint32_fits bytes zero lt pos le = absurd (omega arith)
uint32_fits bytes (suc zero) lt pos le = ground (arith, masks (bytes 0) lt, groups_first bytes 0)
uint32_fits bytes (suc (suc zero)) lt pos le =
    ground (arith, masks (bytes 0) lt, groups_first bytes 1)
uint32_fits bytes (suc (suc (suc zero))) lt pos le =
    ground (arith, masks (bytes 0) lt, groups_first bytes 2)
uint32_fits bytes (suc (suc (suc (suc zero)))) lt pos le =
    ground (arith, masks (bytes 0) lt, groups_first bytes 3)
uint32_fits bytes (suc (suc (suc (suc (suc zero))))) lt pos le =
    ground (arith, masks (bytes 0) lt, groups_first bytes 4)
uint32_fits bytes (suc (suc (suc (suc (suc (suc n)))))) lt pos le = absurd (omega arith)

pub uint64_fits :
    (bytes : Bytes) (n : ℕ)
    → bytes 0 < 256
    → 0 < n
    → n ≤ 10
    → (unsigned_overflows 10 0x7e n (bytes 0) ≡ true) ↔ (2 ^ 64 ≤ groups bytes n)
unfolding unsigned_overflows
uint64_fits bytes zero lt pos le = absurd (omega arith)
uint64_fits bytes (suc zero) lt pos le = ground (arith, masks (bytes 0) lt, groups_first bytes 0)
uint64_fits bytes (suc (suc zero)) lt pos le =
    ground (arith, masks (bytes 0) lt, groups_first bytes 1)
uint64_fits bytes (suc (suc (suc zero))) lt pos le =
    ground (arith, masks (bytes 0) lt, groups_first bytes 2)
uint64_fits bytes (suc (suc (suc (suc zero)))) lt pos le =
    ground (arith, masks (bytes 0) lt, groups_first bytes 3)
uint64_fits bytes (suc (suc (suc (suc (suc zero))))) lt pos le =
    ground (arith, masks (bytes 0) lt, groups_first bytes 4)
uint64_fits bytes (suc (suc (suc (suc (suc (suc zero)))))) lt pos le =
    ground (arith, masks (bytes 0) lt, groups_first bytes 5)
uint64_fits bytes (suc (suc (suc (suc (suc (suc (suc zero))))))) lt pos le =
    ground (arith, masks (bytes 0) lt, groups_first bytes 6)
uint64_fits bytes (suc (suc (suc (suc (suc (suc (suc (suc zero)))))))) lt pos le =
    ground (arith, masks (bytes 0) lt, groups_first bytes 7)
uint64_fits bytes (suc (suc (suc (suc (suc (suc (suc (suc (suc zero))))))))) lt pos le =
    ground (arith, masks (bytes 0) lt, groups_first bytes 8)
uint64_fits bytes (suc (suc (suc (suc (suc (suc (suc (suc (suc (suc zero)))))))))) lt pos le =
    ground (arith, masks (bytes 0) lt, groups_first bytes 9)
uint64_fits bytes (suc (suc (suc (suc (suc (suc (suc (suc (suc (suc (suc n))))))))))) lt pos le =
    absurd (omega arith)

-- As a pattern of 7 * n bits the number is neither below 2 ^ 31 nor a negative one from
-- -2 ^ 31 on.
pub int32_fits :
    (bytes : Bytes) (n : ℕ)
    → bytes 0 < 256
    → 0 < n
    → n ≤ 5
    → (signed_overflows 5 0x08 0x70 n (bytes 0) ≡ true)
      ↔ ((2 ^ 31 ≤ groups bytes n) × (groups bytes n + 2 ^ 31 < 128 ^ n))
unfolding signed_overflows
int32_fits bytes zero lt pos le = absurd (omega arith)
int32_fits bytes (suc zero) lt pos le = ground (arith, masks (bytes 0) lt, groups_first bytes 0)
int32_fits bytes (suc (suc zero)) lt pos le =
    ground (arith, masks (bytes 0) lt, groups_first bytes 1)
int32_fits bytes (suc (suc (suc zero))) lt pos le =
    ground (arith, masks (bytes 0) lt, groups_first bytes 2)
int32_fits bytes (suc (suc (suc (suc zero)))) lt pos le =
    ground (arith, masks (bytes 0) lt, groups_first bytes 3)
int32_fits bytes (suc (suc (suc (suc (suc zero))))) lt pos le =
    ground (arith, masks (bytes 0) lt, groups_first bytes 4)
int32_fits bytes (suc (suc (suc (suc (suc (suc n)))))) lt pos le = absurd (omega arith)

-- As a pattern of 7 * n bits the number is neither below 2 ^ 63 nor a negative one from
-- -2 ^ 63 on.
pub int64_fits :
    (bytes : Bytes) (n : ℕ)
    → bytes 0 < 256
    → 0 < n
    → n ≤ 10
    → (signed_overflows 10 0x01 0x7e n (bytes 0) ≡ true)
      ↔ ((2 ^ 63 ≤ groups bytes n) × (groups bytes n + 2 ^ 63 < 128 ^ n))
unfolding signed_overflows
int64_fits bytes zero lt pos le = absurd (omega arith)
int64_fits bytes (suc zero) lt pos le = ground (arith, masks (bytes 0) lt, groups_first bytes 0)
int64_fits bytes (suc (suc zero)) lt pos le =
    ground (arith, masks (bytes 0) lt, groups_first bytes 1)
int64_fits bytes (suc (suc (suc zero))) lt pos le =
    ground (arith, masks (bytes 0) lt, groups_first bytes 2)
int64_fits bytes (suc (suc (suc (suc zero)))) lt pos le =
    ground (arith, masks (bytes 0) lt, groups_first bytes 3)
int64_fits bytes (suc (suc (suc (suc (suc zero))))) lt pos le =
    ground (arith, masks (bytes 0) lt, groups_first bytes 4)
int64_fits bytes (suc (suc (suc (suc (suc (suc zero)))))) lt pos le =
    ground (arith, masks (bytes 0) lt, groups_first bytes 5)
int64_fits bytes (suc (suc (suc (suc (suc (suc (suc zero))))))) lt pos le =
    ground (arith, masks (bytes 0) lt, groups_first bytes 6)
int64_fits bytes (suc (suc (suc (suc (suc (suc (suc (suc zero)))))))) lt pos le =
    ground (arith, masks (bytes 0) lt, groups_first bytes 7)
int64_fits bytes (suc (suc (suc (suc (suc (suc (suc (suc (suc zero))))))))) lt pos le =
    ground (arith, masks (bytes 0) lt, groups_first bytes 8)
int64_fits bytes (suc (suc (suc (suc (suc (suc (suc (suc (suc (suc zero)))))))))) lt pos le =
    ground (arith, masks (bytes 0) lt, groups_first bytes 9)
int64_fits bytes (suc (suc (suc (suc (suc (suc (suc (suc (suc (suc (suc n))))))))))) lt pos le =
    absurd (omega arith)
