-- ===== src/Base/Bits.antt =====
-- `|` of disjoint fields and `&` with a mask of low bits, as arithmetic, at every width.
use Prim.Native.Nat.{
  ℕ, zero, suc, ◌+◌, ◌-◌, ◌*◌, ◌/◌, ◌%◌, ◌^◌, ◌≤◌, ◌<◌, min, max, digits, bitwise,
}
use Prim.Native.Nat.{bit_and, bit_or, bit_and-bitwise, bit_or-bitwise}
use native.Mathlib.Nat.{pow-suc, one-le-pow}
use native.Mathlib.Omega.{arith}
use mathlib.Core.Bool.{Bool, true, ◌&&◌}
use mathlib.Core.Path.{◌≡◌, refl, ap}

-- Two counts of digits that are both enough give one result.
module _ (z : ℕ → ℕ) (f : ℕ → ℕ → ℕ) where
  digits_count : (m k a b : ℕ) → a ≤ m → a ≤ k → digits z f m a b ≡ digits z f k a b
  digits_count zero zero zero b p q = refl
  digits_count zero (suc k) zero b p q = refl
  digits_count (suc m) zero zero b p q = refl
  digits_count (suc m) (suc k) zero b p q = refl
  digits_count zero k (suc a) b p q = absurd (omega arith)
  digits_count (suc m) zero (suc a) b p q = absurd (omega arith)
  digits_count (suc m) (suc k) (suc a) b p q =
      ap (λ t. t * 2 + f (suc a % 2) (b % 2))
        (digits_count m k (suc a / 2) (b / 2) (omega arith) (omega arith))

  lowest_digit :
      (x y : ℕ)
      → bitwise z f (suc x) y ≡ bitwise z f (suc x / 2) (y / 2) * 2 + f (suc x % 2) (y % 2)
  lowest_digit x y =
      let fewer = digits_count x (suc x / 2) (suc x / 2) (y / 2) (omega arith) (omega arith) in
      ap (λ t. t * 2 + f (suc x % 2) (y % 2)) fewer

or_halves : (x y : ℕ) → bit_or x y ≡ bit_or (x / 2) (y / 2) * 2 + max (x % 2) (y % 2)
or_halves zero y = simp bit_or-bitwise (omega arith)
or_halves (suc x) y = simp bit_or-bitwise (lowest_digit (λ t. t) max x y)

and_halves : (x y : ℕ) → bit_and x y ≡ bit_and (x / 2) (y / 2) * 2 + min (x % 2) (y % 2)
and_halves zero y = simp bit_and-bitwise (omega arith)
and_halves (suc x) y = simp bit_and-bitwise (lowest_digit (λ t. 0) min x y)

below_half : (a n : ℕ) → a ≤ suc n → a / 2 ≤ n
below_half a n h = omega arith

or_nothing : (n a : ℕ) → a ≤ n → bit_or a 0 ≡ a
or_nothing n zero h = refl
or_nothing zero (suc a) h = absurd (omega arith)
or_nothing (suc n) (suc a) h =
    omega (arith, or_halves (suc a) 0, or_nothing n (suc a / 2) (below_half (suc a) n h))

nothing_or : (a : ℕ) → bit_or 0 a ≡ a
nothing_or a = bit_or-bitwise 0 a

and_nothing : (n a : ℕ) → a ≤ n → bit_and a 0 ≡ 0
and_nothing n zero h = refl
and_nothing zero (suc a) h = absurd (omega arith)
and_nothing (suc n) (suc a) h =
    omega (arith, and_halves (suc a) 0, and_nothing n (suc a / 2) (below_half (suc a) n h))

two_pow : (q k : ℕ) → q * 2 ^ suc k ≡ 2 * (q * 2 ^ k)
two_pow q k = omega (arith, ap (λ (t : ℕ). q * t) (pow-suc 2 k))

-- `(q << k) | r` where `r` fits below bit `k`.
pub or_low : (k q r : ℕ) → r < 2 ^ k → bit_or (q * 2 ^ k) r ≡ q * 2 ^ k + r
or_low zero q r h = ground (arith, or_nothing q q (omega arith))
or_low (suc k) q r h =
    ground (arith, or_halves (q * 2 ^ suc k) r, two_pow q k, or_low k q (r / 2) (omega arith))

-- The same with the operands the other way round.
pub or_high : (k q r : ℕ) → r < 2 ^ k → bit_or r (q * 2 ^ k) ≡ q * 2 ^ k + r
or_high zero q r h = ground (arith, nothing_or q)
or_high (suc k) q r h =
    ground (arith, or_halves r (q * 2 ^ suc k), two_pow q k, or_high k q (r / 2) (omega arith))

and_field : (k q r : ℕ) → r < 2 ^ k → bit_and (q * 2 ^ k + r) (2 ^ k - 1) ≡ r
and_field zero q r h = ground (arith, and_nothing q q (omega arith))
and_field (suc k) q r h = ground (
  arith,
  and_halves (q * 2 ^ suc k + r) (2 ^ suc k - 1),
  two_pow q k,
  pow-suc 2 k,
  one-le-pow k 2,
  and_field k q (r / 2) (omega arith),
)

-- `x & (2^k - 1)` is the remainder by `2 ^ k`.
pub and_low : (k x : ℕ) → bit_and x (2 ^ k - 1) ≡ x % 2 ^ k
and_low k x = ground (arith, one-le-pow k 2, and_field k (x / 2 ^ k) (x % 2 ^ k))

-- Whether a test holds of every number below a bound, by evaluation.
unfoldable pub true_below : ℕ → (ℕ → Bool) → Bool
true_below zero test = true
true_below (suc bound) test = test bound && true_below bound test

pub true_below_lem :
    (bound : ℕ) (test : ℕ → Bool) (i : ℕ) → true_below bound test ≡ true → i < bound → test i ≡ true
unfolding true_below
true_below_lem zero test i checked lt = absurd (omega arith)
true_below_lem (suc bound) test i checked lt = ground (true_below_lem bound test i, arith)
