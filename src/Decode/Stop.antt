-- ===== src/Decode/Stop.antt =====
-- `count_stop_bit_encoded`, and the words in which a stop bit encoded field is described.
use fast_wireshark.Base.{
  ℕ, zero, suc, ◌+◌, ◌-◌, ◌*◌, ◌/◌, ◌%◌, ◌≤◌, ◌<◌, ◌≡◌, ◌≢◌, refl, bit_and, ◌==◌, ==_iff, true,
  Bool-cases, inl, inr, arith,
}
use native.Mathlib.Decide.{dec_lt, ℕ_discrete}
use fast_wireshark.Base.Bits.{true_below, true_below_lem}
use fast_wireshark.Decode.{Bytes, stop_byte, not_stop_byte, count_loop, count_stop_bit_encoded}

-- Every read gives a byte.
abbrev pub IsBytes : Bytes → Type 0
IsBytes bytes = (i : ℕ) → bytes i < 256

-- The field takes the first `n` bytes: the last of them has the stop bit, those before it have not.
pub record IsField (bytes : Bytes) (n : ℕ) : Type 0 where
  pub nonempty : 0 < n
  pub inner : (i : ℕ) → suc i < n → bytes i < 128
  pub last : 128 ≤ bytes (n - 1)

-- The number that the groups of seven bits of the first `n` bytes write, highest group first.
abbrev pub groups : Bytes → ℕ → ℕ
groups bytes zero = 0
groups bytes (suc n) = groups bytes n * 128 + bytes n % 128

stop_bit_table : true_below 256 (λ b. bit_and b 0x80 == b / 128 * 128) ≡ true
unfolding true_below
stop_bit_table = refl

pub stop_bit : (b : ℕ) → b < 256 → bit_and b 0x80 ≡ b / 128 * 128
stop_bit b h = (==_iff _ _).0 (true_below_lem 256 _ b stop_bit_table h)

low_group_table : true_below 256 (λ b. bit_and b 0xffff_ff7f == b % 128) ≡ true
unfolding true_below
low_group_table = refl

pub low_group : (b : ℕ) → b < 256 → bit_and b not_stop_byte ≡ b % 128
low_group b h = (==_iff _ _).0 (true_below_lem 256 _ b low_group_table h)

-- What the loop at `i` returns, with `left` bytes still to look at.
pub record Counted (bytes : Bytes) (left i k : ℕ) : Type 0 where
  pub bounded : k ≤ i + left
  pub past : k ≢ 0 → i < k
  pub skipped : (j : ℕ) → i ≤ j → suc j < k → bytes j < 128
  pub stopped : k ≢ 0 → 128 ≤ bytes (k - 1)
  pub overrun : k ≡ 0 → (j : ℕ) → i ≤ j → j < i + left → bytes j < 128

module _ (bytes : Bytes) (byte : IsBytes bytes) where
  Counted-here : (left i : ℕ) → 128 ≤ bytes i → Counted bytes (suc left) i (i + 1)
  Counted-here left i h = record {
    bounded = omega arith;
    past = λ _. omega arith;
    skipped = λ j p q. absurd (omega arith);
    stopped = λ _. let e : i ≡ i + 1 - 1 = omega arith in rw (← e) h;
    overrun = λ e. absurd (omega arith);
  }

  Counted-later :
      (left i k : ℕ) → bytes i < 128 → Counted bytes left (i + 1) k → Counted bytes (suc left) i k
  Counted-later left i k h c = record {
    bounded = omega (arith, c.bounded);
    past = λ ne. omega (arith, c.past ne);
    skipped = λ j p q. ground (arith, c.skipped j, c.past);
    stopped = c.stopped;
    overrun = λ e j p q. ground (arith, c.overrun e j);
  }

  count_loop-Counted : (left i : ℕ) → Counted bytes left i (count_loop bytes left i)
  unfolding count_loop
  count_loop-Counted zero i = record {
    bounded = omega arith;
    past = λ ne. absurd (ne refl);
    skipped = λ j p q. absurd (omega arith);
    stopped = λ ne. absurd (ne refl);
    overrun = λ e j p q. absurd (omega arith);
  }
  count_loop-Counted (suc left) i = elim (Bool-cases (bit_and (bytes i) stop_byte == 0)) [
    | inl unset ↦ rw unset (
        Counted-later left i _ (ground (arith, stop_bit (bytes i) (byte i)))
          (count_loop-Counted left (i + 1)))
    | inr isset ↦ rw isset (Counted-here left i (ground (arith, stop_bit (bytes i) (byte i))))
  ]

  -- What `count_stop_bit_encoded` returns on bytes: a number that is at most the bytes given,
  -- and is zero only if none of them has the stop bit; else the last byte that it counts has the
  -- stop bit, and those before it have not.
  pub count_stop_bit_encoded-Counted :
      (nbytes : ℕ) → Counted bytes nbytes 0 (count_stop_bit_encoded nbytes bytes)
  unfolding count_stop_bit_encoded
  count_stop_bit_encoded-Counted nbytes = count_loop-Counted nbytes 0

Counted-field : {bytes : Bytes} {n k l : ℕ} → IsField bytes l → l ≤ n → Counted bytes n 0 k → k ≡ l
Counted-field {bytes} {n} {k} {l} f h c = elim (dec_lt k l) [
  | yes lt ↦ elim (ℕ_discrete k 0) [
    | yes e ↦
        absurd
          (omega (arith, c.overrun e (l - 1) (omega arith) (omega (arith, f.nonempty)), f.last))
    | no ne ↦ absurd (omega (arith, c.stopped ne, f.inner (k - 1) (omega arith)))
  ]
  | no ge ↦ elim (dec_lt l k) [
    | yes lt ↦ absurd (
        omega
          (arith, f.last, f.nonempty, c.skipped (l - 1) (omega arith) (omega (arith, f.nonempty))))
    | no le ↦ omega arith
  ]
]

-- Where a field of l bytes stands whole among the bytes given, `count_stop_bit_encoded` returns
-- l.
pub count_stop_bit_encoded-IsField :
    (bytes : Bytes) (n l : ℕ)
    → IsBytes bytes
    → IsField bytes l
    → l ≤ n
    → count_stop_bit_encoded n bytes ≡ l
count_stop_bit_encoded-IsField bytes n l byte f h =
    Counted-field f h (count_stop_bit_encoded-Counted bytes byte n)
