-- ===== src/Encode/Signed.antt =====
-- `encode_int64` and `encode_int32`: what they write, where they overrun, and the way back.
use mathlib.Core.List.{append-nil}
use mathlib.Core.Path.{subst}
use native.Mathlib.Decide.{dec_le, dec_lt}
use native.Mathlib.Nat.{pow-suc, one-le-pow}
use fast_wireshark.Base.{
  ℕ, zero, suc, ◌+◌, ◌-◌, ◌*◌, ◌%◌, ◌^◌, ◌≤◌, ◌<◌, ◌≡◌, refl, ap, bit_and, List, [], ◌∷◌, ◌++◌,
  length, All, none, some, ◌==◌, ◌||◌, Bool, true, false, Bool-cases, ◌⊎◌, inl, inr, arith,
}
use fast_wireshark.Base.Bits.{and_low}
use fast_wireshark.Base.Int.{signed}
use fast_wireshark.Encode.{mark_last, shift_right, int_loop, encode_int64}
use fast_wireshark.Encode.Field.{IsGroup, value_from}
use fast_wireshark.Encode.Written.{Written, Written-round}

-- The number `v` of `suc m` groups is, in two's complement, the gint64 with the pattern `x`.
abbrev pub SignedNumber : ℕ → ℕ → ℕ → Type 0
SignedNumber x m v =
    (x < 2 ^ 63 × v ≡ x × v < 64 * 128 ^ m)
    ⊎ (2 ^ 63 ≤ x × x < 2 ^ 64 × v + 2 ^ 64 ≡ x + 128 * 128 ^ m × 64 * 128 ^ m ≤ v)

-- The pattern's number needs no more than `suc i` groups.
abbrev pub Fits : ℕ → ℕ → Type 0
Fits i x = (x < 64 * 128 ^ i) ⊎ (2 ^ 64 ≤ x + 64 * 128 ^ i)

low : (x : ℕ) → bit_and x 0x7f ≡ x % 128
low x = and_low 7 x

-- The two shifts of one round make an arithmetic shift by 7.
abbrev next : ℕ → ℕ
next x = shift_right (shift_right x 6) 1

int_step :
    (x m v : ℕ)
    → x < 2 ^ 64
    → SignedNumber (next x) m v
    → SignedNumber x (suc m) (v * 128 + bit_and x 0x7f)
int_step x m v h s = ground (arith, low x, pow-suc 128 m)

int_stop :
    (x : ℕ)
    → x < 2 ^ 64
    → (shift_right x 6 == 0 || shift_right x 6 == 2 ^ 64 - 1) ≡ true
    → SignedNumber x 0 (bit_and x 0x7f)
int_stop x h e = ground (arith, low x)

int_more : (i x : ℕ) → x < 2 ^ 64 → Fits (suc i) x → Fits i (next x)
int_more i x h f = ground (arith, pow-suc 128 i)

int_first :
    (x : ℕ) → x < 2 ^ 64 → Fits 0 x → (shift_right x 6 == 0 || shift_right x 6 == 2 ^ 64 - 1) ≡ true
int_first x h f = ground arith

next_lt : (x : ℕ) → x < 2 ^ 64 → next x < 2 ^ 64
next_lt x h = ground arith

abbrev stops : ℕ → Bool
stops x = shift_right x 6 == 0 || shift_right x 6 == 2 ^ 64 - 1

one_group :
    (i x : ℕ) (out : List ℕ)
    → x < 2 ^ 64
    → stops x ≡ true
    → Written (SignedNumber x) (suc i) out (some (bit_and x 0x7f ∷ out))
one_group i x out h e = record {
  first = bit_and x 0x7f;
  others = [];
  returns = refl;
  all_groups = (omega (arith, low x), tt);
  number =
      let same : bit_and x 0x7f ≡ 0 * 128 + bit_and x 0x7f % 128 = omega (arith, low x) in
      subst (SignedNumber x 0) same (int_stop x h e);
  short = omega arith;
}

int_loop-Written :
    (i x : ℕ) (out : List ℕ)
    → x < 2 ^ 64
    → Fits i x
    → Written (SignedNumber x) (suc i) out (int_loop (suc i) x out)
unfolding int_loop
int_loop-Written zero x out h f = rw (int_first x h f) (one_group 0 x out h (int_first x h f))
int_loop-Written (suc i) x out h f = elim (Bool-cases (stops x)) [
  | inl done ↦ rw done (one_group (suc i) x out h done)
  | inr more ↦ rw more (
      Written-round (SignedNumber (next x)) (SignedNumber x) (suc i) (bit_and x 0x7f) out _
        (λ m v s. int_step x m v h s) (omega (arith, low x))
        (int_loop-Written i (next x) (bit_and x 0x7f ∷ out) (next_lt x h) (int_more i x h f)))
]

not_yet : (i x : ℕ) → x < 2 ^ 64 → 64 * 128 ^ i ≤ x → x + 64 * 128 ^ i < 2 ^ 64 → (stops x ≡ false)
not_yet i x h lo hi = ground (arith, one-le-pow i 128)

int_loop_overrun :
    (i x : ℕ) (out : List ℕ)
    → x < 2 ^ 64
    → 64 * 128 ^ i ≤ x
    → x + 64 * 128 ^ i < 2 ^ 64
    → int_loop (suc i) x out ≡ none
unfolding int_loop
int_loop_overrun zero x out h lo hi = rw (not_yet 0 x h lo hi)
int_loop_overrun (suc i) x out h lo hi = rw (not_yet (suc i) x h lo hi) (
    int_loop_overrun i (next x) (bit_and x 0x7f ∷ out) (next_lt x h) (ground (arith, pow-suc 128 i))
      (ground (arith, pow-suc 128 i)))

-- The same said by `signed`, for a number of at most nine groups.
signed_of_number :
    (m x v : ℕ) → x < 2 ^ 64 → m < 9 → SignedNumber x m v → signed (7 * suc m) v ≡ signed 64 x
signed_of_number zero x v h small s = ground arith
signed_of_number (suc zero) x v h small s = ground arith
signed_of_number (suc (suc zero)) x v h small s = ground arith
signed_of_number (suc (suc (suc zero))) x v h small s = ground arith
signed_of_number (suc (suc (suc (suc zero)))) x v h small s = ground arith
signed_of_number (suc (suc (suc (suc (suc zero))))) x v h small s = ground arith
signed_of_number (suc (suc (suc (suc (suc (suc zero)))))) x v h small s = ground arith
signed_of_number (suc (suc (suc (suc (suc (suc (suc zero))))))) x v h small s = ground arith
signed_of_number (suc (suc (suc (suc (suc (suc (suc (suc zero)))))))) x v h small s = ground arith
signed_of_number (suc (suc (suc (suc (suc (suc (suc (suc (suc m))))))))) x v h small s =
    absurd (omega arith)

-- `encode_int64` on an integer from -2 ^ 62 to 2 ^ 62 - 1 ends and appends 1 to 9 bytes: groups
-- of seven bits that write the integer in two's complement, the last of them with the stop bit.
pub encode_int64_total :
    (x : ℕ) (arr : List ℕ)
    → x < 2 ^ 64
    → (x < 2 ^ 62) ⊎ (2 ^ 64 ≤ x + 2 ^ 62)
    → (e : List ℕ) × (encode_int64 x arr ≡ some (arr ++ mark_last e))
      × All IsGroup e
      × (signed (7 * length e) (value_from 0 e) ≡ signed 64 x)
      × (0 < length e)
      × (length e ≤ 9)
unfolding encode_int64
encode_int64_total x arr h range =
    let w = int_loop-Written 8 x [] h (ground arith) in
    (
      w.first ∷ w.others,
      rw w.returns (ap (λ t. some (arr ++ mark_last t)) (append-nil (w.first ∷ w.others))),
      w.all_groups,
      signed_of_number (length w.others) x _ h w.short w.number,
      omega arith,
      w.short,
    )

-- `encode_int64` on a 64-bit integer below -2 ^ 62 or from 2 ^ 62 on writes its tenth group
-- outside the buffer, where the model has no result.
pub encode_int64_overrun :
    (x : ℕ) (arr : List ℕ) → 2 ^ 62 ≤ x → x + 2 ^ 62 < 2 ^ 64 → encode_int64 x arr ≡ none
unfolding encode_int64
encode_int64_overrun x arr lo hi =
    rw (int_loop_overrun 8 x [] (omega arith) (omega arith) (omega arith))

-- So what it writes with no overrun comes from the range above.
pub encode_int64_range :
    (x : ℕ) {written : List ℕ}
    → x < 2 ^ 64
    → encode_int64 x [] ≡ some written
    → (x < 2 ^ 62) ⊎ (2 ^ 64 ≤ x + 2 ^ 62)
encode_int64_range x h run = elim (dec_lt x (2 ^ 62)) [
  | yes lt ↦ inl lt
  | no ge ↦ elim (dec_le (2 ^ 64) (x + 2 ^ 62)) [
    | yes le ↦ inr le
    | no gt ↦ absurd (cc (encode_int64_overrun x [] (omega arith) (omega arith)))
  ]
]

-- `encode_int64` on a 64-bit pattern ends in one of two ways: for an integer from -2 ^ 62 to 2 ^
-- 62 - 1 it appends 1 to 9 bytes, groups of seven bits that write the integer in two's
-- complement, the last of them with the stop bit; and for every other integer it writes its
-- tenth group outside the buffer, where the model has no result.
pub encode_int64_lem :
    (x : ℕ) (arr : List ℕ)
    → x < 2 ^ 64
    → (((x < 2 ^ 62) ⊎ (2 ^ 64 ≤ x + 2 ^ 62))
        × ((e : List ℕ) × (encode_int64 x arr ≡ some (arr ++ mark_last e))
            × All IsGroup e
            × (signed (7 * length e) (value_from 0 e) ≡ signed 64 x)
            × (0 < length e)
            × (length e ≤ 9)))
      ⊎ ((2 ^ 62 ≤ x) × (x + 2 ^ 62 < 2 ^ 64) × (encode_int64 x arr ≡ none))
encode_int64_lem x arr bound = elim (dec_lt x (2 ^ 62)) [
  | yes lt ↦ inl (inl lt, encode_int64_total x arr bound (inl lt))
  | no ge ↦ elim (dec_le (2 ^ 64) (x + 2 ^ 62)) [
    | yes le ↦ inl (inr le, encode_int64_total x arr bound (inr le))
    | no gt ↦
        let lo : 2 ^ 62 ≤ x = omega arith in
        let hi : x + 2 ^ 62 < 2 ^ 64 = omega arith in inr (lo, hi, encode_int64_overrun x arr lo hi)
  ]
]
