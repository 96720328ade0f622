-- ===== src/Encode/Field.antt =====
-- A stop bit encoded field as a list of bytes, and what the routines of decode.c read of it.
use native.Mathlib.Decide.{dec_lt}
use native.Mathlib.Numerals.{add-one}
use fast_wireshark.Base.{
  ℕ, suc, ◌+◌, ◌-◌, ◌*◌, ◌%◌, ◌≤◌, ◌<◌, ◌≡◌, refl, ap, ◌∙◌, bit_or, List, [], ◌∷◌, ◌++◌, length,
  All, arith,
}
use fast_wireshark.Base.Bits.{or_high}
use fast_wireshark.Decode.{Bytes, count_stop_bit_encoded}
use fast_wireshark.Decode.Stop.{IsBytes, IsField, groups, count_stop_bit_encoded-IsField}
use fast_wireshark.Decode.Text.{Reads}
use fast_wireshark.Encode.{mark_last}

abbrev pub IsGroup : ℕ → Type 0
IsGroup b = b < 128

-- The number that a list of groups of seven bits writes, behind those that count `acc`.
abbrev pub value_from : ℕ → List ℕ → ℕ
value_from acc [] = acc
value_from acc (b ∷ bs) = value_from (acc * 128 + b % 128) bs

pub value_from-append :
    (acc : ℕ) (xs ys : List ℕ) → value_from acc (xs ++ ys) ≡ value_from (value_from acc xs) ys
value_from-append acc [] ys = refl
value_from-append acc (x ∷ xs) ys = value_from-append (acc * 128 + x % 128) xs ys

pub set_stop : (b : ℕ) → b < 128 → bit_or b 0x80 ≡ b + 128
set_stop b h = omega (arith, or_high 7 1 b h)

pub value_from-mark_last :
    (acc : ℕ) (xs : List ℕ) → All IsGroup xs → value_from acc (mark_last xs) ≡ value_from acc xs
unfolding mark_last
value_from-mark_last acc [] h = refl
value_from-mark_last acc (b ∷ []) (h, _) = omega (arith, set_stop b h)
value_from-mark_last acc (b ∷ c ∷ bs) (h, hs) =
    value_from-mark_last (acc * 128 + b % 128) (c ∷ bs) hs

pub length-mark_last : (xs : List ℕ) → length (mark_last xs) ≡ length xs
unfolding mark_last
length-mark_last [] = refl
length-mark_last (b ∷ []) = refl
length-mark_last (b ∷ c ∷ bs) = ap suc (length-mark_last (c ∷ bs))

pub Reads-prefix :
    (bytes : Bytes) (xs ys : List ℕ) (i : ℕ) → Reads bytes i (xs ++ ys) → Reads bytes i xs
Reads-prefix bytes [] ys i r = tt
Reads-prefix bytes (x ∷ xs) ys i (e, r) = (e, Reads-prefix bytes xs ys (i + 1) r)

-- The groups read from `i` on continue the number of those before.
pub groups-value_from :
    (bytes : Bytes) (xs : List ℕ) (i j : ℕ)
    → Reads bytes i xs
    → i + length xs ≡ j
    → groups bytes j ≡ value_from (groups bytes i) xs
groups-value_from bytes [] i j r e = let e' : i ≡ j = omega arith in rw (← e') refl
groups-value_from bytes (x ∷ xs) i j (h, r) e =
    groups-value_from bytes xs (i + 1) j r (omega arith) ∙ rw (add-one, h) refl

-- From `i` to `l` there are groups with no stop bit, and `l` has one.
pub record Marked (bytes : Bytes) (i l : ℕ) : Type 0 where
  pub inner : (k : ℕ) → i ≤ k → k < l → bytes k < 128
  pub last : 128 ≤ bytes l

mark_last-Marked :
    (bytes : Bytes) (x : ℕ) (xs : List ℕ) (i l : ℕ)
    → i + length xs ≡ l
    → All IsGroup (x ∷ xs)
    → Reads bytes i (mark_last (x ∷ xs))
    → Marked bytes i l
unfolding mark_last
mark_last-Marked bytes x [] i l q (h, _) (e, _) = record {
  inner = λ k p q'. absurd (omega arith);
  last = let e' : i ≡ l = omega arith in rw (← e') (omega (arith, set_stop x h));
}
mark_last-Marked bytes x (y ∷ ys) i l q (h, hs) (e, r) =
    let rest = mark_last-Marked bytes y ys (i + 1) l (omega arith) hs r in
    record {
      inner = λ k p q'. elim (dec_lt i k) [
        | yes lt ↦ rest.inner k (omega arith) q'
        | no ge ↦ let e' : i ≡ k = omega arith in rw (← e') (omega arith)
      ];
      last = rest.last;
    }

-- Where the marked groups `x ∷ xs` are read, the field is theirs: it takes as many bytes, is
-- found in any window that is long enough, and writes their number.
pub record FieldOf (bytes : Bytes) (groups_list : List ℕ) : Type 0 where
  pub field : IsField bytes (length groups_list)
  pub value : groups bytes (length groups_list) ≡ value_from 0 groups_list
  pub found : (n : ℕ) → length groups_list ≤ n → count_stop_bit_encoded n bytes ≡ length groups_list

pub mark_last-FieldOf :
    (bytes : Bytes) (x : ℕ) (xs : List ℕ)
    → IsBytes bytes
    → All IsGroup (x ∷ xs)
    → Reads bytes 0 (mark_last (x ∷ xs))
    → FieldOf bytes (x ∷ xs)
mark_last-FieldOf bytes x xs byte h r = record {
  field = is_field;
  value =
      groups-value_from bytes (mark_last (x ∷ xs)) 0 (length (x ∷ xs)) r
        (omega (arith, length-mark_last (x ∷ xs)))
      ∙ value_from-mark_last 0 (x ∷ xs) h;
  found = λ n fits. count_stop_bit_encoded-IsField bytes n _ byte is_field fits;
}
  where
    marked : Marked bytes 0 (length xs)
    marked = mark_last-Marked bytes x xs 0 (length xs) (omega arith) h r

    is_field : IsField bytes (suc (length xs))
    is_field = record {
      nonempty = omega arith;
      inner = λ i p. marked.inner i (omega arith) (omega arith);
      last = let e : length xs ≡ suc (length xs) - 1 = omega arith in rw (← e) marked.last;
    }
