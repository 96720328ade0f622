-- ===== src/Runs/Data.antt =====
-- Packets as lists of bytes, and what makes one a sequence of bytes or a field.
use fast_wireshark.Base.{
  ℕ, zero, suc, ◌-◌, ◌<◌, ◌≡◌, Bool, true, ◌&&◌, List, [], ◌∷◌, get_or, ltb, leb, ◌==◌, none, arith,
}
use fast_wireshark.Base.Bits.{true_below, true_below_lem}
use fast_wireshark.Decode.{Bytes}
use fast_wireshark.Decode.Stop.{IsBytes, IsField}
use fast_wireshark.Decode.Local.{Agree}
use fast_wireshark.Field.{Machine, FieldValue, raw}
use fast_wireshark.Position.{DissectPosition, FieldData, exists}

-- The bytes of a list, and zeros behind it.
abbrev pub from : List ℕ → Bytes
from xs i = get_or xs i 0

abbrev pub all_bytes : List ℕ → Bool
all_bytes [] = true
all_bytes (x ∷ xs) = ltb x 256 && all_bytes xs

pub from-IsBytes : (xs : List ℕ) → all_bytes xs ≡ true → IsBytes (from xs)
from-IsBytes [] h i = omega arith
from-IsBytes (x ∷ xs) h zero = ground arith
from-IsBytes (x ∷ xs) h (suc i) = from-IsBytes xs (ground arith) i

pub check-IsField :
    (f : Bytes) (n : ℕ)
    → 0 < n
    → true_below (n - 1) (λ i. ltb (f i) 128) ≡ true
    → leb 128 (f (n - 1)) ≡ true
    → IsField f n
check-IsField f n pos inner last = record {
  nonempty = pos;
  inner = λ i lt.
      let h = true_below_lem (n - 1) (λ j. ltb (f j) 128) i inner (omega arith) in ground arith;
  last = ground arith;
}

pub check-Agree : (n : ℕ) (f g : Bytes) → true_below n (λ i. f i == g i) ≡ true → Agree n f g
check-Agree n f g h i lt = let e = true_below_lem n (λ j. f j == g j) i h lt in ground arith

abbrev pub no_value : FieldValue
no_value = record { word = 0; second = raw 0 }

abbrev pub machine : List ℕ → Machine
machine xs = record { mem = from xs; address = λ bs. 0; behind = λ i. 0; fresh = no_value }

-- The position at the start of a packet of `n` bytes.
abbrev pub start : ℕ → DissectPosition
start n = record {
  offjmp = 0;
  offset = 0;
  nbytes = n;
  bytes = 0;
  pmap_len = 0;
  pmap_idx = 0;
  pmap = none;
}

abbrev pub blank : FieldData
blank = record { start = 0; nbytes = 0; status = exists; value = no_value }
