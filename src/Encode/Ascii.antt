-- ===== src/Encode/Ascii.antt =====
-- Reading back what `encode_ascii` writes.
use mathlib.Core.Path.{ap₂}
use fast_wireshark.Base.{
  ℕ, suc, ◌+◌, ◌-◌, ◌≤◌, ◌<◌, ◌≡◌, refl, sym, ap, ◌∙◌, ◌==◌, false, bit_and, bit_or, List, [], ◌∷◌,
  ◌++◌, length, take, get_or, All, some, some_eq, arith,
}
use fast_wireshark.Decode.{
  Bytes, count_stop_bit_encoded, copy_from, not_stop_byte, decode_ascii_string,
}
use fast_wireshark.Decode.Stop.{IsBytes, low_group}
use fast_wireshark.Decode.Text.{Reads}
use fast_wireshark.Encode.{mark_last, encode_ascii}
use fast_wireshark.Encode.Field.{IsGroup, set_stop, length-mark_last, mark_last-FieldOf}

last_marked :
    (x : ℕ) (xs : List ℕ)
    → take (length xs) (x ∷ xs) ++ (bit_or (get_or (x ∷ xs) (length xs) 0) 0x80 ∷ [])
      ≡ mark_last (x ∷ xs)
unfolding mark_last
last_marked x [] = refl
last_marked x (y ∷ ys) = ap (λ t. x ∷ t) (last_marked y ys)

encode_ascii-mark_last :
    (x : ℕ) (xs : List ℕ) → encode_ascii (x ∷ xs) [] ≡ some (mark_last (x ∷ xs))
unfolding encode_ascii
encode_ascii-mark_last x xs =
    let nonempty : (suc (length xs) == 0) ≡ false = ground arith in
    let index : suc (length xs) - 1 ≡ length xs = omega arith in
    rw (nonempty, index) (ap some (last_marked x xs))

unmark : (x b : ℕ) → x < 128 → b ≡ bit_or x 0x80 → bit_and b not_stop_byte ≡ x
unmark x b h e =
    let marked : b ≡ x + 128 = omega (arith, e, set_stop x h) in
    omega (arith, low_group b (omega arith))

copy_marked :
    (bytes : Bytes) (x : ℕ) (xs : List ℕ) (i l : ℕ)
    → i + length xs ≡ l
    → All IsGroup (x ∷ xs)
    → Reads bytes i (mark_last (x ∷ xs))
    → copy_from bytes (length xs) i ++ (bit_and (bytes l) not_stop_byte ∷ []) ≡ x ∷ xs
unfolding mark_last copy_from
copy_marked bytes x [] i l q (h, _) (e, _) =
    let at : i ≡ l = omega arith in ap (λ t. t ∷ []) (unmark x (bytes l) h (rw (← at) e))
copy_marked bytes x (y ∷ ys) i l q (h, hs) (e, r) =
    ap₂ ◌∷◌ e (copy_marked bytes y ys (i + 1) l (omega arith) hs r)

-- The bytes that `encode_ascii` writes for a string of characters below 128 are read back, in
-- every window of bytes that holds them, whatever follows: the field ends where they end, and
-- `decode_ascii_string` gives the string.
pub decode_ascii_string-encode_ascii :
    (str : List ℕ) (bytes : Bytes) (written : List ℕ) (n : ℕ)
    → All IsGroup str
    → IsBytes bytes
    → encode_ascii str [] ≡ some written
    → Reads bytes 0 written
    → length written ≤ n
    → (count_stop_bit_encoded n bytes ≡ length written)
      × (decode_ascii_string (length written) bytes ≡ str)
unfolding decode_ascii_string
decode_ascii_string-encode_ascii [] bytes written n h byte run r fits = unfold encode_ascii in cc
decode_ascii_string-encode_ascii (x ∷ xs) bytes written n h byte run r fits =
    let same : mark_last (x ∷ xs) ≡ written = some_eq (sym (encode_ascii-mark_last x xs) ∙ run) in
    let f = mark_last-FieldOf bytes x xs byte h (rw same r) in
    let len : suc (length xs) ≡ length written = rw (← same) (sym (length-mark_last (x ∷ xs))) in
    rw (← len)
      (f.found n (omega arith), copy_marked bytes x xs 0 (length xs) (omega arith) h (rw same r))
