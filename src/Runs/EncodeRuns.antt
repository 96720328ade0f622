-- ===== src/Runs/EncodeRuns.antt =====
-- The encoder's theorems on numbers, and what it writes for them.
use fast_wireshark.Base.{
  ◌+◌, ◌⊎◌, ℕ, ◌*◌, ◌-◌, ◌^◌, ◌≤◌, ◌<◌, ◌≡◌, refl, List, [], ◌∷◌, ◌++◌, length, All, none, some,
  arith,
}
use fast_wireshark.Base.Int.{signed}
use fast_wireshark.Decode.{
  count_stop_bit_encoded, decode_uint32, decode_uint64, decode_int32, decode_int64,
  decode_ascii_string,
}
use fast_wireshark.Encode.{
  encode_uint64, encode_uint32, encode_int64, encode_int32, encode_ascii, mark_last,
}
use fast_wireshark.Encode.Field.{IsGroup, value_from}
use fast_wireshark.Encode.Unsigned.{
  encode_uint64_lem, decode_uint64-encode_uint64, decode_uint32-encode_uint32,
}
use fast_wireshark.Encode.Signed.{encode_int64_lem}
use fast_wireshark.Encode.SignedBack.{decode_int64-encode_int64, decode_int32-encode_int32}
use fast_wireshark.Encode.Ascii.{decode_ascii_string-encode_ascii}
use fast_wireshark.Runs.Data.{from, from-IsBytes}

abbrev number : List ℕ
number = 57 ∷ 69 ∷ 163 ∷ []

-- The number, with a byte behind it.
abbrev packet : List ℕ
packet = 57 ∷ 69 ∷ 163 ∷ 1 ∷ []

-- -942755 in the groups that the FAST specification gives.
abbrev negative : List ℕ
negative = 70 ∷ 58 ∷ 221 ∷ []

encode_number : encode_uint64 942755 [] ≡ some number
unfolding encode_uint64
encode_number = refl

encode_number32 : encode_uint32 942755 [] ≡ some number
unfolding encode_uint32
encode_number32 = refl

encode_negative : encode_int64 (2 ^ 64 - 942755) [] ≡ some negative
unfolding encode_int64
encode_negative = refl

encode_negative32 : encode_int32 (2 ^ 32 - 942755) [] ≡ some negative
unfolding encode_int32
encode_negative32 = refl

decode_uint64-encode_uint64_example :
    (count_stop_bit_encoded 4 (from packet) ≡ 3) × (decode_uint64 3 (from packet) ≡ 942755)
decode_uint64-encode_uint64_example =
    decode_uint64-encode_uint64 942755 (from packet) number 4 (from-IsBytes packet refl)
      encode_number (refl, (refl, (refl, tt))) (omega arith)

decode_uint32-encode_uint32_example :
    (count_stop_bit_encoded 4 (from packet) ≡ 3) × (decode_uint32 3 (from packet) ≡ 942755)
decode_uint32-encode_uint32_example =
    decode_uint32-encode_uint32 942755 (from packet) number 4 (omega arith)
      (from-IsBytes packet refl) encode_number32 (refl, (refl, (refl, tt))) (omega arith)

decode_int64-encode_int64_example :
    (count_stop_bit_encoded 3 (from negative) ≡ 3)
    × (signed 64 (decode_int64 3 (from negative)) ≡ signed 64 (2 ^ 64 - 942755))
decode_int64-encode_int64_example =
    decode_int64-encode_int64 (2 ^ 64 - 942755) (from negative) negative 3 (omega arith)
      (from-IsBytes negative refl) encode_negative (refl, (refl, (refl, tt))) (omega arith)

decode_int32-encode_int32_example :
    (count_stop_bit_encoded 3 (from negative) ≡ 3)
    × (signed 32 (decode_int32 3 (from negative)) ≡ signed 32 (2 ^ 32 - 942755))
decode_int32-encode_int32_example =
    decode_int32-encode_int32 (2 ^ 32 - 942755) (from negative) negative 3 (omega arith)
      (from-IsBytes negative refl) encode_negative32 (refl, (refl, (refl, tt))) (omega arith)

-- "AB", and a byte behind it.
abbrev text : List ℕ
text = 65 ∷ 194 ∷ 1 ∷ []

encode_text : encode_ascii (65 ∷ 66 ∷ []) [] ≡ some (65 ∷ 194 ∷ [])
unfolding encode_ascii
encode_text = refl

decode_ascii_string-encode_ascii_example :
    (count_stop_bit_encoded 3 (from text) ≡ 2) × (decode_ascii_string 2 (from text) ≡ 65 ∷ 66 ∷ [])
decode_ascii_string-encode_ascii_example =
    decode_ascii_string-encode_ascii (65 ∷ 66 ∷ []) (from text) (65 ∷ 194 ∷ []) 3
      (omega arith, (omega arith, tt)) (from-IsBytes text refl) encode_text (refl, (refl, tt))
      (omega arith)

encode_uint64_lem_example :
    ((942755 < 2 ^ 63)
      × ((e : List ℕ) × (encode_uint64 942755 (128 ∷ []) ≡ some ((128 ∷ []) ++ mark_last e))
          × All IsGroup e
          × (value_from 0 e ≡ 942755)
          × (0 < length e)
          × (length e ≤ 9)))
    ⊎ ((2 ^ 63 ≤ 942755) × (encode_uint64 942755 (128 ∷ []) ≡ none))
encode_uint64_lem_example = encode_uint64_lem 942755 (128 ∷ [])

encode_int64_lem_example :
    (((2 ^ 64 - 942755 < 2 ^ 62) ⊎ (2 ^ 64 ≤ 2 ^ 64 - 942755 + 2 ^ 62))
      × ((e : List ℕ) × (encode_int64 (2 ^ 64 - 942755) [] ≡ some ([] ++ mark_last e))
          × All IsGroup e
          × (signed (7 * length e) (value_from 0 e) ≡ signed 64 (2 ^ 64 - 942755))
          × (0 < length e)
          × (length e ≤ 9)))
    ⊎ ((2 ^ 62 ≤ 2 ^ 64 - 942755)
        × (2 ^ 64 - 942755 + 2 ^ 62 < 2 ^ 64)
        × (encode_int64 (2 ^ 64 - 942755) [] ≡ none))
encode_int64_lem_example = encode_int64_lem (2 ^ 64 - 942755) [] (omega arith)
