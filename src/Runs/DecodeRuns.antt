-- ===== src/Runs/DecodeRuns.antt =====
-- The decoding theorems on bytes of a packet.
use fast_wireshark.Base.{
  ◌<◌, ◌≤◌, ◌⊎◌, ℕ, ◌%◌, ◌^◌, ◌≡◌, refl, List, [], ◌∷◌, map, length, true, false, arith,
}
use fast_wireshark.Base.Bits.{true_below}
use fast_wireshark.Base.Int.{signed}
use fast_wireshark.Decode.{
  count_stop_bit_encoded, number_decoded_bits, decode_pmap, decode_uint32, decode_uint64,
  decode_int32, decode_int64, decode_ascii_string, decode_byte_vector,
}
use fast_wireshark.Decode.Stop.{
  IsBytes, IsField, Counted, groups, count_stop_bit_encoded-Counted, count_stop_bit_encoded-IsField,
}
use fast_wireshark.Decode.Pmap.{is_set, decode_pmap_lem}
use fast_wireshark.Decode.Unsigned.{decode_uint-groups}
use fast_wireshark.Decode.Signed.{decode_int32_lem, decode_int64_lem}
use fast_wireshark.Decode.Local.{decode-Agree}
use fast_wireshark.Runs.Data.{from, from-IsBytes, check-IsField, check-Agree}

-- The FAST specification's 942755, and a field of five and of ten bytes.
abbrev number : List ℕ
number = 57 ∷ 69 ∷ 163 ∷ []

abbrev five : List ℕ
five = 1 ∷ 2 ∷ 3 ∷ 4 ∷ 133 ∷ []

abbrev ten : List ℕ
ten = 0 ∷ 1 ∷ 2 ∷ 3 ∷ 4 ∷ 5 ∷ 6 ∷ 7 ∷ 8 ∷ 137 ∷ []

number-IsBytes : IsBytes (from number)
number-IsBytes = from-IsBytes number refl

number-IsField : IsField (from number) 3
unfolding true_below
number-IsField = check-IsField (from number) 3 (omega arith) refl refl

five-IsField : IsField (from five) 5
unfolding true_below
five-IsField = check-IsField (from five) 5 (omega arith) refl refl

ten-IsField : IsField (from ten) 10
unfolding true_below
ten-IsField = check-IsField (from ten) 10 (omega arith) refl refl

number_read : decode_uint32 3 (from number) ≡ 942755
unfolding decode_uint32
number_read = refl

count_stop_bit_encoded-Counted_example :
    Counted (from number) 5 0 (count_stop_bit_encoded 5 (from number))
count_stop_bit_encoded-Counted_example =
    count_stop_bit_encoded-Counted (from number) number-IsBytes 5

count_stop_bit_encoded-IsField_example : count_stop_bit_encoded 5 (from number) ≡ 3
count_stop_bit_encoded-IsField_example =
    count_stop_bit_encoded-IsField (from number) 5 3 number-IsBytes number-IsField (omega arith)

decode_pmap_lem_example :
    (map is_set (decode_pmap 1 (from (192 ∷ [])))
      ≡ true ∷ false ∷ false ∷ false ∷ false ∷ false ∷ false ∷ [])
    × (length (decode_pmap 1 (from (192 ∷ []))) ≡ number_decoded_bits 1)
decode_pmap_lem_example =
    decode_pmap_lem (from (192 ∷ [])) 1 (from-IsBytes (192 ∷ []) refl) (omega arith)

decode_uint-groups_example :
    (decode_uint32 3 (from number) ≡ groups (from number) 3 % 2 ^ 32)
    × (decode_uint64 3 (from number) ≡ groups (from number) 3 % 2 ^ 64)
decode_uint-groups_example = decode_uint-groups (from number) 3 number-IsBytes number-IsField

-- Two packets that differ behind the field.
abbrev followed : List ℕ
followed = 57 ∷ 69 ∷ 163 ∷ 77 ∷ []

decode-Agree_example :
    (decode_uint32 3 (from number) ≡ decode_uint32 3 (from followed))
    × (decode_uint64 3 (from number) ≡ decode_uint64 3 (from followed))
    × (decode_int32 3 (from number) ≡ decode_int32 3 (from followed))
    × (decode_int64 3 (from number) ≡ decode_int64 3 (from followed))
    × (decode_pmap 3 (from number) ≡ decode_pmap 3 (from followed))
    × (decode_ascii_string 3 (from number) ≡ decode_ascii_string 3 (from followed))
    × (decode_byte_vector 3 (from number) ≡ decode_byte_vector 3 (from followed))
unfolding true_below
decode-Agree_example =
    decode-Agree 3 (from number) (from followed) (check-Agree 3 (from number) (from followed) refl)

decode_int32_lem_example :
    ((5 ≤ 4) × (signed 32 (decode_int32 5 (from five)) ≡ signed 35 (groups (from five) 5)))
    ⊎ ((4 < 5) × (decode_int32 5 (from five) ≡ groups (from five) 5 % 2 ^ 32))
decode_int32_lem_example =
    decode_int32_lem (from five) 5 (from-IsBytes five refl) five-IsField (omega arith)

decode_int64_lem_example :
    ((3 ≤ 9) × (signed 64 (decode_int64 3 (from number)) ≡ signed 21 (groups (from number) 3)))
    ⊎ ((9 < 3) × (decode_int64 3 (from number) ≡ groups (from number) 3 % 2 ^ 64))
decode_int64_lem_example =
    decode_int64_lem (from number) 3 number-IsBytes number-IsField (omega arith)
