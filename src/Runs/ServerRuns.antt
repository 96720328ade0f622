-- ===== src/Runs/ServerRuns.antt =====
-- Two bytes, as the server prints them.
use fast_wireshark.Base.{◌≡◌, refl, List, [], ◌∷◌, ◌++◌, ℕ, map, some, arith}
use fast_wireshark.Encode.{encode_bit, encode_hex}
use fast_wireshark.Encode.Shown.{encode_bit-bit_byte, encode_hex-hex_byte, denoted}
use fast_wireshark.Server.{bit_byte, hex_byte}

abbrev received : List ℕ
received = 0x97 ∷ 0x0c ∷ []

encode_bit-bit_byte_example :
    (text : List ℕ) × ((bit_byte received ≡ some text) × (encode_bit text [] ≡ [] ++ received))
encode_bit-bit_byte_example =
    encode_bit-bit_byte 0x97 (0x0c ∷ []) [] (omega arith, (omega arith, tt))

-- The second byte is printed as `01`.
encode_hex-hex_byte_example : encode_hex (hex_byte received) [] ≡ [] ++ map denoted received
encode_hex-hex_byte_example = encode_hex-hex_byte received [] (omega arith, (omega arith, tt))

second_digit : hex_byte received ≡ b'9' ∷ b'2' ∷ b'0' ∷ b'1' ∷ []
unfolding hex_byte
second_digit = refl
