-- ===== src/Encode/Shown.antt =====
-- The client's `encode_bit` and `encode_hex` on what the server prints.
use mathlib.Core.List.{append-nil, append_assoc}
use fast_wireshark.Base.{
  ℕ, suc, ◌+◌, ◌-◌, ◌*◌, ◌/◌, ◌%◌, ◌^◌, ◌<◌, ◌≡◌, refl, sym, ap, ◌∙◌, bit_or, Bool, true, ◌&&◌,
  List, [], ◌∷◌, ◌++◌, length, take, map, All, Option, some, ltb, ◌==◌, if◌then◌else◌, arith,
}
use fast_wireshark.Base.Bits.{true_below, true_below_lem}
use fast_wireshark.Encode.{digit_loop, bit_digit, hex_digit, toupper, encode_bit, encode_hex}
use fast_wireshark.Server.{bit_of, byte_bits, bytes_bits, bit_byte, nibble, hex_char, hex_byte}

bit_digit-toupper : (d : ℕ) → d < 2 → bit_digit (toupper (b'0' + d)) ≡ some d
unfolding bit_digit toupper
bit_digit-toupper d h = ground (arith, h)

-- A character that is a digit.
digit_loop-step :
    (digit : ℕ → Option ℕ) (width c d shf b : ℕ) (cs arr : List ℕ)
    → digit (toupper c) ≡ some d
    → let shf' = shf - width in
      let b' = bit_or b (d * 2 ^ shf' % 256) in
      let full = shf' == 0 in
      digit_loop digit width (c ∷ cs) shf b arr
      ≡ digit_loop digit width cs
          (if full then 8 else shf')
          (if full then 0 else b')
          (if full then arr ++ (b' ∷ []) else arr)
unfolding digit_loop
digit_loop-step digit width c d shf b cs arr h = cc (h)

digit_loop-nil :
    (digit : ℕ → Option ℕ) (width : ℕ) (arr : List ℕ) → digit_loop digit width [] 8 0 arr ≡ arr
unfolding digit_loop
digit_loop-nil digit width arr = refl

-- The bits of a byte, put together as `encode_bit` does.
abbrev together : ℕ → ℕ
together x =
    bit_or
      (bit_or
        (bit_or
          (bit_or
            (bit_or
              (bit_or (bit_or (bit_or 0 (bit_of x 0 * 2 ^ 7 % 256)) (bit_of x 1 * 2 ^ 6 % 256))
                (bit_of x 2 * 2 ^ 5 % 256))
              (bit_of x 3 * 2 ^ 4 % 256))
            (bit_of x 4 * 2 ^ 3 % 256))
          (bit_of x 5 * 2 ^ 2 % 256))
        (bit_of x 6 * 2 ^ 1 % 256))
      (bit_of x 7 * 2 ^ 0 % 256)

abbrev bits_below : ℕ → Bool
bits_below x =
    ltb (bit_of x 0) 2
    && ltb (bit_of x 1) 2
    && ltb (bit_of x 2) 2
    && ltb (bit_of x 3) 2
    && ltb (bit_of x 4) 2
    && ltb (bit_of x 5) 2
    && ltb (bit_of x 6) 2
    && ltb (bit_of x 7) 2

all_together : true_below 256 (λ x. (together x == x) && bits_below x) ≡ true
unfolding true_below
all_together = refl

-- The eight digits of a byte append it.
digit_loop-bits :
    (x : ℕ) (cs arr : List ℕ)
    → x < 256
    → digit_loop bit_digit 1 (take 8 (byte_bits 0 x) ++ cs) 8 0 arr
      ≡ digit_loop bit_digit 1 cs 8 0 (arr ++ (x ∷ []))
unfolding byte_bits
digit_loop-bits x cs arr h =
    let checked = true_below_lem 256 (λ y. (together y == y) && bits_below y) x all_together h in
    let value : together x ≡ x = ground (arith, checked) in
    let digit0 = bit_digit-toupper (bit_of x 0) (ground (arith, checked)) in
    let digit1 = bit_digit-toupper (bit_of x 1) (ground (arith, checked)) in
    let digit2 = bit_digit-toupper (bit_of x 2) (ground (arith, checked)) in
    let digit3 = bit_digit-toupper (bit_of x 3) (ground (arith, checked)) in
    let digit4 = bit_digit-toupper (bit_of x 4) (ground (arith, checked)) in
    let digit5 = bit_digit-toupper (bit_of x 5) (ground (arith, checked)) in
    let digit6 = bit_digit-toupper (bit_of x 6) (ground (arith, checked)) in
    let digit7 = bit_digit-toupper (bit_of x 7) (ground (arith, checked)) in
    digit_loop-step bit_digit 1 (b'0' + bit_of x 0) (bit_of x 0) 8 0 _ arr digit0
    ∙ digit_loop-step bit_digit 1 (b'0' + bit_of x 1) (bit_of x 1) 7 _ _ arr digit1
    ∙ digit_loop-step bit_digit 1 (b'0' + bit_of x 2) (bit_of x 2) 6 _ _ arr digit2
    ∙ digit_loop-step bit_digit 1 (b'0' + bit_of x 3) (bit_of x 3) 5 _ _ arr digit3
    ∙ digit_loop-step bit_digit 1 (b'0' + bit_of x 4) (bit_of x 4) 4 _ _ arr digit4
    ∙ digit_loop-step bit_digit 1 (b'0' + bit_of x 5) (bit_of x 5) 3 _ _ arr digit5
    ∙ digit_loop-step bit_digit 1 (b'0' + bit_of x 6) (bit_of x 6) 2 _ _ arr digit6
    ∙ digit_loop-step bit_digit 1 (b'0' + bit_of x 7) (bit_of x 7) 1 _ cs arr digit7
    ∙ ap (λ y. digit_loop bit_digit 1 cs 8 0 (arr ++ (y ∷ []))) value

digit_loop-separator :
    (i : ℕ) (cs arr : List ℕ)
    → digit_loop bit_digit 1 ((if i % 4 == 3 then b'\n' else b' ') ∷ cs) 8 0 arr
      ≡ digit_loop bit_digit 1 cs 8 0 arr
unfolding digit_loop bit_digit toupper
digit_loop-separator i cs arr = ground arith

digit_loop-bytes_bits :
    (i x : ℕ) (buf arr : List ℕ)
    → All (λ y. y < 256) (x ∷ buf)
    → digit_loop bit_digit 1 (take (9 * length (x ∷ buf) - 1) (bytes_bits i (x ∷ buf))) 8 0 arr
      ≡ arr ++ (x ∷ buf)
unfolding bytes_bits byte_bits
digit_loop-bytes_bits i x [] arr (h, hs) =
    digit_loop-bits x [] arr h ∙ digit_loop-nil bit_digit 1 (arr ++ (x ∷ []))
digit_loop-bytes_bits i x (y ∷ ys) arr (h, hs) =
    let n = 9 * length (y ∷ ys) - 1 in
    let count : 9 * length (x ∷ y ∷ ys) - 1
        ≡ suc (suc (suc (suc (suc (suc (suc (suc (suc n)))))))) =
      omega arith in
    let rest = take n (bytes_bits (suc i) (y ∷ ys)) in
    rw count (
      digit_loop-bits x ((if i % 4 == 3 then b'\n' else b' ') ∷ rest) arr h
      ∙ digit_loop-separator i rest (arr ++ (x ∷ []))
      ∙ digit_loop-bytes_bits (suc i) y ys (arr ++ (x ∷ [])) hs
      ∙ append_assoc arr (x ∷ []) (y ∷ ys))

-- The text of bits that the server prints for one byte or more is read back by the client's
-- `encode_bit`, which appends the bytes that were printed.
pub encode_bit-bit_byte :
    (x : ℕ) (buf arr : List ℕ)
    → All (λ y. y < 256) (x ∷ buf)
    → (text : List ℕ) × ((bit_byte (x ∷ buf) ≡ some text)
        × (encode_bit text arr ≡ arr ++ (x ∷ buf)))
unfolding bit_byte encode_bit
encode_bit-bit_byte x buf arr h = (
  take (9 * length (x ∷ buf) - 1) (bytes_bits 0 (x ∷ buf)),
  (refl, digit_loop-bytes_bits 0 x buf arr h),
)

hex_digit-toupper : (d : ℕ) → d < 16 → hex_digit (toupper (hex_char d)) ≡ some d
unfolding hex_digit toupper
hex_digit-toupper d h = ground (arith, h)

-- What the two digits of a byte denote: the second one is shifted by one bit, not by four.
abbrev pub denoted : ℕ → ℕ
denoted x = x / 16 * 16 + x / 8 % 16

abbrev nibbles : ℕ → Bool
nibbles x =
    (bit_or (bit_or 0 (nibble x 0 * 2 ^ 4 % 256)) (nibble x 1 * 2 ^ 0 % 256) == denoted x)
    && ltb (nibble x 0) 16
    && ltb (nibble x 1) 16

all_nibbles : true_below 256 nibbles ≡ true
unfolding true_below
all_nibbles = refl

digit_loop-hex_byte :
    (buf arr : List ℕ)
    → All (λ y. y < 256) buf
    → digit_loop hex_digit 4 (hex_byte buf) 8 0 arr ≡ arr ++ map denoted buf
unfolding hex_byte
digit_loop-hex_byte [] arr h = digit_loop-nil hex_digit 4 arr ∙ sym (append-nil arr)
digit_loop-hex_byte (x ∷ buf) arr (h, hs) =
    let checked = true_below_lem 256 nibbles x all_nibbles h in
    let digit0 = hex_digit-toupper (nibble x 0) (ground (arith, checked)) in
    let digit1 = hex_digit-toupper (nibble x 1) (ground (arith, checked)) in
    let value : bit_or (bit_or 0 (nibble x 0 * 2 ^ 4 % 256)) (nibble x 1 * 2 ^ 0 % 256)
        ≡ denoted x =
      ground (arith, checked) in
    digit_loop-step hex_digit 4 (hex_char (nibble x 0)) (nibble x 0) 8 0 _ arr digit0
    ∙ digit_loop-step hex_digit 4 (hex_char (nibble x 1)) (nibble x 1) 4 _ (hex_byte buf) arr digit1
    ∙ ap (λ y. digit_loop hex_digit 4 (hex_byte buf) 8 0 (arr ++ (y ∷ []))) value
    ∙ digit_loop-hex_byte buf (arr ++ (denoted x ∷ [])) hs
    ∙ append_assoc arr (denoted x ∷ []) (map denoted buf)

-- The text that `hex_byte` makes does not denote the bytes: read back by the client's
-- `encode_hex`, each byte x gives the byte with the high digit of x and, as the low digit, the
-- bits 3 to 6 of x.
pub encode_hex-hex_byte :
    (buf arr : List ℕ)
    → All (λ y. y < 256) buf
    → encode_hex (hex_byte buf) arr ≡ arr ++ map denoted buf
unfolding encode_hex
encode_hex-hex_byte buf arr h = digit_loop-hex_byte buf arr h
