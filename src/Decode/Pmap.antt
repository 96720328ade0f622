-- ===== src/Decode/Pmap.antt =====
-- `decode_pmap`: which bits of the bytes the entries are.
use fast_wireshark.Base.{
  ℕ, zero, suc, ◌+◌, ◌*◌, ◌/◌, ◌%◌, ◌^◌, ◌<◌, ◌≡◌, refl, ap, ◌∙◌, ◌==◌, not, Bool, true, false,
  List, [], ◌∷◌, ◌++◌, map, length, arith,
}
use mathlib.Core.Path.{ap₂}
use mathlib.Core.List.{map-append}
use fast_wireshark.Base.Bits.{true_below, true_below_lem}
use fast_wireshark.Decode.{Bytes, pmap_byte_loop, pmap_loop, decode_pmap, number_decoded_bits}
use fast_wireshark.Decode.Stop.{IsBytes}

-- A `gboolean` as a truth value.
abbrev pub is_set : ℕ → Bool
is_set b = not (b == 0)

-- The seven low bits of a byte, highest first.
abbrev pub low_bits : ℕ → List Bool
low_bits b =
    (b / 64 % 2 == 1)
    ∷ (b / 32 % 2 == 1)
    ∷ (b / 16 % 2 == 1)
    ∷ (b / 8 % 2 == 1)
    ∷ (b / 4 % 2 == 1)
    ∷ (b / 2 % 2 == 1)
    ∷ (b % 2 == 1)
    ∷ []

-- The bits of the bytes from `i` on, `n` of them.
abbrev pub bits_of : Bytes → ℕ → ℕ → List Bool
bits_of bytes i zero = []
bits_of bytes i (suc n) = low_bits (bytes i) ++ bits_of bytes (i + 1) n

unfoldable pub same : List Bool → List Bool → Bool
same [] [] = true
same (true ∷ xs) (true ∷ ys) = same xs ys
same (false ∷ xs) (false ∷ ys) = same xs ys
same _ _ = false

pub same_sound : (xs ys : List Bool) → same xs ys ≡ true → xs ≡ ys
unfolding same
same_sound [] [] h = refl
same_sound (true ∷ xs) (true ∷ ys) h = ap (λ t. true ∷ t) (same_sound xs ys h)
same_sound (false ∷ xs) (false ∷ ys) h = ap (λ t. false ∷ t) (same_sound xs ys h)
same_sound [] (y ∷ ys) h = cc
same_sound (true ∷ xs) [] h = cc
same_sound (false ∷ xs) [] h = cc
same_sound (true ∷ xs) (false ∷ ys) h = cc
same_sound (false ∷ xs) (true ∷ ys) h = cc

bits_table : true_below 256 (λ b. same (map is_set (pmap_byte_loop b 7 1)) (low_bits b)) ≡ true
unfolding true_below same pmap_byte_loop
bits_table = refl

pmap_byte_loop-low_bits : (b : ℕ) → b < 256 → map is_set (pmap_byte_loop b 7 1) ≡ low_bits b
pmap_byte_loop-low_bits b h = same_sound _ _ (true_below_lem 256 _ b bits_table h)

pmap_loop-bits_of :
    (bytes : Bytes)
    → IsBytes bytes
    → (n i : ℕ) → map is_set (pmap_loop bytes n i) ≡ bits_of bytes i n
unfolding pmap_loop
pmap_loop-bits_of bytes byte zero i = refl
pmap_loop-bits_of bytes byte (suc n) i =
    map-append is_set (pmap_byte_loop (bytes i) 7 1) (pmap_loop bytes n (i + 1))
    ∙ ap₂ ◌++◌ (pmap_byte_loop-low_bits (bytes i) (byte i)) (pmap_loop-bits_of bytes byte n (i + 1))

-- `decode_pmap` gives the seven low bits of each byte, highest first, as truth values.
pub decode_pmap-bits_of :
    (bytes : Bytes) (n : ℕ) → IsBytes bytes → map is_set (decode_pmap n bytes) ≡ bits_of bytes 0 n
unfolding decode_pmap
decode_pmap-bits_of bytes n byte = pmap_loop-bits_of bytes byte n 0

length-pmap_loop : (bytes : Bytes) (n i : ℕ) → length (pmap_loop bytes n i) ≡ 7 * n
unfolding pmap_loop pmap_byte_loop
length-pmap_loop bytes zero i = refl
length-pmap_loop bytes (suc n) i = omega (arith, length-pmap_loop bytes n (i + 1))

-- `decode_pmap` writes exactly the number of entries that `number_decoded_bits` says, where that
-- does not wrap.
pub length-decode_pmap :
    (bytes : Bytes) (n : ℕ) → 7 * n < 2 ^ 32 → length (decode_pmap n bytes) ≡ number_decoded_bits n
unfolding decode_pmap number_decoded_bits
length-decode_pmap bytes n h = omega (arith, length-pmap_loop bytes n 0)

-- `decode_pmap` gives the seven low bits of each byte, highest first, as truth values, and
-- exactly the number of entries that `number_decoded_bits` says, where that does not wrap.
pub decode_pmap_lem :
    (bytes : Bytes) (n : ℕ)
    → IsBytes bytes
    → 7 * n < 2 ^ 32
    → (map is_set (decode_pmap n bytes) ≡ bits_of bytes 0 n)
      × (length (decode_pmap n bytes) ≡ number_decoded_bits n)
decode_pmap_lem bytes n byte h = (decode_pmap-bits_of bytes n byte, length-decode_pmap bytes n h)
