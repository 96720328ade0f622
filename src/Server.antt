-- ===== src/Server.antt =====
-- util/server/server.c: the texts that the server prints for the bytes that it receives. A text is
-- the list of its characters, without the terminator.
use fast_wireshark.Base.{
  ℕ, suc, ◌+◌, ◌-◌, ◌*◌, ◌/◌, ◌%◌, ◌^◌, bit_and, List, [], ◌∷◌, ◌++◌, length, take, Option, none,
  some, ltb, ◌==◌, if◌then◌else◌,
}

-- The digit `j` of a byte, of which the shift is an `int`.
abbrev pub nibble : ℕ → ℕ → ℕ
nibble x j = bit_and (x * 2 ^ j) 0xf0 / 2 ^ 4

abbrev pub hex_char : ℕ → ℕ
hex_char x = x + (if ltb x 10 then b'0' else b'A' - 10)

-- The loop over the bytes that are left.
unfoldable pub hex_byte : List ℕ → List ℕ
hex_byte [] = []
hex_byte (x ∷ buf) = hex_char (nibble x 0) ∷ hex_char (nibble x 1) ∷ hex_byte buf

abbrev pub bit_of : ℕ → ℕ → ℕ
bit_of x j = bit_and (2 ^ 7) (x * 2 ^ j) / 2 ^ 7

-- The inner loop, with the separator behind it.
unfoldable pub byte_bits : ℕ → ℕ → List ℕ
byte_bits i x =
    (b'0' + bit_of x 0)
    ∷ (b'0' + bit_of x 1)
    ∷ (b'0' + bit_of x 2)
    ∷ (b'0' + bit_of x 3)
    ∷ (b'0' + bit_of x 4)
    ∷ (b'0' + bit_of x 5)
    ∷ (b'0' + bit_of x 6)
    ∷ (b'0' + bit_of x 7)
    ∷ (if i % 4 == 3 then b'\n' else b' ')
    ∷ []

-- The loop over the bytes from the index `i` on.
unfoldable pub bytes_bits : ℕ → List ℕ → List ℕ
unfolding byte_bits
bytes_bits i [] = []
bytes_bits i (x ∷ buf) = byte_bits i x ++ bytes_bits (suc i) buf

-- The terminator takes the place of the last separator. `none` is the write far outside `res` for
-- no bytes, where `len` wraps round.
unfoldable pub bit_byte : List ℕ → Option (List ℕ)
unfolding bytes_bits
bit_byte [] = none
bit_byte (x ∷ buf) = some (take (9 * length (x ∷ buf) - 1) (bytes_bits 0 (x ∷ buf)))
