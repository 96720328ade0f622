-- ===== src/Decode.antt =====
-- decode.c: the decoding of simple data types from bytes.
-- `const guint8* bytes` is the function that reads `bytes[i]`, so a theorem can say which reads
-- a result depends on. A `guint` or an integer result is its bit pattern.
pub mod Stop
pub mod Pmap
pub mod Unsigned
pub mod Signed
pub mod Text
pub mod Local
use fast_wireshark.Base.{
  ℕ, zero, suc, ◌+◌, ◌-◌, ◌*◌, ◌/◌, ◌%◌, ◌^◌, bit_and, bit_or, List, [], ◌∷◌, ◌++◌, ltb, ◌==◌,
  if◌then◌else◌,
}

abbrev pub Bytes : Type 0
Bytes = ℕ → ℕ

abbrev pub stop_byte : ℕ
stop_byte = 0x80

-- `~StopByte`, an `int` with every bit but bit 7 set.
abbrev pub not_stop_byte : ℕ
not_stop_byte = 0xffff_ff7f

abbrev pub n_bits_in_byte : ℕ
n_bits_in_byte = 8

-- The loop at index `i`, with `nbytes - i` rounds left.
count_loop : Bytes → ℕ → ℕ → ℕ
count_loop bytes zero i = 0
count_loop bytes (suc left) i =
    let rest = count_loop bytes left (i + 1) in
    if bit_and (bytes i) stop_byte == 0 then rest else i + 1

unfoldable pub count_stop_bit_encoded : ℕ → Bytes → ℕ
unfolding count_loop
count_stop_bit_encoded nbytes bytes = count_loop bytes nbytes 0

unfoldable pub number_decoded_bits : ℕ → ℕ
number_decoded_bits nbytes = nbytes * (n_bits_in_byte - 1) % 2 ^ 32

-- The inner loop at `j`, with `8 - j` rounds left: the entries written for one byte.
pmap_byte_loop : ℕ → ℕ → ℕ → List ℕ
pmap_byte_loop b zero j = []
pmap_byte_loop b (suc left) j = bit_and b (stop_byte / 2 ^ j) ∷ pmap_byte_loop b left (j + 1)

pmap_loop : Bytes → ℕ → ℕ → List ℕ
unfolding pmap_byte_loop
pmap_loop bytes zero i = []
pmap_loop bytes (suc left) i =
    pmap_byte_loop (bytes i) (n_bits_in_byte - 1) 1 ++ pmap_loop bytes left (i + 1)

-- What is written to `pmap_res`: a `gboolean` is an `int`, true where it is not 0.
unfoldable pub decode_pmap : ℕ → Bytes → List ℕ
unfolding pmap_loop
decode_pmap nbytes bytes = pmap_loop bytes nbytes 0

-- `n |= bytes[i]; n <<= 7` on an unsigned type of `w` bits, with `left` rounds to go.
uint_loop : ℕ → Bytes → ℕ → ℕ → ℕ → ℕ
uint_loop w bytes zero i n = n
uint_loop w bytes (suc left) i n =
    uint_loop w bytes left (i + 1) (bit_or n (bytes i) * 2 ^ (n_bits_in_byte - 1) % 2 ^ w)

decode_uint : ℕ → ℕ → Bytes → ℕ
unfolding uint_loop
decode_uint w zero bytes = 0
decode_uint w (suc last) bytes =
    bit_or (uint_loop w bytes last 0 0) (bit_and (bytes last) not_stop_byte)

unfoldable pub decode_uint32 : ℕ → Bytes → ℕ
unfolding decode_uint
decode_uint32 nbytes bytes = decode_uint 32 nbytes bytes

unfoldable pub decode_uint64 : ℕ → Bytes → ℕ
unfolding decode_uint
decode_uint64 nbytes bytes = decode_uint 64 nbytes bytes

-- `~0 << nbits` on a signed type of `w` bits, as a bit pattern.
abbrev pub sign_mask : ℕ → ℕ → ℕ
sign_mask w nbits = 2 ^ w - 2 ^ nbits

-- The sign extension that follows the unsigned decoding `n`.
sign_extend : ℕ → ℕ → Bytes → ℕ → ℕ
sign_extend w nbytes bytes n =
    let nbits = number_decoded_bits nbytes in
    if bit_and (bytes 0) (stop_byte / 2) == 0
    then n
    else (if ltb nbits w then bit_or n (sign_mask w nbits) else n)

unfoldable pub decode_int32 : ℕ → Bytes → ℕ
unfolding decode_uint32 sign_extend number_decoded_bits
decode_int32 zero bytes = 0
decode_int32 (suc last) bytes = sign_extend 32 (suc last) bytes (decode_uint32 (suc last) bytes)

unfoldable pub decode_int64 : ℕ → Bytes → ℕ
unfolding decode_uint64 sign_extend number_decoded_bits
decode_int64 zero bytes = 0
decode_int64 (suc last) bytes = sign_extend 64 (suc last) bytes (decode_uint64 (suc last) bytes)

-- `memcpy` of `n` bytes from index `i` on.
unfoldable pub copy_from : Bytes → ℕ → ℕ → List ℕ
copy_from bytes zero i = []
copy_from bytes (suc n) i = bytes i ∷ copy_from bytes n (i + 1)

-- The `nbytes` bytes written to `str`; the last one loses its stop bit.
unfoldable pub decode_ascii_string : ℕ → Bytes → List ℕ
unfolding copy_from
decode_ascii_string zero bytes = []
decode_ascii_string (suc last) bytes =
    copy_from bytes last 0 ++ (bit_and (bytes last) not_stop_byte ∷ [])

unfoldable pub decode_byte_vector : ℕ → Bytes → List ℕ
unfolding copy_from
decode_byte_vector nbytes bytes = copy_from bytes nbytes 0
