-- ===== src/Encode.antt =====
-- util/client/encode.c: the encoding of simple data types, with which the client builds messages.
-- A GByteArray is the list of its bytes, and `g_byte_array_append` adds at its end.
-- `none` is no value of the code: it writes outside its buffer, or it exits.
pub mod Field
pub mod Written
pub mod Unsigned
pub mod Signed
pub mod SignedBack
pub mod Ascii
pub mod PmapLoop
pub mod Pmap
pub mod Shown
use mathlib.Core.Option
use fast_wireshark.Base.{
  ℕ, zero, suc, ◌+◌, ◌-◌, ◌*◌, ◌/◌, ◌%◌, ◌^◌, bit_and, bit_or, Bool, true, false, not, ◌&&◌, ◌||◌,
  List, [], ◌∷◌, ◌++◌, length, get_or, set, take, Option, none, some, ltb, leb, ◌==◌, if◌then◌else◌,
}

-- The loop of `encode_pmap` over the entries that are left: the array, the index of its last byte
-- and the mask.
pmap_loop : List ℕ → ℕ → ℕ → List ℕ → List ℕ × ℕ
pmap_loop [] i mask a = (a, i)
pmap_loop (p ∷ ps) i mask a =
    let full = mask == 0 in
    let a' = if full then a ++ (0 ∷ []) else a in
    let i' = if full then i + 1 else i in
    let mask' : ℕ = if full then 64 else mask in
    pmap_loop ps i' (mask' / 2) (if p == 0 then a' else set a' i' (bit_or (get_or a' i' 0) mask'))

unfoldable pub encode_pmap : List ℕ → List ℕ → List ℕ
unfolding pmap_loop
encode_pmap pmap a =
    let (a', i) = pmap_loop pmap (length a) 64 (a ++ (0 ∷ [])) in
    set a' i (bit_or (get_or a' i 0) 128)

-- `buf[maxc -1] |= 0x80`, where the list is `buf[i..maxc)`.
unfoldable pub mark_last : List ℕ → List ℕ
mark_last [] = []
mark_last (b ∷ []) = bit_or b 0x80 ∷ []
mark_last (b ∷ c ∷ bs) = b ∷ mark_last (c ∷ bs)

-- `maxc`: the bytes of `buf` that the loops may fill, from the back.
abbrev pub maxc : ℕ
maxc = 9

-- The loop of `encode_uint64` with `buf[i..maxc)` in `out`. At `i == 0` the next `--i` gives -1,
-- and the write goes outside `buf`.
uint_loop : ℕ → ℕ → List ℕ → Option (List ℕ)
uint_loop zero x out = none
uint_loop (suc i) x out =
    let out' = bit_and x 0x7f ∷ out in
    let x' = x / 2 ^ 7 in let rest = uint_loop i x' out' in if x' == 0 then some out' else rest

unfoldable pub encode_uint64 : ℕ → List ℕ → Option (List ℕ)
unfolding uint_loop mark_last
encode_uint64 x arr = Option.map (λ out. arr ++ mark_last out) (uint_loop maxc x [])

unfoldable pub encode_uint32 : ℕ → List ℕ → Option (List ℕ)
unfolding encode_uint64
encode_uint32 x arr = encode_uint64 x arr

-- `x >> k` on a gint64, which copies the sign bit.
abbrev pub shift_right : ℕ → ℕ → ℕ
shift_right x k = if ltb x (2 ^ 63) then x / 2 ^ k else x / 2 ^ k + (2 ^ 64 - 2 ^ (64 - k))

-- The loop of `encode_int64`. There `i` is unsigned: at 0, `--i` wraps round, and the write goes
-- outside `buf` too.
int_loop : ℕ → ℕ → List ℕ → Option (List ℕ)
int_loop zero x out = none
int_loop (suc i) x out =
    let out' = bit_and x 0x7f ∷ out in
    let x' = shift_right x 6 in
    let rest = int_loop i (shift_right x' 1) out' in
    if x' == 0 || x' == 2 ^ 64 - 1 then some out' else rest

unfoldable pub encode_int64 : ℕ → List ℕ → Option (List ℕ)
unfolding int_loop mark_last
encode_int64 x arr = Option.map (λ out. arr ++ mark_last out) (int_loop maxc x [])

-- The conversion of a gint32 to a gint64.
abbrev pub widen : ℕ → ℕ
widen x = if ltb x (2 ^ 31) then x else x + (2 ^ 64 - 2 ^ 32)

unfoldable pub encode_int32 : ℕ → List ℕ → Option (List ℕ)
unfolding encode_int64
encode_int32 x arr = encode_int64 (widen x) arr

-- `str` holds the bytes before the terminator. `none` is the exit on a string of length 0.
unfoldable pub encode_ascii : List ℕ → List ℕ → Option (List ℕ)
encode_ascii str arr =
    let len = length str in
    let b = bit_or (get_or str (len - 1) 0) (2 ^ 7) in
    if len == 0 then none else some ((arr ++ take (len - 1) str) ++ (b ∷ []))

unfoldable pub toupper : ℕ → ℕ
toupper c = if leb b'a' c && leb c b'z' then c - 32 else c

-- The value of a hexadecimal digit; `none` is the `continue` on another character.
unfoldable pub hex_digit : ℕ → Option ℕ
hex_digit c =
    if leb b'0' c && leb c b'9'
    then some (c - b'0')
    else (if leb b'A' c && leb c b'F' then some (c - (b'A' - 10)) else none)

unfoldable pub bit_digit : ℕ → Option ℕ
bit_digit c = if b'0' == c || b'1' == c then some (c - b'0') else none

-- The loop that `encode_hex` and `encode_bit` share, over the characters that are left: digits of
-- `width` bits are packed from the top of `b`, which is appended when full.
digit_loop : (ℕ → Option ℕ) → ℕ → List ℕ → ℕ → ℕ → List ℕ → List ℕ
digit_loop digit width [] shf b arr = if shf == 8 then arr else arr ++ (b ∷ [])
digit_loop digit width (c ∷ cs) shf b arr = elim (digit (toupper c)) [
  | none ↦ digit_loop digit width cs shf b arr
  | some d ↦
      let shf' = shf - width in
      let b' = bit_or b (d * 2 ^ shf' % 256) in
      let full = shf' == 0 in
      digit_loop digit width cs (if full then 8 else shf') (if full then 0 else b')
        (if full then arr ++ (b' ∷ []) else arr)
]

unfoldable pub encode_hex : List ℕ → List ℕ → List ℕ
unfolding digit_loop hex_digit toupper
encode_hex str arr = digit_loop hex_digit 4 str 8 0 arr

unfoldable pub encode_bit : List ℕ → List ℕ → List ℕ
unfolding digit_loop bit_digit toupper
encode_bit str arr = digit_loop bit_digit 1 str 8 0 arr

-- The length that is written counts every character, also those that `encode_hex` skips.
unfoldable pub encode_bytevec : List ℕ → List ℕ → Option (List ℕ)
unfolding encode_uint32 encode_hex
encode_bytevec str arr =
    Option.map (encode_hex str) (encode_uint32 ((length str + 1) / 2 % 2 ^ 32) arr)
