-- ===== src/Position.antt =====
-- basic-dissect.c and basic-dissect.h: the position in the packet and the primitive readers.
pub mod Window
pub mod Readers
pub mod Bounds
pub mod Overflow
pub mod Integers
use Prim.Native.Char.{code}
use Prim.Native.String.{String}
use fast_wireshark.Base.{
  ℕ, zero, suc, ◌+◌, ◌-◌, ◌*◌, ◌/◌, ◌%◌, ◌^◌, bit_and, Bool, true, false, not, ◌&&◌, List, [], ◌∷◌,
  ◌++◌, length, get_or, Option, none, some, ltb, leb, ◌==◌, if◌then◌else◌,
}
use fast_wireshark.Decode.{Bytes, count_stop_bit_encoded, number_decoded_bits, decode_pmap}
use fast_wireshark.Decode.{decode_uint32, decode_uint64, decode_int32, decode_int64}
use fast_wireshark.Decode.{decode_ascii_string}
use fast_wireshark.Field.{Machine, FieldValue, buffer, u32, set_u32, set_u64}

pub data FieldStatus : Type 0 where
  exists empty undefined error : FieldStatus

pub record FieldData : Type 0 where
  pub start : ℕ
  pub nbytes : ℕ
  pub status : FieldStatus
  pub value : FieldValue

-- `bytes` is an address; `pmap` is the decoded presence map, or the null pointer.
pub record DissectPosition : Type 0 where
  pub offjmp : ℕ
  pub offset : ℕ
  pub nbytes : ℕ
  pub bytes : ℕ
  pub pmap_len : ℕ
  pub pmap_idx : ℕ
  pub pmap : Option (List ℕ)

-- `position->bytes[i]`.
abbrev pub bytes_at : Machine → DissectPosition → Bytes
bytes_at m p i = m.mem (p.bytes + i)

abbrev pub codes : String → List ℕ
codes String.[] = 0 ∷ []
codes (String.◌∷◌ c s) = code c ∷ codes s

-- `string_err_d[err_no - 1]`, with the terminator. The entries past the ninth are null, and no
-- call asks for one.
unfoldable pub string_err_d : ℕ → List ℕ
string_err_d err_no =
    get_or
      (codes "[ERR D1] "
        ∷ codes "[ERR D2] Integer does not fall within the bounds of the specified type"
        ∷ codes "[ERR D3] "
        ∷ codes "[ERR D4] Retrieved differently typed value from dictionary"
        ∷ codes "[ERR D5] Mandatory field not present, undefined previous value"
        ∷ codes "[ERR D6] Mandatory field not present, empty previous value"
        ∷ codes "[ERR D7] Invalid subtraction length"
        ∷ codes "[ERR D8] "
        ∷ codes "[ERR D9] Template does not exist"
        ∷ [])
      (err_no - 1) []

-- The text goes where `value.ascii.bytes` is; the rest of the value stays.
unfoldable pub err_d : ℕ → FieldData → FieldData
err_d err_no fdata = record {
  start = fdata.start;
  nbytes = fdata.nbytes;
  status = error;
  value = record { word = fdata.value.word; second = buffer (string_err_d err_no) };
}

-- `ShiftBuffer`: the unsigned counters wrap.
unfoldable pub shift_bytes : DissectPosition → DissectPosition
shift_bytes p = record p {
  offset = (p.offset + p.offjmp) % 2 ^ 32;
  nbytes = (p.nbytes + 2 ^ 32 - p.offjmp) % 2 ^ 32;
  bytes = p.bytes + p.offjmp;
  offjmp = 0;
}

-- `position->pmap[i]`, read only at `i < pmap_len`.
abbrev pub pmap_entry : DissectPosition → ℕ → ℕ
pmap_entry p i = elim p.pmap [ none ↦ 0 | some bits ↦ get_or bits i 0 ]

unfoldable pub dissect_shift_pmap : DissectPosition → ℕ × DissectPosition
dissect_shift_pmap p =
    if leb p.pmap_len p.pmap_idx
    then (0, p)
    else (pmap_entry p p.pmap_idx, record p { pmap_idx = p.pmap_idx + 1 })

unfoldable pub dissect_peek_pmap : DissectPosition → ℕ
dissect_peek_pmap p = if leb p.pmap_len p.pmap_idx then 0 else pmap_entry p p.pmap_idx

unfoldable pub dissect_shift_null : Machine → DissectPosition → Bool × DissectPosition
unfolding shift_bytes
dissect_shift_null m p =
    if ltb 0 p.nbytes && m.mem p.bytes == 0x80
    then (true, shift_bytes (record p { offjmp = 1 }))
    else (false, p)

-- The bytes up to the stop bit become the jump.
unfoldable pub find_field : Machine → DissectPosition → DissectPosition
find_field m p = record p { offjmp = count_stop_bit_encoded p.nbytes (bytes_at m p) }

unfoldable pub basic_dissect_pmap : Machine → DissectPosition → DissectPosition
unfolding find_field shift_bytes
basic_dissect_pmap m parent =
    let p = find_field m (record parent { pmap_len = 0; pmap_idx = 0; pmap = none }) in
    let len = number_decoded_bits p.offjmp in
    if len == 0
    then p
    else shift_bytes
        (record p { pmap_len = len; pmap = some (decode_pmap p.offjmp (bytes_at m p)) })

abbrev pub int32_sign_bit : ℕ
int32_sign_bit = 0x08

abbrev pub int64_sign_bit : ℕ
int64_sign_bit = 0x01

abbrev pub int32_extra_bits : ℕ
int32_extra_bits = 0x70

abbrev pub int64_extra_bits : ℕ
int64_extra_bits = 0x7e

abbrev pub int32_max_bytes : ℕ
int32_max_bytes = 5

abbrev pub int64_max_bytes : ℕ
int64_max_bytes = 10

-- The test for ERR D2 on an unsigned field of `n` bytes that starts with `first`.
unfoldable pub unsigned_overflows : ℕ → ℕ → ℕ → ℕ → Bool
unsigned_overflows max_bytes extra_bits n first =
    if n == max_bytes then ltb 0 (bit_and first extra_bits) else ltb max_bytes n

-- The test for ERR D2 on a signed field: the bits above the sign bit must repeat it.
unfoldable pub signed_overflows : ℕ → ℕ → ℕ → ℕ → ℕ → Bool
signed_overflows max_bytes sign_bit extra_bits n first =
    if n == max_bytes
    then (if bit_and first sign_bit == sign_bit
        then not (bit_and first extra_bits == extra_bits)
        else not (bit_and first extra_bits == 0))
    else ltb max_bytes n

abbrev pub check_d2 : Bool → FieldData → FieldData
check_d2 overflows fdata = if overflows then err_d 2 fdata else fdata

unfoldable pub basic_dissect_uint32 :
    Machine → DissectPosition → FieldData → DissectPosition × FieldData
unfolding find_field shift_bytes err_d unsigned_overflows
basic_dissect_uint32 m position fdata =
    let p = find_field m position in
    let n = p.offjmp in
    let value = set_u32 fdata.value (decode_uint32 n (bytes_at m p)) in
    (
      shift_bytes p,
      check_d2 (unsigned_overflows int32_max_bytes int32_extra_bits n (bytes_at m p 0))
          (record fdata { nbytes = n; value = value }),
    )

unfoldable pub basic_dissect_uint64 :
    Machine → DissectPosition → FieldData → DissectPosition × FieldData
unfolding find_field shift_bytes err_d unsigned_overflows
basic_dissect_uint64 m position fdata =
    let p = find_field m position in
    let n = p.offjmp in
    let value = set_u64 fdata.value (decode_uint64 n (bytes_at m p)) in
    (
      shift_bytes p,
      check_d2 (unsigned_overflows int64_max_bytes int64_extra_bits n (bytes_at m p 0))
          (record fdata { nbytes = n; value = value }),
    )

unfoldable pub basic_dissect_int32 :
    Machine → DissectPosition → FieldData → DissectPosition × FieldData
unfolding find_field shift_bytes err_d signed_overflows
basic_dissect_int32 m position fdata =
    let p = find_field m position in
    let n = p.offjmp in
    let value = set_u32 fdata.value (decode_int32 n (bytes_at m p)) in
    (
      shift_bytes p,
      check_d2 (signed_overflows int32_max_bytes int32_sign_bit int32_extra_bits n (bytes_at m p 0))
          (record fdata { nbytes = n; value = value }),
    )

unfoldable pub basic_dissect_int64 :
    Machine → DissectPosition → FieldData → DissectPosition × FieldData
unfolding find_field shift_bytes err_d signed_overflows
basic_dissect_int64 m position fdata =
    let p = find_field m position in
    let n = p.offjmp in
    let value = set_u64 fdata.value (decode_int64 n (bytes_at m p)) in
    (
      shift_bytes p,
      check_d2 (signed_overflows int64_max_bytes int64_sign_bit int64_extra_bits n (bytes_at m p 0))
          (record fdata { nbytes = n; value = value }),
    )

-- The C library's `strlen`, on a list with the terminator.
unfoldable pub strlen : List ℕ → ℕ
strlen [] = 0
strlen (b ∷ bs) = if b == 0 then 0 else suc (strlen bs)

unfoldable pub basic_dissect_ascii_string :
    Machine → DissectPosition → FieldData → DissectPosition × FieldData
unfolding find_field shift_bytes strlen
basic_dissect_ascii_string m position fdata =
    let p = find_field m position in
    let bytes = decode_ascii_string p.offjmp (bytes_at m p) ++ (0 ∷ []) in
    (
      shift_bytes p,
      record fdata {
        nbytes = p.offjmp;
        value = record {
          word = fdata.value.word / 2 ^ 32 * 2 ^ 32 + strlen bytes;
          second = buffer bytes;
        };
      },
    )
