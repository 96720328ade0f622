-- ===== src/Field.antt =====
-- basic-field.c and basic-field.h: the types, operators and values of fields.
-- A FieldValue is a union. It is kept as its two machine words (64-bit, little endian), so that a
-- member that is read after another one was written gives what the code sees.
pub mod Conversion
use fast_wireshark.Base.{ℕ, zero, suc, ◌+◌, ◌*◌, ◌/◌, ◌%◌, ◌^◌, List, [], ◌∷◌, get_or}

pub data FieldTypeIdentifier : Type 0 where
  uint32 uint64 int32 int64 decimal ascii_string unicode_string byte_vector : FieldTypeIdentifier
  group sequence error enum_limit invalid : FieldTypeIdentifier

-- `no_operator` is FieldOperatorNone.
pub data FieldOperatorIdentifier : Type 0 where
  no_operator constant default copy increment delta tail : FieldOperatorIdentifier
  enum_limit : FieldOperatorIdentifier

-- The second word: a number, or a pointer to an allocated buffer with these bytes.
pub data Word : Type 0 where
  raw : ℕ → Word
  buffer : List ℕ → Word

-- `word` is at offset 0 (u32, i32, u64, i64, mantissa, nbytes, pmap_exists), `second` at offset 8
-- (exponent, bytes).
pub record FieldValue : Type 0 where
  pub word : ℕ
  pub second : Word

-- What the text of the program does not determine: the memory, the addresses that the allocator
-- gives to buffers, what stands behind a buffer, and what a fresh allocation holds.
pub record Machine : Type 0 where
  pub mem : ℕ → ℕ
  pub address : List ℕ → ℕ
  pub behind : ℕ → ℕ
  pub fresh : FieldValue

-- `u32`, `i32`, `nbytes` and `pmap_exists` are the low half of the first word.
abbrev pub u32 : FieldValue → ℕ
u32 v = v.word % 2 ^ 32

abbrev pub set_u32 : FieldValue → ℕ → FieldValue
set_u32 v x = record v { word = v.word / 2 ^ 32 * 2 ^ 32 + x }

-- `u64`, `i64` and `mantissa`.
abbrev pub u64 : FieldValue → ℕ
u64 v = v.word

abbrev pub set_u64 : FieldValue → ℕ → FieldValue
set_u64 v x = record v { word = x }

abbrev pub word_bits : Machine → Word → ℕ
word_bits m (raw n) = n
word_bits m (buffer bs) = m.address bs

abbrev pub exponent : Machine → FieldValue → ℕ
exponent m v = word_bits m v.second % 2 ^ 32

abbrev pub set_exponent : Machine → FieldValue → ℕ → FieldValue
set_exponent m v x = record v { second = raw (word_bits m v.second / 2 ^ 32 * 2 ^ 32 + x) }

-- `p[i]` through the pointer `p`.
abbrev pub deref : Machine → Word → ℕ → ℕ
deref m (raw a) i = m.mem (a + i)
deref m (buffer bs) i = get_or bs i (m.behind i)

-- `n` bytes through a pointer, from index `i` on.
unfoldable pub read_from : Machine → Word → ℕ → ℕ → List ℕ
read_from m p i zero = []
read_from m p i (suc n) = deref m p i ∷ read_from m p (i + 1) n

unfoldable pub init_field_value : FieldValue → FieldValue
init_field_value value = record { word = 0; second = raw 0 }

-- The copy of a sized value: the size, and a new buffer with one byte more than it.
unfoldable pub copy_sized : Machine → FieldValue → FieldValue → FieldValue
unfolding read_from
copy_sized m src dest = record {
  word = dest.word / 2 ^ 32 * 2 ^ 32 + u32 src;
  second = buffer (read_from m src.second 0 ((1 + u32 src) % 2 ^ 32));
}

unfoldable pub copy_field_value :
    Machine → FieldTypeIdentifier → FieldValue → FieldValue → FieldValue
unfolding copy_sized
copy_field_value m uint32 src dest = src
copy_field_value m uint64 src dest = src
copy_field_value m int32 src dest = src
copy_field_value m int64 src dest = src
copy_field_value m decimal src dest = src
copy_field_value m ascii_string src dest = copy_sized m src dest
copy_field_value m unicode_string src dest = copy_sized m src dest
copy_field_value m byte_vector src dest = copy_sized m src dest
copy_field_value m _ src dest = dest

abbrev pub cleanup_sized : FieldValue → FieldValue
cleanup_sized v = record { word = v.word / 2 ^ 32 * 2 ^ 32; second = raw 0 }

unfoldable pub cleanup_field_value : FieldTypeIdentifier → FieldValue → FieldValue
cleanup_field_value ascii_string v = cleanup_sized v
cleanup_field_value unicode_string v = cleanup_sized v
cleanup_field_value byte_vector v = cleanup_sized v
cleanup_field_value _ v = v
