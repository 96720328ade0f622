-- ===== src/Field/Conversion.antt =====
-- basic-field.c: the values of operators in a template, from text.
-- A C string is the list of its bytes, without the terminator.
use fast_wireshark.Base.{
  ℕ, ◌+◌, ◌-◌, ◌*◌, ◌/◌, ◌%◌, ◌^◌, bit_or, Bool, true, false, not, ◌&&◌, ◌||◌, List, [], ◌∷◌, ◌++◌,
  length, take, drop, Option, none, some, ltb, leb, ◌==◌, if◌then◌else◌,
}
use fast_wireshark.Field.{
  FieldTypeIdentifier, FieldValue, buffer, Machine, set_u32, set_u64, set_exponent,
}

-- What the routines take from GLib and the C library: the readers of decimal numbers, as 64-bit
-- patterns and, for `atoi`, a 32-bit pattern, and the tests on characters. `xdigit_value` is `none`
-- for -1.
pub record Glib : Type 0 where
  pub strtoull : List ℕ → ℕ
  pub strtoll : List ℕ → ℕ
  pub atoi : List ℕ → ℕ
  pub isdigit : ℕ → Bool
  pub xdigit_value : ℕ → Option ℕ

module _ (g : Glib) where
  unfoldable pub is_number : List ℕ → Bool
  is_number [] = true
  is_number (c ∷ cs) =
      let rest = is_number cs in if not (g.isdigit c) && not (c == b'-') then false else rest

  -- The loop of `string_to_decimal_value` from index `i`: the index of the last digit that is not a
  -- zero and that of the dot, or `none` where the text is refused. `left` and `start` are set by the
  -- code and not used.
  unfoldable pub decimal_loop : ℕ → List ℕ → ℕ → ℕ → ℕ → Option (ℕ × ℕ)
  decimal_loop len [] i right dot = some (right, dot)
  decimal_loop len (c ∷ cs) i right dot =
      let skip = decimal_loop len cs (i + 1) right dot in
      let found_dot = decimal_loop len cs (i + 1) right i in
      let found_digit = decimal_loop len cs (i + 1) (if ltb right i then i else right) dot in
      if c == b'-' || c == b'+' || c == b'0'
      then skip
      else (if c == b'.'
          then (if dot == len then found_dot else none)
          else (if g.isdigit c then found_digit else none))

  -- The text that is left of `buf` when the digits behind the dot were moved over it and the end
  -- was set, and the index of its last digit. `right` is an `unsigned`.
  abbrev pub without_dot : List ℕ → ℕ → ℕ → List ℕ × ℕ
  without_dot buf right dot =
      if leb dot right
      then (
        take dot buf ++ (take (right - dot) (drop (dot + 1) buf) ++ drop right buf),
        (right + 2 ^ 32 - 1) % 2 ^ 32,
      )
      else (buf, right)

  unfoldable pub string_to_decimal_value : Machine → List ℕ → FieldValue → Bool × FieldValue
  unfolding decimal_loop
  string_to_decimal_value m str value = elim (decimal_loop (length str) str 0 0 (length str)) [
    | none ↦ (false, value)
    | some (right, dot) ↦
        let (buf, right') = without_dot str right dot in
        let mantissa = g.strtoll (take ((1 + right') % 2 ^ 32) buf) in
        let exponent = (dot + 2 ^ 32 - 1 + (2 ^ 32 - right')) % 2 ^ 32 in
        (true, set_u64 (set_exponent m value (if mantissa == 0 then 0 else exponent)) mantissa)
  ]

  -- The loop over pairs of digits: the bytes written, and whether all were digits. The pair that is
  -- refused gives a zero.
  unfoldable pub hex_loop : List ℕ → Bool × List ℕ
  hex_loop [] = (true, [])
  hex_loop (c ∷ []) = (true, [])
  hex_loop (c ∷ d ∷ cs) =
      let rest = hex_loop cs in
      elim (g.xdigit_value c) [
        | none ↦ (false, 0 ∷ [])
        | some nibble1 ↦ elim (g.xdigit_value d) [
          | none ↦ (false, 0 ∷ [])
          | some nibble2 ↦ (rest.0, (bit_or (nibble1 * 2 ^ 4) nibble2 % 256) ∷ rest.1)
        ]
      ]

  -- A size, and a pointer to a buffer that starts with these bytes.
  abbrev pub set_sized : FieldValue → ℕ → List ℕ → FieldValue
  set_sized value n bytes = record {
    word = value.word / 2 ^ 32 * 2 ^ 32 + n % 2 ^ 32;
    second = buffer bytes;
  }

  -- The result, and the value with what was written to it.
  unfoldable pub string_to_field_value :
      Machine → List ℕ → FieldTypeIdentifier → FieldValue → Bool × FieldValue
  unfolding is_number string_to_decimal_value hex_loop
  string_to_field_value m str FieldTypeIdentifier.uint32 value =
      if is_number str then (true, set_u32 value (g.atoi str)) else (false, value)
  string_to_field_value m str FieldTypeIdentifier.int32 value =
      if is_number str then (true, set_u32 value (g.atoi str)) else (false, value)
  string_to_field_value m str FieldTypeIdentifier.uint64 value =
      if is_number str then (true, set_u64 value (g.strtoull str)) else (false, value)
  string_to_field_value m str FieldTypeIdentifier.int64 value =
      if is_number str then (true, set_u64 value (g.strtoll str)) else (false, value)
  string_to_field_value m str FieldTypeIdentifier.decimal value =
      string_to_decimal_value m str value
  string_to_field_value m str FieldTypeIdentifier.ascii_string value =
      (true, set_sized value (length str) (str ++ (0 ∷ [])))
  string_to_field_value m str FieldTypeIdentifier.unicode_string value =
      (true, set_sized value (length str) (str ++ (0 ∷ [])))
  string_to_field_value m str FieldTypeIdentifier.byte_vector value =
      let (valid, bytes) = hex_loop str in (valid, set_sized value (length str / 2) bytes)
  string_to_field_value m str _ value = (false, value)
