-- ===== src/Dissect/Text.antt =====
-- dissect.c: the dissection of strings and byte vectors.
use fast_wireshark.Base.{
  ℕ, ◌+◌, ◌-◌, ◌*◌, ◌/◌, ◌%◌, ◌^◌, Bool, true, false, not, ◌&&◌, ◌||◌, List, [], ◌∷◌, ◌++◌, Option,
  none, some, ltb, ◌==◌, if◌then◌else◌,
}
use fast_wireshark.Decode.{decode_byte_vector}
use fast_wireshark.Field.{FieldOperatorIdentifier, Word, Machine, raw, buffer, u32, u64, read_from}
use fast_wireshark.Position.{
  FieldData, bytes_at, shift_bytes, err_d, basic_dissect_int32, basic_dissect_int64,
  basic_dissect_ascii_string,
}
use fast_wireshark.Template.{FieldType}
use fast_wireshark.Dissect.Node.{Store, Field, is_error, save}

-- What an operator makes of a string field: a value that the stream is to give, or none.
pub data TextOp : Type 0 where
  bail_out read_it combine nothing : TextOp

unfoldable pub text_op : FieldOperatorIdentifier → TextOp
text_op FieldOperatorIdentifier.constant = bail_out
text_op FieldOperatorIdentifier.copy = read_it
text_op FieldOperatorIdentifier.default = read_it
text_op FieldOperatorIdentifier.no_operator = read_it
text_op FieldOperatorIdentifier.delta = combine
text_op FieldOperatorIdentifier.tail = combine
text_op _ = nothing

-- The new string: the input in front of the previous value without its first `cut` bytes, or
-- behind it without its last ones. `keep` is the number of bytes kept.
unfoldable pub splice : Machine → Bool → Word → ℕ → ℕ → Word → ℕ → List ℕ
unfolding read_from
splice m to_front input input_len cut previous keep =
    if to_front
    then read_from m input 0 input_len ++ read_from m previous cut keep
    else read_from m previous 0 keep ++ read_from m input 0 input_len

-- A sized value at its place in the union, with the terminator behind its bytes.
abbrev pub sized : FieldData → ℕ → List ℕ → FieldData
sized fdata n bytes = record {
  start = fdata.start;
  nbytes = fdata.nbytes;
  status = fdata.status;
  value = record {
    word = fdata.value.word / 2 ^ 32 * 2 ^ 32 + n;
    second = buffer (bytes ++ (0 ∷ []));
  };
}

module _ (m : Machine) (junk : FieldData) {S : Type 0} (st : Store S) where
  -- Whether the value is still to be read, and the field. `subtract` is a gint32.
  unfoldable pub dissect_ascii_delta : FieldType → Field S → Bool × Field S
  unfolding basic_dissect_int32 basic_dissect_ascii_string err_d splice is_error
  dissect_ascii_delta ftype c =
      let (position1, temp) = basic_dissect_int32 m c.position junk in
      let subtract = u32 temp.value in
      let (found, lookup, s') = st.get ftype junk c.store in
      let (position2, input_str) = basic_dissect_ascii_string m position1 junk in
      let to_front = not (ltb subtract (2 ^ 31)) in
      let cut = if to_front then 2 ^ 32 - 1 - subtract else subtract in
      let previous = u32 lookup.value in
      let short = not (ltb previous (2 ^ 31)) || ltb previous cut in
      let keep = previous - cut in
      let input_len = u32 input_str.value in
      let text = splice m to_front input_str.value.second input_len cut lookup.value.second keep in
      let failed = record c { position = position2; fdata = err_d 7 c.fdata; store = s' } in
      if not found
      then (true, record c { position = position1; store = s' })
      else (if ltb 5 temp.nbytes || temp.nbytes == 5 && is_error temp.status || short
          then (false, failed)
          else (
            false,
            record c {
              position = position2;
              fdata = sized c.fdata ((keep + input_len) % 2 ^ 32) text;
              store = s';
            },
          ))

  unfoldable pub dissect_ascii_string : FieldType → Field S → Field S
  unfolding text_op basic_dissect_ascii_string
  dissect_ascii_string ftype c =
      let (again, c') = dissect_ascii_delta ftype c in
      let read = λ (d : Field S).
        let (p, f) = basic_dissect_ascii_string m d.position d.fdata in
        record d { position = p; fdata = f } in
      elim (text_op ftype.op) [
        | bail_out ↦ c
        | read_it ↦ save st ftype (read c)
        | combine ↦ save st ftype (if again then read c' else c')
        | nothing ↦ save st ftype c
      ]

  -- The length field, and as many bytes: they are copied and passed over whether or not the packet
  -- has them. A length of 2 ^ 32 - 1 allocates nothing, and copies nothing.
  unfoldable pub read_vector : (Field S → Field S) → Field S → Field S
  unfolding decode_byte_vector shift_bytes
  read_vector length_node c =
      let c' = length_node c in
      let n = u32 c'.fdata.value in
      let bytes = decode_byte_vector n (bytes_at m c'.position) in
      record c' {
        position = shift_bytes (record c'.position { offjmp = n });
        fdata = record {
          start = c'.fdata.start;
          nbytes = c'.fdata.nbytes;
          status = c'.fdata.status;
          value = record {
            word = c'.fdata.value.word;
            second = if n + 1 == 2 ^ 32 then raw 0 else buffer (bytes ++ (0 ∷ []));
          };
        };
      }

  -- `subtract` is a gint64. Where the previous value is too short the code goes on with the
  -- emptied values, and copies a negative number of bytes.
  unfoldable pub vector_delta : (Field S → Field S) → FieldType → Field S → Bool × Field S
  unfolding basic_dissect_int64 read_vector err_d splice
  vector_delta length_node ftype c =
      let (position1, temp) = basic_dissect_int64 m c.position junk in
      let subtract = u64 temp.value in
      let (found, lookup, s') = st.get ftype junk c.store in
      let c1 = read_vector length_node (record c { position = position1; store = s' }) in
      let input_len = u32 c1.fdata.value in
      let to_front = not (ltb subtract (2 ^ 63)) in
      let cut = if to_front then 2 ^ 64 - 1 - subtract else subtract in
      let previous = u32 lookup.value in
      let keep = previous - cut in
      let text = splice m to_front c1.fdata.value.second input_len cut lookup.value.second keep in
      if not found
      then (true, record c { position = position1; store = s' })
      else (if ltb previous cut
          then (false, record c1 { fdata = err_d 7 c1.fdata; fault = true })
          else (false, record c1 { fdata = sized c1.fdata ((keep + input_len) % 2 ^ 32) text }))

  unfoldable pub dissect_byte_vector : Option (Field S → Field S) → FieldType → Field S → Field S
  unfolding text_op vector_delta read_vector
  dissect_byte_vector none ftype c = c
  dissect_byte_vector (some length_node) ftype c =
      let (again, c') = vector_delta length_node ftype c in
      elim (text_op ftype.op) [
        | bail_out ↦ c
        | read_it ↦ save st ftype (read_vector length_node c)
        | combine ↦ save st ftype (if again then read_vector length_node c' else c')
        | nothing ↦ save st ftype c
      ]
