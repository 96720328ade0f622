-- ===== src/Dissect/Tree.antt =====
-- dissect.c: `dissect_value`, groups, sequences, and the walk along a template.
use fast_wireshark.Base.{
  ℕ, zero, suc, ◌+◌, ◌-◌, ◌%◌, ◌^◌, Bool, true, false, Option, none, some, leb, ◌==◌, if◌then◌else◌,
}
use fast_wireshark.Field.{
  FieldTypeIdentifier, FieldOperatorIdentifier, FieldValue, Machine, u32, init_field_value,
  copy_field_value,
}
use fast_wireshark.Position.{FieldData, FieldStatus, exists, empty, shift_bytes, basic_dissect_pmap}
use fast_wireshark.Template.{FieldType, TNode, TNodes, node, nil, cons, pmap_exists}
use fast_wireshark.Dissect.Node.{Store, Field, Walk, DNodes, dnode, insert_after, is_exists}
use fast_wireshark.Dissect.Operators.{dissect_copy, dissect_default}
use fast_wireshark.Dissect.Optional.{dissect_optional}
use fast_wireshark.Dissect.Numbers.{
  dissect_uint32, dissect_uint64, dissect_int32, dissect_int64, dissect_decimal,
}
use fast_wireshark.Dissect.Text.{dissect_ascii_string, dissect_byte_vector}

module _ (m : Machine) (junk : FieldData) {S : Type 0} (st : Store S) where
  -- `dissect_group`, where `walk` is `dissector_walk` over the children of the template node.
  unfoldable pub dissect_group : (Walk S → Walk S) → FieldType → Field S → Field S
  unfolding basic_dissect_pmap shift_bytes
  dissect_group walk ftype c =
      let own = pmap_exists ftype in
      let nested = if own then basic_dissect_pmap m c.position else c.position in
      let w = walk (record {
        position = nested;
        children = c.children;
        last = none;
        store = c.store;
        fault = c.fault;
      }) in
      let position = if own then c.position else w.position in
      let jump = (w.position.offset + 2 ^ 32 - position.offset) % 2 ^ 32 in
      record c {
        position = shift_bytes (record position { offjmp = jump });
        children = w.children;
        store = w.store;
        fault = w.fault;
      }

  -- The loop of `dissect_sequence`, with `left` elements to go.
  unfoldable pub sequence_loop : (Walk S → Walk S) → ℕ → Walk S → Walk S
  sequence_loop descend zero w = w
  sequence_loop descend (suc left) w =
      let rest = sequence_loop descend left (descend w) in
      if w.position.nbytes == 0
      then w
      else (if leb w.position.pmap_len w.position.pmap_idx then w else rest)

  unfoldable pub dissect_sequence :
      Option (Field S → Field S) → Option (Walk S → Walk S) → Field S → Field S
  unfolding sequence_loop
  dissect_sequence none group_tnode c = c
  dissect_sequence (some length_tnode) none c = c
  dissect_sequence (some length_tnode) (some group_tnode) c =
      let c' = length_tnode c in
      let w = sequence_loop group_tnode (u32 c'.fdata.value) (record {
        position = c'.position;
        children = c'.children;
        last = none;
        store = c'.store;
        fault = c'.fault;
      }) in
      record c' { position = w.position; children = w.children; store = w.store; fault = w.fault }

  -- What a node's dissection uses of the children of its template node.
  pub record Parts : Type 0 where
    pub first : Option (Field S → Field S)
    pub second : Option (Field S → Field S)
    pub second_node : Option (Walk S → Walk S)
    pub walk : Walk S → Walk S

  -- `dissect_fn_map`: FieldTypeError has no function.
  unfoldable pub dissect_fn_map :
      FieldTypeIdentifier → Parts → Option (FieldType → Field S → Field S)
  unfolding dissect_uint32 dissect_uint64 dissect_int32 dissect_int64 dissect_decimal
      dissect_ascii_string dissect_byte_vector dissect_group dissect_sequence
  dissect_fn_map FieldTypeIdentifier.uint32 parts = some (dissect_uint32 m junk st)
  dissect_fn_map FieldTypeIdentifier.uint64 parts = some (dissect_uint64 m junk st)
  dissect_fn_map FieldTypeIdentifier.int32 parts = some (dissect_int32 m junk st)
  dissect_fn_map FieldTypeIdentifier.int64 parts = some (dissect_int64 m junk st)
  dissect_fn_map FieldTypeIdentifier.decimal parts =
      some (dissect_decimal m junk st parts.first parts.second)
  dissect_fn_map FieldTypeIdentifier.ascii_string parts = some (dissect_ascii_string m junk st)
  dissect_fn_map FieldTypeIdentifier.unicode_string parts =
      some (dissect_byte_vector m junk st parts.first)
  dissect_fn_map FieldTypeIdentifier.byte_vector parts =
      some (dissect_byte_vector m junk st parts.first)
  dissect_fn_map FieldTypeIdentifier.group parts = some (dissect_group parts.walk)
  dissect_fn_map FieldTypeIdentifier.sequence parts =
      some (λ ftype. dissect_sequence parts.first parts.second_node)
  dissect_fn_map _ parts = none

  abbrev pub with_value : Field S → FieldValue → Field S
  with_value c v = record c {
    fdata = record {
      start = c.fdata.start;
      nbytes = c.fdata.nbytes;
      status = c.fdata.status;
      value = v;
    };
  }

  -- The operators that `dissect_value` handles itself, and whether one gave the value.
  unfoldable pub apply_operator : FieldOperatorIdentifier → FieldType → Field S → Bool × Field S
  unfolding dissect_copy dissect_default copy_field_value
  apply_operator FieldOperatorIdentifier.copy ftype c = dissect_copy m junk st ftype c
  apply_operator FieldOperatorIdentifier.constant ftype c =
      (true, with_value c (copy_field_value m ftype.type ftype.value c.fdata.value))
  apply_operator FieldOperatorIdentifier.default ftype c = dissect_default m junk st ftype c
  apply_operator _ ftype c = (false, c)

  -- The window of a field, from `start` to the position.
  abbrev pub set_window : ℕ → Field S → Field S
  set_window start c = record c {
    fdata = record {
      start = start;
      nbytes = (c.position.offset + 2 ^ 32 - start) % 2 ^ 32;
      status = c.fdata.status;
      value = c.fdata.value;
    };
  }

  abbrev pub with_status : Field S → FieldStatus → Field S
  with_status c s = record c {
    fdata = record {
      start = c.position.offset;
      nbytes = 0;
      status = s;
      value = init_field_value c.fdata.value;
    };
  }

  -- `dissect_value` with the entry of the map: without one it ends after the defaults are set.
  unfoldable pub value_by :
      Option (FieldType → Field S → Field S) → FieldType → (Field S → Field S) → Field S → Field S
  unfolding is_exists init_field_value
  value_by none ftype optional c = with_status c empty
  value_by (some dissect_fn) ftype optional c =
      let c1 = if ftype.mandatory then with_status c exists else optional (with_status c empty) in
      let (operator_used, c2) = apply_operator ftype.op ftype c1 in
      set_window c.position.offset (
        if is_exists c1.fdata.status
        then (if operator_used then c2 else dissect_fn ftype c2)
        else c1)

  -- `dissect_value` on a field of the type `ftype`, whose optional field is examined by `optional`.
  unfoldable pub value_step : FieldType → (Field S → Field S) → Parts → Field S → Field S
  unfolding value_by
  value_step ftype optional parts c = value_by (dissect_fn_map ftype.type parts) ftype optional c

  -- `dissect_descend`: a new node behind the last one, dissected by `value`. A type that is out of
  -- range makes none.
  unfoldable pub descend_step : FieldType → (Field S → Field S) → Walk S → Walk S
  unfolding insert_after
  descend_step ftype value w =
      let c = value (record {
        position = w.position;
        fdata = junk;
        children = DNodes.nil;
        store = w.store;
        fault = w.fault;
      }) in
      let made : Walk S = record {
        position = c.position;
        children = insert_after w.children w.last (dnode c.fdata c.children);
        last = elim w.last [ none ↦ some 0 | some i ↦ some (i + 1) ];
        store = c.store;
        fault = c.fault;
      } in
      elim ftype.type [
        | FieldTypeIdentifier.enum_limit ↦ record w { last = none }
        | FieldTypeIdentifier.invalid ↦ record w { last = none }
        | _ ↦ made
      ]

  unfoldable mutual
    unfolding value_step descend_step dissect_optional

    pub dissect_value : TNode → Field S → Field S
    dissect_value (node ftype children) =
        value_step ftype (dissect_optional m st (node ftype children)) (parts_of children)

    pub dissect_descend : TNode → Walk S → Walk S
    dissect_descend (node ftype children) =
        descend_step ftype
          (value_step ftype (dissect_optional m st (node ftype children)) (parts_of children))

    pub parts_of : TNodes → Parts
    parts_of nil = record { first = none; second = none; second_node = none; walk = λ w. w }
    parts_of (cons t ts) =
        let rest = parts_of ts in
        record {
          first = some (dissect_value t);
          second = rest.first;
          second_node = first_node ts;
          walk = λ w. rest.walk (dissect_descend t w);
        }

    pub first_node : TNodes → Option (Walk S → Walk S)
    first_node nil = none
    first_node (cons t ts) = some (dissect_descend t)

  -- `dissector_walk` over a template node and its right siblings.
  unfoldable pub dissector_walk : TNodes → Walk S → Walk S
  unfolding parts_of
  dissector_walk ts = (parts_of ts).walk
