-- ===== src/Dissect/Optional.antt =====
-- dissect.c: `dissect_optional`, which finds out whether an optional field has a value.
use fast_wireshark.Base.{Bool, true, false, not, ◌&&◌, ◌||◌, ◌==◌, if◌then◌else◌}
use fast_wireshark.Field.{FieldTypeIdentifier, FieldOperatorIdentifier, Machine}
use fast_wireshark.Position.{
  FieldStatus, exists, empty, dissect_shift_pmap, dissect_peek_pmap, dissect_shift_null,
}
use fast_wireshark.Template.{FieldType, TNode, TNodes, node, nil, cons}
use fast_wireshark.Dissect.Node.{Store, Field, is_empty, save}

-- Which of the three steps the operator asks for.
pub record Checks : Type 0 where
  pub check_pmap : Bool
  pub check_null : Bool
  pub set_dict : Bool

abbrev checks : Bool → Bool → Bool → Checks
checks p n d = record { check_pmap = p; check_null = n; set_dict = d }

abbrev pub is_group : FieldTypeIdentifier → Bool
is_group FieldTypeIdentifier.group = true
is_group _ = false

unfoldable pub optional_checks : FieldOperatorIdentifier → FieldTypeIdentifier → Checks
optional_checks FieldOperatorIdentifier.no_operator type =
    if is_group type then checks true false false else checks false true true
optional_checks FieldOperatorIdentifier.constant type = checks true false false
optional_checks FieldOperatorIdentifier.delta type = checks false true false
optional_checks FieldOperatorIdentifier.default type = checks true true true
optional_checks FieldOperatorIdentifier.copy type = checks true true true
optional_checks FieldOperatorIdentifier.increment type = checks true true true
optional_checks FieldOperatorIdentifier.tail type = checks true true true
optional_checks FieldOperatorIdentifier.enum_limit type = checks false false false

-- A decimal or a sequence without an operator is asked through its first child.
unfoldable pub asks_child : FieldType → Bool
asks_child ftype = elim ftype.type [
  | FieldTypeIdentifier.decimal ↦ no_op ftype.op
  | FieldTypeIdentifier.sequence ↦ no_op ftype.op
  | _ ↦ false
]
  where
    no_op : FieldOperatorIdentifier → Bool
    no_op FieldOperatorIdentifier.no_operator = true
    no_op _ = false

module _ (m : Machine) {S : Type 0} (st : Store S) where
  abbrev set_status : Field S → FieldStatus → Field S
  set_status c s = record c {
    fdata = record {
      start = c.fdata.start;
      nbytes = c.fdata.nbytes;
      status = s;
      value = c.fdata.value;
    };
  }

  -- The presence bit that lies ahead, which is not taken yet.
  unfoldable pub look_at_pmap : Checks → Field S → Field S
  unfolding is_empty dissect_peek_pmap
  look_at_pmap k c =
      let bit = not (dissect_peek_pmap c.position == 0) in
      if is_empty c.fdata.status
        && k.check_pmap
        && (bit && not k.check_null || not bit && k.check_null)
      then set_status c exists
      else c

  unfoldable pub look_for_null : Checks → Field S → Field S
  unfolding is_empty dissect_shift_null
  look_for_null k c =
      let (null, position') = dissect_shift_null m c.position in
      if is_empty c.fdata.status && k.check_null
      then set_status (record c { position = position' }) (if null then empty else exists)
      else c

  unfoldable pub store_empty : Checks → FieldType → Field S → Field S
  unfolding is_empty
  store_empty k ftype c = if is_empty c.fdata.status && k.set_dict then save st ftype c else c

  unfoldable pub take_bit : Checks → Field S → Field S
  unfolding is_empty dissect_shift_pmap
  take_bit k c =
      if k.check_pmap && (not k.check_null || is_empty c.fdata.status)
      then record c { position = (dissect_shift_pmap c.position).1 }
      else c

  unfoldable pub optional_step : FieldType → Field S → Field S
  unfolding optional_checks look_at_pmap look_for_null store_empty take_bit
  optional_step ftype c =
      let k = optional_checks ftype.op ftype.type in
      take_bit k (store_empty k ftype (look_for_null k (look_at_pmap k c)))

  -- On a mandatory field the function bails out. Where there is no child it reads a null pointer.
  unfoldable mutual
    unfolding optional_step asks_child

    pub dissect_optional : TNode → Field S → Field S
    dissect_optional (node ftype children) c =
        let child = optional_child children c in
        if ftype.mandatory then c else (if asks_child ftype then child else optional_step ftype c)

    pub optional_child : TNodes → Field S → Field S
    optional_child nil c = record c { fault = true }
    optional_child (cons t ts) c = dissect_optional t c
