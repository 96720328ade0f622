-- ===== src/Dissect/Operators.antt =====
-- dissect.c: the field operators (`dissect_int_op`, `dissect_copy`, `dissect_default`,
-- `dissect_optional`).
use fast_wireshark.Base.{ℕ, ◌-◌, Bool, true, false, not, ◌&&◌, ◌==◌, if◌then◌else◌}
use fast_wireshark.Field.{FieldOperatorIdentifier, Machine, u64, init_field_value, copy_field_value}
use fast_wireshark.Position.{
  DissectPosition, FieldData, exists, err_d, dissect_shift_pmap, basic_dissect_int64,
}
use fast_wireshark.Template.{FieldType}
use fast_wireshark.Dissect.Node.{Store, Field, is_empty, is_undefined, positive64, save}

-- What `dissect_int_op` leaves: `*delta`, the field, and whether a basic dissection is to follow.
pub record IntOp (S : Type 0) : Type 0 where
  pub delta : ℕ
  pub fdata : FieldData
  pub position : DissectPosition
  pub store : S
  pub dissect_it : Bool

module _ (m : Machine) (junk : FieldData) {S : Type 0} (st : Store S) where
  -- The previous value of a delta, where it is undefined: the default, or zero.
  unfoldable pub delta_base : FieldType → FieldData → FieldData
  unfolding copy_field_value init_field_value
  delta_base ftype fdata = record fdata {
    status = exists;
    value =
        if ftype.has_default
        then copy_field_value m ftype.type ftype.value fdata.value
        else init_field_value fdata.value;
  }

  -- The delta that is read, less one for an optional field where it is positive.
  unfoldable pub read_delta : FieldType → FieldData → DissectPosition → S → IntOp S
  unfolding basic_dissect_int64
  read_delta ftype fdata position s =
      let (position', fdata_temp) = basic_dissect_int64 m position junk in
      let d = u64 fdata_temp.value in
      record {
        delta = if not ftype.mandatory && positive64 d then d - 1 else d;
        fdata = fdata;
        position = position';
        store = s;
        dissect_it = false;
      }

  unfoldable pub int_op_delta : ℕ → FieldType → FieldData → DissectPosition → S → IntOp S
  unfolding delta_base read_delta is_undefined is_empty err_d
  int_op_delta delta ftype fdata position s =
      let (found, fdata', s') = st.get ftype fdata s in
      if is_undefined fdata'.status
      then read_delta ftype (delta_base ftype fdata') position s'
      else (if is_empty fdata'.status && ftype.mandatory
          then record {
            delta = delta;
            fdata = err_d 6 fdata';
            position = position;
            store = s';
            dissect_it = false;
          }
          else read_delta ftype fdata' position s')

  unfoldable pub int_op_increment : ℕ → FieldType → FieldData → DissectPosition → S → IntOp S
  unfolding is_undefined is_empty err_d dissect_shift_pmap
  int_op_increment delta ftype fdata position s =
      let (presence_bit, position') = dissect_shift_pmap position in
      let (found, fdata', s') = st.get ftype fdata s in
      if presence_bit == 0
      then (if is_empty fdata'.status && ftype.mandatory
          then record {
            delta = delta;
            fdata = err_d 6 fdata';
            position = position';
            store = s';
            dissect_it = false;
          }
          else (if is_undefined fdata'.status && ftype.mandatory
              then record {
                delta = delta;
                fdata = err_d 5 fdata';
                position = position';
                store = s';
                dissect_it = false;
              }
              else record {
                delta = 1;
                fdata = fdata';
                position = position';
                store = s';
                dissect_it = false;
              }))
      else record {
        delta = delta;
        fdata = fdata;
        position = position';
        store = s;
        dissect_it = true;
      }

  int_op_plain : Bool → ℕ → FieldData → DissectPosition → S → IntOp S
  int_op_plain dissect_it delta fdata position s = record {
    delta = delta;
    fdata = fdata;
    position = position;
    store = s;
    dissect_it = dissect_it;
  }

  unfoldable pub int_op_by :
      FieldOperatorIdentifier → ℕ → FieldType → FieldData → DissectPosition → S → IntOp S
  unfolding int_op_delta int_op_increment int_op_plain
  int_op_by FieldOperatorIdentifier.constant delta ftype fdata position s =
      int_op_plain false delta fdata position s
  int_op_by FieldOperatorIdentifier.delta delta ftype fdata position s =
      int_op_delta delta ftype fdata position s
  int_op_by FieldOperatorIdentifier.increment delta ftype fdata position s =
      int_op_increment delta ftype fdata position s
  int_op_by _ delta ftype fdata position s = int_op_plain true delta fdata position s

  unfoldable pub dissect_int_op : ℕ → FieldType → FieldData → DissectPosition → S → IntOp S
  unfolding int_op_by
  dissect_int_op delta ftype fdata position s = int_op_by ftype.op delta ftype fdata position s

  -- The result is whether the operator was used.
  unfoldable pub dissect_copy : FieldType → Field S → Bool × Field S
  unfolding is_undefined is_empty err_d dissect_shift_pmap
  dissect_copy ftype c =
      let (presence_bit, position') = dissect_shift_pmap c.position in
      let (found, fdata', s') = st.get ftype c.fdata c.store in
      let looked_up = record c { position = position'; fdata = fdata'; store = s' } in
      if presence_bit == 0
      then (if is_undefined fdata'.status && ftype.mandatory
          then (false, record looked_up { fdata = err_d 5 fdata' })
          else (if is_empty fdata'.status && ftype.mandatory
              then (false, record looked_up { fdata = err_d 6 fdata' })
              else (true, looked_up)))
      else (false, record c { position = position' })

  unfoldable pub dissect_default : FieldType → Field S → Bool × Field S
  unfolding copy_field_value dissect_shift_pmap
  dissect_default ftype c =
      let (presence_bit, position') = dissect_shift_pmap c.position in
      let value' = copy_field_value m ftype.type ftype.value c.fdata.value in
      if presence_bit == 0
      then (
        true,
        save st ftype (record c {
          position = position';
          fdata = record {
            start = c.fdata.start;
            nbytes = c.fdata.nbytes;
            status = c.fdata.status;
            value = value';
          };
        }),
      )
      else (false, record c { position = position' })
