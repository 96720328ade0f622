-- ===== src/Dissect/Numbers.antt =====
-- dissect.c: the dissection of numbers.
use fast_wireshark.Base.{
  ℕ, ◌+◌, ◌%◌, ◌^◌, Bool, true, false, not, ◌&&◌, Option, none, some, if◌then◌else◌,
}
use fast_wireshark.Field.{
  FieldValue, FieldOperatorIdentifier, Machine, u32, set_u32, u64, set_u64, exponent, set_exponent,
}
use fast_wireshark.Position.{
  DissectPosition, FieldData, basic_dissect_uint32, basic_dissect_uint64, basic_dissect_int32,
  basic_dissect_int64,
}
use fast_wireshark.Template.{FieldType}
use fast_wireshark.Dissect.Node.{Store, Field, positive32, positive64, minus_one, save}
use fast_wireshark.Dissect.Operators.{dissect_int_op}

-- A basic reader, such as `basic_dissect_uint32`.
abbrev Reader : Type 0
Reader = DissectPosition → FieldData → DissectPosition × FieldData

abbrev set_value : FieldData → FieldValue → FieldData
set_value fdata v = record {
  start = fdata.start;
  nbytes = fdata.nbytes;
  status = fdata.status;
  value = v;
}

-- Which optional values are one too high: every unsigned one, and the positive signed ones.
abbrev pub any_value : FieldValue → Bool
any_value v = true

abbrev pub positive_i32 : FieldValue → Bool
positive_i32 v = positive32 (u32 v)

abbrev pub positive_i64 : FieldValue → Bool
positive_i64 v = positive64 (u64 v)

-- `value.u32 + delta` and `value.u64 + delta`, cut to the type; so too for the signed members.
abbrev pub add_u32 : FieldValue → ℕ → FieldValue
add_u32 v d = set_u32 v ((u32 v + d) % 2 ^ 32)

abbrev pub add_u64 : FieldValue → ℕ → FieldValue
add_u64 v d = set_u64 v ((u64 v + d) % 2 ^ 64)

module _ (m : Machine) (junk : FieldData) {S : Type 0} (st : Store S) where
  -- The common part of the four functions: the operator, the basic dissection where it is due,
  -- with the delta -1 for an optional value that `lower` picks, and the sum `add`.
  unfoldable pub dissect_int :
      Reader → (FieldValue → Bool) → (FieldValue → ℕ → FieldValue) → FieldType → Field S → Field S
  unfolding dissect_int_op
  dissect_int read lower add ftype c =
      let r = dissect_int_op m junk st 0 ftype c.fdata c.position c.store in
      let (position', fdata') = read r.position r.fdata in
      let delta = if not ftype.mandatory && lower fdata'.value then minus_one else r.delta in
      let fdata2 = if r.dissect_it then fdata' else r.fdata in
      save st ftype (record c {
        position = if r.dissect_it then position' else r.position;
        fdata = set_value fdata2 (add fdata2.value (if r.dissect_it then delta else r.delta));
        store = r.store;
      })

  unfoldable pub dissect_uint32 : FieldType → Field S → Field S
  unfolding dissect_int basic_dissect_uint32
  dissect_uint32 = dissect_int (basic_dissect_uint32 m) any_value add_u32

  unfoldable pub dissect_uint64 : FieldType → Field S → Field S
  unfolding dissect_int basic_dissect_uint64
  dissect_uint64 = dissect_int (basic_dissect_uint64 m) any_value add_u64

  unfoldable pub dissect_int32 : FieldType → Field S → Field S
  unfolding dissect_int basic_dissect_int32
  dissect_int32 = dissect_int (basic_dissect_int32 m) positive_i32 add_u32

  unfoldable pub dissect_int64 : FieldType → Field S → Field S
  unfolding dissect_int basic_dissect_int64
  dissect_int64 = dissect_int (basic_dissect_int64 m) positive_i64 add_u64

  -- With a delta the two parts are read with data of their own, which nothing has set; `*delta`
  -- keeps its value between them.
  unfoldable pub decimal_delta : FieldType → Field S → ℕ × ℕ × Field S
  unfolding dissect_int_op
  decimal_delta ftype c =
      let r = dissect_int_op m junk st 0 ftype junk c.position c.store in
      let q = dissect_int_op m junk st r.delta ftype junk r.position r.store in
      (
        (r.delta + exponent m r.fdata.value) % 2 ^ 32,
        (q.delta + u64 q.fdata.value) % 2 ^ 64,
        record c { position = q.position; store = q.store },
      )

  -- Without one they are the dissected children, one after the other in the field's own data.
  unfoldable pub decimal_parts :
      (Field S → Field S) → (Field S → Field S) → Field S → ℕ × ℕ × Field S
  decimal_parts expt_node mant_node c =
      let c1 = expt_node c in let c2 = mant_node c1 in (u32 c1.fdata.value, u64 c2.fdata.value, c2)

  unfoldable pub is_delta : FieldOperatorIdentifier → Bool
  is_delta FieldOperatorIdentifier.delta = true
  is_delta _ = false

  -- `none` for a child that is missing.
  unfoldable pub dissect_decimal :
      Option (Field S → Field S) → Option (Field S → Field S) → FieldType → Field S → Field S
  unfolding is_delta
  dissect_decimal none second ftype c = c
  dissect_decimal (some expt_node) none ftype c = c
  dissect_decimal (some expt_node) (some mant_node) ftype c =
      let (expt, mant, c') =
        if is_delta ftype.op then decimal_delta ftype c else decimal_parts expt_node mant_node c in
      save st ftype (record c' {
        fdata = set_value c'.fdata (set_exponent m (set_u64 c'.fdata.value mant) expt);
      })
