-- ===== src/Template.antt =====
-- template.c and template.h: the type tree of a template.
pub mod Fixup
pub mod Table
use Prim.Native.String.{String}
use fast_wireshark.Base.{ℕ, Bool, true, false, not, ◌&&◌, Option, none, some, ◌==◌, if◌then◌else◌}
use fast_wireshark.Field.{
  FieldTypeIdentifier, FieldOperatorIdentifier, FieldValue, u32, set_u32, init_field_value, raw,
}

-- A null `char*` is `none`.
pub record FieldType : Type 0 where
  pub name : Option String
  pub id : ℕ
  pub tid : ℕ
  pub key : Option String
  pub mandatory : Bool
  pub type : FieldTypeIdentifier
  pub op : FieldOperatorIdentifier
  pub has_default : Bool
  pub value : FieldValue
  pub dictionary : Option String

-- A GNode tree of FieldTypes: a node with its children in order.
mutual
  pub data TNode : Type 0 where
    node : FieldType → TNodes → TNode

  pub data TNodes : Type 0 where
    nil : TNodes
    cons : TNode → TNodes → TNodes

abbrev pub pmap_exists : FieldType → Bool
pmap_exists ftype = not (u32 ftype.value == 0)

abbrev pub set_pmap_exists : FieldType → FieldType
set_pmap_exists ftype = record ftype { value = set_u32 ftype.value 1 }

-- FieldTypeError passes the range check, and the table has no entry for it: `none` is the read
-- behind the table.
unfoldable pub field_typename : FieldTypeIdentifier → Option String
field_typename FieldTypeIdentifier.uint32 = some "uInt32"
field_typename FieldTypeIdentifier.uint64 = some "uInt64"
field_typename FieldTypeIdentifier.int32 = some "int32"
field_typename FieldTypeIdentifier.int64 = some "int64"
field_typename FieldTypeIdentifier.decimal = some "decimal"
field_typename FieldTypeIdentifier.ascii_string = some "ascii"
field_typename FieldTypeIdentifier.unicode_string = some "unicode"
field_typename FieldTypeIdentifier.byte_vector = some "byteVector"
field_typename FieldTypeIdentifier.group = some "group"
field_typename FieldTypeIdentifier.sequence = some "sequence"
field_typename FieldTypeIdentifier.error = none
field_typename _ = some ""

unfoldable pub operator_typename : FieldOperatorIdentifier → String
operator_typename FieldOperatorIdentifier.no_operator = "no_operator"
operator_typename FieldOperatorIdentifier.constant = "constant"
operator_typename FieldOperatorIdentifier.default = "default"
operator_typename FieldOperatorIdentifier.copy = "copy"
operator_typename FieldOperatorIdentifier.increment = "increment"
operator_typename FieldOperatorIdentifier.delta = "delta"
operator_typename FieldOperatorIdentifier.tail = "tail"
operator_typename _ = ""

-- `tid` is not set: it is what the allocation held.
unfoldable pub create_field : ℕ → FieldTypeIdentifier → FieldOperatorIdentifier → TNode
unfolding init_field_value
create_field fresh_tid type op =
    node
      (record {
        name = none;
        id = 0;
        tid = fresh_tid;
        key = none;
        mandatory = true;
        type = type;
        op = op;
        has_default = false;
        value = init_field_value (record { word = 0; second = raw 0 });
        dictionary = none;
      })
      nil

pub is_group : FieldTypeIdentifier → Bool
is_group FieldTypeIdentifier.group = true
is_group _ = false

op_requires_pmap_bit : FieldOperatorIdentifier → Bool → Bool
op_requires_pmap_bit FieldOperatorIdentifier.constant mandatory = not mandatory
op_requires_pmap_bit FieldOperatorIdentifier.default mandatory = true
op_requires_pmap_bit FieldOperatorIdentifier.copy mandatory = true
op_requires_pmap_bit FieldOperatorIdentifier.increment mandatory = true
op_requires_pmap_bit FieldOperatorIdentifier.tail mandatory = true
op_requires_pmap_bit _ mandatory = false

unfoldable pub requires_pmap_bit : FieldType → Bool
unfolding is_group op_requires_pmap_bit
requires_pmap_bit ftype =
    if is_group ftype.type
    then not ftype.mandatory
    else op_requires_pmap_bit ftype.op ftype.mandatory

-- The parent after a look at one child.
abbrev pub note_child : FieldType → FieldType → FieldType
note_child parent ftype =
    if not (pmap_exists parent) && requires_pmap_bit ftype then set_pmap_exists parent else parent

-- `parent` is the group that the children count for, and is returned with them. The two calls are
-- those of the branches: one goes down with the child itself as the parent.
unfoldable mutual
  unfolding requires_pmap_bit is_group

  pub fixup_node : FieldType → TNode → FieldType × TNode
  fixup_node parent (node ftype children) =
      let parent' = note_child parent ftype in
      let own = fixup_walk_template ftype children in
      let through = fixup_walk_template parent' children in
      if is_group ftype.type then (parent', node own.0 own.1) else (through.0, node ftype through.1)

  pub fixup_walk_template : FieldType → TNodes → FieldType × TNodes
  fixup_walk_template parent nil = (parent, nil)
  fixup_walk_template parent (cons t ts) =
      let (parent1, t') = fixup_node parent t in
      let (parent2, ts') = fixup_walk_template parent1 ts in (parent2, cons t' ts')
