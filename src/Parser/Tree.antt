-- ===== src/Parser/Tree.antt =====
-- The walk along a template's elements, and the trees that it builds.
use Prim.Native.String.{String, ◌++◌ as str_append}
use mathlib.Core.Option
use fast_wireshark.Base.{
  ℕ, Bool, true, false, List, [], ◌∷◌, ◌++◌, Option, none, some, if◌then◌else◌,
}
use fast_wireshark.Field.{FieldTypeIdentifier, FieldOperatorIdentifier, Machine}
use fast_wireshark.Field.Conversion.{Glib}
use fast_wireshark.Template.{FieldType, TNode, TNodes, node, create_field}
use fast_wireshark.Template
use fast_wireshark.Parser.Xml.{
  XmlNode, XmlNodes, element, nil, cons, name_of, children_of, Log, ignore_xml_node,
  field_type_match,
}
use fast_wireshark.Parser.Operator.{
  Parsed, log_error, parse_operator, parse_field_operator, set_field_attributes, given_or,
}

abbrev pub field_of : TNode → FieldType
field_of (node ftype children) = ftype

-- The field of the node that `create_field` makes.
unfoldable pub new_field : ℕ → FieldTypeIdentifier → FieldOperatorIdentifier → FieldType
unfolding create_field
new_field fresh_tid type op = field_of (create_field fresh_tid type op)

abbrev pub with_type : FieldType → FieldTypeIdentifier → FieldType
with_type tfield type = record tfield { type = type }

-- The dictionary of a field that has none of its own.
abbrev pub dictionary_or : FieldType → Option String → FieldType
dictionary_or tfield dictionary = record tfield {
  dictionary = given_or tfield.dictionary dictionary;
}

-- A key from another text and a suffix.
abbrev pub suffixed : Option String → String → Option String
suffixed text suffix = Option.map (λ t. str_append t suffix) text

-- A decimal with its exponent and its mantissa.
pub record Decimal : Type 0 where
  pub field : FieldType
  pub expt : FieldType
  pub mant : FieldType

-- The types in the order in which the code tries them.
abbrev pub field_types : List FieldTypeIdentifier
field_types =
    FieldTypeIdentifier.uint32 ∷ FieldTypeIdentifier.uint64 ∷ FieldTypeIdentifier.int32
    ∷ FieldTypeIdentifier.int64 ∷ FieldTypeIdentifier.decimal ∷ FieldTypeIdentifier.ascii_string
    ∷ FieldTypeIdentifier.unicode_string ∷ FieldTypeIdentifier.byte_vector
    ∷ FieldTypeIdentifier.group ∷ FieldTypeIdentifier.sequence ∷ []

unfoldable pub type_among :
    (String → String → Bool) → List FieldTypeIdentifier → XmlNode → Option FieldTypeIdentifier
unfolding field_type_match
type_among strcase_eq [] n = none
type_among strcase_eq (type ∷ types) n =
    if field_type_match strcase_eq n type then some type else type_among strcase_eq types n

module _ (strcase_eq : String → String → Bool) (g : Glib) (m : Machine)
    (fresh_tid template_id : ℕ) where
  -- A child that describes a field: its attributes and its operator.
  unfoldable pub parse_part : XmlNode → FieldType → Parsed
  unfolding set_field_attributes parse_field_operator
  parse_part n ftype =
      let (ftype', log) = set_field_attributes strcase_eq g m template_id n ftype in
      let p = parse_field_operator strcase_eq g m n ftype' in
      record { valid = p.valid; field = p.field; log = log ++ p.log }

  -- The search of `prepend_length` through the children.
  unfoldable pub length_loop : XmlNodes → FieldType → Parsed
  unfolding parse_part
  length_loop nil ftype = record { valid = true; field = ftype; log = [] }
  length_loop (cons n ns) ftype =
      let p = parse_part n ftype in
      let rest = length_loop ns ftype in
      let rest' = length_loop ns p.field in
      if strcase_eq (name_of n) "length"
      then (if p.valid
          then record { valid = rest'.valid; field = rest'.field; log = p.log ++ rest'.log }
          else record { valid = false; field = p.field; log = p.log ++ log_error 1 n })
      else rest

  -- What `prepend_length` sets behind the loop. `%s` prints a null name as "(null)".
  abbrev pub finish_length : FieldType → Option String → FieldType → FieldType
  finish_length parent dictionary ftype = record ftype {
    key = given_or ftype.key (some (str_append (Option.get_or parent.name "(null)") "-length"));
    dictionary = given_or ftype.dictionary dictionary;
    tid = template_id;
    mandatory = parent.mandatory;
  }

  -- `prepend_length`: the field is that of the new first child.
  unfoldable pub prepend_length : XmlNode → FieldType → Option String → Parsed
  unfolding length_loop new_field
  prepend_length n parent dictionary =
      let p =
        length_loop (children_of n)
          (new_field fresh_tid FieldTypeIdentifier.uint32 FieldOperatorIdentifier.no_operator) in
      record {
        valid = p.valid;
        field = if p.valid then finish_length parent dictionary p.field else p.field;
        log = p.log;
      }

  -- The loop of `parse_decimal` over the children. An element that is no part is taken for an
  -- operator of the decimal, whose result is not looked at.
  unfoldable pub decimal_children : XmlNodes → Decimal → Bool × Decimal × Log
  unfolding ignore_xml_node parse_part parse_operator
  decimal_children nil d = (true, d, [])
  decimal_children (cons n ns) d =
      let expt = parse_part n d.expt in
      let mant = parse_part n d.mant in
      let op = parse_operator strcase_eq g m n d.field in
      let ignored = decimal_children ns d in
      let with_expt = decimal_children ns (record d { expt = expt.field }) in
      let with_mant = decimal_children ns (record d { mant = mant.field }) in
      let with_op = decimal_children ns (record d { field = op.field }) in
      if ignore_xml_node strcase_eq n
      then ignored
      else (if strcase_eq (name_of n) "exponent"
          then (if expt.valid
              then (with_expt.0, with_expt.1, expt.log ++ with_expt.2)
              else (false, record d { expt = expt.field }, expt.log ++ log_error 1 n))
          else (if strcase_eq (name_of n) "mantissa"
              then (if mant.valid
                  then (with_mant.0, with_mant.1, mant.log ++ with_mant.2)
                  else (false, record d { mant = mant.field }, mant.log ++ log_error 1 n))
              else (with_op.0, with_op.1, op.log ++ with_op.2)))

  -- What `parse_decimal` sets behind the loop. The keys of the parts come from the decimal's.
  abbrev pub finish_decimal : Option String → Decimal → Decimal
  finish_decimal dictionary d = record d {
    expt = record d.expt {
      dictionary = given_or d.expt.dictionary dictionary;
      tid = template_id;
      mandatory = d.field.mandatory;
      key = given_or d.expt.key (suffixed d.field.key "-exponent");
    };
    mant = record d.mant {
      dictionary = given_or d.mant.dictionary dictionary;
      tid = template_id;
      key = given_or d.mant.key (suffixed d.field.key "-mantissa");
    };
  }

  unfoldable pub parse_decimal : XmlNode → FieldType → Option String → Bool × Decimal × Log
  unfolding decimal_children new_field
  parse_decimal n tfield dictionary =
      let (valid, d, log) = decimal_children (children_of n) (record {
        field = with_type tfield FieldTypeIdentifier.decimal;
        expt = new_field fresh_tid FieldTypeIdentifier.int32 FieldOperatorIdentifier.no_operator;
        mant = new_field fresh_tid FieldTypeIdentifier.int64 FieldOperatorIdentifier.no_operator;
      }) in
      (valid, (if valid then finish_decimal dictionary d else d), log)

  -- A field with an operator and no parts.
  unfoldable pub plain_field : FieldTypeIdentifier → XmlNode → FieldType → Bool × TNode × Log
  unfolding parse_field_operator
  plain_field type n tfield =
      let p = parse_field_operator strcase_eq g m n (with_type tfield type) in
      (p.valid, node p.field Template.nil, p.log)

  -- A field with an operator and a length.
  unfoldable pub sized_field : FieldTypeIdentifier → XmlNode → FieldType → Bool × TNode × Log
  unfolding parse_field_operator prepend_length
  sized_field type n tfield =
      let p = parse_field_operator strcase_eq g m n (with_type tfield type) in
      let l = prepend_length n p.field p.field.dictionary in
      let children = Template.cons (node l.field Template.nil) Template.nil in
      if p.valid
      then (l.valid, node p.field children, p.log ++ l.log)
      else (false, node p.field Template.nil, p.log)

  -- The branches of `new_parsed_field`, by the type found; `walked` is what `parser_walk_children`
  -- gives for the element's children.
  unfoldable pub parse_as :
      FieldTypeIdentifier → XmlNode → FieldType → TNodes × Log → Bool × TNode × Log
  unfolding plain_field sized_field parse_decimal prepend_length new_field
  parse_as FieldTypeIdentifier.decimal n tfield walked =
      let (valid, d, log) = parse_decimal n tfield tfield.dictionary in
      (
        valid,
        node d.field (
            Template.cons (node d.expt Template.nil)
              (Template.cons (node d.mant Template.nil) Template.nil)),
        log,
      )
  parse_as FieldTypeIdentifier.unicode_string n tfield walked =
      sized_field FieldTypeIdentifier.unicode_string n tfield
  parse_as FieldTypeIdentifier.byte_vector n tfield walked =
      sized_field FieldTypeIdentifier.byte_vector n tfield
  parse_as FieldTypeIdentifier.group n tfield walked =
      (true, node (with_type tfield FieldTypeIdentifier.group) walked.0, walked.1)
  parse_as FieldTypeIdentifier.sequence n tfield walked =
      let tfield' = with_type tfield FieldTypeIdentifier.sequence in
      let group =
        new_field fresh_tid FieldTypeIdentifier.group FieldOperatorIdentifier.no_operator in
      let l = prepend_length n tfield' tfield'.dictionary in
      (
        l.valid,
        node tfield' (
            Template.cons (node l.field Template.nil)
              (Template.cons (node group walked.0) Template.nil)),
        walked.1 ++ l.log,
      )
  parse_as type n tfield walked = plain_field type n tfield

  -- The end of `new_parsed_field`: a field whose type is not known, or that is not valid, is an error.
  unfoldable pub parsed_or_error :
      XmlNode → FieldType → TNodes × Log → Option FieldTypeIdentifier → Option TNode × Log
  unfolding parse_as
  parsed_or_error n tfield walked none = (none, log_error 1 n)
  parsed_or_error n tfield walked (some type) =
      let (valid, t, log) = parse_as type n tfield walked in
      if valid then (some t, log) else (none, log ++ log_error 1 n)

  unfoldable mutual
    unfolding set_field_attributes new_field type_among parsed_or_error ignore_xml_node

    pub new_parsed_field : Option String → XmlNode → Option TNode × Log
    new_parsed_field dictionary (element name line prop children) =
        let n = element name line prop children in
        let (own, log) =
          set_field_attributes strcase_eq g m template_id n
            (new_field fresh_tid FieldTypeIdentifier.invalid FieldOperatorIdentifier.no_operator) in
        let tfield = dictionary_or own dictionary in
        let walked = parser_walk_children tfield.dictionary children in
        let (t, log') = parsed_or_error n tfield walked (type_among strcase_eq field_types n) in
        (t, log ++ log')

    pub parser_walk_children : Option String → XmlNodes → TNodes × Log
    parser_walk_children dictionary nil = (Template.nil, [])
    parser_walk_children dictionary (cons n ns) =
        let (t, log) = new_parsed_field dictionary n in
        let rest = parser_walk_children dictionary ns in
        if ignore_xml_node strcase_eq n
        then rest
        else (elim t [ none ↦ rest.0 | some t' ↦ Template.cons t' rest.0 ], log ++ rest.1)
