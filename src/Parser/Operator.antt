-- ===== src/Parser/Operator.antt =====
-- The attributes and the operator of a field.
use Prim.Native.Char.{code}
use Prim.Native.String.{String}
use fast_wireshark.Base.{
  ℕ, Bool, true, false, not, ◌&&◌, ◌||◌, List, [], ◌∷◌, Option, none, some, if◌then◌else◌,
}
use fast_wireshark.Field.{FieldTypeIdentifier, FieldOperatorIdentifier, Machine}
use fast_wireshark.Field.Conversion.{Glib, string_to_field_value}
use fast_wireshark.Template.{FieldType}
use fast_wireshark.Parser.Xml.{
  XmlNode, XmlNodes, nil, cons, line_of, get_prop, children_of, Log, ignore_xml_node,
  operator_type_match,
}

-- The bytes of a text, which is ASCII.
abbrev pub text_bytes : String → List ℕ
text_bytes String.[] = []
text_bytes (String.◌∷◌ c s) = code c ∷ text_bytes s

-- The result of a parsing function, the field that it fills in, and what it logs.
pub record Parsed : Type 0 where
  pub valid : Bool
  pub field : FieldType
  pub log : Log

abbrev pub log_error : ℕ → XmlNode → Log
log_error err_no n = record { err_no = err_no; line = line_of n } ∷ []

abbrev pub is_integer : FieldTypeIdentifier → Bool
is_integer FieldTypeIdentifier.int32 = true
is_integer FieldTypeIdentifier.int64 = true
is_integer FieldTypeIdentifier.uint32 = true
is_integer FieldTypeIdentifier.uint64 = true
is_integer _ = false

abbrev pub is_decimal : FieldTypeIdentifier → Bool
is_decimal FieldTypeIdentifier.decimal = true
is_decimal _ = false

-- Whether a type may have the operator.
unfoldable pub check_valid_operator : FieldOperatorIdentifier → FieldTypeIdentifier → Bool
check_valid_operator FieldOperatorIdentifier.increment type = is_integer type
check_valid_operator FieldOperatorIdentifier.tail type = not (is_integer type || is_decimal type)
check_valid_operator _ type = true

abbrev pub is_constant : FieldOperatorIdentifier → Bool
is_constant FieldOperatorIdentifier.constant = true
is_constant _ = false

abbrev pub is_default : FieldOperatorIdentifier → Bool
is_default FieldOperatorIdentifier.default = true
is_default _ = false

-- An attribute that is given, or else what the field has.
abbrev pub given_or : Option String → Option String → Option String
given_or none old = old
given_or (some str) old = some str

abbrev pub id_or : Glib → Option String → ℕ → ℕ
id_or g none old = old
id_or g (some str) old = g.atoi (text_bytes str)

module _ (strcase_eq : String → String → Bool) (g : Glib) (m : Machine) where
  -- The first operator, in the order of the code, whose name is the node's.
  unfoldable pub operator_of : XmlNode → Option FieldOperatorIdentifier
  unfolding operator_type_match
  operator_of n =
      if operator_type_match strcase_eq n FieldOperatorIdentifier.constant
      then some FieldOperatorIdentifier.constant
      else (if operator_type_match strcase_eq n FieldOperatorIdentifier.default
          then some FieldOperatorIdentifier.default
          else (if operator_type_match strcase_eq n FieldOperatorIdentifier.copy
              then some FieldOperatorIdentifier.copy
              else (if operator_type_match strcase_eq n FieldOperatorIdentifier.increment
                  then some FieldOperatorIdentifier.increment
                  else (if operator_type_match strcase_eq n FieldOperatorIdentifier.delta
                      then some FieldOperatorIdentifier.delta
                      else (if operator_type_match strcase_eq n FieldOperatorIdentifier.tail
                          then some FieldOperatorIdentifier.tail
                          else none)))))

  -- The `value` attribute of the operator, if there is one.
  unfoldable pub set_operator_value : XmlNode → Option String → FieldType → Parsed
  unfolding string_to_field_value
  set_operator_value n (some prop) tfield =
      let (known, value) = string_to_field_value g m (text_bytes prop) tfield.type tfield.value in
      record {
        valid = true;
        field = record tfield { has_default = true; value = value };
        log = if known then [] else log_error 3 n;
      }
  set_operator_value n none tfield =
      if is_constant tfield.op
      then record { valid = true; field = tfield; log = log_error 4 n }
      else (if is_default tfield.op && tfield.mandatory
          then record { valid = true; field = tfield; log = log_error 5 n }
          else record { valid = true; field = record tfield { has_default = false }; log = [] })

  -- `parse_operator` with the operator of the node.
  unfoldable pub operator_by : XmlNode → FieldType → Option FieldOperatorIdentifier → Parsed
  unfolding check_valid_operator set_operator_value
  operator_by n tfield none = record { valid = false; field = tfield; log = log_error 1 n }
  operator_by n tfield (some op) =
      let tfield' = record tfield { op = op } in
      if check_valid_operator op tfield.type
      then set_operator_value n (get_prop n "value") tfield'
      else record { valid = false; field = tfield'; log = log_error 2 n }

  unfoldable pub parse_operator : XmlNode → FieldType → Parsed
  unfolding operator_of operator_by
  parse_operator n tfield = operator_by n tfield (operator_of n)

  -- The loop over the children: the first that is not ignored is the operator.
  unfoldable pub operator_loop : XmlNodes → FieldType → Parsed
  unfolding parse_operator ignore_xml_node
  operator_loop nil tfield = record { valid = true; field = tfield; log = [] }
  operator_loop (cons n ns) tfield =
      let rest = operator_loop ns tfield in
      if ignore_xml_node strcase_eq n then rest else parse_operator n tfield

  unfoldable pub parse_field_operator : XmlNode → FieldType → Parsed
  unfolding operator_loop
  parse_field_operator n tfield = operator_loop (children_of n) tfield

  -- The presence: the field with it, and what is logged.
  unfoldable pub set_presence : XmlNode → Option String → FieldType → FieldType × Log
  set_presence n none tfield = (tfield, [])
  set_presence n (some str) tfield =
      if strcase_eq str "optional"
      then (record tfield { mandatory = false }, [])
      else (if strcase_eq str "mandatory"
          then (record tfield { mandatory = true }, [])
          else (tfield, log_error 1 n))

  -- `templateID` is an argument.
  unfoldable pub set_field_attributes : ℕ → XmlNode → FieldType → FieldType × Log
  unfolding set_presence
  set_field_attributes template_id n tfield =
      let name = given_or (get_prop n "name") tfield.name in
      let (tfield', log) = set_presence n (get_prop n "presence") (record tfield {
        name = name;
        tid = template_id;
        id = id_or g (get_prop n "id") tfield.id;
        key = given_or (get_prop n "key") (given_or name tfield.key);
      }) in
      (record tfield' { dictionary = given_or (get_prop n "dictionary") tfield'.dictionary }, log)
