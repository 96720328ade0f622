-- ===== src/Parser/Xml.antt =====
-- The nodes of an XML document, and what parse-template.c asks of one.
use Prim.Native.String.{String}
use fast_wireshark.Base.{ℕ, Bool, true, false, ◌&&◌, ◌||◌, List, Option, none, some}
use fast_wireshark.Field.{FieldTypeIdentifier, FieldOperatorIdentifier}
use fast_wireshark.Template.{field_typename, operator_typename}

-- An element with its name, its line, what `xmlGetProp` gives for its attributes, and its children.
mutual
  pub data XmlNode : Type 0 where
    element : String → ℕ → (String → Option String) → XmlNodes → XmlNode

  pub data XmlNodes : Type 0 where
    nil : XmlNodes
    cons : XmlNode → XmlNodes → XmlNodes

abbrev pub name_of : XmlNode → String
name_of (element name line prop children) = name

abbrev pub line_of : XmlNode → ℕ
line_of (element name line prop children) = line

abbrev pub get_prop : XmlNode → String → Option String
get_prop (element name line prop children) = prop

abbrev pub children_of : XmlNode → XmlNodes
children_of (element name line prop children) = children

-- A call of `fast_log_static_error`.
pub record StaticError : Type 0 where
  pub err_no : ℕ
  pub line : ℕ

abbrev pub Log : Type 0
Log = List StaticError

-- `strcase_eq` is `xmlStrcasecmp` with the result 0, `str_eq` is `xmlStrcmp` with the result 0.
module _ (strcase_eq : String → String → Bool) where
  unfoldable pub ignore_xml_node : XmlNode → Bool
  ignore_xml_node n =
      strcase_eq (name_of n) "text"
      || strcase_eq (name_of n) "comment"
      || strcase_eq (name_of n) "typeRef"
      || strcase_eq (name_of n) "templateRef"
      || strcase_eq (name_of n) "length"

  -- `xmlStrcasecmp` with a text that may be null.
  abbrev matches : String → Option String → Bool
  matches a none = false
  matches a (some b) = strcase_eq a b

  -- The charset of a string, where none is given `otherwise`.
  abbrev charset_is : String → Bool → Option String → Bool
  charset_is charset otherwise none = otherwise
  charset_is charset otherwise (some prop) = strcase_eq prop charset

  unfoldable pub field_type_match : XmlNode → FieldTypeIdentifier → Bool
  unfolding field_typename
  field_type_match n FieldTypeIdentifier.ascii_string =
      matches (name_of n) (some "string") && charset_is "ascii" true (get_prop n "charset")
  field_type_match n FieldTypeIdentifier.unicode_string =
      matches (name_of n) (some "string") && charset_is "unicode" false (get_prop n "charset")
  field_type_match n type = matches (name_of n) (field_typename type)

  unfoldable pub operator_type_match : XmlNode → FieldOperatorIdentifier → Bool
  unfolding operator_typename
  operator_type_match n op = strcase_eq (name_of n) (operator_typename op)
