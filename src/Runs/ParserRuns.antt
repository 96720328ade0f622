-- ===== src/Runs/ParserRuns.antt =====
-- A file of templates: a template with a decimal, a sequence and a field that is refused.
use Prim.Native.String.{String}
use text.Mathlib.Text.{◌==◌ as str_eq}
use fast_wireshark.Base.{
  ℕ, ◌+◌, ◌-◌, ◌*◌, ◌≡◌, refl, List, [], ◌∷◌, Option, none, some, leb, ◌&&◌, if◌then◌else◌,
}
use fast_wireshark.Field.{FieldTypeIdentifier, Machine}
use fast_wireshark.Field.Conversion.{Glib}
use fast_wireshark.Template.{TNode, TNodes, node}
use fast_wireshark.Template
use fast_wireshark.Parser.Xml.{XmlNodes, element, nil, cons}
use fast_wireshark.Parser.Templates.{Document, root, parse_templates_xml}
use fast_wireshark.Parser.Document.{AllTemplates, parse_templates_xml-AllTemplates}
use fast_wireshark.Runs.Data.{machine}

abbrev read : ℕ → List ℕ → ℕ
read acc [] = acc
read acc (c ∷ cs) = read (acc * 10 + (c - b'0')) cs

abbrev g : Glib
g = record {
  strtoull = read 0;
  strtoll = read 0;
  atoi = read 0;
  isdigit = λ c. leb b'0' c && leb c b'9';
  xdigit_value = λ c. if leb b'0' c && leb c b'9' then some (c - b'0') else none;
}

abbrev m : Machine
m = machine []

-- An attribute of an element, and none.
abbrev attribute : String → String → String → Option String
attribute name value asked = if str_eq asked name then some value else none

abbrev bare : String → Option String
bare asked = none

-- An increment is no operator of a string.
abbrev children : XmlNodes
children =
    cons
      (element "decimal" 3 (attribute "name" "price")
        (cons (element "mantissa" 4 bare (cons (element "delta" 5 bare nil) nil)) nil))
      (cons (element "text" 6 bare nil) (
        cons (element "string" 7 (attribute "name" "s") (cons (element "increment" 8 bare nil) nil))
          (cons (element "sequence" 9 bare (cons (element "uInt32" 10 bare nil) nil)) nil)))

abbrev document : Document
document =
    root
      (element "templates" 1 bare (cons (element "template" 2 (attribute "id" "7") children) nil))

abbrev types : TNodes → List FieldTypeIdentifier
types Template.nil = []
types (Template.cons (node f ts) us) = f.type ∷ types us

abbrev shapes : Option TNodes → List (ℕ × List FieldTypeIdentifier)
shapes none = []
shapes (some Template.nil) = []
shapes (some (Template.cons (node f ts) us)) = (f.id, types ts) ∷ []

-- The string is logged and left out.
parsed :
    shapes (parse_templates_xml str_eq str_eq g m 0 0 document).0
    ≡ (7, FieldTypeIdentifier.decimal ∷ FieldTypeIdentifier.sequence ∷ []) ∷ []
unfolding parse_templates_xml
parsed = refl

logged :
    (parse_templates_xml str_eq str_eq g m 0 0 document).1
    ≡ record { err_no = 2; line = 8 } ∷ record { err_no = 1; line = 7 } ∷ []
unfolding parse_templates_xml
logged = refl

abbrev result : Option TNodes → TNodes
result none = Template.nil
result (some ts) = ts

parse_templates_xml-AllTemplates_example :
    AllTemplates (result (parse_templates_xml str_eq str_eq g m 0 0 document).0)
unfolding parse_templates_xml
parse_templates_xml-AllTemplates_example =
    parse_templates_xml-AllTemplates str_eq str_eq g m 0 0 document
      (result (parse_templates_xml str_eq str_eq g m 0 0 document).0) refl
