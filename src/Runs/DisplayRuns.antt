-- ===== src/Runs/DisplayRuns.antt =====
-- A packet with a number and a sequence of two elements, from the template file to the rows.
use Prim.Native.String.{String}
use text.Mathlib.Text.{◌==◌ as str_eq}
use fast_wireshark.Base.{
  ℕ, ◌*◌, ◌-◌, ◌+◌, ◌≡◌, refl, true, false, List, [], ◌∷◌, ◌++◌, Option, none, some, leb, ◌&&◌,
  nat_eq, ◌==◌, if◌then◌else◌,
}
use fast_wireshark.Decode.{number_decoded_bits, count_stop_bit_encoded, decode_pmap, decode_uint32}
use fast_wireshark.Dissect.Tree.{dissect_fn_map, apply_operator}
use fast_wireshark.Field.{Machine}
use fast_wireshark.Field.Conversion.{Glib}
use fast_wireshark.Template.{TNode, TNodes, node}
use fast_wireshark.Template
use fast_wireshark.Template.Table.{create_templates_table}
use fast_wireshark.Parser.Xml.{element, nil, cons}
use fast_wireshark.Parser.Templates.{Document, root, parse_templates_xml}
use fast_wireshark.Dictionaries.{State}
use fast_wireshark.Plugin.{generic, PacketData, dissect_packet}
use fast_wireshark.Plugin.Display.{DisplayPreferences, Row, Rows, Content, row, display_message}
use fast_wireshark.Plugin.Displayed.{AllShown}
use fast_wireshark.Plugin.EndToEnd.{dissected, dissect_packet-AllShown}
use fast_wireshark.Dissect.Node.{DNode}
use fast_wireshark.Runs.DictionaryRuns.{lists}
use fast_wireshark.Runs.Data.{machine, start, blank}

abbrev read : ℕ → List ℕ → ℕ
read acc [] = acc
read acc (c ∷ cs) = read (acc * 10 + (c - b'0')) cs

abbrev g : Glib
g = record {
  strtoull = read 0;
  strtoll = read 0;
  atoi = read 0;
  isdigit = λ c. leb b'0' c && leb c b'9';
  xdigit_value = λ c. if leb b'0' c && leb c b'9' then some (c - b'0') else none;
}

abbrev attribute : String → String → String → Option String
attribute name value asked = if str_eq asked name then some value else none

abbrev bare : String → Option String
bare asked = none

abbrev document : Document
document = root (
    element "templates" 1 bare (
      cons
        (element "template" 2 (attribute "id" "7") (
          cons (element "uInt32" 3 (attribute "name" "a") nil)
            (cons (element "sequence" 4 bare (cons (element "uInt32" 5 bare nil) nil)) nil)))
        nil))

-- The presence map, the template's identifier, 2, a length of 2, and the elements 1 and 3.
abbrev packet : List ℕ
packet = 192 ∷ 135 ∷ 130 ∷ 130 ∷ 129 ∷ 131 ∷ []

abbrev m : Machine
m = machine packet

abbrev result : Option TNodes → TNodes
result none = Template.nil
result (some ts) = ts

abbrev templates : TNodes
templates = result (parse_templates_xml str_eq str_eq g m 0 0 document).0

file : (parse_templates_xml str_eq str_eq g m 0 0 document).0 ≡ some templates
unfolding parse_templates_xml
file = refl

abbrev prefs : DisplayPreferences
prefs = record {
  sci_notation = true;
  show_empty_optional_fields = true;
  field_info = record {
    show_field_dictionaries = false;
    show_field_keys = false;
    show_field_operators = false;
    show_field_mandatoriness = false;
  };
}

abbrev dissection : Option (PacketData (State lists ℕ nat_eq))
dissection =
    dissected lists ℕ nat_eq m blank 0 str_eq str_eq g document templates 0 file generic 1 2
      (start 0) 0 6 0 none prefs

abbrev got : PacketData (State lists ℕ nat_eq)
got = elim dissection [
  | some s ↦ s
  | none ↦ record { position = start 0; template_id = 0; store = none; trees = []; fault = true }
]

run : dissection ≡ some got
unfolding dissect_packet parse_templates_xml number_decoded_bits count_stop_bit_encoded decode_pmap
    decode_uint32 dissect_fn_map apply_operator create_templates_table
run = refl

dissect_packet-AllShown_example : AllShown m prefs got.trees
dissect_packet-AllShown_example =
    dissect_packet-AllShown lists ℕ nat_eq m blank 0 str_eq str_eq g document templates 0 file
      generic 1 2 (start 0) 0 6 0 none prefs got run

-- The window and the content of each row, the rows below one behind it.
mutual
  contents : Rows → List (ℕ × ℕ × Content)
  contents Rows.nil = []
  contents (Rows.cons r rs) = row_contents r ++ contents rs

  row_contents : Row → List (ℕ × ℕ × Content)
  row_contents (row l below) = (l.start, l.nbytes, l.content) ∷ contents below

abbrev all_contents : List (TNode × DNode) → List (ℕ × ℕ × Content)
all_contents [] = []
all_contents ((t, d) ∷ rest) =
    elim (display_message m prefs t d) [ none ↦ [] | some rows ↦ contents rows ]
    ++ all_contents rest

rows :
    all_contents got.trees
    ≡ (1, 5, Content.message)
      ∷ (2, 1, Content.uint32_row 2)
      ∷ (3, 3, Content.sequence 2)
      ∷ (4, 1, Content.group)
      ∷ (4, 1, Content.uint32_row 1)
      ∷ (5, 1, Content.group)
      ∷ (5, 1, Content.uint32_row 3)
      ∷ []
unfolding dissect_packet parse_templates_xml number_decoded_bits count_stop_bit_encoded decode_pmap
    decode_uint32 dissect_fn_map apply_operator create_templates_table display_message contents
rows = refl
