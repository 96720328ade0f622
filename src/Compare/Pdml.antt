-- ===== src/Compare/Pdml.antt =====
-- pdmlParser.c: the plan file that is made of the packet details that TShark exports.
use fast_wireshark.Base.{
  ℕ, ◌+◌, ◌%◌, ◌^◌, Bool, true, false, [], ◌∷◌, drop, length, ◌&&◌, ltb, ◌==◌, Option, none, some,
  if◌then◌else◌,
}
use fast_wireshark.Compare.{
  Text, codes, XmlNode, XmlNodes, element, nil, cons, name_of, get_prop, children_of, matches,
  ignore_xml_node,
}
use fast_wireshark.Compare.Writer.{
  TextWriter, and_if, write_nested_type, close_nested_type, write_field, init_xml_writer,
  close_and_write_xml_output,
}

-- `xmlStrlen` of a null pointer is 0.
unfoldable pub get_field_type : Option Text → Option Text
get_field_type none = none
get_field_type (some fullname) = if ltb (length fullname) 6 then none else some (drop 5 fullname)

-- `xmlStrchr` for the colon: the rest of the text from it on.
unfoldable pub from_colon : Text → Option Text
from_colon [] = none
from_colon (c ∷ cs) = let rest = from_colon cs in if c == b':' then some (c ∷ cs) else rest

-- The colon and the character behind it are skipped, unless the text ends with the colon.
abbrev pub past_colon : Text → Text
past_colon (c ∷ d ∷ cs) = cs
past_colon cs = []

unfoldable pub field_value : Option Text → Option Text
unfolding from_colon
field_value none = none
field_value (some prop) = elim (from_colon prop) [
  | none ↦ none
  | some value ↦ some (past_colon value)
]

module _ (strcase_eq : Text → Text → Bool) where
  -- The element that is opened for a type that has fields, or none.
  unfoldable pub nested_name : Text → Option Text
  nested_name type =
      if strcase_eq type (codes "tid")
      then some (codes "Message")
      else (if strcase_eq type (codes "group")
          then some (codes "group")
          else (if strcase_eq type (codes "sequence") then some (codes "sequence") else none))

-- `str_eq` is `xmlStrcmp` with the result 0.
module _ (strcase_eq str_eq : Text → Text → Bool) {W : Type 0} (api : TextWriter W) where
  unfoldable mutual
    unfolding get_field_type field_value nested_name write_nested_type close_nested_type write_field
        ignore_xml_node

    pub parse_field : XmlNode → W → W × Bool
    parse_field (element name line prop children) w = elim (get_field_type (prop (codes "name"))) [
      | none ↦ (w, false)
      | some type ↦
          let value = field_value (prop (codes "showname")) in
          elim (nested_name strcase_eq type) [
            | none ↦ write_field api type value w
            | some nested ↦
                and_if api
                  (and_if api (write_nested_type api nested value w) (walk_fields children))
                  (close_nested_type api)
          ]
    ]

    -- `walkFields` over the children of a node.
    pub walk_fields : XmlNodes → W → W × Bool
    walk_fields nil w = (w, true)
    walk_fields (cons n ns) w = elim (ignore_xml_node strcase_eq n) [
      | true ↦ walk_fields ns w
      | false ↦ elim (str_eq (name_of n) (codes "field")) [
        | true ↦ and_if api (parse_field n w) (walk_fields ns)
        | false ↦ walk_fields ns w
      ]
    ]

  unfoldable pub parse_template : XmlNode → W → W × Bool
  unfolding parse_field
  parse_template n w = parse_field n w

  -- The writer, `parsedFastPackets` and whether there was no error.
  pub record Parsed : Type 0 where
    pub writer : W
    pub fast_packets : ℕ
    pub success : Bool

  -- The loop of `parseFastPacket`, over the fields of the protocol.
  unfoldable pub fast_fields : XmlNodes → W → W × Bool
  unfolding parse_template ignore_xml_node
  fast_fields nil w = (w, true)
  fast_fields (cons n ns) w = elim (ignore_xml_node strcase_eq n) [
    | true ↦ fast_fields ns w
    | false ↦
        elim (str_eq (name_of n) (codes "field")
          && matches str_eq (get_prop n (codes "name")) (codes "fast.tid")) [
            | true ↦ and_if api (parse_template n w) (fast_fields ns)
            | false ↦ fast_fields ns w
          ]
  ]

  unfoldable pub parse_fast_packet : XmlNode → W → ℕ → Parsed
  unfolding fast_fields
  parse_fast_packet n w count =
      let (w', good) = fast_fields (children_of n) w in
      record {
        writer = w';
        fast_packets = if good then (count + 1) % 2 ^ 32 else count;
        success = good;
      }

  abbrev pub and_parsed : Parsed → (W → ℕ → Parsed) → Parsed
  and_parsed s k = if s.success then k s.writer s.fast_packets else s

  -- The loop of `parsePacket`, over the protocols of the packet.
  unfoldable pub packet_protos : XmlNodes → W → ℕ → Parsed
  unfolding parse_fast_packet ignore_xml_node
  packet_protos nil w count = record { writer = w; fast_packets = count; success = true }
  packet_protos (cons n ns) w count = elim (ignore_xml_node strcase_eq n) [
    | true ↦ packet_protos ns w count
    | false ↦
        elim (str_eq (name_of n) (codes "proto")
          && matches str_eq (get_prop n (codes "name")) (codes "fast")) [
            | true ↦ and_parsed (parse_fast_packet n w count) (packet_protos ns)
            | false ↦ packet_protos ns w count
          ]
  ]

  unfoldable pub parse_packet : XmlNode → W → ℕ → Parsed
  unfolding packet_protos
  parse_packet n w count = packet_protos (children_of n) w count

  -- The loop of `parseDoc`, over the children of the root.
  unfoldable pub doc_packets : XmlNodes → W → ℕ → Parsed
  unfolding parse_packet ignore_xml_node
  doc_packets nil w count = record { writer = w; fast_packets = count; success = true }
  doc_packets (cons n ns) w count = elim (ignore_xml_node strcase_eq n) [
    | true ↦ doc_packets ns w count
    | false ↦ elim (str_eq (name_of n) (codes "packet")) [
      | true ↦ and_parsed (parse_packet n w count) (doc_packets ns)
      | false ↦ doc_packets ns w count
    ]
  ]

  -- The document as libxml2 gives it: `none` where it cannot be parsed, and no root where it is
  -- empty.
  unfoldable pub parse_doc : Option (Option XmlNode) → W → ℕ → Parsed
  unfolding doc_packets
  parse_doc (some (some root)) w count = doc_packets (children_of root) w count
  parse_doc _ w count = record { writer = w; fast_packets = count; success = false }

  -- `generatePlanFromPDML`, where the writer `w` is made for the output file.
  unfoldable pub generate_plan_from_pdml : Option (Option XmlNode) → W → Parsed
  unfolding parse_doc init_xml_writer close_and_write_xml_output
  generate_plan_from_pdml doc w =
      let (w', good) = init_xml_writer api w in
      let s = parse_doc doc w' 0 in
      if good
      then (if s.success then record s { writer = close_and_write_xml_output api s.writer } else s)
      else record { writer = w'; fast_packets = 0; success = false }
