-- ===== src/Parser/Templates.antt =====
-- A template, and the file of templates.
use Prim.Native.String.{String}
use fast_wireshark.Base.{ℕ, ◌-◌, ◌^◌, Bool, [], ◌∷◌, ◌++◌, Option, none, some, if◌then◌else◌}
use fast_wireshark.Field.{FieldTypeIdentifier, FieldOperatorIdentifier, Machine}
use fast_wireshark.Field.Conversion.{Glib}
use fast_wireshark.Template.{FieldType, TNode, TNodes, node}
use fast_wireshark.Template
use fast_wireshark.Parser.Xml.{
  XmlNode, XmlNodes, nil, cons, name_of, children_of, Log, ignore_xml_node,
}
use fast_wireshark.Parser.Operator.{log_error, set_field_attributes}
use fast_wireshark.Parser.Tree.{new_field, field_of, dictionary_or, parser_walk_children}

abbrev pub global_dictionary : String
global_dictionary = "global"

-- A file that libxml2 refuses, a document without a root, and a document.
pub data Document : Type 0 where
  refused empty : Document
  root : XmlNode → Document

module _ (strcase_eq strcmp_eq : String → String → Bool) (g : Glib) (m : Machine)
    (fresh_tid : ℕ) where
  -- The field of a template. `template_id` is the static variable before the call; afterwards it is
  -- the `tid` of the field.
  unfoldable pub template_field : ℕ → XmlNode → FieldType × Log
  unfolding set_field_attributes new_field
  template_field template_id n =
      let (own, log) =
        set_field_attributes strcase_eq g m template_id n
          (new_field fresh_tid FieldTypeIdentifier.uint32 FieldOperatorIdentifier.copy) in
      let tfield = dictionary_or own (some global_dictionary) in
      (record tfield { tid = tfield.id }, log)

  unfoldable pub parse_template : ℕ → XmlNode → TNode × Log
  unfolding template_field parser_walk_children
  parse_template template_id n =
      let (tfield, log) = template_field template_id n in
      let (children, log') =
        parser_walk_children strcase_eq g m fresh_tid tfield.tid tfield.dictionary
          (children_of n) in
      (node tfield children, log ++ log')

  -- The loop over the children of the root.
  unfoldable pub templates_loop : ℕ → XmlNodes → TNodes × Log
  unfolding ignore_xml_node parse_template
  templates_loop template_id nil = (Template.nil, [])
  templates_loop template_id (cons n ns) =
      let (t, log) = parse_template template_id n in
      let skipped = templates_loop template_id ns in
      let rest = templates_loop (field_of t).tid ns in
      if ignore_xml_node strcase_eq n
      then skipped
      else (if strcase_eq (name_of n) "template"
          then (Template.cons t rest.0, log ++ rest.1)
          else (skipped.0, log_error 1 n ++ skipped.1))

  unfoldable pub parse_templates_xml : ℕ → Document → Option TNodes × Log
  unfolding templates_loop
  parse_templates_xml template_id refused = (none, record { err_no = 1; line = 2 ^ 32 - 1 } ∷ [])
  parse_templates_xml template_id empty = (none, [])
  parse_templates_xml template_id (root n) =
      let (ts, log) = templates_loop template_id (children_of n) in
      if strcmp_eq (name_of n) "templates" then (some ts, log) else (none, log_error 1 n)
