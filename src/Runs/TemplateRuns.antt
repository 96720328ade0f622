-- ===== src/Runs/TemplateRuns.antt =====
-- The marking of a template with a group in it.
use fast_wireshark.Base.{◌≡◌, true, false, none, some, nat_eq}
use fast_wireshark.Field.{FieldTypeIdentifier, FieldOperatorIdentifier}
use fast_wireshark.Template.{
  FieldType, TNode, TNodes, node, nil, cons, requires_pmap_bit, set_pmap_exists,
  fixup_walk_template,
}
use fast_wireshark.Template.Fixup.{fixup_walk_template-all_marked}
use fast_wireshark.Template.Table.{create_templates_table, lookup-create_templates_table}
use fast_wireshark.Runs.DictionaryRuns.{lists}
use fast_wireshark.Runs.Data.{no_value}

abbrev field : FieldTypeIdentifier → FieldOperatorIdentifier → FieldType
field type op = record {
  name = none;
  id = 0;
  tid = 1;
  key = none;
  mandatory = true;
  type = type;
  op = op;
  has_default = false;
  value = no_value;
  dictionary = none;
}

abbrev template : FieldType
template = field FieldTypeIdentifier.group FieldOperatorIdentifier.no_operator

abbrev copied : TNode
copied = node (field FieldTypeIdentifier.uint32 FieldOperatorIdentifier.copy) nil

-- A group with a field that asks for a bit, which the template around it does not need.
fixup_walk_template-all_marked_example :
    fixup_walk_template template (cons (node template (cons copied nil)) nil)
    ≡ (template, cons (node (set_pmap_exists template) (cons copied nil)) nil)
unfolding requires_pmap_bit
fixup_walk_template-all_marked_example =
    fixup_walk_template-all_marked template (cons (node template (cons copied nil)) nil)

-- Two templates with one identifier: a message has the second.
abbrev two : TNodes
two = cons (node template nil) (cons (node template (cons copied nil)) nil)

lookup-create_templates_table_example :
    lists.lookup nat_eq (create_templates_table lists two) 0
    ≡ some (node (set_pmap_exists template) (cons copied nil))
unfolding requires_pmap_bit
lookup-create_templates_table_example = lookup-create_templates_table lists two 0
