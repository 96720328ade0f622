-- ===== src/Parser/Document.antt =====
-- What a file of templates gives the dissector.
use Prim.Native.String.{String}
use mathlib.Core.Path.{subst}
use fast_wireshark.Base.{ℕ, ◌≡◌, refl, Bool, some, Bool-cases, inl, inr, some_eq}
use fast_wireshark.Field.{FieldTypeIdentifier, FieldOperatorIdentifier, Machine}
use fast_wireshark.Field.Conversion.{Glib}
use fast_wireshark.Template.{FieldType, TNode, TNodes, node}
use fast_wireshark.Template
use fast_wireshark.Parser.Xml.{XmlNode, XmlNodes, nil, cons, name_of, children_of, ignore_xml_node}
use fast_wireshark.Parser.Operator.{set_field_attributes}
use fast_wireshark.Parser.Tree.{new_field}
use fast_wireshark.Parser.Templates.{
  global_dictionary, template_field, parse_template, templates_loop, Document, refused, empty, root,
  parse_templates_xml,
}
use fast_wireshark.Parser.Keeps.{set_field_attributes-Attributed}
use fast_wireshark.Parser.Shape.{given_or-is_some, AllWellFormed}
use fast_wireshark.Parser.WalkShape.{parser_walk_children-AllWellFormed}

-- A template: an unsigned integer with the operator copy, which is the identifier of a message,
-- whose children are well formed and belong to it.
abbrev pub IsTemplate : TNode → Type 0
IsTemplate (node f children) =
    (f.type ≡ FieldTypeIdentifier.uint32)
    × (f.op ≡ FieldOperatorIdentifier.copy)
    × (f.tid ≡ f.id)
    × AllWellFormed f.id children

abbrev pub AllTemplates : TNodes → Type 0
AllTemplates Template.nil = Unit {0}
AllTemplates (Template.cons t ts) = IsTemplate t × AllTemplates ts

module _ (strcase_eq strcmp_eq : String → String → Bool) (g : Glib) (m : Machine)
    (fresh_tid : ℕ) where
  parse_template-IsTemplate :
      (template_id : ℕ) (n : XmlNode)
      → IsTemplate (parse_template strcase_eq strcmp_eq g m fresh_tid template_id n).0
  unfolding parse_template template_field new_field
  parse_template-IsTemplate template_id n =
      let start = new_field fresh_tid FieldTypeIdentifier.uint32 FieldOperatorIdentifier.copy in
      let own = (set_field_attributes strcase_eq g m template_id n start).0 in
      let a = set_field_attributes-Attributed strcase_eq g m template_id n start in
      (
        a.type,
        a.op,
        refl,
        parser_walk_children-AllWellFormed strcase_eq g m fresh_tid own.id _ (children_of n)
            (given_or-is_some own.dictionary (some global_dictionary) refl),
      )

  templates_loop-AllTemplates :
      (ns : XmlNodes) (template_id : ℕ)
      → AllTemplates (templates_loop strcase_eq strcmp_eq g m fresh_tid template_id ns).0
  unfolding templates_loop
  templates_loop-AllTemplates nil template_id = tt
  templates_loop-AllTemplates (cons n ns) template_id =
      elim (Bool-cases (ignore_xml_node strcase_eq n)) [
        | inl ignored ↦ rw ignored (templates_loop-AllTemplates ns template_id)
        | inr taken ↦ elim (Bool-cases (strcase_eq (name_of n) "template")) [
          | inl here ↦
              rw (taken, here)
                (parse_template-IsTemplate template_id n, templates_loop-AllTemplates ns _)
          | inr other ↦ rw (taken, other) (templates_loop-AllTemplates ns template_id)
        ]
      ]

-- Every template that `parse_templates_xml` returns is well formed, for every document and every
-- comparison of names: it is a uInt32 with the operator copy whose tid is its identifier, and
-- every field below it has the parts of its type (an int32 and an int64 for a decimal, a uInt32
-- for a byte vector or a unicode string, a uInt32 and a group for a sequence, none for another
-- type but a group), an operator that its type may have unless it is a decimal, and, unless it
-- is a group, the template's tid and a dictionary.
pub parse_templates_xml-AllTemplates :
    (strcase_eq strcmp_eq : String → String → Bool) (g : Glib) (m : Machine)
    (fresh_tid template_id : ℕ) (document : Document) (ts : TNodes)
    → (parse_templates_xml strcase_eq strcmp_eq g m fresh_tid template_id document).0 ≡ some ts
    → AllTemplates ts
unfolding parse_templates_xml
parse_templates_xml-AllTemplates s c g m fresh_tid template_id refused ts = λ e. cc
parse_templates_xml-AllTemplates s c g m fresh_tid template_id empty ts = λ e. cc
parse_templates_xml-AllTemplates s c g m fresh_tid template_id (root n) ts =
    elim (Bool-cases (c (name_of n) "templates")) [
      | inl here ↦ rw here (λ e.
          subst AllTemplates (some_eq e)
            (templates_loop-AllTemplates s c g m fresh_tid (children_of n) template_id))
      | inr other ↦ rw other (λ e. cc)
    ]
