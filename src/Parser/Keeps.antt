-- ===== src/Parser/Keeps.antt =====
-- What reading an operator and attributes leaves of a field, and which operators it lets pass.
use Prim.Native.String.{String}
use fast_wireshark.Base.{ℕ, ◌≡◌, refl, Bool, true, ◌&&◌, Option, none, some, Bool-cases, inl, inr}
use fast_wireshark.Field.{FieldOperatorIdentifier, Machine}
use fast_wireshark.Field.Conversion.{Glib}
use fast_wireshark.Template.{FieldType}
use fast_wireshark.Parser.Xml.{XmlNode, XmlNodes, nil, cons, children_of, get_prop, ignore_xml_node}
use fast_wireshark.Parser.Operator.{
  Parsed, is_constant, is_default, check_valid_operator, operator_of, set_operator_value,
  operator_by, parse_operator, operator_loop, parse_field_operator, set_presence,
  set_field_attributes,
}

-- The parts of a field that its operator does not change.
pub record Keeps (f f' : FieldType) : Type 0 where
  pub type : f'.type ≡ f.type
  pub tid : f'.tid ≡ f.tid
  pub dictionary : f'.dictionary ≡ f.dictionary

-- The operator is one that the type may have.
abbrev pub OperatorFits : FieldType → Type 0
OperatorFits f = check_valid_operator f.op f.type ≡ true

-- A field that was read, from `f`.
pub record FieldRead (f : FieldType) (p : Parsed) : Type 0 where
  pub keeps : Keeps f p.field
  pub fits : p.valid ≡ true → OperatorFits p.field

-- Attributes change neither the type nor the operator, and set the current template.
pub record Attributed (template_id : ℕ) (f f' : FieldType) : Type 0 where
  pub type : f'.type ≡ f.type
  pub op : f'.op ≡ f.op
  pub tid : f'.tid ≡ template_id

module _ (strcase_eq : String → String → Bool) (g : Glib) (m : Machine) where
  value-Keeps :
      (n : XmlNode) (prop : Option String) (f : FieldType)
      → Keeps f (set_operator_value strcase_eq g m n prop f).field
        × ((set_operator_value strcase_eq g m n prop f).field.op ≡ f.op)
  unfolding set_operator_value
  value-Keeps n (some prop) f = (record { type = refl; tid = refl; dictionary = refl }, refl)
  value-Keeps n none f = elim (Bool-cases (is_constant f.op)) [
    | inl c ↦ rw c (record { type = refl; tid = refl; dictionary = refl }, refl)
    | inr c ↦ elim (Bool-cases (is_default f.op && f.mandatory)) [
      | inl d ↦ rw (c, d) (record { type = refl; tid = refl; dictionary = refl }, refl)
      | inr d ↦ rw (c, d) (record { type = refl; tid = refl; dictionary = refl }, refl)
    ]
  ]

  operator_by-FieldRead :
      (n : XmlNode) (f : FieldType) (op : Option FieldOperatorIdentifier)
      → FieldRead f (operator_by strcase_eq g m n f op)
  unfolding operator_by
  operator_by-FieldRead n f none = record {
    keeps = record { type = refl; tid = refl; dictionary = refl };
    fits = λ e. cc;
  }
  operator_by-FieldRead n f (some op) = elim (Bool-cases (check_valid_operator op f.type)) [
    | inl ok ↦
        let (keeps, same) = value-Keeps n (get_prop n "value") (record f { op = op }) in
        rw ok (record {
          keeps = record { type = keeps.type; tid = keeps.tid; dictionary = keeps.dictionary };
          fits = λ e. rw (same, keeps.type) ok;
        })
    | inr bad ↦
        rw bad
          (record { keeps = record { type = refl; tid = refl; dictionary = refl }; fits = λ e. cc })
  ]

  pub parse_operator-FieldRead :
      (n : XmlNode) (f : FieldType) → FieldRead f (parse_operator strcase_eq g m n f)
  unfolding parse_operator
  parse_operator-FieldRead n f = operator_by-FieldRead n f (operator_of strcase_eq g m n)

  operator_loop-FieldRead :
      (ns : XmlNodes) (f : FieldType)
      → OperatorFits f
      → FieldRead f (operator_loop strcase_eq g m ns f)
  unfolding operator_loop
  operator_loop-FieldRead nil f ok = record {
    keeps = record { type = refl; tid = refl; dictionary = refl };
    fits = λ e. ok;
  }
  operator_loop-FieldRead (cons n ns) f ok = elim (Bool-cases (ignore_xml_node strcase_eq n)) [
    | inl ignored ↦ rw ignored (operator_loop-FieldRead ns f ok)
    | inr taken ↦ rw taken (parse_operator-FieldRead n f)
  ]

  pub parse_field_operator-FieldRead :
      (n : XmlNode) (f : FieldType)
      → OperatorFits f
      → FieldRead f (parse_field_operator strcase_eq g m n f)
  unfolding parse_field_operator
  parse_field_operator-FieldRead n f ok = operator_loop-FieldRead (children_of n) f ok

  presence-Keeps :
      (n : XmlNode) (prop : Option String) (f : FieldType)
      → Keeps f (set_presence strcase_eq g m n prop f).0
        × ((set_presence strcase_eq g m n prop f).0.op ≡ f.op)
  unfolding set_presence
  presence-Keeps n none f = (record { type = refl; tid = refl; dictionary = refl }, refl)
  presence-Keeps n (some str) f = elim (Bool-cases (strcase_eq str "optional")) [
    | inl o ↦ rw o (record { type = refl; tid = refl; dictionary = refl }, refl)
    | inr o ↦ elim (Bool-cases (strcase_eq str "mandatory")) [
      | inl d ↦ rw (o, d) (record { type = refl; tid = refl; dictionary = refl }, refl)
      | inr d ↦ rw (o, d) (record { type = refl; tid = refl; dictionary = refl }, refl)
    ]
  ]

  pub set_field_attributes-Attributed :
      (template_id : ℕ) (n : XmlNode) (f : FieldType)
      → Attributed template_id f (set_field_attributes strcase_eq g m template_id n f).0
  unfolding set_field_attributes
  set_field_attributes-Attributed template_id n f =
      let (keeps, op) = presence-Keeps n (get_prop n "presence") _ in
      record { type = keeps.type; op = op; tid = keeps.tid }
