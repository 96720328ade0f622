-- ===== src/Parser/Parts.antt =====
-- The parts that the parser makes for a field: a length, an exponent and a mantissa.
use Prim.Native.String.{String}
use fast_wireshark.Base.{ℕ, ◌≡◌, refl, ◌∙◌, Bool, true, Option, Bool-cases, inl, inr}
use fast_wireshark.Field.{FieldTypeIdentifier, FieldOperatorIdentifier, Machine}
use fast_wireshark.Field.Conversion.{Glib}
use fast_wireshark.Template.{FieldType}
use fast_wireshark.Parser.Xml.{XmlNode, XmlNodes, nil, cons, name_of, children_of, ignore_xml_node}
use fast_wireshark.Parser.Operator.{parse_operator, set_field_attributes, check_valid_operator}
use fast_wireshark.Parser.Tree.{
  new_field, Decimal, parse_part, length_loop, prepend_length, decimal_children,
}
use fast_wireshark.Parser.Keeps.{
  Keeps, OperatorFits, parse_operator-FieldRead, parse_field_operator-FieldRead,
  set_field_attributes-Attributed,
}
use fast_wireshark.Parser.Shape.{is_some, given_or-is_some}

-- A field of a given type with an operator that the type may have.
pub record Fitting (type : FieldTypeIdentifier) (f : FieldType) : Type 0 where
  pub has_type : f.type ≡ type
  pub fits : OperatorFits f

-- A part that belongs to the template and names a dictionary.
pub record Part (template_id : ℕ) (type : FieldTypeIdentifier) (f : FieldType) : Type 0 where
  pub fitting : Fitting type f
  pub of_template : f.tid ≡ template_id
  pub has_dictionary : is_some f.dictionary ≡ true

module _ (strcase_eq : String → String → Bool) (g : Glib) (m : Machine)
    (fresh_tid template_id : ℕ) where
  parse_part-Fitting :
      (type : FieldTypeIdentifier) (n : XmlNode) (f : FieldType)
      → Fitting type f
      → (parse_part strcase_eq g m fresh_tid template_id n f).valid ≡ true
      → Fitting type (parse_part strcase_eq g m fresh_tid template_id n f).field
  unfolding parse_part
  parse_part-Fitting type n f fit valid =
      let f' = (set_field_attributes strcase_eq g m template_id n f).0 in
      let a = set_field_attributes-Attributed strcase_eq g m template_id n f in
      let r = parse_field_operator-FieldRead strcase_eq g m n f' (rw (a.op, a.type) fit.fits) in
      record { has_type = r.keeps.type ∙ a.type ∙ fit.has_type; fits = r.fits valid }

  length_loop-Fitting :
      (type : FieldTypeIdentifier) (ns : XmlNodes) (f : FieldType)
      → Fitting type f
      → (length_loop strcase_eq g m fresh_tid template_id ns f).valid ≡ true
      → Fitting type (length_loop strcase_eq g m fresh_tid template_id ns f).field
  unfolding length_loop
  length_loop-Fitting type nil f fit = λ e. fit
  length_loop-Fitting type (cons n ns) f fit =
      let p = parse_part strcase_eq g m fresh_tid template_id n f in
      elim (Bool-cases (strcase_eq (name_of n) "length")) [
        | inr other ↦ rw other (length_loop-Fitting type ns f fit)
        | inl here ↦ elim (Bool-cases p.valid) [
          | inl ok ↦
              rw (here, ok)
                (length_loop-Fitting type ns p.field (parse_part-Fitting type n f fit ok))
          | inr bad ↦ rw (here, bad) (λ e. cc)
        ]
      ]

  pub new-Fitting :
      (type : FieldTypeIdentifier)
      → Fitting type (new_field fresh_tid type FieldOperatorIdentifier.no_operator)
  unfolding new_field check_valid_operator
  new-Fitting type = record { has_type = refl; fits = refl }

  pub prepend_length-Part :
      (n : XmlNode) (parent : FieldType) (dictionary : Option String)
      → is_some dictionary ≡ true
      → (prepend_length strcase_eq g m fresh_tid template_id n parent dictionary).valid ≡ true
      → Part template_id FieldTypeIdentifier.uint32
          (prepend_length strcase_eq g m fresh_tid template_id n parent dictionary).field
  unfolding prepend_length
  prepend_length-Part n parent dictionary d valid =
      let fit =
        length_loop-Fitting FieldTypeIdentifier.uint32 (children_of n) _
          (new-Fitting FieldTypeIdentifier.uint32) valid in
      rw valid (record {
        fitting = record { has_type = fit.has_type; fits = fit.fits };
        of_template = refl;
        has_dictionary = given_or-is_some _ dictionary d;
      })

  -- The loop over the parts of a decimal.
  pub record DecimalFits (start : FieldType) (d : Decimal) : Type 0 where
    pub field : Keeps start d.field
    pub expt : Fitting FieldTypeIdentifier.int32 d.expt
    pub mant : Fitting FieldTypeIdentifier.int64 d.mant

  pub decimal_children-DecimalFits :
      (ns : XmlNodes) (start : FieldType) (d : Decimal)
      → DecimalFits start d
      → (decimal_children strcase_eq g m fresh_tid template_id ns d).0 ≡ true
      → DecimalFits start (decimal_children strcase_eq g m fresh_tid template_id ns d).1
  unfolding decimal_children
  decimal_children-DecimalFits nil start d fit = λ e. fit
  decimal_children-DecimalFits (cons n ns) start d fit =
      let expt = parse_part strcase_eq g m fresh_tid template_id n d.expt in
      let mant = parse_part strcase_eq g m fresh_tid template_id n d.mant in
      let op = parse_operator strcase_eq g m n d.field in
      elim (Bool-cases (ignore_xml_node strcase_eq n)) [
        | inl ignored ↦ rw ignored (decimal_children-DecimalFits ns start d fit)
        | inr taken ↦ elim (Bool-cases (strcase_eq (name_of n) "exponent")) [
          | inl e ↦ elim (Bool-cases expt.valid) [
            | inl ok ↦
                rw (taken, e, ok)
                  (decimal_children-DecimalFits ns start (record d { expt = expt.field })
                    (record {
                      field = fit.field;
                      expt = parse_part-Fitting FieldTypeIdentifier.int32 n d.expt fit.expt ok;
                      mant = fit.mant;
                    }))
            | inr bad ↦ rw (taken, e, bad) (λ v. cc)
          ]
          | inr e ↦ elim (Bool-cases (strcase_eq (name_of n) "mantissa")) [
            | inl t ↦ elim (Bool-cases mant.valid) [
              | inl ok ↦
                  rw (taken, e, t, ok)
                    (decimal_children-DecimalFits ns start (record d { mant = mant.field })
                      (record {
                        field = fit.field;
                        expt = fit.expt;
                        mant = parse_part-Fitting FieldTypeIdentifier.int64 n d.mant fit.mant ok;
                      }))
              | inr bad ↦ rw (taken, e, t, bad) (λ v. cc)
            ]
            | inr t ↦
                let r = parse_operator-FieldRead strcase_eq g m n d.field in
                rw (taken, e, t)
                  (decimal_children-DecimalFits ns start (record d { field = op.field })
                    (record {
                      field = record {
                        type = r.keeps.type ∙ fit.field.type;
                        tid = r.keeps.tid ∙ fit.field.tid;
                        dictionary = r.keeps.dictionary ∙ fit.field.dictionary;
                      };
                      expt = fit.expt;
                      mant = fit.mant;
                    }))
          ]
        ]
      ]
