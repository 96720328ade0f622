-- ===== src/Parser/FieldShape.antt =====
-- The fields with an operator and their parts are well formed.
use Prim.Native.String.{String}
use mathlib.Core.Path.{subst}
use fast_wireshark.Base.{ℕ, ◌≡◌, refl, ◌∙◌, sym, Bool, true, Bool-cases, inl, inr}
use fast_wireshark.Field.{FieldTypeIdentifier, FieldOperatorIdentifier, Machine}
use fast_wireshark.Field.Conversion.{Glib}
use fast_wireshark.Template.{FieldType, TNode, TNodes, node}
use fast_wireshark.Template
use fast_wireshark.Parser.Xml.{XmlNode, children_of, Log}
use fast_wireshark.Parser.Operator.{parse_field_operator, check_valid_operator}
use fast_wireshark.Parser.Tree.{
  new_field, with_type, parse_decimal, plain_field, sized_field, parse_as,
}
use fast_wireshark.Parser.Keeps.{OperatorFits, parse_field_operator-FieldRead}
use fast_wireshark.Parser.Shape.{
  is_some, given_or-is_some, PartsFit, FieldFits, WellFormed, AllWellFormed,
}
use fast_wireshark.Parser.Parts.{
  Part, new-Fitting, prepend_length-Part, decimal_children-DecimalFits,
}

-- A field whose attributes are read: it belongs to the template, names a dictionary and has no
-- operator yet.
pub record Started (template_id : ℕ) (f : FieldType) : Type 0 where
  pub of_template : f.tid ≡ template_id
  pub has_dictionary : is_some f.dictionary ≡ true
  pub op : f.op ≡ FieldOperatorIdentifier.no_operator

pub well_formed :
    (template_id : ℕ) (type : FieldTypeIdentifier) (f : FieldType) (ts : TNodes)
    → f.type ≡ type
    → PartsFit type ts
    → FieldFits template_id type f
    → AllWellFormed template_id ts
    → WellFormed template_id (node f ts)
well_formed template_id type f ts e parts fits all =
    (rw e parts, subst (λ t. FieldFits template_id t f) (sym e) fits, all)

pub started-OperatorFits :
    (f : FieldType) (type : FieldTypeIdentifier)
    → f.op ≡ FieldOperatorIdentifier.no_operator
    → OperatorFits (with_type f type)
unfolding check_valid_operator
started-OperatorFits f type e = rw e refl

-- The plain shape of a type's own field.
abbrev pub Ordinary : ℕ → FieldTypeIdentifier → Type 0
Ordinary template_id type =
    (f : FieldType)
    → f.tid ≡ template_id
    → is_some f.dictionary ≡ true
    → OperatorFits f
    → FieldFits template_id type f

module _ (strcase_eq : String → String → Bool) (g : Glib) (m : Machine)
    (fresh_tid template_id : ℕ) where
  pub new-op :
      (new_field fresh_tid FieldTypeIdentifier.invalid FieldOperatorIdentifier.no_operator).op
      ≡ FieldOperatorIdentifier.no_operator
  unfolding new_field
  new-op = refl

  pub plain_field-WellFormed :
      (type : FieldTypeIdentifier)
      → PartsFit type Template.nil
      → Ordinary template_id type
      → (n : XmlNode) (f : FieldType) → Started template_id f
      → (plain_field strcase_eq g m fresh_tid template_id type n f).0 ≡ true
      → WellFormed template_id (plain_field strcase_eq g m fresh_tid template_id type n f).1
  unfolding plain_field
  plain_field-WellFormed type parts ordinary n f s valid =
      let r =
        parse_field_operator-FieldRead strcase_eq g m n (with_type f type)
          (started-OperatorFits f type s.op) in
      well_formed template_id type _ Template.nil r.keeps.type parts
        (ordinary _ (r.keeps.tid ∙ s.of_template) (rw r.keeps.dictionary s.has_dictionary)
          (r.fits valid))
        tt

  part-WellFormed :
      (type : FieldTypeIdentifier)
      → PartsFit type Template.nil
      → Ordinary template_id type
      → (f : FieldType) → Part template_id type f
      → WellFormed template_id (node f Template.nil)
  part-WellFormed type parts ordinary f p =
      well_formed template_id type f Template.nil p.fitting.has_type parts
        (ordinary f p.of_template p.has_dictionary p.fitting.fits) tt

  pub uint32-WellFormed :
      (f : FieldType)
      → Part template_id FieldTypeIdentifier.uint32 f
      → WellFormed template_id (node f Template.nil)
  uint32-WellFormed = part-WellFormed FieldTypeIdentifier.uint32 tt (λ f a b c. (a, b, c))

  -- A field with a length in front of it.
  pub sized_field-WellFormed :
      (type : FieldTypeIdentifier)
      → ((f : FieldType)
          → f.type ≡ FieldTypeIdentifier.uint32
          → PartsFit type (Template.cons (node f Template.nil) Template.nil))
      → Ordinary template_id type
      → (n : XmlNode) (f : FieldType) → Started template_id f
      → (sized_field strcase_eq g m fresh_tid template_id type n f).0 ≡ true
      → WellFormed template_id (sized_field strcase_eq g m fresh_tid template_id type n f).1
  unfolding sized_field
  sized_field-WellFormed type parts ordinary n f s =
      let p = parse_field_operator strcase_eq g m n (with_type f type) in
      let r =
        parse_field_operator-FieldRead strcase_eq g m n (with_type f type)
          (started-OperatorFits f type s.op) in
      let d : is_some p.field.dictionary ≡ true = rw r.keeps.dictionary s.has_dictionary in
      elim (Bool-cases p.valid) [
        | inr bad ↦ rw bad (λ e. cc)
        | inl ok ↦ rw ok (λ valid.
            let l =
              prepend_length-Part strcase_eq g m fresh_tid template_id n p.field p.field.dictionary
                d valid in
            well_formed template_id type p.field _ r.keeps.type (parts _ l.fitting.has_type)
              (ordinary p.field (r.keeps.tid ∙ s.of_template) d (r.fits ok))
              (uint32-WellFormed _ l, tt))
      ]

  pub parse_decimal-WellFormed :
      (n : XmlNode) (f : FieldType) (walked : TNodes × Log)
      → Started template_id f
      → (parse_as strcase_eq g m fresh_tid template_id FieldTypeIdentifier.decimal n f walked).0
        ≡ true
      → WellFormed template_id
          (parse_as strcase_eq g m fresh_tid template_id FieldTypeIdentifier.decimal n f walked).1
  unfolding parse_as parse_decimal
  parse_decimal-WellFormed n f walked s valid =
      let start = with_type f FieldTypeIdentifier.decimal in
      let fit =
        decimal_children-DecimalFits strcase_eq g m fresh_tid template_id (children_of n) start
          (record {
            field = start;
            expt =
                new_field fresh_tid FieldTypeIdentifier.int32 FieldOperatorIdentifier.no_operator;
            mant =
                new_field fresh_tid FieldTypeIdentifier.int64 FieldOperatorIdentifier.no_operator;
          })
          (record {
            field = record { type = refl; tid = refl; dictionary = refl };
            expt = new-Fitting strcase_eq g m fresh_tid template_id FieldTypeIdentifier.int32;
            mant = new-Fitting strcase_eq g m fresh_tid template_id FieldTypeIdentifier.int64;
          })
          valid in
      rw valid (
        well_formed template_id FieldTypeIdentifier.decimal _ _ fit.field.type
          (fit.expt.has_type, (fit.mant.has_type, tt))
          (fit.field.tid ∙ s.of_template, rw fit.field.dictionary s.has_dictionary)
          (
            part-WellFormed FieldTypeIdentifier.int32 tt (λ f a b c. (a, b, c)) _
                (record {
                  fitting = record { has_type = fit.expt.has_type; fits = fit.expt.fits };
                  of_template = refl;
                  has_dictionary = given_or-is_some _ f.dictionary s.has_dictionary;
                }),
            (
              part-WellFormed FieldTypeIdentifier.int64 tt (λ f a b c. (a, b, c)) _
                  (record {
                    fitting = record { has_type = fit.mant.has_type; fits = fit.mant.fits };
                    of_template = refl;
                    has_dictionary = given_or-is_some _ f.dictionary s.has_dictionary;
                  }),
              tt,
            ),
          ))
