-- ===== src/Parser/WalkShape.antt =====
-- Every field that the parser reads is well formed: the types, and the walk over a template's
-- elements.
use Prim.Native.String.{String}
use mathlib.Core.Path.{subst}
use fast_wireshark.Base.{
  ℕ, ◌≡◌, refl, ◌∙◌, Bool, true, false, List, [], ◌∷◌, Option, Bool-cases, Option-cases, inl, inr,
}
use fast_wireshark.Field.{FieldTypeIdentifier, FieldOperatorIdentifier, Machine}
use fast_wireshark.Field.Conversion.{Glib}
use fast_wireshark.Template.{FieldType, TNodes}
use fast_wireshark.Parser.Xml.{
  XmlNode, XmlNodes, element, nil, cons, Log, ignore_xml_node, field_type_match,
}
use fast_wireshark.Parser.Operator.{set_field_attributes}
use fast_wireshark.Parser.Tree.{
  new_field, with_type, dictionary_or, parse_as, type_among, parsed_or_error, new_parsed_field,
  parser_walk_children, field_types,
}
use fast_wireshark.Parser.Keeps.{set_field_attributes-Attributed}
use fast_wireshark.Parser.Shape.{
  is_some, given_or-is_some, WellFormed, AllWellFormed, OptionWellFormed,
}
use fast_wireshark.Parser.Parts.{new-Fitting, prepend_length-Part}
use fast_wireshark.Parser.FieldShape.{
  Started, started-OperatorFits, new-op, plain_field-WellFormed, sized_field-WellFormed,
  parse_decimal-WellFormed, uint32-WellFormed,
}

module _ (strcase_eq : String → String → Bool) (g : Glib) (m : Machine)
    (fresh_tid template_id : ℕ) where
  -- The types that an element can name.
  abbrev readable : FieldTypeIdentifier → Bool
  readable FieldTypeIdentifier.error = false
  readable FieldTypeIdentifier.enum_limit = false
  readable FieldTypeIdentifier.invalid = false
  readable type = true

  parse_as-WellFormed :
      (type : FieldTypeIdentifier)
      → readable type ≡ true
      → (n : XmlNode) (f : FieldType) (walked : TNodes × Log) → Started template_id f
      → AllWellFormed template_id walked.0
      → (parse_as strcase_eq g m fresh_tid template_id type n f walked).0 ≡ true
      → WellFormed template_id (parse_as strcase_eq g m fresh_tid template_id type n f walked).1
  unfolding parse_as
  parse_as-WellFormed FieldTypeIdentifier.uint32 r n f walked s all =
      plain_field-WellFormed strcase_eq g m fresh_tid template_id FieldTypeIdentifier.uint32 tt
        (λ f a b c. (a, b, c)) n f s
  parse_as-WellFormed FieldTypeIdentifier.uint64 r n f walked s all =
      plain_field-WellFormed strcase_eq g m fresh_tid template_id FieldTypeIdentifier.uint64 tt
        (λ f a b c. (a, b, c)) n f s
  parse_as-WellFormed FieldTypeIdentifier.int32 r n f walked s all =
      plain_field-WellFormed strcase_eq g m fresh_tid template_id FieldTypeIdentifier.int32 tt
        (λ f a b c. (a, b, c)) n f s
  parse_as-WellFormed FieldTypeIdentifier.int64 r n f walked s all =
      plain_field-WellFormed strcase_eq g m fresh_tid template_id FieldTypeIdentifier.int64 tt
        (λ f a b c. (a, b, c)) n f s
  parse_as-WellFormed FieldTypeIdentifier.ascii_string r n f walked s all =
      plain_field-WellFormed strcase_eq g m fresh_tid template_id FieldTypeIdentifier.ascii_string
        tt (λ f a b c. (a, b, c)) n f s
  parse_as-WellFormed FieldTypeIdentifier.unicode_string r n f walked s all =
      sized_field-WellFormed strcase_eq g m fresh_tid template_id FieldTypeIdentifier.unicode_string
        (λ f e. (e, tt)) (λ f a b c. (a, b, c)) n f s
  parse_as-WellFormed FieldTypeIdentifier.byte_vector r n f walked s all =
      sized_field-WellFormed strcase_eq g m fresh_tid template_id FieldTypeIdentifier.byte_vector
        (λ f e. (e, tt)) (λ f a b c. (a, b, c)) n f s
  parse_as-WellFormed FieldTypeIdentifier.decimal r n f walked s all =
      parse_decimal-WellFormed strcase_eq g m fresh_tid template_id n f walked s
  parse_as-WellFormed FieldTypeIdentifier.group r n f walked s all =
      λ valid. (tt, started-OperatorFits f FieldTypeIdentifier.group s.op, all)
  parse_as-WellFormed FieldTypeIdentifier.sequence r n f walked s all = λ valid.
      let l =
        prepend_length-Part strcase_eq g m fresh_tid template_id n
          (with_type f FieldTypeIdentifier.sequence) f.dictionary s.has_dictionary valid in
      let group = new-Fitting strcase_eq g m fresh_tid template_id FieldTypeIdentifier.group in
      (
        (l.fitting.has_type, (refl, tt)),
        (s.of_template, s.has_dictionary, started-OperatorFits f FieldTypeIdentifier.sequence s.op),
        (uint32-WellFormed strcase_eq g m fresh_tid template_id _ l, ((tt, group.fits, all), tt)),
      )
  parse_as-WellFormed FieldTypeIdentifier.error r n f walked s all = λ valid. cc
  parse_as-WellFormed FieldTypeIdentifier.enum_limit r n f walked s all = λ valid. cc
  parse_as-WellFormed FieldTypeIdentifier.invalid r n f walked s all = λ valid. cc

  abbrev AllReadable : List FieldTypeIdentifier → Type 0
  AllReadable [] = Unit {0}
  AllReadable (type ∷ types) = (readable type ≡ true) × AllReadable types

  parsed_or_error-WellFormed :
      (types : List FieldTypeIdentifier)
      → AllReadable types
      → (n : XmlNode) (f : FieldType) (walked : TNodes × Log) → Started template_id f
      → AllWellFormed template_id walked.0
      → OptionWellFormed template_id
          (parsed_or_error strcase_eq g m fresh_tid template_id n f walked
            (type_among strcase_eq types n)).0
  unfolding parsed_or_error type_among
  parsed_or_error-WellFormed [] r n f walked s all = tt
  parsed_or_error-WellFormed (type ∷ types) (r, rs) n f walked s all =
      elim (Bool-cases (field_type_match strcase_eq n type)) [
        | inr other ↦ rw other (parsed_or_error-WellFormed types rs n f walked s all)
        | inl here ↦
            elim (Bool-cases (parse_as strcase_eq g m fresh_tid template_id type n f walked).0) [
              | inl valid ↦ rw (here, valid) (parse_as-WellFormed type r n f walked s all valid)
              | inr bad ↦ rw (here, bad) tt
            ]
      ]

  mutual
    unfolding new_parsed_field parser_walk_children

    new_parsed_field-WellFormed :
        (dictionary : Option String) (n : XmlNode)
        → is_some dictionary ≡ true
        → OptionWellFormed template_id
            (new_parsed_field strcase_eq g m fresh_tid template_id dictionary n).0
    new_parsed_field-WellFormed dictionary (element name line prop children) d =
        let n = element name line prop children in
        let start =
          new_field fresh_tid FieldTypeIdentifier.invalid FieldOperatorIdentifier.no_operator in
        let own = (set_field_attributes strcase_eq g m template_id n start).0 in
        let a = set_field_attributes-Attributed strcase_eq g m template_id n start in
        let e = given_or-is_some own.dictionary dictionary d in
        parsed_or_error-WellFormed field_types
          (refl, (refl, (refl, (refl, (refl, (refl, (refl, (refl, (refl, (refl, tt)))))))))) n
          (dictionary_or own dictionary) _
          (record {
            of_template = a.tid;
            has_dictionary = e;
            op = a.op ∙ new-op strcase_eq g m fresh_tid template_id;
          })
          (walk-AllWellFormed _ children e)

    walk-AllWellFormed :
        (dictionary : Option String) (ns : XmlNodes)
        → is_some dictionary ≡ true
        → AllWellFormed template_id
            (parser_walk_children strcase_eq g m fresh_tid template_id dictionary ns).0
    walk-AllWellFormed dictionary nil d = tt
    walk-AllWellFormed dictionary (cons n ns) d =
        let rest = walk-AllWellFormed dictionary ns d in
        let first = new_parsed_field-WellFormed dictionary n d in
        elim (Bool-cases (ignore_xml_node strcase_eq n)) [
          | inl ignored ↦ rw ignored rest
          | inr taken ↦
              elim (Option-cases
                (new_parsed_field strcase_eq g m fresh_tid template_id dictionary n).0) [
                  | inl e ↦ rw (taken, e) rest
                  | inr (t, e) ↦
                      rw (taken, e) (subst (λ o. OptionWellFormed template_id o) e first, rest)
                ]
        ]

  pub parser_walk_children-AllWellFormed :
      (dictionary : Option String) (ns : XmlNodes)
      → is_some dictionary ≡ true
      → AllWellFormed template_id
          (parser_walk_children strcase_eq g m fresh_tid template_id dictionary ns).0
  parser_walk_children-AllWellFormed = walk-AllWellFormed
