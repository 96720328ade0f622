-- ===== src/Compare/Written.antt =====
-- pdmlParser.c: `walkFields` writes the plans of its fields.
use mathlib.Core.List.{append-nil, append_assoc}
use fast_wireshark.Base.{
  ℕ, Bool, true, false, List, [], ◌∷◌, ◌++◌, Option, none, some, ◌⊎◌, ◌≡◌, refl, sym, arith,
  Bool-cases, Option-cases, inl, inr,
}
use fast_wireshark.Compare.{
  Text, codes, XmlNode, XmlNodes, element, nil, cons, name_of, ignore_xml_node,
}
use fast_wireshark.Compare.Equivalence.{Info, Infos, info, none_left, followed}
use fast_wireshark.Compare.Writer.{
  TextWriter, and_if, add_value, write_nested_type, close_nested_type, write_field,
}
use fast_wireshark.Compare.Pdml.{get_field_type, field_value, nested_name, parse_field, walk_fields}
use fast_wireshark.Compare.Expected.{
  Event, start, attribute, end, value_event, serialize_node, serialize, Succeeds, is_some, both,
  nest, field_plan, fields_plan,
}

module _ (strcase_eq str_eq : Text → Text → Bool) where
  module _ {W : Type 0} (api : TextWriter W) (good : Succeeds api) where
    -- A call that is to write the text of a plan fails where there is none.
    unfoldable pub Wrote : {A : Type 0} → (A → List Event) → Option A → W → W × Bool → Type 0
    Wrote text none w r = r.1 ≡ false
    Wrote text (some a) w r = (r.1 ≡ true) × (good.events r.0 ≡ good.events w ++ text a)

    module _ {A : Type 0} (text : A → List Event) (w : W) (r : W × Bool) where
      pub Wrote-succeeds : (plan : Option A) → Wrote text plan w r → r.1 ≡ is_some plan
      unfolding Wrote
      Wrote-succeeds none h = h
      Wrote-succeeds (some a) h = h.0

      pub Wrote-events :
          (plan : Option A) (a : A)
          → Wrote text plan w r
          → plan ≡ some a
          → good.events r.0 ≡ good.events w ++ text a
      unfolding Wrote
      Wrote-events none a h e = absurd (cc)
      Wrote-events (some b) a h e = cc (h.1)

    module _ {A B C : Type 0} (f : A → B → C) (text_a : A → List Event) (text_b : B → List Event)
        (text : C → List Event)
        (joined : (a : A) (b : B) → text (f a b) ≡ text_a a ++ text_b b) where
      pub Wrote-both :
          (p : Option A) (q : Option B) (w : W) (r : W × Bool) (k : W → W × Bool)
          → Wrote text_a p w r
          → ((v : W) → Wrote text_b q v (k v))
          → Wrote text (both f p q) w (and_if api r k)
      unfolding Wrote
      Wrote-both none q w (v, false) k h rest = refl
      Wrote-both none q w (v, true) k h rest = absurd (cc)
      Wrote-both (some a) q w (v, false) k h rest = absurd (cc)
      Wrote-both (some a) none w (v, true) k h rest = rest v
      Wrote-both (some a) (some b) w (v, true) k h rest = (
        (rest v).0,
        cc (h.1, (rest v).1, joined a b, append_assoc (good.events w) (text_a a) (text_b b)),
      )

    and_if_succeeds : (r : W × Bool) (k : W → W × Bool) → r.1 ≡ true → and_if api r k ≡ k r.0
    and_if_succeeds (v, true) k h = refl
    and_if_succeeds (v, false) k h = absurd (cc)

    and_if_fails : (r : W × Bool) (k : W → W × Bool) → r.1 ≡ false → (and_if api r k).1 ≡ false
    and_if_fails (v, true) k h = absurd (cc)
    and_if_fails (v, false) k h = refl

    abbrev Opened : Text → Option Text → W → W × Bool → Type 0
    Opened type value w r =
        (r.1 ≡ true) × (good.events r.0 ≡ good.events w ++ (start type ∷ value_event value))

    write_nested_type-Opened :
        (type : Text) (value : Option Text) (w : W)
        → Opened type value w (write_nested_type api type value w)
    unfolding write_nested_type
    write_nested_type-Opened type none w =
        rw (and_if_succeeds (api.start_element type w) (add_value api none) (good.started type w))
          (refl, good.start_events type w)
    write_nested_type-Opened type (some value) w =
        let v = (api.start_element type w).0 in
        rw
          (and_if_succeeds (api.start_element type w) (add_value api (some value))
            (good.started type w))
          (
            good.attributed (codes "value") value v,
            cc (
              good.start_events type w,
              good.attribute_events (codes "value") value v,
              append_assoc (good.events w) (start type ∷ []) (attribute (codes "value") value ∷ []),
            ),
          )

    Wrote-closed :
        (type : Text) (value : Option Text) (p : Option Infos) (w v : W) (r : W × Bool)
        → good.events v ≡ good.events w ++ (start type ∷ value_event value)
        → Wrote serialize p v r
        → Wrote serialize_node (nest type value p) w (and_if api r (close_nested_type api))
    unfolding Wrote serialize close_nested_type
    Wrote-closed type value none w v r e h = and_if_fails r (close_nested_type api) h
    Wrote-closed type value (some is) w v r e h =
        rw (and_if_succeeds r (close_nested_type api) h.0) (
          good.ended r.0,
          cc (
            e,
            h.1,
            good.end_events r.0,
            append_assoc (good.events w) (start type ∷ value_event value) (serialize is),
            append_assoc (good.events w) (start type ∷ (value_event value ++ serialize is))
                (end ∷ []),
          ),
        )

    write_field-Wrote :
        (type : Text) (value : Option Text) (w : W)
        → Wrote serialize_node (some (info type value none_left)) w (write_field api type value w)
    unfolding Wrote serialize write_field write_nested_type close_nested_type
    write_field-Wrote type value w =
        let r = write_nested_type api type value w in
        let (done, opened) = write_nested_type-Opened type value w in
        Wrote-closed type value (some none_left) w r.0 r opened
          (done, sym (append-nil (good.events r.0)))

    serialize-followed :
        (i : Info) (is : Infos) → serialize (followed i is) ≡ serialize_node i ++ serialize is
    unfolding serialize
    serialize-followed i is = refl

    failed : (w : W) → Wrote serialize_node none w (w, false)
    unfolding Wrote
    failed w = refl

    nothing_written :
        (w : W)
        → Wrote serialize
            (fields_plan strcase_eq str_eq nil)
            w
            (walk_fields strcase_eq str_eq api nil w)
    unfolding Wrote serialize fields_plan walk_fields
    nothing_written w = (refl, sym (append-nil (good.events w)))

    module _ (name : Text) (line : ℕ) (prop : Text → Option Text) (children : XmlNodes)
        (w : W) where
      malformed_field :
          get_field_type (prop (codes "name")) ≡ none
          → (field_plan strcase_eq str_eq (element name line prop children) ≡ none)
            × (parse_field strcase_eq str_eq api (element name line prop children) w ≡ (w, false))
      unfolding parse_field field_plan
      malformed_field h = ground (arith, h)

      plain_field :
          (type : Text)
          → get_field_type (prop (codes "name")) ≡ some type
          → nested_name strcase_eq type ≡ none
          → let value = field_value (prop (codes "showname")) in
            (field_plan strcase_eq str_eq (element name line prop children)
              ≡ some (info type value none_left))
            × (parse_field strcase_eq str_eq api (element name line prop children) w
                ≡ write_field api type value w)
      unfolding parse_field field_plan
      plain_field type h g = ground (arith, h, g)

      nested_field :
          (type nested : Text)
          → get_field_type (prop (codes "name")) ≡ some type
          → nested_name strcase_eq type ≡ some nested
          → let value = field_value (prop (codes "showname")) in
            (field_plan strcase_eq str_eq (element name line prop children)
              ≡ nest nested value (fields_plan strcase_eq str_eq children))
            × (parse_field strcase_eq str_eq api (element name line prop children) w
                ≡ and_if api
                    (and_if api
                      (write_nested_type api nested value w)
                      (walk_fields strcase_eq str_eq api children))
                    (close_nested_type api))
      unfolding parse_field field_plan
      nested_field type nested h g = ground (arith, h, g)

    module _ (n : XmlNode) (ns : XmlNodes) (w : W) where
      not_a_field :
          (ignore_xml_node strcase_eq n ≡ true) ⊎ (str_eq (name_of n) (codes "field") ≡ false)
          → (fields_plan strcase_eq str_eq (cons n ns) ≡ fields_plan strcase_eq str_eq ns)
            × (walk_fields strcase_eq str_eq api (cons n ns) w
                ≡ walk_fields strcase_eq str_eq api ns w)
      unfolding walk_fields fields_plan
      not_a_field (inl h) = ground (arith, h)
      not_a_field (inr h) = ground (arith, h)

      a_field :
          ignore_xml_node strcase_eq n ≡ false
          → str_eq (name_of n) (codes "field") ≡ true
          → (fields_plan strcase_eq str_eq (cons n ns)
              ≡ both followed (field_plan strcase_eq str_eq n) (fields_plan strcase_eq str_eq ns))
            × (walk_fields strcase_eq str_eq api (cons n ns) w
                ≡ and_if api
                    (parse_field strcase_eq str_eq api n w)
                    (walk_fields strcase_eq str_eq api ns))
      unfolding walk_fields fields_plan
      a_field h g = ground (arith, h, g)

    mutual
      pub parse_field-Wrote :
          (n : XmlNode) (w : W)
          → Wrote serialize_node
              (field_plan strcase_eq str_eq n)
              w
              (parse_field strcase_eq str_eq api n w)
      parse_field-Wrote (element name line prop children) w =
          let value = field_value (prop (codes "showname")) in
          elim (Option-cases (get_field_type (prop (codes "name")))) [
            | inl h ↦
                let (is, does) = malformed_field name line prop children w h in
                rw (is, does) (failed w)
            | inr (type, h) ↦ elim (Option-cases (nested_name strcase_eq type)) [
              | inl g ↦
                  let (is, does) = plain_field name line prop children w type h g in
                  rw (is, does) (write_field-Wrote type value w)
              | inr (nested, g) ↦
                  let (is, does) = nested_field name line prop children w type nested h g in
                  let r = write_nested_type api nested value w in
                  let (done, opened) = write_nested_type-Opened nested value w in
                  rw (is, does, and_if_succeeds r (walk_fields strcase_eq str_eq api children) done)
                    (Wrote-closed nested value (fields_plan strcase_eq str_eq children) w r.0
                      (walk_fields strcase_eq str_eq api children r.0) opened
                      (walk_fields-Wrote children r.0))
            ]
          ]

      walk_fields-Wrote :
          (ns : XmlNodes) (w : W)
          → Wrote serialize
              (fields_plan strcase_eq str_eq ns)
              w
              (walk_fields strcase_eq str_eq api ns w)
      walk_fields-Wrote nil w = nothing_written w
      walk_fields-Wrote (cons n ns) w = elim (Bool-cases (ignore_xml_node strcase_eq n)) [
        | inl i ↦
            let (is, does) = not_a_field n ns w (inl i) in rw (is, does) (walk_fields-Wrote ns w)
        | inr i ↦ elim (Bool-cases (str_eq (name_of n) (codes "field"))) [
          | inl f ↦
              let (is, does) = a_field n ns w i f in
              rw (is, does)
                (Wrote-both followed serialize_node serialize serialize serialize-followed
                  (field_plan strcase_eq str_eq n) (fields_plan strcase_eq str_eq ns) w
                  (parse_field strcase_eq str_eq api n w) (walk_fields strcase_eq str_eq api ns)
                  (parse_field-Wrote n w) (walk_fields-Wrote ns))
          | inr f ↦
              let (is, does) = not_a_field n ns w (inr f) in rw (is, does) (walk_fields-Wrote ns w)
        ]
      ]
