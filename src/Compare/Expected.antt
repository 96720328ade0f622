-- ===== src/Compare/Expected.antt =====
-- The plan file that is expected of `generatePlanFromPDML`: the plans of fields, as trees, and
-- the events that write them.
use fast_wireshark.Base.{Bool, true, false, List, [], ◌∷◌, ◌++◌, Option, none, some, ◌≡◌}
use fast_wireshark.Compare.{
  Text, codes, XmlNode, XmlNodes, element, nil, cons, name_of, ignore_xml_node,
}
use fast_wireshark.Compare.Equivalence.{Info, Infos, info, none_left, followed}
use fast_wireshark.Compare.Writer.{TextWriter}
use fast_wireshark.Compare.Pdml.{get_field_type, field_value, nested_name}

-- What is written to a file.
pub data Event : Type 0 where
  start : Text → Event
  attribute : (name value : Text) → Event
  end finish : Event

abbrev pub value_event : Option Text → List Event
value_event none = []
value_event (some value) = attribute (codes "value") value ∷ []

-- The document of a tree.
unfoldable mutual
  pub serialize_node : Info → List Event
  serialize_node (info name value children) =
      start name ∷ ((value_event value ++ serialize children) ++ (end ∷ []))

  pub serialize : Infos → List Event
  serialize none_left = []
  serialize (followed i is) = serialize_node i ++ serialize is

-- A writer whose calls all succeed, with what it has written.
pub record Succeeds {W : Type 0} (api : TextWriter W) : Type 0 where
  pub events : W → List Event
  pub started : (name : Text) (w : W) → (api.start_element name w).1 ≡ true
  pub start_events :
      (name : Text) (w : W) → events (api.start_element name w).0 ≡ events w ++ (start name ∷ [])
  pub ended : (w : W) → (api.end_element w).1 ≡ true
  pub end_events : (w : W) → events (api.end_element w).0 ≡ events w ++ (end ∷ [])
  pub attributed : (name value : Text) (w : W) → (api.write_attribute name value w).1 ≡ true
  pub attribute_events :
      (name value : Text) (w : W)
      → events (api.write_attribute name value w).0 ≡ events w ++ (attribute name value ∷ [])
  pub finish_events : (w : W) → events (api.end_document w).0 ≡ events w ++ (finish ∷ [])

abbrev pub is_some {ℓ} : {A : Type ℓ} → Option A → Bool
is_some none = false
is_some (some a) = true

abbrev pub both {ℓ κ μ} :
    {A : Type ℓ} {B : Type κ} {C : Type μ} → (A → B → C) → Option A → Option B → Option C
both f (some a) (some b) = some (f a b)
both f _ _ = none

abbrev pub nest : Text → Option Text → Option Infos → Option Info
nest name value none = none
nest name value (some is) = some (info name value is)

module _ (strcase_eq str_eq : Text → Text → Bool) where
  -- The plan of a field, and `none` where the type of one is malformed.
  unfoldable mutual
    unfolding get_field_type field_value nested_name ignore_xml_node

    pub field_plan : XmlNode → Option Info
    field_plan (element name line prop children) = elim (get_field_type (prop (codes "name"))) [
      | none ↦ none
      | some type ↦
          let value = field_value (prop (codes "showname")) in
          elim (nested_name strcase_eq type) [
            | none ↦ some (info type value none_left)
            | some nested ↦ nest nested value (fields_plan children)
          ]
    ]

    pub fields_plan : XmlNodes → Option Infos
    fields_plan nil = some none_left
    fields_plan (cons n ns) = elim (ignore_xml_node strcase_eq n) [
      | true ↦ fields_plan ns
      | false ↦ elim (str_eq (name_of n) (codes "field")) [
        | true ↦ both followed (field_plan n) (fields_plan ns)
        | false ↦ fields_plan ns
      ]
    ]
