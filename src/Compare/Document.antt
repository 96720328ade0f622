-- ===== src/Compare/Document.antt =====
-- pdmlParser.c: the plan file for a whole document, and the packets that are counted.
use mathlib.Core.List.{append-nil, append_assoc}
use fast_wireshark.Base.{
  Bool, true, false, not, ◌&&◌, List, [], ◌∷◌, ◌++◌, Option, none, some, inl, inr, ◌≡◌, refl, sym,
  arith, Bool-cases, Option-cases, if◌then◌else◌,
}
use fast_wireshark.Compare.{
  Text, codes, XmlNode, XmlNodes, nil, cons, name_of, get_prop, children_of, matches,
  ignore_xml_node,
}
use fast_wireshark.Compare.Equivalence.{Info}
use fast_wireshark.Compare.Writer.{TextWriter, and_if}
use fast_wireshark.Compare.Pdml.{parse_field, parse_template, fast_fields}
use fast_wireshark.Compare.Expected.{Event, serialize_node, Succeeds, both, field_plan}
use fast_wireshark.Compare.Written.{Wrote, Wrote-both, parse_field-Wrote}

unfoldable pub concat_map {ℓ κ} : {A : Type ℓ} {B : Type κ} → (A → List B) → List A → List B
concat_map f [] = []
concat_map f (x ∷ xs) = f x ++ concat_map f xs

abbrev pub plans_text : List Info → List Event
plans_text = concat_map serialize_node

pub plans_text-append : (is js : List Info) → plans_text (is ++ js) ≡ plans_text is ++ plans_text js
unfolding concat_map
plans_text-append [] js = refl
plans_text-append (i ∷ is) js =
    cc (plans_text-append is js, append_assoc (serialize_node i) (plans_text is) (plans_text js))

plans_text-cons :
    (i : Info) (is : List Info) → plans_text (i ∷ is) ≡ serialize_node i ++ plans_text is
unfolding concat_map
plans_text-cons i is = refl

-- The nodes that a test holds for.
unfoldable pub select : (XmlNode → Bool) → XmlNodes → List XmlNode
select test nil = []
select test (cons n ns) = let rest = select test ns in if test n then n ∷ rest else rest

module _ (strcase_eq str_eq : Text → Text → Bool) where
  -- An element of the name, where its attribute `name` is given too.
  abbrev is_named : Text → XmlNode → Bool
  is_named name n = not (ignore_xml_node strcase_eq n) && str_eq (name_of n) name

  abbrev pub is_tid : XmlNode → Bool
  is_tid n =
      is_named (codes "field") n && matches str_eq (get_prop n (codes "name")) (codes "fast.tid")

  abbrev pub is_fast : XmlNode → Bool
  is_fast n =
      is_named (codes "proto") n && matches str_eq (get_prop n (codes "name")) (codes "fast")

  abbrev pub is_packet : XmlNode → Bool
  is_packet = is_named (codes "packet")

  abbrev pub tids : XmlNode → List XmlNode
  tids proto = select is_tid (children_of proto)

  abbrev pub fast_protos : XmlNode → List XmlNode
  fast_protos packet = select is_fast (children_of packet)

  -- The FAST parts of the packets of a document.
  abbrev pub fast_packets_of : XmlNode → List XmlNode
  fast_packets_of root = concat_map fast_protos (select is_packet (children_of root))

  -- The plans of messages, and `none` where one has none.
  unfoldable pub plans : List XmlNode → Option (List Info)
  unfolding field_plan
  plans [] = some []
  plans (n ∷ ns) = both (λ i is. i ∷ is) (field_plan strcase_eq str_eq n) (plans ns)

  both_assoc :
      (p : Option Info) (q r : Option (List Info))
      → both (λ i is. i ∷ is) p (both (λ is js. is ++ js) q r)
        ≡ both (λ is js. is ++ js) (both (λ i is. i ∷ is) p q) r
  both_assoc none q r = refl
  both_assoc (some i) none r = refl
  both_assoc (some i) (some is) none = refl
  both_assoc (some i) (some is) (some js) = refl

  pub plans-append :
      (xs ys : List XmlNode) → plans (xs ++ ys) ≡ both (λ is js. is ++ js) (plans xs) (plans ys)
  unfolding plans
  plans-append [] ys = elim (Option-cases (plans ys)) [
    | inl h ↦ rw h refl
    | inr (is, h) ↦ rw h refl
  ]
  plans-append (x ∷ xs) ys =
      rw (plans-append xs ys) (both_assoc (field_plan strcase_eq str_eq x) (plans xs) (plans ys))

  module _ {W : Type 0} (api : TextWriter W) (good : Succeeds api) where
    module _ (n : XmlNode) (ns : XmlNodes) (w : W) where
      not_a_tid :
          is_tid n ≡ false
          → (select is_tid (cons n ns) ≡ select is_tid ns)
            × (fast_fields strcase_eq str_eq api (cons n ns) w
                ≡ fast_fields strcase_eq str_eq api ns w)
      unfolding select fast_fields
      not_a_tid h = ground (arith, h)

      a_tid :
          is_tid n ≡ true
          → (plans (select is_tid (cons n ns))
              ≡ both (λ i is. i ∷ is) (field_plan strcase_eq str_eq n) (plans (select is_tid ns)))
            × (fast_fields strcase_eq str_eq api (cons n ns) w
                ≡ and_if api
                    (parse_field strcase_eq str_eq api n w)
                    (fast_fields strcase_eq str_eq api ns))
      unfolding select fast_fields parse_template plans
      a_tid h = ground (arith, h)

    pub fast_fields-Wrote :
        (ns : XmlNodes) (w : W)
        → Wrote strcase_eq str_eq api good plans_text
            (plans (select is_tid ns))
            w
            (fast_fields strcase_eq str_eq api ns w)
    unfolding Wrote select plans fast_fields concat_map
    fast_fields-Wrote nil w = (refl, sym (append-nil (good.events w)))
    fast_fields-Wrote (cons n ns) w = elim (Bool-cases (is_tid n)) [
      | inl h ↦
          let (is, does) = a_tid n ns w h in
          rw (is, does)
            (Wrote-both strcase_eq str_eq api good (λ i is. i ∷ is) serialize_node plans_text
              plans_text plans_text-cons (field_plan strcase_eq str_eq n) (plans (select is_tid ns))
              w (parse_field strcase_eq str_eq api n w) (fast_fields strcase_eq str_eq api ns)
              (parse_field-Wrote strcase_eq str_eq api good n w) (fast_fields-Wrote ns))
      | inr h ↦ let (is, does) = not_a_tid n ns w h in rw (is, does) (fast_fields-Wrote ns w)
    ]
