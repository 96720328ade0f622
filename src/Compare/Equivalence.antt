-- ===== src/Compare/Equivalence.antt =====
-- rwcompare.c: what `equiv_plan_xml` decides, against an independent description.
use fast_wireshark.Base.{
  Bool, true, false, Option, none, some, ◌≡◌, refl, ◌↔◌, ◌⊎◌, inl, inr, Bool-cases, arith,
}
use fast_wireshark.Compare.{Text, codes, XmlNode, XmlNodes, element, nil, cons, ignore_xml_node}
use fast_wireshark.Compare.Plan.{
  equivalent, next_xml_node, same_value, equiv_node, equiv_plan_xml, equiv_plan_files, root_of,
}

-- The information of a plan file that counts: names without their case, and values.
mutual
  pub data Info : Type 0 where
    info : Text → Option Text → Infos → Info

  pub data Infos : Type 0 where
    none_left : Infos
    followed : Info → Infos → Infos

-- `fold` maps the texts that `xmlStrcasecmp` holds for equal to one.
module _ (strcase_eq str_eq : Text → Text → Bool) (fold : Text → Text) where
  unfoldable mutual
    unfolding ignore_xml_node

    pub info_of : XmlNode → Info
    info_of (element name line prop children) =
        info (fold name) (prop (codes "value")) (relevant children)

    -- The information of the nodes, without texts and comments.
    pub relevant : XmlNodes → Infos
    relevant nil = none_left
    relevant (cons n ns) = elim (ignore_xml_node strcase_eq n) [
      | true ↦ relevant ns
      | false ↦ followed (info_of n) (relevant ns)
    ]

  ignored :
      (n : XmlNode) (ns : XmlNodes)
      → ignore_xml_node strcase_eq n ≡ true
      → (next_xml_node strcase_eq (cons n ns) ≡ next_xml_node strcase_eq ns)
        × (relevant (cons n ns) ≡ relevant ns)
  unfolding next_xml_node relevant
  ignored n ns h = ground (arith, h)

  next-cases :
      (es : XmlNodes)
      → ((next_xml_node strcase_eq es ≡ nil) × (relevant es ≡ none_left))
        ⊎ ((e : XmlNode) × (rest : XmlNodes) × (next_xml_node strcase_eq es ≡ cons e rest)
            × (relevant es ≡ followed (info_of e) (relevant rest)))
  unfolding next_xml_node relevant
  next-cases nil = inl (refl, refl)
  next-cases (cons n ns) = elim (Bool-cases (ignore_xml_node strcase_eq n)) [
    | inl h ↦ let (skips, drops) = ignored n ns h in rw (skips, drops) (next-cases ns)
    | inr h ↦ inr (n, ns, ground (arith, h), ground (arith, h))
  ]

  module _ (strcase : (a b : Text) → (strcase_eq a b ≡ true) ↔ (fold a ≡ fold b))
      (str : (a b : Text) → (str_eq a b ≡ true) ↔ (a ≡ b)) where
    same_value_iff : (a b : Option Text) → (same_value strcase_eq str_eq a b ≡ true) ↔ (a ≡ b)
    same_value_iff none none = ground arith
    same_value_iff none (some b) = ground arith
    same_value_iff (some a) none = ground arith
    same_value_iff (some a) (some b) = ground (arith, str a b)

    mutual
      unfolding equiv_plan_xml info_of

      equiv_node_iff :
          (c e : XmlNode)
          → (equiv_node strcase_eq str_eq c e ≡ equivalent) ↔ (info_of c ≡ info_of e)
      equiv_node_iff (element n l p cs) (element m k q es) = ground (
        arith,
        strcase n m,
        same_value_iff (p (codes "value")) (q (codes "value")),
        equiv_plan_xml_iff cs es,
      )

      equiv_plan_xml_iff :
          (cs es : XmlNodes)
          → (equiv_plan_xml strcase_eq str_eq cs es ≡ equivalent) ↔ (relevant cs ≡ relevant es)
      equiv_plan_xml_iff nil es = elim (next-cases es) [
        | inl (h, r) ↦ ground (arith, h, r)
        | inr (e, rest, h, r) ↦ ground (arith, h, r)
      ]
      equiv_plan_xml_iff (cons c cs) es = elim (Bool-cases (ignore_xml_node strcase_eq c)) [
        | inl i ↦ ground (arith, i, equiv_plan_xml_iff cs es)
        | inr i ↦ elim (next-cases es) [
          | inl (h, r) ↦ ground (arith, i, h, r)
          | inr (e, rest, h, r) ↦
              ground (arith, i, h, r, equiv_node_iff c e, equiv_plan_xml_iff cs rest)
        ]
      ]

    -- Two plan files are held for equivalent exactly if they have the same information: their
    -- trees without texts and comments agree in the names, up to their case, in the attributes
    -- value and in the order and nesting of the nodes, where `xmlStrcasecmp` holds two texts for
    -- equal if they fold to one, and `xmlStrcmp` if they are one. A file that cannot be parsed
    -- is one with no nodes.
    pub equiv_plan_files_lem :
        (plan expect : Option XmlNodes)
        → (equiv_plan_files strcase_eq str_eq plan expect ≡ equivalent)
          ↔ (relevant (root_of plan) ≡ relevant (root_of expect))
    unfolding equiv_plan_files
    equiv_plan_files_lem plan expect = equiv_plan_xml_iff (root_of plan) (root_of expect)
