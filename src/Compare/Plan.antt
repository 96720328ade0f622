-- ===== src/Compare/Plan.antt =====
-- rwcompare.c: `equiv_plan_xml` and `next_xml_node`, which compare two plan files.
use fast_wireshark.Base.{ℕ, Bool, true, false, Option, none, some, if◌then◌else◌}
use fast_wireshark.Compare.{
  Text, codes, XmlNode, XmlNodes, element, nil, cons, name_of, line_of, get_prop, children_of,
  ignore_xml_node,
}

-- What `equiv_plan_xml` finds, with the lines that it reports.
pub data Verdict : Type 0 where
  equivalent : Verdict
  field_mismatch value_mismatch : (plan expect : ℕ) → Verdict
  more_nodes : (plan : ℕ) → Verdict
  fewer_nodes : (expect : ℕ) → Verdict

abbrev pub and_then : Verdict → Verdict → Verdict
and_then equivalent v = v
and_then u v = u

-- What is reported where the nodes of the plan have ended.
abbrev pub at_end : XmlNodes → Verdict
at_end nil = equivalent
at_end (cons e es) = fewer_nodes (line_of e)

-- The nodes of a document from its root on, and none where it cannot be parsed or is empty.
abbrev pub root_of : Option XmlNodes → XmlNodes
root_of none = nil
root_of (some nodes) = nodes

module _ (strcase_eq : Text → Text → Bool) where
  unfoldable pub next_xml_node : XmlNodes → XmlNodes
  unfolding ignore_xml_node
  next_xml_node nil = nil
  next_xml_node (cons n ns) =
      let rest = next_xml_node ns in if ignore_xml_node strcase_eq n then rest else cons n ns

module _ (strcase_eq str_eq : Text → Text → Bool) where
  abbrev pub same_value : Option Text → Option Text → Bool
  same_value none none = true
  same_value (some a) (some b) = str_eq a b
  same_value _ _ = false

  unfoldable mutual
    unfolding next_xml_node ignore_xml_node

    -- The comparison of two nodes in a round of the loop.
    pub equiv_node : XmlNode → XmlNode → Verdict
    equiv_node (element name line prop children) e = elim (strcase_eq name (name_of e)) [
      | false ↦ field_mismatch line (line_of e)
      | true ↦ elim (same_value (prop (codes "value")) (get_prop e (codes "value"))) [
        | false ↦ value_mismatch line (line_of e)
        | true ↦ equiv_plan_xml children (children_of e)
      ]
    ]

    -- The nodes that `next_xml_node` skips in the first list are skipped in this recursion.
    pub equiv_plan_xml : XmlNodes → XmlNodes → Verdict
    equiv_plan_xml nil es = at_end (next_xml_node strcase_eq es)
    equiv_plan_xml (cons c cs) es = elim (ignore_xml_node strcase_eq c) [
      | true ↦ equiv_plan_xml cs es
      | false ↦ elim (next_xml_node strcase_eq es) [
        | nil ↦ more_nodes (line_of c)
        | cons e rest ↦ and_then (equiv_node c e) (equiv_plan_xml cs rest)
      ]
    ]

  unfoldable pub equiv_plan_files : Option XmlNodes → Option XmlNodes → Verdict
  unfolding equiv_plan_xml
  equiv_plan_files comput_doc expect_doc = equiv_plan_xml (root_of comput_doc) (root_of expect_doc)
