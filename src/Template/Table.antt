-- ===== src/Template/Table.antt =====
-- template.c: the table of the templates by their identifiers.

use fast_wireshark.Base.{
  ℕ, ◌≡◌, refl, ap, ◌∙◌, Option, none, some, nat_eq, ◌==◌, if◌then◌else◌, Bool-cases, Option-cases,
  inl, inr,
}
use fast_wireshark.Dictionaries.Table.{HashTable}
use fast_wireshark.Template.{
  FieldType, TNode, TNodes, node, nil, cons, set_pmap_exists, fixup_walk_template,
}
use fast_wireshark.Template.Fixup.{
  all_marked, asks_any, already_marked, set_pmap_exists-pmap_exists, fixup_walk_template-all_marked,
}

abbrev pub id_of : TNode → ℕ
id_of (node tfield children) = tfield.id

-- One round of the loop: the template, which always has a presence map, is marked, and then its
-- groups are.
unfoldable pub finish_template : TNode → TNode
unfolding fixup_walk_template
finish_template (node tfield children) =
    let (tfield', children') = fixup_walk_template (set_pmap_exists tfield) children in
    node tfield' children'

module _ (h : HashTable) where
  unfoldable pub templates_table_loop : TNodes → h.Table ℕ TNode → h.Table ℕ TNode
  unfolding finish_template
  templates_table_loop nil result = result
  templates_table_loop (cons tmpl ts) result =
      templates_table_loop ts (h.insert nat_eq result (id_of tmpl) (finish_template tmpl))

  -- `templates` are the children of the root.
  unfoldable pub create_templates_table : TNodes → h.Table ℕ TNode
  unfolding templates_table_loop
  create_templates_table templates = templates_table_loop templates (h.new ℕ TNode)

-- The template that a message with this identifier has: the last one in the file.
abbrev pub last_template : ℕ → TNodes → Option TNode
last_template id nil = none
last_template id (cons (node tfield children) ts) = elim (last_template id ts) [
  | some t ↦ some t
  | none ↦
      if tfield.id == id then some (node (set_pmap_exists tfield) (all_marked children)) else none
]

finish_template_lem :
    (tfield : FieldType) (children : TNodes)
    → finish_template (node tfield children) ≡ node (set_pmap_exists tfield) (all_marked children)
unfolding finish_template
finish_template_lem tfield children =
    ap (λ (t : FieldType × TNodes). node t.0 t.1)
      (fixup_walk_template-all_marked (set_pmap_exists tfield) children)
    ∙ ap (λ f. node f (all_marked children))
        (already_marked (asks_any children) (set_pmap_exists tfield)
          (set_pmap_exists-pmap_exists tfield))

module _ (h : HashTable) where
  -- A template that the table had before the loop is found where the loop does not replace it.
  lookup_loop :
      (ts : TNodes) (result : h.Table ℕ TNode) (id : ℕ)
      → h.lookup nat_eq (templates_table_loop h ts result) id
        ≡ elim (last_template id ts) [ some t ↦ some t | none ↦ h.lookup nat_eq result id ]
  unfolding templates_table_loop
  lookup_loop nil result id = refl
  lookup_loop (cons (node tfield children) ts) result id =
      elim (Option-cases (last_template id ts)) [
        | inr (t, e) ↦ lookup_loop ts _ id ∙ rw e refl
        | inl e ↦ elim (Bool-cases (tfield.id == id)) [
          | inl same ↦
              lookup_loop ts _ id
              ∙ rw (e, same, h.lookup-insert, same) (ap some (finish_template_lem tfield children))
          | inr other ↦ lookup_loop ts _ id ∙ rw (e, other, h.lookup-insert, other) refl
        ]
      ]

  -- The table that `create_templates_table` makes has, under each identifier, the last template
  -- of the file with it, marked as one with a presence map and with every group below it marked
  -- that needs one, and nothing under an identifier that no template has.
  pub lookup-create_templates_table :
      (templates : TNodes) (id : ℕ)
      → h.lookup nat_eq (create_templates_table h templates) id ≡ last_template id templates
  unfolding create_templates_table
  lookup-create_templates_table templates id =
      lookup_loop templates (h.new ℕ TNode) id ∙ elim (Option-cases (last_template id templates)) [
        | inr (t, e) ↦ rw e refl
        | inl e ↦ rw (e, h.lookup-new) refl
      ]
