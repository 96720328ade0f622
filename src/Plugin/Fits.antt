-- ===== src/Plugin/Fits.antt =====
-- packet-fast.c: data that fits a template is shown without the dereference of a null data node.
use mathlib.Core.Option
use fast_wireshark.Base.{◌≡◌, refl, ◌⊎◌, inl, inr, Option, some}
use fast_wireshark.Field.{FieldTypeIdentifier, Machine}
use fast_wireshark.Position.{FieldData, FieldStatus}
use fast_wireshark.Template.{FieldType, TNode, TNodes, node}
use fast_wireshark.Template
use fast_wireshark.Dissect.Node.{DNode, DNodes, dnode}
use fast_wireshark.Plugin.Display.{
  DisplayPreferences, Rows, append, both, existing_field, field_by, each_element, display_field,
  display_loop, display_sequence, display_fields, unless_null,
}

-- Each of the nodes, with those behind it.
abbrev pub EachFrom : (DNodes → Type 0) → DNodes → Type 0
EachFrom P DNodes.nil = Unit {0}
EachFrom P (DNodes.cons d ds) = P (DNodes.cons d ds) × EachFrom P ds

-- What is asked of the children of a node of a type: `below` for a group, `elements` for a sequence.
abbrev pub FitsAs : FieldTypeIdentifier → Type 0 → Type 0 → Type 0
FitsAs FieldTypeIdentifier.group below elements = below
FitsAs FieldTypeIdentifier.sequence below elements = elements
FitsAs _ below elements = Unit {0}

-- Data nodes for all nodes of the template; those of a group are all there or none is, and each
-- element of a sequence has all of them.
unfoldable mutual
  pub NodeFits : TNode → DNode → Type 0
  NodeFits (node ftype ts) (dnode fdata ds) =
      FitsAs ftype.type ((ds ≡ DNodes.nil) ⊎ Fits ts ds) (ElementsFit ts ds)

  pub Fits : TNodes → DNodes → Type 0
  Fits Template.nil ds = Unit {0}
  Fits (Template.cons t ts) DNodes.nil = ⊥
  Fits (Template.cons t ts) (DNodes.cons d ds) = NodeFits t d × Fits ts ds

  pub ElementsFit : TNodes → DNodes → Type 0
  ElementsFit Template.nil ds = Unit {0}
  ElementsFit (Template.cons length groups) ds = EachFrom (Fits groups) ds

-- Something is shown.
abbrev pub Shown : Option Rows → Type 0
Shown o = (rows : Rows) × (o ≡ some rows)

both-Shown : (a b : Option Rows) → Shown a → Shown b → Shown (both a b)
both-Shown a b (rs, h) (ss, g) = (append rs ss, rw (h, g) refl)

module _ (m : Machine) (prefs : DisplayPreferences) where
  each_element-Shown :
      (show : DNodes → Option Rows) (P : DNodes → Type 0)
      → ((ds : DNodes) → P ds → Shown (show ds))
      → (ds : DNodes) → EachFrom P ds
      → Shown (each_element m prefs show ds)
  unfolding each_element
  each_element-Shown show P shows DNodes.nil h = (Rows.nil, refl)
  each_element-Shown show P shows (DNodes.cons d ds) (h, hs) =
      both-Shown _ _ (shows (DNodes.cons d ds) h) (each_element-Shown show P shows ds hs)

  map-Shown : (f : Rows → Rows) (o : Option Rows) → Shown o → Shown (Option.map f o)
  map-Shown f o (rows, h) = (f rows, rw h refl)

  existing_field-Shown :
      (type : FieldTypeIdentifier) (below elements : Option Rows) (ftype : FieldType)
      (fdata : FieldData)
      → FitsAs type (Shown below) (Shown elements)
      → Shown (existing_field m prefs type below elements ftype fdata)
  unfolding existing_field
  existing_field-Shown FieldTypeIdentifier.group below elements ftype fdata h = map-Shown _ below h
  existing_field-Shown FieldTypeIdentifier.sequence below elements ftype fdata h =
      map-Shown _ elements h
  existing_field-Shown type below elements ftype fdata h = (_, refl)

  field_by-Shown :
      (status : FieldStatus) (below elements : Option Rows) (ftype : FieldType) (fdata : FieldData)
      → FitsAs ftype.type (Shown below) (Shown elements)
      → Shown (field_by m prefs status below elements ftype fdata)
  unfolding field_by
  field_by-Shown FieldStatus.exists below elements ftype fdata h =
      existing_field-Shown ftype.type below elements ftype fdata h
  field_by-Shown status below elements ftype fdata h = (_, refl)

  -- The premise of a group and of a sequence, from that of its children.
  FitsAs-map :
      (type : FieldTypeIdentifier) (A B C D : Type 0)
      → (A → C)
      → (B → D)
      → FitsAs type A B
      → FitsAs type C D
  FitsAs-map FieldTypeIdentifier.group A B C D f g h = f h
  FitsAs-map FieldTypeIdentifier.sequence A B C D f g h = g h
  FitsAs-map type A B C D f g h = tt

  unless_null-Shown :
      (ds : DNodes) (o : Option Rows)
      → (ds ≡ DNodes.nil) ⊎ Shown o
      → Shown (unless_null m prefs ds o)
  unless_null-Shown DNodes.nil o h = (Rows.nil, refl)
  unless_null-Shown (DNodes.cons d ds) o (inl e) = absurd (cc)
  unless_null-Shown (DNodes.cons d ds) o (inr h) = h

  mutual
    unfolding display_field NodeFits

    display_field-Shown : (t : TNode) (d : DNode) → NodeFits t d → Shown (display_field m prefs t d)
    display_field-Shown (node ftype ts) (dnode fdata ds) h =
        field_by-Shown fdata.status _ _ ftype fdata (
          FitsAs-map ftype.type _ _ _ _
            (λ below.
              unless_null-Shown ds (display_loop m prefs ts ds)
                (elim below [ inl e ↦ inl e | inr fits ↦ inr (display_loop-Shown ts ds fits) ]))
            (display_sequence-Shown ts ds) h)

    display_loop-Shown :
        (ts : TNodes) (ds : DNodes) → Fits ts ds → Shown (display_loop m prefs ts ds)
    display_loop-Shown Template.nil ds h = (Rows.nil, refl)
    display_loop-Shown (Template.cons t ts) DNodes.nil h = absurd h
    display_loop-Shown (Template.cons t ts) (DNodes.cons d ds) (h, hs) =
        both-Shown _ _ (display_field-Shown t d h) (display_loop-Shown ts ds hs)

    display_sequence-Shown :
        (ts : TNodes) (ds : DNodes) → ElementsFit ts ds → Shown (display_sequence m prefs ts ds)
    display_sequence-Shown Template.nil ds h = (Rows.nil, refl)
    display_sequence-Shown (Template.cons length groups) ds h =
        each_element-Shown (display_loop m prefs groups) (Fits groups) (display_loop-Shown groups)
          ds h

  pub display_fields-Shown :
      (ts : TNodes) (ds : DNodes) → Fits ts ds → Shown (display_fields m prefs ts ds)
  unfolding display_fields
  display_fields-Shown ts ds h =
      unless_null-Shown ds (display_loop m prefs ts ds) (inr (display_loop-Shown ts ds h))
