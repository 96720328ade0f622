-- ===== src/Plugin/Leaves.antt =====
-- dissect.c: what the functions of a field leave of its children.
use fast_wireshark.Base.{
  ℕ, zero, suc, ◌≡◌, refl, ◌∙◌, ◌⊎◌, inl, inr, Option, none, some, [], ◌∷◌, arith, if◌then◌else◌,
}
use fast_wireshark.Field.{u32, FieldTypeIdentifier, FieldOperatorIdentifier, Machine}
use fast_wireshark.Position.{FieldData, basic_dissect_pmap}
use fast_wireshark.Template.{FieldType, TNode, TNodes, node, pmap_exists}
use fast_wireshark.Template
use fast_wireshark.Parser.Shape.{HasTypes, PartsFit}
use fast_wireshark.Dissect.Node.{Store, Field, Walk, DNode, DNodes}
use fast_wireshark.Dissect.Operators.{dissect_copy, dissect_default}
use fast_wireshark.Dissect.Numbers.{dissect_uint32}
use fast_wireshark.Dissect.Optional.{
  Checks, optional_checks, look_at_pmap, look_for_null, store_empty, take_bit, optional_step,
  dissect_optional, optional_child,
}
use fast_wireshark.Dissect.Tree.{
  dissect_group, sequence_loop, dissect_sequence, Parts, dissect_fn_map, apply_operator,
}
use fast_wireshark.Plugin.Fits.{EachFrom, FitsAs, NodeFits, Fits, ElementsFit}
use fast_wireshark.Plugin.Chain.{EachFrom-chain, chain, last_of, only}

module _ {S : Type 0} where
  -- The walk's last node is the last child.
  abbrev pub Ends : Walk S → Type 0
  Ends w = w.last ≡ last_of w.children

  abbrev pub MakesOne : TNode → (Walk S → Walk S) → Type 0
  MakesOne t f =
      (w : Walk S)
      → Ends w
      → (d : DNode) × (((f w).children ≡ chain w.children (only d)) × NodeFits t d × Ends (f w))

  abbrev pub Makes : TNodes → (Walk S → Walk S) → Type 0
  Makes ts f =
      (w : Walk S)
      → Ends w
      → (ds : DNodes) × (((f w).children ≡ chain w.children ds) × Fits ts ds × Ends (f w))

  abbrev pub Keeps : (Field S → Field S) → Type 0
  Keeps f = (c : Field S) → (f c).children ≡ c.children

  -- What a field's function leaves of a field without children, by the type of the field.
  abbrev pub Leaves : FieldTypeIdentifier → TNodes → (Field S → Field S) → Type 0
  Leaves type ts f =
      (c : Field S)
      → c.children ≡ DNodes.nil
      → FitsAs type (((f c).children ≡ DNodes.nil) ⊎ Fits ts (f c).children)
          (ElementsFit ts (f c).children)

  abbrev pub Second : TNodes → Option (Walk S → Walk S) → Type 0
  Second (Template.cons l (Template.cons t ts)) (some f) = MakesOne t f
  Second ts f = Unit {0}

  module _ (m : Machine) (junk : FieldData) (st : Store S) where
    pub look_at_pmap-Keeps : (k : Checks) → Keeps (look_at_pmap m st k)
    unfolding look_at_pmap
    look_at_pmap-Keeps k c = ground arith

    pub look_for_null-Keeps : (k : Checks) → Keeps (look_for_null m st k)
    unfolding look_for_null
    look_for_null-Keeps k c = ground arith

    pub store_empty-Keeps : (k : Checks) (ftype : FieldType) → Keeps (store_empty m st k ftype)
    unfolding store_empty
    store_empty-Keeps k ftype c = ground arith

    pub take_bit-Keeps : (k : Checks) → Keeps (take_bit m st k)
    unfolding take_bit
    take_bit-Keeps k c = ground arith

    pub optional_step-Keeps : (ftype : FieldType) → Keeps (optional_step m st ftype)
    unfolding optional_step
    optional_step-Keeps ftype c =
        let k = optional_checks ftype.op ftype.type in
        let c1 = look_at_pmap m st k c in
        let c2 = look_for_null m st k c1 in
        take_bit-Keeps k (store_empty m st k ftype c2)
        ∙ store_empty-Keeps k ftype c2
        ∙ look_for_null-Keeps k c1
        ∙ look_at_pmap-Keeps k c

    mutual
      unfolding dissect_optional

      pub optional_at : (t : TNode) → Keeps (dissect_optional m st t)
      optional_at (node ftype children) c =
          ground (arith, optional_step-Keeps ftype c, child_at children c)

      child_at : (ts : TNodes) → Keeps (optional_child m st ts)
      child_at Template.nil c = refl
      child_at (Template.cons t ts) c = optional_at t c

    pub operator-Keeps :
        (op : FieldOperatorIdentifier) (ftype : FieldType) (c : Field S)
        → (apply_operator m junk st op ftype c).1.children ≡ c.children
    unfolding apply_operator dissect_copy dissect_default
    operator-Keeps FieldOperatorIdentifier.copy ftype c = ground arith
    operator-Keeps FieldOperatorIdentifier.default ftype c = ground arith
    operator-Keeps _ ftype c = refl

    pub uint32-Keeps : (ftype : FieldType) → Keeps (dissect_uint32 m junk st ftype)
    unfolding dissect_uint32
    uint32-Keeps ftype c = refl

    pub group-Leaves :
        (walk : Walk S → Walk S) (ftype : FieldType) (ts : TNodes)
        → Makes ts walk
        → Leaves FieldTypeIdentifier.group ts (dissect_group m junk st walk ftype)
    unfolding dissect_group
    group-Leaves walk ftype ts makes c h =
        let position = if pmap_exists ftype then basic_dissect_pmap m c.position else c.position in
        let start : Walk S = record {
          position = position;
          children = c.children;
          last = none;
          store = c.store;
          fault = c.fault;
        } in
        let (ds, (made, fits, ends)) = makes start (rw h refl) in inr (rw (made, h) fits)

    pub sequence_loop-Makes :
        (t : TNode) (descend : Walk S → Walk S) (left : ℕ)
        → MakesOne t descend
        → (w : Walk S) → Ends w
        → EachFrom (Fits (Template.cons t Template.nil)) w.children
        → EachFrom
            (Fits (Template.cons t Template.nil))
            (sequence_loop m junk st descend left w).children
    unfolding sequence_loop
    sequence_loop-Makes t descend zero makes w e h = h
    sequence_loop-Makes t descend (suc left) makes w e h =
        let (d, (made, fits, ends)) = makes w e in
        let more =
          sequence_loop-Makes t descend left makes (descend w) ends
            (rw made (EachFrom-chain t w.children d h fits)) in
        ground (arith, h, more)

    pub nothing_fits : (ts : TNodes) → ElementsFit ts DNodes.nil
    unfolding ElementsFit
    nothing_fits Template.nil = tt
    nothing_fits (Template.cons t ts) = tt

    pub elements_fit :
        (l t : TNode) (ds : DNodes)
        → EachFrom (Fits (Template.cons t Template.nil)) ds
        → ElementsFit (Template.cons l (Template.cons t Template.nil)) ds
    unfolding ElementsFit
    elements_fit l t ds h = h

    abbrev pub FirstKeeps : Option (Field S → Field S) → Type 0
    FirstKeeps none = Unit {0}
    FirstKeeps (some f) = Keeps f

    pub sequence-Leaves :
        (first : Option (Field S → Field S)) (second : Option (Walk S → Walk S)) (ts : TNodes)
        → HasTypes ts (FieldTypeIdentifier.uint32 ∷ FieldTypeIdentifier.group ∷ [])
        → FirstKeeps first
        → Second ts second
        → Leaves FieldTypeIdentifier.sequence ts (dissect_sequence m junk st first second)
    unfolding dissect_sequence
    sequence-Leaves none second ts p k o c h = rw h (nothing_fits ts)
    sequence-Leaves (some f) none ts p k o c h = rw h (nothing_fits ts)
    sequence-Leaves (some f) (some g) (Template.cons l (Template.cons t Template.nil)) p k o c h =
        let c1 = f c in
        let start : Walk S = record {
          position = c1.position;
          children = c1.children;
          last = none;
          store = c1.store;
          fault = c1.fault;
        } in
        let bare = k c ∙ h in
        let ends : Ends start = rw bare refl in
        let none_yet : EachFrom (Fits (Template.cons t Template.nil)) start.children = rw bare tt in
        elements_fit l t _ (sequence_loop-Makes t g (u32 c1.fdata.value) o start ends none_yet)
    sequence-Leaves (some f) (some g) Template.nil p k o c h = absurd p
    sequence-Leaves (some f) (some g) (Template.cons (node e cs) Template.nil) (_, p) k o c h =
        absurd p
    sequence-Leaves (some f) (some g)
          (Template.cons (node e cs) (Template.cons (node e2 cs2) (Template.cons (node e3 cs3) ts)))
          (_, (_, p)) k o c h =
        absurd p

    pub bare-FitsAs :
        (type : FieldTypeIdentifier) (ts : TNodes) (ds : DNodes)
        → ds ≡ DNodes.nil
        → FitsAs type ((ds ≡ DNodes.nil) ⊎ Fits ts ds) (ElementsFit ts ds)
    bare-FitsAs FieldTypeIdentifier.group ts ds h = inl h
    bare-FitsAs FieldTypeIdentifier.sequence ts ds h = rw h (nothing_fits ts)
    bare-FitsAs type ts ds h = tt

    abbrev pub FnLeaves :
        FieldTypeIdentifier → TNodes → Option (FieldType → Field S → Field S) → Type 0
    FnLeaves type ts none = Unit {0}
    FnLeaves type ts (some f) = (ftype : FieldType) → Leaves type ts (f ftype)

    pub fn_map-FnLeaves :
        (type : FieldTypeIdentifier) (ts : TNodes) (parts : Parts m junk st)
        → PartsFit type ts
        → Makes ts parts.walk
        → (type ≡ FieldTypeIdentifier.sequence → FirstKeeps parts.first)
        → Second ts parts.second_node
        → FnLeaves type ts (dissect_fn_map m junk st type parts)
    unfolding dissect_fn_map
    fn_map-FnLeaves FieldTypeIdentifier.group ts parts p walk first second =
        λ ftype. group-Leaves parts.walk ftype ts walk
    fn_map-FnLeaves FieldTypeIdentifier.sequence ts parts p walk first second =
        λ ftype. sequence-Leaves parts.first parts.second_node ts p (first refl) second
    fn_map-FnLeaves FieldTypeIdentifier.error ts parts p walk first second = tt
    fn_map-FnLeaves FieldTypeIdentifier.enum_limit ts parts p walk first second = tt
    fn_map-FnLeaves FieldTypeIdentifier.invalid ts parts p walk first second = tt
    fn_map-FnLeaves type ts parts p walk first second = λ ftype c h. tt
