-- ===== src/Plugin/Faultless/Fields.antt =====
-- dissect.c: the faults of the functions of a field.
use fast_wireshark.Base.{
  ℕ, zero, suc, ◌≡◌, refl, ◌∙◌, ◌⊎◌, inl, inr, false, Option, none, some, arith,
}
use fast_wireshark.Field.{FieldTypeIdentifier, FieldOperatorIdentifier, Machine, u32}
use fast_wireshark.Position.{FieldData}
use fast_wireshark.Template.{FieldType, TNode, TNodes, node, nil, cons}
use fast_wireshark.Parser.Shape.{PartsFit, WellFormed, AllWellFormed}
use fast_wireshark.Dissect.Node.{Store, Field, Walk}
use fast_wireshark.Dissect.Operators.{dissect_copy, dissect_default}
use fast_wireshark.Dissect.Numbers.{decimal_delta, decimal_parts, dissect_decimal}
use fast_wireshark.Dissect.Text.{dissect_ascii_delta, dissect_ascii_string}
use fast_wireshark.Dissect.Optional.{
  Checks, optional_checks, look_at_pmap, look_for_null, store_empty, take_bit, optional_step,
  asks_child, dissect_optional, optional_child,
}
use fast_wireshark.Dissect.Tree.{
  dissect_group, sequence_loop, dissect_sequence, Parts, apply_operator,
}

-- The type is no decimal and no sequence, or there are children.
asks_no_child :
    (f : FieldType) (type : FieldTypeIdentifier)
    → f.type ≡ type
    → PartsFit type nil
    → asks_child f ≡ false
unfolding asks_child
asks_no_child f FieldTypeIdentifier.decimal e p = absurd p
asks_no_child f FieldTypeIdentifier.sequence e p = absurd p
asks_no_child f FieldTypeIdentifier.group e p = rw e refl
asks_no_child f FieldTypeIdentifier.uint32 e p = rw e refl
asks_no_child f FieldTypeIdentifier.uint64 e p = rw e refl
asks_no_child f FieldTypeIdentifier.int32 e p = rw e refl
asks_no_child f FieldTypeIdentifier.int64 e p = rw e refl
asks_no_child f FieldTypeIdentifier.ascii_string e p = rw e refl
asks_no_child f FieldTypeIdentifier.unicode_string e p = rw e refl
asks_no_child f FieldTypeIdentifier.byte_vector e p = rw e refl
asks_no_child f FieldTypeIdentifier.error e p = rw e refl
asks_no_child f FieldTypeIdentifier.enum_limit e p = rw e refl
asks_no_child f FieldTypeIdentifier.invalid e p = rw e refl

module _ {S : Type 0} where
  abbrev pub Keeps : (Field S → Field S) → Type 0
  Keeps f = (c : Field S) → (f c).fault ≡ c.fault

  abbrev pub WalkKeeps : (Walk S → Walk S) → Type 0
  WalkKeeps f = (w : Walk S) → (f w).fault ≡ w.fault

  abbrev pub PartKeeps : Option (Field S → Field S) → Type 0
  PartKeeps none = Unit {0}
  PartKeeps (some f) = Keeps f

  abbrev pub PartWalkKeeps : Option (Walk S → Walk S) → Type 0
  PartWalkKeeps none = Unit {0}
  PartWalkKeeps (some f) = WalkKeeps f

  abbrev pub FnKeeps : Option (FieldType → Field S → Field S) → Type 0
  FnKeeps none = Unit {0}
  FnKeeps (some f) = (ftype : FieldType) → Keeps (f ftype)

  module _ (m : Machine) (junk : FieldData) (st : Store S) where
    pub record PartsKeep (parts : Parts m junk st) : Type 0 where
      pub first : PartKeeps parts.first
      pub second : PartKeeps parts.second
      pub second_node : PartWalkKeeps parts.second_node
      pub walk : WalkKeeps parts.walk

    look_at_pmap-Keeps : (k : Checks) → Keeps (look_at_pmap m st k)
    unfolding look_at_pmap
    look_at_pmap-Keeps k c = ground arith

    look_for_null-Keeps : (k : Checks) → Keeps (look_for_null m st k)
    unfolding look_for_null
    look_for_null-Keeps k c = ground arith

    store_empty-Keeps : (k : Checks) (ftype : FieldType) → Keeps (store_empty m st k ftype)
    unfolding store_empty
    store_empty-Keeps k ftype c = ground arith

    take_bit-Keeps : (k : Checks) → Keeps (take_bit m st k)
    unfolding take_bit
    take_bit-Keeps k c = ground arith

    optional_step-Keeps : (ftype : FieldType) → Keeps (optional_step m st ftype)
    unfolding optional_step
    optional_step-Keeps ftype c =
        let k = optional_checks ftype.op ftype.type in
        let c1 = look_at_pmap m st k c in
        let c2 = look_for_null m st k c1 in
        take_bit-Keeps k (store_empty m st k ftype c2)
        ∙ store_empty-Keeps k ftype c2
        ∙ look_for_null-Keeps k c1
        ∙ look_at_pmap-Keeps k c

    mutual
      unfolding dissect_optional

      pub optional_at : (id : ℕ) (t : TNode) → WellFormed id t → Keeps (dissect_optional m st t)
      optional_at id (node f ts) (p, _, ws) c =
          let own = optional_step-Keeps f c in
          elim (child_at id f ts p ws c) [
            | inl kept ↦ ground (arith, own, kept)
            | inr not_asked ↦ ground (arith, own, not_asked)
          ]

      -- The child is there, or it is not asked.
      child_at :
          (id : ℕ) (f : FieldType) (ts : TNodes)
          → PartsFit f.type ts
          → AllWellFormed id ts
          → (c : Field S) → ((optional_child m st ts c).fault ≡ c.fault) ⊎ (asks_child f ≡ false)
      child_at id f nil p ws c = inr (asks_no_child f f.type refl p)
      child_at id f (cons t ts) p (w, ws) c = inl (optional_at id t w c)

    pub operator-Keeps :
        (op : FieldOperatorIdentifier) (ftype : FieldType) (c : Field S)
        → (apply_operator m junk st op ftype c).1.fault ≡ c.fault
    unfolding apply_operator dissect_copy dissect_default
    operator-Keeps FieldOperatorIdentifier.copy ftype c = ground arith
    operator-Keeps FieldOperatorIdentifier.default ftype c = ground arith
    operator-Keeps _ ftype c = refl

    pub decimal-Keeps :
        (first second : Option (Field S → Field S)) (ftype : FieldType)
        → PartKeeps first
        → PartKeeps second
        → Keeps (dissect_decimal m junk st first second ftype)
    unfolding dissect_decimal decimal_delta decimal_parts
    decimal-Keeps none second ftype a b c = refl
    decimal-Keeps (some f) none ftype a b c = refl
    decimal-Keeps (some f) (some g) ftype a b c = let both = b (f c) ∙ a c in ground (arith, both)

    pub ascii_string-Keeps : (ftype : FieldType) → Keeps (dissect_ascii_string m junk st ftype)
    unfolding dissect_ascii_string dissect_ascii_delta
    ascii_string-Keeps ftype c = ground arith

    pub group-Keeps :
        (walk : Walk S → Walk S) (ftype : FieldType)
        → WalkKeeps walk
        → Keeps (dissect_group m junk st walk ftype)
    unfolding dissect_group
    group-Keeps walk ftype keeps c = keeps _

    sequence_loop-Keeps :
        (descend : Walk S → Walk S) (left : ℕ)
        → WalkKeeps descend
        → WalkKeeps (sequence_loop m junk st descend left)
    unfolding sequence_loop
    sequence_loop-Keeps descend zero keeps w = refl
    sequence_loop-Keeps descend (suc left) keeps w =
        let rest = sequence_loop-Keeps descend left keeps (descend w) ∙ keeps w in
        ground (arith, rest)

    pub sequence-Keeps :
        (first : Option (Field S → Field S)) (group : Option (Walk S → Walk S))
        → PartKeeps first
        → PartWalkKeeps group
        → Keeps (dissect_sequence m junk st first group)
    unfolding dissect_sequence
    sequence-Keeps none group a b c = refl
    sequence-Keeps (some f) none a b c = refl
    sequence-Keeps (some f) (some d) a b c =
        let c' = f c in
        sequence_loop-Keeps d (u32 c'.fdata.value) b (record {
          position = c'.position;
          children = c'.children;
          last = none;
          store = c'.store;
          fault = c'.fault;
        })
        ∙ a c
