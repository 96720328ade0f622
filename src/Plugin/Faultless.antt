-- ===== src/Plugin/Faultless.antt =====
-- dissect.c: the faults of the walk along a template.
mod Fields
use fast_wireshark.Base.{
  ℕ, ◌≡◌, refl, ◌∙◌, Bool, true, false, Option, none, some, arith, if◌then◌else◌,
}
use fast_wireshark.Field.{FieldTypeIdentifier, Machine}
use fast_wireshark.Position.{FieldData, exists, empty}
use fast_wireshark.Template.{FieldType, TNode, TNodes, node, nil, cons}
use fast_wireshark.Parser.Shape.{WellFormed, AllWellFormed}
use fast_wireshark.Dissect.Node.{Store, Field, Walk, DNodes}
use fast_wireshark.Dissect.Numbers.{
  dissect_int, dissect_uint32, dissect_uint64, dissect_int32, dissect_int64,
}
use fast_wireshark.Dissect.Optional.{dissect_optional}
use fast_wireshark.Dissect.Tree.{
  Parts, dissect_fn_map, apply_operator, value_by, value_step, descend_step, dissect_value,
  dissect_descend, parts_of, first_node, dissector_walk, with_status,
}
use fast_wireshark.Dissect.TreeSafety.{is_vector, NoVectors, NoVectorsBelow}
use fast_wireshark.Plugin.Faultless.Fields.{
  Keeps, WalkKeeps, PartWalkKeeps, FnKeeps, PartsKeep, operator-Keeps, decimal-Keeps,
  ascii_string-Keeps, group-Keeps, sequence-Keeps, optional_at,
}

module _ {S : Type 0} (m : Machine) (junk : FieldData) (st : Store S) where
  fn_map-FnKeeps :
      (type : FieldTypeIdentifier) (parts : Parts m junk st)
      → is_vector type ≡ false
      → PartsKeep m junk st parts
      → FnKeeps (dissect_fn_map m junk st type parts)
  unfolding dissect_fn_map dissect_uint32 dissect_uint64 dissect_int32 dissect_int64 dissect_int
  fn_map-FnKeeps FieldTypeIdentifier.uint32 parts v h = λ ftype c. refl
  fn_map-FnKeeps FieldTypeIdentifier.uint64 parts v h = λ ftype c. refl
  fn_map-FnKeeps FieldTypeIdentifier.int32 parts v h = λ ftype c. refl
  fn_map-FnKeeps FieldTypeIdentifier.int64 parts v h = λ ftype c. refl
  fn_map-FnKeeps FieldTypeIdentifier.decimal parts v h =
      λ ftype. decimal-Keeps m junk st parts.first parts.second ftype h.first h.second
  fn_map-FnKeeps FieldTypeIdentifier.ascii_string parts v h =
      λ ftype. ascii_string-Keeps m junk st ftype
  fn_map-FnKeeps FieldTypeIdentifier.unicode_string parts v h = cc
  fn_map-FnKeeps FieldTypeIdentifier.byte_vector parts v h = cc
  fn_map-FnKeeps FieldTypeIdentifier.group parts v h =
      λ ftype. group-Keeps m junk st parts.walk ftype h.walk
  fn_map-FnKeeps FieldTypeIdentifier.sequence parts v h =
      λ ftype. sequence-Keeps m junk st parts.first parts.second_node h.first h.second_node
  fn_map-FnKeeps FieldTypeIdentifier.error parts v h = tt
  fn_map-FnKeeps FieldTypeIdentifier.enum_limit parts v h = tt
  fn_map-FnKeeps FieldTypeIdentifier.invalid parts v h = tt

  started :
      (mandatory : Bool) (optional : Field S → Field S) (c : Field S)
      → Keeps optional
      → (if mandatory
          then with_status m junk st c exists
          else optional (with_status m junk st c empty)).fault
        ≡ c.fault
  started true optional c o = refl
  started false optional c o = o (with_status m junk st c empty)

  descend_step-WalkKeeps :
      (ftype : FieldType) (value : Field S → Field S)
      → Keeps value
      → WalkKeeps (descend_step m junk st ftype value)
  unfolding descend_step
  descend_step-WalkKeeps ftype value keeps w =
      let h = keeps (record {
        position = w.position;
        fdata = junk;
        children = DNodes.nil;
        store = w.store;
        fault = w.fault;
      }) in
      ground (arith, h)

  value_by-Keeps :
      (fn : Option (FieldType → Field S → Field S)) (ftype : FieldType)
      (optional : Field S → Field S)
      → FnKeeps fn
      → Keeps optional
      → Keeps (value_by m junk st fn ftype optional)
  unfolding value_by
  value_by-Keeps none ftype optional keeps o c = refl
  value_by-Keeps (some f) ftype optional keeps o c =
      let c1 =
        if ftype.mandatory
        then with_status m junk st c exists
        else optional (with_status m junk st c empty) in
      let h1 = started ftype.mandatory optional c o in
      let h2 = operator-Keeps m junk st ftype.op ftype c1 in
      let h3 = keeps ftype (apply_operator m junk st ftype.op ftype c1).1 in
      ground (arith, h1, h2, h3)

  mutual
    unfolding dissect_value value_step dissect_descend

    value_at :
        (id : ℕ) (t : TNode) → WellFormed id t → NoVectors t → Keeps (dissect_value m junk st t)
    value_at id (node f ts) w (v, vs) =
        value_by-Keeps _ f _ (fn_map-FnKeeps f.type _ v (parts_at id ts w.2 vs))
          (optional_at m junk st id (node f ts) w)

    descend_at :
        (id : ℕ) (t : TNode)
        → WellFormed id t
        → NoVectors t
        → WalkKeeps (dissect_descend m junk st t)
    descend_at id (node f ts) w (v, vs) =
        descend_step-WalkKeeps f
          (value_step m junk st f (dissect_optional m st (node f ts)) (parts_of m junk st ts))
          (value_by-Keeps _ f _ (fn_map-FnKeeps f.type _ v (parts_at id ts w.2 vs))
            (optional_at m junk st id (node f ts) w))

    parts_at :
        (id : ℕ) (ts : TNodes)
        → AllWellFormed id ts
        → NoVectorsBelow ts
        → PartsKeep m junk st (parts_of m junk st ts)
    parts_at id nil w v = record { first = tt; second = tt; second_node = tt; walk = λ w. refl }
    parts_at id (cons t ts) (w, ws) (v, vs) =
        let rest = parts_at id ts ws vs in
        record {
          first = value_at id t w v;
          second = rest.first;
          second_node = first_at id ts ws vs;
          walk = λ s. rest.walk _ ∙ descend_at id t w v s;
        }

    first_at :
        (id : ℕ) (ts : TNodes)
        → AllWellFormed id ts
        → NoVectorsBelow ts
        → PartWalkKeeps (first_node m junk st ts)
    first_at id nil w v = tt
    first_at id (cons t ts) (w, ws) (v, vs) = descend_at id t w v

  -- The walk along the fields of a well-formed template with no byte vector and no unicode
  -- string dereferences no null pointer.
  pub dissector_walk-fault :
      (id : ℕ) (ts : TNodes)
      → AllWellFormed id ts
      → NoVectorsBelow ts
      → (w : Walk S) → (dissector_walk m junk st ts w).fault ≡ w.fault
  unfolding dissector_walk
  dissector_walk-fault id ts w v = (parts_at id ts w v).walk
