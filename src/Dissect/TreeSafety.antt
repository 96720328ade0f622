-- ===== src/Dissect/TreeSafety.antt =====
-- A whole template with no byte vector or unicode string is dissected inside the packet.
use fast_wireshark.Base.{
  ℕ, zero, suc, ◌+◌, ◌-◌, ◌%◌, ◌^◌, ◌≡◌, Bool, true, false, Option, none, some, if◌then◌else◌,
  Bool-cases, inl, inr, arith,
}
use fast_wireshark.Decode.Stop.{IsBytes}
use fast_wireshark.Field.{Machine, FieldTypeIdentifier, FieldOperatorIdentifier}
use fast_wireshark.Position.{DissectPosition, FieldData, shift_bytes, exists, empty}
use fast_wireshark.Position.Window.{InPacket, HasPmap}
use fast_wireshark.Template.{FieldType, TNode, TNodes, node, nil, cons, pmap_exists}
use fast_wireshark.Dissect.Node.{Store, Field, Walk, DNodes}
use fast_wireshark.Dissect.Optional.{dissect_optional}
use fast_wireshark.Dissect.Tree.{
  dissect_group, sequence_loop, dissect_sequence, Parts, dissect_fn_map, apply_operator, value_by,
  value_step, descend_step, dissect_value, dissect_descend, parts_of, first_node, dissector_walk,
  with_status,
}
use fast_wireshark.Dissect.Moves.{Moves, Good, Moves-trans, Moves-Good, pmap-Moves}
use fast_wireshark.Dissect.Safety.{
  IsSafe, AllSafe, numbers-IsSafe, copy-Moves, default-Moves, dissect_optional-IsSafe,
  ascii_string-IsSafe, decimal-IsSafe,
}

-- The types whose values are read by `decode_byte_vector`, which asks for no bound.
abbrev pub is_vector : FieldTypeIdentifier → Bool
is_vector FieldTypeIdentifier.unicode_string = true
is_vector FieldTypeIdentifier.byte_vector = true
is_vector _ = false

abbrev mutual
  pub NoVectors : TNode → Type 0
  NoVectors (node ftype children) = (is_vector ftype.type ≡ false) × NoVectorsBelow children

  pub NoVectorsBelow : TNodes → Type 0
  NoVectorsBelow nil = Unit {0}
  NoVectorsBelow (cons t ts) = NoVectors t × NoVectorsBelow ts

abbrev pub WalkIsSafe : ℕ → ℕ → (S : Type 0) → (Walk S → Walk S) → Type 0
WalkIsSafe end total S f =
    (w : Walk S) → Good end total w.position → Moves end total w.position (f w).position

abbrev AllWalkSafe : ℕ → ℕ → (S : Type 0) → Option (Walk S → Walk S) → Type 0
AllWalkSafe end total S none = Unit {0}
AllWalkSafe end total S (some f) = WalkIsSafe end total S f

abbrev FnSafe : ℕ → ℕ → (S : Type 0) → Option (FieldType → Field S → Field S) → Type 0
FnSafe end total S none = Unit {0}
FnSafe end total S (some f) = (ftype : FieldType) → IsSafe end total S (f ftype)

-- Every part that a node uses of its children is safe.
record PartsSafe (end total : ℕ) (m : Machine) (junk : FieldData) (S : Type 0) (st : Store S)
    (parts : Parts m junk st) : Type 0 where
  first : AllSafe end total S parts.first
  second : AllSafe end total S parts.second
  second_node : AllWalkSafe end total S parts.second_node
  walk : WalkIsSafe end total S parts.walk

module _ (end total : ℕ) (m : Machine) (byte : IsBytes m.mem) (junk : FieldData) {S : Type 0}
    (st : Store S) where
  -- The jump of a group: to where the walk with the nested map ended.
  jump-Moves :
      (p q : DissectPosition)
      → Good end total p
      → Moves end total p q
      → Moves end total p
          (shift_bytes (record p { offjmp = (q.offset + 2 ^ 32 - p.offset) % 2 ^ 32 }))
  unfolding shift_bytes
  jump-Moves p q g h = record {
    in_packet = omega (arith, g.in_packet, h.in_packet, h.forward);
    has_pmap = record { entries = g.has_pmap.entries; index = g.has_pmap.index };
    forward = omega (arith, g.in_packet, h.in_packet, h.forward);
  }

  group-IsSafe :
      (walk : Walk S → Walk S) (ftype : FieldType)
      → WalkIsSafe end total S walk
      → IsSafe end total S (dissect_group m junk st walk ftype)
  unfolding dissect_group
  group-IsSafe walk ftype safe c g = elim (Bool-cases (pmap_exists ftype)) [
    | inl own ↦
        let h = pmap-Moves m c.position byte g in
        rw own (jump-Moves c.position _ g (Moves-trans h (safe _ (Moves-Good h))))
    | inr none_own ↦
        let h =
          safe
            (record {
              position = c.position;
              children = c.children;
              last = none;
              store = c.store;
              fault = c.fault;
            })
            g in
        rw none_own (Moves-trans h (jump-Moves _ _ (Moves-Good h) (Moves-Good h)))
  ]

  sequence_loop-Moves :
      (descend : Walk S → Walk S) (left : ℕ)
      → WalkIsSafe end total S descend
      → WalkIsSafe end total S (sequence_loop m junk st descend left)
  unfolding sequence_loop
  sequence_loop-Moves descend zero safe w g = g
  sequence_loop-Moves descend (suc left) safe w g =
      let h = safe w g in
      let rest = Moves-trans h (sequence_loop-Moves descend left safe (descend w) (Moves-Good h)) in
      ground (arith, g, rest)

  sequence-IsSafe :
      (first : Option (Field S → Field S)) (group : Option (Walk S → Walk S))
      → AllSafe end total S first
      → AllWalkSafe end total S group
      → IsSafe end total S (dissect_sequence m junk st first group)
  unfolding dissect_sequence
  sequence-IsSafe none group a b c g = g
  sequence-IsSafe (some f) none a b c g = g
  sequence-IsSafe (some f) (some d) a b c g =
      let h = a c g in Moves-trans h (sequence_loop-Moves d _ b _ (Moves-Good h))

  operator-Moves :
      (op : FieldOperatorIdentifier) (ftype : FieldType) (c : Field S)
      → Good end total c.position
      → Moves end total c.position (apply_operator m junk st op ftype c).1.position
  unfolding apply_operator
  operator-Moves FieldOperatorIdentifier.copy ftype c g = copy-Moves m byte junk st ftype c g
  operator-Moves FieldOperatorIdentifier.default ftype c g = default-Moves m byte junk st ftype c g
  operator-Moves _ ftype c g = g

  fn_map-FnSafe :
      (type : FieldTypeIdentifier) (parts : Parts m junk st)
      → is_vector type ≡ false
      → PartsSafe end total m junk S st parts
      → FnSafe end total S (dissect_fn_map m junk st type parts)
  unfolding dissect_fn_map
  fn_map-FnSafe FieldTypeIdentifier.uint32 parts v h =
      λ ftype. (numbers-IsSafe m byte junk st ftype).0
  fn_map-FnSafe FieldTypeIdentifier.uint64 parts v h =
      λ ftype. (numbers-IsSafe m byte junk st ftype).1
  fn_map-FnSafe FieldTypeIdentifier.int32 parts v h =
      λ ftype. (numbers-IsSafe m byte junk st ftype).2
  fn_map-FnSafe FieldTypeIdentifier.int64 parts v h =
      λ ftype. (numbers-IsSafe m byte junk st ftype).3
  fn_map-FnSafe FieldTypeIdentifier.decimal parts v h =
      λ ftype. decimal-IsSafe m byte junk st parts.first parts.second ftype h.first h.second
  fn_map-FnSafe FieldTypeIdentifier.ascii_string parts v h =
      λ ftype. ascii_string-IsSafe m byte junk st ftype
  fn_map-FnSafe FieldTypeIdentifier.unicode_string parts v h = cc
  fn_map-FnSafe FieldTypeIdentifier.byte_vector parts v h = cc
  fn_map-FnSafe FieldTypeIdentifier.group parts v h = λ ftype. group-IsSafe parts.walk ftype h.walk
  fn_map-FnSafe FieldTypeIdentifier.sequence parts v h =
      λ ftype. sequence-IsSafe parts.first parts.second_node h.first h.second_node
  fn_map-FnSafe FieldTypeIdentifier.error parts v h = tt
  fn_map-FnSafe FieldTypeIdentifier.enum_limit parts v h = tt
  fn_map-FnSafe FieldTypeIdentifier.invalid parts v h = tt

  started :
      (mandatory : Bool) (optional : Field S → Field S) (c : Field S)
      → IsSafe end total S optional
      → Good end total c.position
      → Moves end total c.position
          (if mandatory
            then with_status m junk st c exists
            else optional (with_status m junk st c empty)).position
  started true optional c o g = g
  started false optional c o g = o (with_status m junk st c empty) g

  descend_step-WalkIsSafe :
      (ftype : FieldType) (value : Field S → Field S)
      → IsSafe end total S value
      → WalkIsSafe end total S (descend_step m junk st ftype value)
  unfolding descend_step
  descend_step-WalkIsSafe ftype value safe w g =
      let h =
        safe
          (record {
            position = w.position;
            fdata = junk;
            children = DNodes.nil;
            store = w.store;
            fault = w.fault;
          })
          g in
      ground (arith, g, h)

  value_by-IsSafe :
      (fn : Option (FieldType → Field S → Field S)) (ftype : FieldType)
      (optional : Field S → Field S)
      → FnSafe end total S fn
      → IsSafe end total S optional
      → IsSafe end total S (value_by m junk st fn ftype optional)
  unfolding value_by
  value_by-IsSafe none ftype optional safe o c g = g
  value_by-IsSafe (some f) ftype optional safe o c g =
      let c1 =
        if ftype.mandatory
        then with_status m junk st c exists
        else optional (with_status m junk st c empty) in
      let h1 = started ftype.mandatory optional c o g in
      let c2 = (apply_operator m junk st ftype.op ftype c1).1 in
      let h2 = Moves-trans h1 (operator-Moves ftype.op ftype c1 (Moves-Good h1)) in
      let h3 = Moves-trans h2 (safe ftype c2 (Moves-Good h2)) in ground (arith, h1, h2, h3)

  mutual
    unfolding dissect_value value_step dissect_descend descend_step

    value_at : (t : TNode) → NoVectors t → IsSafe end total S (dissect_value m junk st t)
    value_at (node ftype children) (v, vs) =
        value_by-IsSafe _ ftype _ (fn_map-FnSafe ftype.type _ v (parts_at children vs))
          (dissect_optional-IsSafe m byte junk st (node ftype children))

    descend_at : (t : TNode) → NoVectors t → WalkIsSafe end total S (dissect_descend m junk st t)
    descend_at (node ftype children) (v, vs) =
        descend_step-WalkIsSafe ftype
          (value_step m junk st ftype (dissect_optional m st (node ftype children))
            (parts_of m junk st children))
          (value_by-IsSafe _ ftype _ (fn_map-FnSafe ftype.type _ v (parts_at children vs))
            (dissect_optional-IsSafe m byte junk st (node ftype children)))

    parts_at :
        (ts : TNodes) → NoVectorsBelow ts → PartsSafe end total m junk S st (parts_of m junk st ts)
    parts_at nil v = record { first = tt; second = tt; second_node = tt; walk = λ w g. g }
    parts_at (cons t ts) (v, vs) =
        let rest = parts_at ts vs in
        record {
          first = value_at t v;
          second = rest.first;
          second_node = first_at ts vs;
          walk = λ w g. let h = descend_at t v w g in Moves-trans h (rest.walk _ (Moves-Good h));
        }

    first_at : (ts : TNodes) → NoVectorsBelow ts → AllWalkSafe end total S (first_node m junk st ts)
    first_at nil v = tt
    first_at (cons t ts) (v, vs) = descend_at t v

-- The dissection of a template's fields stays in the packet, for every memory of bytes, every
-- template with no byte vector and no unicode string, and a start in the packet with a
-- well-formed presence map: at the end no counter has wrapped, the address and the offset still
-- add up to the packet's end with the bytes left, the presence map in use has as many entries as
-- its length says, and the offset has not gone back.
pub dissector_walk-Moves :
    (end total : ℕ) (m : Machine) (junk : FieldData) (S : Type 0) (st : Store S) (ts : TNodes)
    (w : Walk S)
    → IsBytes m.mem
    → NoVectorsBelow ts
    → InPacket end total w.position
    → HasPmap w.position
    → Moves end total w.position (dissector_walk m junk st ts w).position
unfolding dissector_walk
dissector_walk-Moves end total m junk S st ts w byte v inside pmap =
    (parts_at end total m byte junk st ts v).walk w
      (record { in_packet = inside; has_pmap = pmap; forward = omega arith })
