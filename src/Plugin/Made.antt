-- ===== src/Plugin/Made.antt =====
-- dissect.c: the walk along a well-formed template makes data nodes that fit it.
use fast_wireshark.Base.{
  ℕ, ◌≢◌, ◌≡◌, refl, sym, ap, ◌∙◌, ◌⊎◌, Bool, true, false, Option, none, some, [], ◌∷◌, arith,
  if◌then◌else◌,
}
use fast_wireshark.Field.{FieldTypeIdentifier, Machine}
use fast_wireshark.Position.{FieldData, exists, empty}
use fast_wireshark.Template.{FieldType, TNode, TNodes, node, pmap_exists}
use fast_wireshark.Template
use fast_wireshark.Parser.Shape.{HasTypes, PartsFit, WellFormed, AllWellFormed}
use fast_wireshark.Dissect.Node.{Store, Field, Walk, DNodes, dnode, insert_after, is_exists}
use fast_wireshark.Dissect.Optional.{dissect_optional}
use fast_wireshark.Dissect.Tree.{
  Parts, dissect_fn_map, apply_operator, value_by, value_step, descend_step, dissect_value,
  dissect_descend, parts_of, with_status,
}
use fast_wireshark.Plugin.Fits.{FitsAs, NodeFits, Fits, ElementsFit}
use fast_wireshark.Plugin.Chain.{
  chain, chain_assoc, chain-nil, insert_after-last_of, last_of, last_of-chain, next, only,
}
use fast_wireshark.Plugin.Leaves.{
  FirstKeeps, FnLeaves, Keeps, Leaves, Makes, MakesOne, Second, bare-FitsAs, fn_map-FnLeaves,
  operator-Keeps, optional_at, uint32-Keeps,
}

module _ {S : Type 0} (m : Machine) (junk : FieldData) (st : Store S) where
  started :
      (mandatory : Bool) (optional : Field S → Field S) (c : Field S)
      → Keeps optional
      → (if mandatory
          then with_status m junk st c exists
          else optional (with_status m junk st c empty)).children
        ≡ c.children
  started true optional c k = refl
  started false optional c k = k (with_status m junk st c empty)

  choose-FitsAs :
      (type : FieldTypeIdentifier) (ts : TNodes) (b used : Bool) (x y z : Field S)
      → FitsAs type ((x.children ≡ DNodes.nil) ⊎ Fits ts x.children) (ElementsFit ts x.children)
      → FitsAs type ((y.children ≡ DNodes.nil) ⊎ Fits ts y.children) (ElementsFit ts y.children)
      → FitsAs type ((z.children ≡ DNodes.nil) ⊎ Fits ts z.children) (ElementsFit ts z.children)
      → let c = if b then (if used then x else y) else z in
        FitsAs type ((c.children ≡ DNodes.nil) ⊎ Fits ts c.children) (ElementsFit ts c.children)
  choose-FitsAs type ts true true x y z p q r = p
  choose-FitsAs type ts true false x y z p q r = q
  choose-FitsAs type ts false used x y z p q r = r

  value_by-Leaves :
      (fn : Option (FieldType → Field S → Field S)) (ftype : FieldType) (ts : TNodes)
      (optional : Field S → Field S)
      → Keeps optional
      → FnLeaves m junk st ftype.type ts fn
      → Leaves ftype.type ts (value_by m junk st fn ftype optional)
  unfolding value_by
  value_by-Leaves none ftype ts optional k leaves c h =
      bare-FitsAs m junk st ftype.type ts c.children h
  value_by-Leaves (some f) ftype ts optional k leaves c h =
      let c1 =
        if ftype.mandatory
        then with_status m junk st c exists
        else optional (with_status m junk st c empty) in
      let (used, c2) = apply_operator m junk st ftype.op ftype c1 in
      let h1 = started ftype.mandatory optional c k ∙ h in
      let h2 : c2.children ≡ DNodes.nil = operator-Keeps m junk st ftype.op ftype c1 ∙ h1 in
      choose-FitsAs ftype.type ts (is_exists c1.fdata.status) used c2 (f ftype c2) c1
        (bare-FitsAs m junk st ftype.type ts c2.children h2) (leaves ftype c2 h2)
        (bare-FitsAs m junk st ftype.type ts c1.children h1)

  -- A type that `dissect_descend` refuses.
  in_range :
      (type : FieldTypeIdentifier) (ts : TNodes)
      → PartsFit type ts
      → (type ≢ FieldTypeIdentifier.enum_limit) × (type ≢ FieldTypeIdentifier.invalid)
  in_range FieldTypeIdentifier.enum_limit ts p = absurd p
  in_range FieldTypeIdentifier.invalid ts p = absurd p
  in_range type ts p = (ground arith, ground arith)

  abbrev fresh_node : Walk S → Field S
  fresh_node w = record {
    position = w.position;
    fdata = junk;
    children = DNodes.nil;
    store = w.store;
    fault = w.fault;
  }

  descend_step-made :
      (ftype : FieldType) (value : Field S → Field S) (w : Walk S)
      → (ftype.type ≢ FieldTypeIdentifier.enum_limit) × (ftype.type ≢ FieldTypeIdentifier.invalid)
      → let c = value (fresh_node w) in
        ((descend_step m junk st ftype value w).children
          ≡ insert_after w.children w.last (dnode c.fdata c.children))
        × ((descend_step m junk st ftype value w).last ≡ next w.last)
  unfolding descend_step
  descend_step-made ftype value w valid = ground (arith, valid)

  descend_step-MakesOne :
      (ftype : FieldType) (ts : TNodes) (value : Field S → Field S)
      → PartsFit ftype.type ts
      → Leaves ftype.type ts value
      → MakesOne (node ftype ts) (descend_step m junk st ftype value)
  unfolding NodeFits
  descend_step-MakesOne ftype ts value p leaves w e =
      let c = value (fresh_node w) in
      let d = dnode c.fdata c.children in
      let (children, last) = descend_step-made ftype value w (in_range ftype.type ts p) in
      let at_end : (descend_step m junk st ftype value w).children ≡ chain w.children (only d) =
        rw (children, e) (insert_after-last_of w.children d) in
      (
        d,
        (
          at_end,
          leaves (fresh_node w) refl,
          last ∙ ap next e ∙ sym (last_of-chain w.children d) ∙ ap last_of (sym at_end),
        ),
      )

  choose_children :
      (b used : Bool) (x y z : Field S) (ds : DNodes)
      → x.children ≡ ds
      → y.children ≡ ds
      → z.children ≡ ds
      → (if b then (if used then x else y) else z).children ≡ ds
  choose_children true true x y z ds p q r = p
  choose_children true false x y z ds p q r = q
  choose_children false used x y z ds p q r = r

  abbrev FnKeeps : Option (FieldType → Field S → Field S) → Type 0
  FnKeeps none = Unit {0}
  FnKeeps (some f) = (ftype : FieldType) → Keeps (f ftype)

  value_by-Keeps :
      (fn : Option (FieldType → Field S → Field S)) (ftype : FieldType)
      (optional : Field S → Field S)
      → Keeps optional
      → FnKeeps fn
      → Keeps (value_by m junk st fn ftype optional)
  unfolding value_by
  value_by-Keeps none ftype optional k keeps c = refl
  value_by-Keeps (some f) ftype optional k keeps c =
      let c1 =
        if ftype.mandatory
        then with_status m junk st c exists
        else optional (with_status m junk st c empty) in
      let (used, c2) = apply_operator m junk st ftype.op ftype c1 in
      let h1 = started ftype.mandatory optional c k in
      let h2 : c2.children ≡ c.children = operator-Keeps m junk st ftype.op ftype c1 ∙ h1 in
      choose_children (is_exists c1.fdata.status) used c2 (f ftype c2) c1 c.children h2
        (keeps ftype c2 ∙ h2) h1

  uint32-FnKeeps :
      (type : FieldTypeIdentifier) (parts : Parts m junk st)
      → type ≡ FieldTypeIdentifier.uint32
      → FnKeeps (dissect_fn_map m junk st type parts)
  unfolding dissect_fn_map
  uint32-FnKeeps FieldTypeIdentifier.uint32 parts e = uint32-Keeps m junk st
  uint32-FnKeeps type parts e = absurd (cc)

  -- The length of a sequence is read into the field of the sequence.
  uint32_value-Keeps :
      (ftype : FieldType) (ts : TNodes)
      → ftype.type ≡ FieldTypeIdentifier.uint32
      → Keeps (dissect_value m junk st (node ftype ts))
  unfolding dissect_value value_step
  uint32_value-Keeps ftype ts e =
      value_by-Keeps (dissect_fn_map m junk st ftype.type (parts_of m junk st ts)) ftype
        (dissect_optional m st (node ftype ts)) (optional_at m junk st (node ftype ts))
        (uint32-FnKeeps ftype.type (parts_of m junk st ts) e)

  first-Keeps :
      (ts : TNodes)
      → HasTypes ts (FieldTypeIdentifier.uint32 ∷ FieldTypeIdentifier.group ∷ [])
      → FirstKeeps m junk st (parts_of m junk st ts).first
  unfolding parts_of
  first-Keeps Template.nil p = tt
  first-Keeps (Template.cons (node ftype cs) ts) (e, p) = uint32_value-Keeps ftype cs e

  sequence_first :
      (type : FieldTypeIdentifier) (ts : TNodes)
      → PartsFit type ts
      → type ≡ FieldTypeIdentifier.sequence
      → FirstKeeps m junk st (parts_of m junk st ts).first
  sequence_first FieldTypeIdentifier.sequence ts p e = first-Keeps ts p
  sequence_first type ts p e = absurd (cc)

  mutual
    unfolding dissect_descend value_step parts_of Fits

    descend_at : (id : ℕ) (t : TNode) → WellFormed id t → MakesOne t (dissect_descend m junk st t)
    descend_at id (node ftype ts) (p, f, ws) =
        let optional = dissect_optional m st (node ftype ts) in
        let parts = parts_of m junk st ts in
        descend_step-MakesOne ftype ts (value_step m junk st ftype optional parts) p (
          value_by-Leaves (dissect_fn_map m junk st ftype.type parts) ftype ts optional
            (optional_at m junk st (node ftype ts))
            (fn_map-FnLeaves m junk st ftype.type ts parts p (walk_at id ts ws)
              (sequence_first ftype.type ts p) (following_at id ts ws)))

    pub walk_at :
        (id : ℕ) (ts : TNodes) → AllWellFormed id ts → Makes ts (parts_of m junk st ts).walk
    walk_at id Template.nil ws w e = (DNodes.nil, (sym (chain-nil w.children), tt, e))
    walk_at id (Template.cons t ts) (h, hs) w e =
        let (d, (made, fits, ends)) = descend_at id t h w e in
        let (ds, (made2, fits2, ends2)) = walk_at id ts hs (dissect_descend m junk st t w) ends in
        (
          DNodes.cons d ds,
          (made2 ∙ rw made (chain_assoc w.children (only d) ds), (fits, fits2), ends2),
        )

    following_at :
        (id : ℕ) (ts : TNodes) → AllWellFormed id ts → Second ts (parts_of m junk st ts).second_node
    following_at id Template.nil hs = tt
    following_at id (Template.cons l Template.nil) hs = tt
    following_at id (Template.cons l (Template.cons t ts)) (h, (g, hs)) = descend_at id t g
