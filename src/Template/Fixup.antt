-- ===== src/Template/Fixup.antt =====
-- `fixup_walk_template` against a description of the groups that need a presence map.
use mathlib.Core.Path.{ap₂}
use fast_wireshark.Base.{
  ◌≡◌, refl, ap, sym, ◌∙◌, Bool, true, false, not, ◌&&◌, ◌||◌, if◌then◌else◌, Bool-cases, inl, inr,
  arith,
}
use fast_wireshark.Field.{u32}
use fast_wireshark.Template.{
  FieldType, TNode, TNodes, node, nil, cons, pmap_exists, set_pmap_exists, is_group,
  requires_pmap_bit, fixup_node, fixup_walk_template,
}

-- Whether a field needs a bit in the presence map of the group that it stands in: itself, or, if it
-- is no group with a map of its own, a field below it.
abbrev mutual
  pub asks : TNode → Bool
  asks (node ftype children) =
      requires_pmap_bit ftype || (if is_group ftype.type then false else asks_any children)

  pub asks_any : TNodes → Bool
  asks_any nil = false
  asks_any (cons t ts) = asks t || asks_any ts

-- A field marked as one with a presence map, if it is not marked yet and there is a need.
abbrev pub mark_if : Bool → FieldType → FieldType
mark_if need ftype = if not (pmap_exists ftype) && need then set_pmap_exists ftype else ftype

-- The template with every group marked that a field in it asks for.
abbrev mutual
  pub marked : TNode → TNode
  marked (node ftype children) =
      node (if is_group ftype.type then mark_if (asks_any children) ftype else ftype)
        (all_marked children)

  pub all_marked : TNodes → TNodes
  all_marked nil = nil
  all_marked (cons t ts) = cons (marked t) (all_marked ts)

pub set_pmap_exists-pmap_exists : (ftype : FieldType) → pmap_exists (set_pmap_exists ftype) ≡ true
set_pmap_exists-pmap_exists ftype =
    let one : u32 (set_pmap_exists ftype).value ≡ 1 = omega arith in rw one refl

pub already_marked :
    (need : Bool) (ftype : FieldType) → pmap_exists ftype ≡ true → mark_if need ftype ≡ ftype
already_marked need ftype e = ap (λ b. if not b && need then set_pmap_exists ftype else ftype) e

not_marked :
    (need : Bool) (ftype : FieldType)
    → pmap_exists ftype ≡ false
    → mark_if need ftype ≡ (if need then set_pmap_exists ftype else ftype)
not_marked need ftype e = ap (λ b. if not b && need then set_pmap_exists ftype else ftype) e

mark_if-mark_if :
    (a b : Bool) (ftype : FieldType) → mark_if b (mark_if a ftype) ≡ mark_if (a || b) ftype
mark_if-mark_if a b ftype = elim (Bool-cases (pmap_exists ftype)) [
  | inl e ↦
      ap (mark_if b) (already_marked a ftype e)
      ∙ already_marked b ftype e
      ∙ sym (already_marked (a || b) ftype e)
  | inr e ↦ unmarked a e
]
  where
    unmarked :
        (a : Bool)
        → pmap_exists ftype ≡ false
        → mark_if b (mark_if a ftype) ≡ mark_if (a || b) ftype
    unmarked true e =
        ap (mark_if b) (not_marked true ftype e)
        ∙ already_marked b (set_pmap_exists ftype) (set_pmap_exists-pmap_exists ftype)
        ∙ sym (not_marked true ftype e)
    unmarked false e = ap (mark_if b) (not_marked false ftype e)

or_false : (b : Bool) → b ≡ b || false
or_false true = refl
or_false false = refl

mark_nothing : (ftype : FieldType) → ftype ≡ mark_if false ftype
mark_nothing ftype = elim (Bool-cases (pmap_exists ftype)) [
  | inl e ↦ sym (already_marked false ftype e)
  | inr e ↦ sym (not_marked false ftype e)
]

-- A node from the results for its children, with itself as the parent and with its own parent.
by_group :
    (parent ftype : FieldType) (children : TNodes) (is_own : Bool)
    (own through : FieldType × TNodes)
    → ◌≡◌ {A = FieldType × TNodes} own (mark_if (asks_any children) ftype, all_marked children)
    → ◌≡◌ {A = FieldType × TNodes} through (
      mark_if (asks_any children) (mark_if (requires_pmap_bit ftype) parent),
      all_marked children,
    )
    → ◌≡◌ {A = FieldType × TNode}
        (if is_own
          then (mark_if (requires_pmap_bit ftype) parent, node own.0 own.1)
          else (through.0, node ftype through.1))
        (
          mark_if (requires_pmap_bit ftype || (if is_own then false else asks_any children)) parent,
          node (if is_own then mark_if (asks_any children) ftype else ftype) (all_marked children),
        )
by_group parent ftype children true own through p q =
    ap₂ (λ x y. (x, y)) (ap (λ b. mark_if b parent) (or_false (requires_pmap_bit ftype)))
      (ap (λ o. node o.0 o.1) p)
by_group parent ftype children false own through p q =
    ap (λ o. (o.0, node ftype o.1)) q
    ∙ ap (λ x. (x, node ftype (all_marked children)))
        (mark_if-mark_if (requires_pmap_bit ftype) (asks_any children) parent)

mutual
  unfolding fixup_node fixup_walk_template

  fixup_node_lem :
      (parent : FieldType) (t : TNode) → fixup_node parent t ≡ (mark_if (asks t) parent, marked t)
  fixup_node_lem parent (node ftype children) =
      by_group parent ftype children (is_group ftype.type) (fixup_walk_template ftype children)
        (fixup_walk_template (mark_if (requires_pmap_bit ftype) parent) children)
        (fixup_walk_template_lem ftype children)
        (fixup_walk_template_lem (mark_if (requires_pmap_bit ftype) parent) children)

  fixup_walk_template_lem :
      (parent : FieldType) (ts : TNodes)
      → fixup_walk_template parent ts ≡ (mark_if (asks_any ts) parent, all_marked ts)
  fixup_walk_template_lem parent nil = ap (λ p. (p, nil)) (mark_nothing parent)
  fixup_walk_template_lem parent (cons t ts) =
      ap (λ o. ((fixup_walk_template o.0 ts).0, cons o.1 (fixup_walk_template o.0 ts).1))
        (fixup_node_lem parent t)
      ∙ ap (λ o. (o.0, cons (marked t) o.1)) (fixup_walk_template_lem (mark_if (asks t) parent) ts)
      ∙ ap (λ p. (p, cons (marked t) (all_marked ts)))
          (mark_if-mark_if (asks t) (asks_any ts) parent)

-- `fixup_walk_template` marks exactly the groups that need a presence map, and changes nothing
-- else: the parent and every group below it are marked if they were, or if a field in them,
-- outside the groups nested there, or such a nested group itself needs a presence bit.
pub fixup_walk_template-all_marked :
    (parent : FieldType) (ts : TNodes)
    → fixup_walk_template parent ts ≡ (mark_if (asks_any ts) parent, all_marked ts)
fixup_walk_template-all_marked parent ts = fixup_walk_template_lem parent ts
