-- ===== src/Parser/Shape.antt =====
-- The trees that the parser builds have the parts that the dissector relies on.
use Prim.Native.String.{String}
use fast_wireshark.Base.{ℕ, ◌≡◌, refl, Bool, true, false, List, [], ◌∷◌, Option, none, some}
use fast_wireshark.Field.{FieldTypeIdentifier}
use fast_wireshark.Template.{FieldType, TNode, TNodes, node}
use fast_wireshark.Template
use fast_wireshark.Parser.Operator.{given_or}
use fast_wireshark.Parser.Keeps.{OperatorFits}

abbrev pub is_some : Option String → Bool
is_some none = false
is_some (some s) = true

-- The children have these types, and there are no others.
abbrev pub HasTypes : TNodes → List FieldTypeIdentifier → Type 0
HasTypes Template.nil [] = Unit {0}
HasTypes (Template.cons (node f cs) ts) (type ∷ types) = (f.type ≡ type) × HasTypes ts types
HasTypes _ _ = ⊥

-- The parts of a field by its type: a decimal has an exponent and a mantissa, a vector of bytes and
-- a unicode string have a length, a sequence has a length and a group; groups have any children.
abbrev pub PartsFit : FieldTypeIdentifier → TNodes → Type 0
PartsFit FieldTypeIdentifier.decimal ts =
    HasTypes ts (FieldTypeIdentifier.int32 ∷ FieldTypeIdentifier.int64 ∷ [])
PartsFit FieldTypeIdentifier.sequence ts =
    HasTypes ts (FieldTypeIdentifier.uint32 ∷ FieldTypeIdentifier.group ∷ [])
PartsFit FieldTypeIdentifier.unicode_string ts = HasTypes ts (FieldTypeIdentifier.uint32 ∷ [])
PartsFit FieldTypeIdentifier.byte_vector ts = HasTypes ts (FieldTypeIdentifier.uint32 ∷ [])
PartsFit FieldTypeIdentifier.group ts = Unit {0}
PartsFit FieldTypeIdentifier.error ts = ⊥
PartsFit FieldTypeIdentifier.enum_limit ts = ⊥
PartsFit FieldTypeIdentifier.invalid ts = ⊥
PartsFit type ts = HasTypes ts []

-- What holds of the field itself: its operator fits unless it is a decimal, and unless it is a group
-- it belongs to the template and names a dictionary.
abbrev pub FieldFits : ℕ → FieldTypeIdentifier → FieldType → Type 0
FieldFits template_id FieldTypeIdentifier.decimal f =
    (f.tid ≡ template_id) × (is_some f.dictionary ≡ true)
FieldFits template_id FieldTypeIdentifier.group f = OperatorFits f
FieldFits template_id type f =
    (f.tid ≡ template_id) × (is_some f.dictionary ≡ true) × OperatorFits f

abbrev mutual
  pub WellFormed : ℕ → TNode → Type 0
  WellFormed template_id (node f ts) =
      PartsFit f.type ts × FieldFits template_id f.type f × AllWellFormed template_id ts

  pub AllWellFormed : ℕ → TNodes → Type 0
  AllWellFormed template_id Template.nil = Unit {0}
  AllWellFormed template_id (Template.cons t ts) =
      WellFormed template_id t × AllWellFormed template_id ts

abbrev pub OptionWellFormed : ℕ → Option TNode → Type 0
OptionWellFormed template_id none = Unit {0}
OptionWellFormed template_id (some t) = WellFormed template_id t

pub given_or-is_some : (a b : Option String) → is_some b ≡ true → is_some (given_or a b) ≡ true
given_or-is_some none b h = h
given_or-is_some (some s) b h = refl
