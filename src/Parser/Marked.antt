-- ===== src/Parser/Marked.antt =====
-- The templates that are in the table are as well formed as those of the file.
use mathlib.Core.Path.{subst}
use fast_wireshark.Base.{
  ℕ, ◌≡◌, refl, Bool, true, false, List, [], ◌∷◌, Option, none, some, Option-cases, Bool-cases, inl,
  inr, if◌then◌else◌, ◌==◌, arith,
}
use fast_wireshark.Field.{FieldTypeIdentifier}
use fast_wireshark.Template.{FieldType, TNode, TNodes, node, nil, cons, is_group}
use fast_wireshark.Template.Fixup.{asks_any, mark_if, marked, all_marked}
use fast_wireshark.Template.Table.{last_template}
use fast_wireshark.Dissect.Message.{children_of}
use fast_wireshark.Parser.Shape.{HasTypes, PartsFit, FieldFits, WellFormed, AllWellFormed}
use fast_wireshark.Parser.Document.{AllTemplates}

-- The same but for the value.
record SameShape (f f' : FieldType) : Type 0 where
  type : f'.type ≡ f.type
  op : f'.op ≡ f.op
  tid : f'.tid ≡ f.tid
  dictionary : f'.dictionary ≡ f.dictionary

mark_if-SameShape : (need : Bool) (f : FieldType) → SameShape f (mark_if need f)
mark_if-SameShape need f = record {
  type = ground arith;
  op = ground arith;
  tid = ground arith;
  dictionary = ground arith;
}

own-SameShape : (own need : Bool) (f : FieldType) → SameShape f (if own then mark_if need f else f)
own-SameShape true need f = mark_if-SameShape need f
own-SameShape false need f = record { type = refl; op = refl; tid = refl; dictionary = refl }

HasTypes-all_marked :
    (ts : TNodes) (types : List FieldTypeIdentifier)
    → HasTypes ts types
    → HasTypes (all_marked ts) types
HasTypes-all_marked nil [] h = tt
HasTypes-all_marked nil (type ∷ types) h = h
HasTypes-all_marked (cons (node f cs) ts) [] h = h
HasTypes-all_marked (cons (node f cs) ts) (type ∷ types) (e, h) = (
  ground (arith, e, (own-SameShape (is_group f.type) (asks_any cs) f).type),
  HasTypes-all_marked ts types h,
)

PartsFit-all_marked :
    (type : FieldTypeIdentifier) (ts : TNodes) → PartsFit type ts → PartsFit type (all_marked ts)
PartsFit-all_marked FieldTypeIdentifier.decimal ts h = HasTypes-all_marked ts _ h
PartsFit-all_marked FieldTypeIdentifier.sequence ts h = HasTypes-all_marked ts _ h
PartsFit-all_marked FieldTypeIdentifier.unicode_string ts h = HasTypes-all_marked ts _ h
PartsFit-all_marked FieldTypeIdentifier.byte_vector ts h = HasTypes-all_marked ts _ h
PartsFit-all_marked FieldTypeIdentifier.group ts h = tt
PartsFit-all_marked FieldTypeIdentifier.error ts h = h
PartsFit-all_marked FieldTypeIdentifier.enum_limit ts h = h
PartsFit-all_marked FieldTypeIdentifier.invalid ts h = h
PartsFit-all_marked type ts h = HasTypes-all_marked ts [] h

FieldFits-SameShape :
    (id : ℕ) (type : FieldTypeIdentifier) (f f' : FieldType)
    → SameShape f f'
    → FieldFits id type f
    → FieldFits id type f'
FieldFits-SameShape id FieldTypeIdentifier.decimal f f' s h = rw (s.tid, s.dictionary) h
FieldFits-SameShape id FieldTypeIdentifier.group f f' s h = rw (s.op, s.type) h
FieldFits-SameShape id type f f' s h = rw (s.tid, s.dictionary, s.op, s.type) h

mutual
  marked-WellFormed : (id : ℕ) (t : TNode) → WellFormed id t → WellFormed id (marked t)
  marked-WellFormed id (node f ts) (p, fits, ws) =
      let s = own-SameShape (is_group f.type) (asks_any ts) f in
      (
        rw (s.type) (PartsFit-all_marked f.type ts p),
        rw (s.type) (FieldFits-SameShape id f.type f _ s fits),
        all_marked-AllWellFormed id ts ws,
      )

  all_marked-AllWellFormed :
      (id : ℕ) (ts : TNodes) → AllWellFormed id ts → AllWellFormed id (all_marked ts)
  all_marked-AllWellFormed id nil h = tt
  all_marked-AllWellFormed id (cons t ts) (h, hs) =
      (marked-WellFormed id t h, all_marked-AllWellFormed id ts hs)

-- The fields of a template, if there is one, are well formed.
abbrev pub WellShaped : Option TNode → Type 0
WellShaped none = Unit {0}
WellShaped (some t) = (id : ℕ) × AllWellFormed id (children_of t)

pub last_template-WellShaped :
    (id : ℕ) (ts : TNodes) → AllTemplates ts → WellShaped (last_template id ts)
last_template-WellShaped id nil h = tt
last_template-WellShaped id (cons (node f cs) ts) (t, hs) =
    elim (Option-cases (last_template id ts)) [
      | inr (later, e) ↦ rw e (subst WellShaped e (last_template-WellShaped id ts hs))
      | inl e ↦ elim (Bool-cases (f.id == id)) [
        | inl same ↦ rw (e, same) (f.id, all_marked-AllWellFormed f.id cs t.3)
        | inr other ↦ rw (e, other) tt
      ]
    ]
