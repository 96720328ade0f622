-- ===== src/Plugin/Defined.antt =====
-- packet-fast.c: the texts of decimals in the rows that are displayed, by `sciNotation`.
use mathlib.Core.Option
use fast_wireshark.Base.{◌≡◌, List, [], ◌∷◌, Bool-cases, inl, inr, true, Option, none, some}
use fast_wireshark.Field.{FieldTypeIdentifier, FieldValue, Machine}
use fast_wireshark.Position.{FieldData, FieldStatus}
use fast_wireshark.Template.{FieldType, TNode, TNodes, node}
use fast_wireshark.Template
use fast_wireshark.Dissect.Node.{DNode, DNodes, dnode}
use fast_wireshark.Plugin.Text.{undefined}
use fast_wireshark.Plugin.Display.{
  Content, decimal_row, Row, row, Rows, DisplayPreferences, append, both, decimal_content,
  existing_field, field_by, each_element, display_field, display_loop, display_sequence,
  display_fields, display_message, unless_null,
}

-- The content is not what `to_decimal` leaves where it writes outside its buffers.
abbrev pub IsDefined : Content → Type 0
IsDefined (decimal_row undefined) = ⊥
IsDefined content = Unit {0}

abbrev mutual
  RowDefined : Row → Type 0
  RowDefined (row line below) = IsDefined line.content × RowsDefined below

  pub RowsDefined : Rows → Type 0
  RowsDefined Rows.nil = Unit {0}
  RowsDefined (Rows.cons r rs) = RowDefined r × RowsDefined rs

-- So it is in every row, if there are rows.
abbrev pub AnyDefined : Option Rows → Type 0
AnyDefined none = Unit {0}
AnyDefined (some rows) = RowsDefined rows

append-RowsDefined : (rs ss : Rows) → RowsDefined rs → RowsDefined ss → RowsDefined (append rs ss)
append-RowsDefined Rows.nil ss h g = g
append-RowsDefined (Rows.cons r rs) ss (h, hs) g = (h, append-RowsDefined rs ss hs g)

both-AnyDefined : (a b : Option Rows) → AnyDefined a → AnyDefined b → AnyDefined (both a b)
both-AnyDefined none b h g = tt
both-AnyDefined (some rs) none h g = tt
both-AnyDefined (some rs) (some ss) h g = append-RowsDefined rs ss h g

map-AnyDefined :
    (f : Rows → Rows) (o : Option Rows)
    → ((rs : Rows) → RowsDefined rs → RowsDefined (f rs))
    → AnyDefined o
    → AnyDefined (Option.map f o)
map-AnyDefined f none keeps h = tt
map-AnyDefined f (some rs) keeps h = keeps rs h

module _ (m : Machine) (prefs : DisplayPreferences) where
  -- Every message.
  abbrev pub AllDefined : List (TNode × DNode) → Type 0
  AllDefined [] = Unit {0}
  AllDefined ((t, d) ∷ rest) = AnyDefined (display_message m prefs t d) × AllDefined rest

module _ (m : Machine) (prefs : DisplayPreferences) (sci : prefs.sci_notation ≡ true) where
  decimal-IsDefined : (v : FieldValue) → IsDefined (decimal_content m prefs v)
  unfolding decimal_content
  decimal-IsDefined v = rw sci tt

  existing_field-AnyDefined :
      (type : FieldTypeIdentifier) (below elements : Option Rows) (ftype : FieldType)
      (fdata : FieldData)
      → AnyDefined below
      → AnyDefined elements
      → AnyDefined (existing_field m prefs type below elements ftype fdata)
  unfolding existing_field
  existing_field-AnyDefined FieldTypeIdentifier.decimal below elements ftype fdata h g =
      ((decimal-IsDefined fdata.value, tt), tt)
  existing_field-AnyDefined FieldTypeIdentifier.group below elements ftype fdata h g =
      map-AnyDefined _ below (λ rs d. ((tt, d), tt)) h
  existing_field-AnyDefined FieldTypeIdentifier.sequence below elements ftype fdata h g =
      map-AnyDefined _ elements (λ rs d. ((tt, d), tt)) g
  existing_field-AnyDefined FieldTypeIdentifier.error below elements ftype fdata h g = tt
  existing_field-AnyDefined FieldTypeIdentifier.enum_limit below elements ftype fdata h g = tt
  existing_field-AnyDefined FieldTypeIdentifier.invalid below elements ftype fdata h g = tt
  existing_field-AnyDefined type below elements ftype fdata h g = ((tt, tt), tt)

  empty-AnyDefined :
      (below elements : Option Rows) (ftype : FieldType) (fdata : FieldData)
      → AnyDefined (field_by m prefs FieldStatus.empty below elements ftype fdata)
  unfolding field_by
  empty-AnyDefined below elements ftype fdata = elim (Bool-cases prefs.show_empty_optional_fields) [
    | inl e ↦ rw e ((tt, tt), tt)
    | inr e ↦ rw e tt
  ]

  field_by-AnyDefined :
      (status : FieldStatus) (below elements : Option Rows) (ftype : FieldType) (fdata : FieldData)
      → AnyDefined below
      → AnyDefined elements
      → AnyDefined (field_by m prefs status below elements ftype fdata)
  unfolding field_by
  field_by-AnyDefined FieldStatus.exists below elements ftype fdata h g =
      existing_field-AnyDefined ftype.type below elements ftype fdata h g
  field_by-AnyDefined FieldStatus.empty below elements ftype fdata h g =
      empty-AnyDefined below elements ftype fdata
  field_by-AnyDefined status below elements ftype fdata h g = ((tt, tt), tt)

  unless_null-AnyDefined :
      (ds : DNodes) (o : Option Rows) → AnyDefined o → AnyDefined (unless_null m prefs ds o)
  unless_null-AnyDefined DNodes.nil o h = tt
  unless_null-AnyDefined (DNodes.cons d ds) o h = h

  each_element-AnyDefined :
      (show : DNodes → Option Rows)
      → ((ds : DNodes) → AnyDefined (show ds))
      → (ds : DNodes) → AnyDefined (each_element m prefs show ds)
  unfolding each_element
  each_element-AnyDefined show shows DNodes.nil = tt
  each_element-AnyDefined show shows (DNodes.cons d ds) =
      both-AnyDefined _ _ (shows (DNodes.cons d ds)) (each_element-AnyDefined show shows ds)

  mutual
    unfolding display_field

    field_at : (t : TNode) (d : DNode) → AnyDefined (display_field m prefs t d)
    field_at (node ftype ts) (dnode fdata ds) =
        field_by-AnyDefined fdata.status _ _ ftype fdata
          (unless_null-AnyDefined ds (display_loop m prefs ts ds) (loop_at ts ds))
          (sequence_at ts ds)

    loop_at : (ts : TNodes) (ds : DNodes) → AnyDefined (display_loop m prefs ts ds)
    loop_at Template.nil ds = tt
    loop_at (Template.cons t ts) DNodes.nil = tt
    loop_at (Template.cons t ts) (DNodes.cons d ds) =
        both-AnyDefined _ _ (field_at t d) (loop_at ts ds)

    sequence_at : (ts : TNodes) (ds : DNodes) → AnyDefined (display_sequence m prefs ts ds)
    sequence_at Template.nil ds = tt
    sequence_at (Template.cons length groups) ds =
        each_element-AnyDefined (display_loop m prefs groups) (loop_at groups) ds

  display_message-AnyDefined : (t : TNode) (d : DNode) → AnyDefined (display_message m prefs t d)
  unfolding display_message display_fields
  display_message-AnyDefined (node ftype ts) (dnode fdata ds) =
      map-AnyDefined _ _ (λ rs h. ((tt, h), tt))
        (unless_null-AnyDefined ds (display_loop m prefs ts ds) (loop_at ts ds))

  pub every_message : (trees : List (TNode × DNode)) → AllDefined m prefs trees
  every_message [] = tt
  every_message ((t, d) ∷ rest) = (display_message-AnyDefined t d, every_message rest)
