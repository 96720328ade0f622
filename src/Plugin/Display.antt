-- ===== src/Plugin/Display.antt =====
-- packet-fast.c: `display_message` and `display_fields`, which show the data of a message along its
-- template. Wireshark's tree is a tree of rows, and a row holds the arguments of its format.
use Prim.Native.String.{String}
use mathlib.Core.Option
use fast_wireshark.Base.{
  ℕ, Bool, ◌+◌, ◌/◌, ◌%◌, List, [], ◌∷◌, Option, none, some, ltb, if◌then◌else◌,
}
use fast_wireshark.Field.{
  FieldTypeIdentifier, FieldValue, Machine, Word, u32, u64, exponent, read_from,
}
use fast_wireshark.Position.{FieldData, FieldStatus, exists, empty}
use fast_wireshark.Template.{FieldType, TNode, TNodes, node, field_typename}
use fast_wireshark.Template
use fast_wireshark.Dissect.Node.{DNode, DNodes, dnode}
use fast_wireshark.Plugin.Text.{Preferences, Printed, null, to_decimal, generate_field_info}

-- What a row says of a field. A string is printed through its pointer, and a signed integer is its
-- pattern.
pub data Content : Type 0 where
  message group : Content
  uint32_row uint64_row int32_row int64_row : ℕ → Content
  scientific : (mant expt : ℕ) → Content
  decimal_row : Printed → Content
  ascii_row unicode_row error_row : Word → Content
  byte_vector_row : List ℕ → Content
  sequence : (length : ℕ) → Content
  empty_row : Option String → Content

-- `header` is the entry of `hf_fast`, and `none` is -1, or `hf_fast_tid` for a message. The rows of
-- messages, groups, empty fields and errors do not print `field_inf`, and an empty one not its `id`.
pub record Line : Type 0 where
  pub header : Option FieldTypeIdentifier
  pub start : ℕ
  pub nbytes : ℕ
  pub name : String
  pub id : ℕ
  pub field_inf : String
  pub content : Content

mutual
  pub data Row : Type 0 where
    row : Line → Rows → Row

  pub data Rows : Type 0 where
    nil : Rows
    cons : Row → Rows → Rows

-- The preferences `sciNotation` and `show_empty_optional_fields`, and those of the attributes.
pub record DisplayPreferences : Type 0 where
  pub sci_notation : Bool
  pub show_empty_optional_fields : Bool
  pub field_info : Preferences

abbrev pub append : Rows → Rows → Rows
append nil rs = rs
append (cons r rs) ss = cons r (append rs ss)

-- What is shown if both have been.
abbrev pub both : Option Rows → Option Rows → Option Rows
both (some rs) (some ss) = some (append rs ss)
both _ _ = none

abbrev field_name : FieldType → String
field_name ftype = elim ftype.name [ none ↦ "unnamed" | some name ↦ name ]

abbrev header_field : FieldTypeIdentifier → Option FieldTypeIdentifier
header_field FieldTypeIdentifier.enum_limit = none
header_field FieldTypeIdentifier.invalid = none
header_field type = some type

-- `%02x`
abbrev hex_digit : ℕ → ℕ
hex_digit d = if ltb d 10 then d + b'0' else d + 87

unfoldable pub hex_text : List ℕ → List ℕ
hex_text [] = []
hex_text (b ∷ bs) = hex_digit (b / 16) ∷ hex_digit (b % 16) ∷ hex_text bs

module _ (m : Machine) (prefs : DisplayPreferences) where
  abbrev line : Option FieldTypeIdentifier → FieldType → FieldData → Content → Line
  line header ftype fdata content = record {
    header = header;
    start = fdata.start;
    nbytes = fdata.nbytes;
    name = field_name ftype;
    id = ftype.id;
    field_inf = generate_field_info prefs.field_info ftype;
    content = content;
  }

  abbrev field_row : FieldType → FieldData → Content → Rows → Rows
  field_row ftype fdata content below =
      cons (row (line (header_field ftype.type) ftype fdata content) below) nil

  abbrev decimal_or : ℕ → ℕ → Printed → Content
  decimal_or mant expt null = scientific mant expt
  decimal_or mant expt printed = decimal_row printed

  unfoldable pub decimal_content : FieldValue → Content
  unfolding to_decimal
  decimal_content v =
      let mant = u64 v in
      let expt = exponent m v in
      if prefs.sci_notation
      then scientific mant expt
      else decimal_or mant expt (to_decimal expt mant)

  -- The field that exists. `below` and `elements` are what is shown of a group's and of a
  -- sequence's children, where `none` is the dereference of a null data node.
  unfoldable pub existing_field :
      FieldTypeIdentifier → Option Rows → Option Rows → FieldType → FieldData → Option Rows
  unfolding decimal_content hex_text read_from generate_field_info
  existing_field FieldTypeIdentifier.uint32 below elements ftype fdata =
      some (field_row ftype fdata (uint32_row (u32 fdata.value)) nil)
  existing_field FieldTypeIdentifier.uint64 below elements ftype fdata =
      some (field_row ftype fdata (uint64_row (u64 fdata.value)) nil)
  existing_field FieldTypeIdentifier.int32 below elements ftype fdata =
      some (field_row ftype fdata (int32_row (u32 fdata.value)) nil)
  existing_field FieldTypeIdentifier.int64 below elements ftype fdata =
      some (field_row ftype fdata (int64_row (u64 fdata.value)) nil)
  existing_field FieldTypeIdentifier.decimal below elements ftype fdata =
      some (field_row ftype fdata (decimal_content fdata.value) nil)
  existing_field FieldTypeIdentifier.ascii_string below elements ftype fdata =
      some (field_row ftype fdata (ascii_row fdata.value.second) nil)
  existing_field FieldTypeIdentifier.unicode_string below elements ftype fdata =
      some (field_row ftype fdata (unicode_row fdata.value.second) nil)
  existing_field FieldTypeIdentifier.byte_vector below elements ftype fdata = some (
      field_row ftype fdata
        (byte_vector_row (hex_text (read_from m fdata.value.second 0 (u32 fdata.value)))) nil)
  existing_field FieldTypeIdentifier.group below elements ftype fdata =
      Option.map (field_row ftype fdata Content.group) below
  existing_field FieldTypeIdentifier.sequence below elements ftype fdata =
      Option.map (field_row ftype fdata (sequence (u32 fdata.value))) elements
  existing_field _ below elements ftype fdata = some nil

  -- A field by its status. The row of an error stands under the header of the errors, at no bytes.
  unfoldable pub field_by :
      FieldStatus → Option Rows → Option Rows → FieldType → FieldData → Option Rows
  unfolding existing_field field_typename generate_field_info
  field_by exists below elements ftype fdata = existing_field ftype.type below elements ftype fdata
  field_by empty below elements ftype fdata = some (
      if prefs.show_empty_optional_fields
      then field_row ftype fdata (empty_row (field_typename ftype.type)) nil
      else nil)
  field_by _ below elements ftype fdata = some (
      cons
        (row
          (line (some FieldTypeIdentifier.error) ftype (record fdata { start = 0; nbytes = 0 })
            (error_row fdata.value.second))
          nil)
        nil)

  -- A null data node at the start is only logged.
  abbrev pub unless_null : DNodes → Option Rows → Option Rows
  unless_null DNodes.nil shown = some nil
  unless_null (DNodes.cons d ds) shown = shown

  -- The loop over the elements of a sequence. `display_fields` is given an element with those
  -- behind it.
  unfoldable pub each_element : (DNodes → Option Rows) → DNodes → Option Rows
  each_element show DNodes.nil = some nil
  each_element show (DNodes.cons d ds) = both (show (DNodes.cons d ds)) (each_element show ds)

  unfoldable mutual
    unfolding field_by each_element

    pub display_field : TNode → DNode → Option Rows
    display_field (node ftype children) (dnode fdata ds) =
        field_by fdata.status (unless_null ds (display_loop children ds))
          (display_sequence children ds) ftype fdata

    -- The loop of `display_fields`.
    pub display_loop : TNodes → DNodes → Option Rows
    display_loop Template.nil ds = some nil
    display_loop (Template.cons t ts) DNodes.nil = none
    display_loop (Template.cons t ts) (DNodes.cons d ds) =
        both (display_field t d) (display_loop ts ds)

    -- The elements of a sequence, shown by the type node behind the length.
    pub display_sequence : TNodes → DNodes → Option Rows
    display_sequence Template.nil ds = some nil
    display_sequence (Template.cons length groups) ds = each_element (display_loop groups) ds

  unfoldable pub display_fields : TNodes → DNodes → Option Rows
  unfolding display_loop
  display_fields ts ds = unless_null ds (display_loop ts ds)

  -- The message, under its name and its identifier.
  unfoldable pub display_message : TNode → DNode → Option Rows
  unfolding display_fields
  display_message (node ftype ts) (dnode fdata ds) =
      Option.map (λ rows. cons (row (line none ftype fdata message) rows) nil)
        (display_fields ts ds)
