-- ===== src/Dictionaries.antt =====
-- dictionaries.c: the values of earlier fields, by conversation, dictionary and key.
-- GLib's hash tables are a parameter, with their documented behaviour. A pointer to a table is
-- followed by storing the changed table back where the pointer came from.
pub mod Table
pub mod Laws
pub mod Stored
pub mod Clear
pub mod Refinement
use Prim.Native.String.{String}
use mathlib.Core.Option
use fast_wireshark.Base.{
  ℕ, Bool, true, false, not, ◌&&◌, ◌||◌, List, [], ◌∷◌, Option, none, some, Eq, nat_eq, string_eq,
  if◌then◌else◌,
}
use fast_wireshark.Field.{
  FieldTypeIdentifier, FieldValue, Machine, copy_field_value, cleanup_field_value,
}
use fast_wireshark.Position.{FieldStatus, exists, empty, undefined, error, FieldData, err_d}
use fast_wireshark.Template.{FieldType}
use fast_wireshark.Dictionaries.Table.{HashTable, name_eq, is_template, same_type}

pub record TypedValue : Type 0 where
  pub type : FieldTypeIdentifier
  pub empty : Bool
  pub value : FieldValue

abbrev pub is_empty : FieldStatus → Bool
is_empty empty = true
is_empty _ = false

-- `new_value->empty = fdata->status == FieldEmpty`, and the copy where it is not. `old` is what the
-- value held before.
unfoldable pub store_value : Machine → FieldType → FieldData → FieldValue → TypedValue
unfolding copy_field_value
store_value m ftype fdata old = record {
  type = ftype.type;
  empty = is_empty fdata.status;
  value = if is_empty fdata.status then old else copy_field_value m ftype.type fdata.value old;
}

-- The value that is recycled: cleaned up if it was not empty.
unfoldable pub recycle : FieldTypeIdentifier → TypedValue → FieldValue
unfolding cleanup_field_value
recycle type prev = if prev.empty then prev.value else cleanup_field_value type prev.value

-- What `get_dictionary_value` makes of the entry that it finds.
unfoldable pub use_previous : Machine → FieldType → TypedValue → FieldData → Bool × FieldData
unfolding same_type copy_field_value err_d
use_previous m ftype prev fdata =
    if same_type prev.type ftype.type
    then (
      true,
      record fdata {
        status = if prev.empty then empty else exists;
        value =
            if prev.empty
            then fdata.value
            else copy_field_value m ftype.type prev.value fdata.value;
      },
    )
    else (false, err_d 4 fdata)

-- Where there is no entry: the default of the field, or the status `undefined`.
unfoldable pub use_default : Machine → FieldType → FieldData → FieldData
unfolding copy_field_value
use_default m ftype fdata =
    if ftype.has_default
    then record fdata {
      status = exists;
      value = copy_field_value m ftype.type ftype.value fdata.value;
    }
    else record fdata { status = undefined }

-- What the value of an entry holds before a store: the previous value, cleaned up, or what the
-- allocation holds.
abbrev pub old_value : Machine → FieldType → Option TypedValue → FieldValue
old_value m ftype none = m.fresh
old_value m ftype (some prev) = recycle ftype.type prev

-- What `get_dictionary_value` does with the entry, if there is one.
abbrev pub use_entry : Machine → FieldType → FieldData → Option TypedValue → Bool × FieldData
use_entry m ftype fdata none = (false, use_default m ftype fdata)
use_entry m ftype fdata (some prev) = use_previous m ftype prev fdata

-- The look-up by the field's key; without a key nothing happens.
abbrev pub look_up :
    Machine
    → FieldType
    → FieldData
    → (String → Option TypedValue)
    → Option String
    → Bool × FieldData
look_up m ftype fdata find none = (false, fdata)
look_up m ftype fdata find (some key) = use_entry m ftype fdata (find key)

abbrev pub Dictionary : HashTable → Type 0
Dictionary h = h.Table String TypedValue

pub record ConversationTables (h : HashTable) : Type 0 where
  pub normal : h.Table (Option String) (Dictionary h)
  pub templates : h.Table ℕ (Dictionary h)

module _ (h : HashTable) (Address : Type 0) (e : Eq Address) where
  open h use {Table, new, lookup, insert, remove_all, keys}

  -- `src_table`, by source and destination; null before the first use.
  abbrev pub SrcTable : Type 0
  SrcTable = Table Address (Table Address (ConversationTables h))

  abbrev pub State : Type 0
  State = Option SrcTable

  abbrev pub no_tables : ConversationTables h
  no_tables = record {
    normal = new (Option String) (Dictionary h);
    templates = new ℕ (Dictionary h);
  }

  -- The tables of a conversation, made where they are missing.
  unfoldable pub get_conversation_table : State → Address → Address → ConversationTables h
  get_conversation_table st src dest =
      let srcs = Option.get_or st (new Address (Table Address (ConversationTables h))) in
      let dests = Option.get_or (lookup e srcs src) (new Address (ConversationTables h)) in
      Option.get_or (lookup e dests dest) no_tables

  -- The state with these tables for the conversation.
  unfoldable pub put_conversation_table : State → Address → Address → ConversationTables h → State
  put_conversation_table st src dest tables =
      let srcs = Option.get_or st (new Address (Table Address (ConversationTables h))) in
      let dests = Option.get_or (lookup e srcs src) (new Address (ConversationTables h)) in
      some (insert e srcs src (insert e dests dest tables))

  -- The dictionary of a field, by the template or by its name; a new one where it is missing.
  unfoldable pub get_dictionary : FieldType → State → Address → Address → Dictionary h
  unfolding is_template get_conversation_table
  get_dictionary ftype st src dest =
      let tables = get_conversation_table st src dest in
      Option.get_or
        (if is_template ftype.dictionary
          then lookup nat_eq tables.templates ftype.tid
          else lookup name_eq tables.normal ftype.dictionary)
        (new String TypedValue)

  -- The state where the field's dictionary is this one. With the dictionary that `get_dictionary`
  -- gives it is the state that `get_dictionary` leaves.
  unfoldable pub put_dictionary : FieldType → State → Address → Address → Dictionary h → State
  unfolding is_template get_conversation_table put_conversation_table
  put_dictionary ftype st src dest dictionary =
      let tables = get_conversation_table st src dest in
      put_conversation_table st src dest (
        if is_template ftype.dictionary
        then record tables { templates = insert nat_eq tables.templates ftype.tid dictionary }
        else record tables { normal = insert name_eq tables.normal ftype.dictionary dictionary })

  -- One round, with what the look-up of the key gives: the dictionary is emptied. A key without a
  -- dictionary is skipped; the loops get their keys from the table.
  abbrev pub clear_at :
      (K : Type 0)
      → Eq K
      → K
      → Table K (Dictionary h)
      → Option (Dictionary h)
      → Table K (Dictionary h)
  clear_at K ke k t none = t
  clear_at K ke k t (some dictionary) = insert ke t k (remove_all dictionary)

  abbrev pub clear_one : (K : Type 0) → Eq K → K → Table K (Dictionary h) → Table K (Dictionary h)
  clear_one K ke k t = clear_at K ke k t (lookup ke t k)

  -- The loop over the keys of `ctables->normal` or `ctables->templates`.
  unfoldable pub clear_loop :
      (K : Type 0) → Eq K → List K → Table K (Dictionary h) → Table K (Dictionary h)
  clear_loop K ke [] t = t
  clear_loop K ke (k ∷ ks) t = clear_loop K ke ks (clear_one K ke k t)

  unfoldable pub clear_dictionaries : State → Address → Address → State
  unfolding clear_loop get_conversation_table put_conversation_table
  clear_dictionaries st src dest =
      let tables = get_conversation_table st src dest in
      put_conversation_table st src dest (record {
        normal = clear_loop (Option String) name_eq (keys tables.normal) tables.normal;
        templates = clear_loop ℕ nat_eq (keys tables.templates) tables.templates;
      })

  module _ (m : Machine) where
    -- The result, the field and the state.
    unfoldable pub get_dictionary_value :
        FieldType → FieldData → Address → Address → State → Bool × FieldData × State
    unfolding use_previous use_default
    get_dictionary_value ftype fdata src dest st =
        let dictionary = get_dictionary ftype st src dest in
        let (found, fdata') =
          look_up m ftype fdata (λ key. lookup string_eq dictionary key) ftype.key in
        (found, fdata', put_dictionary ftype st src dest dictionary)

    -- The part of `set_dictionary_value` behind `get_dictionary`, by the field's key.
    abbrev pub store_at : FieldType → FieldData → Address → Address → State → Option String → State
    store_at ftype fdata src dest st none =
        put_dictionary ftype st src dest (get_dictionary ftype st src dest)
    store_at ftype fdata src dest st (some key) =
        let dictionary = get_dictionary ftype st src dest in
        let old = old_value m ftype (lookup string_eq dictionary key) in
        put_dictionary ftype st src dest
          (insert string_eq dictionary key (store_value m ftype fdata old))

    unfoldable pub set_dictionary_value : FieldType → FieldData → Address → Address → State → State
    set_dictionary_value ftype fdata src dest st = store_at ftype fdata src dest st ftype.key
