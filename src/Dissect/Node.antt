-- ===== src/Dissect/Node.antt =====
-- What dissect.c works on: the tree of fields that it builds, and the values that its functions
-- share.
use fast_wireshark.Base.{ℕ, zero, suc, ◌-◌, ◌^◌, Bool, true, false, ◌&&◌, Option, none, some, ltb}
use fast_wireshark.Position.{
  DissectPosition, FieldData, FieldStatus, exists, empty, undefined, error,
}
use fast_wireshark.Template.{FieldType}

-- A GNode with its FieldData and its children in order.
mutual
  pub data DNode : Type 0 where
    dnode : FieldData → DNodes → DNode

  pub data DNodes : Type 0 where
    nil : DNodes
    cons : DNode → DNodes → DNodes

-- `g_node_insert_after` under a parent with these children: behind the child of that index, or in
-- front of all where there is none.
unfoldable pub insert_after : DNodes → Option ℕ → DNode → DNodes
insert_after ds none d = cons d ds
insert_after nil (some i) d = cons d nil
insert_after (cons c cs) (some zero) d = cons c (cons d cs)
insert_after (cons c cs) (some (suc i)) d = cons c (insert_after cs (some i) d)

-- The dictionaries as the dissector sees them in one conversation: `get_dictionary_value` and
-- `set_dictionary_value`.
pub record Store (S : Type 0) : Type 0 where
  pub get : FieldType → FieldData → S → Bool × FieldData × S
  pub set : FieldType → FieldData → S → S

-- The values that a field's dissection reads and changes: the position, the data and the children
-- of the node at hand, and the dictionaries. After `fault` the code has undefined behaviour.
pub record Field (S : Type 0) : Type 0 where
  pub position : DissectPosition
  pub fdata : FieldData
  pub children : DNodes
  pub store : S
  pub fault : Bool

-- The same for a walk over siblings: the children of the parent, and the last node made.
pub record Walk (S : Type 0) : Type 0 where
  pub position : DissectPosition
  pub children : DNodes
  pub last : Option ℕ
  pub store : S
  pub fault : Bool

unfoldable pub is_exists : FieldStatus → Bool
is_exists exists = true
is_exists _ = false

unfoldable pub is_empty : FieldStatus → Bool
is_empty empty = true
is_empty _ = false

unfoldable pub is_undefined : FieldStatus → Bool
is_undefined undefined = true
is_undefined _ = false

unfoldable pub is_error : FieldStatus → Bool
is_error error = true
is_error _ = false

-- `0 < x` on a gint32 or gint64 with the pattern `x`.
abbrev pub positive32 : ℕ → Bool
positive32 x = ltb 0 x && ltb x (2 ^ 31)

abbrev pub positive64 : ℕ → Bool
positive64 x = ltb 0 x && ltb x (2 ^ 63)

-- -1 as a gint64.
abbrev pub minus_one : ℕ
minus_one = 2 ^ 64 - 1

module _ {S : Type 0} (st : Store S) where
  -- `set_dictionary_value (ftype, fdata, *src, *dest)`.
  abbrev pub save : FieldType → Field S → Field S
  save ftype c = record c { store = st.set ftype c.fdata c.store }
