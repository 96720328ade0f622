-- ===== src/Dictionaries/Table.antt =====
-- The hash tables of GLib as an interface, and the tests that dictionaries.c makes on keys.
use Prim.Native.String.{String}
use fast_wireshark.Base.{
  ℕ, ◌≡◌, refl, ap, ◌↔◌, Bool, true, false, ◌||◌, List, [], ◌∷◌, ◌==◌, Option, none, some, Eq,
  string_eq, if◌then◌else◌, some_eq,
}
use fast_wireshark.Field.{FieldTypeIdentifier}

-- Whether an equal key is in the list.
abbrev pub has_key : {K : Type 0} → Eq K → K → List K → Bool
has_key e k [] = false
has_key e k (j ∷ js) = e.beq j k || has_key e k js

-- A table is made for one test of equal keys, `e`. `g_hash_table_insert` replaces an entry with an
-- equal key, `g_hash_table_remove_all` empties the table, and `g_hash_table_get_keys` lists the
-- keys: `listed` says that it lists every key that has a value.
pub record HashTable : Type 1 where
  pub Table : Type 0 → Type 0 → Type 0
  pub new : (K V : Type 0) → Table K V
  pub lookup : {K V : Type 0} → Eq K → Table K V → K → Option V
  pub insert : {K V : Type 0} → Eq K → Table K V → K → V → Table K V
  pub remove_all : {K V : Type 0} → Table K V → Table K V
  pub keys : {K V : Type 0} → Table K V → List K
  pub lookup-new : (K V : Type 0) (e : Eq K) (k : K) → lookup e (new K V) k ≡ none
  pub lookup-insert :
      (K V : Type 0) (e : Eq K) (t : Table K V) (k j : K) (v : V)
      → lookup e (insert e t k v) j ≡ (if e.beq k j then some v else lookup e t j)
  pub lookup-remove_all :
      (K V : Type 0) (e : Eq K) (t : Table K V) (k : K) → lookup e (remove_all t) k ≡ none
  pub listed :
      (K V : Type 0) (e : Eq K) (t : Table K V) (k : K) (v : V)
      → lookup e t k ≡ some v
      → has_key e k (keys t) ≡ true

abbrev pub name_beq : Option String → Option String → Bool
name_beq none none = true
name_beq (some a) (some b) = string_eq.beq a b
name_beq _ _ = false

pub name_beq_iff : (a b : Option String) → (name_beq a b ≡ true) ↔ (a ≡ b)
name_beq_iff none none = (λ _. refl, λ _. refl)
name_beq_iff none (some b) = (λ e. cc, λ e. cc)
name_beq_iff (some a) none = (λ e. cc, λ e. cc)
name_beq_iff (some a) (some b) =
    (λ e. ap some ((string_eq.beq_iff a b).0 e), λ e. (string_eq.beq_iff a b).1 (some_eq e))

-- `g_str_equal` on the names of dictionaries. A null name, which the parser does not leave, counts
-- as one more name.
instance abbrev pub name_eq : Eq (Option String)
name_eq = record { beq = name_beq; beq_iff = name_beq_iff }

abbrev pub template_dictionary : String
template_dictionary = "template"

-- `g_strcmp0(ftype->dictionary, TEMPLATE_DICTIONARY) == 0`.
unfoldable pub is_template : Option String → Bool
is_template none = false
is_template (some name) = string_eq.beq name template_dictionary

-- The number of an enumerator.
abbrev pub type_number : FieldTypeIdentifier → ℕ
type_number FieldTypeIdentifier.uint32 = 0
type_number FieldTypeIdentifier.uint64 = 1
type_number FieldTypeIdentifier.int32 = 2
type_number FieldTypeIdentifier.int64 = 3
type_number FieldTypeIdentifier.decimal = 4
type_number FieldTypeIdentifier.ascii_string = 5
type_number FieldTypeIdentifier.unicode_string = 6
type_number FieldTypeIdentifier.byte_vector = 7
type_number FieldTypeIdentifier.group = 8
type_number FieldTypeIdentifier.sequence = 9
type_number FieldTypeIdentifier.error = 10
type_number FieldTypeIdentifier.enum_limit = 11
type_number FieldTypeIdentifier.invalid = 12

unfoldable pub same_type : FieldTypeIdentifier → FieldTypeIdentifier → Bool
same_type a b = type_number a == type_number b
