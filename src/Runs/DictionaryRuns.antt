-- ===== src/Runs/DictionaryRuns.antt =====
-- The dictionaries over association lists.
use fast_wireshark.Base.{
  ℕ, ◌≡◌, refl, true, false, List, [], ◌∷◌, Option, none, some, Eq, nat_eq, string_eq,
  if◌then◌else◌, Bool-cases, inl, inr,
}
use fast_wireshark.Field.{
  Machine, FieldTypeIdentifier, FieldOperatorIdentifier, FieldValue, raw, copy_field_value,
}
use fast_wireshark.Position.{FieldData, exists, err_d}
use fast_wireshark.Template.{FieldType}
use fast_wireshark.Dictionaries.{State, get_dictionary_value, set_dictionary_value}
use fast_wireshark.Dictionaries.Table.{HashTable, has_key, same_type, is_template}
use fast_wireshark.Dictionaries.Stored.{
  get_dictionary_value-set_dictionary_value, get_dictionary_value_other_type,
}
use fast_wireshark.Dictionaries.Refinement.{
  Operation, store, look, clear, run, run_entries, no_entries, run-run_entries,
}
use fast_wireshark.Runs.Data.{machine, blank, no_value}

module _ {K V : Type 0} where
  abbrev pub find : Eq K → List (K × V) → K → Option V
  find e [] j = none
  find e ((k, v) ∷ t) j = if e.beq k j then some v else find e t j

  abbrev pub keys_of : List (K × V) → List K
  keys_of [] = []
  keys_of ((k, v) ∷ t) = k ∷ keys_of t

  pub find-has_key :
      (e : Eq K) (t : List (K × V)) (j : K) (v : V)
      → find e t j ≡ some v
      → has_key e j (keys_of t) ≡ true
  find-has_key e [] j v h = cc
  find-has_key e ((k, w) ∷ t) j v h = elim (Bool-cases (e.beq k j)) [
    | inl b ↦ rw b
    | inr b ↦ rw b (find-has_key e t j v (rw b at h))
  ]

-- The last entry comes first.
abbrev pub lists : HashTable
lists = record {
  Table = λ K V. List (K × V);
  new = λ K V. [];
  lookup = λ e t k. find e t k;
  insert = λ e t k v. (k, v) ∷ t;
  remove_all = λ t. [];
  keys = λ t. keys_of t;
  lookup-new = λ K V e k. refl;
  lookup-insert = λ K V e t k j v. refl;
  lookup-remove_all = λ K V e t k. refl;
  listed = λ K V e t k v h. find-has_key e t k v h;
}

abbrev pub field : FieldTypeIdentifier → FieldType
field type = record {
  name = none;
  id = 7;
  tid = 1;
  key = some "price";
  mandatory = true;
  type = type;
  op = FieldOperatorIdentifier.copy;
  has_default = false;
  value = no_value;
  dictionary = some "global";
}

abbrev price : FieldType
price = field FieldTypeIdentifier.uint32

abbrev text : FieldType
text = field FieldTypeIdentifier.ascii_string

abbrev five : FieldData
five = record {
  start = 0;
  nbytes = 1;
  status = exists;
  value = record { word = 5; second = raw 0 };
}

abbrev m : Machine
m = machine []

-- The state after five was stored from 1 to 2.
abbrev stored : State lists ℕ nat_eq
stored = set_dictionary_value lists ℕ nat_eq m price five 1 2 none

get_dictionary_value-set_dictionary_value_example :
    (old : FieldValue) × ((get_dictionary_value lists ℕ nat_eq m price blank 1 2 stored).0 ≡ true)
    × ((get_dictionary_value lists ℕ nat_eq m price blank 1 2 stored).1.status ≡ exists)
    × ((get_dictionary_value lists ℕ nat_eq m price blank 1 2 stored).1.value
        ≡ copy_field_value m price.type (copy_field_value m price.type five.value old) no_value)
unfolding same_type is_template
get_dictionary_value-set_dictionary_value_example =
    get_dictionary_value-set_dictionary_value lists ℕ nat_eq m price price five blank 1 2 1 2 none
      "price" "price" refl refl refl refl

get_dictionary_value_other_type_example :
    ((get_dictionary_value lists ℕ nat_eq m text blank 1 2 stored).0 ≡ false)
    × ((get_dictionary_value lists ℕ nat_eq m text blank 1 2 stored).1 ≡ err_d 4 blank)
unfolding same_type is_template
get_dictionary_value_other_type_example =
    get_dictionary_value_other_type lists ℕ nat_eq m price text five blank 1 2 1 2 none "price"
      "price" refl refl refl refl

-- A store, a look-up that finds it, a clearing of the conversation, and a look-up that does not.
abbrev operations : List (Operation ℕ)
operations = store price five 1 2 ∷ look price blank 1 2 ∷ clear 1 2 ∷ look price blank 1 2 ∷ []

run-run_entries_example :
    run lists ℕ nat_eq m operations none
    ≡ run_entries lists ℕ nat_eq m operations (no_entries lists ℕ nat_eq m)
run-run_entries_example = run-run_entries lists ℕ nat_eq m operations
