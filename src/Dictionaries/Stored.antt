-- ===== src/Dictionaries/Stored.antt =====
-- Reading a dictionary after a store to it.
use Prim.Native.String.{String}
use fast_wireshark.Base.{
  ◌≡◌, refl, ap, ◌∙◌, true, false, some, Eq, if◌then◌else◌, Bool-cases, inl, inr,
}
use fast_wireshark.Field.{Machine, FieldValue, copy_field_value}
use fast_wireshark.Position.{FieldData, exists, empty, err_d}
use fast_wireshark.Template.{FieldType}
use fast_wireshark.Dictionaries.{
  State, get_dictionary_value, set_dictionary_value, store_value, old_value, use_entry,
  use_previous, is_empty,
}
use fast_wireshark.Dictionaries.Table.{HashTable, same_type}
use fast_wireshark.Dictionaries.Laws.{entry, same_entry, entry-set_dictionary_value}

-- The previous value in a field of the same type, and of another.
use_previous_same :
    (m : Machine) (f g : FieldType) (fdata fdata' : FieldData) (old : FieldValue)
    → same_type f.type g.type ≡ true
    → ((use_previous m g (store_value m f fdata old) fdata').0 ≡ true)
      × ((use_previous m g (store_value m f fdata old) fdata').1.status
          ≡ (if is_empty fdata.status then empty else exists))
      × ((use_previous m g (store_value m f fdata old) fdata').1.value ≡ (
          if is_empty fdata.status
          then fdata'.value
          else copy_field_value m g.type (copy_field_value m f.type fdata.value old) fdata'.value))
unfolding use_previous store_value
use_previous_same m f g fdata fdata' old t = elim (Bool-cases (is_empty fdata.status)) [
  | inl b ↦ rw (t, b) (refl, refl, refl)
  | inr b ↦ rw (t, b) (refl, refl, refl)
]

use_previous_other :
    (m : Machine) (f g : FieldType) (fdata fdata' : FieldData) (old : FieldValue)
    → same_type f.type g.type ≡ false
    → use_previous m g (store_value m f fdata old) fdata' ≡ (false, err_d 4 fdata')
unfolding use_previous store_value
use_previous_other m f g fdata fdata' old t = rw t refl

module _ (h : HashTable) (Address : Type 0) (e : Eq Address) where
  -- What the look-up of a field with a key gives is decided by its entry.
  get_by_key :
      (m : Machine) (g : FieldType) (fdata : FieldData) (src dest : Address)
      (st : State h Address e) (j : String)
      → g.key ≡ some j
      → ((get_dictionary_value h Address e m g fdata src dest st).0
          ≡ (use_entry m g fdata (entry h Address e g j st src dest)).0)
        × ((get_dictionary_value h Address e m g fdata src dest st).1
            ≡ (use_entry m g fdata (entry h Address e g j st src dest)).1)
  unfolding get_dictionary_value
  get_by_key m g fdata src dest st j gk = rw gk (refl, refl)

  found_after :
      (m : Machine) (f g : FieldType) (fdata fdata' : FieldData) (src dest src' dest' : Address)
      (st : State h Address e) (k j : String)
      → f.key ≡ some k
      → g.key ≡ some j
      → same_entry h Address e f g src dest src' dest' k j ≡ true
      → (old : FieldValue) × ((get_dictionary_value h Address e m g fdata' src' dest'
            (set_dictionary_value h Address e m f fdata src dest st)).0
          ≡ (use_previous m g (store_value m f fdata old) fdata').0)
        × ((get_dictionary_value h Address e m g fdata' src' dest'
              (set_dictionary_value h Address e m f fdata src dest st)).1
            ≡ (use_previous m g (store_value m f fdata old) fdata').1)
  found_after m f g fdata fdata' src dest src' dest' st k j fk gk same =
      let old = old_value m f (entry h Address e f k st src dest) in
      let st' = set_dictionary_value h Address e m f fdata src dest st in
      let stored : entry h Address e g j st' src' dest' ≡ some (store_value m f fdata old) =
        entry-set_dictionary_value h Address e m f g fdata src dest src' dest' st k j fk
        ∙ ap
            (λ b.
              if b then some (store_value m f fdata old) else entry h Address e g j st src' dest')
            same in
      let got = get_by_key m g fdata' src' dest' st' j gk in
      (
        old,
        got.0 ∙ ap (λ o. (use_entry m g fdata' o).0) stored,
        got.1 ∙ ap (λ o. (use_entry m g fdata' o).1) stored,
      )

  -- After a store through the field `f`, a look-up through a field `g` of the same type that
  -- shares the entry finds it, both fields having a key: the status is empty if the empty value
  -- was stored, and else it exists, and then the value is a copy of the copy of the value
  -- stored, for some old contents of the entry.
  pub get_dictionary_value-set_dictionary_value :
      (m : Machine) (f g : FieldType) (fdata fdata' : FieldData) (src dest src' dest' : Address)
      (st : State h Address e) (k j : String)
      → f.key ≡ some k
      → g.key ≡ some j
      → same_entry h Address e f g src dest src' dest' k j ≡ true
      → same_type f.type g.type ≡ true
      → (old : FieldValue) × ((get_dictionary_value h Address e m g fdata' src' dest'
            (set_dictionary_value h Address e m f fdata src dest st)).0
          ≡ true)
        × ((get_dictionary_value h Address e m g fdata' src' dest'
              (set_dictionary_value h Address e m f fdata src dest st)).1.status
            ≡ (if is_empty fdata.status then empty else exists))
        × ((get_dictionary_value h Address e m g fdata' src' dest'
              (set_dictionary_value h Address e m f fdata src dest st)).1.value
            ≡ (if is_empty fdata.status
                then fdata'.value
                else copy_field_value m g.type
                    (copy_field_value m f.type fdata.value old)
                    fdata'.value))
  get_dictionary_value-set_dictionary_value m f g fdata fdata' src dest src' dest' st k j fk gk same
        t =
      let (old, a, b) = found_after m f g fdata fdata' src dest src' dest' st k j fk gk same in
      let (x, y, z) = use_previous_same m f g fdata fdata' old t in
      (old, a ∙ x, ap FieldData.status b ∙ y, ap FieldData.value b ∙ z)

  -- After a store through the field `f`, a look-up through a field `g` of another type that
  -- shares the entry fails with ERR D4, both fields having a key.
  pub get_dictionary_value_other_type :
      (m : Machine) (f g : FieldType) (fdata fdata' : FieldData) (src dest src' dest' : Address)
      (st : State h Address e) (k j : String)
      → f.key ≡ some k
      → g.key ≡ some j
      → same_entry h Address e f g src dest src' dest' k j ≡ true
      → same_type f.type g.type ≡ false
      → ((get_dictionary_value h Address e m g fdata' src' dest'
            (set_dictionary_value h Address e m f fdata src dest st)).0
          ≡ false)
        × ((get_dictionary_value h Address e m g fdata' src' dest'
              (set_dictionary_value h Address e m f fdata src dest st)).1
            ≡ err_d 4 fdata')
  get_dictionary_value_other_type m f g fdata fdata' src dest src' dest' st k j fk gk same t =
      let (old, a, b) = found_after m f g fdata fdata' src dest src' dest' st k j fk gk same in
      let other = use_previous_other m f g fdata fdata' old t in
      (a ∙ ap (λ r. r.0) other, b ∙ ap (λ r. r.1) other)
