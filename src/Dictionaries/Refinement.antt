-- ===== src/Dictionaries/Refinement.antt =====
-- The dictionaries against a map of all their entries.
use Prim.Native.String.{String}
use mathlib.Core.Path.{ap₂}
use mathlib.Core.Option
use fast_wireshark.Base.{
  ◌≡◌, refl, ap, ◌∙◌, Bool, ◌&&◌, List, [], ◌∷◌, Option, none, some, Eq, nat_eq, string_eq,
  if◌then◌else◌, Option-cases, Bool-cases, inl, inr,
}
use fast_wireshark.Field.{Machine}
use fast_wireshark.Position.{FieldData}
use fast_wireshark.Template.{FieldType}
use fast_wireshark.Dictionaries.{
  TypedValue, ConversationTables, State, no_tables, get_dictionary, get_conversation_table,
  get_dictionary_value, set_dictionary_value, clear_dictionaries, store_at, store_value, old_value,
  look_up,
}
use fast_wireshark.Dictionaries.Table.{HashTable, name_eq, is_template}
use fast_wireshark.Dictionaries.Laws.{
  entry, same_entry, pick, entry-set_dictionary_value, entry-get_dictionary_value,
}
use fast_wireshark.Dictionaries.Clear.{entry-clear_dictionaries}

-- What a program does with the dictionaries, from a source to a destination.
pub data Operation (Address : Type 0) : Type 0 where
  store look : FieldType → FieldData → Address → Address → Operation Address
  clear : Address → Address → Operation Address

module _ (h : HashTable) (Address : Type 0) (e : Eq Address) (m : Machine) where
  -- The results of the look-ups, in order.
  unfoldable pub run : List (Operation Address) → State h Address e → List (Bool × FieldData)
  unfolding get_dictionary_value set_dictionary_value clear_dictionaries
  run [] st = []
  run (store ftype fdata src dest ∷ os) st =
      run os (set_dictionary_value h Address e m ftype fdata src dest st)
  run (look ftype fdata src dest ∷ os) st =
      let (found, fdata', st') = get_dictionary_value h Address e m ftype fdata src dest st in
      (found, fdata') ∷ run os st'
  run (clear src dest ∷ os) st = run os (clear_dictionaries h Address e st src dest)

  -- A map: the entry of a field with a key in a conversation.
  abbrev pub Entries : Type 0
  Entries = FieldType → String → Address → Address → Option TypedValue

  abbrev pub no_entries : Entries
  no_entries g j src dest = none

  -- A store changes the entries that share the field's.
  abbrev store_entry : FieldType → FieldData → Address → Address → Option String → Entries → Entries
  store_entry f fdata src dest none c = c
  store_entry f fdata src dest (some k) c = λ g j src' dest'.
      if same_entry h Address e f g src dest src' dest' k j
      then some (store_value m f fdata (old_value m f (c f k src dest)))
      else c g j src' dest'

  abbrev clear_entries : Address → Address → Entries → Entries
  clear_entries src dest c g j src' dest' =
      if e.beq src src' && e.beq dest dest' then none else c g j src' dest'

  unfoldable pub run_entries : List (Operation Address) → Entries → List (Bool × FieldData)
  run_entries [] c = []
  run_entries (store ftype fdata src dest ∷ os) c =
      run_entries os (store_entry ftype fdata src dest ftype.key c)
  run_entries (look ftype fdata src dest ∷ os) c =
      look_up m ftype fdata (λ key. c ftype key src dest) ftype.key ∷ run_entries os c
  run_entries (clear src dest ∷ os) c = run_entries os (clear_entries src dest c)

  -- The tables hold the entries of the map.
  abbrev Holds : State h Address e → Entries → Type 0
  Holds st c =
      (g : FieldType) (j : String) (src dest : Address)
      → entry h Address e g j st src dest ≡ c g j src dest

  pick-no_tables : (g : FieldType) → pick h g (no_tables h Address e) ≡ h.new String TypedValue
  pick-no_tables g = elim (Bool-cases (is_template g.dictionary)) [
    | inl t ↦ rw (t, h.lookup-new) refl
    | inr t ↦ rw (t, h.lookup-new) refl
  ]

  no_conversation :
      (src dest : Address)
      → get_conversation_table h Address e none src dest ≡ no_tables h Address e
  unfolding get_conversation_table
  no_conversation src dest =
      ap
        (λ o.
          Option.get_or (h.lookup e (Option.get_or o (h.new Address (ConversationTables h))) dest)
            (no_tables h Address e))
        (h.lookup-new Address _ e src)
      ∙ ap (λ o. Option.get_or o (no_tables h Address e)) (h.lookup-new Address _ e dest)

  new-Holds : Holds none no_entries
  unfolding get_dictionary
  new-Holds g j src dest =
      ap (λ t. h.lookup string_eq (pick h g t) j) (no_conversation src dest)
      ∙ ap (λ d. h.lookup string_eq d j) (pick-no_tables g)
      ∙ h.lookup-new String TypedValue string_eq j

  store_by_key :
      (f : FieldType) (fdata : FieldData) (src dest : Address) (st : State h Address e)
      (c : Entries)
      → Holds st c
      → (key : Option String) → f.key ≡ key
      → Holds
          (set_dictionary_value h Address e m f fdata src dest st)
          (store_entry f fdata src dest key c)
  unfolding set_dictionary_value get_dictionary_value
  store_by_key f fdata src dest st c holds none no_key g j src' dest' =
      ap (λ k. entry h Address e g j (store_at h Address e m f fdata src dest st k) src' dest')
        no_key
      ∙ entry-get_dictionary_value h Address e m f g fdata src dest src' dest' st j
      ∙ holds g j src' dest'
  store_by_key f fdata src dest st c holds (some k) key g j src' dest' =
      entry-set_dictionary_value h Address e m f g fdata src dest src' dest' st k j key
      ∙ ap₂
          (λ o o'.
            if same_entry h Address e f g src dest src' dest' k j
            then some (store_value m f fdata (old_value m f o))
            else o')
          (holds f k src dest) (holds g j src' dest')

  store-Holds :
      (f : FieldType) (fdata : FieldData) (src dest : Address) (st : State h Address e)
      (c : Entries)
      → Holds st c
      → Holds
          (set_dictionary_value h Address e m f fdata src dest st)
          (store_entry f fdata src dest f.key c)
  store-Holds f fdata src dest st c holds = store_by_key f fdata src dest st c holds f.key refl

  clear-Holds :
      (src dest : Address) (st : State h Address e) (c : Entries)
      → Holds st c
      → Holds (clear_dictionaries h Address e st src dest) (clear_entries src dest c)
  clear-Holds src dest st c holds g j src' dest' =
      entry-clear_dictionaries h Address e g j st src dest src' dest' ∙ rw holds refl

  look-Holds :
      (f : FieldType) (fdata : FieldData) (src dest : Address) (st : State h Address e)
      (c : Entries)
      → Holds st c
      → Holds (get_dictionary_value h Address e m f fdata src dest st).2 c
  look-Holds f fdata src dest st c holds g j src' dest' =
      entry-get_dictionary_value h Address e m f g fdata src dest src' dest' st j
      ∙ holds g j src' dest'

  look-result :
      (f : FieldType) (fdata : FieldData) (src dest : Address) (st : State h Address e)
      (c : Entries)
      → Holds st c
      → ◌≡◌ {A = Bool × FieldData}
          (
            (get_dictionary_value h Address e m f fdata src dest st).0,
            (get_dictionary_value h Address e m f fdata src dest st).1,
          )
          (look_up m f fdata (λ key. c f key src dest) f.key)
  unfolding get_dictionary_value
  look-result f fdata src dest st c holds = elim (Option-cases f.key) [
    | inl no_key ↦ rw no_key refl
    | inr (k, key) ↦ rw (key, holds) refl
  ]

  run-Holds :
      (os : List (Operation Address)) (st : State h Address e) (c : Entries)
      → Holds st c
      → run os st ≡ run_entries os c
  unfolding run run_entries
  run-Holds [] st c holds = refl
  run-Holds (store f fdata src dest ∷ os) st c holds =
      run-Holds os _ _ (store-Holds f fdata src dest st c holds)
  run-Holds (look f fdata src dest ∷ os) st c holds =
      ap₂ (λ r rs. r ∷ rs) (look-result f fdata src dest st c holds)
        (run-Holds os _ _ (look-Holds f fdata src dest st c holds))
  run-Holds (clear src dest ∷ os) st c holds = run-Holds os _ _ (clear-Holds src dest st c holds)

  -- The dictionaries implement a map of entries: for every sequence of stores, look-ups and
  -- clearings from the start, through any fields and in any conversations, the look-ups give the
  -- results and the field data that they give on the map, where a store changes the entries that
  -- share the field's dictionary, key and conversation, and a clearing removes those of its
  -- conversation.
  pub run-run_entries : (os : List (Operation Address)) → run os none ≡ run_entries os no_entries
  run-run_entries os = run-Holds os none no_entries new-Holds
