-- ===== src/Dictionaries/Laws.antt =====
-- The dictionaries as one map: what a store changes, and what a look-up finds after it.
use Prim.Native.String.{String}
use mathlib.Core.Path.{ap₂}
use mathlib.Core.Option
use fast_wireshark.Base.{
  ◌≡◌, refl, ap, ◌∙◌, Bool, true, not, ◌&&◌, Option, some, Eq, nat_eq, string_eq, if◌then◌else◌,
  Bool-cases, inl, inr, ◌==◌, ==_iff,
}
use fast_wireshark.Field.{Machine}
use fast_wireshark.Position.{FieldData}
use fast_wireshark.Template.{FieldType}
use fast_wireshark.Dictionaries.{
  TypedValue, Dictionary, ConversationTables, State, get_conversation_table, put_conversation_table,
  get_dictionary, put_dictionary, get_dictionary_value, set_dictionary_value, store_at, store_value,
  old_value,
}
use fast_wireshark.Dictionaries.Table.{HashTable, name_eq, is_template}

-- Whether two fields use one dictionary of a conversation.
abbrev pub same_dictionary : FieldType → FieldType → Bool
same_dictionary f g =
    if is_template f.dictionary
    then is_template g.dictionary && f.tid == g.tid
    else not (is_template g.dictionary) && name_eq.beq f.dictionary g.dictionary

-- `get_dictionary` and `put_dictionary` on the tables of one conversation.
module _ (h : HashTable) where
  abbrev pub pick : FieldType → ConversationTables h → Dictionary h
  pick g tables =
      Option.get_or
        (if is_template g.dictionary
          then h.lookup nat_eq tables.templates g.tid
          else h.lookup name_eq tables.normal g.dictionary)
        (h.new String TypedValue)

  abbrev place : FieldType → ConversationTables h → Dictionary h → ConversationTables h
  place f tables d =
      if is_template f.dictionary
      then record tables { templates = h.insert nat_eq tables.templates f.tid d }
      else record tables { normal = h.insert name_eq tables.normal f.dictionary d }

  pick-place :
      (f g : FieldType) (tables : ConversationTables h) (d : Dictionary h)
      → pick g (place f tables d) ≡ (if same_dictionary f g then d else pick g tables)
  pick-place f g tables d = elim (Bool-cases (is_template f.dictionary)) [
    | inl a ↦ elim (Bool-cases (is_template g.dictionary)) [
      | inl b ↦ elim (Bool-cases (f.tid == g.tid)) [
        | inl c ↦ rw (a, b, h.lookup-insert, c)
        | inr c ↦ rw (a, b, h.lookup-insert, c)
      ]
      | inr b ↦ rw (a, b)
    ]
    | inr a ↦ elim (Bool-cases (is_template g.dictionary)) [
      | inl b ↦ rw (a, b)
      | inr b ↦ elim (Bool-cases (name_eq.beq f.dictionary g.dictionary)) [
        | inl c ↦ rw (a, b, h.lookup-insert, c)
        | inr c ↦ rw (a, b, h.lookup-insert, c)
      ]
    ]
  ]

module _ (h : HashTable) (Address : Type 0) (e : Eq Address) where
  pub get-put_conversation_table :
      (st : State h Address e) (src dest src' dest' : Address) (t : ConversationTables h)
      → get_conversation_table h Address e
          (put_conversation_table h Address e st src dest t)
          src'
          dest'
        ≡ (if e.beq src src' && e.beq dest dest'
            then t
            else get_conversation_table h Address e st src' dest')
  unfolding get_conversation_table put_conversation_table
  get-put_conversation_table st src dest src' dest' t = elim (Bool-cases (e.beq src src')) [
    | inl s ↦
        let q = (e.beq_iff src src').0 s in
        elim (Bool-cases (e.beq dest dest')) [
          | inl d ↦ rw (h.lookup-insert, s, h.lookup-insert, d)
          | inr d ↦ rw (h.lookup-insert, s, h.lookup-insert, d) (rw q refl)
        ]
    | inr s ↦ rw (h.lookup-insert, s)
  ]

  -- A dictionary that is put in place is found by the fields that use it, and all others are
  -- found as they were.
  get-put_dictionary :
      (f g : FieldType) (st : State h Address e) (src dest src' dest' : Address) (d : Dictionary h)
      → get_dictionary h Address e g (put_dictionary h Address e f st src dest d) src' dest' ≡ (
          if (e.beq src src' && e.beq dest dest') && same_dictionary f g
          then d
          else get_dictionary h Address e g st src' dest')
  unfolding get_dictionary put_dictionary
  get-put_dictionary f g st src dest src' dest' d =
      rw (get-put_conversation_table st src dest src' dest') (elim (Bool-cases (e.beq src src')) [
        | inr s ↦ rw s
        | inl s ↦ elim (Bool-cases (e.beq dest dest')) [
          | inr t ↦ rw (s, t)
          | inl t ↦
              rw (s, t, (e.beq_iff src src').0 s, (e.beq_iff dest dest').0 t) (pick-place h f g _ d)
        ]
      ])

  -- The entry of a key in the field's dictionary.
  abbrev pub entry : FieldType → String → State h Address e → Address → Address → Option TypedValue
  entry f k st src dest = h.lookup string_eq (get_dictionary h Address e f st src dest) k

  -- Whether two fields with these keys, in these conversations, share an entry.
  abbrev pub same_entry :
      FieldType → FieldType → Address → Address → Address → Address → String → String → Bool
  same_entry f g src dest src' dest' k j =
      ((e.beq src src' && e.beq dest dest') && same_dictionary f g) && string_eq.beq k j

  -- Fields that share a dictionary get one.
  same_dictionary-get_dictionary :
      (f g : FieldType) (st : State h Address e) (src dest : Address)
      → same_dictionary f g ≡ true
      → get_dictionary h Address e f st src dest ≡ get_dictionary h Address e g st src dest
  unfolding get_dictionary
  same_dictionary-get_dictionary f g st src dest same =
      elim (Bool-cases (is_template f.dictionary)) [
        | inl a ↦ elim (Bool-cases (is_template g.dictionary)) [
          | inl b ↦ let q = (==_iff f.tid g.tid).0 (rw (a, b) at same) in rw (a, b, q)
          | inr b ↦ cc (rw (a, b) at same)
        ]
        | inr a ↦ elim (Bool-cases (is_template g.dictionary)) [
          | inl b ↦ cc (rw (a, b) at same)
          | inr b ↦
              let q = (name_eq.beq_iff f.dictionary g.dictionary).0 (rw (a, b) at same) in
              rw (a, b, q)
        ]
      ]

  same_place-get_dictionary :
      (f g : FieldType) (st : State h Address e) (src dest src' dest' : Address)
      → e.beq src src' ≡ true
      → e.beq dest dest' ≡ true
      → same_dictionary f g ≡ true
      → get_dictionary h Address e f st src dest ≡ get_dictionary h Address e g st src' dest'
  same_place-get_dictionary f g st src dest src' dest' s t u =
      same_dictionary-get_dictionary f g st src dest u
      ∙ ap₂ (get_dictionary h Address e g st) ((e.beq_iff src src').0 s)
          ((e.beq_iff dest dest').0 t)

  set_by_key :
      (m : Machine) (f : FieldType) (fdata : FieldData) (src dest : Address)
      (st : State h Address e) (k : String)
      → f.key ≡ some k
      → set_dictionary_value h Address e m f fdata src dest st
        ≡ put_dictionary h Address e f st src dest (
            h.insert string_eq
              (get_dictionary h Address e f st src dest)
              k
              (store_value m f fdata (old_value m f (entry f k st src dest))))
  unfolding set_dictionary_value
  set_by_key m f fdata src dest st k fk = ap (store_at h Address e m f fdata src dest st) fk

  -- After a store through a field with a key every entry is as it was, but for the one of that
  -- field: it has the field's type, and the value stored, or is marked empty.
  pub entry-set_dictionary_value :
      (m : Machine) (f g : FieldType) (fdata : FieldData) (src dest src' dest' : Address)
      (st : State h Address e) (k j : String)
      → f.key ≡ some k
      → entry g j (set_dictionary_value h Address e m f fdata src dest st) src' dest' ≡ (
          if same_entry f g src dest src' dest' k j
          then some (store_value m f fdata (old_value m f (entry f k st src dest)))
          else entry g j st src' dest')
  entry-set_dictionary_value m f g fdata src dest src' dest' st k j fk =
      let d =
        h.insert string_eq (get_dictionary h Address e f st src dest) k
          (store_value m f fdata (old_value m f (entry f k st src dest))) in
      ap (λ t. entry g j t src' dest') (set_by_key m f fdata src dest st k fk)
      ∙ ap (λ t. h.lookup string_eq t j) (get-put_dictionary f g st src dest src' dest' d)
      ∙ elim (Bool-cases (e.beq src src')) [
        | inr s ↦ rw s
        | inl s ↦ elim (Bool-cases (e.beq dest dest')) [
          | inr t ↦ rw (s, t)
          | inl t ↦ elim (Bool-cases (same_dictionary f g)) [
            | inr u ↦ rw (s, t, u)
            | inl u ↦
                let same = same_place-get_dictionary f g st src dest src' dest' s t u in
                let v = some (store_value m f fdata (old_value m f (entry f k st src dest))) in
                rw (s, t, u, h.lookup-insert)
                  (ap (λ t. if string_eq.beq k j then v else h.lookup string_eq t j) same)
          ]
        ]
      ]

  -- A look-up leaves every entry of every dictionary as it was, though it makes tables that are
  -- missing.
  pub entry-get_dictionary_value :
      (m : Machine) (f g : FieldType) (fdata : FieldData) (src dest src' dest' : Address)
      (st : State h Address e) (j : String)
      → entry g j (get_dictionary_value h Address e m f fdata src dest st).2 src' dest'
        ≡ entry g j st src' dest'
  unfolding get_dictionary_value
  entry-get_dictionary_value m f g fdata src dest src' dest' st j =
      let d = get_dictionary h Address e f st src dest in
      ap (λ t. h.lookup string_eq t j) (get-put_dictionary f g st src dest src' dest' d)
      ∙ elim (Bool-cases (e.beq src src')) [
        | inr s ↦ rw s
        | inl s ↦ elim (Bool-cases (e.beq dest dest')) [
          | inr t ↦ rw (s, t)
          | inl t ↦ elim (Bool-cases (same_dictionary f g)) [
            | inr u ↦ rw (s, t, u)
            | inl u ↦
                let same = same_place-get_dictionary f g st src dest src' dest' s t u in
                rw (s, t, u) (ap (λ t. h.lookup string_eq t j) same)
          ]
        ]
      ]
