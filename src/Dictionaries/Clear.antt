-- ===== src/Dictionaries/Clear.antt =====
-- `clear_dictionaries` empties every dictionary of one conversation.
use Prim.Native.String.{String}
use mathlib.Core.Option
use mathlib.Core.Path.{subst}
use fast_wireshark.Base.{
  ℕ, ◌≡◌, refl, ap, ◌∙◌, true, ◌&&◌, List, [], ◌∷◌, Option, none, some, Eq, nat_eq, string_eq,
  if◌then◌else◌, Bool-cases, Option-cases, inl, inr,
}
use fast_wireshark.Template.{FieldType}
use fast_wireshark.Dictionaries.{
  TypedValue, Dictionary, ConversationTables, State, get_conversation_table, get_dictionary,
  clear_at, clear_one, clear_loop, clear_dictionaries,
}
use fast_wireshark.Dictionaries.Table.{HashTable, has_key, name_eq, is_template}
use fast_wireshark.Dictionaries.Laws.{entry, get-put_conversation_table, pick}

module _ (h : HashTable) (Address : Type 0) (e : Eq Address) {K : Type 0} (ke : Eq K) where
  -- The dictionary at `x` has no entry.
  abbrev Cleared : K → h.Table K (Dictionary h) → Type 0
  Cleared x t =
      (j : String)
      → h.lookup string_eq (Option.get_or (h.lookup ke t x) (h.new String TypedValue)) j ≡ none

  clear_at-keeps :
      (k x : K) (t : h.Table K (Dictionary h)) (o : Option (Dictionary h))
      → Cleared x t
      → Cleared x (clear_at h Address e K ke k t o)
  clear_at-keeps k x t none c j = c j
  clear_at-keeps k x t (some d) c j = elim (Bool-cases (ke.beq k x)) [
    | inl b ↦ rw (h.lookup-insert, b, h.lookup-remove_all)
    | inr b ↦ rw (h.lookup-insert, b) (c j)
  ]

  clear_at-Cleared :
      (k : K) (t : h.Table K (Dictionary h)) (o : Option (Dictionary h))
      → h.lookup ke t k ≡ o
      → Cleared k (clear_at h Address e K ke k t o)
  clear_at-Cleared k t none q j = rw (q, h.lookup-new)
  clear_at-Cleared k t (some d) q j =
      let b = (ke.beq_iff k k).1 refl in rw (h.lookup-insert, b, h.lookup-remove_all)

  clear_one-Cleared :
      (k x : K) (t : h.Table K (Dictionary h))
      → ke.beq k x ≡ true
      → Cleared x (clear_one h Address e K ke k t)
  clear_one-Cleared k x t b =
      subst (λ y. Cleared y (clear_one h Address e K ke k t)) ((ke.beq_iff k x).0 b)
        (clear_at-Cleared k t (h.lookup ke t k) refl)

  clear_loop-keeps :
      (ks : List K) (x : K) (t : h.Table K (Dictionary h))
      → Cleared x t
      → Cleared x (clear_loop h Address e K ke ks t)
  unfolding clear_loop
  clear_loop-keeps [] x t c = c
  clear_loop-keeps (k ∷ ks) x t c =
      clear_loop-keeps ks x _ (clear_at-keeps k x t (h.lookup ke t k) c)

  clear_loop-Cleared :
      (ks : List K) (x : K) (t : h.Table K (Dictionary h))
      → has_key ke x ks ≡ true
      → Cleared x (clear_loop h Address e K ke ks t)
  unfolding clear_loop
  clear_loop-Cleared [] x t b = cc
  clear_loop-Cleared (k ∷ ks) x t b = elim (Bool-cases (ke.beq k x)) [
    | inl here ↦ clear_loop-keeps ks x _ (clear_one-Cleared k x t here)
    | inr there ↦ clear_loop-Cleared ks x _ (rw there at b)
  ]

  -- The keys that the table lists are enough.
  all_keys-Cleared :
      (x : K) (t : h.Table K (Dictionary h)) → Cleared x (clear_loop h Address e K ke (h.keys t) t)
  all_keys-Cleared x t = elim (Option-cases (h.lookup ke t x)) [
    | inl q ↦ clear_loop-keeps (h.keys t) x t (λ j. rw (q, h.lookup-new))
    | inr (d, q) ↦ clear_loop-Cleared (h.keys t) x t (h.listed K (Dictionary h) ke t x d q)
  ]

module _ (h : HashTable) (Address : Type 0) (e : Eq Address) where
  -- `clear_dictionaries` removes every entry of the conversation's dictionaries, by whatever
  -- field it is looked up, and leaves the entries of all other conversations as they were.
  pub entry-clear_dictionaries :
      (g : FieldType) (j : String) (st : State h Address e) (src dest src' dest' : Address)
      → entry h Address e g j (clear_dictionaries h Address e st src dest) src' dest'
        ≡ (if e.beq src src' && e.beq dest dest' then none else entry h Address e g j st src' dest')
  unfolding clear_dictionaries get_dictionary
  entry-clear_dictionaries g j st src dest src' dest' =
      let tables = get_conversation_table h Address e st src dest in
      let cleared : ConversationTables h = record {
        normal =
            clear_loop h Address e (Option String) name_eq (h.keys tables.normal) tables.normal;
        templates = clear_loop h Address e ℕ nat_eq (h.keys tables.templates) tables.templates;
      } in
      ap (λ t. h.lookup string_eq (pick h g t) j)
        (get-put_conversation_table h Address e st src dest src' dest' cleared)
      ∙ elim (Bool-cases (e.beq src src' && e.beq dest dest')) [
        | inr other ↦ rw other refl
        | inl same ↦ elim (Bool-cases (is_template g.dictionary)) [
          | inl t ↦ rw (same, t) (all_keys-Cleared h Address e nat_eq g.tid tables.templates j)
          | inr t ↦ rw (same, t) (all_keys-Cleared h Address e name_eq g.dictionary tables.normal j)
        ]
      ]
