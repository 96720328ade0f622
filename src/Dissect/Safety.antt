-- ===== src/Dissect/Safety.antt =====
-- The functions of dissect.c that handle one field, but for byte vectors, stay in the packet.
use fast_wireshark.Base.{
  ℕ, ◌≡◌, refl, Bool, true, false, Option, none, some, if◌then◌else◌, Bool-cases, inl, inr, arith,
}
use fast_wireshark.Decode.Stop.{IsBytes}
use fast_wireshark.Field.{Machine, FieldOperatorIdentifier, FieldValue}
use fast_wireshark.Position.{
  DissectPosition, FieldData, shift_bytes, find_field, basic_dissect_int32, basic_dissect_int64,
  basic_dissect_uint32, basic_dissect_uint64,
}
use fast_wireshark.Template.{FieldType, TNode, TNodes, node, nil, cons}
use fast_wireshark.Dissect.Node.{Store, Field}
use fast_wireshark.Dissect.Operators.{
  dissect_int_op, int_op_delta, int_op_increment, int_op_by, read_delta, dissect_copy,
  dissect_default,
}
use fast_wireshark.Dissect.Optional.{
  Checks, look_at_pmap, look_for_null, store_empty, take_bit, optional_step, optional_checks,
  dissect_optional, optional_child,
}
use fast_wireshark.Dissect.Numbers.{
  dissect_int, dissect_uint32, dissect_uint64, dissect_int32, dissect_int64, dissect_decimal,
  decimal_delta, decimal_parts, any_value, positive_i32, positive_i64, add_u32, add_u64,
}
use fast_wireshark.Dissect.Text.{dissect_ascii_string, dissect_ascii_delta}
use fast_wireshark.Dissect.Moves.{
  Moves, Good, Moves-trans, Moves-Good, find_shift-Moves, shift_pmap-Moves, shift_null-Moves,
}

-- A function on fields that moves the position in the packet wherever it starts in it.
abbrev pub IsSafe : ℕ → ℕ → (S : Type 0) → (Field S → Field S) → Type 0
IsSafe end total S f =
    (c : Field S) → Good end total c.position → Moves end total c.position (f c).position

-- The same for a part that may be missing.
abbrev pub AllSafe : ℕ → ℕ → (S : Type 0) → Option (Field S → Field S) → Type 0
AllSafe end total S none = Unit {0}
AllSafe end total S (some f) = IsSafe end total S f

module _ {end total : ℕ} where
  -- A branch: both sides move.
  pub branch {ℓ} :
      {A : Type ℓ} (pos : A → DissectPosition) (p : DissectPosition) (b : Bool) (x y : A)
      → Moves end total p (pos x)
      → Moves end total p (pos y)
      → Moves end total p (pos (if b then x else y))
  branch pos p true x y h k = h
  branch pos p false x y h k = k

  module _ (m : Machine) (byte : IsBytes m.mem) (junk : FieldData) {S : Type 0} (st : Store S) where
    read_delta-Moves :
        (ftype : FieldType) (fdata : FieldData) (p : DissectPosition) (s : S)
        → Good end total p
        → Moves end total p (read_delta m junk st ftype fdata p s).position
    unfolding read_delta
    read_delta-Moves ftype fdata p s g = find_shift-Moves m p byte g

    op_delta-Moves :
        (delta : ℕ) (ftype : FieldType) (fdata : FieldData) (p : DissectPosition) (s : S)
        → Good end total p
        → Moves end total p (int_op_delta m junk st delta ftype fdata p s).position
    unfolding int_op_delta
    op_delta-Moves delta ftype fdata p s g = ground (arith, find_shift-Moves m p byte g, g)

    op_increment-Moves :
        (delta : ℕ) (ftype : FieldType) (fdata : FieldData) (p : DissectPosition) (s : S)
        → Good end total p
        → Moves end total p (int_op_increment m junk st delta ftype fdata p s).position
    unfolding int_op_increment
    op_increment-Moves delta ftype fdata p s g = ground (arith, shift_pmap-Moves p g)

    op_by-Moves :
        (op : FieldOperatorIdentifier) (delta : ℕ) (ftype : FieldType) (fdata : FieldData)
        (p : DissectPosition) (s : S)
        → Good end total p
        → Moves end total p (int_op_by m junk st op delta ftype fdata p s).position
    unfolding int_op_by
    op_by-Moves FieldOperatorIdentifier.delta delta ftype fdata p s g =
        op_delta-Moves delta ftype fdata p s g
    op_by-Moves FieldOperatorIdentifier.increment delta ftype fdata p s g =
        op_increment-Moves delta ftype fdata p s g
    op_by-Moves _ delta ftype fdata p s g = g

    int_op-Moves :
        (delta : ℕ) (ftype : FieldType) (fdata : FieldData) (p : DissectPosition) (s : S)
        → Good end total p
        → Moves end total p (dissect_int_op m junk st delta ftype fdata p s).position
    unfolding dissect_int_op
    int_op-Moves delta ftype fdata p s g = op_by-Moves ftype.op delta ftype fdata p s g

    -- A number whose reader takes one field.
    dissect_int-IsSafe :
        (read : DissectPosition → FieldData → DissectPosition × FieldData)
        (lower : FieldValue → Bool) (add : FieldValue → ℕ → FieldValue) (ftype : FieldType)
        → ((p : DissectPosition) (d : FieldData) → (read p d).0 ≡ shift_bytes (find_field m p))
        → IsSafe end total S (dissect_int m junk st read lower add ftype)
    unfolding dissect_int
    dissect_int-IsSafe read lower add ftype by c g =
        let r = dissect_int_op m junk st 0 ftype c.fdata c.position c.store in
        let h = int_op-Moves 0 ftype c.fdata c.position c.store g in
        elim (Bool-cases r.dissect_it) [
          | inl a ↦ rw (a, by) (Moves-trans h (find_shift-Moves m r.position byte (Moves-Good h)))
          | inr a ↦ rw a h
        ]

    pub numbers-IsSafe :
        (ftype : FieldType)
        → IsSafe end total S (dissect_uint32 m junk st ftype)
          × IsSafe end total S (dissect_uint64 m junk st ftype)
          × IsSafe end total S (dissect_int32 m junk st ftype)
          × IsSafe end total S (dissect_int64 m junk st ftype)
    unfolding dissect_uint32 dissect_uint64 dissect_int32 dissect_int64
    numbers-IsSafe ftype = (
      dissect_int-IsSafe (basic_dissect_uint32 m) any_value add_u32 ftype (λ p d. refl),
      dissect_int-IsSafe (basic_dissect_uint64 m) any_value add_u64 ftype (λ p d. refl),
      dissect_int-IsSafe (basic_dissect_int32 m) positive_i32 add_u32 ftype (λ p d. refl),
      dissect_int-IsSafe (basic_dissect_int64 m) positive_i64 add_u64 ftype (λ p d. refl),
    )

    pub copy-Moves :
        (ftype : FieldType) (c : Field S)
        → Good end total c.position
        → Moves end total c.position (dissect_copy m junk st ftype c).1.position
    unfolding dissect_copy
    copy-Moves ftype c g = ground (arith, shift_pmap-Moves c.position g)

    pub default-Moves :
        (ftype : FieldType) (c : Field S)
        → Good end total c.position
        → Moves end total c.position (dissect_default m junk st ftype c).1.position
    unfolding dissect_default
    default-Moves ftype c g = ground (arith, shift_pmap-Moves c.position g)

    look_at_pmap-IsSafe : (k : Checks) → IsSafe end total S (look_at_pmap m st k)
    unfolding look_at_pmap
    look_at_pmap-IsSafe k c g = ground (arith, g)

    look_for_null-IsSafe : (k : Checks) → IsSafe end total S (look_for_null m st k)
    unfolding look_for_null
    look_for_null-IsSafe k c g = ground (arith, g, shift_null-Moves m c.position g)

    store_empty-IsSafe :
        (k : Checks) (ftype : FieldType) → IsSafe end total S (store_empty m st k ftype)
    unfolding store_empty
    store_empty-IsSafe k ftype c g = ground (arith, g)

    take_bit-IsSafe : (k : Checks) → IsSafe end total S (take_bit m st k)
    unfolding take_bit
    take_bit-IsSafe k c g = ground (arith, g, shift_pmap-Moves c.position g)

    optional_step-IsSafe : (ftype : FieldType) → IsSafe end total S (optional_step m st ftype)
    unfolding optional_step
    optional_step-IsSafe ftype c g =
        let k = optional_checks ftype.op ftype.type in
        let c1 = look_at_pmap m st k c in
        let c2 = look_for_null m st k c1 in
        let c3 = store_empty m st k ftype c2 in
        let h1 = look_at_pmap-IsSafe k c g in
        let h2 = Moves-trans h1 (look_for_null-IsSafe k c1 (Moves-Good h1)) in
        let h3 = Moves-trans h2 (store_empty-IsSafe k ftype c2 (Moves-Good h2)) in
        Moves-trans h3 (take_bit-IsSafe k c3 (Moves-Good h3))

    mutual
      unfolding dissect_optional

      optional_at : (t : TNode) → IsSafe end total S (dissect_optional m st t)
      optional_at (node ftype children) c g =
          ground (arith, g, optional_below children c g, optional_step-IsSafe ftype c g)

      optional_below : (ts : TNodes) → IsSafe end total S (optional_child m st ts)
      optional_below nil c g = g
      optional_below (cons t ts) c g = optional_at t c g

    -- Whether an optional field has a value is found out inside the packet.
    pub dissect_optional-IsSafe : (t : TNode) → IsSafe end total S (dissect_optional m st t)
    dissect_optional-IsSafe t = optional_at t

    ascii_delta-Moves :
        (ftype : FieldType) (c : Field S)
        → Good end total c.position
        → Moves end total c.position (dissect_ascii_delta m junk st ftype c).1.position
    unfolding dissect_ascii_delta
    ascii_delta-Moves ftype c g =
        let p1 = shift_bytes (find_field m c.position) in
        let h1 = find_shift-Moves m c.position byte g in
        let h2 = Moves-trans h1 (find_shift-Moves m p1 byte (Moves-Good h1)) in
        ground (arith, h1, h2)

    pub ascii_string-IsSafe :
        (ftype : FieldType) → IsSafe end total S (dissect_ascii_string m junk st ftype)
    unfolding dissect_ascii_string
    ascii_string-IsSafe ftype c g =
        let h = ascii_delta-Moves ftype c g in
        let c' = (dissect_ascii_delta m junk st ftype c).1 in
        let again = Moves-trans h (find_shift-Moves m c'.position byte (Moves-Good h)) in
        ground (arith, g, h, again, find_shift-Moves m c.position byte g)

    decimal_delta-Moves :
        (ftype : FieldType) (c : Field S)
        → Good end total c.position
        → Moves end total c.position (decimal_delta m junk st ftype c).2.position
    unfolding decimal_delta
    decimal_delta-Moves ftype c g =
        let r = dissect_int_op m junk st 0 ftype junk c.position c.store in
        let h = int_op-Moves 0 ftype junk c.position c.store g in
        Moves-trans h (int_op-Moves r.delta ftype junk r.position r.store (Moves-Good h))

    decimal_parts-Moves :
        (f g : Field S → Field S) (c : Field S)
        → IsSafe end total S f
        → IsSafe end total S g
        → Good end total c.position
        → Moves end total c.position (decimal_parts m junk st f g c).2.position
    unfolding decimal_parts
    decimal_parts-Moves f g c hf hg good =
        let h = hf c good in Moves-trans h (hg (f c) (Moves-Good h))

    -- A decimal, where its two parts are safe.
    pub decimal-IsSafe :
        (first second : Option (Field S → Field S)) (ftype : FieldType)
        → AllSafe end total S first
        → AllSafe end total S second
        → IsSafe end total S (dissect_decimal m junk st first second ftype)
    unfolding dissect_decimal
    decimal-IsSafe none second ftype a b c g = g
    decimal-IsSafe (some x) none ftype a b c g = g
    decimal-IsSafe (some x) (some y) ftype a b c g =
        ground (arith, decimal_delta-Moves ftype c g, decimal_parts-Moves x y c a b g)
