-- ===== src/Client/Identifier.antt =====
-- The identifier in front of a message that the client encodes, as the dissector reads it.
use mathlib.Core.Path.{subst}
use fast_wireshark.Base.{
  ℕ, ◌+◌, ◌%◌, ◌^◌, ◌≤◌, ◌<◌, ◌≡◌, refl, sym, ap, ◌∙◌, false, List, [], ◌∷◌, ◌++◌, map, length,
  length-append, get_or, drop, replicate, All, Option, some, leb, ◌==◌, if◌then◌else◌, arith,
}
use fast_wireshark.Decode.Stop.{IsBytes}
use fast_wireshark.Decode.Pmap.{is_set}
use fast_wireshark.Decode.Text.{Reads}
use fast_wireshark.Encode.{encode_pmap, mark_last}
use fast_wireshark.Encode.Field.{IsGroup, value_from, Reads-prefix, length-mark_last}
use fast_wireshark.Encode.PmapLoop.{packed, packed-cons, encode_pmap-packed}
use native.Mathlib.Nat.{mod-eq_of_lt}
use fast_wireshark.Encode.Unsigned.{read_back}
use fast_wireshark.Field.{Machine, u32}
use fast_wireshark.Position.{
  DissectPosition, FieldData, bytes_at, basic_dissect_pmap, basic_dissect_uint32,
  dissect_shift_pmap,
}
use fast_wireshark.Position.Window.{InPacket}
use fast_wireshark.Template.{TNode}
use fast_wireshark.Dissect.Node.{Store}
use fast_wireshark.Dissect.Message.{read_template_id}
use fast_wireshark.Client.Header.{
  Reads-suffix, Reads-pointer, Behind, basic_dissect_pmap-PmapRead, uint32_position,
  Behind-InPacket, first_entry,
}

-- The position at which the fields `msg` of a packet start: its bytes are theirs, and the entries of
-- the presence map that come next are those of the message, with free places behind.
pub record AtFields (m : Machine) (p : DissectPosition) (rest msg packet : List ℕ)
    (q : DissectPosition) : Type 0 where
  pub behind : q.bytes + length msg ≡ p.bytes + length packet
  pub left : q.nbytes + length packet ≡ p.nbytes + length msg
  pub fields : Reads m.mem q.bytes msg
  pub bits : List ℕ
  pub pad : ℕ
  pub has_bits : q.pmap ≡ some bits
  pub next : map is_set (drop q.pmap_idx bits) ≡ map is_set rest ++ replicate pad false

some_byte : (pmap : List ℕ) → 0 < length (encode_pmap pmap [])
some_byte pmap =
    let (x, xs, e) = packed-cons 7 0 pmap in
    omega (
      arith,
      ap length (encode_pmap-packed pmap []),
      length-mark_last (packed 7 0 pmap),
      ap length e,
    )

shift_first :
    (q : DissectPosition) (bits : List ℕ)
    → q.pmap ≡ some bits
    → q.pmap_idx ≡ 0
    → 0 < q.pmap_len
    → dissect_shift_pmap q ≡ (get_or bits 0 0, record q { pmap_idx = q.pmap_idx + 1 })
unfolding dissect_shift_pmap
shift_first q bits has idx len =
    let in_range : leb q.pmap_len q.pmap_idx ≡ false = ground arith in rw (in_range, has, idx) refl

module _ (m : Machine) (byte : IsBytes m.mem) (junk : FieldData) {S : Type 0} (st : Store S)
    (templates : ℕ → Option TNode) where
  -- What `read_template_id` makes of the first bit.
  abbrev by_bit : ℕ → FieldData → ℕ × DissectPosition → ℕ × DissectPosition × FieldData
  by_bit old fdata (bit, q) =
      let (q', fdata') = basic_dissect_uint32 m q fdata in
      if bit == 0 then (old, q, fdata) else (u32 fdata'.value, q', fdata')

  read_template_id-by_bit :
      (old : ℕ) (q : DissectPosition) (fdata : FieldData)
      → read_template_id m junk st templates old q fdata ≡ by_bit old fdata (dissect_shift_pmap q)
  unfolding read_template_id
  read_template_id-by_bit old q fdata = refl

  module _ (p : DissectPosition) {end total : ℕ} (inside : InPacket end total p) (old : ℕ)
      (fdata : FieldData) (rest msg packet : List ℕ) (r : Reads m.mem p.bytes packet)
      (fits : length packet ≤ p.nbytes) where
    -- What `read_template_id` gives behind the presence map.
    abbrev pub IdRead : ℕ → Type 0
    IdRead tid =
        (q : DissectPosition) × (fdata' : FieldData) × (read_template_id m junk st templates old
            (basic_dissect_pmap m p) fdata
          ≡ (tid, q, fdata'))
        × ((bits : List ℕ) × ((basic_dissect_pmap m p).pmap ≡ some bits))
        × AtFields m p rest msg packet q

    pub with_id :
        (e : List ℕ) (tid : ℕ)
        → All IsGroup e
        → value_from 0 e ≡ tid
        → tid < 2 ^ 32
        → 0 < length e
        → (encode_pmap (1 ∷ rest) [] ++ mark_last e) ++ msg ≡ packet
        → IdRead tid
    with_id e tid is_groups number small some_groups parts =
        let head = encode_pmap (1 ∷ rest) [] in
        let q = basic_dissect_pmap m p in
        let whole = subst (Reads m.mem p.bytes) (sym parts) r in
        let both = Reads-prefix m.mem (head ++ mark_last e) msg p.bytes whole in
        let len : length head + length (mark_last e) + length msg ≡ length packet = omega (
          arith,
          ap length parts,
          length-append (head ++ mark_last e) msg,
          length-append head (mark_last e),
        ) in
        let pr =
          basic_dissect_pmap-PmapRead m byte p inside (1 ∷ rest)
            (Reads-prefix m.mem head (mark_last e) p.bytes both) (some_byte (1 ∷ rest))
            (omega (arith, len)) in
        let (bit, tail) =
          first_entry pr.bits 1 (map is_set rest ++ replicate pr.pad false) pr.entries in
        let shift =
          shift_first q pr.bits pr.has_bits pr.idx (omega (arith, pr.len, some_byte (1 ∷ rest))) in
        let q1 : DissectPosition = record q { pmap_idx = q.pmap_idx + 1 } in
        let b1 : Behind p (length head) q1 = record {
          bytes = pr.behind.bytes;
          nbytes = pr.behind.nbytes;
          offset = pr.behind.offset;
        } in
        let number_here : Reads (bytes_at m q1) 0 (mark_last e) =
          Reads-pointer m.mem q1.bytes 0 (p.bytes + length head) (mark_last e) (omega (arith, b1))
            (Reads-suffix m.mem head (mark_last e) p.bytes both) in
        let room : length (mark_last e) ≤ q1.nbytes = omega (arith, b1, len) in
        let rb =
          read_back (bytes_at m q1) e q1.nbytes (λ i. byte (q1.bytes + i)) is_groups some_groups
            number_here room in
        let value = rb.2 ∙ ap (λ t. t % 2 ^ 32) number ∙ mod-eq_of_lt small in
        let (id, b2, pmap, idx, pmap_len) =
          uint32_position m byte q1 (Behind-InPacket p q1 (length head) b1 inside) fdata
            (length (mark_last e)) tid rb.0 value small room in
        let fdata' = (basic_dissect_uint32 m q1 fdata).1 in
        let q2 = (basic_dissect_uint32 m q1 fdata).0 in
        (
          q2,
          fdata',
          read_template_id-by_bit old q fdata
              ∙ ap (by_bit old fdata) shift
              ∙ ap (λ b. if b then (old, q1, fdata) else (u32 fdata'.value, q2, fdata')) bit
              ∙ ap (λ (t : ℕ). (t, q2, fdata')) id,
          (pr.bits, pr.has_bits),
          record {
            behind = omega (arith, b1, b2, len);
            left = omega (arith, b1, b2, len);
            fields =
                subst (λ a. Reads m.mem a msg)
                  (omega (arith, b1, b2, length-append head (mark_last e)))
                  (Reads-suffix m.mem (head ++ mark_last e) msg p.bytes whole);
            bits = pr.bits;
            pad = pr.pad;
            has_bits = pmap ∙ pr.has_bits;
            next = rw (idx, pr.idx) tail;
          },
        )

    pub no_id : encode_pmap (0 ∷ rest) [] ++ msg ≡ packet → IdRead old
    no_id parts =
        let head = encode_pmap (0 ∷ rest) [] in
        let q = basic_dissect_pmap m p in
        let whole = subst (Reads m.mem p.bytes) (sym parts) r in
        let len : length head + length msg ≡ length packet =
          omega (arith, ap length parts, length-append head msg) in
        let pr =
          basic_dissect_pmap-PmapRead m byte p inside (0 ∷ rest)
            (Reads-prefix m.mem head msg p.bytes whole) (some_byte (0 ∷ rest))
            (omega (arith, len)) in
        let (bit, tail) =
          first_entry pr.bits 0 (map is_set rest ++ replicate pr.pad false) pr.entries in
        let shift =
          shift_first q pr.bits pr.has_bits pr.idx (omega (arith, pr.len, some_byte (0 ∷ rest))) in
        let q1 : DissectPosition = record q { pmap_idx = q.pmap_idx + 1 } in
        (
          q1,
          fdata,
          read_template_id-by_bit old q fdata
              ∙ ap (by_bit old fdata) shift
              ∙ ap
                  (λ b. if b then (old, q1, fdata) else (
                    u32 (basic_dissect_uint32 m q1 fdata).1.value,
                    (basic_dissect_uint32 m q1 fdata).0,
                    (basic_dissect_uint32 m q1 fdata).1,
                  ))
                  bit,
          (pr.bits, pr.has_bits),
          record {
            behind = omega (arith, pr.behind, len);
            left = omega (arith, pr.behind, len);
            fields =
                subst (λ a. Reads m.mem a msg) (omega (arith, pr.behind))
                  (Reads-suffix m.mem head msg p.bytes whole);
            bits = pr.bits;
            pad = pr.pad;
            has_bits = pr.has_bits;
            next = rw (pr.idx) tail;
          },
        )
