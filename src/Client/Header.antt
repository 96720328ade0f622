-- ===== src/Client/Header.antt =====
-- The head of a message that `encode_fast` writes, as the dissector reads it.
use mathlib.Core.Path.{subst}
use fast_wireshark.Base.{
  ℕ, ◌+◌, ◌-◌, ◌*◌, ◌%◌, ◌^◌, ◌≤◌, ◌<◌, ◌≡◌, refl, sym, ap, ◌∙◌, Bool, true, false, not, List, [],
  ◌∷◌, ◌++◌, map, length, get_or, drop, replicate, some, ◌==◌, arith,
}
use fast_wireshark.Decode.{
  Bytes, count_stop_bit_encoded, number_decoded_bits, decode_pmap, decode_uint32,
}
use fast_wireshark.Decode.Stop.{IsBytes}
use fast_wireshark.Decode.Pmap.{is_set}
use fast_wireshark.Decode.Text.{Reads}
use fast_wireshark.Encode.{encode_pmap}
use fast_wireshark.Encode.Pmap.{decode_pmap-encode_pmap}
use fast_wireshark.Field.{Machine, u32}
use fast_wireshark.Position.{
  DissectPosition, FieldData, bytes_at, shift_bytes, find_field, basic_dissect_pmap,
  basic_dissect_uint32,
}
use fast_wireshark.Position.Window.{InPacket}
use fast_wireshark.Position.Overflow.{check_low, low_half}

-- A list of bytes is read part by part, and through a pointer to its start.
pub Reads-suffix :
    (bytes : Bytes) (xs ys : List ℕ) (i : ℕ)
    → Reads bytes i (xs ++ ys)
    → Reads bytes (i + length xs) ys
Reads-suffix bytes [] ys i r = subst (λ j. Reads bytes j ys) (omega arith) r
Reads-suffix bytes (x ∷ xs) ys i (e, r) =
    subst (λ j. Reads bytes j ys) (omega arith) (Reads-suffix bytes xs ys (i + 1) r)

pub Reads-pointer :
    (bytes : Bytes) (a i j : ℕ) (xs : List ℕ)
    → j ≡ a + i
    → Reads bytes j xs
    → Reads (λ k. bytes (a + k)) i xs
Reads-pointer bytes a i j [] e r = tt
Reads-pointer bytes a i j (x ∷ xs) e (h, r) =
    (rw (← e) h, Reads-pointer bytes a (i + 1) (j + 1) xs (omega arith) r)

-- The position behind `k` bytes of a packet.
pub record Behind (p : DissectPosition) (k : ℕ) (q : DissectPosition) : Type 0 where
  pub bytes : q.bytes ≡ p.bytes + k
  pub nbytes : q.nbytes + k ≡ p.nbytes
  pub offset : q.offset ≡ p.offset + k

-- The presence map is read as it was written.
pub record PmapRead (p : DissectPosition) (pmap : List ℕ) (q : DissectPosition) : Type 0 where
  pub behind : Behind p (length (encode_pmap pmap [])) q
  pub bits : List ℕ
  pub pad : ℕ
  pub has_bits : q.pmap ≡ some bits
  pub len : q.pmap_len ≡ 7 * length (encode_pmap pmap [])
  pub idx : q.pmap_idx ≡ 0
  pub entries : map is_set bits ≡ map is_set pmap ++ replicate pad false

module _ (m : Machine) (byte : IsBytes m.mem) (p : DissectPosition) {end total : ℕ}
    (inside : InPacket end total p) where
  -- The position that results where the map has `k` bytes.
  pmap_position :
      (k : ℕ)
      → count_stop_bit_encoded p.nbytes (bytes_at m p) ≡ k
      → 0 < k
      → k ≤ p.nbytes
      → (q : DissectPosition) × (basic_dissect_pmap m p ≡ q)
        × Behind p k q
        × (q.pmap ≡ some (decode_pmap k (bytes_at m p)))
        × (q.pmap_len ≡ 7 * k)
        × (q.pmap_idx ≡ 0)
  unfolding basic_dissect_pmap find_field shift_bytes number_decoded_bits
  pmap_position k count pos fits =
      let found : (k * 7 % 2 ^ 32 == 0) ≡ false = ground (arith, inside) in
      (
        record {
          offjmp = 0;
          offset = (p.offset + k) % 2 ^ 32;
          nbytes = (p.nbytes + 2 ^ 32 - k) % 2 ^ 32;
          bytes = p.bytes + k;
          pmap_len = k * 7 % 2 ^ 32;
          pmap_idx = 0;
          pmap = some (decode_pmap k (bytes_at m p));
        },
        rw (count, found) refl,
        omega (arith, inside),
        refl,
        omega (arith, inside),
        refl,
      )

  pub basic_dissect_pmap-PmapRead :
      (pmap : List ℕ)
      → Reads m.mem p.bytes (encode_pmap pmap [])
      → 0 < length (encode_pmap pmap [])
      → length (encode_pmap pmap []) ≤ p.nbytes
      → PmapRead p pmap (basic_dissect_pmap m p)
  basic_dissect_pmap-PmapRead pmap r pos fits =
      let k = length (encode_pmap pmap []) in
      let here = Reads-pointer m.mem p.bytes 0 p.bytes (encode_pmap pmap []) (omega arith) r in
      let (count, (pad, most, content)) =
        decode_pmap-encode_pmap pmap (bytes_at m p) p.nbytes (λ i. byte (p.bytes + i)) here fits in
      let (q, e, behind, bits, len, idx) = pmap_position k count pos fits in
      rw e (record {
        behind = behind;
        bits = decode_pmap k (bytes_at m p);
        pad = pad;
        has_bits = bits;
        len = len;
        idx = idx;
        entries = content;
      })

  -- A number read where its field has `k` bytes.
  pub uint32_position :
      (fdata : FieldData) (k x : ℕ)
      → count_stop_bit_encoded p.nbytes (bytes_at m p) ≡ k
      → decode_uint32 k (bytes_at m p) ≡ x
      → x < 2 ^ 32
      → k ≤ p.nbytes
      → (u32 (basic_dissect_uint32 m p fdata).1.value ≡ x)
        × Behind p k (basic_dissect_uint32 m p fdata).0
        × ((basic_dissect_uint32 m p fdata).0.pmap ≡ p.pmap)
        × ((basic_dissect_uint32 m p fdata).0.pmap_idx ≡ p.pmap_idx)
        × ((basic_dissect_uint32 m p fdata).0.pmap_len ≡ p.pmap_len)
  unfolding basic_dissect_uint32 find_field shift_bytes
  uint32_position fdata k x count value small fits =
      rw (count, value)
        (
          check_low _ _ ∙ low_half (fdata.value.word) x small,
          omega (arith, inside),
          refl,
          refl,
          refl,
        )

pub Behind-InPacket :
    {end total : ℕ} (p q : DissectPosition) (k : ℕ)
    → Behind p k q
    → InPacket end total p
    → InPacket end total q
Behind-InPacket p q k b inside = omega (arith, b, inside)

not-not : (b : Bool) → not (not b) ≡ b
not-not true = refl
not-not false = refl

abbrev first : List Bool → Bool
first [] = true
first (x ∷ xs) = not x

-- The first entry of a map that is read, and those behind it.
pub first_entry :
    (bits : List ℕ) (b : ℕ) (rest : List Bool)
    → map is_set bits ≡ is_set b ∷ rest
    → ((get_or bits 0 0 == 0) ≡ (b == 0)) × (map is_set (drop 1 bits) ≡ rest)
first_entry [] b rest e = cc
first_entry (x ∷ xs) b rest e =
    (sym (not-not (x == 0)) ∙ ap first e ∙ not-not (b == 0), ap (drop 1) e)
