-- ===== src/Encode/Pmap.antt =====
-- Reading back the presence map that `encode_pmap` writes.
use mathlib.Core.List.{append_assoc, append-nil}
use mathlib.Core.Path.{ap₂, subst}
use fast_wireshark.Base.{
  ℕ, zero, suc, ◌+◌, ◌*◌, ◌/◌, ◌%◌, ◌^◌, ◌≤◌, ◌≡◌, refl, sym, ap, ◌∙◌, bit_or, Bool, true, false,
  List, [], ◌∷◌, ◌++◌, map, length, replicate, All, ◌==◌, Bool-cases, inl, inr, arith,
}
use fast_wireshark.Base.Bits.{true_below, true_below_lem}
use fast_wireshark.Decode.{Bytes, count_stop_bit_encoded, decode_pmap}
use fast_wireshark.Decode.Stop.{IsBytes}
use fast_wireshark.Decode.Pmap.{is_set, low_bits, bits_of, same, same_sound, decode_pmap-bits_of}
use fast_wireshark.Decode.Text.{Reads}
use fast_wireshark.Encode.{mark_last, encode_pmap}
use fast_wireshark.Encode.Field.{IsGroup, length-mark_last, mark_last-FieldOf}
use fast_wireshark.Encode.PmapLoop.{
  bit_at, packed, packed-cons, encode_pmap-packed, packed-IsGroup, double,
}

-- The low bits of all the bytes.
abbrev pub all_bits : List ℕ → List Bool
all_bits [] = []
all_bits (b ∷ bs) = low_bits b ++ all_bits bs

-- The `j` low bits of a number, highest first.
abbrev top : ℕ → ℕ → List Bool
top zero q = []
top (suc j) q = top j (q / 2) ++ ((q % 2 == 1) ∷ [])

low_bits-top : (b : ℕ) → low_bits b ≡ top 7 b
low_bits-top b =
    let e2 : b / 2 / 2 ≡ b / 4 = omega arith in
    let e3 : b / 4 / 2 ≡ b / 8 = omega arith in
    let e4 : b / 8 / 2 ≡ b / 16 = omega arith in
    let e5 : b / 16 / 2 ≡ b / 32 = omega arith in
    let e6 : b / 32 / 2 ≡ b / 64 = omega arith in rw (e2, e3, e4, e5, e6) refl

top-entry : (j q p : ℕ) → top (suc j) (2 * q + bit_at p 1) ≡ top j q ++ (is_set p ∷ [])
top-entry j q p = elim (Bool-cases (p == 0)) [
  | inl z ↦
      let half : (2 * q + 0) / 2 ≡ q = omega arith in
      let odd : (2 * q + 0) % 2 ≡ 0 = omega arith in rw (z, half, odd) refl
  | inr nz ↦
      let half : (2 * q + 1) / 2 ≡ q = omega arith in
      let odd : (2 * q + 1) % 2 ≡ 1 = omega arith in rw (nz, half, odd) refl
]

-- Places that are left free read as bits that are not set.
top-replicate :
    (room j q k : ℕ) → j + room ≡ k → top k (q * 2 ^ room) ≡ top j q ++ replicate room false
top-replicate zero j q k e =
    let same_count : k ≡ j = omega arith in
    let number : q * 2 ^ 0 ≡ q = omega arith in rw (same_count, number) (sym (append-nil (top j q)))
top-replicate (suc room) j q k e =
    let number : q * 2 ^ suc room ≡ (2 * q + bit_at 0 1) * 2 ^ room =
      omega (arith, double q room 0) in
    rw number (
      top-replicate room (suc j) (2 * q + bit_at 0 1) k (omega arith)
      ∙ ap (λ t. t ++ replicate room false) (top-entry j q 0)
      ∙ append_assoc (top j q) (false ∷ []) (replicate room false))

-- The entries come back, behind those written before and in front of free places.
record Unpacked (before : List Bool) (ps : List ℕ) (bits : List Bool) : Type 0 where
  pad : ℕ
  most : pad ≤ 7
  content : bits ≡ before ++ (map is_set ps ++ replicate pad false)

all_bits-packed :
    (ps : List ℕ) (room j q : ℕ)
    → j + room ≡ 7
    → Unpacked (top j q) ps (all_bits (packed room (q * 2 ^ room) ps))
unfolding packed
all_bits-packed [] room j q e = record {
  pad = room;
  most = omega arith;
  content =
      append-nil (low_bits (q * 2 ^ room))
      ∙ low_bits-top (q * 2 ^ room)
      ∙ top-replicate room j q 7 e;
}
all_bits-packed (p ∷ ps) zero j q e =
    let rest = all_bits-packed ps 6 1 (2 * 0 + bit_at p 1) refl in
    let byte : bit_at p 64 ≡ (2 * 0 + bit_at p 1) * 2 ^ 6 = ground arith in
    let first = low_bits-top (q * 2 ^ 0) ∙ top-replicate 0 j q 7 e ∙ append-nil (top j q) in
    record {
      pad = rest.pad;
      most = rest.most;
      content = ap₂ ◌++◌ first (
          ap (λ (t : ℕ). all_bits (packed 6 t ps)) byte
          ∙ rest.content
          ∙ ap (λ t. t ++ (map is_set ps ++ replicate rest.pad false)) (top-entry 0 0 p));
    }
all_bits-packed (p ∷ ps) (suc room) j q e =
    let rest = all_bits-packed ps room (suc j) (2 * q + bit_at p 1) (omega arith) in
    record {
      pad = rest.pad;
      most = rest.most;
      content =
          ap (λ (t : ℕ). all_bits (packed room t ps)) (double q room p)
          ∙ rest.content
          ∙ ap (λ t. t ++ (map is_set ps ++ replicate rest.pad false)) (top-entry j q p)
          ∙ append_assoc (top j q) (is_set p ∷ []) (map is_set ps ++ replicate rest.pad false);
    }

stop_ignored_table : true_below 128 (λ b. same (low_bits (bit_or b 0x80)) (low_bits b)) ≡ true
unfolding true_below same
stop_ignored_table = refl

-- The stop bit is not among the bits that are read.
all_bits-mark_last : (xs : List ℕ) → All IsGroup xs → all_bits (mark_last xs) ≡ all_bits xs
unfolding mark_last
all_bits-mark_last [] h = refl
all_bits-mark_last (b ∷ []) (h, _) =
    ap (λ t. t ++ []) (same_sound _ _ (true_below_lem 128 _ b stop_ignored_table h))
all_bits-mark_last (b ∷ c ∷ bs) (h, hs) = ap (λ t. low_bits b ++ t) (all_bits-mark_last (c ∷ bs) hs)

bits_of-Reads :
    (bytes : Bytes) (xs : List ℕ) (i : ℕ)
    → Reads bytes i xs
    → bits_of bytes i (length xs) ≡ all_bits xs
bits_of-Reads bytes [] i r = refl
bits_of-Reads bytes (x ∷ xs) i (e, r) =
    ap₂ ◌++◌ (ap (λ (t : ℕ). low_bits t) e) (bits_of-Reads bytes xs (i + 1) r)

-- The presence map that `encode_pmap` writes is read back: where its bytes stand in the packet,
-- `count_stop_bit_encoded` finds their number, and `decode_pmap` gives the entries that were
-- encoded, as truth values, with at most seven that are not set behind them.
pub decode_pmap-encode_pmap :
    (pmap : List ℕ) (bytes : Bytes) (n : ℕ)
    → IsBytes bytes
    → Reads bytes 0 (encode_pmap pmap [])
    → length (encode_pmap pmap []) ≤ n
    → (count_stop_bit_encoded n bytes ≡ length (encode_pmap pmap []))
      × ((pad : ℕ) × (pad ≤ 7)
          × (map is_set (decode_pmap (length (encode_pmap pmap [])) bytes)
              ≡ map is_set pmap ++ replicate pad false))
decode_pmap-encode_pmap pmap bytes n byte r fits =
    let groups_list = packed 7 0 pmap in
    let (x, xs, e) = packed-cons 7 0 pmap in
    let written : encode_pmap pmap [] ≡ mark_last groups_list = encode_pmap-packed pmap [] in
    let is_groups = packed-IsGroup 7 0 pmap (omega arith) in
    let marked : encode_pmap pmap [] ≡ mark_last (x ∷ xs) = written ∙ ap mark_last e in
    let f =
      mark_last-FieldOf bytes x xs byte (subst (All IsGroup) e is_groups)
        (subst (Reads bytes 0) marked r) in
    let count : length (x ∷ xs) ≡ length (encode_pmap pmap []) =
      sym (length-mark_last (x ∷ xs)) ∙ ap length (sym marked) in
    let u = all_bits-packed pmap 7 0 0 refl in
    (
      f.found n (omega (arith, count)) ∙ count,
      (
        u.pad,
        u.most,
        decode_pmap-bits_of bytes (length (encode_pmap pmap [])) byte
            ∙ bits_of-Reads bytes (encode_pmap pmap []) 0 r
            ∙ ap all_bits written
            ∙ all_bits-mark_last groups_list is_groups
            ∙ u.content,
      ),
    )
