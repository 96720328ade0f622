-- ===== src/Decode/Local.antt =====
-- The routines of decode.c read no byte past the ones that they are given.
use mathlib.Core.Path.{ap₂}
use fast_wireshark.Base.{
  ℕ, zero, suc, ◌+◌, ◌<◌, ◌≡◌, refl, ap, bit_and, bit_or, [], ◌∷◌, ◌++◌, arith,
}
use fast_wireshark.Decode.{
  Bytes, count_loop, count_stop_bit_encoded, pmap_loop, pmap_byte_loop, decode_pmap, uint_loop,
  decode_uint, decode_uint32, decode_uint64, sign_extend, decode_int32, decode_int64, copy_from,
  decode_ascii_string, decode_byte_vector, not_stop_byte,
}

-- Two memories that hold the same `n` bytes.
abbrev pub Agree : ℕ → Bytes → Bytes → Type 0
Agree n f g = (i : ℕ) → i < n → f i ≡ g i

count_loop-Agree :
    (f g : Bytes) (left i : ℕ) → Agree (i + left) f g → count_loop f left i ≡ count_loop g left i
unfolding count_loop
count_loop-Agree f g zero i h = refl
count_loop-Agree f g (suc left) i h =
    let here : f i ≡ g i = h i (omega arith) in
    let rest = count_loop-Agree f g left (i + 1) (λ j q. h j (omega arith)) in ground arith

pub count_stop_bit_encoded-Agree :
    (n : ℕ) (f g : Bytes) → Agree n f g → count_stop_bit_encoded n f ≡ count_stop_bit_encoded n g
unfolding count_stop_bit_encoded
count_stop_bit_encoded-Agree n f g h = count_loop-Agree f g n 0 (λ i q. h i (omega arith))

uint_loop-Agree :
    (w : ℕ) (f g : Bytes) (left i n : ℕ)
    → Agree (i + left) f g
    → uint_loop w f left i n ≡ uint_loop w g left i n
unfolding uint_loop
uint_loop-Agree w f g zero i n h = refl
uint_loop-Agree w f g (suc left) i n h =
    rw (h i (omega arith)) (uint_loop-Agree w f g left (i + 1) _ (λ j q. h j (omega arith)))

decode_uint-Agree : (w n : ℕ) (f g : Bytes) → Agree n f g → decode_uint w n f ≡ decode_uint w n g
unfolding decode_uint
decode_uint-Agree w zero f g h = refl
decode_uint-Agree w (suc last) f g h =
    ap₂ bit_or (uint_loop-Agree w f g last 0 0 (λ i q. h i (omega arith)))
      (ap (λ b. bit_and b not_stop_byte) (h last (omega arith)))

copy_from-Agree : (f g : Bytes) (n i : ℕ) → Agree (i + n) f g → copy_from f n i ≡ copy_from g n i
unfolding copy_from
copy_from-Agree f g zero i h = refl
copy_from-Agree f g (suc n) i h =
    ap₂ ◌∷◌ (h i (omega arith)) (copy_from-Agree f g n (i + 1) (λ j q. h j (omega arith)))

pmap_loop-Agree : (f g : Bytes) (n i : ℕ) → Agree (i + n) f g → pmap_loop f n i ≡ pmap_loop g n i
unfolding pmap_loop
pmap_loop-Agree f g zero i h = refl
pmap_loop-Agree f g (suc n) i h =
    ap₂ ◌++◌ (ap (λ b. pmap_byte_loop b 7 1) (h i (omega arith)))
      (pmap_loop-Agree f g n (i + 1) (λ j q. h j (omega arith)))

decode_int-Agree :
    (w last : ℕ) (f g : Bytes)
    → Agree (suc last) f g
    → sign_extend w (suc last) f (decode_uint w (suc last) f)
      ≡ sign_extend w (suc last) g (decode_uint w (suc last) g)
unfolding sign_extend
decode_int-Agree w last f g h = rw (h 0 (omega arith), decode_uint-Agree w (suc last) f g h)

-- The routines of decode.c read no byte past the `n` that they are given: they give the same for
-- two memories that agree on those.
pub decode-Agree :
    (n : ℕ) (f g : Bytes)
    → Agree n f g
    → (decode_uint32 n f ≡ decode_uint32 n g)
      × (decode_uint64 n f ≡ decode_uint64 n g)
      × (decode_int32 n f ≡ decode_int32 n g)
      × (decode_int64 n f ≡ decode_int64 n g)
      × (decode_pmap n f ≡ decode_pmap n g)
      × (decode_ascii_string n f ≡ decode_ascii_string n g)
      × (decode_byte_vector n f ≡ decode_byte_vector n g)
unfolding decode_uint32 decode_uint64 decode_int32 decode_int64 decode_pmap decode_ascii_string
    decode_byte_vector
decode-Agree zero f g h = (refl, refl, refl, refl, refl, refl, refl)
decode-Agree (suc last) f g h = (
  decode_uint-Agree 32 (suc last) f g h,
  decode_uint-Agree 64 (suc last) f g h,
  decode_int-Agree 32 last f g h,
  decode_int-Agree 64 last f g h,
  pmap_loop-Agree f g (suc last) 0 (λ i q. h i (omega arith)),
  ap₂ ◌++◌ (copy_from-Agree f g last 0 (λ i q. h i (omega arith)))
      (ap (λ b. bit_and b not_stop_byte ∷ []) (h last (omega arith))),
  copy_from-Agree f g (suc last) 0 (λ i q. h i (omega arith)),
)
