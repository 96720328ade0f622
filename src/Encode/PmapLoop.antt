-- ===== src/Encode/PmapLoop.antt =====
-- The bytes that `encode_pmap` fills.
use mathlib.Core.List.{append_assoc}
use fast_wireshark.Base.{
  ℕ, zero, suc, ◌+◌, ◌*◌, ◌/◌, ◌^◌, ◌≤◌, ◌<◌, ◌≡◌, refl, sym, ap, ◌∙◌, bit_or, false, List, [], ◌∷◌,
  ◌++◌, length, length-append, get_or, set, All, ◌==◌, if◌then◌else◌, Bool-cases, inl, inr, arith,
}
use fast_wireshark.Base.Bits.{or_low}
use native.Mathlib.Nat.{pow-suc, one-le-pow}
use fast_wireshark.Encode.{mark_last, pmap_loop, encode_pmap}
use fast_wireshark.Encode.Field.{IsGroup}

-- The bit of an entry at a place.
abbrev pub bit_at : ℕ → ℕ → ℕ
bit_at p place = if p == 0 then 0 else place

-- The bytes that the entries fill, where the byte `b` has `room` places left.
unfoldable pub packed : ℕ → ℕ → List ℕ → List ℕ
packed room b [] = b ∷ []
packed zero b (p ∷ ps) = b ∷ packed 6 (bit_at p 64) ps
packed (suc room) b (p ∷ ps) = packed room (b + bit_at p (2 ^ room)) ps

-- The last byte of an array.
at_end : (pre : List ℕ) (b d : ℕ) → get_or (pre ++ (b ∷ [])) (length pre) d ≡ b
at_end [] b d = refl
at_end (x ∷ pre) b d = at_end pre b d

set_end : (pre : List ℕ) (b c : ℕ) → set (pre ++ (b ∷ [])) (length pre) c ≡ pre ++ (c ∷ [])
set_end [] b c = refl
set_end (x ∷ pre) b c = ap (λ t. x ∷ t) (set_end pre b c)

length_end : (pre : List ℕ) (b : ℕ) → length (pre ++ (b ∷ [])) ≡ length pre + 1
length_end pre b = omega (arith, length-append pre (b ∷ []))

-- One entry written to the last byte.
write_entry :
    (pre : List ℕ) (b p place i : ℕ)
    → i ≡ length pre
    → bit_or b place ≡ b + place
    → (if p == 0
        then pre ++ (b ∷ [])
        else set (pre ++ (b ∷ [])) i (bit_or (get_or (pre ++ (b ∷ [])) i 0) place))
      ≡ pre ++ ((b + bit_at p place) ∷ [])
write_entry pre b p place i e sum = elim (Bool-cases (p == 0)) [
  | inl z ↦ rw z (ap (λ (t : ℕ). pre ++ (t ∷ [])) (omega arith))
  | inr nz ↦ rw (nz, e, at_end pre b 0, sum, set_end pre b (b + place)) refl
]

-- The array and the index that the loop leaves.
record Packed (pre : List ℕ) (filled : List ℕ) (result : List ℕ × ℕ) : Type 0 where
  init : List ℕ
  last : ℕ
  returns : result ≡ (init ++ (last ∷ []), length init)
  content : pre ++ filled ≡ init ++ (last ∷ [])

-- The two kinds of round: with a full last byte, and with room in it.
loop_full :
    (p : ℕ) (ps pre : List ℕ) (b i : ℕ)
    → i ≡ length pre
    → pmap_loop (p ∷ ps) i 0 (pre ++ (b ∷ []))
      ≡ pmap_loop ps (i + 1) 32 ((pre ++ (b ∷ [])) ++ (bit_at p 64 ∷ []))
unfolding pmap_loop
loop_full p ps pre b i e =
    let here : i + 1 ≡ length (pre ++ (b ∷ [])) = omega (arith, length_end pre b) in
    ap (pmap_loop ps (i + 1) 32) (
      write_entry (pre ++ (b ∷ [])) 0 p 64 (i + 1) here refl
      ∙ ap (λ (t : ℕ). (pre ++ (b ∷ [])) ++ (t ∷ [])) (omega arith))

loop_room :
    (p : ℕ) (ps pre : List ℕ) (b i mask : ℕ)
    → i ≡ length pre
    → (mask == 0) ≡ false
    → bit_or b mask ≡ b + mask
    → pmap_loop (p ∷ ps) i mask (pre ++ (b ∷ []))
      ≡ pmap_loop ps i (mask / 2) (pre ++ ((b + bit_at p mask) ∷ []))
unfolding pmap_loop
loop_room p ps pre b i mask e nz sum =
    rw nz (ap (pmap_loop ps i (mask / 2)) (write_entry pre b p mask i e sum))

pub double : (q r p : ℕ) → q * 2 ^ suc r + bit_at p (2 ^ r) ≡ (2 * q + bit_at p 1) * 2 ^ r
double q r p =
    let h : q * 2 ^ suc r ≡ 2 * (q * 2 ^ r) = omega (arith, ap (λ (t : ℕ). q * t) (pow-suc 2 r)) in
    elim (Bool-cases (p == 0)) [
      | inl z ↦ rw z (omega (arith, h))
      | inr nz ↦ rw nz (grind (arith, h))
    ]

pmap_loop-Packed :
    (ps : List ℕ) (pre : List ℕ) (room q i mask : ℕ)
    → i ≡ length pre
    → mask ≡ 2 ^ room / 2
    → Packed pre
        (packed room (q * 2 ^ room) ps)
        (pmap_loop ps i mask (pre ++ ((q * 2 ^ room) ∷ [])))
unfolding packed
pmap_loop-Packed [] pre room q i mask e f =
    unfold pmap_loop in
    record { init = pre; last = q * 2 ^ room; returns = rw e refl; content = refl }
pmap_loop-Packed (p ∷ ps) pre zero q i mask e f =
    let b : ℕ = q * 2 ^ 0 in
    let here : i + 1 ≡ length (pre ++ (b ∷ [])) = omega (arith, length_end pre b) in
    let byte : bit_at p 1 * 2 ^ 6 ≡ bit_at p 64 = ground arith in
    let rest = pmap_loop-Packed ps (pre ++ (b ∷ [])) 6 (bit_at p 1) (i + 1) 32 here refl in
    record {
      init = rest.init;
      last = rest.last;
      returns =
          ap (λ t. pmap_loop (p ∷ ps) i t (pre ++ (b ∷ []))) f
          ∙ loop_full p ps pre b i e
          ∙ ap (λ (t : ℕ). pmap_loop ps (i + 1) 32 ((pre ++ (b ∷ [])) ++ (t ∷ []))) (sym byte)
          ∙ rest.returns;
      content =
          ap (λ (t : ℕ). pre ++ (b ∷ packed 6 t ps)) (sym byte)
          ∙ sym (append_assoc pre (b ∷ []) (packed 6 (bit_at p 1 * 2 ^ 6) ps))
          ∙ rest.content;
    }
pmap_loop-Packed (p ∷ ps) pre (suc room) q i mask e f =
    let b : ℕ = q * 2 ^ suc room in
    let next : b + bit_at p (2 ^ room) ≡ (2 * q + bit_at p 1) * 2 ^ room = double q room p in
    let place : mask ≡ 2 ^ room = omega (arith, f, pow-suc 2 room) in
    let nz : (2 ^ room == 0) ≡ false = ground (arith, one-le-pow room 2) in
    let low : 2 ^ room < 2 ^ suc room = omega (arith, pow-suc 2 room, one-le-pow room 2) in
    let sum : bit_or b (2 ^ room) ≡ b + 2 ^ room = or_low (suc room) q (2 ^ room) low in
    let rest = pmap_loop-Packed ps pre room (2 * q + bit_at p 1) i (2 ^ room / 2) e refl in
    record {
      init = rest.init;
      last = rest.last;
      returns =
          ap (λ t. pmap_loop (p ∷ ps) i t (pre ++ (b ∷ []))) place
          ∙ loop_room p ps pre b i (2 ^ room) e nz sum
          ∙ ap (λ (t : ℕ). pmap_loop ps i (2 ^ room / 2) (pre ++ (t ∷ []))) next
          ∙ rest.returns;
      content = ap (λ (t : ℕ). pre ++ packed room t ps) next ∙ rest.content;
    }

mark_end : (init : List ℕ) (b : ℕ) → init ++ (bit_or b 128 ∷ []) ≡ mark_last (init ++ (b ∷ []))
unfolding mark_last
mark_end [] b = refl
mark_end (x ∷ []) b = refl
mark_end (x ∷ y ∷ init) b = ap (λ t. x ∷ t) (mark_end (y ∷ init) b)

mark_last-append :
    (pre : List ℕ) (x : ℕ) (xs : List ℕ) → mark_last (pre ++ (x ∷ xs)) ≡ pre ++ mark_last (x ∷ xs)
unfolding mark_last
mark_last-append [] x xs = refl
mark_last-append (y ∷ []) x xs = refl
mark_last-append (y ∷ z ∷ pre) x xs = ap (λ t. y ∷ t) (mark_last-append (z ∷ pre) x xs)

pub packed-cons : (room b : ℕ) (ps : List ℕ) → (x : ℕ) × (xs : List ℕ) × (packed room b ps ≡ x ∷ xs)
unfolding packed
packed-cons room b [] = (b, [], refl)
packed-cons zero b (p ∷ ps) = (b, packed 6 (bit_at p 64) ps, refl)
packed-cons (suc room) b (p ∷ ps) = packed-cons room (b + bit_at p (2 ^ room)) ps

-- What is appended: the packed entries, with the stop bit on the last byte.
pub encode_pmap-packed :
    (pmap arr : List ℕ) → encode_pmap pmap arr ≡ arr ++ mark_last (packed 7 0 pmap)
unfolding encode_pmap
encode_pmap-packed pmap arr =
    let r = pmap_loop-Packed pmap arr 7 0 (length arr) 64 refl refl in
    let (x, xs, e) = packed-cons 7 0 pmap in
    rw r.returns (
      ap (λ t. set (r.init ++ (r.last ∷ [])) (length r.init) (bit_or t 128))
        (at_end r.init r.last 0)
      ∙ set_end r.init r.last (bit_or r.last 128)
      ∙ mark_end r.init r.last
      ∙ ap mark_last (sym r.content ∙ ap (λ t. arr ++ t) e)
      ∙ mark_last-append arr x xs
      ∙ ap (λ t. arr ++ mark_last t) (sym e))

pub packed-IsGroup :
    (room b : ℕ) (ps : List ℕ) → b + 2 ^ room ≤ 128 → All IsGroup (packed room b ps)
unfolding packed
packed-IsGroup room b [] h = (omega (arith, one-le-pow room 2), tt)
packed-IsGroup zero b (p ∷ ps) h = (omega arith, packed-IsGroup 6 (bit_at p 64) ps (ground arith))
packed-IsGroup (suc room) b (p ∷ ps) h =
    let fits : b + bit_at p (2 ^ room) + 2 ^ room ≤ 128 = ground (arith, pow-suc 2 room) in
    packed-IsGroup room (b + bit_at p (2 ^ room)) ps fits
