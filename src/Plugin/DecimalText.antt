-- ===== src/Plugin/DecimalText.antt =====
-- The text of a decimal denotes the decimal.
use mathlib.Core.Path.{ap₂}
use native.Mathlib.Nat.{pow-suc, one-le-pow}
use fast_wireshark.Base.{
  ℕ, zero, suc, ◌+◌, ◌-◌, ◌*◌, ◌/◌, ◌%◌, ◌^◌, ◌≤◌, ◌<◌, ◌≡◌, refl, ap, ◌∙◌, sym, Bool, true, false,
  List, [], ◌∷◌, ◌++◌, length, length-append, take, drop, replicate, All, ltb, ◌==◌, if◌then◌else◌,
  Bool-cases, inl, inr, arith,
}
use fast_wireshark.Plugin.Text.{
  digits, max_digits, is_negative, magnitude, neg, text, undefined, null, with_point, to_decimal,
}
use fast_wireshark.Plugin.Digits.{
  IsDigit, value-append, All-append, digits-Digits, read_number-digits, read_number-point,
  take-drop, All-take, length-drop, length-take, length-replicate, length-neg, value-zeros,
  value-leading, value, read_number, read_text,
}

-- A sign in front of a text that starts with none.
abbrev NoSign : List ℕ → Type 0
NoSign [] = Unit {0}
NoSign (c ∷ cs) = (c == b'-') ≡ false

read_text-neg :
    (mant : ℕ) (t : List ℕ)
    → NoSign t
    → read_text (neg mant ++ t) ≡ (is_negative 64 mant, read_number 0 t)
read_text-neg mant t plain = elim (Bool-cases (is_negative 64 mant)) [
  | inl minus ↦ rw minus refl
  | inr plus ↦ rw plus (no_sign t plain)
]
  where
    no_sign : (t : List ℕ) → NoSign t → read_text t ≡ (false, read_number 0 t)
    no_sign [] plain = refl
    no_sign (c ∷ cs) plain = rw plain refl

digit-NoSign : (ds es : List ℕ) → All IsDigit ds → 0 < length ds → NoSign (ds ++ es)
digit-NoSign [] es a some = absurd (omega arith)
digit-NoSign (c ∷ cs) es (h, a) some = ground arith

-- The text with a point: with the digits that there are in front of it, or with zeros behind it.
with_point-reads :
    (k mant : ℕ) (base : List ℕ)
    → All IsDigit base
    → length base ≤ 11 + k
    → length base ≤ 18
    → (t : List ℕ) × (with_point k (neg mant) base ≡ text t)
      × (read_text t ≡ (is_negative 64 mant, (value 0 base, k)))
unfolding with_point
with_point-reads k mant base a room most = elim (Bool-cases (ltb k (length base))) [
  | inl inside ↦
      let point = length base - k in
      let left = take point base in
      let right = drop point base in
      let fits : ltb 11 point ≡ false = ground (arith, room) in
      let fits' : ltb 20 (length (neg mant) + length base + 1) ≡ false =
        ground (arith, length-neg mant, most) in
      (
        neg mant ++ (left ++ (b'.' ∷ right)),
        rw (inside, fits, fits') refl,
        read_text-neg mant (left ++ (b'.' ∷ right)) (
              digit-NoSign left (b'.' ∷ right) (All-take point base a)
                (ground (arith, length-take point base, inside)))
            ∙ ap (λ (r : ℕ × ℕ). (is_negative 64 mant, r))
                (read_number-point 0 left right (All-take point base a)
                  ∙ ap₂ (λ (x y : ℕ). (x, y)) (ap (value 0) (take-drop point base))
                      (length-drop point base ∙ ground (arith, inside))),
      )
  | inr outside ↦
      let zeros = replicate (k - length base) b'0' in
      (
        neg mant ++ (b'.' ∷ (zeros ++ base)),
        rw outside refl,
        read_text-neg mant (b'.' ∷ (zeros ++ base)) refl
            ∙ ap (λ (r : ℕ × ℕ). (is_negative 64 mant, r))
                (ap₂ (λ (x y : ℕ). (x, y)) (value-leading (k - length base) base)
                  (ground (
                    arith,
                    length-append zeros base,
                    length-replicate (k - length base) b'0',
                    outside,
                  ))),
      )
]

zeros-All : (n : ℕ) → All IsDigit (replicate n b'0')
zeros-All zero = tt
zeros-All (suc n) = (omega arith, zeros-All n)

magnitude_pos : (expt : ℕ) → expt < 2 ^ 32 → 0 < expt → 0 < magnitude 32 expt
magnitude_pos expt bound pos = ground arith

not_least : (mant : ℕ) → magnitude 64 mant < 10 ^ 12 → (mant == 2 ^ 63) ≡ false
not_least mant small = elim (Bool-cases (is_negative 64 mant)) [
  | inl minus ↦ let h = (rw minus at small) in ground (arith, h)
  | inr plus ↦ ground (arith, plus)
]

-- The branch of `to_decimal` for an exponent that is not zero and in range.
to_decimal_by :
    (expt mant : ℕ)
    → (expt == 0) ≡ false
    → magnitude 32 expt ≤ 10
    → (mant == 2 ^ 63) ≡ false
    → to_decimal expt mant ≡ (
        if is_negative 32 expt
        then with_point (magnitude 32 expt) (neg mant) (digits max_digits (magnitude 64 mant))
        else text (neg mant ++ (digits max_digits (magnitude 64 mant) ++ replicate expt b'0')))
unfolding to_decimal
to_decimal_by expt mant not_zero in_range least =
    let base = digits max_digits (magnitude 64 mant) in
    let fits : ltb 10 (magnitude 32 expt) ≡ false = ground (arith, in_range) in
    let below = with_point (magnitude 32 expt) (neg mant) base in
    let above = text (neg mant ++ (base ++ replicate expt b'0')) in
    let signed_by =
      if is_negative 32 expt then (if mant == 2 ^ 63 then undefined else below) else above in
    ap
      (λ b.
        if b then text (b'1' ∷ []) else (if ltb 10 (magnitude 32 expt) then null else signed_by))
      not_zero
    ∙ ap (λ b. if b then null else signed_by) fits
    ∙ ap (λ b. if is_negative 32 expt then (if b then undefined else below) else above) least

-- Where the exponent is from -10 to 10 and not 0, and the mantissa's absolute value is below 10
-- ^ 12, `to_decimal` gives a text that denotes the decimal: read as a sign, digits and a point,
-- it has the mantissa's sign, its digits write the mantissa's absolute value, and as many of
-- them stand behind the point as the negative exponent says; for a positive exponent they write
-- the mantissa times that power of ten, with no point.
pub to_decimal_reads :
    (expt mant : ℕ)
    → expt < 2 ^ 32
    → 0 < expt
    → magnitude 32 expt ≤ 10
    → magnitude 64 mant < 10 ^ 12
    → (t : List ℕ) × (to_decimal expt mant ≡ text t)
      × (read_text t ≡ (
          if is_negative 32 expt
          then (is_negative 64 mant, (magnitude 64 mant, magnitude 32 expt))
          else (is_negative 64 mant, (magnitude 64 mant * 10 ^ expt, 0))))
to_decimal_reads expt mant bound pos in_range small =
    let n = magnitude 64 mant in
    let base = digits max_digits n in
    let sign = is_negative 64 mant in
    let not_zero : (expt == 0) ≡ false = ground arith in
    let d = digits-Digits 11 19 n small (omega arith) in
    let k = magnitude 32 expt in
    let below = with_point k (neg mant) base in
    let above = text (neg mant ++ (base ++ replicate expt b'0')) in
    let run = to_decimal_by expt mant not_zero in_range (not_least mant small) in
    elim (Bool-cases (is_negative 32 expt)) [
      | inl minus ↦
          let (t, e, r) =
            with_point-reads k mant base d.are (omega (arith, d.most, magnitude_pos expt bound pos))
              (omega (arith, d.most)) in
          (
            t,
            run ∙ ap (λ b. if b then below else above) minus ∙ e,
            r
                ∙ ap (λ (v : ℕ). (sign, (v, k))) d.number
                ∙ sym (ap (λ b. if b then (sign, (n, k)) else (sign, (n * 10 ^ expt, 0))) minus),
          )
      | inr plus ↦
          let zeros = replicate expt b'0' in
          (
            neg mant ++ (base ++ zeros),
            run ∙ ap (λ b. if b then below else above) plus,
            read_text-neg mant (base ++ zeros) (digit-NoSign base zeros d.are d.some_digits)
                ∙ ap (λ (v : ℕ × ℕ). (sign, v))
                    (read_number-digits 0 (base ++ zeros)
                        (All-append base zeros d.are (zeros-All expt))
                      ∙ ap (λ (v : ℕ). (v, 0))
                          (value-append 0 base zeros
                            ∙ value-zeros (value 0 base) expt
                            ∙ ap (λ (v : ℕ). v * 10 ^ expt) d.number))
                ∙ sym (ap (λ b. if b then (sign, (n, k)) else (sign, (n * 10 ^ expt, 0))) plus),
          )
    ]

digits_at_least : (j fuel n : ℕ) → 10 ^ j ≤ n → j ≤ fuel → j < length (digits (suc fuel) n)
unfolding digits
digits_at_least zero fuel n big le = elim (Bool-cases (ltb n 10)) [
  | inl one ↦ rw one (omega arith)
  | inr more ↦ rw more (omega (arith, length-append (digits fuel (n / 10)) ((n % 10 + b'0') ∷ [])))
]
digits_at_least (suc j) zero n big le = absurd (omega arith)
digits_at_least (suc j) (suc fuel) n big le =
    let more : ltb n 10 ≡ false = ground (arith, pow-suc 10 j, one-le-pow j 10) in
    let ds = digits (suc fuel) (n / 10) in
    let rest = digits_at_least j fuel (n / 10) (omega (arith, pow-suc 10 j)) (omega arith) in
    rw more (omega (arith, rest, length-append ds ((n % 10 + b'0') ∷ [])))

with_point_overrun :
    (k : ℕ) (sign base : List ℕ) → 11 + k < length base → with_point k sign base ≡ undefined
unfolding with_point
with_point_overrun k sign base long =
    let inside : ltb k (length base) ≡ true = ground arith in
    let over : ltb 11 (length base - k) ≡ true = ground arith in rw (inside, over) refl

-- Where the exponent is -k, with k at most 8, and the mantissa's absolute value is at least 10 ^
-- (11 + k), `to_decimal` writes behind the end of a buffer, where the model's result is
-- undefined.
pub to_decimal_overrun :
    (expt mant : ℕ)
    → expt < 2 ^ 32
    → is_negative 32 expt ≡ true
    → magnitude 32 expt ≤ 8
    → 10 ^ (11 + magnitude 32 expt) ≤ magnitude 64 mant
    → to_decimal expt mant ≡ undefined
unfolding to_decimal
to_decimal_overrun expt mant bound minus in_range big =
    let base = digits max_digits (magnitude 64 mant) in
    let not_zero : (expt == 0) ≡ false = ground arith in
    let long = digits_at_least (11 + magnitude 32 expt) 19 (magnitude 64 mant) big (omega arith) in
    let over = with_point_overrun (magnitude 32 expt) (neg mant) base long in
    let fits : ltb 10 (magnitude 32 expt) ≡ false = ground (arith, in_range) in
    let below = with_point (magnitude 32 expt) (neg mant) base in
    let above = text (neg mant ++ (base ++ replicate expt b'0')) in
    let by_least = if mant == 2 ^ 63 then undefined else below in
    let signed_by = if is_negative 32 expt then by_least else above in
    ap
      (λ b.
        if b then text (b'1' ∷ []) else (if ltb 10 (magnitude 32 expt) then null else signed_by))
      not_zero
    ∙ ap (λ b. if b then null else signed_by) fits
    ∙ ap (λ b. if b then by_least else above) minus
    ∙ ap (λ w. if mant == 2 ^ 63 then undefined else w) over
    ∙ same_branch (mant == 2 ^ 63)
  where
    same_branch : (b : Bool) → (if b then undefined else undefined) ≡ undefined
    same_branch true = refl
    same_branch false = refl
