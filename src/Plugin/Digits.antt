-- ===== src/Plugin/Digits.antt =====
-- Decimal digits, and the numbers that they write.
use native.Mathlib.Nat.{mul_assoc, pow-suc, pow-succ'}
use fast_wireshark.Base.{
  ℕ, zero, suc, ◌+◌, ◌-◌, ◌*◌, ◌/◌, ◌%◌, ◌^◌, ◌≤◌, ◌<◌, ◌≡◌, refl, ap, ◌∙◌, Bool, true, false, List,
  [], ◌∷◌, ◌++◌, length, length-append, take, drop, replicate, All, ltb, ◌==◌, if◌then◌else◌,
  Bool-cases, inl, inr, arith,
}
use fast_wireshark.Plugin.Text.{digits, is_negative, neg}

-- How a text is read: the number that digits write, behind a number that is there.
abbrev pub value : ℕ → List ℕ → ℕ
value acc [] = acc
value acc (c ∷ cs) = value (acc * 10 + (c - b'0')) cs

-- The number of all digits, and how many of them stand behind the point.
abbrev pub read_number : ℕ → List ℕ → ℕ × ℕ
read_number acc [] = (acc, 0)
read_number acc (c ∷ cs) =
    let rest = read_number (acc * 10 + (c - b'0')) cs in
    if c == b'.' then (value acc cs, length cs) else rest

-- With the sign, and whether there is one.
abbrev pub read_text : List ℕ → Bool × (ℕ × ℕ)
read_text [] = (false, read_number 0 [])
read_text (c ∷ cs) = if c == b'-' then (true, read_number 0 cs) else (false, read_number 0 (c ∷ cs))

abbrev pub IsDigit : ℕ → Type 0
IsDigit c = b'0' ≤ c

pub value-append : (acc : ℕ) (xs ys : List ℕ) → value acc (xs ++ ys) ≡ value (value acc xs) ys
value-append acc [] ys = refl
value-append acc (x ∷ xs) ys = value-append (acc * 10 + (x - b'0')) xs ys

pub All-append : (xs ys : List ℕ) → All IsDigit xs → All IsDigit ys → All IsDigit (xs ++ ys)
All-append [] ys a b = b
All-append (x ∷ xs) ys (h, a) b = (h, All-append xs ys a b)

-- The digits of a number, `k` at most.
pub record Digits (k n : ℕ) (ds : List ℕ) : Type 0 where
  pub are : All IsDigit ds
  pub number : value 0 ds ≡ n
  pub some_digits : 0 < length ds
  pub most : length ds ≤ k

pub one_digit : (k fuel n : ℕ) → ltb n 10 ≡ true → Digits (suc k) n (digits (suc fuel) n)
unfolding digits
one_digit k fuel n one = rw one (record {
  are = (omega arith, tt);
  number = omega arith;
  some_digits = omega arith;
  most = omega arith;
})

pub digits-Digits :
    (k fuel n : ℕ) → n < 10 ^ suc k → k ≤ fuel → Digits (suc k) n (digits (suc fuel) n)
unfolding digits
digits-Digits zero fuel n small le = one_digit zero fuel n (ground (arith, pow-suc 10 0))
digits-Digits (suc k) zero n small le = absurd (omega arith)
digits-Digits (suc k) (suc fuel) n small le = elim (Bool-cases (ltb n 10)) [
  | inl one ↦ one_digit (suc k) (suc fuel) n one
  | inr more ↦
      let d = digits-Digits k fuel (n / 10) (omega (arith, pow-suc 10 (suc k))) (omega arith) in
      let ds = digits (suc fuel) (n / 10) in
      let last = (n % 10 + b'0') ∷ [] in
      rw more (record {
        are = All-append ds last d.are (omega arith, tt);
        number = value-append 0 ds last ∙ omega (arith, d.number);
        some_digits = omega (arith, length-append ds last, d.some_digits);
        most = omega (arith, length-append ds last, d.most);
      })
]

pub read_number-digits :
    (acc : ℕ) (ds : List ℕ) → All IsDigit ds → read_number acc ds ≡ (value acc ds, 0)
read_number-digits acc [] a = refl
read_number-digits acc (c ∷ cs) (h, a) =
    let e : (c == b'.') ≡ false = ground arith in
    rw e (read_number-digits (acc * 10 + (c - b'0')) cs a)

pub read_number-point :
    (acc : ℕ) (ds es : List ℕ)
    → All IsDigit ds
    → read_number acc (ds ++ (b'.' ∷ es)) ≡ (value acc (ds ++ es), length es)
read_number-point acc [] es a = refl
read_number-point acc (c ∷ cs) es (h, a) =
    let e : (c == b'.') ≡ false = ground arith in
    rw e (read_number-point (acc * 10 + (c - b'0')) cs es a)

pub take-drop : (k : ℕ) (xs : List ℕ) → take k xs ++ drop k xs ≡ xs
take-drop zero xs = refl
take-drop (suc k) [] = refl
take-drop (suc k) (x ∷ xs) = ap (λ t. x ∷ t) (take-drop k xs)

pub All-take : (k : ℕ) (xs : List ℕ) → All IsDigit xs → All IsDigit (take k xs)
All-take zero xs a = tt
All-take (suc k) [] a = tt
All-take (suc k) (x ∷ xs) (h, a) = (h, All-take k xs a)

pub length-drop : (k : ℕ) (xs : List ℕ) → length (drop k xs) ≡ length xs - k
length-drop zero xs = omega arith
length-drop (suc k) [] = omega arith
length-drop (suc k) (x ∷ xs) = omega (arith, length-drop k xs)

pub length-take : (k : ℕ) (xs : List ℕ) → k ≤ length xs → length (take k xs) ≡ k
length-take zero xs le = refl
length-take (suc k) [] le = absurd (omega arith)
length-take (suc k) (x ∷ xs) le = omega (arith, length-take k xs (omega arith))

pub length-replicate : (n c : ℕ) → length (replicate n c) ≡ n
length-replicate zero c = refl
length-replicate (suc n) c = omega (arith, length-replicate n c)

pub length-neg : (mant : ℕ) → length (neg mant) ≤ 1
length-neg mant = elim (Bool-cases (is_negative 64 mant)) [
  | inl minus ↦ rw minus (omega arith)
  | inr plus ↦ rw plus (omega arith)
]

pub value-zeros : (acc n : ℕ) → value acc (replicate n b'0') ≡ acc * 10 ^ n
value-zeros acc zero = omega arith
value-zeros acc (suc n) =
    value-zeros (acc * 10 + 0) n
    ∙ omega (arith, mul_assoc acc 10 (10 ^ n), ap (λ (t : ℕ). acc * t) (pow-succ' 10 n))

pub value-leading : (n : ℕ) (ds : List ℕ) → value 0 (replicate n b'0' ++ ds) ≡ value 0 ds
value-leading zero ds = refl
value-leading (suc n) ds = value-leading n ds
