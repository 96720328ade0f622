-- ===== src/Encode/Written.antt =====
-- What one run of an encoding loop writes: groups of seven bits in front of those already there.
use mathlib.Core.Path.{subst₂}
use mathlib.Core.List.{append_assoc}
use fast_wireshark.Base.{
  ℕ, suc, ◌+◌, ◌*◌, ◌<◌, ◌≡◌, sym, ap, ◌∙◌, List, [], ◌∷◌, ◌++◌, length, length-append, All, Option,
  some, arith,
}
use fast_wireshark.Encode.Field.{IsGroup, value_from, value_from-append}

All-append : (xs ys : List ℕ) → All IsGroup xs → All IsGroup ys → All IsGroup (xs ++ ys)
All-append [] ys h k = k
All-append (x ∷ xs) ys (h, hs) k = (h, All-append xs ys hs k)

-- The result is the groups `first ∷ others` in front of `out`, at most `i` of them; `Number` holds
-- of the count of the others and of the number that all of them write.
pub record Written (Number : ℕ → ℕ → Type 0) (i : ℕ) (out : List ℕ) (result : Option (List ℕ))
    : Type 0 where
  pub first : ℕ
  pub others : List ℕ
  pub returns : result ≡ some ((first ∷ others) ++ out)
  pub all_groups : All IsGroup (first ∷ others)
  pub number : Number (length others) (value_from 0 (first ∷ others))
  pub short : length others < i

count : (xs : List ℕ) (d : ℕ) → suc (length xs) ≡ length (xs ++ (d ∷ []))
count xs d = omega (arith, length-append xs (d ∷ []))

shifted :
    (x : ℕ) (xs : List ℕ) (d : ℕ)
    → d < 128
    → value_from 0 (x ∷ xs) * 128 + d ≡ value_from 0 (x ∷ (xs ++ (d ∷ [])))
shifted x xs d h = omega (arith, value_from-append 0 (x ∷ xs) (d ∷ []))

-- One round before the others: the group `d` comes last.
pub Written-round :
    (Rest Number : ℕ → ℕ → Type 0) (i d : ℕ) (out : List ℕ) (result : Option (List ℕ))
    → ((n v : ℕ) → Rest n v → Number (suc n) (v * 128 + d))
    → d < 128
    → Written Rest i (d ∷ out) result
    → Written Number (suc i) out result
Written-round Rest Number i d out result step h w = record {
  first = w.first;
  others = w.others ++ (d ∷ []);
  returns = w.returns ∙ ap (λ t. some (w.first ∷ t)) (sym (append_assoc w.others (d ∷ []) out));
  all_groups = (w.all_groups.0, All-append w.others (d ∷ []) w.all_groups.1 (h, tt));
  number =
      subst₂ Number (count w.others d) (shifted w.first w.others d h)
        (step (length w.others) (value_from 0 (w.first ∷ w.others)) w.number);
  short = omega (arith, length-append w.others (d ∷ []), w.short);
}
