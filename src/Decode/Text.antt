-- ===== src/Decode/Text.antt =====
-- `decode_ascii_string` and `decode_byte_vector`.
use mathlib.Core.Path.{ap₂}
use fast_wireshark.Base.{ℕ, ◌+◌, ◌≡◌, refl, List, [], ◌∷◌, length}
use fast_wireshark.Decode.{Bytes, copy_from, decode_byte_vector}

-- `xs` is what stands at index `i`.
abbrev pub Reads : Bytes → ℕ → List ℕ → Type 0
Reads bytes i [] = Unit {0}
Reads bytes i (x ∷ xs) = (bytes i ≡ x) × Reads bytes (i + 1) xs

pub copy_from-Reads :
    (bytes : Bytes) (xs : List ℕ) (i : ℕ) → Reads bytes i xs → copy_from bytes (length xs) i ≡ xs
unfolding copy_from
copy_from-Reads bytes [] i r = refl
copy_from-Reads bytes (x ∷ xs) i (e, r) = ap₂ ◌∷◌ e (copy_from-Reads bytes xs (i + 1) r)

-- The bytes read are the ones copied, whatever stands behind them.
pub decode_byte_vector-Reads :
    (bytes : Bytes) (xs : List ℕ) → Reads bytes 0 xs → decode_byte_vector (length xs) bytes ≡ xs
unfolding decode_byte_vector
decode_byte_vector-Reads bytes xs r = copy_from-Reads bytes xs 0 r
