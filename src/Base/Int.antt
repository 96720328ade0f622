-- ===== src/Base/Int.antt =====
-- Signed integers over the native numbers, under the library's names.
use Prim.Native.Nat.{ℕ, ◌-◌, ◌^◌, compare, Ordering}

-- `negsuc n` is -(n + 1).
pub data ℤ : Type 0 where
  pos : ℕ → ℤ
  negsuc : ℕ → ℤ

-- The integer that a bit pattern of `w` bits stands for, in two's complement.
abbrev pub signed : ℕ → ℕ → ℤ
signed w x = elim (compare x (2 ^ (w - 1))) [ Ordering.lt ↦ pos x | _ ↦ negsuc (2 ^ w - x - 1) ]
