-- ===== src/Prelude/Int.antt =====
-- Go's `int`, as far as the program's values go: signed integers over the native numbers.
use mathlib.Core.Bool.{Bool, true, false}
use gsky.Prelude.Tests.{leb, ltb, ◌==◌, if◌then◌else◌}
use Prim.Native.Nat.{ℕ, suc, ◌+◌, ◌-◌, ◌*◌, ◌/◌, ◌%◌, ◌^◌}

-- `negsuc n` is -(n + 1).
pub data ℤ : Type 0 where
  pos : ℕ → ℤ
  negsuc : ℕ → ℤ

-- a - b, as an integer.
abbrev pub sub_ℕ : ℕ → ℕ → ℤ
sub_ℕ a b = if leb b a then pos (a - b) else negsuc (b - a - 1)

-- n * z and z / n, where the quotient is cut off towards zero, as Go does.
abbrev pub scale_ℤ : ℕ → ℤ → ℤ
scale_ℤ n (pos m) = pos (n * m)
scale_ℤ n (negsuc m) = sub_ℕ 0 (n * suc m)

abbrev pub quot_ℤ : ℤ → ℕ → ℤ
quot_ℤ (pos m) n = pos (m / n)
quot_ℤ (negsuc m) n = sub_ℕ 0 (suc m / n)

-- The conversion to uint8 keeps the low eight bits.
abbrev pub to_uint8 : ℤ → ℕ
to_uint8 (pos m) = m % 256
to_uint8 (negsuc m) = 255 - m % 256

infixl 30 ◌+ℤ◌
abbrev pub ◌+ℤ◌ : ℤ → ℤ → ℤ
pos m +ℤ pos n = pos (m + n)
pos m +ℤ negsuc n = sub_ℕ m (suc n)
negsuc m +ℤ pos n = sub_ℕ n (suc m)
negsuc m +ℤ negsuc n = negsuc (suc (m + n))

abbrev pub lt_ℤ : ℤ → ℤ → Bool
lt_ℤ (pos m) (pos n) = ltb m n
lt_ℤ (pos m) (negsuc n) = false
lt_ℤ (negsuc m) (pos n) = true
lt_ℤ (negsuc m) (negsuc n) = ltb n m

abbrev pub eq_ℤ : ℤ → ℤ → Bool
eq_ℤ (pos m) (pos n) = m == n
eq_ℤ (negsuc m) (negsuc n) = m == n
eq_ℤ _ _ = false

-- The remainder from 0 to n - 1.
abbrev pub mod_ℤ : ℤ → ℕ → ℕ
mod_ℤ (pos m) n = m % n
mod_ℤ (negsuc m) n = n - 1 - m % n

-- What an integer of w bits holds: two's complement if it is signed.
abbrev pub unsigned_of : ℕ → ℤ → ℤ
unsigned_of w z = pos (mod_ℤ z (2 ^ w))

abbrev pub signed_of : ℕ → ℤ → ℤ
signed_of w z = sub_ℕ (mod_ℤ (z +ℤ pos (2 ^ (w - 1))) (2 ^ w)) (2 ^ (w - 1))
