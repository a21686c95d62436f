-- ===== src/Prelude/Int.antt =====
-- Signed integers (i32, i64) over the native numbers.
use Prim.Native.Nat.{ℕ, zero, suc, ◌-◌, ◌%◌, ◌^◌}
use Prim.Native.String
use Prim.Native.String.{String}
use vasal.Prelude.Text.{decimal}
use vasal.Prelude.Tests.{ltb, if◌then◌else◌}

-- `negsuc n` is -(n + 1).
pub data ℤ : Type 0 where
  pos : ℕ → ℤ
  negsuc : ℕ → ℤ

-- -n
abbrev pub neg : ℕ → ℤ
neg zero = pos 0
neg (suc n) = negsuc n

unfoldable pub int_text : ℤ → String
unfolding decimal
int_text (pos n) = decimal n
int_text (negsuc n) = String.◌++◌ "-" (decimal (suc n))

-- `n as i32`, `n as i64`: the two's complement of `w` bits.
abbrev pub signed : (w : ℕ) → ℕ → ℤ
signed w n = let m = n % 2 ^ w in if ltb m (2 ^ (w - 1)) then pos m else neg (2 ^ w - m)
