-- ===== src/Machine.antt =====
-- Fixed-width integers of the source (usize and u64, u32, u16, u8) as numbers: the wrap-around of
-- each width is written out, and a bit count is a number of the type Bitlen.
use pcodec.Common.{ℕ, ◌+◌, ◌-◌, ◌*◌, ◌/◌, ◌%◌, ◌^◌, if◌then◌else◌, ◌==◌}
use pcodec.Common.Pow.{ilog2}

abbrev pub u8 : ℕ → ℕ
u8 n = n % 2 ^ 8

abbrev pub u16 : ℕ → ℕ
u16 n = n % 2 ^ 16

abbrev pub u32 : ℕ → ℕ
u32 n = n % 2 ^ 32

abbrev pub u64 : ℕ → ℕ
u64 n = n % 2 ^ 64

-- Subtraction on u32. `-` on ℕ stops at 0, so the modulus is added first.
abbrev pub sub_u32 : ℕ → ℕ → ℕ
sub_u32 a b = (a + 2 ^ 32 - b) % 2 ^ 32

-- Shifts and the leading zeros of a `w`-bit word.
infixl 75 ◌>>>◌
abbrev pub ◌>>>◌ : ℕ → ℕ → ℕ
x >>> k = x / 2 ^ k

abbrev pub shl : ℕ → ℕ → ℕ → ℕ
shl w x k = x * 2 ^ k % 2 ^ w

unfoldable pub leading_zeros : ℕ → ℕ → ℕ
leading_zeros w x = if x == 0 then w else w - 1 - ilog2 x
