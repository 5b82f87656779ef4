-- ===== src/Bits.antt =====
-- pco/src/bits.rs and read_write_uint.rs: masks and bit counts.
use pcodec.Common.{
  ℕ, ◌+◌, ◌-◌, ◌*◌, ◌%◌, ◌^◌, ◌<◌, ◌≡◌, ◌∙◌, leb→le, leb-false, arith, if◌then◌else◌, leb, ◌==◌,
  bit_and, tests, Bool-cases, inl, inr,
}
use pcodec.Common.Pow.{pow_mono, pow-add, two-pow-pos}
use pcodec.Common.Bitwise.{bit_and_mask}
use pcodec.Machine.{shl, leading_zeros}
use native.Mathlib.Nat.{mod-eq_of_lt}

-- `x & ((U::ONE << n) - U::ONE)` on a type of `w` bits, for `n` below `w`.
unfoldable pub lowest_bits_fast : ℕ → ℕ → ℕ → ℕ
lowest_bits_fast w x n = bit_and x (shl w 1 n - 1)

unfoldable pub lowest_bits : ℕ → ℕ → ℕ → ℕ
unfolding lowest_bits_fast
lowest_bits w x n = if leb w n then x else lowest_bits_fast w x n

unfoldable pub bits_to_encode_offset : ℕ → ℕ → ℕ
bits_to_encode_offset w max_offset = w - leading_zeros w max_offset

unfoldable pub bits_to_encode_offset_bits : ℕ → ℕ
bits_to_encode_offset_bits w = 32 - leading_zeros 32 w

-- The number of u64s that one read or write of so many bits takes.
unfoldable pub calc_max_u64s : ℕ → ℕ
calc_max_u64s precision =
    if precision == 0 then 0 else if leb precision 57 then 1 else if leb precision 113 then 2 else 3

unfoldable pub calc_max_u64s_for_writing : ℕ → ℕ
calc_max_u64s_for_writing precision =
    if precision == 0 then 0 else if leb precision 56 then 1 else if leb precision 113 then 2 else 3

-- Where the shift stays inside the type, the mask takes the remainder.
pub lowest_bits_fast_lem : (w x n : ℕ) → n < w → lowest_bits_fast w x n ≡ x % 2 ^ n
unfolding lowest_bits_fast
lowest_bits_fast_lem w x n h =
    let below : 1 * 2 ^ n < 2 ^ w =
      omega (arith, pow_mono (n + 1) w (omega arith), double, two-pow-pos n) in
    let one : shl w 1 n ≡ 2 ^ n = mod-eq_of_lt below ∙ omega arith in rw one (bit_and_mask n x)
  where
    double : 2 ^ (n + 1) ≡ 2 ^ n * 2
    double = pow-add n 1

-- For a number of the type, the low bits are the remainder, for any count of bits, also one that is
-- as large as the type or larger.
pub lowest_bits_lem : (w x n : ℕ) → x < 2 ^ w → lowest_bits w x n ≡ x % 2 ^ n
unfolding lowest_bits
lowest_bits_lem w x n h = elim (Bool-cases (leb w n)) [
  | inl wide ↦
      rw (wide, mod-eq_of_lt {n = x} {m = 2 ^ n} (omega (tests, h, pow_mono w n (leb→le w n wide))))
  | inr narrow ↦ rw narrow (lowest_bits_fast_lem w x n (leb-false w n narrow))
]
