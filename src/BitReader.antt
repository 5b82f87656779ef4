-- ===== src/BitReader.antt =====
-- pco/src/bit_reader.rs: reading unsigned integers of any bit length.
pub mod Reading
mod Tests
use pcodec.Common.{
  ℕ, zero, suc, ◌+◌, ◌-◌, ◌*◌, ◌/◌, ◌%◌, ◌^◌, if◌then◌else◌, leb, ltb, ◌==◌, not, min, bit_or, Bool,
  true, false, List, [], ◌∷◌, length, take, drop,
}
use pcodec.Machine.{shl, ◌>>>◌}
use pcodec.Errors.{
  Result, ok, err, panic, ◌>>=◌, ◌>>◌, invalid_argument, insufficient_data, corruption,
}
use pcodec.Slice.{index}
use pcodec.Bytes.{value}
use pcodec.Bits.{lowest_bits, lowest_bits_fast, calc_max_u64s}
use pcodec.Latent.{from_u64}

-- The raw pointer is read whatever the length; a read beyond the slice is a fault.
unfoldable pub u64_at : List ℕ → ℕ → Result ℕ
u64_at src byte_idx =
    if leb (byte_idx + 8) (length src) then ok (value (take 8 (drop byte_idx src))) else panic

module _ (w : ℕ) (src : List ℕ) where
  -- The loop over the u64s after the first.
  unfoldable pub read_more : ℕ → ℕ → ℕ → ℕ → Result ℕ
  unfolding u64_at
  read_more zero byte_idx processed res = ok res
  read_more (suc left) byte_idx processed res = do
    x ← u64_at src byte_idx
    read_more left (byte_idx + 8) (processed + 64) (bit_or res (shl w (from_u64 w x) processed))

  -- `MAX_U64S` is an argument, and at least 1.
  unfoldable pub read_uint_at : ℕ → ℕ → ℕ → ℕ → Result ℕ
  unfolding read_more u64_at
  read_uint_at max_u64s byte_idx bits_past_byte n = do
    x ← u64_at src byte_idx
    let processed = min n (56 - bits_past_byte)
    res ← read_more (max_u64s - 1) (byte_idx + 7) processed (from_u64 w (x >>> bits_past_byte))
    ok (if leb (max_u64s * 64) w then lowest_bits_fast w res n else lowest_bits w res n)

pub record BitReader : Type 0 where
  pub src : List ℕ
  pub unpadded_bit_size : ℕ
  pub stale_byte_idx : ℕ
  pub bits_past_byte : ℕ

unfoldable pub new : List ℕ → ℕ → ℕ → BitReader
new src unpadded_byte_size bits_past_byte = record {
  src = src;
  unpadded_bit_size = unpadded_byte_size * 8;
  stale_byte_idx = 0;
  bits_past_byte = bits_past_byte;
}

abbrev pub bit_idx : BitReader → ℕ
bit_idx r = r.stale_byte_idx * 8 + r.bits_past_byte

unfoldable pub byte_idx : BitReader → ℕ
byte_idx r = bit_idx r / 8

unfoldable pub aligned_byte_idx : BitReader → Result ℕ
unfolding byte_idx
aligned_byte_idx r = if r.bits_past_byte % 8 == 0 then ok (byte_idx r) else err invalid_argument

abbrev pub refill : BitReader → BitReader
refill r = record r {
  stale_byte_idx = r.stale_byte_idx + r.bits_past_byte / 8;
  bits_past_byte = r.bits_past_byte % 8;
}

abbrev pub consume : BitReader → ℕ → BitReader
consume r n = record r { bits_past_byte = r.bits_past_byte + n }

-- The slice that is read must lie in `src`, or the slicing panics.
unfoldable pub read_aligned_bytes : BitReader → ℕ → Result (List ℕ × BitReader)
unfolding aligned_byte_idx
read_aligned_bytes r n = do
  byte_idx ← aligned_byte_idx r
  let new_byte_idx = byte_idx + n
  let r' = record r { stale_byte_idx = new_byte_idx; bits_past_byte = 0 }
  (if leb new_byte_idx (length r.src) then ok (take n (drop byte_idx r.src), r') else panic)

-- `read_uint::<U>` for a type of `w` bits, whose MAX_U64S is `calc_max_u64s w`.
unfoldable pub read_uint : ℕ → BitReader → ℕ → Result (ℕ × BitReader)
unfolding calc_max_u64s read_uint_at
read_uint w r n = do
  let r' = refill r
  let max_u64s = calc_max_u64s w
  res ←
      (if max_u64s == 0
        then panic
        else read_uint_at w r'.src max_u64s r'.stale_byte_idx r'.bits_past_byte n)
  ok (res, consume r' n)

unfoldable pub read_usize : BitReader → ℕ → Result (ℕ × BitReader)
read_usize = read_uint 64

unfoldable pub read_bitlen : BitReader → ℕ → Result (ℕ × BitReader)
read_bitlen = read_uint 32

unfoldable pub read_bool : BitReader → Result (Bool × BitReader)
read_bool r = do (x, r') ← read_uint 32 r 1; ok (ltb 0 x, r')

unfoldable pub bit_idx_safe : BitReader → Result ℕ
bit_idx_safe r =
    if ltb r.unpadded_bit_size (bit_idx r) then err insufficient_data else ok (bit_idx r)

unfoldable pub check_in_bounds : BitReader → Result (Unit {0})
unfolding bit_idx_safe
check_in_bounds r = do i ← bit_idx_safe r; ok tt

-- Seeks to the end of the byte, which must be empty; the second part follows `refill`.
unfoldable pub drain_byte : BitReader → Result BitReader
drain_byte r = do
  byte ← index r.src r.stale_byte_idx
  (if ltb 0 (byte >>> r.bits_past_byte)
      then err corruption
      else ok (consume r (8 - r.bits_past_byte)))

unfoldable pub drain_empty_byte : BitReader → Result BitReader
unfolding check_in_bounds drain_byte
drain_empty_byte r = do
  check_in_bounds r
  let r' = refill r
  (if r'.bits_past_byte == 0 then ok r' else drain_byte r')
