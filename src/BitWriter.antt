-- ===== src/BitWriter.antt =====
-- pco/src/bit_writer.rs: writing unsigned integers of any bit length into a buffer, and the buffer
-- out to the destination. The destination is a vector of bytes, whose writes do not fail.
pub mod Writing
pub mod Fields
pub mod Holds
mod Tests
use pcodec.Common.{
  ℕ, zero, suc, ◌+◌, ◌-◌, ◌*◌, ◌/◌, ◌%◌, ◌^◌, if◌then◌else◌, leb, ltb, ◌==◌, ◌&&◌, min, bit_or,
  Bool, true, false, List, [], ◌∷◌, ◌++◌, length, take, drop, set, replicate,
}
use pcodec.Machine.{shl, ◌>>>◌}
use pcodec.Errors.{Result, ok, err, panic, ◌>>=◌, ◌>>◌, invalid_argument}
use pcodec.Slice.{index, assign}
use pcodec.Bytes.{to_le_bytes}
use pcodec.Bits.{calc_max_u64s}
use pcodec.BitReader.{u64_at}

-- The raw pointer is written whatever the length; a write beyond the slice is a fault.
unfoldable pub write_u64_to : ℕ → ℕ → List ℕ → Result (List ℕ)
write_u64_to x byte_idx dst =
    if leb (byte_idx + 8) (length dst)
    then ok (take byte_idx dst ++ (to_le_bytes 8 x ++ drop (byte_idx + 8) dst))
    else panic

-- The loop over the u64s after the first. `to_u64` keeps the low 64 bits.
unfoldable pub write_more : ℕ → ℕ → ℕ → ℕ → List ℕ → Result (List ℕ)
write_more zero val byte_idx processed dst = ok dst
write_more (suc left) val byte_idx processed dst = do
  dst' ← write_u64_to ((val >>> processed) % 2 ^ 64) byte_idx dst
  write_more left val (byte_idx + 8) (processed + 64) dst'

unfoldable pub write_uint_to : ℕ → ℕ → ℕ → ℕ → List ℕ → Result (List ℕ)
write_uint_to max_u64s val byte_idx bits_past_byte dst = do
  x ← u64_at dst byte_idx
  dst' ← write_u64_to (bit_or x (shl 64 (val % 2 ^ 64) bits_past_byte)) byte_idx dst
  write_more (max_u64s - 1) val (byte_idx + 7) (56 - bits_past_byte) dst'

pub record BitWriter : Type 0 where
  pub buf : List ℕ
  pub stale_byte_idx : ℕ
  pub bits_past_byte : ℕ
  pub dst : List ℕ

unfoldable pub new : List ℕ → ℕ → BitWriter
new dst size = record { buf = replicate size 0; stale_byte_idx = 0; bits_past_byte = 0; dst = dst }

abbrev pub refill : BitWriter → BitWriter
refill wr = record wr {
  stale_byte_idx = wr.stale_byte_idx + wr.bits_past_byte / 8;
  bits_past_byte = wr.bits_past_byte % 8;
}

abbrev pub consume : BitWriter → ℕ → BitWriter
consume wr n = record wr { bits_past_byte = wr.bits_past_byte + n }

unfoldable pub check_aligned : BitWriter → Result (Unit {0})
check_aligned wr = if wr.bits_past_byte % 8 == 0 then ok tt else err invalid_argument

-- The slice that is written must lie in the buffer, or the slicing panics.
unfoldable pub write_aligned_bytes : BitWriter → List ℕ → Result BitWriter
unfolding check_aligned
write_aligned_bytes wr bytes = do
  check_aligned wr
  let wr' = refill wr
  let end = length bytes + wr'.stale_byte_idx
  let buf' = take wr'.stale_byte_idx wr'.buf ++ (bytes ++ drop end wr'.buf)
  (if leb end (length wr'.buf) then ok (record wr' { buf = buf'; stale_byte_idx = end }) else panic)

-- `write_uint::<U>` for a type of `w` bits, whose MAX_U64S is `calc_max_u64s w`.
unfoldable pub write_uint : ℕ → BitWriter → ℕ → ℕ → Result BitWriter
unfolding calc_max_u64s
write_uint w wr x n = do
  let wr' = refill wr
  let max_u64s = calc_max_u64s w
  buf' ←
      (if max_u64s == 0
        then panic
        else write_uint_to max_u64s x wr'.stale_byte_idx wr'.bits_past_byte wr'.buf)
  ok (consume (record wr' { buf = buf' }) n)

unfoldable pub write_usize : BitWriter → ℕ → ℕ → Result BitWriter
write_usize = write_uint 64

unfoldable pub write_bitlen : BitWriter → ℕ → ℕ → Result BitWriter
write_bitlen = write_uint 32

unfoldable pub write_bool : BitWriter → Bool → Result BitWriter
write_bool wr b = write_uint 32 wr (if b then 1 else 0) 1

unfoldable pub finish_byte : BitWriter → BitWriter
finish_byte wr = record wr {
  stale_byte_idx = wr.stale_byte_idx + (wr.bits_past_byte + 7) / 8;
  bits_past_byte = 0;
}

unfoldable pub move_byte : ℕ → List ℕ → Result (List ℕ)
move_byte n_bytes buf = do byte ← index buf n_bytes; buf' ← assign buf 0 byte; assign buf' n_bytes 0

-- The partially written byte behind the bytes that go out is kept at the front.
unfoldable pub keep_partial : ℕ → ℕ → List ℕ → Result (List ℕ)
unfolding move_byte
keep_partial n_bytes bits_past_byte buf =
    if ltb 0 n_bytes && ltb 0 bits_past_byte then move_byte n_bytes buf else ok buf

unfoldable pub flush : BitWriter → Result BitWriter
unfolding keep_partial
flush wr = do
  let wr' = refill wr
  let n_bytes = wr'.stale_byte_idx
  let out = take n_bytes wr'.buf
  let cleared = replicate n_bytes 0 ++ drop n_bytes wr'.buf
  buf' ←
      (if leb n_bytes (length wr'.buf)
        then keep_partial n_bytes wr'.bits_past_byte cleared
        else panic)
  ok (record wr' { dst = wr'.dst ++ out; buf = buf'; stale_byte_idx = 0 })
