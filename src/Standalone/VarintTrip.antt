-- ===== src/Standalone/VarintTrip.antt =====
-- A varint of pco/src/standalone, written, finished to a whole byte, and read again.
use pcodec.Common.{
  ℕ, zero, suc, ◌+◌, ◌-◌, ◌*◌, ◌/◌, ◌%◌, ◌^◌, ◌≤◌, ◌<◌, ◌≡◌, refl, ap, ◌∙◌, arith, false, ltb,
  le→ltb, ◌==◌, ==→eq, ==→ne, Bool-cases, inl, inr, List, [], ◌∷◌, length, All,
}
use pcodec.Common.Pow.{exponent_le, pow-add, ilog2, ilog2_bounds}
use pcodec.Machine.{sub_u32}
use pcodec.Errors.{ok}
use pcodec.Slice.{index}
use pcodec.Bytes.{value}
use pcodec.Bits.{lowest_bits, lowest_bits_lem}
use pcodec.Latent.{latent_u32, latent_u64, bits}
use pcodec.BitReader.{
  BitReader, bit_idx, read_uint, refill, drain_empty_byte, drain_byte, check_in_bounds,
  bit_idx_safe,
}
use pcodec.BitReader.Reading.{advance}
use pcodec.BitWriter.{BitWriter, finish_byte}
use pcodec.BitWriter.Fields.{
  Field, IsField, IsClear, position, total_bits, write_fields, write_fields_lem,
}
use pcodec.BitWriter.Holds.{take_field, write_fields-Holds}
use pcodec.Standalone.Varint.{varint_power, write_varint, read_varint}
use native.Mathlib.Nat.{mod-eq_of_lt, div-eq_of_lt}

-- The byte that a value ends in holds nothing above the end.
byte_below :
    (src : List ℕ) (i b : ℕ)
    → i < length src
    → value src < 2 ^ (8 * i + b)
    → (y : ℕ) × (index src i ≡ ok y) × (y < 2 ^ b)
byte_below [] i b h small = absurd (omega arith)
byte_below (x ∷ xs) zero b h small =
    let e : 2 ^ (8 * 0 + b) ≡ 2 ^ b = ap (λ k. 2 ^ k) (omega arith) in
    (x, refl, omega (arith, e, small))
byte_below (x ∷ xs) (suc i) b h small =
    let e : 2 ^ (8 * suc i + b) ≡ 256 * 2 ^ (8 * i + b) =
      ap (λ k. 2 ^ k) {x = 8 * suc i + b} {y = 8 + (8 * i + b)} (omega arith)
      ∙ pow-add 8 (8 * i + b) in
    byte_below xs i b (omega arith) (omega (arith, e, small))

drain_empty_byte_lem :
    (r : BitReader)
    → value r.src < 2 ^ bit_idx r
    → bit_idx r / 8 < length r.src
    → bit_idx r ≤ r.unpadded_bit_size
    → (r' : BitReader) × (drain_empty_byte r ≡ ok r') × (bit_idx r' ≡ 8 * ((bit_idx r + 7) / 8))
unfolding drain_empty_byte drain_byte check_in_bounds bit_idx_safe
drain_empty_byte_lem r small room inside = elim (Bool-cases (b == 0)) [
  | inl e ↦ (refill r, rw (in_bounds, e) refl, omega (arith, ==→eq b 0 e))
  | inr ne ↦
      let (y, found, y-lt) = byte_below r.src i b (omega (arith, room)) (rw same small) in
      let shifted : ltb 0 (y / 2 ^ b) ≡ false =
        le→ltb 0 (y / 2 ^ b) (omega (arith, div-eq_of_lt y-lt)) in
      (
        record (refill r) { bits_past_byte = b + (8 - b) },
        rw (in_bounds, ne, found, shifted) refl,
        omega (arith, ==→ne b 0 ne, pos_of_ne ne),
      )
]
  where
    i : ℕ
    i = r.stale_byte_idx + r.bits_past_byte / 8

    b : ℕ
    b = r.bits_past_byte % 8

    same : 8 * i + b ≡ bit_idx r
    same = omega arith

    in_bounds : ltb r.unpadded_bit_size (bit_idx r) ≡ false
    in_bounds = le→ltb r.unpadded_bit_size (bit_idx r) inside

    pos_of_ne : (b == 0) ≡ false → 0 < b
    pos_of_ne ne = let h = ==→ne b 0 ne in ground arith

varint_power_lem :
    (n : ℕ) → n < 2 ^ 64 → (1 ≤ varint_power n) × (varint_power n ≤ 64) × (n < 2 ^ varint_power n)
unfolding varint_power
varint_power_lem n h = elim (Bool-cases (n == 0)) [
  | inl e ↦ rw e (omega arith, omega arith, omega (arith, ==→eq n 0 e))
  | inr ne ↦
      let positive : 0 < n = let d = ==→ne n 0 ne in ground arith in
      let (low, high) = ilog2_bounds n positive in
      let log-le : ilog2 n ≤ 63 = exponent_le (ilog2 n) 63 (omega (arith, low, h)) in
      rw ne (omega arith, omega arith, omega (arith, high, pow-add (ilog2 n) 1))
]

abbrev varint_fields : ℕ → List Field
varint_fields n =
    record { type = latent_u32; n_bits = 6; val = varint_power n - 1 }
    ∷ record { type = latent_u64; n_bits = varint_power n; val = n }
    ∷ []

varint_fields-IsField : (n : ℕ) → n < 2 ^ 64 → All IsField (varint_fields n)
unfolding bits
varint_fields-IsField n h =
    let (low, high, fits) = varint_power_lem n h in
    (
      record { fits = omega arith; small = omega (arith, low, high) },
      (record { fits = high; small = fits }, tt),
    )

write_varint_lem :
    (n : ℕ) (wr : BitWriter) → n < 2 ^ 64 → write_fields wr (varint_fields n) ≡ write_varint n wr
unfolding write_fields write_varint bits
write_varint_lem n wr h =
    let (low, high, fits) = varint_power_lem n h in
    let whole : lowest_bits 64 n (varint_power n) ≡ n =
      lowest_bits_lem 64 n (varint_power n) h ∙ mod-eq_of_lt fits in
    let less : sub_u32 (varint_power n) 1 ≡ varint_power n - 1 = ground (arith, low, high) in
    rw (whole, less) refl

-- A number of 64 bits, written as a varint behind what a writer holds and finished to a whole byte,
-- is read again by a reader at the same position whose source has the size of the buffer at least,
-- without an error or a panic: the reader gets the number, finds the rest of the byte empty, and
-- stops where the writer stopped. It needs a buffer that is clear from the writer's position on,
-- with the padding that the reader and the writer touch.
pub write_varint-read_varint :
    (n : ℕ) (wr : BitWriter) (r : BitReader)
    → n < 2 ^ 64
    → IsClear wr
    → (position wr + 70) / 8 + 15 ≤ length wr.buf
    → bit_idx r ≡ position wr
    → 8 * length wr.buf ≤ r.unpadded_bit_size
    → (out : BitWriter) × (r' : BitReader) × (write_varint n wr ≡ ok out)
      × (read_varint (record r { src = out.buf }) ≡ ok (n, r'))
      × (bit_idx r' ≡ position (finish_byte out))
unfolding read_varint finish_byte
write_varint-read_varint n wr r h clear room same inside =
    let (low, high, fits) = varint_power_lem n h in
    let fields = varint_fields-IsField n h in
    let space : (position wr + total_bits (varint_fields n)) / 8 + 15 ≤ length wr.buf =
      omega (arith, room, high) in
    let w = write_fields_lem wr (varint_fields n) clear fields space in
    let start : BitReader = record r { src = w.out.buf } in
    let power =
      take_field start (record { type = latent_u32; n_bits = 6; val = varint_power n - 1 }) _
        (write_fields-Holds wr r (varint_fields n) clear fields space same w) in
    let num =
      take_field (advance start 6) (record { type = latent_u64; n_bits = varint_power n; val = n })
        [] power.rest in
    let power_read : read_uint 32 start 6 ≡ ok (varint_power n - 1, advance start 6) =
      unfold bits in power.reads in
    let num_read : read_uint 64 (advance start 6) (varint_power n)
        ≡ ok (n, advance (advance start 6) (varint_power n)) =
      unfold bits in num.reads in
    let end = advance (advance start 6) (varint_power n) in
    let at_end : bit_idx end ≡ position w.out =
      omega (arith, num.moved, power.moved, w.moved, same) in
    let (r', drained, stops) =
      drain_empty_byte_lem end (rw at_end w.is_clear.clear)
        (omega (arith, at_end, w.moved, w.same_length, room, high))
        (omega (arith, at_end, w.moved, room, high, inside)) in
    let back : 1 + (varint_power n - 1) ≡ varint_power n = omega (arith, low) in
    (
      w.out,
      r',
      rw (← write_varint_lem n wr h) w.returns,
      rw (power_read, back, num_read, drained) refl,
      omega (arith, stops, at_end),
    )
