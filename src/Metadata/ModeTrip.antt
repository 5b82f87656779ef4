-- ===== src/Metadata/ModeTrip.antt =====
-- A mode of pco/src/metadata/mode.rs, written and read again.
use pcodec.Common.{
  ℕ, ◌+◌, ◌/◌, ◌^◌, ◌≤◌, ◌<◌, ◌≡◌, refl, arith, false, ◌==◌, List, [], ◌∷◌, length, All,
}
use pcodec.Errors.{ok}
use pcodec.Latent.{LatentType, latent_u32, bits}
use pcodec.BitReader.{BitReader, bit_idx, read_bitlen}
use pcodec.BitReader.Reading.{advance}
use pcodec.BitWriter.{BitWriter, write_bitlen}
use pcodec.BitWriter.Fields.{
  Field, IsField, IsClear, position, total_bits, write_fields, write_fields_lem,
}
use pcodec.BitWriter.Holds.{Holds, take_field, write_fields-Holds}
use pcodec.Metadata.FormatVersion.{used_old_gcds}
use pcodec.Metadata.Mode.{
  DynLatent, Mode, classic, int_mult, float_mult, float_quant, read_mode, read_mode_variant,
  read_uncompressed, write_mode, write_uncompressed, mode_exact_bit_size,
}

abbrev IsDynLatent : LatentType → DynLatent → Type 0
IsDynLatent t l = (l.type ≡ t) × (l.latent < 2 ^ bits l.type)

-- What a chunk of numbers of a type can hold.
abbrev pub IsMode : LatentType → Mode → Type 0
IsMode t classic = Unit
IsMode t (int_mult base) = IsDynLatent t base
IsMode t (float_mult base) = IsDynLatent t base
IsMode t (float_quant k) = k < 256

abbrev field_u32 : ℕ → ℕ → Field
field_u32 n val = record { type = latent_u32; n_bits = n; val = val }

abbrev field_dyn : DynLatent → Field
field_dyn l = record { type = l.type; n_bits = bits l.type; val = l.latent }

abbrev pub mode_fields : Mode → List Field
mode_fields classic = field_u32 4 0 ∷ []
mode_fields (int_mult base) = field_u32 4 1 ∷ field_dyn base ∷ []
mode_fields (float_mult base) = field_u32 4 2 ∷ field_dyn base ∷ []
mode_fields (float_quant k) = field_u32 4 3 ∷ field_u32 8 k ∷ []

is_field_u32 : (n val : ℕ) → n ≤ 32 → val < 2 ^ n → IsField (field_u32 n val)
unfolding bits
is_field_u32 n val h small = record { fits = h; small = small }

mode_fields-IsField : (t : LatentType) (m : Mode) → IsMode t m → All IsField (mode_fields m)
mode_fields-IsField t classic h = (is_field_u32 4 0 (omega arith) (omega arith), tt)
mode_fields-IsField t (int_mult base) h =
    (is_field_u32 4 1 (omega arith) (omega arith), (record { fits = omega arith; small = h.1 }, tt))
mode_fields-IsField t (float_mult base) h =
    (is_field_u32 4 2 (omega arith) (omega arith), (record { fits = omega arith; small = h.1 }, tt))
mode_fields-IsField t (float_quant k) h =
    (is_field_u32 4 3 (omega arith) (omega arith), (is_field_u32 8 k (omega arith) h, tt))

mode_fields-mode_exact_bit_size : (m : Mode) → total_bits (mode_fields m) ≡ mode_exact_bit_size m
unfolding mode_exact_bit_size
mode_fields-mode_exact_bit_size classic = refl
mode_fields-mode_exact_bit_size (int_mult base) = omega arith
mode_fields-mode_exact_bit_size (float_mult base) = omega arith
mode_fields-mode_exact_bit_size (float_quant k) = refl

write_mode_lem : (m : Mode) (wr : BitWriter) → write_fields wr (mode_fields m) ≡ write_mode m wr
unfolding write_fields write_mode write_uncompressed write_bitlen bits
write_mode_lem classic wr = refl
write_mode_lem (int_mult base) wr = refl
write_mode_lem (float_mult base) wr = refl
write_mode_lem (float_quant k) wr = refl

take_bitlen :
    (r : BitReader) (n val : ℕ) (fs : List Field)
    → Holds r (field_u32 n val ∷ fs)
    → read_bitlen r n ≡ ok (val, advance r n)
unfolding read_bitlen bits
take_bitlen r n val fs h = (take_field r (field_u32 n val) fs h).reads

read_mode_lem :
    (t : LatentType) (m : Mode) (version : ℕ) (r : BitReader)
    → IsMode t m
    → 1 ≤ version
    → Holds r (mode_fields m)
    → (r' : BitReader) × (read_mode version t r ≡ ok (m, r'))
      × (bit_idx r' ≡ bit_idx r + total_bits (mode_fields m))
unfolding read_mode read_mode_variant used_old_gcds read_uncompressed
read_mode_lem t classic version r h new holds =
    let tag = take_field r (field_u32 4 0) [] holds in
    (advance r 4, rw (take_bitlen r 4 0 [] holds), tag.moved)
read_mode_lem t (int_mult base) version r (same, small) new holds =
    let tag = take_field r (field_u32 4 1) _ holds in
    let latent = take_field (advance r 4) (field_dyn base) [] tag.rest in
    let later : (version == 0) ≡ false = ground arith in
    (
      advance (advance r 4) (bits base.type),
      rw (take_bitlen r 4 1 _ holds, later, ← same, latent.reads),
      omega (arith, tag.moved, latent.moved),
    )
read_mode_lem t (float_mult base) version r (same, small) new holds =
    let tag = take_field r (field_u32 4 2) _ holds in
    let latent = take_field (advance r 4) (field_dyn base) [] tag.rest in
    (
      advance (advance r 4) (bits base.type),
      rw (take_bitlen r 4 2 _ holds, ← same, latent.reads),
      omega (arith, tag.moved, latent.moved),
    )
read_mode_lem t (float_quant k) version r h new holds =
    let tag = take_field r (field_u32 4 3) _ holds in
    let quantize = take_field (advance r 4) (field_u32 8 k) [] tag.rest in
    (
      advance (advance r 4) 8,
      rw (take_bitlen r 4 3 _ holds, take_bitlen (advance r 4) 8 k [] tag.rest),
      omega (arith, tag.moved, quantize.moved),
    )

-- A mode whose base is a latent of the type of the numbers, or whose k is below 256, written behind
-- what a writer holds, takes as many bits as `exact_bit_size` says, without an error or a panic; a
-- reader at the same position gets the same mode, and stops where the writer stopped. This is for
-- the versions from 1 on. It needs a buffer that is clear from the writer's position on, with the
-- padding that the reader and the writer touch.
pub write_mode-read_mode :
    (t : LatentType) (m : Mode) (version : ℕ) (wr : BitWriter) (r : BitReader)
    → IsMode t m
    → 1 ≤ version
    → IsClear wr
    → (position wr + mode_exact_bit_size m) / 8 + 15 ≤ length wr.buf
    → bit_idx r ≡ position wr
    → (out : BitWriter) × (r' : BitReader) × (write_mode m wr ≡ ok out)
      × (position out ≡ position wr + mode_exact_bit_size m)
      × (read_mode version t (record r { src = out.buf }) ≡ ok (m, r'))
      × (bit_idx r' ≡ position out)
write_mode-read_mode t m version wr r h new clear room same =
    let fields = mode_fields-IsField t m h in
    let size = mode_fields-mode_exact_bit_size m in
    let space : (position wr + total_bits (mode_fields m)) / 8 + 15 ≤ length wr.buf =
      rw size room in
    let w = write_fields_lem wr (mode_fields m) clear fields space in
    let (r', reads, moved) =
      read_mode_lem t m version (record r { src = w.out.buf }) h new
        (write_fields-Holds wr r (mode_fields m) clear fields space same w) in
    (
      w.out,
      r',
      rw (← write_mode_lem m wr) w.returns,
      omega (arith, w.moved, size),
      reads,
      omega (arith, moved, same, w.moved),
    )
