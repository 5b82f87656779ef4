-- ===== src/Metadata/DeltaEncodingTrip.antt =====
-- A delta encoding of pco/src/metadata/delta_encoding.rs, written and read again.
use pcodec.Common.{
  ℕ, ◌+◌, ◌/◌, ◌^◌, ◌≤◌, ◌<◌, ◌≡◌, refl, arith, Bool, false, if◌then◌else◌, ◌==◌, ltb, List, [],
  ◌∷◌, length, All, le→leb, le→ltb,
}
use pcodec.Machine.{sub_u32}
use pcodec.Errors.{ok}
use pcodec.Latent.{latent_u32, latent_u64, bits}
use pcodec.BitReader.{BitReader, bit_idx, read_usize, read_bitlen, read_bool}
use pcodec.BitReader.Reading.{advance}
use pcodec.BitWriter.{BitWriter, write_usize, write_bitlen, write_bool}
use pcodec.BitWriter.Fields.{
  Field, IsField, IsClear, position, total_bits, write_fields, write_fields_lem,
}
use pcodec.BitWriter.Holds.{Holds, take_field, write_fields-Holds}
use pcodec.Metadata.FormatVersion.{supports_delta_variants}
use pcodec.Metadata.DeltaEncoding.{
  DeltaEncoding, no_delta, consecutive, lookback, read_delta_encoding, read_variant,
  write_delta_encoding, exact_bit_size,
}

-- What the format can hold.
abbrev pub IsDeltaEncoding : DeltaEncoding → Type 0
IsDeltaEncoding no_delta = Unit
IsDeltaEncoding (consecutive config) = (1 ≤ config.order) × (config.order ≤ 7)
IsDeltaEncoding (lookback config) =
    (1 ≤ config.window_n_log)
    × (config.window_n_log ≤ 32)
    × (config.state_n_log ≤ 15)
    × (config.state_n_log ≤ config.window_n_log)

abbrev flag : Bool → ℕ
flag b = if b then 1 else 0

abbrev field_u32 : ℕ → ℕ → Field
field_u32 n val = record { type = latent_u32; n_bits = n; val = val }

abbrev pub delta_fields : DeltaEncoding → List Field
delta_fields no_delta = field_u32 4 0 ∷ []
delta_fields (consecutive config) =
    field_u32 4 1
    ∷ record { type = latent_u64; n_bits = 3; val = config.order }
    ∷ field_u32 1 (flag config.secondary_uses_delta)
    ∷ []
delta_fields (lookback config) =
    field_u32 4 2
    ∷ field_u32 5 (sub_u32 config.window_n_log 1)
    ∷ field_u32 4 config.state_n_log
    ∷ field_u32 1 (flag config.secondary_uses_delta)
    ∷ []

is_field_u32 : (n val : ℕ) → n ≤ 32 → val < 2 ^ n → IsField (field_u32 n val)
unfolding bits
is_field_u32 n val h small = record { fits = h; small = small }

flag-lt : (b : Bool) → flag b < 2 ^ 1
flag-lt b = ground arith

delta_fields-IsField : (e : DeltaEncoding) → IsDeltaEncoding e → All IsField (delta_fields e)
unfolding bits
delta_fields-IsField no_delta h = (is_field_u32 4 0 (omega arith) (omega arith), tt)
delta_fields-IsField (consecutive config) h = (
  is_field_u32 4 1 (omega arith) (omega arith),
  (
    record { fits = omega arith; small = omega arith },
    (is_field_u32 1 _ (omega arith) (flag-lt config.secondary_uses_delta), tt),
  ),
)
delta_fields-IsField (lookback config) h = (
  is_field_u32 4 2 (omega arith) (omega arith),
  (
    is_field_u32 5 _ (omega arith) (ground arith),
    (
      is_field_u32 4 config.state_n_log (omega arith) (omega arith),
      (is_field_u32 1 _ (omega arith) (flag-lt config.secondary_uses_delta), tt),
    ),
  ),
)

flag_back : (b : Bool) → ltb 0 (flag b) ≡ b
flag_back b = ground arith

window_back : (n : ℕ) → 1 ≤ n → n ≤ 32 → 1 + sub_u32 n 1 ≡ n
window_back n lo hi = ground arith

delta_fields-exact_bit_size : (e : DeltaEncoding) → total_bits (delta_fields e) ≡ exact_bit_size e
unfolding exact_bit_size
delta_fields-exact_bit_size no_delta = refl
delta_fields-exact_bit_size (consecutive config) = refl
delta_fields-exact_bit_size (lookback config) = refl

-- Writing a delta encoding is writing its fields.
write_delta_encoding_lem :
    (e : DeltaEncoding) (wr : BitWriter)
    → write_fields wr (delta_fields e) ≡ write_delta_encoding e wr
unfolding write_fields write_delta_encoding write_bitlen write_usize write_bool bits
write_delta_encoding_lem no_delta wr = refl
write_delta_encoding_lem (consecutive config) wr = refl
write_delta_encoding_lem (lookback config) wr = refl

-- Reading the fields gives the delta encoding back.
read_delta_encoding_lem :
    (e : DeltaEncoding) (version : ℕ) (r : BitReader)
    → IsDeltaEncoding e
    → 3 ≤ version
    → Holds r (delta_fields e)
    → (r' : BitReader) × (read_delta_encoding version r ≡ ok (e, r'))
      × (bit_idx r' ≡ bit_idx r + exact_bit_size e)
unfolding read_delta_encoding read_variant supports_delta_variants read_bitlen read_usize read_bool
    bits exact_bit_size
read_delta_encoding_lem no_delta version r h new holds =
    let t = take_field r (field_u32 4 0) [] holds in
    (advance r 4, rw (le→leb 3 version new, t.reads), t.moved)
read_delta_encoding_lem (consecutive config) version r h new holds =
    let variant = take_field r (field_u32 4 1) _ holds in
    let order =
      take_field (advance r 4) (record { type = latent_u64; n_bits = 3; val = config.order }) _
        variant.rest in
    let uses =
      take_field (advance (advance r 4) 3) (field_u32 1 (flag config.secondary_uses_delta)) []
        order.rest in
    let nonzero : (config.order == 0) ≡ false = ground arith in
    (
      advance (advance (advance r 4) 3) 1,
      rw (
        le→leb 3 version new,
        variant.reads,
        order.reads,
        nonzero,
        uses.reads,
        flag_back config.secondary_uses_delta,
      ),
      omega (arith, variant.moved, order.moved, uses.moved),
    )
read_delta_encoding_lem (lookback config) version r h new holds =
    let variant = take_field r (field_u32 4 2) _ holds in
    let window =
      take_field (advance r 4) (field_u32 5 (sub_u32 config.window_n_log 1)) _ variant.rest in
    let state =
      take_field (advance (advance r 4) 5) (field_u32 4 config.state_n_log) _ window.rest in
    let uses =
      take_field (advance (advance (advance r 4) 5) 4)
        (field_u32 1 (flag config.secondary_uses_delta)) [] state.rest in
    (
      advance (advance (advance (advance r 4) 5) 4) 1,
      rw (
        le→leb 3 version new,
        variant.reads,
        window.reads,
        state.reads,
        window_back config.window_n_log h.0 h.1,
        le→ltb config.window_n_log config.state_n_log h.3,
        uses.reads,
        flag_back config.secondary_uses_delta,
      ),
      omega (arith, variant.moved, window.moved, state.moved, uses.moved),
    )

-- A delta encoding within the bounds of the format, written behind what a writer holds, takes as
-- many bits as `exact_bit_size` says, without an error or a panic; a reader at the same position
-- gets the same delta encoding, and stops where the writer stopped. This is for the versions from 3
-- on. It needs a buffer that is clear from the writer's position on, with the padding that the
-- reader and the writer touch.
pub write_delta_encoding-read_delta_encoding :
    (e : DeltaEncoding) (version : ℕ) (wr : BitWriter) (r : BitReader)
    → IsDeltaEncoding e
    → 3 ≤ version
    → IsClear wr
    → (position wr + exact_bit_size e) / 8 + 15 ≤ length wr.buf
    → bit_idx r ≡ position wr
    → (out : BitWriter) × (r' : BitReader) × (write_delta_encoding e wr ≡ ok out)
      × (position out ≡ position wr + exact_bit_size e)
      × (read_delta_encoding version (record r { src = out.buf }) ≡ ok (e, r'))
      × (bit_idx r' ≡ position out)
write_delta_encoding-read_delta_encoding e version wr r h new clear room same =
    let fields = delta_fields-IsField e h in
    let size : total_bits (delta_fields e) ≡ exact_bit_size e = delta_fields-exact_bit_size e in
    let space : (position wr + total_bits (delta_fields e)) / 8 + 15 ≤ length wr.buf =
      rw size room in
    let w = write_fields_lem wr (delta_fields e) clear fields space in
    let (r', reads, moved) =
      read_delta_encoding_lem e version (record r { src = w.out.buf }) h new
        (write_fields-Holds wr r (delta_fields e) clear fields space same w) in
    (
      w.out,
      r',
      rw (← write_delta_encoding_lem e wr) w.returns,
      omega (arith, w.moved, size),
      reads,
      omega (arith, moved, same, w.moved, size),
    )
