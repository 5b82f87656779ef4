-- ===== src/BitWriter/Fields.antt =====
-- What pco/src/bit_writer.rs writes, field after field, is what pco/src/bit_reader.rs reads.
use pcodec.Common.{
  ℕ, suc, ◌+◌, ◌*◌, ◌/◌, ◌%◌, ◌^◌, ◌≤◌, ◌<◌, ◌≡◌, refl, ap, ◌∙◌, arith, List, [], ◌∷◌, length, map,
  All, ◌==◌, false,
}
use pcodec.Common.Pow.{pow-add, mod_of_eq, div_of_eq, div-div-pow}
use pcodec.Errors.{Result, ok, ◌>>=◌}
use pcodec.Bytes.{value, IsBytes}
use pcodec.Latent.{LatentType, latent_u16, latent_u32, latent_u64, bits}
use pcodec.BitReader.{BitReader, bit_idx, read_uint}
use pcodec.BitReader.Reading.{bits_at, advance, read_uint_lem}
use pcodec.BitWriter.{BitWriter, write_uint, write_uint_to, refill, consume}
use pcodec.BitWriter.Writing.{Written, write_uint_to_one, write_uint_to_two}
use pcodec.Bits.{calc_max_u64s}
use native.Mathlib.Nat.{mul-le-mul_right}

-- A number of one of the unsigned types, and the bits it is written with.
pub record Field : Type 0 where
  pub type : LatentType
  pub n_bits : ℕ
  pub val : ℕ

pub record IsField (f : Field) : Type 0 where
  pub fits : f.n_bits ≤ bits f.type
  pub small : f.val < 2 ^ f.n_bits

abbrev pub position : BitWriter → ℕ
position wr = 8 * wr.stale_byte_idx + wr.bits_past_byte

-- The buffer holds bytes, and nothing stands at the position or behind it.
pub record IsClear (wr : BitWriter) : Type 0 where
  pub is_bytes : IsBytes wr.buf
  pub clear : value wr.buf < 2 ^ position wr

pub record WroteField (wr : BitWriter) (f : Field) : Type 0 where
  pub out : BitWriter
  pub returns : write_uint (bits f.type) wr f.val f.n_bits ≡ ok out
  pub moved : position out ≡ position wr + f.n_bits
  pub same_length : length out.buf ≡ length wr.buf
  pub added : value out.buf ≡ value wr.buf + f.val * 2 ^ position wr
  pub is_clear : IsClear out

suc-==_zero : (k : ℕ) → (suc k == 0) ≡ false
suc-==_zero k = ground arith

module _ (wr : BitWriter) (val n : ℕ) (h : IsClear wr) (small : val < 2 ^ n)
    (room : position wr / 8 + 15 ≤ length wr.buf) where
  abbrev i : ℕ
  i = wr.stale_byte_idx + wr.bits_past_byte / 8

  abbrev b : ℕ
  b = wr.bits_past_byte % 8

  same_position : 8 * i + b ≡ position wr
  same_position = omega arith

  clear_here : value wr.buf < 2 ^ (8 * i + b)
  clear_here = rw same_position h.clear

  -- The value ends where the new position is.
  end_clear : value wr.buf + val * 2 ^ position wr < 2 ^ (position wr + n)
  end_clear =
      omega (arith, h.clear, pow-add (position wr) n, mul-le-mul_right (2 ^ position wr) small)

  from_Written :
      (t : LatentType) (k : ℕ)
      → calc_max_u64s (bits t) ≡ suc k
      → Written wr.buf (value wr.buf + val * 2 ^ (8 * i + b)) (write_uint_to (suc k) val i b wr.buf)
      → WroteField wr (record { type = t; n_bits = n; val = val })
  unfolding write_uint
  from_Written t k e w =
      let total : value w.out ≡ value wr.buf + val * 2 ^ position wr =
        w.total_value ∙ ap (λ m. value wr.buf + val * 2 ^ m) same_position in
      let moved : 8 * i + (b + n) ≡ position wr + n = omega (arith, same_position) in
      record {
        out = record (consume (refill wr) n) { buf = w.out };
        returns = rw (e, w.returns, suc-==_zero k);
        moved = moved;
        same_length = w.same_length;
        added = total;
        is_clear = record { is_bytes = w.bytes; clear = rw (total, moved) end_clear };
      }

  write_uint_lem :
      (t : LatentType) → n ≤ bits t → WroteField wr (record { type = t; n_bits = n; val = val })
  unfolding bits calc_max_u64s
  write_uint_lem latent_u16 fits = from_Written latent_u16 0 refl (
      write_uint_to_one val i b n wr.buf h.is_bytes (omega arith) small clear_here (omega arith)
        (omega arith))
  write_uint_lem latent_u32 fits = from_Written latent_u32 0 refl (
      write_uint_to_one val i b n wr.buf h.is_bytes (omega arith) small clear_here (omega arith)
        (omega arith))
  write_uint_lem latent_u64 fits = from_Written latent_u64 1 refl (
      write_uint_to_two val i b n wr.buf h.is_bytes (omega arith) small clear_here fits
        (omega arith))

abbrev pub total_bits : List Field → ℕ
total_bits [] = 0
total_bits (f ∷ fs) = f.n_bits + total_bits fs

-- The fields as one number, the first one lowest.
abbrev pub packed : List Field → ℕ
packed [] = 0
packed (f ∷ fs) = f.val + 2 ^ f.n_bits * packed fs

unfoldable pub write_fields : BitWriter → List Field → Result BitWriter
write_fields wr [] = ok wr
write_fields wr (f ∷ fs) = do wr' ← write_uint (bits f.type) wr f.val f.n_bits; write_fields wr' fs

-- Reads what the types and the bits of the fields say, and not their values.
unfoldable pub read_fields : BitReader → List Field → Result (List ℕ × BitReader)
read_fields r [] = ok ([], r)
read_fields r (f ∷ fs) = do
  (x, r') ← read_uint (bits f.type) r f.n_bits
  (xs, r'') ← read_fields r' fs
  ok (x ∷ xs, r'')

pub record WroteFields (wr : BitWriter) (fs : List Field) : Type 0 where
  pub out : BitWriter
  pub returns : write_fields wr fs ≡ ok out
  pub moved : position out ≡ position wr + total_bits fs
  pub same_length : length out.buf ≡ length wr.buf
  pub added : value out.buf ≡ value wr.buf + 2 ^ position wr * packed fs
  pub is_clear : IsClear out

pub write_fields_lem :
    (wr : BitWriter) (fs : List Field)
    → IsClear wr
    → All IsField fs
    → (position wr + total_bits fs) / 8 + 15 ≤ length wr.buf
    → WroteFields wr fs
unfolding write_fields
write_fields_lem wr [] h hs room = record {
  out = wr;
  returns = refl;
  moved = omega arith;
  same_length = refl;
  added = omega arith;
  is_clear = h;
}
write_fields_lem wr (f ∷ fs) h (hf, hs) room =
    let w = write_uint_lem wr f.val f.n_bits h hf.small (omega arith) f.type hf.fits in
    let rest = write_fields_lem w.out fs w.is_clear hs (omega (arith, w.moved, w.same_length)) in
    record {
      out = rest.out;
      returns = rw (w.returns, rest.returns);
      moved = omega (arith, rest.moved, w.moved);
      same_length = rest.same_length ∙ w.same_length;
      added =
          rest.added
          ∙ rw (w.moved, w.added)
              (omega (arith, ap (λ (t : ℕ). t * packed fs) (pow-add (position wr) f.n_bits)));
      is_clear = rest.is_clear;
    }

-- Fields that start at the reader's position, under bits that were there before.
read_fields_lem :
    (r : BitReader) (fs : List Field)
    → IsBytes r.src
    → All IsField fs
    → (bit_idx r + total_bits fs) / 8 + 15 ≤ length r.src
    → value r.src / 2 ^ bit_idx r ≡ packed fs
    → (r' : BitReader) × (read_fields r fs ≡ ok (map Field.val fs, r'))
      × (bit_idx r' ≡ bit_idx r + total_bits fs)
unfolding read_fields
read_fields_lem r [] h hs room e = (r, refl, omega arith)
read_fields_lem r (f ∷ fs) h (hf, hs) room e =
    let (reads, moved) = read_uint_lem f.type r f.n_bits h hf.fits (omega arith) in
    let here : bits_at (value r.src) (bit_idx r) f.n_bits ≡ f.val =
      rw e (mod_of_eq (packed (f ∷ fs)) (packed fs) (2 ^ f.n_bits) f.val (omega arith) hf.small) in
    let next : value r.src / 2 ^ bit_idx (advance r f.n_bits) ≡ packed fs =
      rw (moved, ← div-div-pow (value r.src) (bit_idx r) f.n_bits, e)
        (div_of_eq (packed (f ∷ fs)) (packed fs) (2 ^ f.n_bits) f.val (omega arith) hf.small) in
    let (r', rest, end) =
      read_fields_lem (advance r f.n_bits) fs h hs (omega (arith, moved)) next in
    (r', rw (reads, rest) (ap (λ x. ok (x ∷ map Field.val fs, r')) here), omega (arith, moved, end))

-- A writer on a buffer that is clear from its position on, with padding behind the fields, takes a
-- list of fields, of mixed types and bit lengths, without an error or a panic; a reader at the
-- position where the writer stood then returns the numbers that were written, and stops where the
-- writer stopped. What stood before that position stays: the buffer grows by the fields, packed
-- lowest first from that position.
pub write_fields-read_fields :
    (wr : BitWriter) (r : BitReader) (fs : List Field)
    → IsClear wr
    → All IsField fs
    → (position wr + total_bits fs) / 8 + 15 ≤ length wr.buf
    → bit_idx r ≡ position wr
    → (out : BitWriter) × (r' : BitReader) × (write_fields wr fs ≡ ok out)
      × (value out.buf ≡ value wr.buf + 2 ^ position wr * packed fs)
      × (read_fields (record r { src = out.buf }) fs ≡ ok (map Field.val fs, r'))
      × (bit_idx r' ≡ position out)
write_fields-read_fields wr r fs h hs room same =
    let w = write_fields_lem wr fs h hs room in
    let start : value w.out.buf / 2 ^ bit_idx r ≡ packed fs =
      rw (same, w.added)
        (div_of_eq (value wr.buf + 2 ^ position wr * packed fs) (packed fs) (2 ^ position wr)
          (value wr.buf) (omega arith) h.clear) in
    let (r', reads, end) =
      read_fields_lem (record r { src = w.out.buf }) fs w.is_clear.is_bytes hs
        (omega (arith, same, w.same_length)) start in
    (w.out, r', w.returns, w.added, reads, omega (arith, end, same, w.moved))
