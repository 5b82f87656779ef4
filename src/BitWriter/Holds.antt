-- ===== src/BitWriter/Holds.antt =====
-- Fields that lie in the source of a reader of pco/src/bit_reader.rs, one after the other from its
-- position on, read one by one.
use pcodec.Common.{
  ℕ, ◌+◌, ◌*◌, ◌/◌, ◌%◌, ◌^◌, ◌≤◌, ◌<◌, ◌≡◌, sym, ap, ◌∙◌, arith, List, [], ◌∷◌, length, All,
}
use pcodec.Common.Pow.{pow-add, mod-mod-pow, mod-div-pow, div-div-pow, mod_of_eq, div_of_eq}
use pcodec.Errors.{ok}
use pcodec.Bytes.{value, IsBytes}
use pcodec.Latent.{bits}
use pcodec.BitReader.{BitReader, bit_idx, read_uint}
use pcodec.BitReader.Reading.{bits_at, advance, read_uint_lem}
use pcodec.BitWriter.{BitWriter}
use pcodec.BitWriter.Fields.{Field, IsField, IsClear, position, total_bits, packed, WroteFields}
use native.Mathlib.Nat.{mod-eq_of_lt, mul-le-mul_left}

pub record Holds (r : BitReader) (fs : List Field) : Type 0 where
  pub is_bytes : IsBytes r.src
  pub fields : All IsField fs
  pub room : (bit_idx r + total_bits fs) / 8 + 15 ≤ length r.src
  pub here : bits_at (value r.src) (bit_idx r) (total_bits fs) ≡ packed fs

-- Reading the first field leaves a reader that holds the others.
pub record Took (r : BitReader) (f : Field) (fs : List Field) : Type 0 where
  pub reads : read_uint (bits f.type) r f.n_bits ≡ ok (f.val, advance r f.n_bits)
  pub moved : bit_idx (advance r f.n_bits) ≡ bit_idx r + f.n_bits
  pub rest : Holds (advance r f.n_bits) fs

pub take_field : (r : BitReader) (f : Field) (fs : List Field) → Holds r (f ∷ fs) → Took r f fs
take_field r f fs h =
    let n : ℕ = f.n_bits in
    let v : ℕ = value r.src / 2 ^ bit_idx r in
    let hf : IsField f = h.fields.0 in
    let (reads, moved) = read_uint_lem f.type r n h.is_bytes hf.fits (omega (arith, h.room)) in
    let first : v % 2 ^ n ≡ f.val =
      sym (mod-mod-pow v n (n + total_bits fs) (omega arith))
      ∙ rw h.here (mod_of_eq (packed (f ∷ fs)) (packed fs) (2 ^ n) f.val (omega arith) hf.small) in
    let others : v / 2 ^ n % 2 ^ total_bits fs ≡ packed fs =
      sym (mod-div-pow v n (total_bits fs))
      ∙ rw h.here (div_of_eq (packed (f ∷ fs)) (packed fs) (2 ^ n) f.val (omega arith) hf.small) in
    record {
      reads = reads ∙ ap (λ x. ok (x, advance r n)) first;
      moved = moved;
      rest = record {
        is_bytes = h.is_bytes;
        fields = h.fields.1;
        room = omega (arith, moved, h.room);
        here = rw (moved, ← div-div-pow (value r.src) (bit_idx r) n) others;
      };
    }

packed-lt : (fs : List Field) → All IsField fs → packed fs < 2 ^ total_bits fs
packed-lt [] h = omega arith
packed-lt (f ∷ fs) (hf, hs) = omega (
  arith,
  hf.small,
  mul-le-mul_left (2 ^ f.n_bits) (packed-lt fs hs),
  pow-add f.n_bits (total_bits fs),
)

-- What was written is what a reader at the same position holds.
pub write_fields-Holds :
    (wr : BitWriter) (r : BitReader) (fs : List Field)
    → IsClear wr
    → All IsField fs
    → (position wr + total_bits fs) / 8 + 15 ≤ length wr.buf
    → bit_idx r ≡ position wr
    → (w : WroteFields wr fs) → Holds (record r { src = w.out.buf }) fs
write_fields-Holds wr r fs h hs room same w = record {
  is_bytes = w.is_clear.is_bytes;
  fields = hs;
  room = omega (arith, room, same, w.same_length);
  here =
      rw
        (
          same,
          w.added,
          div_of_eq (value wr.buf + 2 ^ position wr * packed fs) (packed fs) (2 ^ position wr)
              (value wr.buf) (omega arith) h.clear,
        )
        (mod-eq_of_lt (packed-lt fs hs));
}
