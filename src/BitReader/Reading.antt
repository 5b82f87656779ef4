-- ===== src/BitReader/Reading.antt =====
-- What pco/src/bit_reader.rs reads: the bits at the reader's position, whatever the byte alignment.
use pcodec.Common.{
  ℕ, ◌+◌, ◌-◌, ◌*◌, ◌/◌, ◌%◌, ◌^◌, ◌≤◌, ◌<◌, ◌≡◌, sym, ap, ◌∙◌, arith, min, bit_or, leb, le→leb,
  List, length, drop, Bool-cases, tests, inl, inr,
}
use pcodec.Common.Pow.{two-pow-pos, pow_mono, mod-mod-pow, mod-div-pow, div-div-pow, mod-mul-mod}
use pcodec.Common.Bitwise.{bit_or-mod, bit_or_overlap, bit_or-lt}
use pcodec.Errors.{ok}
use pcodec.Bytes.{value, IsBytes, value-take, value-drop, drop-IsBytes}
use pcodec.Bits.{lowest_bits_lem, lowest_bits_fast_lem}
use pcodec.Latent.{from_u64, LatentType, latent_u16, latent_u32, latent_u64, bits}
use pcodec.BitReader.{u64_at, read_uint_at, BitReader, bit_idx, read_uint, refill, consume}
use native.Mathlib.Nat.{mod-mod, mod-lt, mul-mod_left, mod-eq_of_lt}

-- `n` bits of a number, from the bit `pos` on.
abbrev pub bits_at : ℕ → ℕ → ℕ → ℕ
bits_at v pos n = v / 2 ^ pos % 2 ^ n

pub u64_at_lem :
    (src : List ℕ) (i : ℕ)
    → IsBytes src
    → i + 8 ≤ length src
    → u64_at src i ≡ ok (bits_at (value src) (8 * i) 64)
unfolding u64_at
u64_at_lem src i h b = rw (
  le→leb (i + 8) (length src) b,
  value-take 8 (drop i src) (drop-IsBytes i src h),
  value-drop i src h,
)

module _ (w : ℕ) (src : List ℕ) (bytes : IsBytes src) (i b n : ℕ) (aligned : b < 8)
    (fits : n ≤ w) where
  abbrev y : ℕ
  y = value src / 2 ^ (8 * i + b)

  -- The first u64, shifted: the low bits of what is to be read.
  first_u64 : bits_at (value src) (8 * i) 64 / 2 ^ b ≡ y % 2 ^ (64 - b)
  first_u64 =
      let e : 64 ≡ b + (64 - b) = omega arith in
      ap (λ m. value src / 2 ^ (8 * i) % 2 ^ m / 2 ^ b) e
      ∙ mod-div-pow (value src / 2 ^ (8 * i)) b (64 - b)
      ∙ ap (λ v. v % 2 ^ (64 - b)) (div-div-pow (value src) (8 * i) b)

  -- One u64 is enough for up to 57 bits, on every type.
  pub read_uint_at_one :
      n ≤ 57
      → i + 8 ≤ length src
      → read_uint_at w src 1 i b n ≡ ok (bits_at (value src) (8 * i + b) n)
  unfolding read_uint_at from_u64
  read_uint_at_one small room =
      rw (u64_at_lem src i bytes room, first_u64)
        elim (Bool-cases (leb 64 w)) [
          | inl wide ↦ rw (wide, lowest_bits_fast_lem w _ n (omega tests)) (ap ok cut)
          | inr narrow ↦
              rw (narrow, lowest_bits_lem w _ n (mod-lt (y % 2 ^ (64 - b)) (two-pow-pos w)))
                (ap ok cut)
        ]
    where
      cut : y % 2 ^ (64 - b) % 2 ^ w % 2 ^ n ≡ y % 2 ^ n
      cut = mod-mod-pow (y % 2 ^ (64 - b)) n w fits ∙ mod-mod-pow y n (64 - b) (omega arith)

module _ (src : List ℕ) (bytes : IsBytes src) (i b n : ℕ) (aligned : b < 8) (fits : n ≤ 64) where
  abbrev z : ℕ
  z = value src / 2 ^ (8 * i + b)

  abbrev processed : ℕ
  processed = min n (56 - b)

  -- The second u64 starts 7 bytes on, and its shift brings it over what is still to be read.
  abbrev second : ℕ
  second = bits_at (value src) (8 * (i + 7)) 64 % 2 ^ 64 * 2 ^ processed % 2 ^ 64

  short : n ≤ 56 - b → second % 2 ^ n ≡ z / 2 ^ processed * 2 ^ processed % 2 ^ n
  short h =
      let e : processed ≡ n = omega arith in
      rw (
        e,
        mod-mod-pow (bits_at (value src) (8 * (i + 7)) 64 % 2 ^ 64 * 2 ^ n) n 64 fits,
        mul-mod_left _ (2 ^ n),
        mul-mod_left _ (2 ^ n),
      )

  long : 56 - b ≤ n → second % 2 ^ n ≡ z / 2 ^ processed * 2 ^ processed % 2 ^ n
  long h =
      let e : 8 * (i + 7) ≡ 8 * i + b + processed = omega arith in
      rw
        (
          e,
          ← div-div-pow (value src) (8 * i + b) processed,
          mod-mod,
          mod-mul-mod (z / 2 ^ processed) (2 ^ 64) (2 ^ processed),
        )
        (mod-mod-pow (z / 2 ^ processed * 2 ^ processed) n 64 fits)

  second_u64 : second % 2 ^ n ≡ z / 2 ^ processed * 2 ^ processed % 2 ^ n
  second_u64 = elim (Bool-cases (leb n (56 - b))) [
    | inl h ↦ short (omega tests)
    | inr h ↦ long (omega tests)
  ]

  joined : bit_or (z % 2 ^ (64 - b) % 2 ^ 64) second % 2 ^ n ≡ z % 2 ^ n
  joined =
      let first : z % 2 ^ (64 - b) % 2 ^ 64 ≡ z % 2 ^ (64 - b) =
        mod-eq_of_lt
          (omega (arith, mod-lt z (two-pow-pos (64 - b)), pow_mono (64 - b) 64 (omega arith))) in
      let high : ℕ = z / 2 ^ processed * 2 ^ processed in
      ap (λ v. bit_or v second % 2 ^ n) first
      ∙ bit_or-mod n (z % 2 ^ (64 - b)) second
      ∙ ap (λ v. bit_or (z % 2 ^ (64 - b) % 2 ^ n) v) second_u64
      ∙ sym (bit_or-mod n (z % 2 ^ (64 - b)) high)
      ∙ ap (λ v. v % 2 ^ n) (bit_or_overlap processed (64 - b) z (omega arith))

  -- Two u64s are enough for a type of 64 bits.
  pub read_uint_at_two :
      i + 15 ≤ length src → read_uint_at 64 src 2 i b n ≡ ok (bits_at (value src) (8 * i + b) n)
  unfolding read_uint_at from_u64
  read_uint_at_two room = rw (
    u64_at_lem src i bytes (omega arith),
    first_u64 64 src bytes i b n aligned fits,
    u64_at_lem src (i + 7) bytes (omega arith),
    lowest_bits_lem 64 _ n in_type,
    joined,
  )
    where
      in_type : bit_or (z % 2 ^ (64 - b) % 2 ^ 64) second < 2 ^ 64
      in_type =
          bit_or-lt 64 _ _ (mod-lt (z % 2 ^ (64 - b)) (two-pow-pos 64)) (mod-lt _ (two-pow-pos 64))

-- After a read the position has moved on by the bits that were read.
abbrev pub advance : BitReader → ℕ → BitReader
advance r n = consume (refill r) n

bit_idx-advance : (r : BitReader) (n : ℕ) → bit_idx (advance r n) ≡ bit_idx r + n
bit_idx-advance r n = omega arith

-- `read_uint` of any of the unsigned types, for at most as many bits as the type has, returns the
-- `n` bits at the reader's position, and moves past them, as long as the source is bytes and goes
-- on for 15 bytes from the byte of the position.
pub read_uint_lem :
    (t : LatentType) (r : BitReader) (n : ℕ)
    → IsBytes r.src
    → n ≤ bits t
    → bit_idx r / 8 + 15 ≤ length r.src
    → (read_uint (bits t) r n ≡ ok (bits_at (value r.src) (bit_idx r) n, advance r n))
      × (bit_idx (advance r n) ≡ bit_idx r + n)
unfolding read_uint bits
read_uint_lem t r n h fits room = (go t fits, bit_idx-advance r n)
  where
    i : ℕ
    i = r.stale_byte_idx + r.bits_past_byte / 8

    b : ℕ
    b = r.bits_past_byte % 8

    position : 8 * i + b ≡ bit_idx r
    position = omega arith

    go :
        (u : LatentType)
        → n ≤ bits u
        → read_uint (bits u) r n ≡ ok (bits_at (value r.src) (bit_idx r) n, advance r n)
    go latent_u16 f =
        rw (read_uint_at_one 16 r.src h i b n (omega arith) f (omega arith) (omega arith), position)
    go latent_u32 f =
        rw (read_uint_at_one 32 r.src h i b n (omega arith) f (omega arith) (omega arith), position)
    go latent_u64 f = rw (read_uint_at_two r.src h i b n (omega arith) f (omega arith), position)
