-- ===== src/Page/OffsetTrip.antt =====
-- The offsets of a batch: what pco/src/latent_chunk_compressor.rs writes, pco/src/latent_page_decompressor.rs
-- reads.
use pcodec.Common.{
  ℕ, zero, suc, ◌+◌, ◌-◌, ◌*◌, ◌/◌, ◌%◌, ◌^◌, ◌≤◌, ◌<◌, ◌≡◌, refl, ap, ◌∙◌, arith, if◌then◌else◌,
  leb, le→ltb, le→leb, leb→le, leb-false, ne→==, Bool-cases, inl, inr, List, [], ◌∷◌, ◌++◌, length,
  get_or, get_or-append, length-append,
}
use pcodec.Common.Pow.{pow-add, div_of_eq}
use pcodec.Errors.{ok}
use pcodec.Slice.{index, index-eq-get_or}
use pcodec.Bytes.{value, IsBytes}
use pcodec.Bits.{calc_max_u64s, calc_max_u64s_for_writing}
use pcodec.Latent.{LatentType, latent_u16, latent_u32, latent_u64, bits}
use pcodec.BitReader.{BitReader, bit_idx, read_uint_at}
use pcodec.BitReader.Reading.{bits_at, read_uint_at_one, read_uint_at_two}
use pcodec.Page.Symbols.{State}
use pcodec.Page.Offsets.{offsets_each, decompress_offsets}
use pcodec.Page.Interleaved.{total, joined, split, AreNumbers}
use pcodec.Page.Compress.{write_offsets}
use pcodec.Page.Writing.{
  AreNumbers-length, AreNumbers-mono, WroteEach, write_uints_two, write_short_uints_lem,
}
use native.Mathlib.Nat.{mod-eq_of_lt, mul-le-mul_left}

-- The sums of the bits before each offset.
abbrev pub sums : ℕ → List ℕ → List ℕ
sums csum [] = []
sums csum (n ∷ bits) = csum ∷ sums (csum + n) bits

module _ (w max_u64s limit : ℕ) (src : List ℕ)
    (reads : (i b n : ℕ)
      → b < 8
      → n ≤ limit
      → i + 15 ≤ length src
      → read_uint_at w src max_u64s i b n ≡ ok (bits_at (value src) (8 * i + b) n)) where
  offsets_each_lem :
      (vals bits dst csums_behind bits_behind : List ℕ) (base csum : ℕ)
      → AreNumbers limit vals bits
      → length dst ≡ length vals
      → bits_at (value src) (base + csum) (total bits) ≡ joined vals bits
      → (base + csum + total bits) / 8 + 15 ≤ length src
      → offsets_each w src max_u64s base dst (bits ++ bits_behind) (sums csum bits ++ csums_behind)
        ≡ ok vals
  unfolding offsets_each
  offsets_each_lem [] [] [] cb bb base csum h len here room = refl
  offsets_each_lem [] [] (d ∷ dst) cb bb base csum h len here room = absurd (omega arith)
  offsets_each_lem [] (n ∷ bits) dst cb bb base csum h len here room = absurd h
  offsets_each_lem (x ∷ vals) [] dst cb bb base csum h len here room = absurd h
  offsets_each_lem (x ∷ vals) (n ∷ bits) [] cb bb base csum h len here room = absurd (omega arith)
  offsets_each_lem (x ∷ vals) (n ∷ bits) (d ∷ dst) cb bb base csum (small, few, h) len here room =
      let pos : ℕ = base + csum in
      let (first, others) = split (value src) pos n (total bits) x (joined vals bits) small here in
      let place : 8 * (pos / 8) + pos % 8 ≡ pos = omega arith in
      let next : pos + n ≡ base + (csum + n) = omega arith in
      let read : read_uint_at w src max_u64s (pos / 8) (pos % 8) n ≡ ok x =
        reads (pos / 8) (pos % 8) n (omega arith) few (omega (arith, room))
        ∙ ap (λ p. ok (bits_at (value src) p n)) place
        ∙ ap ok first in
      rw
        (
          read,
          offsets_each_lem vals bits dst cb bb base (csum + n) h (omega (arith, len))
              (rw (← next) others) (omega (arith, room)),
        )
        refl

index_last :
    (xs behind : List ℕ) (n : ℕ) → length xs ≡ suc n → index (xs ++ behind) n ≡ ok (get_or xs n 0)
index_last xs behind n h =
    index-eq-get_or (xs ++ behind) n 0 (rw length-append (omega (arith, h)))
    ∙ ap ok (get_or-append xs behind n 0 (omega (arith, h)))

pub length-sums : (csum : ℕ) (bits : List ℕ) → length (sums csum bits) ≡ length bits
length-sums csum [] = refl
length-sums csum (n ∷ bits) = ap suc (length-sums (csum + n) bits)

-- The last sum and the last count of bits make the total.
last_sum :
    (csum : ℕ) (bits : List ℕ) (n : ℕ)
    → length bits ≡ suc n
    → get_or (sums csum bits) n 0 + get_or bits n 0 ≡ csum + total bits
last_sum csum [] n h = absurd (omega arith)
last_sum csum (m ∷ []) zero h = omega arith
last_sum csum (m ∷ k ∷ bits) zero h = absurd (omega arith)
last_sum csum (m ∷ bits) (suc n) h = omega (arith, last_sum (csum + m) bits n (omega (arith, h)))

-- What the scratch arrays hold for the offsets of a batch.
pub record IsScratch (bits : List ℕ) (st : State) : Type 0 where
  pub bits_behind : List ℕ
  pub csums_behind : List ℕ
  pub is_bits : st.offset_bits_scratch ≡ bits ++ bits_behind
  pub is_csums : st.offset_bits_csum_scratch ≡ sums 0 bits ++ csums_behind

module _ (w max_u64s limit : ℕ) (r : BitReader)
    (reads : (i b n : ℕ)
      → b < 8
      → n ≤ limit
      → i + 15 ≤ length r.src
      → read_uint_at w r.src max_u64s i b n ≡ ok (bits_at (value r.src) (8 * i + b) n)) where
  pub decompress_offsets_lem :
      (vals bits dst : List ℕ) (st : State)
      → AreNumbers limit vals bits
      → 0 < length vals
      → length dst ≡ length vals
      → IsScratch bits st
      → bits_at (value r.src) (bit_idx r) (total bits) ≡ joined vals bits
      → (bit_idx r + total bits) / 8 + 15 ≤ length r.src
      → (r' : BitReader) × (decompress_offsets w max_u64s st r dst ≡ ok (r', vals))
        × (bit_idx r' ≡ bit_idx r + total bits)
        × (r'.src ≡ r.src)
  unfolding decompress_offsets
  decompress_offsets_lem vals bits dst st h some len scratch here room =
      let n : ℕ = length vals - 1 in
      let n_bits : length bits ≡ suc n = omega (arith, AreNumbers-length limit vals bits h, some) in
      let zero_sum : bit_idx r + 0 ≡ bit_idx r = omega arith in
      let all =
        offsets_each_lem w max_u64s limit r.src reads vals bits dst scratch.csums_behind
          scratch.bits_behind (bit_idx r) 0 h len (rw zero_sum here) (rw zero_sum room) in
      let final : ℕ = bit_idx r + get_or (sums 0 bits) n 0 + get_or bits n 0 in
      (
        record r { stale_byte_idx = final / 8; bits_past_byte = final % 8 },
        rw
            (
              scratch.is_bits,
              scratch.is_csums,
              all,
              le→ltb (length vals) 1 (omega (arith, some)),
              index_last (sums 0 bits) scratch.csums_behind n (length-sums 0 bits ∙ n_bits),
              index_last bits scratch.bits_behind n n_bits,
            )
            refl,
        omega (arith, last_sum 0 bits n n_bits),
        refl,
      )

pub joined-lt :
    (limit : ℕ) (vals bits : List ℕ)
    → AreNumbers limit vals bits
    → joined vals bits < 2 ^ total bits
joined-lt limit [] [] h = omega arith
joined-lt limit [] (n ∷ bits) h = absurd h
joined-lt limit (x ∷ vals) [] h = absurd h
joined-lt limit (x ∷ vals) (n ∷ bits) (small, few, h) =
    omega
      (arith, small, mul-le-mul_left (2 ^ n) (joined-lt limit vals bits h), pow-add n (total bits))

-- Numbers that were written stand at the position where they were written.
pub bits_at-written :
    (limit pos : ℕ) (vals bits dst out : List ℕ)
    → AreNumbers limit vals bits
    → value dst < 2 ^ pos
    → value out ≡ value dst + 2 ^ pos * joined vals bits
    → bits_at (value out) pos (total bits) ≡ joined vals bits
bits_at-written limit pos vals bits dst out h clear added =
    rw
      (
        added,
        div_of_eq (value dst + 2 ^ pos * joined vals bits) (joined vals bits) (2 ^ pos) (value dst)
            (omega arith) clear,
      )
      (mod-eq_of_lt (joined-lt limit vals bits h))

module _ (m : ℕ) (src : List ℕ) (bytes : IsBytes src) where
  -- As many u64s as the largest count of bits takes are enough for each offset.
  pub read_offset :
      (t : LatentType) (i b n : ℕ)
      → 1 ≤ m
      → m ≤ bits t
      → b < 8
      → n ≤ m
      → i + 15 ≤ length src
      → read_uint_at (bits t) src (calc_max_u64s m) i b n ≡ ok (bits_at (value src) (8 * i + b) n)
  unfolding calc_max_u64s bits
  read_offset t i b n some fits aligned few room = elim (Bool-cases (leb m 57)) [
    | inl short ↦
        let m_le : m ≤ 57 = leb→le m 57 short in
        rw (ne→== m 0 (λ e. omega (arith, e, some)), short)
          (read_uint_at_one (bits t) src bytes i b n aligned (omega (arith, few, fits))
            (omega (arith, few, m_le)) (omega (arith, room)))
    | inr long ↦
        rw (ne→== m 0 (λ e. omega (arith, e, some)), long) (two t fits (leb-false m 57 long))
  ]
    where
      two :
          (u : LatentType)
          → m ≤ bits u
          → 57 < m
          → read_uint_at (bits u) src (if leb m 113 then 2 else 3) i b n
            ≡ ok (bits_at (value src) (8 * i + b) n)
      two latent_u16 f g = absurd (omega (arith, f, g))
      two latent_u32 f g = absurd (omega (arith, f, g))
      two latent_u64 f g =
          let wide : m ≤ 64 = f in
          rw (le→leb m 113 (omega (arith, wide)))
            (read_uint_at_two src bytes i b n aligned (omega (arith, wide, few)) room)

pub bits-le : (t : LatentType) → bits t ≤ 64
unfolding bits
bits-le latent_u16 = omega arith
bits-le latent_u32 = omega arith
bits-le latent_u64 = omega arith

pub write_offsets_lem :
    (m stale past : ℕ) (vals bits dst : List ℕ)
    → 1 ≤ m
    → m ≤ 64
    → AreNumbers m vals bits
    → length vals ≤ 256
    → IsBytes dst
    → value dst < 2 ^ (8 * stale + past)
    → (8 * stale + past + total bits) / 8 + 15 ≤ length dst
    → WroteEach vals bits
        (8 * stale + past)
        dst
        (write_offsets (calc_max_u64s_for_writing m) vals bits stale past dst)
unfolding write_offsets calc_max_u64s_for_writing
write_offsets_lem m stale past vals bits dst some wide h batch bytes clear room =
    elim (Bool-cases (leb m 56)) [
      | inl short ↦
          rw (ne→== m 0 (λ e. omega (arith, e, some)), short)
            (write_short_uints_lem vals bits stale past dst bytes clear batch room
              (AreNumbers-mono m 56 vals bits (leb→le m 56 short) h))
      | inr long ↦
          rw (ne→== m 0 (λ e. omega (arith, e, some)), long, le→leb m 113 (omega (arith, wide)))
            (write_uints_two vals bits stale past dst bytes clear batch room
              (AreNumbers-mono m 64 vals bits wide h))
    ]

-- The offsets of a batch, from 1 to 256 of them, each on at most `m` bits, where `m` is at least 1 and
-- at most the bits of the latents' type, are written to a buffer of bytes that is clear from the
-- position on, with 15 bytes behind the byte where they end; a reader stands at the same position,
-- and the scratch arrays hold the counts of bits and their sums. Then writing them succeeds, and so does
-- reading them from the buffer, which gives the same offsets and ends at the position where
-- writing ended.
pub decompress_offsets-write_offsets :
    (t : LatentType) (m stale past : ℕ) (vals obits dst latents : List ℕ) (r : BitReader)
    (st : State)
    → 1 ≤ m
    → m ≤ bits t
    → AreNumbers m vals obits
    → 0 < length vals
    → length vals ≤ 256
    → IsBytes dst
    → value dst < 2 ^ (8 * stale + past)
    → (8 * stale + past + total obits) / 8 + 15 ≤ length dst
    → bit_idx r ≡ 8 * stale + past
    → length latents ≡ length vals
    → IsScratch obits st
    → (stale' : ℕ) × (past' : ℕ) × (out : List ℕ) × (r' : BitReader) × (write_offsets
          (calc_max_u64s_for_writing m)
          vals
          obits
          stale
          past
          dst
        ≡ ok (stale', past', out))
      × (decompress_offsets (bits t) (calc_max_u64s m) st (record r { src = out }) latents
          ≡ ok (r', vals))
      × (bit_idx r' ≡ 8 * stale' + past')
decompress_offsets-write_offsets t m stale past vals obits dst latents r st some fits h one batch
      bytes clear room same len scratch =
    let wr =
      write_offsets_lem m stale past vals obits dst some (omega (arith, fits, bits-le t)) h batch
        bytes clear room in
    let (r', reads, ends, _) =
      decompress_offsets_lem (bits t) (calc_max_u64s m) m (record r { src = wr.out })
        (λ i b n aligned few inside.
          read_offset m wr.out wr.bytes t i b n some fits aligned few inside)
        vals obits latents st h one len scratch
        (rw same (bits_at-written m (8 * stale + past) vals obits dst wr.out h clear wr.added))
        (omega (arith, same, room, wr.same_length)) in
    (wr.stale, wr.past, wr.out, r', wr.returns, reads, omega (arith, ends, same, wr.moved))
