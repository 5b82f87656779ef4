-- ===== src/BitWriter/Writing.antt =====
-- What pco/src/bit_writer.rs writes: the number is added to the buffer at the writer's position,
-- whatever the byte alignment, as long as nothing stands behind that position.
use pcodec.Common.{
  ℕ, suc, ◌+◌, ◌-◌, ◌*◌, ◌/◌, ◌%◌, ◌^◌, ◌≤◌, ◌<◌, ◌≡◌, ap, ◌∙◌, arith, bit_or, le→leb, List, ◌++◌,
  length, take, drop, length-append, length-take, length-drop,
}
use pcodec.Common.Pow.{two-pow-pos, pow-add, pow_mono, mod-mod-pow, mod_of_eq, mod-mul-mod}
use pcodec.Common.Bitwise.{bit_or_disjoint}
use pcodec.Machine.{shl}
use pcodec.Errors.{Result, ok}
use pcodec.Bytes.{
  value, IsBytes, value-take, value-drop, value-append, value-to_le_bytes, length-to_le_bytes,
  take-IsBytes, drop-IsBytes, append-IsBytes, to_le_bytes-IsBytes, to_le_bytes,
}
use pcodec.BitReader.Reading.{u64_at_lem}
use pcodec.BitWriter.{write_u64_to, write_more, write_uint_to}
use native.Mathlib.Nat.{
  mul-le-mul_left, mul-le-mul_right, div-le_self, div-lt_iff_lt-mul, div-eq_of_lt, mod-eq_of_lt,
  mod-lt, div-add-mod,
}

-- The buffer after a write, with its value.
pub record Written (dst : List ℕ) (total : ℕ) (result : Result (List ℕ)) : Type 0 where
  pub out : List ℕ
  pub returns : result ≡ ok out
  pub same_length : length out ≡ length dst
  pub bytes : IsBytes out
  pub total_value : value out ≡ total

write_u64_to-Written :
    (x i : ℕ) (dst : List ℕ)
    → IsBytes dst
    → i + 8 ≤ length dst
    → x < 2 ^ 64
    → value dst < 2 ^ (8 * (i + 8))
    → Written dst (value dst % 2 ^ (8 * i) + 2 ^ (8 * i) * x) (write_u64_to x i dst)
unfolding write_u64_to
write_u64_to-Written x i dst h room hx small =
    let front = take i dst in
    let back = drop (i + 8) dst in
    let n_front : length front ≡ i = length-take i dst ∙ omega arith in
    let empty : value back ≡ 0 = value-drop (i + 8) dst h ∙ div-eq_of_lt small in
    record {
      out = front ++ (to_le_bytes 8 x ++ back);
      returns = rw (le→leb (i + 8) (length dst) room);
      same_length =
          rw
            (
              length-append front,
              length-append (to_le_bytes 8 x),
              n_front,
              length-drop,
              length-to_le_bytes 8 x,
            )
            (omega arith);
      bytes = append-IsBytes front _ (take-IsBytes i dst h) (
          append-IsBytes (to_le_bytes 8 x) back (to_le_bytes-IsBytes 8 x)
            (drop-IsBytes (i + 8) dst h));
      total_value =
          rw
            (
              value-append front,
              value-append (to_le_bytes 8 x),
              n_front,
              empty,
              value-to_le_bytes 8 x,
              value-take i dst h,
              mod-eq_of_lt hx,
            )
            (omega arith);
    }

module _ (val i b n : ℕ) (dst : List ℕ) (h : IsBytes dst) (aligned : b < 8) (val_lt : val < 2 ^ n)
    (clear : value dst < 2 ^ (8 * i + b)) where
  abbrev v : ℕ
  v = value dst

  -- The bits of the partial byte.
  abbrev c : ℕ
  c = v / 2 ^ (8 * i)

  c-lt : c < 2 ^ b
  c-lt = (div-lt_iff_lt-mul (two-pow-pos (8 * i))).1 (omega (arith, clear, pow-add (8 * i) b))

  v_split : v ≡ v % 2 ^ (8 * i) + 2 ^ (8 * i) * c
  v_split = omega (arith, div-add-mod v (2 ^ (8 * i)))

  pub current : v / 2 ^ (8 * i) % 2 ^ 64 ≡ c
  current = mod-eq_of_lt (omega (arith, c-lt, pow_mono b 64 (omega arith)))

  below_end : (m : ℕ) → 8 * i + b ≤ m → v < 2 ^ m
  below_end m k = omega (arith, clear, pow_mono (8 * i + b) m k)

  -- A field on top of the partial byte stays below the next field.
  field_lt : (x k : ℕ) → x < 2 ^ k → c + x * 2 ^ b < 2 ^ (k + b)
  field_lt x k below =
      let h : suc x * 2 ^ b ≤ 2 ^ k * 2 ^ b = mul-le-mul_right (2 ^ b) below in
      omega (arith, h, pow-add k b, c-lt)

  fits_u64 : n ≤ 57 → c + val * 2 ^ b < 2 ^ 64
  fits_u64 small = omega (arith, field_lt val n val_lt, pow_mono (n + b) 64 (omega arith))

  pub word : n ≤ 57 → bit_or c (shl 64 (val % 2 ^ 64) b) ≡ c + val * 2 ^ b
  word small =
      let shifted : val * 2 ^ b < 2 ^ 64 = omega (arith, fits_u64 small) in
      rw (mod-mul-mod val (2 ^ 64) (2 ^ b), mod-eq_of_lt shifted) (bit_or_disjoint b c val c-lt)

  -- One u64 takes up to 57 bits.
  pub write_uint_to_one :
      n ≤ 57
      → i + 8 ≤ length dst
      → Written dst (v + val * 2 ^ (8 * i + b)) (write_uint_to 1 val i b dst)
  unfolding write_uint_to write_more
  write_uint_to_one small room =
      let wr =
        write_u64_to-Written (c + val * 2 ^ b) i dst h room (fits_u64 small)
          (below_end (8 * (i + 8)) (omega arith)) in
      let sum : v % 2 ^ (8 * i) + 2 ^ (8 * i) * (c + val * 2 ^ b) ≡ v + val * 2 ^ (8 * i + b) =
        omega (arith, v_split, ap (λ (t : ℕ). val * t) (pow-add (8 * i) b)) in
      record {
        out = wr.out;
        returns = rw (u64_at_lem dst i h room, current, word small, wr.returns);
        same_length = wr.same_length;
        bytes = wr.bytes;
        total_value = wr.total_value ∙ sum;
      }

  -- The low bits of the number, as many as the first u64 has room for.
  abbrev r : ℕ
  r = val % 2 ^ (64 - b)

  abbrev x0 : ℕ
  x0 = c + r * 2 ^ b

  word_split : 2 ^ 64 ≡ 2 ^ (64 - b) * 2 ^ b
  word_split = ap (λ k. 2 ^ k) {x = 64} (omega arith) ∙ pow-add (64 - b) b

  x0-lt : x0 < 2 ^ 64
  x0-lt = omega (
    arith,
    field_lt r (64 - b) (mod-lt val (two-pow-pos (64 - b))),
    pow_mono (64 - b + b) 64 (omega arith),
  )

  first_word : bit_or c (shl 64 (val % 2 ^ 64) b) ≡ x0
  first_word =
      let cut : val * 2 ^ b % 2 ^ 64 ≡ r * 2 ^ b =
        mod_of_eq (val * 2 ^ b) (val / 2 ^ (64 - b)) (2 ^ 64) (r * 2 ^ b)
          (omega (
            arith,
            ap (λ (t : ℕ). t * 2 ^ b) (div-add-mod val (2 ^ (64 - b))),
            ap (λ (t : ℕ). t * (val / 2 ^ (64 - b))) word_split,
          ))
          (omega (arith, x0-lt)) in
      rw (mod-mul-mod val (2 ^ 64) (2 ^ b), cut) (bit_or_disjoint b c r c-lt)

  seven_split : 2 ^ 56 ≡ 2 ^ (56 - b) * 2 ^ b
  seven_split = ap (λ k. 2 ^ k) {x = 56} (omega arith) ∙ pow-add (56 - b) b

  abbrev s : ℕ
  s = val % 2 ^ (56 - b)

  -- The seven bytes of the first u64 that the second one leaves alone.
  seven_bytes : x0 % 2 ^ 56 ≡ c + s * 2 ^ b
  seven_bytes =
      mod_of_eq x0 (r / 2 ^ (56 - b)) (2 ^ 56) (c + s * 2 ^ b)
        (omega (
          arith,
          ap (λ (t : ℕ). t * 2 ^ b) (div-add-mod r (2 ^ (56 - b))),
          ap (λ (t : ℕ). t * (r / 2 ^ (56 - b))) seven_split,
          ap (λ (t : ℕ). t * 2 ^ b) (mod-mod-pow val (56 - b) (64 - b) (omega arith)),
        ))
        (omega (
          arith,
          field_lt s (56 - b) (mod-lt val (two-pow-pos (56 - b))),
          pow_mono (56 - b + b) 56 (omega arith),
        ))

  next_split : 2 ^ (8 * (i + 7)) ≡ 2 ^ (8 * i) * 2 ^ 56
  next_split = ap (λ k. 2 ^ k) {x = 8 * (i + 7)} {y = 8 * i + 56} (omega arith) ∙ pow-add (8 * i) 56

  first_seven :
      (v % 2 ^ (8 * i) + 2 ^ (8 * i) * x0) % 2 ^ (8 * (i + 7))
      ≡ v % 2 ^ (8 * i) + 2 ^ (8 * i) * (c + s * 2 ^ b)
  first_seven =
      let p : ℕ = 2 ^ (8 * i) in
      let low : ℕ = c + s * 2 ^ b in
      let low-lt : suc low ≤ 2 ^ 56 = rw seven_bytes at (mod-lt x0 (two-pow-pos 56)) in
      mod_of_eq (v % p + p * x0) (x0 / 2 ^ 56) (2 ^ (8 * (i + 7))) (v % p + p * low)
        (omega (
          arith,
          ap (λ (t : ℕ). p * t) (div-add-mod x0 (2 ^ 56)),
          ap (λ (t : ℕ). p * t) seven_bytes,
          ap (λ (t : ℕ). t * (x0 / 2 ^ 56)) next_split,
        ))
        (omega (arith, mul-le-mul_left p low-lt, next_split, mod-lt v (two-pow-pos (8 * i))))

  -- What the first u64 leaves ends before the end of the second.
  first_end : v % 2 ^ (8 * i) + 2 ^ (8 * i) * x0 < 2 ^ (8 * (i + 7 + 8))
  first_end = omega (
    arith,
    mul-le-mul_left (2 ^ (8 * i)) x0-lt,
    pow-add (8 * i) 64,
    pow_mono (8 * i + 64) (8 * (i + 7 + 8)) (omega arith),
    mod-lt v (two-pow-pos (8 * i)),
  )

  abbrev u : ℕ
  u = val / 2 ^ (56 - b)

  whole :
      v % 2 ^ (8 * i) + 2 ^ (8 * i) * (c + s * 2 ^ b) + 2 ^ (8 * (i + 7)) * u
      ≡ v + val * 2 ^ (8 * i + b)
  whole =
      let p : ℕ = 2 ^ (8 * i) in
      omega (
        arith,
        v_split,
        ap (λ (t : ℕ). val * t) (pow-add (8 * i) b),
        ap (λ (t : ℕ). t * u) next_split,
        ap (λ (t : ℕ). t * (p * 2 ^ b)) (div-add-mod val (2 ^ (56 - b))),
        ap (λ (t : ℕ). p * u * t) seven_split,
      )

  -- Two u64s take up to 64 bits.
  pub write_uint_to_two :
      n ≤ 64
      → i + 15 ≤ length dst
      → Written dst (v + val * 2 ^ (8 * i + b)) (write_uint_to 2 val i b dst)
  unfolding write_uint_to write_more
  write_uint_to_two small room =
      let first =
        write_u64_to-Written x0 i dst h (omega arith) x0-lt
          (below_end (8 * (i + 8)) (omega arith)) in
      let u-lt : u < 2 ^ 64 =
        omega (arith, val_lt, pow_mono n 64 small, div-le_self val (2 ^ (56 - b))) in
      let word : val / 2 ^ (56 - b) % 2 ^ 64 ≡ u = mod-eq_of_lt u-lt in
      let second =
        write_u64_to-Written u (i + 7) first.out first.bytes (omega (arith, first.same_length)) u-lt
          (rw first.total_value first_end) in
      record {
        out = second.out;
        returns = rw (
          u64_at_lem dst i h (omega arith),
          current,
          first_word,
          first.returns,
          word,
          second.returns,
        );
        same_length = second.same_length ∙ first.same_length;
        bytes = second.bytes;
        total_value = second.total_value ∙ rw (first.total_value, first_seven) whole;
      }
