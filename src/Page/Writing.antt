-- ===== src/Page/Writing.antt =====
-- What the loops of pco/src/latent_chunk_compressor.rs write: the numbers of a batch, one behind the
-- other, also where the u64 that is being filled is kept in a register.
use pcodec.Common.{
  ℕ, zero, suc, ◌+◌, ◌*◌, ◌/◌, ◌%◌, ◌^◌, ◌≤◌, ◌<◌, ◌≡◌, refl, sym, ap, ◌∙◌, arith, bit_or, List, [],
  ◌∷◌, length, take,
}
use pcodec.Common.Pow.{two-pow-pos, pow-add, div-div-pow}
use pcodec.Machine.{shl}
use pcodec.Errors.{Result, ok, >>=-ok}
use pcodec.Bytes.{value, IsBytes}
use pcodec.BitReader.{u64_at}
use pcodec.BitReader.Reading.{u64_at_lem}
use pcodec.BitWriter.{write_u64_to, write_more, write_uint_to}
use pcodec.BitWriter.Writing.{Written, write_uint_to_one, write_uint_to_two, word, current}
use pcodec.Page.Interleaved.{total, joined, AreNumbers}
use pcodec.Traps.{shift_right, shift_right_lem}
use pcodec.Page.Write.{write_each, write_each_short, write_short_uints, write_uints}
use native.Mathlib.Nat.{add-mul-div_right, mul-le-mul_right}

pub record WroteEach (vals bits : List ℕ) (pos : ℕ) (dst : List ℕ)
    (result : Result (ℕ × ℕ × List ℕ)) : Type 0 where
  pub stale : ℕ
  pub past : ℕ
  pub out : List ℕ
  pub returns : result ≡ ok (stale, past, out)
  pub moved : 8 * stale + past ≡ pos + total bits
  pub same_length : length out ≡ length dst
  pub bytes : IsBytes out
  pub added : value out ≡ value dst + 2 ^ pos * joined vals bits
  pub clear : value out < 2 ^ (pos + total bits)

module _ (max_u64s limit : ℕ)
    (step : (val i b n : ℕ) (dst : List ℕ)
      → IsBytes dst
      → b < 8
      → val < 2 ^ n
      → value dst < 2 ^ (8 * i + b)
      → n ≤ limit
      → i + 15 ≤ length dst
      → Written dst (value dst + val * 2 ^ (8 * i + b)) (write_uint_to max_u64s val i b dst)) where
  write_each_lem :
      (vals bits : List ℕ) (stale past : ℕ) (dst : List ℕ)
      → AreNumbers limit vals bits
      → IsBytes dst
      → value dst < 2 ^ (8 * stale + past)
      → (8 * stale + past + total bits) / 8 + 15 ≤ length dst
      → WroteEach vals bits (8 * stale + past) dst (write_each max_u64s vals bits stale past dst)
  unfolding write_each
  write_each_lem [] [] stale past dst h bytes clear room = record {
    stale = stale;
    past = past;
    out = dst;
    returns = refl;
    moved = omega arith;
    same_length = refl;
    bytes = bytes;
    added = omega arith;
    clear = omega (
      arith,
      clear,
      ap (λ (t : ℕ). 2 ^ t) {x = 8 * stale + past + 0} {y = 8 * stale + past} (omega arith),
    );
  }
  write_each_lem [] (n ∷ bits) stale past dst h bytes clear room = absurd h
  write_each_lem (val ∷ vals) [] stale past dst h bytes clear room = absurd h
  write_each_lem (val ∷ vals) (n ∷ bits) stale past dst (small, few, h) bytes clear room =
      let i : ℕ = stale + past / 8 in
      let b : ℕ = past % 8 in
      let pos : ℕ = 8 * stale + past in
      let same : 8 * i + b ≡ pos = omega arith in
      let w =
        step val i b n dst bytes (omega arith) small (rw same clear) few (omega (arith, room)) in
      let next : 8 * i + (b + n) ≡ pos + n = omega arith in
      let at : value w.out ≡ value dst + val * 2 ^ pos =
        w.total_value ∙ ap (λ m. value dst + val * 2 ^ m) same in
      let end : value w.out < 2 ^ (8 * i + (b + n)) =
        rw (next, at) (omega (arith, clear, pow-add pos n, mul-le-mul_right (2 ^ pos) small)) in
      let rest =
        write_each_lem vals bits i (b + n) w.out h w.bytes end
          (omega (arith, room, w.same_length)) in
      record {
        stale = rest.stale;
        past = rest.past;
        out = rest.out;
        returns = rw w.returns rest.returns;
        moved = omega (arith, rest.moved);
        same_length = rest.same_length ∙ w.same_length;
        bytes = rest.bytes;
        added =
            rest.added
            ∙ rw (next, at) (omega (arith, ap (λ (t : ℕ). t * joined vals bits) (pow-add pos n)));
        clear = omega (
          arith,
          rest.clear,
          ap (λ (t : ℕ). 2 ^ t) {x = 8 * i + (b + n) + total bits} {y = pos + (n + total bits)}
              (omega arith),
        );
      }

one_u64 :
    (val i b n : ℕ) (dst : List ℕ)
    → IsBytes dst
    → b < 8
    → val < 2 ^ n
    → value dst < 2 ^ (8 * i + b)
    → n ≤ 57
    → i + 15 ≤ length dst
    → Written dst (value dst + val * 2 ^ (8 * i + b)) (write_uint_to 1 val i b dst)
one_u64 val i b n dst h aligned small clear few room =
    write_uint_to_one val i b n dst h aligned small clear few (omega arith)

two_u64s :
    (val i b n : ℕ) (dst : List ℕ)
    → IsBytes dst
    → b < 8
    → val < 2 ^ n
    → value dst < 2 ^ (8 * i + b)
    → n ≤ 64
    → i + 15 ≤ length dst
    → Written dst (value dst + val * 2 ^ (8 * i + b)) (write_uint_to 2 val i b dst)
two_u64s val i b n dst h aligned small clear few room =
    write_uint_to_two val i b n dst h aligned small clear few room

one_lem :
    (val i b x c : ℕ) (dst : List ℕ)
    → u64_at dst i ≡ ok c
    → bit_or c (shl 64 (val % 2 ^ 64) b) ≡ x
    → write_uint_to 1 val i b dst ≡ write_u64_to x i dst
unfolding write_uint_to write_more
one_lem val i b x c dst read filled = rw (read, filled) (>>=-ok (write_u64_to x i dst))

-- The u64 in the register is what stands in the buffer from its byte on.
write_each_short_lem :
    (vals bits : List ℕ) (target stale past : ℕ) (dst : List ℕ)
    → AreNumbers 56 vals bits
    → IsBytes dst
    → value dst < 2 ^ (8 * stale + past)
    → past < 64
    → (8 * stale + past + total bits) / 8 + 15 ≤ length dst
    → target ≡ value dst / 2 ^ (8 * stale)
    → write_each_short vals bits target stale past dst ≡ write_each 1 vals bits stale past dst
unfolding write_each_short write_each
write_each_short_lem [] [] target stale past dst h bytes clear short room e = refl
write_each_short_lem [] (n ∷ bits) target stale past dst h bytes clear short room e = absurd h
write_each_short_lem (val ∷ vals) [] target stale past dst h bytes clear short room e = absurd h
write_each_short_lem (val ∷ vals) (n ∷ bits) target stale past dst (small, few, h) bytes clear short
      room e =
    let k : ℕ = past / 8 in
    let i : ℕ = stale + k in
    let b : ℕ = past % 8 in
    let same : 8 * i + b ≡ 8 * stale + past = omega arith in
    let here : value dst < 2 ^ (8 * i + b) = rw same clear in
    let c : ℕ = value dst / 2 ^ (8 * i) in
    let shifted : shift_right 64 target (k * 8) ≡ ok c =
      shift_right_lem 64 target (k * 8) (omega (arith, short))
      ∙ ap ok (
          ap (λ t. t / 2 ^ (k * 8)) e
          ∙ div-div-pow (value dst) (8 * stale) (k * 8)
          ∙ ap (λ t. value dst / 2 ^ t) (omega arith)) in
    let w =
      one_u64 val i b n dst bytes (omega arith) small here (omega arith) (omega (arith, room)) in
    let filled : bit_or c (shl 64 (val % 2 ^ 64) b) ≡ c + val * 2 ^ b =
      word val i b n dst bytes (omega arith) small here (omega arith) in
    let read : u64_at dst i ≡ ok c =
      u64_at_lem dst i bytes (omega (arith, room))
      ∙ ap ok (current val i b n dst bytes (omega arith) small here) in
    let runs : write_u64_to (c + val * 2 ^ b) i dst ≡ ok w.out =
      sym (one_lem val i b (c + val * 2 ^ b) c dst read filled) ∙ w.returns in
    let at : value w.out ≡ value dst + val * 2 ^ b * 2 ^ (8 * i) =
      w.total_value ∙ omega (arith, ap (λ (t : ℕ). val * t) (pow-add (8 * i) b)) in
    let kept : c + val * 2 ^ b ≡ value w.out / 2 ^ (8 * i) =
      rw at (sym (add-mul-div_right (value dst) (val * 2 ^ b) (two-pow-pos (8 * i)))) in
    let next : 8 * i + (b + n) ≡ 8 * stale + past + n = omega arith in
    let end : value w.out < 2 ^ (8 * i + (b + n)) =
      rw (next, at)
        (omega (
          arith,
          clear,
          pow-add (8 * stale + past) n,
          mul-le-mul_right (2 ^ (8 * stale + past)) small,
          ap (λ (t : ℕ). val * t) (pow-add (8 * i) b),
          ap (λ (t : ℕ). val * 2 ^ t) same,
        )) in
    rw (shifted, filled, runs, w.returns)
      (write_each_short_lem vals bits (c + val * 2 ^ b) i (b + n) w.out h w.bytes end (omega arith)
        (omega (arith, room, w.same_length)) kept)

take_all : (n : ℕ) (xs : List ℕ) → length xs ≤ n → take n xs ≡ xs
take_all zero [] h = refl
take_all zero (x ∷ xs) h = absurd (omega arith)
take_all (suc n) [] h = refl
take_all (suc n) (x ∷ xs) h = ap (◌∷◌ x) (take_all n xs (omega arith))

pub AreNumbers-length :
    (limit : ℕ) (vals bits : List ℕ) → AreNumbers limit vals bits → length vals ≡ length bits
AreNumbers-length limit [] [] h = refl
AreNumbers-length limit [] (n ∷ bits) h = absurd h
AreNumbers-length limit (x ∷ vals) [] h = absurd h
AreNumbers-length limit (x ∷ vals) (n ∷ bits) h = ap suc (AreNumbers-length limit vals bits h.2)

pub AreNumbers-mono :
    (k m : ℕ) (vals bits : List ℕ) → k ≤ m → AreNumbers k vals bits → AreNumbers m vals bits
AreNumbers-mono k m [] [] le h = tt
AreNumbers-mono k m [] (n ∷ bits) le h = h
AreNumbers-mono k m (x ∷ vals) [] le h = h
AreNumbers-mono k m (x ∷ vals) (n ∷ bits) le (small, few, h) =
    (small, omega arith, AreNumbers-mono k m vals bits le h)

module _ (vals bits : List ℕ) (stale past : ℕ) (dst : List ℕ) (bytes : IsBytes dst)
    (clear : value dst < 2 ^ (8 * stale + past)) (batch : length vals ≤ 256)
    (room : (8 * stale + past + total bits) / 8 + 15 ≤ length dst) where
  -- The batches that are written here have at most 256 numbers.
  whole : (limit : ℕ) → AreNumbers limit vals bits → (take 256 vals ≡ vals) × (take 256 bits ≡ bits)
  whole limit h = (
    take_all 256 vals batch,
    take_all 256 bits (omega (arith, AreNumbers-length limit vals bits h)),
  )

  write_uints_one :
      AreNumbers 57 vals bits
      → WroteEach vals bits (8 * stale + past) dst (write_uints 1 vals bits stale past dst)
  unfolding write_uints
  write_uints_one h =
      let (v, b) = whole 57 h in
      rw (v, b) (write_each_lem 1 57 one_u64 vals bits stale past dst h bytes clear room)

  pub write_uints_two :
      AreNumbers 64 vals bits
      → WroteEach vals bits (8 * stale + past) dst (write_uints 2 vals bits stale past dst)
  unfolding write_uints
  write_uints_two h =
      let (v, b) = whole 64 h in
      rw (v, b) (write_each_lem 2 64 two_u64s vals bits stale past dst h bytes clear room)

  pub write_short_uints_lem :
      AreNumbers 56 vals bits
      → WroteEach vals bits (8 * stale + past) dst (write_short_uints vals bits stale past dst)
  unfolding write_short_uints
  write_short_uints_lem h =
      let (v, b) = whole 56 h in
      let i : ℕ = stale + past / 8 in
      let same : 8 * stale + past ≡ 8 * i + past % 8 = omega arith in
      let here : value dst < 2 ^ (8 * i + past % 8) = rw same at clear in
      let c : ℕ = value dst / 2 ^ (8 * i) in
      let read : u64_at dst i ≡ ok c =
        u64_at_lem dst i bytes (omega (arith, room))
        ∙ ap ok (current 0 i (past % 8) 0 dst bytes (omega arith) (omega arith) here) in
      let runs =
        write_each_short_lem vals bits c i (past % 8) dst h bytes here (omega arith)
          (omega (arith, room)) refl in
      rw (v, b, read, runs, same)
        (write_each_lem 1 57 one_u64 vals bits i (past % 8) dst
          (AreNumbers-mono 56 57 vals bits (omega arith) h) bytes here (omega (arith, room)))
