-- ===== src/Sort/Pivot.antt =====
-- The choice of a pivot and the breaking of patterns in pco/src/sort_utils.rs, where usize has 64 bits.
use pcodec.Common.{
  ℕ, zero, suc, ◌+◌, ◌-◌, ◌*◌, ◌/◌, ◌^◌, ◌≤◌, ◌<◌, ◌≡◌, refl, arith, leb, ltb, if◌then◌else◌,
  Bool-cases, inl, inr, leb-false, ltb-false, le→ltb, List, length, get_or, bit_and, bit_xor,
  Rearranged, Rearranged-refl, Rearranged-length, in_turn,
}
use pcodec.Common.Pow.{ilog2, ilog2_bounds, two-pow-pos, pow-add}
use pcodec.Common.Bitwise.{bit_and_mask}
use native.Mathlib.Nat.{mod-lt}
use pcodec.Machine.{u64, shl, ◌>>>◌}
use pcodec.Errors.{Result, ok, ◌>>=◌, Returns, returns, Returns-bind, Returns-map, Returns-if}
use pcodec.Slice.{index, swap, index-eq-get_or, swap-Rearranged}
use pcodec.Delta.Choose.{sub_usize}

abbrev pub shortest_median_of_medians : ℕ
shortest_median_of_medians = 50

module _ (latents : List ℕ) where
  -- The closures of the source swap two indices; here they return them.
  unfoldable pub sort2 : ℕ → ℕ → Result (ℕ × ℕ)
  sort2 a b = do y ← index latents b; x ← index latents a; ok (if ltb y x then (b, a) else (a, b))

  unfoldable pub sort3 : ℕ → ℕ → ℕ → Result (ℕ × ℕ × ℕ)
  unfolding sort2
  sort3 a b c = do
    (a1, b1) ← sort2 a b
    (b2, c2) ← sort2 b1 c
    (a3, b3) ← sort2 a1 b2
    ok (a3, b3, c2)

  unfoldable pub sort_adjacent : ℕ → Result ℕ
  unfolding sort3
  sort_adjacent a = do before ← sub_usize a 1; (low, mid, high) ← sort3 before a (a + 1); ok mid

  -- The index that the pivot is read from.
  unfoldable pub pivot_index : Result ℕ
  unfolding sort_adjacent
  pivot_index =
      let len = length latents in
      let a = len / 4 in
      let b = len / 2 in
      let c = u64 (len * 3) / 4 in
      if ltb len 8
      then ok b
      else if ltb len shortest_median_of_medians
      then (do (low, mid, high) ← sort3 a b c; ok mid)
      else do
        a' ← sort_adjacent a
        b' ← sort_adjacent b
        c' ← sort_adjacent c
        (low, mid, high) ← sort3 a' b' c'
        ok mid

  unfoldable pub choose_pivot : Result ℕ
  unfolding pivot_index
  choose_pivot = pivot_index >>= index latents

-- The number that the closure `gen_usize` returns, which is the next seed too.
unfoldable pub gen_usize : ℕ → ℕ
gen_usize seed =
    let r1 = bit_xor seed (shl 64 seed 13) in
    let r2 = bit_xor r1 (r1 >>> 7) in bit_xor r2 (shl 64 r2 17)

-- `usize::next_power_of_two`, from 2 on.
unfoldable pub next_power_of_two : ℕ → ℕ
next_power_of_two n = 2 ^ (ilog2 (n - 1) + 1)

module _ {ℓ} {A : Type ℓ} where
  -- The loop over `i`, with the number of turns left.
  unfoldable pub break_each : ℕ → ℕ → ℕ → ℕ → ℕ → List A → Result (List A)
  unfolding gen_usize
  break_each modulus pos seed i zero v = ok v
  break_each modulus pos seed i (suc left) v = do
    let seed' = gen_usize seed
    let other = bit_and seed' (modulus - 1)
    before ← sub_usize pos 1
    v' ← swap v (before + i) (if leb (length v) other then other - length v else other)
    break_each modulus pos seed' (i + 1) left v'

  unfoldable pub break_patterns : List A → Result (List A)
  unfolding break_each next_power_of_two
  break_patterns v =
      if ltb (length v) 8
      then ok v
      else break_each (next_power_of_two (length v)) (length v / 4 * 2) (length v) 0 3 v

  break_each_lem :
      (k pos seed i left : ℕ) (v : List A)
      → 1 ≤ pos
      → pos + i + left ≤ length v + 1
      → 2 ^ k < 2 * length v
      → Returns (λ out. Rearranged out v) (break_each (2 ^ k) pos seed i left v)
  unfolding break_each
  break_each_lem k pos seed i zero v p h m = returns (Rearranged-refl v)
  break_each_lem k pos seed i (suc left) v p h m =
      let value : ℕ = bit_and (gen_usize seed) (2 ^ k - 1) in
      let small : value < 2 ^ k =
        rw (bit_and_mask k (gen_usize seed)) (mod-lt (gen_usize seed) (two-pow-pos k)) in
      let inside : (if leb (length v) value then value - length v else value) < length v =
        elim (Bool-cases (leb (length v) value)) [
          | inl over ↦ rw over (omega (arith, small, m))
          | inr under ↦ rw under (leb-false (length v) value under)
        ] in
      rw (le→ltb pos 1 p) (
        Returns-bind (swap-Rearranged v (pos - 1 + i) _ (omega (arith, h, p)) inside) λ v' mixed.
          let n : length v' ≡ length v = Rearranged-length mixed in
          Returns-map
            (break_each_lem k pos (gen_usize seed) (i + 1) left v' p (omega (arith, h, n))
              (omega (arith, m, n)))
            λ out more. in_turn more mixed)

  -- Breaking patterns ends without an access out of range, and only reorders.
  pub break_patterns-Rearranged :
      (v : List A) → Returns (λ out. Rearranged out v) (break_patterns v)
  unfolding break_patterns next_power_of_two
  break_patterns-Rearranged v =
      Returns-if (ltb (length v) 8) (λ small. returns (Rearranged-refl v))
        (λ large.
          let n : 8 ≤ length v = ltb-false (length v) 8 large in
          let (low, high) = ilog2_bounds (length v - 1) (omega (arith, n)) in
          break_each_lem (ilog2 (length v - 1) + 1) (length v / 4 * 2) (length v) 0 3 v
            (omega (arith, n)) (omega (arith, n))
            (omega (arith, n, low, pow-add (ilog2 (length v - 1)) 1)))

module _ (latents : List ℕ) where
  InRange : ℕ → Type 0
  InRange i = i < length latents

  sort2-InRange :
      (a b : ℕ)
      → InRange a
      → InRange b
      → Returns (λ (x, y). InRange x × InRange y) (sort2 latents a b)
  unfolding sort2 InRange
  sort2-InRange a b ha hb =
      rw (index-eq-get_or latents b 0 hb, index-eq-get_or latents a 0 ha)
        (elim (Bool-cases (ltb (get_or latents b 0) (get_or latents a 0))) [
          | inl less ↦ rw less (returns (hb, ha))
          | inr other ↦ rw other (returns (ha, hb))
        ])

  sort3-InRange :
      (a b c : ℕ)
      → InRange a
      → InRange b
      → InRange c
      → Returns (λ (x, y, z). InRange y) (sort3 latents a b c)
  unfolding sort3
  sort3-InRange a b c ha hb hc = Returns-bind (sort2-InRange a b ha hb) λ (a1, b1) (ha1, hb1).
      Returns-bind (sort2-InRange b1 c hb1 hc) λ (b2, c2) (hb2, hc2).
        Returns-bind (sort2-InRange a1 b2 ha1 hb2) λ (a3, b3) (ha3, hb3). returns hb3

  sort_adjacent-InRange :
      (a : ℕ) → 1 ≤ a → InRange (a + 1) → Returns InRange (sort_adjacent latents a)
  unfolding sort_adjacent InRange
  sort_adjacent-InRange a h hi = rw (le→ltb a 1 h) (
      Returns-bind (sort3-InRange (a - 1) a (a + 1) (omega arith) (omega arith) hi)
        λ (x, y, z) hy. returns hy)

  pivot_index-InRange :
      1 ≤ length latents → length latents < 2 ^ 62 → Returns InRange (pivot_index latents)
  unfolding pivot_index InRange
  pivot_index-InRange some few =
      let third : u64 (length latents * 3) / 4 ≡ length latents * 3 / 4 = omega (arith, few) in
      rw third (
        Returns-if (ltb (length latents) 8) (λ small. returns (omega arith))
          (λ large.
            let n : 8 ≤ length latents = ltb-false (length latents) 8 large in
            Returns-if (ltb (length latents) shortest_median_of_medians)
              (λ shorter.
                Returns-bind
                  (sort3-InRange (length latents / 4) (length latents / 2) (length latents * 3 / 4)
                    (omega (arith, n)) (omega (arith, n)) (omega (arith, n)))
                  λ (x, y, z) hy. returns hy)
              (λ longer.
                Returns-bind
                  (sort_adjacent-InRange (length latents / 4) (omega (arith, n)) (omega (arith, n)))
                  λ a ha.
                    Returns-bind
                      (sort_adjacent-InRange (length latents / 2) (omega (arith, n))
                        (omega (arith, n)))
                      λ b hb.
                        Returns-bind
                          (sort_adjacent-InRange (length latents * 3 / 4) (omega (arith, n))
                            (omega (arith, n)))
                          λ c hc.
                            Returns-bind (sort3-InRange a b c ha hb hc)
                              λ (x, y, z) hy. returns hy)))

  -- The pivot is one of the latents.
  pub choose_pivot-get_or :
      1 ≤ length latents
      → length latents < 2 ^ 62
      → Returns
          (λ pivot. (i : ℕ) × (i < length latents) × (pivot ≡ get_or latents i 0))
          (choose_pivot latents)
  unfolding choose_pivot InRange
  choose_pivot-get_or some few =
      Returns-bind (pivot_index-InRange some few)
        λ i hi. rw (index-eq-get_or latents i 0 hi) (returns (i, hi, refl))
