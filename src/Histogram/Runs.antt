-- ===== src/Histogram/Runs.antt =====
-- A run of equal latents in pco/src/histograms.rs.
use pcodec.Common.{
  ℕ, ◌+◌, ◌-◌, ◌*◌, ◌/◌, ◌^◌, ◌≤◌, ◌<◌, ◌≡◌, ◌≢◌, inl, inr, refl, ap, arith, if◌then◌else◌, leb,
  ltb, ltb→lt, leb→le, leb-false, Bool, true, false, List, ◌∷◌, ◌++◌, length, All, All_mono,
  length-append,
}
use native.Mathlib.Nat.{mul-le-mul_right, lt_of_mul-lt-mul_right}
use pcodec.Errors.{ok, ◌>>=◌, Returns, returns, Returns-bind, Returns-if}
use pcodec.Histogram.Builder.{
  Bound, tight, HistogramBuilder, apply_incomplete, complete_bin, run_bin, apply_constant_run,
}
use pcodec.Histogram.Describing.{Below, IsLower, IsUpper}
use pcodec.Histogram.Counts.{
  slot, end_of, slot-le, slot-lt, slot_below, end_of-le_n, bin_idx-eq-slot, c_count-eq-end_of,
}
use pcodec.Histogram.Progress.{
  Progress, Applied, apply_incomplete-Progress, complete_bin-Progress, close_if,
}

module _ (w n k : ℕ) where
  run_bin_lem :
      (state : HistogramBuilder) (given : List ℕ) (idx : ℕ)
      → Progress w n k state given
      → state.next_avail_bin_idx ≤ idx
      → Returns
          (λ (idx', state').
            Progress w n k state' given × (state'.next_avail_bin_idx ≤ idx') × (idx' ≤ idx))
          (run_bin w state idx)
  unfolding run_bin
  run_bin_lem state given idx p h =
      Returns-if (ltb state.next_avail_bin_idx idx)
        (λ later.
          let more : state.next_avail_bin_idx < idx = ltb→lt state.next_avail_bin_idx idx later in
          Returns-bind (complete_bin-Progress w n k state given (idx - 1) p (omega (arith, more)))
            λ (completed, state') (p', empty, outcome). elim outcome [
              | inl (e, next) ↦ rw e (returns (p', omega (arith, next, more), omega arith))
              | inr (e, same) ↦ rw e (
                  returns (
                    p',
                    omega (arith, ap HistogramBuilder.next_avail_bin_idx same, more),
                    omega arith,
                  ))
            ])
        (λ now. returns (p, h, omega arith))

  module _ (some_latents : 0 < n) (fits : (n + 1) * 2 ^ k < 2 ^ 64) where
    -- A bin that is ready at a rank is not behind the slot of a later rank.
    pub ready_slot : (next p q : ℕ) → next * n ≤ p * 2 ^ k → p ≤ q → next ≤ slot n k q
    ready_slot next p q ready h =
        let lt : next < slot n k q + 1 =
          lt_of_mul-lt-mul_right n
            (omega (arith, ready, mul-le-mul_right (2 ^ k) h, slot-lt n k some_latents fits q)) in
        omega (arith, lt)

    pub apply_constant_run-Applied :
        (state : HistogramBuilder) (given : List ℕ) (x : ℕ) (xs : List ℕ)
        → Applied w n k state given
        → All (λ y. y ≤ 2 ^ w - 1) (x ∷ xs)
        → All (λ y. y ≡ x) (x ∷ xs)
        → Below given (x ∷ xs)
        → length given + length (x ∷ xs) ≤ n
        → Returns
            (λ state'. Applied w n k state' (given ++ (x ∷ xs)))
            (apply_constant_run w state (x ∷ xs))
    unfolding apply_constant_run
    apply_constant_run-Applied state given x xs a in_type equal below room =
        let p = a.progress in
        let mid : ℕ = length given + length (x ∷ xs) / 2 in
        let stop : ℕ = length given + length (x ∷ xs) in
        let n_stop : length (given ++ (x ∷ xs)) ≡ stop = length-append given (x ∷ xs) in
        let mid_below : mid < n = omega (arith, room) in
        let le_mid : length given ≤ mid = omega arith in
        let mid_le : mid ≤ stop = omega arith in
        let q : ℕ = slot n k mid in
        let next : state.next_avail_bin_idx ≤ q =
          ready_slot state.next_avail_bin_idx (length given) mid a.ready le_mid in
        simp
          (
            p.applied,
            bin_idx-eq-slot n k some_latents fits state p.set_up w mid (omega (arith, mid_below)),
          )
          (Returns-bind (run_bin_lem state given q p next) λ (idx', state1) (p1, le, le').
            let (p2, same) =
              apply_incomplete-Progress w n k state1 given x xs (tight x) (tight x) p1 in_type below
                (inl refl, All_mono (λ y. y ≡ x) (x ∷ xs) (λ y e. omega (arith, e)) equal)
                (inl refl, All_mono (λ y. y ≡ x) (x ∷ xs) (λ y e. omega (arith, e)) equal) in
            let inside : idx' < 2 ^ k =
              omega (arith, le', slot_below n k some_latents fits mid mid_below) in
            simp (c_count-eq-end_of n k some_latents fits _ p2.set_up w idx' inside) (
              close_if w n k some_latents fits _ (given ++ (x ∷ xs)) idx'
                (leb (end_of n k idx') stop) p2 (omega (arith, same, le))
                (λ full. omega (arith, n_stop, leb→le (end_of n k idx') stop full))
                (λ part.
                  let short : stop < end_of n k idx' = leb-false (end_of n k idx') stop part in
                  let ends : end_of n k idx' ≤ n = end_of-le_n n k some_latents fits idx' inside in
                  let in_slot : state1.next_avail_bin_idx ≤ q = omega (arith, le, le') in
                  let before : mid ≤ length (given ++ (x ∷ xs)) = omega (arith, mid_le, n_stop) in
                  (
                    rw same (
                        omega (
                          arith,
                          mul-le-mul_right n in_slot,
                          slot-le n k some_latents fits mid,
                          mul-le-mul_right (2 ^ k) before,
                        )),
                    omega (arith, n_stop, short, ends),
                  ))))

    -- Latents that all fit into the bin of the next rank go to that bin, which is completed where it is full.
    pub fill-Applied :
        (state : HistogramBuilder) (given : List ℕ) (x : ℕ) (xs : List ℕ) (lower upper : Bound)
        (filled : Bool)
        → Applied w n k state given
        → All (λ y. y ≤ 2 ^ w - 1) (x ∷ xs)
        → Below given (x ∷ xs)
        → IsLower lower (x ∷ xs)
        → IsUpper upper (x ∷ xs)
        → length given + length (x ∷ xs) ≤ n
        → length given + length (x ∷ xs) ≤ end_of n k (slot n k (length given))
        → (filled ≡ true → length given + length (x ∷ xs) ≡ end_of n k (slot n k (length given)))
        → (filled ≡ false → length given + length (x ∷ xs) ≢ end_of n k (slot n k (length given)))
        → Returns
            (λ state'. Applied w n k state' (given ++ (x ∷ xs)))
            (if filled
              then (complete_bin w
                    (apply_incomplete w state (x ∷ xs) lower upper)
                    (slot n k (length given))
                  >>= λ (completed, state'). ok state')
              else ok (apply_incomplete w state (x ∷ xs) lower upper))
    fill-Applied state given x xs lower upper filled a in_type below hl hu room fit full part =
        let (p, same) =
          apply_incomplete-Progress w n k state given x xs lower upper a.progress in_type below hl
            hu in
        let idx : ℕ = slot n k (length given) in
        let next : state.next_avail_bin_idx ≤ idx =
          ready_slot state.next_avail_bin_idx (length given) (length given) a.ready (omega arith) in
        let n_all : length (given ++ (x ∷ xs)) ≡ length given + length (x ∷ xs) =
          length-append given (x ∷ xs) in
        let ends : end_of n k idx ≤ n =
          end_of-le_n n k some_latents fits idx
            (slot_below n k some_latents fits (length given) (omega (arith, room))) in
        close_if w n k some_latents fits (apply_incomplete w state (x ∷ xs) lower upper)
          (given ++ (x ∷ xs)) idx filled p (omega (arith, same, next))
          (λ on_true. omega (arith, n_all, full on_true))
          (λ on_false.
            let later : length given ≤ length (given ++ (x ∷ xs)) = omega (arith, n_all) in
            (
              rw same (omega (arith, a.ready, mul-le-mul_right (2 ^ k) later)),
              omega (arith, n_all, fit, ends, part on_false),
            ))
