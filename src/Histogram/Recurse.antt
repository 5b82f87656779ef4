-- ===== src/Histogram/Recurse.antt =====
-- The recursion of pco/src/histograms.rs, on latents of `w` bits. It runs on fuel, which bounds its depth.
use pcodec.Common.{
  ℕ, zero, suc, ◌+◌, ◌-◌, ◌^◌, if◌then◌else◌, leb, ltb, ◌==◌, ◌||◌, ◌&&◌, Bool, true, false, List,
  [], ◌∷◌, ◌++◌, length, take, drop,
}
use pcodec.Common.Pow.{ilog2}
use pcodec.Latent.{wrapping_add}
use pcodec.Traps.{sub_from}
use pcodec.Errors.{Result, ok, panic, ◌>>=◌}
use pcodec.Sort.Partition.{partition}
use pcodec.Sort.Pivot.{choose_pivot, break_patterns}
use pcodec.Sort.Heapsort.{heapsort}
use pcodec.Histogram.Builder.{
  Bound, loose, tight, loose_value, HistogramBin, HistogramBuilder, new_builder, apply_incomplete,
  complete_bin, bin_idx, c_count, apply_constant_run, apply_sorted,
}

pub record RecurseArgs : Type 0 where
  pub lb : Bound
  pub ub : Bound
  pub bad_pivot_limit : ℕ

-- How many bad pivots are left.
unfoldable pub limit_left : Bool → ℕ → Result ℕ
unfolding sub_from
limit_left was_bad_pivot limit = if was_bad_pivot then sub_from limit 1 else ok limit

module _ (w : ℕ) where
  unfoldable pub new_args : ℕ → RecurseArgs
  new_args n = record { lb = loose 0; ub = loose (2 ^ w - 1); bad_pivot_limit = 1 + ilog2 (n + 1) }

  -- The pivot, and the bounds between the two sides of it.
  unfoldable pub pivot_bounds : ℕ → ℕ → ℕ × Bound × Bound
  pivot_bounds tentative_pivot loose_lb =
      if ltb loose_lb tentative_pivot
      then (tentative_pivot, loose (tentative_pivot - 1), tight tentative_pivot)
      else (
        wrapping_add w tentative_pivot 1,
        tight tentative_pivot,
        loose (wrapping_add w tentative_pivot 1),
      )

  -- The slice as a whole goes to one bin.
  unfoldable pub apply_whole :
      HistogramBuilder → List ℕ → RecurseArgs → ℕ → ℕ → Result HistogramBuilder
  apply_whole state latents args target_bin_idx target_c_count =
      let state' = apply_incomplete w state latents args.lb args.ub in
      if state.n_applied + length latents == target_c_count
      then (complete_bin w state' target_bin_idx >>= λ (completed, state''). ok state'')
      else ok state'

  -- Both sides are sorted, and the rest is done as for sorted latents.
  unfoldable pub apply_heapsorted :
      HistogramBuilder → List ℕ → List ℕ → Result (HistogramBuilder × List ℕ)
  apply_heapsorted state lhs rhs = do
    lhs' ← heapsort lhs
    rhs' ← heapsort rhs
    state' ← apply_sorted w (length (lhs' ++ rhs')) state (lhs' ++ rhs')
    ok (state', lhs' ++ rhs')

  -- The two sides as the recursion takes them, with the limit that is left.
  unfoldable pub shaken : Bool → List ℕ → List ℕ → Result (List ℕ × List ℕ)
  shaken false lhs rhs = ok (lhs, rhs)
  shaken true lhs rhs = do lhs' ← break_patterns lhs; rhs' ← break_patterns rhs; ok (lhs', rhs')

  -- The part behind the partition, where `next` is the recursion.
  unfoldable pub apply_sides :
      (HistogramBuilder → List ℕ → RecurseArgs → Result (HistogramBuilder × List ℕ))
      → HistogramBuilder
      → RecurseArgs
      → Bound
      → Bound
      → Bool
      → List ℕ
      → List ℕ
      → Result (HistogramBuilder × List ℕ)
  unfolding limit_left apply_heapsorted shaken
  apply_sides next state args lhs_ub rhs_lb was_bad_pivot lhs rhs =
      limit_left was_bad_pivot args.bad_pivot_limit >>= λ limit.
      if was_bad_pivot && (limit == 0) then apply_heapsorted state lhs rhs else do
        (lhs1, rhs1) ← shaken was_bad_pivot lhs rhs
        (state1, lhs2) ←
            next state lhs1 (record { lb = args.lb; ub = lhs_ub; bad_pivot_limit = limit })
        (state2, rhs2) ←
            next state1 rhs1 (record { lb = rhs_lb; ub = args.ub; bad_pivot_limit = limit })
        ok (state2, lhs2 ++ rhs2)

  -- The part from the choice of the pivot on.
  unfoldable pub apply_pivot :
      (HistogramBuilder → List ℕ → RecurseArgs → Result (HistogramBuilder × List ℕ))
      → HistogramBuilder
      → List ℕ
      → RecurseArgs
      → Result (HistogramBuilder × List ℕ)
  unfolding pivot_bounds apply_sides
  apply_pivot next state latents args = do
    tentative_pivot ← choose_pivot latents
    let (pivot, lhs_ub, rhs_lb) = pivot_bounds tentative_pivot (loose_value args.lb)
    (lhs_count, was_bad_pivot, out) ← partition latents pivot
    apply_sides next state args lhs_ub rhs_lb was_bad_pivot (take lhs_count out)
        (drop lhs_count out)

  unfoldable pub apply_quicksort_recurse :
      ℕ → HistogramBuilder → List ℕ → RecurseArgs → Result (HistogramBuilder × List ℕ)
  unfolding apply_whole apply_pivot
  apply_quicksort_recurse fuel state [] args = ok (state, [])
  apply_quicksort_recurse zero state (x ∷ latents) args = panic
  apply_quicksort_recurse (suc fuel) state (x ∷ latents) args = do
    target_bin_idx ← bin_idx w state state.n_applied
    target_c_count ← c_count w state target_bin_idx
    (if leb (state.n_applied + length (x ∷ latents)) target_c_count
        then (apply_whole state (x ∷ latents) args target_bin_idx target_c_count >>= λ state'.
            ok (state', x ∷ latents))
        else if loose_value args.lb == loose_value args.ub || length (x ∷ latents) == 1
        then (apply_constant_run w state (x ∷ latents) >>= λ state'. ok (state', x ∷ latents))
        else apply_pivot (apply_quicksort_recurse fuel) state (x ∷ latents) args)

  -- The bins, and the latents in their new order.
  unfoldable pub histogram : List ℕ → ℕ → Result (List HistogramBin × List ℕ)
  unfolding apply_quicksort_recurse new_args
  histogram latents n_bins_log = do
    (state, out) ←
        apply_quicksort_recurse (2 ^ w) (new_builder (length latents) n_bins_log) latents
          (new_args (length latents))
    ok (state.dst, out)
