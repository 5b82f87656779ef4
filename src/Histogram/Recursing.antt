-- ===== src/Histogram/Recursing.antt =====
-- The recursion of pco/src/histograms.rs gives bins that describe the latents.
use pcodec.Common.{
  ℕ, zero, suc, ◌+◌, ◌-◌, ◌*◌, ◌^◌, ◌≤◌, ◌<◌, ◌≡◌, ◌≢◌, inl, inr, refl, sym, ap, ap₂, subst, ◌∙◌,
  arith, if◌then◌else◌, leb, leb→le, ◌==◌, ==→eq, ==→ne, ◌||◌, ◌&&◌, Bool, true, false, Bool-cases,
  List, [], ◌∷◌, ◌++◌, length, take, drop, All, All_mono, All-append, All-before, All-after,
  length-append, append-nil, append_assoc, take-length_append, drop-length_append, IsAscending,
  Rearranged, Rearranged-refl, Rearranged-sym, Rearranged-append, Rearranged-length, Rearranged-All,
  in_turn,
}
use pcodec.Traps.{sub_from_lem}
use pcodec.Errors.{Result, ok, Returns, returns, Returns-bind, Returns-map, Returns-if}
use pcodec.Sort.Partition.{partition-IsPartition}
use pcodec.Sort.Pivot.{choose_pivot-get_or}
use pcodec.Sort.Sorting.{heapsort-IsAscending}
use pcodec.Histogram.Builder.{Bound, loose_value, HistogramBuilder, bin_idx, c_count}
use pcodec.Histogram.Recurse.{
  RecurseArgs, pivot_bounds, apply_whole, limit_left, apply_sides, apply_pivot, apply_heapsorted,
  apply_quicksort_recurse,
}
use pcodec.Histogram.Describing.{
  Has, Below, IsLower, IsUpper, IsLower-All, IsUpper-All, IsLower-Rearranged, IsUpper-Rearranged,
  Has-get_or, Rearranged-Has, Below-between, Below-Rearranged,
}
use pcodec.Histogram.Counts.{slot, end_of, slot_below, bin_idx-eq-slot, c_count-eq-end_of}
use pcodec.Histogram.Progress.{Applied}
use pcodec.Histogram.Runs.{apply_constant_run-Applied, fill-Applied}
use pcodec.Histogram.Sorted.{Below-parts, apply_sorted-Applied}
use pcodec.Histogram.Sides.{AreSides, pivot_bounds-AreSides, shaken-Rearranged}

IsAscending-append :
    (v : ℕ) (xs ys : List ℕ)
    → IsAscending xs
    → IsAscending ys
    → All (λ x. x < v) xs
    → All (λ y. v ≤ y) ys
    → IsAscending (xs ++ ys)
IsAscending-append v [] ys h k low high = k
IsAscending-append v (x ∷ xs) ys (hx, h) k (lx, low) high = (
  All-append _ xs ys hx (All_mono (λ y. v ≤ y) ys (λ y le. omega (arith, lx, le)) high),
  IsAscending-append v xs ys h k low high,
)

All_zip_with :
    (P Q R : ℕ → Type 0) (xs : List ℕ)
    → ((x : ℕ) → P x → Q x → R x)
    → All P xs
    → All Q xs
    → All R xs
All_zip_with P Q R [] f h k = tt
All_zip_with P Q R (x ∷ xs) f (hx, h) (kx, k) = (f x hx kx, All_zip_with P Q R xs f h k)

or_false : (a b : Bool) → (a || b) ≡ false → a ≡ false
or_false true b e = e
or_false false b e = refl

-- Latents between two equal bounds are the same, and so is a single one.
all_same :
    (lo hi x : ℕ) (xs : List ℕ)
    → All (λ y. lo ≤ y) (x ∷ xs)
    → All (λ y. y ≤ hi) (x ∷ xs)
    → (lo == hi || length (x ∷ xs) == 1) ≡ true
    → All (λ y. y ≡ x) (x ∷ xs)
all_same lo hi x [] above below e = (refl, tt)
all_same lo hi x (y ∷ xs) above below e = elim (Bool-cases (lo == hi)) [
  | inl same ↦
      let e = ==→eq lo hi same in
      let between : All (λ z. z ≡ x) (x ∷ (y ∷ xs)) =
        All_zip_with (λ z. lo ≤ z) (λ z. z ≤ hi) (λ z. z ≡ x) (x ∷ (y ∷ xs))
          (λ z le ge. omega (arith, e, le, ge, above.0, below.0)) above below in
      between
  | inr other ↦ absurd (ground (arith, other, e))
]

limit_left_lem :
    (bad : Bool) (limit : ℕ)
    → 1 ≤ limit
    → limit_left bad limit ≡ ok (if bad then limit - 1 else limit)
unfolding limit_left
limit_left_lem false limit h = refl
limit_left_lem true limit h = sub_from_lem limit 1 h

limit_pos :
    (bad : Bool) (limit : ℕ)
    → 1 ≤ limit
    → (bad && ((if bad then limit - 1 else limit) == 0)) ≡ false
    → 1 ≤ (if bad then limit - 1 else limit)
limit_pos false limit h e = h
limit_pos true limit h e = ground (arith, ==→ne (limit - 1) 0 e)

module _ (w n k : ℕ) (some_latents : 0 < n) (fits : (n + 1) * 2 ^ k < 2 ^ 64)
    (few : n < 2 ^ 62) where
  abbrev pub Outcome : List ℕ → List ℕ → HistogramBuilder × List ℕ → Type 0
  Outcome given xs (state', ys) = Applied w n k state' (given ++ ys) × Rearranged ys xs

  apply_heapsorted-Applied :
      (state : HistogramBuilder) (given lhs rhs : List ℕ) (pivot : ℕ)
      → Applied w n k state given
      → All (λ x. x < pivot) lhs
      → All (λ x. pivot ≤ x) rhs
      → All (λ y. y ≤ 2 ^ w - 1) (lhs ++ rhs)
      → Below given (lhs ++ rhs)
      → length given + length (lhs ++ rhs) ≤ n
      → Returns (Outcome given (lhs ++ rhs)) (apply_heapsorted w state lhs rhs)
  unfolding apply_heapsorted
  apply_heapsorted-Applied state given lhs rhs pivot a low high in_type below room =
      Returns-bind (heapsort-IsAscending lhs) λ lhs' (asc_l, mixed_l).
        Returns-bind (heapsort-IsAscending rhs) λ rhs' (asc_r, mixed_r).
          let mixed : Rearranged (lhs' ++ rhs') (lhs ++ rhs) = Rearranged-append mixed_l mixed_r in
          let asc : IsAscending (lhs' ++ rhs') =
            IsAscending-append pivot lhs' rhs' asc_l asc_r
              (Rearranged-All _ (Rearranged-sym mixed_l) low)
              (Rearranged-All _ (Rearranged-sym mixed_r) high) in
          Returns-bind
            (apply_sorted-Applied w n k some_latents fits (length (lhs' ++ rhs')) state given
              (lhs' ++ rhs') a asc (Rearranged-All _ (Rearranged-sym mixed) in_type)
              (Below-Rearranged given (Rearranged-sym mixed) below)
              (omega (arith, room, Rearranged-length mixed)) (omega arith))
            λ state' a'. returns (a', mixed)

  -- What the recursion does with latents between bounds that are closer than `fuel`.
  abbrev pub Recurses :
      ℕ → (HistogramBuilder → List ℕ → RecurseArgs → Result (HistogramBuilder × List ℕ)) → Type 0
  Recurses fuel next =
      (state : HistogramBuilder) (given xs : List ℕ) (args : RecurseArgs)
      → Applied w n k state given
      → All (λ y. y ≤ 2 ^ w - 1) xs
      → IsLower args.lb xs
      → IsUpper args.ub xs
      → Below given xs
      → length given + length xs ≤ n
      → loose_value args.ub ≤ 2 ^ w - 1
      → 1 ≤ args.bad_pivot_limit
      → loose_value args.ub - loose_value args.lb < fuel
      → Returns (Outcome given xs) (next state xs args)

  module _ (fuel : ℕ)
      (next : HistogramBuilder → List ℕ → RecurseArgs → Result (HistogramBuilder × List ℕ))
      (go : Recurses fuel next) where
    apply_sides-Outcome :
        (state : HistogramBuilder) (given lhs rhs : List ℕ) (args : RecurseArgs)
        (lhs_ub rhs_lb : Bound) (bad : Bool) (pivot : ℕ)
        → Applied w n k state given
        → AreSides args.lb args.ub lhs_ub rhs_lb lhs rhs
        → loose_value args.ub ≤ 2 ^ w - 1
        → 1 ≤ args.bad_pivot_limit
        → loose_value args.ub - loose_value args.lb < suc fuel
        → All (λ x. x < pivot) lhs
        → All (λ x. pivot ≤ x) rhs
        → All (λ y. y ≤ 2 ^ w - 1) (lhs ++ rhs)
        → Below given (lhs ++ rhs)
        → length given + length (lhs ++ rhs) ≤ n
        → Returns
            (Outcome given (lhs ++ rhs))
            (apply_sides w next state args lhs_ub rhs_lb bad lhs rhs)
    unfolding apply_sides
    apply_sides-Outcome state given lhs rhs args lhs_ub rhs_lb bad pivot a sides top left h low high
          in_type below room =
        let limit : ℕ = if bad then args.bad_pivot_limit - 1 else args.bad_pivot_limit in
        rw (limit_left_lem bad args.bad_pivot_limit left) (
          Returns-if (bad && (limit == 0))
            (λ limited.
              apply_heapsorted-Applied state given lhs rhs pivot a low high in_type below room)
            (λ unlimited.
              let (below_lhs, below_rhs) = Below-parts given lhs rhs below in
              let n_both : length (lhs ++ rhs) ≡ length lhs + length rhs = length-append lhs rhs in
              Returns-bind (shaken-Rearranged w bad lhs rhs) λ (lhs1, rhs1) (mixed_l, mixed_r).
                Returns-bind
                  (go state given lhs1
                    (record { lb = args.lb; ub = lhs_ub; bad_pivot_limit = limit }) a
                    (Rearranged-All _ (Rearranged-sym mixed_l) (All-before _ lhs rhs in_type))
                    (IsLower-Rearranged args.lb (Rearranged-sym mixed_l) sides.lhs_lower)
                    (IsUpper-Rearranged lhs_ub (Rearranged-sym mixed_l) sides.lhs_upper)
                    (Below-Rearranged given (Rearranged-sym mixed_l) below_lhs)
                    (omega (arith, room, n_both, Rearranged-length mixed_l))
                    (omega (arith, top, sides.lhs_less))
                    (limit_pos bad args.bad_pivot_limit left unlimited)
                    (omega (arith, h, sides.lhs_less)))
                  λ (state1, lhs2) (a1, sorted_l).
                    let all_l : Rearranged lhs2 lhs = in_turn sorted_l mixed_l in
                    let below_now : Below (given ++ lhs2) rhs = All-append _ given lhs2 below_rhs (
                      Below-between pivot lhs2 rhs (Rearranged-All _ (Rearranged-sym all_l) low)
                        high) in
                    Returns-bind
                      (go state1 (given ++ lhs2) rhs1
                        (record { lb = rhs_lb; ub = args.ub; bad_pivot_limit = limit }) a1
                        (Rearranged-All _ (Rearranged-sym mixed_r) (All-after _ lhs rhs in_type))
                        (IsLower-Rearranged rhs_lb (Rearranged-sym mixed_r) sides.rhs_lower)
                        (IsUpper-Rearranged args.ub (Rearranged-sym mixed_r) sides.rhs_upper)
                        (Below-Rearranged (given ++ lhs2) (Rearranged-sym mixed_r) below_now)
                        (omega (
                          arith,
                          room,
                          n_both,
                          Rearranged-length mixed_r,
                          Rearranged-length all_l,
                          length-append given lhs2,
                        ))
                        top (limit_pos bad args.bad_pivot_limit left unlimited)
                        (omega (arith, h, sides.rhs_less)))
                      λ (state2, rhs2) (a2, sorted_r). returns (
                        subst (Applied w n k state2) (append_assoc given lhs2 rhs2) a2,
                        Rearranged-append all_l (in_turn sorted_r mixed_r),
                      )))

    apply_pivot-Outcome :
        (state : HistogramBuilder) (given : List ℕ) (x : ℕ) (xs : List ℕ) (args : RecurseArgs)
        → Applied w n k state given
        → All (λ y. y ≤ 2 ^ w - 1) (x ∷ xs)
        → IsLower args.lb (x ∷ xs)
        → IsUpper args.ub (x ∷ xs)
        → loose_value args.lb ≢ loose_value args.ub
        → Below given (x ∷ xs)
        → length given + length (x ∷ xs) ≤ n
        → loose_value args.ub ≤ 2 ^ w - 1
        → 1 ≤ args.bad_pivot_limit
        → loose_value args.ub - loose_value args.lb < suc fuel
        → Returns (Outcome given (x ∷ xs)) (apply_pivot w next state (x ∷ xs) args)
    unfolding apply_pivot
    apply_pivot-Outcome state given x xs args a in_type lower upper apart below room top left h =
        Returns-bind (choose_pivot-get_or (x ∷ xs) (omega arith) (omega (arith, room, few)))
          λ tentative_pivot (i, inside, e).
            let has : Has tentative_pivot (x ∷ xs) =
              subst (λ v. Has v (x ∷ xs)) (sym e) (Has-get_or (x ∷ xs) i inside) in
            let pivot : ℕ = (pivot_bounds w tentative_pivot (loose_value args.lb)).0 in
            Returns-bind (partition-IsPartition pivot (x ∷ xs)) λ (count, bad, out) part.
              let mixed : Rearranged (part.lhs ++ part.rhs) (x ∷ xs) =
                subst (λ ys. Rearranged ys (x ∷ xs)) part.parts part.same in
              let back : Rearranged (x ∷ xs) (part.lhs ++ part.rhs) = Rearranged-sym mixed in
              let left_part : take count out ≡ part.lhs =
                ap₂ take part.count part.parts ∙ take-length_append part.lhs part.rhs in
              let right_part : drop count out ≡ part.rhs =
                ap₂ drop part.count part.parts ∙ drop-length_append part.lhs part.rhs in
              rw (left_part, right_part)
                (Returns-map
                  (apply_sides-Outcome state given part.lhs part.rhs args _ _ bad pivot a
                    (pivot_bounds-AreSides args.lb args.ub part.lhs part.rhs tentative_pivot
                      (Rearranged-Has tentative_pivot back has)
                      (IsLower-Rearranged args.lb back lower)
                      (IsUpper-Rearranged args.ub back upper) apart w top part.below part.above)
                    top left h part.below part.above (Rearranged-All _ back in_type)
                    (Below-Rearranged given back below)
                    (omega (arith, room, Rearranged-length mixed)))
                  λ (state', ys) (a', sorted). (a', in_turn sorted mixed))

  pub recurse-Outcome : (fuel : ℕ) → Recurses fuel (apply_quicksort_recurse w fuel)
  unfolding apply_quicksort_recurse apply_whole
  recurse-Outcome fuel state given [] args a in_type lower upper below room top left h =
      returns (subst (Applied w n k state) (sym (append-nil given)) a, Rearranged-refl [])
  recurse-Outcome zero state given (x ∷ xs) args a in_type lower upper below room top left h =
      absurd (omega arith)
  recurse-Outcome (suc fuel) state given (x ∷ xs) args a in_type lower upper below room top left h =
      let c : ℕ = length given in
      let idx : ℕ = slot n k c in
      let inside : idx < 2 ^ k = slot_below n k some_latents fits c (omega (arith, room)) in
      let found : bin_idx w state state.n_applied ≡ ok idx =
        ap (bin_idx w state) a.progress.applied
        ∙ bin_idx-eq-slot n k some_latents fits state a.progress.set_up w c (omega (arith, room)) in
      let target : c_count w state idx ≡ ok (end_of n k idx) =
        c_count-eq-end_of n k some_latents fits state a.progress.set_up w idx inside in
      rw (found, target)
        (Returns-if (leb (state.n_applied + length (x ∷ xs)) (end_of n k idx))
          (λ fit.
            let fit' = leb→le (state.n_applied + length (x ∷ xs)) (end_of n k idx) fit in
            Returns-bind
              (fill-Applied w n k some_latents fits state given x xs args.lb args.ub
                (state.n_applied + length (x ∷ xs) == end_of n k idx) a in_type below lower upper
                room (omega (arith, fit', a.progress.applied))
                (λ e. omega (
                  arith,
                  a.progress.applied,
                  ==→eq (state.n_applied + length (x ∷ xs)) (end_of n k idx) e,
                ))
                (λ e f.
                  ==→ne (state.n_applied + length (x ∷ xs)) (end_of n k idx) e
                    (omega (arith, f, a.progress.applied))))
              λ state' a'. returns (a', Rearranged-refl (x ∷ xs)))
          (λ over.
            Returns-if (loose_value args.lb == loose_value args.ub || length (x ∷ xs) == 1)
              (λ constant.
                Returns-bind
                  (apply_constant_run-Applied w n k some_latents fits state given x xs a in_type
                    (all_same (loose_value args.lb) (loose_value args.ub) x xs
                      (IsLower-All args.lb (x ∷ xs) lower) (IsUpper-All args.ub (x ∷ xs) upper)
                      constant)
                    below room)
                  λ state' a'. returns (a', Rearranged-refl (x ∷ xs)))
              (λ mixed.
                apply_pivot-Outcome fuel (apply_quicksort_recurse w fuel) (recurse-Outcome fuel)
                  state given x xs args a in_type lower upper
                  (==→ne (loose_value args.lb) (loose_value args.ub) (
                    or_false (loose_value args.lb == loose_value args.ub) (length (x ∷ xs) == 1)
                      mixed))
                  below room top left h)))
