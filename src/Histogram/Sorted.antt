-- ===== src/Histogram/Sorted.antt =====
-- Ascending latents in pco/src/histograms.rs: every turn of the loop keeps what the builder knows.
use pcodec.Common.{
  ℕ, zero, suc, ◌+◌, ◌-◌, ◌*◌, ◌^◌, ◌≤◌, ◌<◌, ◌≡◌, inl, refl, sym, ap, subst, ◌∙◌, arith, leb, ltb,
  ltb→lt, le→ltb, leb→le, leb-false, ◌==◌, ==→eq, ==→ne, List, [], ◌∷◌, ◌++◌, length, get_or, take,
  drop, All, All_mono, All-append, All-before, All-after, All_of_get_or, get_or-take, length-append,
  length-take, length-drop, append-nil, append_assoc, take-append-drop, IsAscending,
}
use native.Mathlib.Nat.{mul-le-mul_right}
use pcodec.Errors.{Result, ok, ◌>>=◌, Returns, returns, Returns-bind, Returns-map, Returns-if}
use pcodec.Slice.{index-eq-get_or}
use pcodec.Delta.Choose.{sub_usize}
use pcodec.Histogram.Builder.{
  tight, HistogramBuilder, bin_idx, c_count, apply_before, apply_rest, apply_constant_run,
  apply_sorted, run_end,
}
use pcodec.Histogram.Describing.{Below, IsLower, IsUpper, Has-get_or, Below-between}
use pcodec.Histogram.Counts.{
  slot, end_of, slot_below, end_of-gt, bin_idx-eq-slot, c_count-eq-end_of,
}
use pcodec.Histogram.Progress.{Applied, apply_incomplete-Progress}
use pcodec.Histogram.Runs.{ready_slot, apply_constant_run-Applied, fill-Applied}
use pcodec.Histogram.Turns.{ascending_le, IsAscending-drop, IsRun, run_start-IsRun}

IsAscending-take : (n : ℕ) (xs : List ℕ) → IsAscending xs → IsAscending (take n xs)
IsAscending-take zero xs h = tt
IsAscending-take (suc n) [] h = tt
IsAscending-take (suc n) (x ∷ xs) (hx, h) = (
  All-before _ (take n xs) (drop n xs) (subst (All _) (sym (take-append-drop n xs)) hx),
  IsAscending-take n xs h,
)

drop_nil : (n : ℕ) → drop {A = ℕ} n [] ≡ []
drop_nil zero = refl
drop_nil (suc n) = refl

drop_twice : (m n : ℕ) (xs : List ℕ) → drop n (drop m xs) ≡ drop (m + n) xs
drop_twice zero n xs = ap (λ q. drop q xs) {x = n} {y = 0 + n} (omega arith)
drop_twice (suc m) n [] = drop_nil n ∙ sym (drop_nil (suc m + n))
drop_twice (suc m) n (x ∷ xs) =
    drop_twice m n xs ∙ ap (λ q. drop q (x ∷ xs)) {x = suc (m + n)} {y = suc m + n} (omega arith)

-- The latents in three parts.
parts_lem :
    (l r : ℕ) (xs : List ℕ) → l ≤ r → xs ≡ take l xs ++ (take (r - l) (drop l xs) ++ drop r xs)
parts_lem l r xs h =
    let behind : drop (r - l) (drop l xs) ≡ drop r xs =
      drop_twice l (r - l) xs ∙ ap (λ q. drop q xs) {x = l + (r - l)} {y = r} (omega arith) in
    sym (take-append-drop l xs)
    ∙ ap (λ ys. take l xs ++ ys)
        (sym (take-append-drop (r - l) (drop l xs))
          ∙ ap (λ ys. take (r - l) (drop l xs) ++ ys) behind)

pub Below-parts : (xs ys zs : List ℕ) → Below xs (ys ++ zs) → Below xs ys × Below xs zs
Below-parts xs ys zs h =
    (All_mono _ xs (λ x k. All-before _ ys zs k) h, All_mono _ xs (λ x k. All-after _ ys zs k) h)

-- The first and the last of ascending latents bound them.
ascending_bounds :
    (x : ℕ) (xs : List ℕ)
    → IsAscending (x ∷ xs)
    → IsLower (tight x) (x ∷ xs) × IsUpper (tight (get_or (x ∷ xs) (length xs) 0)) (x ∷ xs)
ascending_bounds x xs asc = (
  (inl refl, (omega arith, asc.0)),
  (
    Has-get_or (x ∷ xs) (length xs) (omega arith),
    All_of_get_or _ (x ∷ xs) 0
        λ i h. ascending_le (x ∷ xs) i (length xs) asc (omega (arith, h)) (omega arith),
  ),
)

module _ (w n k : ℕ) (some_latents : 0 < n) (fits : (n + 1) * 2 ^ k < 2 ^ 64) where
  apply_before-Applied :
      (state : HistogramBuilder) (given : List ℕ) (x : ℕ) (xs : List ℕ) (l : ℕ)
      → Applied w n k state given
      → IsAscending (x ∷ xs)
      → All (λ y. y ≤ 2 ^ w - 1) (take l (x ∷ xs))
      → Below given (take l (x ∷ xs))
      → l < length (x ∷ xs)
      → length given + length (x ∷ xs) ≤ n
      → Returns
          (λ state'. Applied w n k state' (given ++ take l (x ∷ xs)))
          (apply_before w state (x ∷ xs) l)
  unfolding apply_before
  apply_before-Applied state given x xs zero a asc in_type below h room =
      returns (subst (Applied w n k state) (sym (append-nil given)) a)
  apply_before-Applied state given x xs (suc l) a asc in_type below h room =
      let n_taken : length (take l xs) ≡ l = omega (arith, length-take l xs, h) in
      let (lower, upper) = ascending_bounds x (take l xs) (IsAscending-take (suc l) (x ∷ xs) asc) in
      let last : get_or (x ∷ take l xs) (length (take l xs)) 0 ≡ get_or (x ∷ xs) l 0 =
        ap (λ q. get_or (x ∷ take l xs) q 0) n_taken
        ∙ get_or-take (suc l) l (x ∷ xs) 0 (omega arith) in
      let (p, same) =
        apply_incomplete-Progress w n k state given x (take l xs) (tight x)
          (tight (get_or (x ∷ xs) l 0)) a.progress in_type below lower
          (subst (λ u. IsUpper (tight u) (x ∷ take l xs)) last upper) in
      let n_all : length (given ++ (x ∷ take l xs)) ≡ length given + suc l =
        length-append given (x ∷ take l xs) ∙ omega (arith, n_taken) in
      let later : length given ≤ length (given ++ (x ∷ take l xs)) = omega (arith, n_all) in
      rw (index-eq-get_or (x ∷ xs) l 0 (omega (arith, h))) (
        returns (record {
          progress = p;
          ready = rw same (omega (arith, a.ready, mul-le-mul_right (2 ^ k) later));
          whole = λ all. absurd (omega (arith, all, n_all, h, room));
        }))

  apply_rest-Applied :
      (state : HistogramBuilder) (given : List ℕ) (x : ℕ) (xs : List ℕ) (target_i : ℕ)
      → Applied w n k state given
      → IsAscending (x ∷ xs)
      → All (λ y. y ≤ 2 ^ w - 1) (x ∷ xs)
      → Below given (x ∷ xs)
      → length given + length (x ∷ xs) ≤ n
      → length given + target_i ≡ end_of n k (slot n k (length given))
      → length (x ∷ xs) ≤ target_i
      → Returns
          (λ state'. Applied w n k state' (given ++ (x ∷ xs)))
          (apply_rest w state (x ∷ xs) (slot n k (length given)) target_i)
  unfolding apply_rest
  apply_rest-Applied state given x xs target_i a asc in_type below room target h =
      let (lower, upper) = ascending_bounds x xs asc in
      let last : suc (length xs) - 1 ≡ length xs = omega arith in
      rw (last, index-eq-get_or (x ∷ xs) (length xs) 0 (omega arith))
        (fill-Applied w n k some_latents fits state given x xs (tight x)
          (tight (get_or (x ∷ xs) (length xs) 0)) (target_i == length (x ∷ xs)) a in_type below
          lower upper room (omega (arith, target, h))
          (λ e. omega (arith, target, ==→eq target_i (length (x ∷ xs)) e))
          (λ e f. ==→ne target_i (length (x ∷ xs)) e (omega (arith, target, f))))

  run-Applied :
      (state : HistogramBuilder) (given ys : List ℕ) (v : ℕ)
      → Applied w n k state given
      → All (λ y. y ≤ 2 ^ w - 1) ys
      → All (λ y. y ≡ v) ys
      → 1 ≤ length ys
      → Below given ys
      → length given + length ys ≤ n
      → Returns (λ state'. Applied w n k state' (given ++ ys)) (apply_constant_run w state ys)
  run-Applied state given [] v a in_type equal h below room = absurd (omega arith)
  run-Applied state given (y ∷ ys) v a in_type (e, equal) h below room =
      apply_constant_run-Applied w n k some_latents fits state given y ys a in_type
        (refl, All_mono (λ z. z ≡ v) ys (λ z f. f ∙ sym e) equal) below room

  -- A turn of the loop, where `next` is what the loop goes on with behind the run.
  turn-Applied :
      (state : HistogramBuilder) (given : List ℕ) (x : ℕ) (xs : List ℕ) (v l r : ℕ)
      (next : HistogramBuilder → Result HistogramBuilder)
      → Applied w n k state given
      → IsAscending (x ∷ xs)
      → All (λ y. y ≤ 2 ^ w - 1) (x ∷ xs)
      → Below given (x ∷ xs)
      → length given + length (x ∷ xs) ≤ n
      → IsRun v (x ∷ xs) l r
      → ((state' : HistogramBuilder) (given' : List ℕ)
          → Applied w n k state' given'
          → Below given' (drop r (x ∷ xs))
          → length given' + length (drop r (x ∷ xs)) ≤ n
          → Returns (λ state''. Applied w n k state'' (given' ++ drop r (x ∷ xs))) (next state'))
      → Returns
          (λ state'. Applied w n k state' (given ++ (x ∷ xs)))
          (apply_before w state (x ∷ xs) l >>= λ state1.
            apply_constant_run w state1 (take (r - l) (drop l (x ∷ xs))) >>= next)
  turn-Applied state given x xs v l r next a asc in_type below room is_run go =
      let first : List ℕ = take l (x ∷ xs) in
      let run : List ℕ = take (r - l) (drop l (x ∷ xs)) in
      let rest : List ℕ = drop r (x ∷ xs) in
      let split : x ∷ xs ≡ first ++ (run ++ rest) =
        parts_lem l r (x ∷ xs) (omega (arith, is_run.some)) in
      let typed : All (λ y. y ≤ 2 ^ w - 1) (first ++ (run ++ rest)) =
        subst (All (λ y. y ≤ 2 ^ w - 1)) split in_type in
      let (below_first, below_others) =
        Below-parts given first (run ++ rest) (subst (Below given) split below) in
      let (below_run, below_rest) = Below-parts given run rest below_others in
      let n_first : length first ≡ l =
        omega (arith, length-take l (x ∷ xs), is_run.some, is_run.inside) in
      let n_run : length run ≡ r - l =
        omega
          (arith, length-take (r - l) (drop l (x ∷ xs)), length-drop l (x ∷ xs), is_run.inside) in
      let n_rest : length rest ≡ suc (length xs) - r = length-drop r (x ∷ xs) in
      let n1 : length (given ++ first) ≡ length given + l =
        omega (arith, length-append given first, n_first) in
      let n2 : length ((given ++ first) ++ run) ≡ length given + r =
        omega (arith, length-append (given ++ first) run, n1, n_run, is_run.some) in
      let run_above : All (λ y. v ≤ y) run =
        All_mono (λ y. y ≡ v) run (λ y e. omega (arith, e)) is_run.run in
      let rest_above : All (λ y. v ≤ y) rest =
        All_mono (λ y. v < y) rest (λ y lt. omega (arith, lt)) is_run.after in
      let run_below : All (λ y. y < suc v) run =
        All_mono (λ y. y ≡ v) run (λ y e. omega (arith, e)) is_run.run in
      let joined : ((given ++ first) ++ run) ++ rest ≡ given ++ (x ∷ xs) =
        append_assoc (given ++ first) run rest
        ∙ append_assoc given first (run ++ rest)
        ∙ ap (λ ys. given ++ ys) (sym split) in
      Returns-bind
        (apply_before-Applied state given x xs l a asc (All-before _ first (run ++ rest) typed)
          below_first (omega (arith, is_run.some, is_run.inside)) room)
        λ state1 a1.
          Returns-bind
            (run-Applied state1 (given ++ first) run v a1
              (All-before _ run rest (All-after _ first (run ++ rest) typed)) is_run.run
              (omega (arith, n_run, is_run.some))
              (All-append _ given first below_run
                (Below-between v first run is_run.before run_above))
              (omega (arith, n1, n_run, room, is_run.some, is_run.inside)))
            λ state2 a2.
              Returns-map
                (go state2 ((given ++ first) ++ run) a2
                  (All-append _ (given ++ first) run
                    (All-append _ given first below_rest
                      (Below-between v first rest is_run.before rest_above))
                    (Below-between (suc v) run rest run_below is_run.after))
                  (omega (arith, n2, n_rest, room, is_run.inside)))
                λ state3 a3. subst (Applied w n k state3) joined a3

  pub apply_sorted-Applied :
      (fuel : ℕ) (state : HistogramBuilder) (given xs : List ℕ)
      → Applied w n k state given
      → IsAscending xs
      → All (λ y. y ≤ 2 ^ w - 1) xs
      → Below given xs
      → length given + length xs ≤ n
      → length xs ≤ fuel
      → Returns (λ state'. Applied w n k state' (given ++ xs)) (apply_sorted w fuel state xs)
  unfolding apply_sorted
  apply_sorted-Applied fuel state given [] a asc in_type below room h =
      returns (subst (Applied w n k state) (sym (append-nil given)) a)
  apply_sorted-Applied zero state given (x ∷ xs) a asc in_type below room h = absurd (omega arith)
  apply_sorted-Applied (suc fuel) state given (x ∷ xs) a asc in_type below room h =
      let c : ℕ = length given in
      let idx : ℕ = slot n k c in
      let target_i : ℕ = end_of n k idx - c in
      let inside : idx < 2 ^ k = slot_below n k some_latents fits c (omega (arith, room)) in
      let past : c < end_of n k idx = end_of-gt n k some_latents fits c in
      let next : state.next_avail_bin_idx ≤ idx =
        ready_slot w n k some_latents fits state.next_avail_bin_idx c c a.ready (omega arith) in
      let typed_rest : (r : ℕ) → All (λ y. y ≤ 2 ^ w - 1) (drop r (x ∷ xs)) = λ r.
        All-after _ (take r (x ∷ xs)) (drop r (x ∷ xs))
          (subst (All (λ y. y ≤ 2 ^ w - 1)) (sym (take-append-drop r (x ∷ xs))) in_type) in
      let found : bin_idx w state state.n_applied ≡ ok idx =
        ap (bin_idx w state) a.progress.applied
        ∙ bin_idx-eq-slot n k some_latents fits state a.progress.set_up w c (omega (arith, room)) in
      let target : c_count w state idx ≡ ok (end_of n k idx) =
        c_count-eq-end_of n k some_latents fits state a.progress.set_up w idx inside in
      let left : sub_usize (end_of n k idx) state.n_applied ≡ ok target_i =
        ap (sub_usize (end_of n k idx)) a.progress.applied
        ∙ rw (le→ltb (end_of n k idx) c (omega (arith, past))) refl in
      rw (found, target, left)
        (Returns-if (ltb idx state.next_avail_bin_idx)
          (λ taken. absurd (omega (arith, next, ltb→lt idx state.next_avail_bin_idx taken)))
          (λ free.
            Returns-if (leb (length (x ∷ xs)) target_i)
              (λ all.
                apply_rest-Applied state given x xs target_i a asc in_type below room
                  (omega (arith, past)) (leb→le (length (x ∷ xs)) target_i all))
              (λ part.
                let short : target_i < length (x ∷ xs) =
                  leb-false (length (x ∷ xs)) target_i part in
                rw
                  (
                    le→ltb target_i 1 (omega (arith, past)),
                    index-eq-get_or (x ∷ xs) (target_i - 1) 0 (omega (arith, short)),
                  )
                  (Returns-bind
                    (run_start-IsRun (x ∷ xs) target_i asc (omega (arith, past))
                      (omega (arith, short)))
                    λ l is_run.
                      let r : ℕ =
                        run_end (get_or (x ∷ xs) (target_i - 1) 0) (drop target_i (x ∷ xs))
                          target_i in
                      turn-Applied state given x xs (get_or (x ∷ xs) (target_i - 1) 0) l r
                        (λ state'. apply_sorted w fuel state' (drop r (x ∷ xs))) a asc in_type below
                        room is_run
                        λ state' given' a' below' room'.
                          apply_sorted-Applied fuel state' given' (drop r (x ∷ xs)) a'
                            (IsAscending-drop r (x ∷ xs) asc) (typed_rest r) below' room'
                            (omega (arith, h, length-drop r (x ∷ xs), is_run.some))))))
