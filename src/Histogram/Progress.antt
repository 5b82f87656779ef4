-- ===== src/Histogram/Progress.antt =====
-- What the builder of pco/src/histograms.rs knows of the latents that it has been given, for `n` latents of `w`
-- bits and `2 ^ k` bins.
use pcodec.Common.{
  ℕ, ◌+◌, ◌-◌, ◌*◌, ◌^◌, ◌≤◌, ◌<◌, ◌≡◌, ◌⊎◌, inl, inr, refl, sym, ap, subst, ◌∙◌, arith,
  if◌then◌else◌, le→ltb, Bool, true, false, Option, none, some, List, [], ◌∷◌, ◌++◌, length, All,
  All-append, All_mono, All-before, All-after, append_assoc, append-nil, length-append,
}
use native.Mathlib.Nat.{mul-le-mul_right}
use pcodec.Errors.{ok, ◌>>=◌, Returns, returns, Returns-bind, Returns-if}
use pcodec.Histogram.Builder.{
  Bound, loose, tight, HistogramBin, HistogramBuilder, tight_bounds, new_upper, incomplete_with,
  apply_incomplete, complete_with, complete_bin,
}
use pcodec.Histogram.Describing.{
  Has, Below, IsBin, Describes, IsIncomplete, IsLower, IsUpper, Has-before, Has-after, All-Has,
  Below-append, Below-empty, Describes-append, fold_min-Has, fold_max-Has,
}
use pcodec.Histogram.Counts.{IsSetUp, end_of, end_of-reached}

Option-cases {ℓ} : {A : Type ℓ} (o : Option A) → (o ≡ none) ⊎ ((a : A) × (o ≡ some a))
Option-cases none = inl refl
Option-cases (some a) = inr (a, refl)

Below-before : (xs ys zs : List ℕ) → Below (xs ++ ys) zs → Below xs zs
Below-before xs ys zs h = All-before _ xs ys h

Below-after : (xs ys zs : List ℕ) → Below (xs ++ ys) zs → Below ys zs
Below-after xs ys zs h = All-after _ xs ys h

module _ (w : ℕ) (x : ℕ) (xs : List ℕ) (in_type : All (λ y. y ≤ 2 ^ w - 1) (x ∷ xs)) where
  new_upper_lem :
      (upper : Bound)
      → IsUpper upper (x ∷ xs)
      → Has (new_upper w (x ∷ xs) upper) (x ∷ xs)
        × All (λ y. y ≤ new_upper w (x ∷ xs) upper) (x ∷ xs)
  new_upper_lem (loose u) h = fold_max-Has x xs
  new_upper_lem (tight u) h = h

  tight_bounds-IsBin :
      (lower upper : Bound)
      → IsLower lower (x ∷ xs)
      → IsUpper upper (x ∷ xs)
      → IsBin
          (record {
            count = length (x ∷ xs);
            lower = (tight_bounds w (x ∷ xs) lower upper).0;
            upper = (tight_bounds w (x ∷ xs) lower upper).1;
          })
          (x ∷ xs)
  tight_bounds-IsBin (loose l) (loose u) hl hu =
      let (has_l, all_l) = fold_min-Has (2 ^ w - 1) x xs in_type in
      let (has_u, all_u) = fold_max-Has x xs in
      record { counted = refl; above = all_l; below = all_u; has_lower = has_l; has_upper = has_u }
  tight_bounds-IsBin (loose l) (tight u) hl (has_u, all_u) =
      let (has_l, all_l) = fold_min-Has (2 ^ w - 1) x xs in_type in
      record { counted = refl; above = all_l; below = all_u; has_lower = has_l; has_upper = has_u }
  tight_bounds-IsBin (tight l) (loose u) (has_l, all_l) hu =
      let (has_u, all_u) = fold_max-Has x xs in
      record { counted = refl; above = all_l; below = all_u; has_lower = has_l; has_upper = has_u }
  tight_bounds-IsBin (tight l) (tight u) (has_l, all_l) (has_u, all_u) = record {
    counted = refl;
    above = all_l;
    below = all_u;
    has_lower = has_l;
    has_upper = has_u;
  }

  incomplete_with-IsBin :
      (incomplete : Option HistogramBin) (pending : List ℕ) (lower upper : Bound)
      → IsIncomplete incomplete pending
      → Below pending (x ∷ xs)
      → IsLower lower (x ∷ xs)
      → IsUpper upper (x ∷ xs)
      → IsBin (incomplete_with w incomplete (x ∷ xs) lower upper) (pending ++ (x ∷ xs))
  incomplete_with-IsBin none pending lower upper e below hl hu =
      subst (λ ys. IsBin (incomplete_with w none (x ∷ xs) lower upper) (ys ++ (x ∷ xs))) (sym e)
        (tight_bounds-IsBin lower upper hl hu)
  incomplete_with-IsBin (some bin) pending lower upper is_bin below hl hu =
      let (has_u, all_u) = new_upper_lem upper hu in
      record {
        counted = omega (arith, is_bin.counted, length-append pending (x ∷ xs));
        above = All-append _ pending (x ∷ xs) is_bin.above (
            All_mono (λ y. bin.lower < y) (x ∷ xs) (λ y h. omega arith)
              (All-Has bin.lower _ pending below is_bin.has_lower));
        below =
            All-append _ pending (x ∷ xs)
              (All_mono (λ y. All (λ z. y < z) (x ∷ xs)) pending
                (λ y h.
                  let more = All-Has (new_upper w (x ∷ xs) upper) _ (x ∷ xs) h has_u in
                  omega (arith, more))
                below)
              all_u;
        has_lower = Has-before bin.lower pending (x ∷ xs) is_bin.has_lower;
        has_upper = Has-after (new_upper w (x ∷ xs) upper) pending (x ∷ xs) has_u;
      }

module _ (w : ℕ) (state : HistogramBuilder) (idx : ℕ) where
  complete_bin-none : state.incomplete_bin ≡ none → complete_bin w state idx ≡ ok (false, state)
  unfolding complete_bin
  complete_bin-none e = ap (complete_with w state idx) e

  complete_bin-some :
      (bin : HistogramBin)
      → state.incomplete_bin ≡ some bin
      → state.next_avail_bin_idx ≤ idx
      → complete_bin w state idx
        ≡ ok (
          true,
          record state {
            next_avail_bin_idx = idx + 1;
            dst = state.dst ++ (bin ∷ []);
            incomplete_bin = none;
          },
        )
  unfolding complete_bin
  complete_bin-some bin e h =
      ap (complete_with w state idx) e ∙ rw (le→ltb idx state.next_avail_bin_idx h) refl

module _ (w n k : ℕ) where
  pub record Progress (state : HistogramBuilder) (given : List ℕ) : Type 0 where
    pub set_up : IsSetUp n k state
    pub closed : List ℕ
    pub pending : List ℕ
    pub parts : given ≡ closed ++ pending
    pub described : Describes state.dst closed
    pub opened : IsIncomplete state.incomplete_bin pending
    pub gap : Below closed pending
    pub applied : state.n_applied ≡ length given
    pub few : length state.dst ≤ state.next_avail_bin_idx

  -- The next bin may take what comes at rank `p`.
  abbrev pub IsReady : HistogramBuilder → ℕ → Type 0
  IsReady state p = state.next_avail_bin_idx * n ≤ p * 2 ^ k

  pub record Applied (state : HistogramBuilder) (given : List ℕ) : Type 0 where
    pub progress : Progress state given
    pub ready : IsReady state (length given)
    pub whole : length given ≡ n → state.incomplete_bin ≡ none

  pub apply_incomplete-Progress :
      (state : HistogramBuilder) (given : List ℕ) (x : ℕ) (xs : List ℕ) (lower upper : Bound)
      → Progress state given
      → All (λ y. y ≤ 2 ^ w - 1) (x ∷ xs)
      → Below given (x ∷ xs)
      → IsLower lower (x ∷ xs)
      → IsUpper upper (x ∷ xs)
      → Progress (apply_incomplete w state (x ∷ xs) lower upper) (given ++ (x ∷ xs))
        × ((apply_incomplete w state (x ∷ xs) lower upper).next_avail_bin_idx
            ≡ state.next_avail_bin_idx)
  unfolding apply_incomplete
  apply_incomplete-Progress state given x xs lower upper p in_type below hl hu =
      let below' : Below (p.closed ++ p.pending) (x ∷ xs) =
        subst (λ ys. Below ys (x ∷ xs)) p.parts below in
      (
        record {
          set_up = record {
            for_n = p.set_up.for_n;
            for_bins = p.set_up.for_bins;
            for_log = p.set_up.for_log;
          };
          closed = p.closed;
          pending = p.pending ++ (x ∷ xs);
          parts = ap (λ ys. ys ++ (x ∷ xs)) p.parts ∙ append_assoc p.closed p.pending (x ∷ xs);
          described = p.described;
          opened =
              incomplete_with-IsBin w x xs in_type state.incomplete_bin p.pending lower upper
                p.opened (Below-after p.closed p.pending (x ∷ xs) below') hl hu;
          gap =
              Below-append p.closed p.pending (x ∷ xs) p.gap
                (Below-before p.closed p.pending (x ∷ xs) below');
          applied = omega (arith, p.applied, length-append given (x ∷ xs));
          few = p.few;
        },
        refl,
      )

  abbrev pub Outcome : HistogramBuilder → ℕ → Bool → HistogramBuilder → Type 0
  Outcome state idx completed state' =
      ((completed ≡ true) × (state'.next_avail_bin_idx ≡ idx + 1))
      ⊎ ((completed ≡ false) × (state' ≡ state))

  pub complete_bin-Progress :
      (state : HistogramBuilder) (given : List ℕ) (idx : ℕ)
      → Progress state given
      → state.next_avail_bin_idx ≤ idx
      → Returns
          (λ (completed, state').
            Progress state' given
            × (state'.incomplete_bin ≡ none)
            × Outcome state idx completed state')
          (complete_bin w state idx)
  complete_bin-Progress state given idx p h = elim (Option-cases state.incomplete_bin) [
    | inl e ↦ rw (complete_bin-none w state idx e) (returns (p, e, inr (refl, refl)))
    | inr (bin, e) ↦ rw (complete_bin-some w state idx bin e h) (
        returns (
          record {
            set_up = record {
              for_n = p.set_up.for_n;
              for_bins = p.set_up.for_bins;
              for_log = p.set_up.for_log;
            };
            closed = given;
            pending = [];
            parts = sym (append-nil given);
            described = subst (Describes (state.dst ++ (bin ∷ []))) (sym p.parts) (
                Describes-append state.dst bin p.closed p.pending p.described
                  (subst (λ o. IsIncomplete o p.pending) e p.opened) p.gap);
            opened = refl;
            gap = Below-empty given;
            applied = p.applied;
            few = omega (arith, p.few, h, length-append state.dst (bin ∷ []));
          },
          refl,
          inl (refl, refl),
        ))
  ]

  module _ (some_latents : 0 < n) (fits : (n + 1) * 2 ^ k < 2 ^ 64) where
    -- A bin is completed where it has been filled.
    pub close_if :
        (state : HistogramBuilder) (given : List ℕ) (idx : ℕ) (filled : Bool)
        → Progress state given
        → state.next_avail_bin_idx ≤ idx
        → (filled ≡ true → end_of n k idx ≤ length given)
        → (filled ≡ false → IsReady state (length given) × (length given < n))
        → Returns
            (λ state'. Applied state' given)
            (if filled
              then (complete_bin w state idx >>= λ (completed, state'). ok state')
              else ok state)
    close_if state given idx filled p h full part =
        Returns-if filled
          (λ on_true.
            let reached : (idx + 1) * n ≤ length given * 2 ^ k =
              end_of-reached n k some_latents fits idx (length given) (full on_true) in
            Returns-bind (complete_bin-Progress state given idx p h)
              λ (completed, state') (p', empty, outcome). returns (record {
                progress = p';
                ready = elim outcome [
                  | inl (e, next) ↦ rw next reached
                  | inr (e, same) ↦ rw same (omega (arith, reached, mul-le-mul_right n h))
                ];
                whole = λ all. empty;
              }))
          (λ on_false. returns (record {
            progress = p;
            ready = (part on_false).0;
            whole = λ all. absurd (omega (arith, all, (part on_false).1));
          }))
