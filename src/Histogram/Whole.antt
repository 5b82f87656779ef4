-- ===== src/Histogram/Whole.antt =====
-- The function `histogram` of pco/src/histograms.rs.
use pcodec.Common.{
  ℕ, ◌+◌, ◌*◌, ◌^◌, ◌≤◌, ◌<◌, ◌≡◌, refl, sym, ap, subst, ◌∙◌, arith, List, [], ◌∷◌, ◌++◌, length,
  All, All_mono, append-nil, Rearranged, Rearranged-refl, Rearranged-length,
}
use pcodec.Common.Pow.{two-pow-pos}
use native.Mathlib.Nat.{le_of_mul-le-mul_right, mul_comm}
use pcodec.Errors.{Returns, returns, Returns-bind}
use pcodec.Latent.{IsLatent}
use pcodec.Histogram.Builder.{HistogramBin, HistogramBuilder, new_builder}
use pcodec.Histogram.Recurse.{new_args, apply_quicksort_recurse, histogram}
use pcodec.Histogram.Describing.{Describes, IsIncomplete}
use pcodec.Histogram.Counts.{new_builder-IsSetUp}
use pcodec.Histogram.Progress.{Applied}
use pcodec.Histogram.Recursing.{recurse-Outcome}

-- The bins are of the latents, which are in some order, and there are not too many of them.
pub record IsHistogram (k : ℕ) (latents : List ℕ) (bins : List HistogramBin) (out : List ℕ)
    : Type 0 where
  pub same : Rearranged out latents
  pub described : Describes bins out
  pub few : length bins ≤ 2 ^ k

module _ (w n k : ℕ) (some_latents : 0 < n) (fits : (n + 1) * 2 ^ k < 2 ^ 64) where
  new_builder-Applied : Applied w n k (new_builder n k) []
  unfolding new_builder
  new_builder-Applied = record {
    progress = record {
      set_up = new_builder-IsSetUp n k some_latents fits;
      closed = [];
      pending = [];
      parts = refl;
      described = refl;
      opened = refl;
      gap = tt;
      applied = refl;
      few = omega arith;
    };
    ready = omega arith;
    whole = λ e. refl;
  }

  -- Where all the latents have been given, all of them are in completed bins.
  Applied-IsHistogram :
      (state : HistogramBuilder) (latents out : List ℕ)
      → length latents ≡ n
      → Applied w n k state out
      → Rearranged out latents
      → IsHistogram k latents state.dst out
  Applied-IsHistogram state latents out e a mixed =
      let p = a.progress in
      let all : length out ≡ n = Rearranged-length mixed ∙ e in
      let nothing : p.pending ≡ [] = subst (λ o. IsIncomplete o p.pending) (a.whole all) p.opened in
      let closed : out ≡ p.closed =
        p.parts ∙ ap (λ ys. p.closed ++ ys) nothing ∙ append-nil p.closed in
      let next : state.next_avail_bin_idx ≤ 2 ^ k =
        le_of_mul-le-mul_right {k = n}
          (omega (
            arith,
            subst (λ m. state.next_avail_bin_idx * n ≤ m * 2 ^ k) all a.ready,
            mul_comm n (2 ^ k),
          ))
          some_latents in
      record {
        same = mixed;
        described = subst (Describes state.dst) (sym closed) p.described;
        few = omega (arith, p.few, next);
      }

-- The latents are of the type, fewer than 2^62, and one more times the number of bins is below
-- 2^64. Then the histogram ends without a panic, without its fuel running out, and without any of its
-- debug assertions failing; it gives the same latents in some order, and at most 2 ^ `k` bins. The
-- bins are of consecutive parts of the reordered latents: a bin counts the latents of its part, its bounds are the
-- least and the greatest of them, and all latents of later parts are greater.
pub histogram-IsHistogram :
    (w k : ℕ) (latents : List ℕ)
    → All (IsLatent w) latents
    → length latents < 2 ^ 62
    → (length latents + 1) * 2 ^ k < 2 ^ 64
    → Returns (λ (bins, out). IsHistogram k latents bins out) (histogram w latents k)
unfolding histogram new_builder apply_quicksort_recurse new_args
histogram-IsHistogram w k [] in_type few fits =
    returns (record { same = Rearranged-refl []; described = refl; few = omega arith })
histogram-IsHistogram w k (x ∷ xs) in_type few fits =
    Returns-bind
      (recurse-Outcome w (length (x ∷ xs)) k (omega arith) fits few (2 ^ w)
        (new_builder (length (x ∷ xs)) k) [] (x ∷ xs) (new_args w (length (x ∷ xs)))
        (new_builder-Applied w (length (x ∷ xs)) k (omega arith) fits)
        (All_mono (IsLatent w) (x ∷ xs) (λ y h. omega (arith, h)) in_type)
        (All_mono (IsLatent w) (x ∷ xs) (λ y h. omega arith) in_type)
        (All_mono (IsLatent w) (x ∷ xs) (λ y h. omega (arith, h)) in_type) tt (omega arith)
        (omega arith) (omega arith) (omega (arith, two-pow-pos w)))
      λ (state, out) (a, mixed). returns (
        Applied-IsHistogram w (length (x ∷ xs)) k (omega arith) fits state (x ∷ xs) out refl a
          mixed)
