-- ===== src/Histogram/Tests.antt =====
-- Histograms of short lists of latents.
use pcodec.Common.{ℕ, List, [], ◌∷◌, ◌^◌, ◌≡◌, refl, arith, every_below→All}
use pcodec.Errors.{ok, Returns}
use pcodec.Histogram.Builder.{HistogramBin}
use pcodec.Histogram.Recurse.{histogram}
use pcodec.Histogram.Whole.{IsHistogram, histogram-IsHistogram}

abbrev latents : List ℕ
latents = 9 ∷ 2 ∷ 8 ∷ 4 ∷ 5 ∷ 6 ∷ 7 ∷ 3 ∷ 1 ∷ []

some_bins :
    histogram 32 latents 2
    ≡ ok (
      record { count = 3; lower = 1; upper = 3 }
          ∷ record { count = 2; lower = 4; upper = 5 }
          ∷ record { count = 2; lower = 6; upper = 7 }
          ∷ record { count = 2; lower = 8; upper = 9 }
          ∷ [],
      2 ∷ 1 ∷ 3 ∷ 4 ∷ 5 ∷ 6 ∷ 7 ∷ 8 ∷ 9 ∷ [],
    )
unfolding histogram pcodec.Sort.Pivot.choose_pivot pcodec.Sort.Partition.partition
    pcodec.Sort.Pivot.break_patterns pcodec.Sort.Heapsort.heapsort
    pcodec.Histogram.Builder.apply_sorted pcodec.Common.Pow.ilog2 pcodec.Slice.assign
    pcodec.Slice.swap pcodec.Histogram.Builder.new_builder pcodec.Latent.wrapping_add
some_bins = refl

histogram-IsHistogram_example :
    Returns (λ (bins, out). IsHistogram 2 latents bins out) (histogram 32 latents 2)
histogram-IsHistogram_example =
    histogram-IsHistogram 32 2 latents (every_below→All (2 ^ 32) latents refl) (omega arith)
      (omega arith)
