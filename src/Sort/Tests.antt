-- ===== src/Sort/Tests.antt =====
-- A short list of latents, taken apart and sorted.
use pcodec.Common.{List, ℕ, [], ◌∷◌, ◌≡◌, refl, Rearranged, IsAscending, false}
use pcodec.Errors.{ok, Returns}
use pcodec.Sort.Partition.{partition, IsPartition, partition-IsPartition}
use pcodec.Sort.Heapsort.{heapsort}
use pcodec.Sort.Sorting.{heapsort-IsAscending}

abbrev latents : List ℕ
latents = 5 ∷ 1 ∷ 7 ∷ 3 ∷ 7 ∷ 2 ∷ []

partition_run : partition latents 5 ≡ ok (3, false, 1 ∷ 3 ∷ 2 ∷ 7 ∷ 5 ∷ 7 ∷ [])
unfolding partition pcodec.Slice.assign
partition_run = refl

partition-IsPartition_example :
    Returns (λ (left_idx, bad, out). IsPartition 5 latents left_idx out) (partition latents 5)
partition-IsPartition_example = partition-IsPartition 5 latents

heapsort_run : heapsort latents ≡ ok (1 ∷ 2 ∷ 3 ∷ 5 ∷ 7 ∷ 7 ∷ [])
unfolding heapsort pcodec.Slice.swap
heapsort_run = refl

heapsort-IsAscending_example :
    Returns (λ out. IsAscending out × Rearranged out latents) (heapsort latents)
heapsort-IsAscending_example = heapsort-IsAscending latents
