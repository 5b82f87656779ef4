-- ===== src/Sort/Heapsort.antt =====
-- The heapsort of pco/src/sort_utils.rs. The loop of `sift_down` runs on fuel; the slice of `sift_down`
-- is taken out and put back.
use pcodec.Common.{
  ℕ, zero, suc, ◌+◌, ◌-◌, ◌*◌, ◌/◌, leb, ltb, if◌then◌else◌, List, ◌++◌, length, take, drop,
}
use pcodec.Errors.{Result, ok, panic, ◌>>=◌}
use pcodec.Slice.{index, swap}

-- The greater of the children, of which the first is given.
unfoldable pub greater_child : List ℕ → ℕ → Result ℕ
greater_child x child =
    if ltb (child + 1) (length x)
    then (do
      left ← index x child
      right ← index x (child + 1)
      ok (child + (if ltb left right then 1 else 0)))
    else ok child

unfoldable pub sift_down : ℕ → List ℕ → ℕ → Result (List ℕ)
unfolding greater_child
sift_down zero x node = panic
sift_down (suc fuel) x node =
    let step : Result (List ℕ) = do
      child ← greater_child x (2 * node + 1)
      parent ← index x node
      greater ← index x child
      let sink : Result (List ℕ) = swap x node child >>= λ y. sift_down fuel y child
      if leb greater parent then ok x else sink
    in if leb (length x) (2 * node + 1) then ok x else step

-- The loop over the nodes that have children, the last of them first.
unfoldable pub build_heap : ℕ → List ℕ → Result (List ℕ)
unfolding sift_down
build_heap zero latents = ok latents
build_heap (suc i) latents = sift_down (length latents + 1) latents i >>= build_heap i

-- The loop that takes the greatest latent from the heap, entered with the index of the last one.
unfoldable pub pop_heap : ℕ → List ℕ → Result (List ℕ)
unfolding sift_down
pop_heap zero latents = ok latents
pop_heap (suc i) latents = do
  latents' ← swap latents 0 (suc i)
  heap ← sift_down (suc i + 1) (take (suc i) latents') 0
  pop_heap i (heap ++ drop (suc i) latents')

unfoldable pub heapsort : List ℕ → Result (List ℕ)
unfolding build_heap pop_heap
heapsort latents = build_heap (length latents / 2) latents >>= pop_heap (length latents - 1)
