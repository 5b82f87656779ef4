-- ===== src/Page/Search.antt =====
-- The search for the bins of a batch in pco/src/latent_batch_dissector.rs.
use pcodec.Common.{
  ℕ, zero, suc, ◌+◌, ◌-◌, min, if◌then◌else◌, leb, List, [], ◌∷◌, length, map, replicate,
}
use pcodec.Machine.{shl}
use pcodec.Errors.{Result, ok, ◌>>=◌}
use pcodec.Slice.{index}
use pcodec.Delta.Lookback.{full_batch_n}
use pcodec.Page.Table.{CompressionTable}

-- One round: every latent goes on to the upper half of its range or stays in the lower. The indices
-- behind those of the latents stay as they are.
unfoldable pub bisect : List ℕ → ℕ → List ℕ → List ℕ → Result (List ℕ)
bisect search_lowers bisection_idx [] search_idxs = ok search_idxs
bisect search_lowers bisection_idx (latent ∷ latents) [] = ok []
bisect search_lowers bisection_idx (latent ∷ latents) (search_idx ∷ search_idxs) = do
  value ← index search_lowers (search_idx + bisection_idx)
  rest ← bisect search_lowers bisection_idx latents search_idxs
  ok ((search_idx + (if leb value latent then bisection_idx else 0)) ∷ rest)

-- The rounds, with the number of them that are left.
unfoldable pub bisect_rounds : List ℕ → ℕ → List ℕ → List ℕ → Result (List ℕ)
unfolding bisect
bisect_rounds search_lowers zero latents search_idxs = ok search_idxs
bisect_rounds search_lowers (suc left) latents search_idxs = do
  search_idxs' ← bisect search_lowers (shl 64 1 left) latents search_idxs
  bisect_rounds search_lowers left latents search_idxs'

unfoldable pub binary_search : CompressionTable → List ℕ → Result (List ℕ)
unfolding bisect_rounds
binary_search table latents = do
  search_idxs ←
      bisect_rounds table.search_lowers table.search_size_log latents (replicate full_batch_n 0)
  let max_idx = length table.infos - 1
  ok (map (λ search_idx. min search_idx max_idx) search_idxs)
