-- ===== src/Delta/Consecutive.antt =====
-- pco/src/delta.rs: consecutive deltas of any order. Functions that work in place take the slice and
-- return it changed.
use pcodec.Common.{ℕ, zero, suc, List, [], ◌∷◌, ◌++◌, length, get_or, take, drop, map}
use pcodec.Errors.{Result, ok, ◌>>=◌}
use pcodec.Slice.{index, assign}
use pcodec.Latent.{wrapping_add, wrapping_sub, toggle_center}

module _ (w : ℕ) where
  unfoldable pub toggle_center_in_place : List ℕ → List ℕ
  toggle_center_in_place latents = map (toggle_center w) latents

  -- The loop `for i in (1..n).rev()`, entered with `n - 1`.
  unfoldable pub encode_down : ℕ → List ℕ → Result (List ℕ)
  encode_down zero latents = ok latents
  encode_down (suc i) latents = do
    latent ← index latents (suc i)
    previous ← index latents i
    latents' ← assign latents (suc i) (wrapping_sub w latent previous)
    encode_down i latents'

  unfoldable pub first_order_encode_consecutive_in_place : List ℕ → Result (List ℕ)
  unfolding encode_down
  first_order_encode_consecutive_in_place [] = ok []
  first_order_encode_consecutive_in_place (x ∷ xs) = encode_down (length xs) (x ∷ xs)

  -- The loop over the order. It returns the moments, the junk that is left at the front, and the
  -- slice behind it.
  unfoldable pub encode_rounds : ℕ → List ℕ → Result (List ℕ × List ℕ × List ℕ)
  unfolding first_order_encode_consecutive_in_place
  encode_rounds zero latents = ok ([], [], latents)
  encode_rounds (suc order) latents = do
    let moment = get_or latents 0 0
    deltas ← first_order_encode_consecutive_in_place latents
    (moments, junk, rest) ← encode_rounds order (drop 1 deltas)
    ok (moment ∷ moments, take 1 deltas ++ junk, rest)

  -- The moments of the page, and the whole slice.
  unfoldable pub encode_consecutive_in_place : ℕ → List ℕ → Result (List ℕ × List ℕ)
  unfolding encode_rounds toggle_center_in_place
  encode_consecutive_in_place order latents = do
    (moments, junk, rest) ← encode_rounds order latents
    ok (moments, junk ++ toggle_center_in_place rest)

  unfoldable pub first_order_decode_consecutive_in_place : ℕ → List ℕ → ℕ × List ℕ
  first_order_decode_consecutive_in_place moment [] = (moment, [])
  first_order_decode_consecutive_in_place moment (delta ∷ deltas) =
      let (moment', rest) =
        first_order_decode_consecutive_in_place (wrapping_add w moment delta) deltas in
      (moment', moment ∷ rest)

  -- The loop over the moments, the last of them first.
  unfoldable pub decode_rounds : List ℕ → List ℕ → List ℕ × List ℕ
  unfolding first_order_decode_consecutive_in_place
  decode_rounds [] latents = ([], latents)
  decode_rounds (moment ∷ moments) latents =
      let (moments', deltas) = decode_rounds moments latents in
      let (moment', latents') = first_order_decode_consecutive_in_place moment deltas in
      (moment' ∷ moments', latents')

  unfoldable pub decode_consecutive_in_place : List ℕ → List ℕ → List ℕ × List ℕ
  unfolding decode_rounds toggle_center_in_place
  decode_consecutive_in_place delta_moments latents =
      decode_rounds delta_moments (toggle_center_in_place latents)
