-- ===== src/Delta/Dispatch.antt =====
-- pco/src/delta.rs: the choice between the delta encodings, on latents of `w` bits, of which the page's
-- range from `start` to `stop` is taken. The source borrows that range, so it is put back.
use pcodec.Common.{
  ℕ, ◌+◌, ◌-◌, ◌≡◌, refl, arith, if◌then◌else◌, ltb, ◌||◌, Option, none, some, List, [], ◌∷◌, ◌++◌,
  length, take, drop, length-append, drop-length_append, take-length_append, ap, ◌∙◌, suc, le→ltb,
}
use pcodec.Errors.{Result, ok, panic, ◌>>=◌}
use pcodec.Metadata.DeltaEncoding.{DeltaEncoding, no_delta, consecutive, lookback}
use pcodec.Delta.Consecutive.{encode_consecutive_in_place}
use pcodec.Delta.Lookback.{encode_with_lookbacks_in_place}
use pcodec.Delta.Choose.{choose_lookbacks}

-- `latents[start..stop]`
unfoldable pub slice_range : ℕ → ℕ → List ℕ → Result (List ℕ)
slice_range start stop latents =
    if ltb stop start || ltb (length latents) stop
    then panic
    else ok (take (stop - start) (drop start latents))

abbrev pub put_back : ℕ → List ℕ → List ℕ → List ℕ
put_back start inner latents = take start latents ++ (inner ++ drop (start + length inner) latents)

module _ (w : ℕ) where
  unfoldable pub compute_delta_latent_var :
      DeltaEncoding → List ℕ → ℕ → ℕ → Result (Option (List ℕ))
  unfolding slice_range
  compute_delta_latent_var no_delta latents start stop = ok none
  compute_delta_latent_var (consecutive config) latents start stop = ok none
  compute_delta_latent_var (lookback config) latents start stop = do
    inner ← slice_range start stop latents
    lookbacks ← choose_lookbacks w config inner
    ok (some lookbacks)

  -- The state of the deltas, and the latents with the range changed.
  unfoldable pub encode_in_place :
      DeltaEncoding → Option (List ℕ) → ℕ → ℕ → List ℕ → Result (List ℕ × List ℕ)
  unfolding slice_range
  encode_in_place no_delta delta_latents start stop latents = ok ([], latents)
  encode_in_place (consecutive config) delta_latents start stop latents = do
    inner ← slice_range start stop latents
    (state, out) ← encode_consecutive_in_place w config.order inner
    ok (state, put_back start out latents)
  encode_in_place (lookback config) none start stop latents = panic
  encode_in_place (lookback config) (some lookbacks) start stop latents = do
    inner ← slice_range start stop latents
    (state, out) ← encode_with_lookbacks_in_place w config lookbacks inner
    ok (state, put_back start out latents)

drop_past : (before ys : List ℕ) (n : ℕ) → drop (length before + n) (before ++ ys) ≡ drop n ys
drop_past [] ys n = ap (λ k. drop k ys) {x = 0 + n} {y = n} (omega arith)
drop_past (x ∷ before) ys n =
    ap (λ k. drop k (x ∷ (before ++ ys))) {x = suc (length before) + n}
      {y = suc (length before + n)} (omega arith)
    ∙ drop_past before ys n

module _ (before xs behind : List ℕ) where
  -- The range of the latents between two others.
  pub slice_range_lem :
      slice_range (length before) (length before + length xs) (before ++ (xs ++ behind)) ≡ ok xs
  unfolding slice_range
  slice_range_lem =
      let parts : length (before ++ (xs ++ behind)) ≡ length before + length xs + length behind =
        length-append before (xs ++ behind) ∙ rw (length-append xs behind) (omega arith) in
      let n : length before + length xs - length before ≡ length xs = omega arith in
      rw
        (
          parts,
          le→ltb (length before + length xs) (length before) (omega arith),
          le→ltb (length before + length xs + length behind) (length before + length xs)
              (omega arith),
          n,
          drop-length_append before (xs ++ behind),
        )
        (ap ok (take-length_append xs behind))

  pub put_back_lem :
      (inner : List ℕ)
      → length inner ≡ length xs
      → put_back (length before) inner (before ++ (xs ++ behind)) ≡ before ++ (inner ++ behind)
  put_back_lem inner same =
      rw
        (
          same,
          take-length_append before (xs ++ behind),
          drop_past before (xs ++ behind) (length xs),
          drop-length_append xs behind,
        )
        refl
