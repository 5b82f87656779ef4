-- ===== src/Delta/Differences.antt =====
-- The in-place loop of pco/src/delta.rs takes the differences of the neighbours in the original list.
use pcodec.Common.{
  ℕ, zero, suc, ◌<◌, ◌≡◌, refl, ap, ◌∙◌, arith, List, [], ◌∷◌, length, get_or, set, leb,
  if◌then◌else◌, length-set, get_or-set_ne, get_or-set, get_or_ext,
}
use pcodec.Errors.{ok}
use pcodec.Slice.{assign-eq-ok, index-eq-get_or}
use pcodec.Latent.{wrapping_sub}
use pcodec.Delta.Consecutive.{encode_down, first_order_encode_consecutive_in_place}

module _ (w : ℕ) where
  -- The differences of a list, after a given element.
  abbrev pub differences : ℕ → List ℕ → List ℕ
  differences previous [] = []
  differences previous (x ∷ xs) = wrapping_sub w x previous ∷ differences x xs

  pub length-differences : (p : ℕ) (xs : List ℕ) → length (differences p xs) ≡ length xs
  length-differences p [] = refl
  length-differences p (x ∷ xs) = ap suc (length-differences x xs)

  -- What the loop leaves at an index, when it started at `i`.
  abbrev after : ℕ → List ℕ → ℕ → ℕ
  after i xs zero = get_or xs 0 0
  after i xs (suc j) =
      if leb (suc j) i
      then wrapping_sub w (get_or xs (suc j) 0) (get_or xs j 0)
      else get_or xs (suc j) 0

  after-set :
      (i : ℕ) (xs : List ℕ) (j : ℕ)
      → suc i < length xs
      → after i (set xs (suc i) (wrapping_sub w (get_or xs (suc i) 0) (get_or xs i 0))) j
        ≡ after (suc i) xs j
  after-set i xs zero h = get_or-set_ne xs (suc i) zero _ 0 (omega arith)
  after-set i xs (suc j) h =
      let v : ℕ = wrapping_sub w (get_or xs (suc i) 0) (get_or xs i 0) in
      rw (get_or-set xs (suc i) (suc j) v 0 h, get_or-set xs (suc i) j v 0 h) (ground arith)

  encode_down_lem :
      (i : ℕ) (xs : List ℕ)
      → i < length xs
      → (out : List ℕ) × (encode_down w i xs ≡ ok out)
        × (length out ≡ length xs)
        × ((j : ℕ) → get_or out j 0 ≡ after i xs j)
  unfolding encode_down
  encode_down_lem zero xs h = (xs, refl, refl, elim [ zero ↦ refl | suc j ↦ ground arith ])
  encode_down_lem (suc i) xs h =
      let v : ℕ = wrapping_sub w (get_or xs (suc i) 0) (get_or xs i 0) in
      let (out, runs, len, at) =
        encode_down_lem i (set xs (suc i) v) (rw length-set (omega arith)) in
      (
        out,
        rw
            (
              index-eq-get_or xs (suc i) 0 h,
              index-eq-get_or xs i 0 (omega arith),
              assign-eq-ok xs (suc i) v h,
            )
            runs,
        len ∙ length-set xs (suc i) v,
        λ j. at j ∙ after-set i xs j h,
      )

  differences_at :
      (p : ℕ) (xs : List ℕ) (j : ℕ)
      → j < length xs
      → get_or (differences p xs) j 0 ≡ wrapping_sub w (get_or xs j 0) (get_or (p ∷ xs) j 0)
  differences_at p [] j h = absurd (omega arith)
  differences_at p (x ∷ xs) zero h = refl
  differences_at p (x ∷ xs) (suc j) h = differences_at x xs j (omega arith)

  -- The in-place loop keeps the first element and puts the differences behind it.
  pub first_order_encode_lem :
      (x : ℕ) (xs : List ℕ)
      → first_order_encode_consecutive_in_place w (x ∷ xs) ≡ ok (x ∷ differences x xs)
  unfolding first_order_encode_consecutive_in_place
  first_order_encode_lem x xs =
      let (out, runs, len, at) = encode_down_lem (length xs) (x ∷ xs) (omega arith) in
      runs
      ∙ ap ok (
          get_or_ext 0 out (x ∷ differences x xs) (rw length-differences len)
            λ j h. at j ∙ at_differences j (rw len at h))
    where
      at_differences :
          (j : ℕ)
          → j < suc (length xs)
          → after (length xs) (x ∷ xs) j ≡ get_or (x ∷ differences x xs) j 0
      at_differences zero h = refl
      at_differences (suc j) h = ground (arith, differences_at x xs j)
