-- ===== src/Page/Searching.antt =====
-- The search for the bins of a batch in pco/src/latent_batch_dissector.rs finds for each latent the
-- last bin whose lower bound is not above it.
use pcodec.Common.{
  IsAscending, ℕ, zero, suc, ◌+◌, ◌-◌, ◌*◌, ◌^◌, ◌≤◌, ◌<◌, ◌≡◌, refl, arith, if◌then◌else◌, leb,
  ltb, Bool-cases, inl, inr, List, [], ◌∷◌, ◌++◌, length, map, get_or, get_or-All, All, All_mono,
  leb-false,
}
use pcodec.Common.Pow.{two-pow-suc, two-pow-pos, pow_mono}
use pcodec.Machine.{shl}
use pcodec.Errors.{ok}
use pcodec.Slice.{index-eq-get_or}
use pcodec.Page.Search.{bisect, bisect_rounds}

-- How many of the bounds are not above the latent.
abbrev pub count_le : ℕ → List ℕ → ℕ
count_le l [] = 0
count_le l (x ∷ xs) = let rest = count_le l xs in if leb x l then suc rest else rest

pub count_le-le : (l : ℕ) (xs : List ℕ) → count_le l xs ≤ length xs
count_le-le l [] = omega arith
count_le-le l (x ∷ xs) = ground (arith, count_le-le l xs)

count_none : (l : ℕ) (xs : List ℕ) → All (λ y. l < y) xs → count_le l xs ≡ 0
count_none l [] h = refl
count_none l (x ∷ xs) (hx, h) = ground (arith, hx, count_none l xs h)

pub count_all : (l : ℕ) (xs : List ℕ) → All (λ y. y ≤ l) xs → count_le l xs ≡ length xs
count_all l [] h = refl
count_all l (x ∷ xs) (hx, h) = ground (arith, hx, count_all l xs h)

pub count_le-append :
    (l : ℕ) (xs ys : List ℕ) → count_le l (xs ++ ys) ≡ count_le l xs + count_le l ys
count_le-append l [] ys = omega arith
count_le-append l (x ∷ xs) ys = ground (arith, count_le-append l xs ys)

-- In an ascending list the bounds that are not above the latent come first.
count_le-get :
    (l : ℕ) (xs : List ℕ) (i : ℕ)
    → IsAscending xs
    → i < length xs
    → ltb i (count_le l xs) ≡ leb (get_or xs i 0) l
count_le-get l [] i h lt = absurd (omega arith)
count_le-get l (x ∷ xs) zero (hx, h) lt = elim (Bool-cases (leb x l)) [
  | inl le ↦ ground (arith, le)
  | inr gt ↦
      let none =
        count_none l xs (All_mono (λ y. x ≤ y) xs (λ y k. omega (arith, k, leb-false x l gt)) hx) in
      ground (arith, gt, none)
]
count_le-get l (x ∷ xs) (suc i) (hx, h) lt = elim (Bool-cases (leb x l)) [
  | inl le ↦ ground (arith, le, count_le-get l xs i h (omega arith))
  | inr gt ↦
      let above =
        All_mono (λ y. x ≤ y) {Q = λ y. l < y} xs (λ y k. omega (arith, k, leb-false x l gt)) hx in
      let none = count_none l xs above in
      let here = get_or-All (λ y. l < y) xs i 0 above (omega arith) in
      ground (arith, gt, none, here)
]

module _ (lowers : List ℕ) where
  -- The rounds for one latent.
  abbrev pub run : ℕ → ℕ → ℕ → ℕ
  run zero l idx = idx
  run (suc left) l idx =
      run left l (idx + (if leb (get_or lowers (idx + 2 ^ left) 0) l then 2 ^ left else 0))

  bisect_lem :
      (b : ℕ) (f : ℕ → ℕ) (latents tail : List ℕ)
      → ((l : ℕ) → f l + b < length lowers)
      → bisect lowers b latents (map f latents ++ tail)
        ≡ ok (map (λ l. f l + (if leb (get_or lowers (f l + b) 0) l then b else 0)) latents ++ tail)
  unfolding bisect
  bisect_lem b f [] tail h = refl
  bisect_lem b f (l ∷ latents) tail h =
      rw (index-eq-get_or lowers (f l + b) 0 (h l), bisect_lem b f latents tail h) refl

  pub rounds_lem :
      (left : ℕ) (f : ℕ → ℕ) (latents tail : List ℕ)
      → left < 64
      → ((l : ℕ) → f l + 2 ^ left ≤ length lowers)
      → bisect_rounds lowers left latents (map f latents ++ tail)
        ≡ ok (map (λ l. run left l (f l)) latents ++ tail)
  unfolding bisect_rounds
  rounds_lem zero f latents tail small h = refl
  rounds_lem (suc left) f latents tail small h =
      let b : shl 64 1 left ≡ 2 ^ left = omega (arith, pow_mono left 63 (omega arith)) in
      let double : 2 ^ suc left ≡ 2 * 2 ^ left = two-pow-suc left in
      let g : ℕ → ℕ =
        λ l. f l + (if leb (get_or lowers (f l + 2 ^ left) 0) l then 2 ^ left else 0) in
      rw
        (
          b,
          bisect_lem (2 ^ left) f latents tail (λ l. omega (arith, h l, double, two-pow-pos left)),
        )
        (rounds_lem left g latents tail (omega arith) (λ l. ground (arith, h l, double)))

  -- The range of the search closes in on the number of bounds.
  pub run_lem :
      (left l idx : ℕ)
      → IsAscending lowers
      → idx + 2 ^ left ≤ length lowers
      → idx ≤ count_le l lowers - 1
      → count_le l lowers ≤ idx + 2 ^ left
      → run left l idx ≡ count_le l lowers - 1
  run_lem zero l idx asc room lo hi = omega arith
  run_lem (suc left) l idx asc room lo hi =
      let double : 2 ^ suc left ≡ 2 * 2 ^ left = two-pow-suc left in
      let pos = two-pow-pos left in
      let probe = count_le-get l lowers (idx + 2 ^ left) asc (omega (arith, room, double, pos)) in
      let step : ℕ = if leb (get_or lowers (idx + 2 ^ left) 0) l then 2 ^ left else 0 in
      run_lem left l (idx + step) asc (ground (arith, room, double))
        (ground (arith, probe, lo, double)) (ground (arith, probe, hi, double))
