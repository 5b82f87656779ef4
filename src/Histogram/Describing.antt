-- ===== src/Histogram/Describing.antt =====
-- What the bins of pco/src/histograms.rs say of the latents.
use pcodec.Common.{
  ℕ, zero, suc, ◌≤◌, ◌<◌, ◌≡◌, ◌⊎◌, inl, inr, min, max, refl, sym, ap, subst, ◌∙◌, arith, Option,
  none, some, List, [], ◌∷◌, ◌++◌, length, get_or, All, All-append, All_mono, All-before, All-after,
  append_assoc, append-nil, leb, Bool-cases, leb→le, leb-false, Rearranged, no_elements, keep_first,
  swap_first, in_turn, Rearranged-All,
}
use pcodec.Histogram.Builder.{Bound, loose, tight, loose_value, HistogramBin, fold_min, fold_max}

abbrev pub Has : ℕ → List ℕ → Type 0
Has x [] = ⊥
Has x (y ∷ ys) = (x ≡ y) ⊎ Has x ys

-- Every element of the first list is below every element of the second.
abbrev pub Below : List ℕ → List ℕ → Type 0
Below xs ys = All (λ x. All (λ y. x < y) ys) xs

-- The bin counts the latents, and its bounds are the least and the greatest of them.
pub record IsBin (bin : HistogramBin) (latents : List ℕ) : Type 0 where
  pub counted : bin.count ≡ length latents
  pub above : All (λ x. bin.lower ≤ x) latents
  pub below : All (λ x. x ≤ bin.upper) latents
  pub has_lower : Has bin.lower latents
  pub has_upper : Has bin.upper latents

-- The bins are of consecutive parts of the latents, each below the next.
abbrev pub Describes : List HistogramBin → List ℕ → Type 0
Describes [] latents = latents ≡ []
Describes (bin ∷ bins) latents =
    (part : List ℕ) × (rest : List ℕ) × (latents ≡ part ++ rest)
    × IsBin bin part
    × All (λ x. bin.upper < x) rest
    × Describes bins rest

abbrev pub IsIncomplete : Option HistogramBin → List ℕ → Type 0
IsIncomplete none latents = latents ≡ []
IsIncomplete (some bin) latents = IsBin bin latents

-- A tight bound is one of the latents.
abbrev pub IsLower : Bound → List ℕ → Type 0
IsLower (loose x) latents = All (λ y. x ≤ y) latents
IsLower (tight x) latents = Has x latents × All (λ y. x ≤ y) latents

abbrev pub IsUpper : Bound → List ℕ → Type 0
IsUpper (loose x) latents = All (λ y. y ≤ x) latents
IsUpper (tight x) latents = Has x latents × All (λ y. y ≤ x) latents

pub IsLower-All : (b : Bound) (xs : List ℕ) → IsLower b xs → All (λ y. loose_value b ≤ y) xs
IsLower-All (loose x) xs h = h
IsLower-All (tight x) xs (has, h) = h

pub IsUpper-All : (b : Bound) (xs : List ℕ) → IsUpper b xs → All (λ y. y ≤ loose_value b) xs
IsUpper-All (loose x) xs h = h
IsUpper-All (tight x) xs (has, h) = h

module _ (x : ℕ) where
  pub Has-before : (xs ys : List ℕ) → Has x xs → Has x (xs ++ ys)
  Has-before [] ys h = absurd h
  Has-before (y ∷ xs) ys (inl e) = inl e
  Has-before (y ∷ xs) ys (inr h) = inr (Has-before xs ys h)

  pub Has-after : (xs ys : List ℕ) → Has x ys → Has x (xs ++ ys)
  Has-after [] ys h = h
  Has-after (y ∷ xs) ys h = inr (Has-after xs ys h)

  pub Has-split : (xs ys : List ℕ) → Has x (xs ++ ys) → Has x xs ⊎ Has x ys
  Has-split [] ys h = inr h
  Has-split (y ∷ xs) ys (inl e) = inl (inl e)
  Has-split (y ∷ xs) ys (inr h) = elim (Has-split xs ys h) [
    | inl here ↦ inl (inr here)
    | inr there ↦ inr there
  ]

  pub All-Has : (P : ℕ → Type 0) (xs : List ℕ) → All P xs → Has x xs → P x
  All-Has P [] h there = absurd there
  All-Has P (y ∷ ys) (hy, h) (inl e) = subst P (sym e) hy
  All-Has P (y ∷ ys) (hy, h) (inr there) = All-Has P ys h there

  pub Rearranged-Has : {xs ys : List ℕ} → Rearranged xs ys → Has x xs → Has x ys
  Rearranged-Has no_elements there = absurd there
  Rearranged-Has (keep_first y h) (inl e) = inl e
  Rearranged-Has (keep_first y h) (inr there) = inr (Rearranged-Has h there)
  Rearranged-Has (swap_first y z xs) (inl e) = inr (inl e)
  Rearranged-Has (swap_first y z xs) (inr (inl e)) = inl e
  Rearranged-Has (swap_first y z xs) (inr (inr there)) = inr (inr there)
  Rearranged-Has (in_turn h k) there = Rearranged-Has k (Rearranged-Has h there)

pub Has-get_or : (xs : List ℕ) (i : ℕ) → i < length xs → Has (get_or xs i 0) xs
Has-get_or [] i h = absurd (omega arith)
Has-get_or (x ∷ xs) zero h = inl refl
Has-get_or (x ∷ xs) (suc i) h = inr (Has-get_or xs i (omega arith))

pub IsLower-Rearranged :
    (b : Bound) {xs ys : List ℕ} → Rearranged xs ys → IsLower b xs → IsLower b ys
IsLower-Rearranged (loose x) mixed h = Rearranged-All _ mixed h
IsLower-Rearranged (tight x) mixed (has, h) = (Rearranged-Has x mixed has, Rearranged-All _ mixed h)

pub IsUpper-Rearranged :
    (b : Bound) {xs ys : List ℕ} → Rearranged xs ys → IsUpper b xs → IsUpper b ys
IsUpper-Rearranged (loose x) mixed h = Rearranged-All _ mixed h
IsUpper-Rearranged (tight x) mixed (has, h) = (Rearranged-Has x mixed has, Rearranged-All _ mixed h)

pub Below-empty : (xs : List ℕ) → Below xs []
Below-empty [] = tt
Below-empty (x ∷ xs) = (tt, Below-empty xs)

pub Below-append : (xs ys zs : List ℕ) → Below xs ys → Below xs zs → Below xs (ys ++ zs)
Below-append [] ys zs h k = tt
Below-append (x ∷ xs) ys zs (hx, h) (kx, k) = (All-append _ ys zs hx kx, Below-append xs ys zs h k)

-- A value between the two lists.
pub Below-between :
    (v : ℕ) (xs ys : List ℕ) → All (λ x. x < v) xs → All (λ y. v ≤ y) ys → Below xs ys
Below-between v [] ys h k = tt
Below-between v (x ∷ xs) ys (hx, h) k =
    (All_mono (λ y. v ≤ y) ys (λ y le. omega (arith, hx, le)) k, Below-between v xs ys h k)

pub Below-Rearranged : (xs : List ℕ) {ys zs : List ℕ} → Rearranged ys zs → Below xs ys → Below xs zs
Below-Rearranged xs mixed h = All_mono _ xs (λ x k. Rearranged-All _ mixed k) h

pub Describes-append :
    (bins : List HistogramBin) (bin : HistogramBin) (xs ys : List ℕ)
    → Describes bins xs
    → IsBin bin ys
    → Below xs ys
    → Describes (bins ++ (bin ∷ [])) (xs ++ ys)
Describes-append [] bin xs ys e is_bin below =
    (ys, [], ap (λ zs. zs ++ ys) e ∙ sym (append-nil ys), is_bin, tt, refl)
Describes-append (b ∷ bins) bin xs ys (part, rest, e, is_part, over, more) is_bin below =
    let below_rest : Below rest ys = All-after _ part rest (subst (λ zs. Below zs ys) e below) in
    (
      part,
      rest ++ ys,
      ap (λ zs. zs ++ ys) e ∙ append_assoc part rest ys,
      is_part,
      All-append _ rest ys over (
          All-Has b.upper _ part (All-before _ part rest (subst (λ zs. Below zs ys) e below))
            is_part.has_upper),
      Describes-append bins bin rest ys more is_bin below_rest,
    )

-- The least of the latents and a given number.
fold_min_lem :
    (acc : ℕ) (xs : List ℕ)
    → (fold_min acc xs ≤ acc)
      × All (λ x. fold_min acc xs ≤ x) xs
      × ((fold_min acc xs ≡ acc) ⊎ Has (fold_min acc xs) xs)
fold_min_lem acc [] = (omega arith, tt, inl refl)
fold_min_lem acc (x ∷ xs) =
    let (le, all, has) = fold_min_lem (min acc x) xs in
    (
      omega (arith, le),
      (omega (arith, le), all),
      elim has [
        | inl e ↦ elim (Bool-cases (leb acc x)) [
          | inl first ↦ inl (omega (arith, e, leb→le acc x first))
          | inr other ↦ inr (inl (omega (arith, e, leb-false acc x other)))
        ]
        | inr there ↦ inr (inr there)
      ],
    )

fold_max_lem :
    (acc : ℕ) (xs : List ℕ)
    → (acc ≤ fold_max acc xs)
      × All (λ x. x ≤ fold_max acc xs) xs
      × ((fold_max acc xs ≡ acc) ⊎ Has (fold_max acc xs) xs)
fold_max_lem acc [] = (omega arith, tt, inl refl)
fold_max_lem acc (x ∷ xs) =
    let (le, all, has) = fold_max_lem (max acc x) xs in
    (
      omega (arith, le),
      (omega (arith, le), all),
      elim has [
        | inl e ↦ elim (Bool-cases (leb acc x)) [
          | inl other ↦ inr (inl (omega (arith, e, leb→le acc x other)))
          | inr first ↦ inl (omega (arith, e, leb-false acc x first))
        ]
        | inr there ↦ inr (inr there)
      ],
    )

-- What a slice has as its least and its greatest latent.
module _ (top x : ℕ) (xs : List ℕ) (in_type : All (λ y. y ≤ top) (x ∷ xs)) where
  pub fold_min-Has :
      Has (fold_min top (x ∷ xs)) (x ∷ xs) × All (λ y. fold_min top (x ∷ xs) ≤ y) (x ∷ xs)
  fold_min-Has =
      let (le, all, has) = fold_min_lem top (x ∷ xs) in
      (elim has [ inl e ↦ inl (omega (arith, e, all.0, in_type.0)) | inr there ↦ there ], all)

pub fold_max-Has :
    (x : ℕ) (xs : List ℕ)
    → Has (fold_max 0 (x ∷ xs)) (x ∷ xs) × All (λ y. y ≤ fold_max 0 (x ∷ xs)) (x ∷ xs)
fold_max-Has x xs =
    let (le, all, has) = fold_max_lem 0 (x ∷ xs) in
    (elim has [ inl e ↦ inl (omega (arith, e, all.0)) | inr there ↦ there ], all)
